-- ===== src/Model/Supply.antt =====
-- ipp-async/src/model.rs: `SupplyLevel` and `Supply`, from the marker attributes.
pub mod Laws
pub mod Exact
use ipp_client.Prelude.{ℕ, suc, ◌+◌, min, ℤ, pos, negsuc, String, Option, List, [], ◌∷◌, get_elem?}

pub data SupplyLevel : Type 0 where
  percent : ℕ → SupplyLevel
  unknown : SupplyLevel

pub record Supply : Type 0 where
  pub name : String
  pub kind : Option String
  pub colour : Option String
  pub level : SupplyLevel
  pub low_threshold : Option ℤ

-- `n.min(100) as u8`; the cast keeps the value, which is at most 100.
unfoldable pub decode_level : ℤ → SupplyLevel
decode_level (negsuc n) = unknown
decode_level (pos n) = percent (min n 100)

-- The body of the closure, at position `i`.
unfoldable pub supply_at : List String → List String → List ℤ → ℕ → String → ℤ → Supply
unfolding decode_level
supply_at types colours low i name level = record {
  name = name;
  kind = get_elem? types i;
  colour = get_elem? colours i;
  level = decode_level level;
  low_threshold = get_elem? low i;
}

-- `names.iter().zip(levels.iter()).enumerate().map(…)`, from position `i` on.
unfoldable pub zip_from :
    List String → List String → List ℤ → ℕ → List String → List ℤ → List Supply
unfolding supply_at
zip_from types colours low i [] levels = []
zip_from types colours low i (name ∷ names) [] = []
zip_from types colours low i (name ∷ names) (level ∷ levels) =
    supply_at types colours low i name level ∷ zip_from types colours low (i + 1) names levels

unfoldable pub decode_list : List String → List ℤ → List String → List String → List ℤ → List Supply
unfolding zip_from
decode_list names levels types colours low = zip_from types colours low 0 names levels
