-- ===== src/Model/Supply/Laws.antt =====
-- The list of supplies against the marker attributes (ipp-async/src/model.rs).
use ipp_client.Prelude.{
  ℕ, zero, suc, ◌+◌, ◌≤◌, min, ℤ, pos, negsuc, String, ◌≡◌, refl, List, [], ◌∷◌, get_elem?, length,
  All, and_then, map_option, arith, ap, ◌∙◌,
}
use ipp_client.Model.Supply.{
  SupplyLevel, percent, unknown, decode_level, supply_at, zip_from, decode_list,
}

module _ (types colours : List String) (low : List ℤ) where
  length-zip_from :
      (i : ℕ) (names : List String) (levels : List ℤ)
      → length (zip_from types colours low i names levels) ≡ min (length names) (length levels)
  unfolding zip_from
  length-zip_from i [] levels = omega arith
  length-zip_from i (n ∷ names) [] = omega arith
  length-zip_from i (n ∷ names) (l ∷ levels) = omega (arith, length-zip_from (i + 1) names levels)

  get_elem?-zip_from :
      (i k : ℕ) (names : List String) (levels : List ℤ)
      → get_elem? (zip_from types colours low i names levels) k
        ≡ and_then (get_elem? names k) λ name.
          map_option (get_elem? levels k) λ level. supply_at types colours low (i + k) name level
  unfolding zip_from
  get_elem?-zip_from i k [] levels = refl
  get_elem?-zip_from i zero (n ∷ names) [] = refl
  get_elem?-zip_from i (suc k) (n ∷ names) [] = ground arith
  get_elem?-zip_from i zero (n ∷ names) (l ∷ levels) = let e : i + 0 ≡ i = omega arith in rw e
  get_elem?-zip_from i (suc k) (n ∷ names) (l ∷ levels) =
      let e : i + 1 + k ≡ i + suc k = omega arith in
      get_elem?-zip_from (i + 1) k names levels
      ∙ ap
          (λ (j : ℕ). and_then (get_elem? names k) λ name.
            map_option (get_elem? levels k) λ level. supply_at types colours low j name level)
          e

  pub get_elem?-decode_list :
      (names : List String) (levels : List ℤ) (k : ℕ)
      → get_elem? (decode_list names levels types colours low) k
        ≡ and_then (get_elem? names k) λ name.
          map_option (get_elem? levels k) λ level. supply_at types colours low k name level
  unfolding decode_list
  get_elem?-decode_list names levels k =
      let e : 0 + k ≡ k = omega arith in
      get_elem?-zip_from 0 k names levels
      ∙ ap
          (λ (j : ℕ). and_then (get_elem? names k) λ name.
            map_option (get_elem? levels k) λ level. supply_at types colours low j name level)
          e

-- A level that is known is a percentage.
abbrev pub IsPercentage : SupplyLevel → Type 0
IsPercentage (percent n) = n ≤ 100
IsPercentage unknown = Unit

decode_level-IsPercentage : (level : ℤ) → IsPercentage (decode_level level)
unfolding decode_level
decode_level-IsPercentage (pos n) = omega arith
decode_level-IsPercentage (negsuc n) = tt

pub zip_from-IsPercentage :
    (types colours : List String) (low : List ℤ) (i : ℕ) (names : List String) (levels : List ℤ)
    → All (λ s. IsPercentage s.level) (zip_from types colours low i names levels)
unfolding zip_from supply_at
zip_from-IsPercentage types colours low i [] levels = tt
zip_from-IsPercentage types colours low i (n ∷ names) [] = tt
zip_from-IsPercentage types colours low i (n ∷ names) (l ∷ levels) =
    (decode_level-IsPercentage l, zip_from-IsPercentage types colours low (i + 1) names levels)

-- There are as many supplies as the shorter of the names and the levels has entries; the one at a
-- position is decoded from the marker attributes at that position; and every level that is known is
-- at most 100, whatever the printer reports.
decode_list_lem :
    (names : List String) (levels : List ℤ) (types colours : List String) (low : List ℤ) (k : ℕ)
    → (length (decode_list names levels types colours low) ≡ min (length names) (length levels))
      × (get_elem? (decode_list names levels types colours low) k
          ≡ and_then (get_elem? names k) λ name.
            map_option (get_elem? levels k) λ level. supply_at types colours low k name level)
      × All (λ s. IsPercentage s.level) (decode_list names levels types colours low)
unfolding decode_list
decode_list_lem names levels types colours low k = (
  length-zip_from types colours low 0 names levels,
  get_elem?-decode_list types colours low names levels k,
  zip_from-IsPercentage types colours low 0 names levels,
)
