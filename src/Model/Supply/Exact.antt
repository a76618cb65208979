-- ===== src/Model/Supply/Exact.antt =====
-- Exactly which lists of supplies are decoded (ipp-async/src/model.rs).
use mathlib.Core.Path.{ap₂}
use mathlib.Core.Option.{some-injective}
use ipp_client.Prelude.{
  ℕ, zero, suc, ◌+◌, min, ℤ, pos, negsuc, String, ◌≡◌, refl, sym, Option, none, some, List, [], ◌∷◌,
  get_elem?, All, map, and_then, map_option, arith, ap, ◌∙◌, subst,
}
use ipp_client.Prelude.Leading.{Leading, Leading-put, present, get_elem?-present, beyond, list_ext}
use ipp_client.Model.Supply.{
  Supply, SupplyLevel, percent, unknown, decode_level, supply_at, zip_from, decode_list,
}
use ipp_client.Model.Supply.Laws.{IsPercentage, zip_from-IsPercentage, get_elem?-decode_list}

-- The supplies that a printer can show.
pub record IsShown (supplies : List Supply) : Type 0 where
  pub levels : All (λ s. IsPercentage s.level) supplies
  pub kinds : Leading (map (λ s. s.kind) supplies)
  pub colours : Leading (map (λ s. s.colour) supplies)
  pub low_thresholds : Leading (map (λ s. s.low_threshold) supplies)

-- What is read by position is at the front.
module _ {A : Type 0} (types colours : List String) (low : List ℤ) (xs : List A)
    (f : Supply → Option A)
    (reads : (i : ℕ) (name : String) (level : ℤ)
      → f (supply_at types colours low i name level) ≡ get_elem? xs i) where
  absent-zip_from :
      (i : ℕ) (names : List String) (levels : List ℤ)
      → get_elem? xs i ≡ none
      → All (λ o. o ≡ none) (map f (zip_from types colours low i names levels))
  unfolding zip_from
  absent-zip_from i [] levels e = tt
  absent-zip_from i (n ∷ names) [] e = tt
  absent-zip_from i (n ∷ names) (l ∷ levels) e =
      (reads i n l ∙ e, absent-zip_from (i + 1) names levels (beyond xs i e))

  zip_from-Leading :
      (i : ℕ) (names : List String) (levels : List ℤ)
      → Leading (map f (zip_from types colours low i names levels))
  unfolding zip_from
  zip_from-Leading i [] levels = tt
  zip_from-Leading i (n ∷ names) [] = tt
  zip_from-Leading i (n ∷ names) (l ∷ levels) =
      Leading-put (f (supply_at types colours low i n l)) _
        (λ e. absent-zip_from (i + 1) names levels (beyond xs i (sym (reads i n l) ∙ e)))
        (zip_from-Leading (i + 1) names levels)

pub decode_list-IsShown :
    (names : List String) (levels : List ℤ) (types colours : List String) (low : List ℤ)
    → IsShown (decode_list names levels types colours low)
unfolding decode_list supply_at
decode_list-IsShown names levels types colours low = record {
  levels = zip_from-IsPercentage types colours low 0 names levels;
  kinds =
      zip_from-Leading types colours low types (λ s. s.kind) (λ i name level. refl) 0 names levels;
  colours =
      zip_from-Leading types colours low colours (λ s. s.colour) (λ i name level. refl) 0 names
        levels;
  low_thresholds =
      zip_from-Leading types colours low low (λ s. s.low_threshold) (λ i name level. refl) 0 names
        levels;
}

-- A level as a printer writes it.
abbrev pub level_number : SupplyLevel → ℤ
level_number (percent n) = pos n
level_number unknown = negsuc 0

level_back : (level : SupplyLevel) → IsPercentage level → decode_level (level_number level) ≡ level
unfolding decode_level
level_back (percent n) h = let e : min n 100 ≡ n = omega arith in ap percent e
level_back unknown h = refl

get_elem?-IsPercentage :
    (xs : List Supply) (k : ℕ) (x : Supply)
    → All (λ s. IsPercentage s.level) xs
    → get_elem? xs k ≡ some x
    → IsPercentage x.level
get_elem?-IsPercentage [] k x h e = cc e
get_elem?-IsPercentage (y ∷ xs) zero x h e =
    subst (λ s. IsPercentage s.level) (some-injective _ _ e) h.0
get_elem?-IsPercentage (y ∷ xs) (suc k) x h e = get_elem?-IsPercentage xs k x h.1 e

get_elem?-map :
    {A : Type 0} (f : Supply → A) (xs : List Supply) (k : ℕ)
    → get_elem? (map f xs) k ≡ map_option (get_elem? xs k) f
get_elem?-map f [] k = refl
get_elem?-map f (x ∷ xs) zero = refl
get_elem?-map f (x ∷ xs) (suc k) = get_elem?-map f xs k

read_back :
    {A : Type 0} (f : Supply → Option A) (xs : List Supply) (k : ℕ) (x : Supply)
    → Leading (map f xs)
    → get_elem? xs k ≡ some x
    → get_elem? (present (map f xs)) k ≡ f x
read_back f xs k x h e =
    get_elem?-present (map f xs) k h
    ∙ ap (λ o. and_then o (λ o. o)) (get_elem?-map f xs k ∙ ap (λ o. map_option o f) e)

module _ (types colours : List String) (low : List ℤ) (k : ℕ) where
  supply_back :
      (s : Supply)
      → IsPercentage s.level
      → get_elem? types k ≡ s.kind
      → get_elem? colours k ≡ s.colour
      → get_elem? low k ≡ s.low_threshold
      → supply_at types colours low k s.name (level_number s.level) ≡ s
  unfolding supply_at
  supply_back s level kind colour threshold = λ i. record {
    name = s.name;
    kind = kind i;
    colour = colour i;
    level = level_back s.level level i;
    low_threshold = threshold i;
  }

  put_back :
      (o : Option Supply)
      → ((s : Supply)
          → o ≡ some s
          → supply_at types colours low k s.name (level_number s.level) ≡ s)
      → (and_then (map_option o λ s. s.name) λ name.
          map_option
            (map_option o λ s. level_number s.level)
            λ level. supply_at types colours low k name level)
        ≡ o
  put_back none h = refl
  put_back (some s) h = ap some (h s refl)

-- Supplies that a printer can show are decoded from their names, levels and what is known of
-- their kinds, colours and thresholds.
pub decode_list-back :
    (supplies : List Supply)
    → IsShown supplies
    → decode_list
        (map (λ s. s.name) supplies)
        (map (λ s. level_number s.level) supplies)
        (present (map (λ s. s.kind) supplies))
        (present (map (λ s. s.colour) supplies))
        (present (map (λ s. s.low_threshold) supplies))
      ≡ supplies
decode_list-back supplies shown = list_ext _ _ λ k.
    let kinds = present (map (λ s. s.kind) supplies) in
    let colours = present (map (λ s. s.colour) supplies) in
    let low = present (map (λ s. s.low_threshold) supplies) in
    get_elem?-decode_list kinds colours low (map (λ s. s.name) supplies)
      (map (λ s. level_number s.level) supplies) k
    ∙ ap₂ (λ o p. and_then o λ name. map_option p λ level. supply_at kinds colours low k name level)
        (get_elem?-map (λ s. s.name) supplies k)
        (get_elem?-map (λ s. level_number s.level) supplies k)
    ∙ put_back kinds colours low k (get_elem? supplies k) λ s e.
      supply_back kinds colours low k s (get_elem?-IsPercentage supplies k s shown.levels e)
        (read_back (λ s. s.kind) supplies k s shown.kinds e)
        (read_back (λ s. s.colour) supplies k s shown.colours e)
        (read_back (λ s. s.low_threshold) supplies k s shown.low_thresholds e)
