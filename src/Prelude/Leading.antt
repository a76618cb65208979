-- ===== src/Prelude/Leading.antt =====
-- Values that are present only at the front of a list, as those are that are read by position from
-- a list that may be too short.
use mathlib.Core.Path.{ap₂}
use mathlib.Core.Option.{some-injective}
use ipp_client.Prelude.{
  ℕ, zero, suc, ◌+◌, ◌≡◌, refl, sym, Option, none, some, and_then, List, [], ◌∷◌, get_elem?,
  filter_map, All, arith, ap, ◌∙◌,
}

module _ {ℓ} {A : Type ℓ} where
  abbrev pub present : List (Option A) → List A
  present = filter_map (λ o. o)

  -- The values that are present stand before all that are absent.
  abbrev pub Leading : List (Option A) → Type ℓ
  Leading [] = Unit
  Leading (some x ∷ os) = Leading os
  Leading (none ∷ os) = All (λ o. o ≡ none) os

  pub Leading-put :
      (o : Option A) (os : List (Option A))
      → (o ≡ none → All (λ o. o ≡ none) os)
      → Leading os
      → Leading (o ∷ os)
  Leading-put none os absent h = absent refl
  Leading-put (some x) os absent h = h

  present-absent : (os : List (Option A)) → All (λ o. o ≡ none) os → present os ≡ []
  present-absent [] h = refl
  present-absent (none ∷ os) h = present-absent os h.1
  present-absent (some x ∷ os) h = cc h.0

  get_elem?-absent :
      (os : List (Option A)) (k : ℕ)
      → All (λ o. o ≡ none) os
      → and_then (get_elem? os k) (λ o. o) ≡ none
  get_elem?-absent [] k h = refl
  get_elem?-absent (o ∷ os) zero h = h.0
  get_elem?-absent (o ∷ os) (suc k) h = get_elem?-absent os k h.1

  pub get_elem?-present :
      (os : List (Option A)) (k : ℕ)
      → Leading os
      → get_elem? (present os) k ≡ and_then (get_elem? os k) (λ o. o)
  get_elem?-present [] k h = refl
  get_elem?-present (some x ∷ os) zero h = refl
  get_elem?-present (some x ∷ os) (suc k) h = get_elem?-present os k h
  get_elem?-present (none ∷ os) zero h = ap (λ ys. get_elem? ys 0) (present-absent os h)
  get_elem?-present (none ∷ os) (suc k) h =
      ap (λ ys. get_elem? ys (suc k)) (present-absent os h) ∙ sym (get_elem?-absent os k h)

  pub beyond : (xs : List A) (i : ℕ) → get_elem? xs i ≡ none → get_elem? xs (i + 1) ≡ none
  beyond [] i e = refl
  beyond (x ∷ xs) zero e = cc e
  beyond (x ∷ xs) (suc i) e =
      let one_more : suc i + 1 ≡ suc (i + 1) = omega arith in rw one_more (beyond xs i e)

  pub list_ext : (xs ys : List A) → ((k : ℕ) → get_elem? xs k ≡ get_elem? ys k) → xs ≡ ys
  list_ext [] [] h = refl
  list_ext [] (y ∷ ys) h = cc (h 0)
  list_ext (x ∷ xs) [] h = cc (h 0)
  list_ext (x ∷ xs) (y ∷ ys) h =
      ap₂ (λ z zs. z ∷ zs) (some-injective _ _ (h 0)) (list_ext xs ys λ k. h (suc k))
