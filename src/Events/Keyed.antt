-- ===== src/Events/Keyed.antt =====
-- The two shapes of loop in `diff` of ipp-async/src/events.rs, at any key: what is in the old list
-- and not in the next, and what the next list holds against the old one.
use mathlib.Core.List.{foldl, foldl-append}
use mathlib.Core.Option.{or_else}
use ipp_client.Prelude.{
  ◌≡◌, refl, ◌↔◌, ap, Bool, true, false, not, ◌&&◌, Option, none, some, List, [], ◌∷◌, ◌++◌, arith,
  find, any, All, All-append, Bool-cases, inl, inr, if◌then◌else◌,
}

abbrev pub is_present {ℓ} : {A : Type ℓ} → Option A → Bool
is_present none = false
is_present (some a) = true

or_else-present : {A : Type 0} (o p : Option A) → is_present o ≡ true → or_else o p ≡ o
unfolding or_else
or_else-present none p h = cc
or_else-present (some a) p h = refl

and-false : (b : Bool) → (b && not true) ≡ false
and-false b = ground arith

and-true : (b : Bool) → (b && not false) ≡ b
and-true b = ground arith

module _ {A K : Type 0} (key : A → K) (beq : K → K → Bool) where
  abbrev pub lookup : K → List A → Option A
  lookup k = find (λ a. beq (key a) k)

  abbrev pub has : K → List A → Bool
  has k = any (λ a. beq (key a) k)

  unfoldable pub removals {ℓ} : {E : Type ℓ} → (A → E) → List A → List A → List E
  removals emit [] next = []
  removals emit (a ∷ rest) next =
      let later = removals emit rest next in if has (key a) next then later else emit a ∷ later

  unfoldable pub updates {ℓ} : {E : Type ℓ} → (Option A → A → List E) → List A → List A → List E
  updates emit old [] = []
  updates emit old (a ∷ rest) = emit (lookup (key a) old) a ++ updates emit old rest

  pub has-lookup : (k : K) (xs : List A) → has k xs ≡ is_present (lookup k xs)
  has-lookup k [] = refl
  has-lookup k (a ∷ xs) = ground (arith, has-lookup k xs)

  -- No key is listed twice.
  abbrev pub Unique : List A → Type 0
  Unique [] = Unit
  Unique (a ∷ rest) = (has (key a) rest ≡ false) × Unique rest

abbrev pub settled {ℓ} : {A : Type ℓ} → (A → A → Bool) → Option A → A → Bool
settled eq none a = false
settled eq (some b) a = eq b a

module _ {A K E : Type 0} (key : A → K) (beq : K → K → Bool)
    (beq_iff : (j k : K) → (beq j k ≡ true) ↔ (j ≡ k)) (eq : A → A → Bool)
    (eq_iff : (a b : A) → (eq a b ≡ true) ↔ (a ≡ b)) (effect : K → Option A → E → Option A)
    (gone : A → E)
    (gone_effect : (k : K) (o : Option A) (a : A)
      → effect k o (gone a) ≡ (if beq (key a) k then none else o))
    (news : Option A → A → List E)
    (news_effect : (k : K) (o p : Option A) (a : A)
      → foldl (effect k) o (news p a)
        ≡ (if beq (key a) k then (if settled eq p a then o else some a) else o)) where
  after-removals :
      (k : K) (o : Option A) (old next : List A)
      → foldl (effect k) o (removals key beq gone old next)
        ≡ (if has key beq k old && not (has key beq k next) then none else o)
  unfolding removals
  after-removals k o [] next = refl
  after-removals k o (a ∷ old) next = ground (
    arith,
    after-removals k o old next,
    after-removals k none old next,
    gone_effect k o a,
    beq_iff (key a) k,
  )

  after-updates_of_absent :
      (k : K) (o : Option A) (old next : List A)
      → has key beq k next ≡ false
      → foldl (effect k) o (updates key beq news old next) ≡ o
  unfolding updates
  after-updates_of_absent k o old [] absent = refl
  after-updates_of_absent k o old (a ∷ next) absent = rw foldl-append (
      ground (
        arith,
        news_effect k o (lookup key beq (key a) old) a,
        after-updates_of_absent k o old next,
      ))

  settled-eq-some : (p : Option A) (a : A) → settled eq p a ≡ true → p ≡ some a
  settled-eq-some none a h = cc
  settled-eq-some (some b) a h = ap some ((eq_iff b a).0 h)

  -- The event for the entry of a key leaves that entry, whatever the old list holds.
  news-lookup :
      (k : K) (old : List A) (a : A)
      → key a ≡ k
      → foldl (effect k) (lookup key beq k old) (news (lookup key beq (key a) old) a) ≡ some a
  news-lookup k old a e =
      rw (news_effect, (beq_iff (key a) k).1 e, e)
        (ground (arith, settled-eq-some (lookup key beq k old) a))

  after-updates :
      (k : K) (old next : List A)
      → Unique key beq next
      → foldl (effect k) (lookup key beq k old) (updates key beq news old next)
        ≡ or_else (lookup key beq k next) (lookup key beq k old)
  unfolding updates or_else
  after-updates k old [] u = refl
  after-updates k old (a ∷ next) (fresh, u) = elim (Bool-cases (beq (key a) k)) [
    | inl same ↦
        let e : key a ≡ k = (beq_iff (key a) k).0 same in
        rw (foldl-append, news-lookup k old a e, same)
          (after-updates_of_absent k (some a) old next (rw e at fresh))
    | inr differ ↦ rw (foldl-append, news_effect, differ) (after-updates k old next u)
  ]

  -- The removals and then the updates turn what the old list holds at a key into what the next
  -- list holds there.
  pub after_loops :
      (k : K) (old next : List A)
      → Unique key beq next
      → foldl
          (effect k)
          (lookup key beq k old)
          (removals key beq gone old next ++ updates key beq news old next)
        ≡ lookup key beq k next
  after_loops k old next u = elim (Bool-cases (has key beq k next)) [
    | inl there ↦
        rw (foldl-append, after-removals, there, and-false, after-updates k old next u)
          (or_else-present _ _ (rw (← has-lookup key beq k next) there))
    | inr absent ↦
        rw (foldl-append, after-removals, absent, and-true, after-updates_of_absent _ _ _ _ absent)
          (ground (arith, has-lookup key beq k old, has-lookup key beq k next))
  ]

-- In a list each key is present, and if it has no key twice each entry finds itself.
module _ {A K : Type 0} (key : A → K) (beq : K → K → Bool)
    (beq_iff : (j k : K) → (beq j k ≡ true) ↔ (j ≡ k)) where
  All-lookup_cons :
      (b : A) (old next : List A)
      → has key beq (key b) next ≡ false
      → All (λ a. lookup key beq (key a) old ≡ some a) next
      → All (λ a. lookup key beq (key a) (b ∷ old) ≡ some a) next
  All-lookup_cons b old [] fresh h = tt
  All-lookup_cons b old (a ∷ next) fresh (found, h) = (
    ground (arith, beq_iff (key b) (key a), beq_iff (key a) (key b)),
    All-lookup_cons b old next (ground arith) h,
  )

  pub All-lookup_self :
      (xs : List A) → Unique key beq xs → All (λ a. lookup key beq (key a) xs ≡ some a) xs
  All-lookup_self [] u = tt
  All-lookup_self (a ∷ xs) (fresh, u) =
      (rw ((beq_iff (key a) (key a)).1 refl), All-lookup_cons a xs xs fresh (All-lookup_self xs u))

  All-has_cons :
      (b : A) (old next : List A)
      → All (λ a. has key beq (key a) next ≡ true) old
      → All (λ a. has key beq (key a) (b ∷ next) ≡ true) old
  All-has_cons b [] next h = tt
  All-has_cons b (a ∷ old) next (held, h) = (ground arith, All-has_cons b old next h)

  pub All-has_self : (xs : List A) → All (λ a. has key beq (key a) xs ≡ true) xs
  All-has_self [] = tt
  All-has_self (a ∷ xs) =
      (rw ((beq_iff (key a) (key a)).1 refl), All-has_cons a xs xs (All-has_self xs))

-- A list against itself: nothing is removed, and each entry finds itself.
module _ {A K E : Type 0} (key : A → K) (beq : K → K → Bool)
    (beq_iff : (j k : K) → (beq j k ≡ true) ↔ (j ≡ k)) (news : Option A → A → List E)
    (quiet : (a : A) → news (some a) a ≡ []) where
  updates_settled :
      (old next : List A)
      → All (λ a. lookup key beq (key a) old ≡ some a) next
      → updates key beq news old next ≡ []
  unfolding updates
  updates_settled old [] h = refl
  updates_settled old (a ∷ next) (found, h) = rw (found, quiet a) (updates_settled old next h)

  pub updates_self : (xs : List A) → Unique key beq xs → updates key beq news xs xs ≡ []
  updates_self xs u = updates_settled xs xs (All-lookup_self key beq beq_iff xs u)

module _ {A K E : Type 0} (key : A → K) (beq : K → K → Bool)
    (beq_iff : (j k : K) → (beq j k ≡ true) ↔ (j ≡ k)) (gone : A → E) where
  removals_held :
      (old next : List A)
      → All (λ a. has key beq (key a) next ≡ true) old
      → removals key beq gone old next ≡ []
  unfolding removals
  removals_held [] next h = refl
  removals_held (a ∷ old) next (held, h) = rw held (removals_held old next h)

  pub removals_self : (xs : List A) → removals key beq gone xs xs ≡ []
  removals_self xs = removals_held xs xs (All-has_self key beq beq_iff xs)

-- What holds of every event of a loop, from what holds where the loop emits it.
module _ {A K E : Type 0} (key : A → K) (beq : K → K → Bool) (P : E → Type 0) where
  pub All-removals :
      (gone : A → E) (full next old : List A)
      → ((a : A) → has key beq (key a) full ≡ true → has key beq (key a) next ≡ false → P (gone a))
      → All (λ a. has key beq (key a) full ≡ true) old
      → All P (removals key beq gone old next)
  unfolding removals
  All-removals gone full next [] emit h = tt
  All-removals gone full next (a ∷ old) emit (held, h) =
      elim (Bool-cases (has key beq (key a) next)) [
        | inl there ↦ rw there (All-removals gone full next old emit h)
        | inr absent ↦ rw absent (emit a held absent, All-removals gone full next old emit h)
      ]

  pub All-updates :
      (news : Option A → A → List E) (old full next : List A)
      → ((a : A)
          → lookup key beq (key a) full ≡ some a
          → All P (news (lookup key beq (key a) old) a))
      → All (λ a. lookup key beq (key a) full ≡ some a) next
      → All P (updates key beq news old next)
  unfolding updates
  All-updates news old full [] emit h = tt
  All-updates news old full (a ∷ next) emit (found, h) =
      All-append P (news (lookup key beq (key a) old) a) (updates key beq news old next)
        (emit a found) (All-updates news old full next emit h)
