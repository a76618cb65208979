-- ===== src/Prelude/Text/Affix.antt =====
-- Prefixes, suffixes and what a text contains.
use Prim.Native.Char.{Char, code}
use Prim.Native.String.{String, [], ◌∷◌, ◌++◌, count}
use mathlib.Core.Path.{◌≡◌, refl, sym, ap, ◌∙◌}
use Prim.Native.Nat.{ℕ}
use mathlib.Core.Logic.{◌≢◌, inl, inr}
use mathlib.Core.Bool.{true, false}
use mathlib.Core.Option.{none, some}
use native.Mathlib.Omega.{arith}
use text.Mathlib.Text.{◌==◌ as str_eq}
use text.Mathlib.TextEquality.{Char-path, eq_iff}
use text.Mathlib.TextLemmas.{cons-append, nil-append, append-nil, length-append, length-cons}
use ipp_client.Prelude.Tests.{Bool-cases, Option-cases, if◌then◌else◌}
use ipp_client.Prelude.Text.{is_empty, strip_prefix, strip_suffix, contains}

pub strip_prefix-append : (p r : String) → strip_prefix p (p ++ r) ≡ some r
unfolding strip_prefix
strip_prefix-append [] r = rw nil-append refl
strip_prefix-append (d ∷ p) r = rw cons-append (ground (arith, strip_prefix-append p r))

pub strip_prefix-eq-some : (p s r : String) → strip_prefix p s ≡ some r → s ≡ p ++ r
unfolding strip_prefix
strip_prefix-eq-some [] s r h = ground (arith, nil-append r)
strip_prefix-eq-some (d ∷ p) [] r h = cc
strip_prefix-eq-some (d ∷ p) (c ∷ s) r h =
    ground (arith, strip_prefix-eq-some p s r, cons-append d p r, Char-path c d)

-- A text is not a proper suffix of itself.
not_longer : (c : Char) (k p : String) → str_eq (c ∷ (k ++ p)) p ≡ false
not_longer c k p = elim (Bool-cases (str_eq (c ∷ (k ++ p)) p)) [
  | inl e ↦ absurd (
      omega (
        arith,
        ap count ((eq_iff (c ∷ (k ++ p)) p).0 e),
        length-cons c (k ++ p),
        length-append k p,
      ))
  | inr e ↦ e
]

pub strip_suffix-append : (k p : String) → strip_suffix p (k ++ p) ≡ some k
unfolding strip_suffix
strip_suffix-append [] [] = refl
strip_suffix-append [] (c ∷ p) = rw nil-append (rw ((eq_iff (c ∷ p) (c ∷ p)).1 refl))
strip_suffix-append (c ∷ k) p = rw (cons-append, not_longer, strip_suffix-append k p)

pub strip_suffix-eq-some : (p s k : String) → strip_suffix p s ≡ some k → s ≡ k ++ p
unfolding strip_suffix
strip_suffix-eq-some [] [] k h = cc (append-nil k)
strip_suffix-eq-some (d ∷ p) [] k h = cc
strip_suffix-eq-some p (c ∷ s) k h = elim (Bool-cases (str_eq (c ∷ s) p)) [
  | inl e ↦ ground (arith, nil-append p, eq_iff (c ∷ s) p)
  | inr e ↦ elim (Option-cases (strip_suffix p s)) [
    | inl n ↦ cc (rw (e, n, strip_suffix) at h)
    | inr (l, f) ↦ ground (arith, strip_suffix-eq-some p s l f, cons-append c l p)
  ]
]

-- `contains` finds what is there, and only that.
contains-of_prefix : (p s r : String) → strip_prefix p s ≡ some r → contains p s ≡ true
unfolding contains
contains-of_prefix [] [] r e = refl
contains-of_prefix (d ∷ p) [] r e = cc
contains-of_prefix p (c ∷ s) r e = rw (e, contains)

pub contains-append : (p l r : String) → contains p (l ++ (p ++ r)) ≡ true
unfolding contains
contains-append p [] r = rw nil-append (contains-of_prefix p (p ++ r) r (strip_prefix-append p r))
contains-append p (c ∷ l) r = rw cons-append (ground (arith, contains-append p l r))

pub contains-eq-true :
    (p s : String) → contains p s ≡ true → (l : String) × (r : String) × (s ≡ l ++ (p ++ r))
unfolding contains
contains-eq-true [] [] h = ([], [], refl)
contains-eq-true (d ∷ p) [] h = cc
contains-eq-true p (c ∷ s) h = elim (Option-cases (strip_prefix p (c ∷ s))) [
  | inl e ↦
      let (l, r, whole) = contains-eq-true p s (rw (e, contains) at h) in
      (c ∷ l, r, rw cons-append (ap (λ t. c ∷ t) whole))
  | inr (r, e) ↦ ([], r, rw nil-append (strip_prefix-eq-some p (c ∷ s) r e))
]

-- A text that ends in another character than a suffix does not end in that suffix.
abbrev pub last_code : String → ℕ
last_code [] = 0
last_code (c ∷ s) = if is_empty s then code c else last_code s

is_empty-append : (k t : String) → is_empty t ≡ false → is_empty (k ++ t) ≡ false
is_empty-append [] t h = rw nil-append h
is_empty-append (c ∷ k) t h = rw cons-append refl

last_code-append : (k t : String) → is_empty t ≡ false → last_code (k ++ t) ≡ last_code t
last_code-append [] t h = rw nil-append refl
last_code-append (c ∷ k) t h = rw (cons-append, is_empty-append k t h) (last_code-append k t h)

pub strip_suffix_other :
    (p k t : String)
    → is_empty p ≡ false
    → is_empty t ≡ false
    → last_code p ≢ last_code t
    → strip_suffix p (k ++ t) ≡ none
strip_suffix_other p k t hp ht differ = elim (Option-cases (strip_suffix p (k ++ t))) [
  | inl e ↦ e
  | inr (r, e) ↦ absurd (
      differ (
        sym (last_code-append r p hp)
        ∙ sym (ap last_code (strip_suffix-eq-some p (k ++ t) r e))
        ∙ last_code-append k t ht))
]
