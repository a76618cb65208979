-- ===== src/Prelude/Text/Digits.antt =====
-- Reading back the decimal text of a number.
use Prim.Native.Nat.{ℕ, zero, suc, ◌+◌, ◌*◌, ◌-◌, ◌/◌, ◌%◌, ◌^◌, ◌<◌}
use Prim.Native.Char.{code}
use Prim.Native.String.{String, [], ◌∷◌, ◌++◌}
use mathlib.Core.Path.{◌≡◌, refl, sym, ap, ◌∙◌}
use mathlib.Core.Logic.{◌⊎◌, inl, inr}
use mathlib.Core.Option.{Option, some}
use native.Mathlib.Omega.{arith}
use text.Mathlib.TextLemmas.{cons-append, nil-append}
use ipp_client.Prelude.Tests.{ltb, and_then, Bool-cases}
use ipp_client.Prelude.Show.{digit, show_digits, show_ℕ}
use ipp_client.Prelude.Text.{Lacks, digits, parse_u32}

digits-append : (n : ℕ) (s t : String) → digits n (s ++ t) ≡ and_then (digits n s) λ m. digits m t
unfolding digits
digits-append n [] t = rw nil-append
digits-append n (c ∷ s) t =
    rw cons-append (ground (arith, digits-append (n * 10 + (code c - 48)) s t))

digits-digit : (n d : ℕ) → d < 10 → n * 10 + d < 2 ^ 32 → digits n (digit d) ≡ some (n * 10 + d)
unfolding digits
digits-digit n zero h k = ground arith
digits-digit n (suc zero) h k = ground arith
digits-digit n (suc (suc zero)) h k = ground arith
digits-digit n (suc (suc (suc zero))) h k = ground arith
digits-digit n (suc (suc (suc (suc zero)))) h k = ground arith
digits-digit n (suc (suc (suc (suc (suc zero))))) h k = ground arith
digits-digit n (suc (suc (suc (suc (suc (suc zero)))))) h k = ground arith
digits-digit n (suc (suc (suc (suc (suc (suc (suc zero))))))) h k = ground arith
digits-digit n (suc (suc (suc (suc (suc (suc (suc (suc zero)))))))) h k = ground arith
digits-digit n (suc (suc (suc (suc (suc (suc (suc (suc (suc zero))))))))) h k = ground arith
digits-digit n (suc (suc (suc (suc (suc (suc (suc (suc (suc (suc _)))))))))) h k =
    absurd (omega arith)

digits-Lacks : (n m : ℕ) (s : String) → digits n s ≡ some m → Lacks b':' s
unfolding digits
digits-Lacks n m [] h = tt
digits-Lacks n m (c ∷ s) h = ground (arith, digits-Lacks (n * 10 + (code c - 48)) m s)

digits-show_digits : (fuel n : ℕ) → n < fuel → n < 2 ^ 32 → digits 0 (show_digits fuel n) ≡ some n
unfolding show_digits
digits-show_digits zero n h k = absurd (omega arith)
digits-show_digits (suc fuel) n h k = elim (Bool-cases (ltb n 10)) [
  | inl small ↦
      rw (show_digits, small)
        (digits-digit 0 n (ground arith) (ground arith) ∙ ap some (omega arith))
  | inr large ↦
      rw (show_digits, large)
        (digits-append 0 (show_digits fuel (n / 10)) (digit (n % 10))
          ∙ ap (λ o. and_then o λ m. digits m (digit (n % 10)))
              (digits-show_digits fuel (n / 10) (ground arith) (omega arith))
          ∙ digits-digit (n / 10) (n % 10) (omega arith) (omega arith)
          ∙ ap some (omega arith))
]

digits-show_ℕ : (n : ℕ) → n < 2 ^ 32 → digits 0 (show_ℕ n) ≡ some n
unfolding show_ℕ
digits-show_ℕ n h = digits-show_digits (suc n) n (omega arith) h

parse_u32-digits : (n : ℕ) (s : String) → digits 0 s ≡ some n → (s ≡ []) ⊎ (parse_u32 s ≡ some n)
unfolding parse_u32 digits
parse_u32-digits n [] h = inl refl
parse_u32-digits n (c ∷ s) h = ground arith

some-injective : {a b : ℕ} → ◌≡◌ {A = Option ℕ} (some a) (some b) → a ≡ b
some-injective h = cc

-- A number is read back from its decimal text.
pub parse_u32-show_ℕ : (n : ℕ) → n < 2 ^ 32 → parse_u32 (show_ℕ n) ≡ some n
unfolding digits show_ℕ show_digits
parse_u32-show_ℕ n h = elim (parse_u32-digits n (show_ℕ n) (digits-show_ℕ n h)) [
  | inr e ↦ e
  | inl e ↦
      let z : 0 ≡ n = some-injective (ap (digits 0) (sym e) ∙ digits-show_ℕ n h) in
      absurd (text_not_empty (ap show_ℕ z ∙ e))
]
  where
    text_not_empty : ◌≡◌ {A = String} "0" "" → ⊥
    text_not_empty p = cc

pub show_ℕ-Lacks : (n : ℕ) → n < 2 ^ 32 → Lacks b':' (show_ℕ n)
show_ℕ-Lacks n h = digits-Lacks 0 n (show_ℕ n) (digits-show_ℕ n h)
