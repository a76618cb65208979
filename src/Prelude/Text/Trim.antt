-- ===== src/Prelude/Text/Trim.antt =====
-- Trimming a character off the end of a text.
use Prim.Native.Char.{Char, code}
use Prim.Native.String.{String, [], ◌∷◌, ◌++◌}
use mathlib.Core.Path.{◌≡◌, refl}
use Prim.Native.Nat.{ℕ, zero, suc}
use mathlib.Core.Logic.{◌≢◌}
use native.Mathlib.Omega.{arith}
use text.Mathlib.TextLemmas.{cons-append, nil-append}
use ipp_client.Prelude.Text.{trim_end_matches}
use ipp_client.Prelude.Text.Affix.{last_code}

-- A text behind which one character is repeated.
abbrev pub pad : Char → ℕ → String → String
pad d zero s = s
pad d (suc k) s = d ∷ pad d k s

trim_end_matches-pad : (d : Char) (k : ℕ) → trim_end_matches (code d) (pad d k []) ≡ []
unfolding trim_end_matches
trim_end_matches-pad d zero = refl
trim_end_matches-pad d (suc k) = rw (trim_end_matches, trim_end_matches-pad d k) (ground arith)

pub trim_end_matches-append :
    (d : Char) (l : String) (k : ℕ)
    → last_code l ≢ code d
    → trim_end_matches (code d) (l ++ pad d k []) ≡ l
unfolding trim_end_matches
trim_end_matches-append d [] k h = rw nil-append (trim_end_matches-pad d k)
trim_end_matches-append d (c ∷ []) k h =
    rw (cons-append, nil-append) (ground (arith, trim_end_matches-pad d k))
trim_end_matches-append d (c ∷ b ∷ s) k h =
    rw cons-append (ground (arith, trim_end_matches-append d (b ∷ s) k h))
