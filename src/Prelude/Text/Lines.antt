-- ===== src/Prelude/Text/Lines.antt =====
-- Lines and words of a text that is put together from them.
use Prim.Native.Char.{code}
use Prim.Native.String.{String, [], ◌∷◌, ◌++◌}
use mathlib.Core.Path.{◌≡◌, refl, ap}
use mathlib.Core.Bool.{true, false, ◌&&◌}
use mathlib.Core.Logic.{inl, inr}
use mathlib.Core.Option.{some}
use mathlib.Core.List.{◌∷◌}
use native.Mathlib.Omega.{arith}
use text.Mathlib.TextLemmas.{cons-append, nil-append}
use ipp_client.Prelude.Tests.{◌==◌, Bool-cases}
use ipp_client.Prelude.Text.{
  Lacks, is_empty, is_whitespace, word, first_word, strip_cr, raw_lines, lines,
}

-- No character is whitespace.
abbrev pub Solid : String → Type 0
Solid [] = Unit
Solid (c ∷ s) = (is_whitespace (code c) ≡ false) × Solid s

-- What may stand behind a word: nothing, or whitespace first.
abbrev pub Breaks : String → Type 0
Breaks [] = Unit
Breaks (c ∷ s) = is_whitespace (code c) ≡ true

raw_lines-append :
    (l s : String) → Lacks b'\n' l → raw_lines (l ++ ("\n" ∷ s)) ≡ (l, true) ∷ raw_lines s
unfolding raw_lines
raw_lines-append [] s h = rw nil-append refl
raw_lines-append (c ∷ l) s h = rw cons-append (ground (arith, raw_lines-append l s h.1, h.0))

pub lines-append : (l s : String) → Lacks b'\n' l → lines (l ++ ("\n" ∷ s)) ≡ strip_cr l ∷ lines s
unfolding lines
lines-append l s h = rw (raw_lines-append l s h)

word-append : (w t : String) → Solid w → Breaks t → word (w ++ t) ≡ w
unfolding word
word-append [] [] h b = refl
word-append [] (c ∷ t) h b = rw (nil-append, b) refl
word-append (c ∷ w) t h b = rw (cons-append, h.0) (ap (λ r. c ∷ r) (word-append w t h.1 b))

pub first_word-append :
    (w t : String) → is_empty w ≡ false → Solid w → Breaks t → first_word (w ++ t) ≡ some w
unfolding first_word
first_word-append [] t n h b = cc
first_word-append (c ∷ w) t n h b =
    rw (cons-append, h.0) (ap (λ r. some (c ∷ r)) (word-append w t h.1 b))

pub strip_cr-append : (p s : String) → Lacks b'\r' p → strip_cr (p ++ s) ≡ p ++ strip_cr s
unfolding strip_cr
strip_cr-append [] s h = rw (nil-append, nil-append) refl
strip_cr-append (c ∷ p) s h =
    rw (cons-append, cons-append) (ground (arith, strip_cr-append p s h.1, h.0))

pub Breaks-strip_cr : (t : String) → Breaks t → Breaks (strip_cr t)
unfolding strip_cr
Breaks-strip_cr [] b = tt
Breaks-strip_cr (c ∷ t) b = elim (Bool-cases (is_empty t && code c == 13)) [
  | inl ends ↦ rw ends tt
  | inr on ↦ rw on b
]
