-- ===== src/Lpoptions/RoundTrip.antt =====
-- A file in the format that ipp-async/src/lpoptions.rs describes, read back.
use mathlib.Core.Path.{ap₂}
use text.Mathlib.TextLemmas.{cons-append, nil-append}
use Prim.Native.Char.{Char}
use Prim.Native.String.{[] as no_text, ◌∷◌ as ◌∷ₛ◌}
use ipp_client.Prelude.{
  ℕ, String, ◌<>◌, ◌≡◌, refl, ap, ◌∙◌, Bool, true, false, Option, none, some, List, [], ◌∷◌, All,
  not, arith, filter, filter_map, push_option, if◌then◌else◌,
}
use ipp_client.Prelude.Text.{Lacks, is_empty, lines, strip_prefix, first_piece, strip_cr, raw_lines}
use ipp_client.Prelude.Text.Laws.{first_piece-append, first_piece_whole}
use ipp_client.Prelude.Text.Affix.{strip_prefix-append}
use ipp_client.Prelude.Text.Lines.{
  Solid, Breaks, lines-append, first_word-append, strip_cr-append, Breaks-strip_cr,
}
use ipp_client.Lpoptions.{last_of, destination, parse_default}

-- A line of the file: `Default` or `Dest`, a destination with its instance, and what follows it.
pub record Line : Type 0 where
  pub chosen : Bool
  pub name : String
  pub instance_name : Option String
  pub options : String

abbrev keyword : Bool → String
keyword true = "Default "
keyword false = "Dest "

abbrev spelled : String → Option String → String
spelled name none = name
spelled name (some i) = name <> ("/" <> i)

abbrev pub written : Line → String
written l = keyword l.chosen <> (spelled l.name l.instance_name <> l.options)

abbrev pub file : List Line → String
file [] = ""
file (l ∷ ls) = written l <> ("\n" <> file ls)

abbrev pub Plain : Option String → Type 0
Plain none = Unit
Plain (some i) = Solid i

-- The name is a word without a slash, the instance has no whitespace, and the options, which begin
-- with whitespace if there are any, stay on the line.
pub record IsLine (l : Line) : Type 0 where
  pub named : is_empty l.name ≡ false
  pub solid : Solid l.name
  pub no_slash : Lacks b'/' l.name
  pub plain : Plain l.instance_name
  pub behind : Breaks l.options
  pub one_line : Lacks b'\n' l.options

one_char : (c : Char) (s : String) → (c ∷ₛ no_text) <> s ≡ c ∷ₛ s
one_char c s = cons-append c no_text s ∙ ap (λ t. c ∷ₛ t) (nil-append s)

Solid-append : (a b : String) → Solid a → Solid b → Solid (a <> b)
Solid-append no_text b h k = rw nil-append k
Solid-append (c ∷ₛ a) b h k = rw cons-append (h.0, Solid-append a b h.1 k)

Lacks-append : (d : ℕ) (a b : String) → Lacks d a → Lacks d b → Lacks d (a <> b)
Lacks-append d no_text b h k = rw nil-append k
Lacks-append d (c ∷ₛ a) b h k = rw cons-append (h.0, Lacks-append d a b h.1 k)

Solid-Lacks : (s : String) → Solid s → Lacks b'\n' s × Lacks b'\r' s
Solid-Lacks no_text h = (tt, tt)
Solid-Lacks (c ∷ₛ s) h =
    let (n, r) = Solid-Lacks s h.1 in ((ground (arith, h.0), n), (ground (arith, h.0), r))

Solid-spelled : (name : String) (i : Option String) → Solid name → Plain i → Solid (spelled name i)
Solid-spelled name none h p = h
Solid-spelled name (some i) h p = Solid-append name ("/" <> i) h (Solid-append "/" i (refl, tt) p)

first_piece-spelled :
    (name : String) (i : Option String) → Lacks b'/' name → first_piece b'/' (spelled name i) ≡ name
first_piece-spelled name none h = first_piece_whole "/" name h
first_piece-spelled name (some i) h =
    ap (λ t. first_piece b'/' (name <> t)) (one_char "/" i) ∙ first_piece-append "/" name i h

-- What a line names as the default.
abbrev pub chosen_name : Line → Option String
chosen_name l = if l.chosen then some l.name else none

-- The name with its instance, which is the first word behind the keyword.
module _ (l : Line) (is : IsLine l) where
  word_of : String
  word_of = spelled l.name l.instance_name

  Solid-word : Solid word_of
  unfolding word_of
  Solid-word = Solid-spelled l.name l.instance_name is.solid is.plain

  not_empty-spelled : (i : Option String) → is_empty (spelled l.name i) ≡ false
  not_empty-spelled none = is.named
  not_empty-spelled (some i) = front l.name is.named
    where
      front : (name : String) → is_empty name ≡ false → is_empty (name <> ("/" <> i)) ≡ false
      front no_text h = cc
      front (c ∷ₛ name) h = rw cons-append refl

  keyword-Lacks : (b : Bool) → Lacks b'\n' (keyword b) × Lacks b'\r' (keyword b)
  keyword-Lacks true = (omega arith, omega arith)
  keyword-Lacks false = (omega arith, omega arith)

  written_stripped : strip_cr (written l) ≡ keyword l.chosen <> (word_of <> strip_cr l.options)
  unfolding word_of
  written_stripped =
      strip_cr-append (keyword l.chosen) (word_of <> l.options) (keyword-Lacks l.chosen).1
      ∙ ap (λ t. keyword l.chosen <> t)
          (strip_cr-append word_of l.options (Solid-Lacks word_of Solid-word).1)

  destination_default :
      (t : String) → Breaks t → destination ("Default " <> (word_of <> t)) ≡ some l.name
  unfolding destination word_of
  destination_default t b =
      rw
        (
          strip_prefix-append "Default " (word_of <> t),
          first_word-append word_of t (not_empty-spelled l.instance_name) Solid-word b,
        )
        (ap some (first_piece-spelled l.name l.instance_name is.no_slash))

  destination_dest : (s : String) → destination ("Dest " <> s) ≡ none
  unfolding destination strip_prefix
  destination_dest s = ap destination (
      cons-append "D" "est " s
      ∙ ap (λ t. "D" ∷ₛ t) (cons-append "e" "st " s ∙ ap (λ t. "e" ∷ₛ t) (cons-append "s" "t " s)))

  destination_written : destination (strip_cr (written l)) ≡ chosen_name l
  destination_written = ap destination written_stripped ∙ by_keyword l.chosen
    where
      by_keyword :
          (b : Bool)
          → destination (keyword b <> (word_of <> strip_cr l.options))
            ≡ (if b then some l.name else none)
      by_keyword true =
          destination_default (strip_cr l.options) (Breaks-strip_cr l.options is.behind)
      by_keyword false = destination_dest (word_of <> strip_cr l.options)

  written-Lacks : Lacks b'\n' (written l)
  unfolding word_of
  written-Lacks =
      Lacks-append b'\n' (keyword l.chosen) (word_of <> l.options) (keyword-Lacks l.chosen).0
        (Lacks-append b'\n' word_of l.options (Solid-Lacks word_of Solid-word).0 is.one_line)

destinations_file :
    (ls : List Line)
    → All IsLine ls
    → filter_map destination (lines (file ls)) ≡ filter_map chosen_name ls
unfolding lines raw_lines
destinations_file [] h = refl
destinations_file (l ∷ ls) h =
    ap (λ t. filter_map destination (lines (written l <> t))) (one_char "\n" (file ls))
    ∙ ap (filter_map destination) (lines-append (written l) (file ls) (written-Lacks l h.0))
    ∙ ap₂ push_option (destination_written l h.0) (destinations_file ls h.1)

names_kept :
    (ls : List Line)
    → All IsLine ls
    → filter (λ dest. not (is_empty dest)) (filter_map chosen_name ls) ≡ filter_map chosen_name ls
names_kept [] h = refl
names_kept (l ∷ ls) h = ground (arith, names_kept ls h.1, h.0.named)

-- A file of well-formed lines, with `Default` and `Dest` lines in any order, instances and options
-- included, names as the default the destination of its last `Default` line, without its instance;
-- and no default if it has no such line.
pub parse_default-file :
    (ls : List Line) → All IsLine ls → parse_default (file ls) ≡ last_of (filter_map chosen_name ls)
unfolding parse_default
parse_default-file ls h =
    ap (λ ds. last_of (filter (λ dest. not (is_empty dest)) ds)) (destinations_file ls h)
    ∙ ap last_of (names_kept ls h)
