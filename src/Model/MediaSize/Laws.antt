-- ===== src/Model/MediaSize/Laws.antt =====
-- Parsing and printing a PWG media name (ipp-async/src/model.rs).
use text.Mathlib.TextLemmas.{cons-append, nil-append}
use mathlib.Core.Path.{ap₂}
use Prim.Native.String.{◌∷◌ as ◌∷ₛ◌}
use ipp_client.Prelude.{
  String, ◌<>◌, ◌≡◌, ◌↔◌, ◌∙◌, refl, sym, ap, subst, Bool, false, none, some, inl, inr,
  Option-cases, arith, ◌||◌, if◌then◌else◌,
}
use ipp_client.Prelude.Text.{Lacks, contains, is_empty, split_once, rsplit_once}
use ipp_client.Prelude.Text.Laws.{
  rsplit_once-append, split_once-append, rsplit_once-eq-some, split_once-eq-some,
}
use ipp_client.Model.MediaSize.{MediaSize, parse}

-- The self-describing name.
abbrev pub spell : String → String → String → String
spell class name dimensions = (class <> ("_" <> name)) <> ("_" <> dimensions)

underscore : (s : String) → "_" <> s ≡ "_" ∷ₛ s
underscore s = cons-append "_" "" s ∙ rw nil-append

rsplit-spell :
    (class name dimensions : String)
    → Lacks b'_' dimensions
    → rsplit_once b'_' (spell class name dimensions) ≡ some (class <> ("_" <> name), dimensions)
rsplit-spell class name dimensions h =
    rw (underscore dimensions) (rsplit_once-append "_" (class <> ("_" <> name)) dimensions h)

split-front :
    (class name : String)
    → Lacks b'_' class
    → split_once b'_' (class <> ("_" <> name)) ≡ some (class, name)
split-front class name h = rw (underscore name) (split_once-append "_" class name h)

-- A name is read back from its spelling, its name part with any number of underscores, if no part
-- is empty and neither the class nor the dimensions hold an underscore.
parse-spell :
    (class name dimensions : String)
    → is_empty class ≡ false
    → is_empty name ≡ false
    → is_empty dimensions ≡ false
    → Lacks b'_' class
    → Lacks b'_' dimensions
    → parse (spell class name dimensions)
      ≡ some (record {
        keyword = spell class name dimensions;
        class = class;
        name = name;
        dimensions = dimensions;
        borderless = contains ".borderless" name;
      })
unfolding parse
parse-spell class name dimensions hc hn hd lc ld =
    rw (rsplit-spell class name dimensions ld, split-front class name lc, hc, hn, hd, parse)

-- The size reads the keyword as its spelling.
abbrev pub Spells : String → MediaSize → Type 0
Spells k m =
    (m.keyword ≡ k)
    × (k ≡ spell m.class m.name m.dimensions)
    × Lacks b'_' m.class
    × Lacks b'_' m.dimensions
    × ((is_empty m.class || is_empty m.name || is_empty m.dimensions) ≡ false)
    × (m.borderless ≡ contains ".borderless" m.name)

accepted :
    (empty : Bool) (a m : MediaSize)
    → (if empty then none else some a) ≡ some m
    → (empty ≡ false) × (a ≡ m)
accepted empty a m h = ground arith

-- What is accepted is the spelling of its parts, none of them empty, with no underscore in the
-- class and in the dimensions; the keyword is kept as it came, and the size is borderless exactly
-- if its name holds the text `.borderless`.
parse-Spells : (k : String) (m : MediaSize) → parse k ≡ some m → Spells k m
unfolding parse
parse-Spells k m h = elim (Option-cases (rsplit_once b'_' k)) [
  | inl e ↦ cc (rw (e, parse) at h)
  | inr ((front, dimensions), e) ↦ elim (Option-cases (split_once b'_' front)) [
    | inl f ↦ cc (rw (e, f, parse) at h)
    | inr ((class, name), f) ↦
        let (whole, ld) = rsplit_once-eq-some "_" k front dimensions e in
        let (part, lc) = split_once-eq-some "_" front class name f in
        let (full, same) = accepted _ _ m (rw (e, f, parse) at h) in
        subst (Spells k) same (
          refl,
          rw (underscore dimensions, underscore name)
              (whole ∙ ap (λ t. t <> ("_" ∷ₛ dimensions)) part),
          lc,
          ld,
          full,
          refl,
        )
  ]
]

Spells-parse : (k : String) (m : MediaSize) → Spells k m → parse k ≡ some m
Spells-parse k m (same, whole, lc, ld, full, edge) =
    ap parse whole
    ∙ parse-spell m.class m.name m.dimensions (ground (arith, full)) (ground (arith, full))
        (ground (arith, full)) lc ld
    ∙ ap₂ (λ keyword borderless. some (record m { keyword = keyword; borderless = borderless }))
        (sym (same ∙ whole)) (sym edge)

-- A keyword is accepted as a media size if and only if it is the spelling of the size's parts,
-- none of them empty, the class and the dimensions without an underscore, and the name with any
-- number of them. The size keeps the keyword as it came, and is borderless exactly if its name
-- holds the text `.borderless`.
pub parse-Spells-iff : (k : String) (m : MediaSize) → (parse k ≡ some m) ↔ Spells k m
parse-Spells-iff k m = (parse-Spells k m, Spells-parse k m)
