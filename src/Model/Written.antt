-- ===== src/Model/Written.antt =====
-- Attribute values as a server writes them, and what is read back (ipp-async/src/attrs.rs and
-- model.rs).
use mathlib.Core.Path.{ap₂}
use ipp_client.Prelude.{
  ℤ, String, ◌<>◌, ◌≡◌, ◌≢◌, refl, eq_iff, false, Bool-cases, inl, inr, ap, Option, none, some,
  and_then, map_option, List, [], ◌∷◌, str_eq,
}
use ipp_client.Prelude.Text.{strip_suffix}
use ipp_client.Prelude.Text.Affix.{strip_suffix-append}
use ipp_client.Ipp.{Values, no_values, one_more, keyword, name_without_language, integer}
use ipp_client.Attrs
use ipp_client.Model.StateReason.{StateReason, Severity, report, warning, error, parse_list}
use ipp_client.Model.StateReason.Laws.{suffix_of, parse-suffix_of}

-- The reasons of a state, each a keyword with the suffix of its severity.
abbrev pub keywords_of : List StateReason → Values
keywords_of [] = no_values
keywords_of (r ∷ rs) = one_more (keyword (r.keyword <> suffix_of r.severity)) (keywords_of rs)

pub name_back :
    (o : Option String) → and_then (map_option o name_without_language) Attrs.as_text ≡ o
unfolding Attrs.as_text
name_back none = refl
name_back (some v) = refl

pub int_back : (o : Option ℤ) → and_then (map_option o integer) Attrs.as_int ≡ o
unfolding Attrs.as_int
int_back none = refl
int_back (some v) = refl

unsuffixed : (s : Severity) → strip_suffix (suffix_of s) "none" ≡ none
unfolding strip_suffix
unsuffixed report = refl
unsuffixed warning = refl
unsuffixed error = refl

suffixed : (k : String) (s : Severity) → k <> suffix_of s ≢ "none"
suffixed k s e = cc (strip_suffix-append k (suffix_of s), unsuffixed s)

not_none : (k : String) (s : Severity) → str_eq (k <> suffix_of s) "none" ≡ false
not_none k s = elim (Bool-cases (str_eq (k <> suffix_of s) "none")) [
  | inr differs ↦ differs
  | inl same ↦ absurd (suffixed k s ((eq_iff (k <> suffix_of s) "none").0 same))
]

pub reasons_back :
    (rs : List StateReason) → parse_list (Attrs.filter_values Attrs.as_text (keywords_of rs)) ≡ rs
unfolding parse_list Attrs.filter_values Attrs.as_text
reasons_back [] = refl
reasons_back (r ∷ rs) =
    rw (parse_list, not_none r.keyword r.severity)
      (ap₂ (λ r rs. r ∷ rs) (parse-suffix_of r.keyword r.severity) (reasons_back rs))

-- The values of an attribute that has several.
abbrev pub texts_of : List String → Values
texts_of [] = no_values
texts_of (v ∷ vs) = one_more (name_without_language v) (texts_of vs)

abbrev pub ints_of : List ℤ → Values
ints_of [] = no_values
ints_of (v ∷ vs) = one_more (integer v) (ints_of vs)

pub texts_back : (vs : List String) → Attrs.filter_values Attrs.as_text (texts_of vs) ≡ vs
unfolding Attrs.filter_values Attrs.as_text
texts_back [] = refl
texts_back (v ∷ vs) = ap (λ vs. v ∷ vs) (texts_back vs)

pub ints_back : (vs : List ℤ) → Attrs.filter_values Attrs.as_int (ints_of vs) ≡ vs
unfolding Attrs.filter_values Attrs.as_int
ints_back [] = refl
ints_back (v ∷ vs) = ap (λ vs. v ∷ vs) (ints_back vs)
