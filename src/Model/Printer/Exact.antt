-- ===== src/Model/Printer/Exact.antt =====
-- The attributes of a printer, written and decoded (ipp-async/src/model.rs).
use ipp_client.Prelude.{
  ℕ, zero, suc, ◌+◌, ℤ, All, get_elem?, String, ◌≡◌, refl, ap, sym, ◌∙◌, subst, ◌↔◌, Option, none,
  some, and_then, map_option, filter_map, map, List, [], ◌∷◌,
}
use ipp_client.Prelude.Leading.{present}
use ipp_client.Ipp.{name_without_language, integer, Group}
use ipp_client.Errors.{ok, >>=-eq-ok, ok-injective}
use ipp_client.Attrs
use ipp_client.Model.PrinterState
use ipp_client.Model.PrinterState.{PrinterState}
use ipp_client.Model.PrintQuality
use ipp_client.Model.PrintQuality.{PrintQuality}
use ipp_client.Model.PrinterOptions
use ipp_client.Model.PrinterOptions.{PrinterOptions, OptionValues}
use ipp_client.Model.Supply
use ipp_client.Model.Supply.{
  Supply, SupplyLevel, percent, unknown, zip_from, supply_at, decode_list,
}
use ipp_client.Model.Supply.Exact.{level_number, decode_list-IsShown, decode_list-back}
use ipp_client.Model.Supply.Exact
use ipp_client.Model.Written.{texts_of, name_back, reasons_back, texts_back, ints_back}
use ipp_client.Model.Wire.{IsI32, IsKnown, IsWire, ints-IsI32}
use ipp_client.Model.States.{printer_number, from_ipp-numbers}
use ipp_client.Model.Printer
use ipp_client.Model.Printer.{Printer}
use ipp_client.Model.Printer.Written.{IsShown, group_of, group_of-IsWire}

-- A quality is read back from its number.
quality_back :
    (o : Option PrintQuality)
    → and_then
        (and_then (map_option (map_option o PrintQuality.to_ipp) integer) Attrs.as_int)
        PrintQuality.from_ipp
      ≡ o
unfolding Attrs.as_int PrintQuality.to_ipp PrintQuality.from_ipp
quality_back none = refl
quality_back (some PrintQuality.draft) = refl
quality_back (some PrintQuality.normal) = refl
quality_back (some PrintQuality.high) = refl

qualities_back :
    (qs : List PrintQuality) → filter_map PrintQuality.from_ipp (map PrintQuality.to_ipp qs) ≡ qs
unfolding PrintQuality.to_ipp PrintQuality.from_ipp
qualities_back [] = refl
qualities_back (PrintQuality.draft ∷ qs) = ap (λ qs. PrintQuality.draft ∷ qs) (qualities_back qs)
qualities_back (PrintQuality.normal ∷ qs) = ap (λ qs. PrintQuality.normal ∷ qs) (qualities_back qs)
qualities_back (PrintQuality.high ∷ qs) = ap (λ qs. PrintQuality.high ∷ qs) (qualities_back qs)

abbrev choices_read : OptionValues String → OptionValues String
choices_read v = record {
  supported = Attrs.filter_values Attrs.as_text (texts_of v.supported);
  default = and_then (map_option v.default name_without_language) Attrs.as_text;
}

choices_back : (v : OptionValues String) → choices_read v ≡ v
choices_back v =
    λ i. record { supported = texts_back v.supported i; default = name_back v.default i }

options_back : (p : Printer) → PrinterOptions.decode (Attrs.new (group_of p)) ≡ p.options
unfolding PrinterOptions.decode Attrs.text Attrs.int Attrs.texts Attrs.ints Attrs.value
    Attrs.flatten
options_back p =
    let o = p.options in
    λ i. record {
      media = choices_back o.media i;
      sides = choices_back o.sides i;
      color_mode = choices_back o.color_mode i;
      quality = record {
        supported =
            (ap (filter_map PrintQuality.from_ipp)
                  (ints_back (map PrintQuality.to_ipp o.quality.supported))
                ∙ qualities_back o.quality.supported)
              i;
        default = quality_back o.quality.default i;
      };
      output_bin = choices_back o.output_bin i;
    }

supplies_back :
    (p : Printer)
    → Supply.Exact.IsShown p.supplies
    → (let a = Attrs.new (group_of p) in
        Supply.decode_list
          (Attrs.texts a "marker-names")
          (Attrs.ints a "marker-levels")
          (Attrs.texts a "marker-types")
          (Attrs.texts a "marker-colors")
          (Attrs.ints a "marker-low-levels"))
      ≡ p.supplies
unfolding Attrs.texts Attrs.ints Attrs.value Attrs.flatten
supplies_back p shown =
    let ss = p.supplies in
    (λ i.
      Supply.decode_list (texts_back (map (λ s. s.name) ss) i)
        (ints_back (map (λ s. level_number s.level) ss) i)
        (texts_back (present (map (λ s. s.kind) ss)) i)
        (texts_back (present (map (λ s. s.colour) ss)) i)
        (ints_back (present (map (λ s. s.low_threshold) ss)) i))
    ∙ decode_list-back ss shown

state_back : (s : PrinterState) → PrinterState.from_ipp (printer_number s) ≡ ok s
state_back s = (from_ipp-numbers.0 (printer_number s) s).1 refl

-- A printer that a server can show is decoded from its attributes.
decode-group_of : (p : Printer) → IsShown p → Printer.decode (group_of p) ≡ ok p
unfolding Printer.decode Attrs.require_text Attrs.require_int Attrs.text Attrs.int Attrs.texts
    Attrs.value Attrs.flatten Attrs.as_int Attrs.as_text Attrs.bool
decode-group_of p shown = rw (state_back p.state) λ i. ok (record {
  name = p.name;
  uri = p.uri;
  device_uri = p.device_uri;
  info = name_back p.info i;
  location = name_back p.location i;
  state = p.state;
  reasons = reasons_back p.reasons i;
  accepting_jobs = p.accepting_jobs;
  supplies = supplies_back p shown.supplies i;
  is_default = sym shown.undecided i;
  options = options_back p i;
})

-- The low thresholds, read by position.
get_elem?-IsKnown : (low : List ℤ) (i : ℕ) → All IsI32 low → IsKnown (get_elem? low i)
get_elem?-IsKnown [] i h = tt
get_elem?-IsKnown (v ∷ low) zero h = h.0
get_elem?-IsKnown (v ∷ low) (suc i) h = get_elem?-IsKnown low i h.1

zip_from-IsKnown :
    (types colours : List String) (low : List ℤ) (i : ℕ) (names : List String) (levels : List ℤ)
    → All IsI32 low
    → All IsKnown (map (λ s. s.low_threshold) (zip_from types colours low i names levels))
unfolding zip_from supply_at
zip_from-IsKnown types colours low i [] levels h = tt
zip_from-IsKnown types colours low i (n ∷ names) [] h = tt
zip_from-IsKnown types colours low i (n ∷ names) (l ∷ levels) h =
    (get_elem?-IsKnown low i h, zip_from-IsKnown types colours low (i + 1) names levels h)

-- A printer that is decoded from a group whose integers are of 32 bits is one that a server can
-- show.
decode-IsShown : (g : Group) (p : Printer) → IsWire g → Printer.decode g ≡ ok p → IsShown p
unfolding Printer.decode decode_list
decode-IsShown g p wire e =
    let a = Attrs.new g in
    let (name, e1, p1) = >>=-eq-ok (Attrs.require_text a "printer-name") _ e in
    let (value, e2, p2) = >>=-eq-ok (Attrs.require_int a "printer-state") _ p1 in
    let (state, e3, p3) = >>=-eq-ok (PrinterState.from_ipp value) _ p2 in
    subst IsShown (ok-injective p3) (record {
      undecided = refl;
      supplies =
          decode_list-IsShown (Attrs.texts a "marker-names") (Attrs.ints a "marker-levels")
            (Attrs.texts a "marker-types") (Attrs.texts a "marker-colors")
            (Attrs.ints a "marker-low-levels");
      thresholds =
          zip_from-IsKnown (Attrs.texts a "marker-types") (Attrs.texts a "marker-colors")
            (Attrs.ints a "marker-low-levels") 0 (Attrs.texts a "marker-names")
            (Attrs.ints a "marker-levels") (ints-IsI32 g "marker-low-levels" wire);
    })

-- A printer whose parts are written as attributes, each under its own name, the kinds, colours and
-- thresholds of its supplies as far as they are known, has integers of 32 bits there and is decoded
-- from them as it is, if and only if: it is not marked as the default; its levels that are known
-- are at most 100, and its thresholds of 32 bits; and of its supplies those with a kind stand before
-- those without, and likewise those with a colour and those with a threshold. Texts have no
-- greatest length here.
pub decode-IsShown_iff :
    (p : Printer) → (IsWire (group_of p) × (Printer.decode (group_of p) ≡ ok p)) ↔ IsShown p
decode-IsShown_iff p = (
  λ (wire, e). decode-IsShown (group_of p) p wire e,
  λ shown. (group_of-IsWire p shown, decode-group_of p shown),
)
