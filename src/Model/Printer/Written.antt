-- ===== src/Model/Printer/Written.antt =====
-- A printer written as attributes (ipp-async/src/model.rs).
use ipp_client.Prelude.{
  ℤ, All, arith, String, ◌≡◌, false, Option, none, some, map_option, map, List, [], ◌∷◌, str_eq,
  if◌then◌else◌,
}
use ipp_client.Prelude.Leading.{present}
use ipp_client.Ipp.{Value, name_without_language, integer, enum, boolean, array, Group}
use ipp_client.Model.PrinterState.{PrinterState}
use ipp_client.Model.PrintQuality
use ipp_client.Model.PrintQuality.{PrintQuality}
use ipp_client.Model.PrinterOptions.{PrinterOptions}
use ipp_client.Model.Supply
use ipp_client.Model.Supply.{
  Supply, SupplyLevel, percent, unknown, zip_from, supply_at, decode_list,
}
use ipp_client.Model.Supply.Exact.{level_number, decode_list-IsShown, decode_list-back}
use ipp_client.Model.Supply.Exact
use ipp_client.Model.Written.{keywords_of, texts_of, ints_of}
use ipp_client.Model.Wire.{
  IsI32, IsKnown, Carried, IsWire, Carried-if, keywords_of-Scalars, texts_of-Scalars,
  ints_of-Scalars, name-Carried, int-Carried,
}
use ipp_client.Model.Supply.Laws.{IsPercentage}
use ipp_client.Model.States.{printer_number}
use ipp_client.Model.Printer.{Printer}

-- The printers that a server can show.
pub record IsShown (p : Printer) : Type 0 where
  pub undecided : p.is_default ≡ false
  pub supplies : Supply.Exact.IsShown p.supplies
  pub thresholds : All IsKnown (map (λ s. s.low_threshold) p.supplies)

-- The attributes of a printer as a server writes them, each part under its own name.
abbrev options_of : PrinterOptions → Group
options_of o name =
    if str_eq name "media-supported"
    then some (array (texts_of o.media.supported))
    else if str_eq name "media-default"
    then map_option o.media.default name_without_language
    else if str_eq name "sides-supported"
    then some (array (texts_of o.sides.supported))
    else if str_eq name "sides-default"
    then map_option o.sides.default name_without_language
    else if str_eq name "print-color-mode-supported"
    then some (array (texts_of o.color_mode.supported))
    else if str_eq name "print-color-mode-default"
    then map_option o.color_mode.default name_without_language
    else if str_eq name "print-quality-supported"
    then some (array (ints_of (map PrintQuality.to_ipp o.quality.supported)))
    else if str_eq name "print-quality-default"
    then map_option (map_option o.quality.default PrintQuality.to_ipp) integer
    else if str_eq name "output-bin-supported"
    then some (array (texts_of o.output_bin.supported))
    else if str_eq name "output-bin-default"
    then map_option o.output_bin.default name_without_language
    else none

abbrev markers_of : List Supply → Group → Group
markers_of supplies others name =
    if str_eq name "marker-names"
    then some (array (texts_of (map (λ s. s.name) supplies)))
    else if str_eq name "marker-levels"
    then some (array (ints_of (map (λ s. level_number s.level) supplies)))
    else if str_eq name "marker-types"
    then some (array (texts_of (present (map (λ s. s.kind) supplies))))
    else if str_eq name "marker-colors"
    then some (array (texts_of (present (map (λ s. s.colour) supplies))))
    else if str_eq name "marker-low-levels"
    then some (array (ints_of (present (map (λ s. s.low_threshold) supplies))))
    else others name

abbrev pub group_of : Printer → Group
group_of p name =
    if str_eq name "printer-name"
    then some (name_without_language p.name)
    else if str_eq name "printer-state"
    then some (enum (printer_number p.state))
    else if str_eq name "device-uri"
    then some (Value.uri p.device_uri)
    else if str_eq name "printer-uri-supported"
    then some (Value.uri p.uri)
    else if str_eq name "printer-info"
    then map_option p.info name_without_language
    else if str_eq name "printer-location"
    then map_option p.location name_without_language
    else if str_eq name "printer-state-reasons"
    then some (array (keywords_of p.reasons))
    else if str_eq name "printer-is-accepting-jobs"
    then some (boolean p.accepting_jobs)
    else markers_of p.supplies (options_of p.options) name

number-IsI32 : (s : PrinterState) → IsI32 (printer_number s)
number-IsI32 s = ground arith

quality-IsI32 : (q : PrintQuality) → IsI32 (PrintQuality.to_ipp q)
unfolding PrintQuality.to_ipp
quality-IsI32 q = ground arith

qualities-IsI32 : (qs : List PrintQuality) → All IsI32 (map PrintQuality.to_ipp qs)
qualities-IsI32 [] = tt
qualities-IsI32 (q ∷ qs) = (quality-IsI32 q, qualities-IsI32 qs)

default-IsKnown : (o : Option PrintQuality) → IsKnown (map_option o PrintQuality.to_ipp)
default-IsKnown none = tt
default-IsKnown (some q) = quality-IsI32 q

levels-IsI32 :
    (supplies : List Supply)
    → All (λ s. IsPercentage s.level) supplies
    → All IsI32 (map (λ s. level_number s.level) supplies)
levels-IsI32 [] h = tt
levels-IsI32 (s ∷ supplies) h = (level-IsI32 s.level h.0, levels-IsI32 supplies h.1)
  where
    level-IsI32 : (level : SupplyLevel) → IsPercentage level → IsI32 (level_number level)
    level-IsI32 (percent n) k = omega arith
    level-IsI32 unknown k = omega arith

present-IsI32 : (os : List (Option ℤ)) → All IsKnown os → All IsI32 (present os)
present-IsI32 [] h = tt
present-IsI32 (none ∷ os) h = present-IsI32 os h.1
present-IsI32 (some v ∷ os) h = (h.0, present-IsI32 os h.1)

options_of-Carried : (o : PrinterOptions) (name : String) → Carried (options_of o name)
options_of-Carried o name =
    Carried-if (str_eq name "media-supported") _ _ (texts_of-Scalars o.media.supported) (
      Carried-if (str_eq name "media-default") _ _ (name-Carried o.media.default) (
        Carried-if (str_eq name "sides-supported") _ _ (texts_of-Scalars o.sides.supported) (
          Carried-if (str_eq name "sides-default") _ _ (name-Carried o.sides.default) (
            Carried-if (str_eq name "print-color-mode-supported") _ _
              (texts_of-Scalars o.color_mode.supported)
              (Carried-if (str_eq name "print-color-mode-default") _ _
                (name-Carried o.color_mode.default)
                (Carried-if (str_eq name "print-quality-supported") _ _
                  (ints_of-Scalars _ (qualities-IsI32 o.quality.supported))
                  (Carried-if (str_eq name "print-quality-default") _ _
                    (int-Carried _ (default-IsKnown o.quality.default))
                    (Carried-if (str_eq name "output-bin-supported") _ _
                      (texts_of-Scalars o.output_bin.supported)
                      (Carried-if (str_eq name "output-bin-default") _ none
                        (name-Carried o.output_bin.default) tt)))))))))

markers_of-Carried :
    (p : Printer) (others : Group) (name : String)
    → IsShown p
    → Carried (others name)
    → Carried (markers_of p.supplies others name)
markers_of-Carried p others name shown rest =
    Carried-if (str_eq name "marker-names") _ _ (texts_of-Scalars (map (λ s. s.name) p.supplies)) (
      Carried-if (str_eq name "marker-levels") _ _
        (ints_of-Scalars _ (levels-IsI32 p.supplies shown.supplies.levels))
        (Carried-if (str_eq name "marker-types") _ _
          (texts_of-Scalars (present (map (λ s. s.kind) p.supplies)))
          (Carried-if (str_eq name "marker-colors") _ _
            (texts_of-Scalars (present (map (λ s. s.colour) p.supplies)))
            (Carried-if (str_eq name "marker-low-levels") _ (others name)
              (ints_of-Scalars _ (present-IsI32 _ shown.thresholds)) rest))))

pub group_of-IsWire : (p : Printer) → IsShown p → IsWire (group_of p)
unfolding IsWire
group_of-IsWire p shown name = Carried-if (str_eq name "printer-name") _ _ tt (
    Carried-if (str_eq name "printer-state") _ _ (number-IsI32 p.state) (
      Carried-if (str_eq name "device-uri") _ _ tt (
        Carried-if (str_eq name "printer-uri-supported") _ _ tt (
          Carried-if (str_eq name "printer-info") _ _ (name-Carried p.info) (
            Carried-if (str_eq name "printer-location") _ _ (name-Carried p.location) (
              Carried-if (str_eq name "printer-state-reasons") _ _ (keywords_of-Scalars p.reasons) (
                Carried-if (str_eq name "printer-is-accepting-jobs") _ _ tt (
                  markers_of-Carried p (options_of p.options) name shown
                    (options_of-Carried p.options name)))))))))
