-- ===== src/Model/PrinterOptions.antt =====
-- ipp-async/src/model.rs: `OptionValues` and `PrinterOptions`.
use ipp_client.Prelude.{String, Bool, Option, none, List, [], and_then, filter_map, length, leb}
use ipp_client.Attrs
use ipp_client.Attrs.{Attrs}
use ipp_client.Model.PrintQuality
use ipp_client.Model.PrintQuality.{PrintQuality}

pub record OptionValues (T : Type 0) : Type 0 where
  pub supported : List T
  pub default : Option T

abbrev pub no_values : {T : Type 0} → OptionValues T
no_values = record { supported = []; default = none }

unfoldable pub is_choice : {T : Type 0} → OptionValues T → Bool
is_choice o = leb 2 (length o.supported)

pub record PrinterOptions : Type 0 where
  pub media : OptionValues String
  pub sides : OptionValues String
  pub color_mode : OptionValues String
  pub quality : OptionValues PrintQuality
  pub output_bin : OptionValues String

abbrev text_values : Attrs → String → String → OptionValues String
text_values a supported default = record {
  supported = Attrs.texts a supported;
  default = Attrs.text a default;
}

unfoldable pub decode : Attrs → PrinterOptions
decode a = record {
  media = text_values a "media-supported" "media-default";
  sides = text_values a "sides-supported" "sides-default";
  color_mode = text_values a "print-color-mode-supported" "print-color-mode-default";
  quality = record {
    supported = filter_map PrintQuality.from_ipp (Attrs.ints a "print-quality-supported");
    default = and_then (Attrs.int a "print-quality-default") PrintQuality.from_ipp;
  };
  output_bin = text_values a "output-bin-supported" "output-bin-default";
}
