-- ===== src/Tests/Model.antt =====
-- The decoders of the model, the lpoptions and the errors.
use Prim.Native.Char.{code}
use Prim.Native.String.{[], ◌∷◌}
use ipp_client.Prelude.{
  Option, first, str_eq, if◌then◌else◌, filter_map, inl, inr, Bool-cases, ℕ, pos, String, ◌<>◌, ◌≡◌,
  ◌≢◌, ◌↔◌, ◌⊎◌, ◌==◌, refl, true, false, none, some, List, [], ◌∷◌, Bool, arith, ◌||◌,
}
use ipp_client.Prelude.Text.{strip_suffix, is_whitespace, Lacks}
use ipp_client.Errors.{transport}
use ipp_client.Errors.Chain.{display, sources, is_certificate_error}
use ipp_client.Errors.Laws.{NamesCertificate, Somewhere, is_certificate_error_lem}
use ipp_client.Model.JobState
use ipp_client.Model.StateReason.{Severity, report, warning, parse}
use ipp_client.Model.StateReason.Laws.{suffix_of, parse_cases}
use ipp_client.Model.MediaSize
use ipp_client.Model.MediaSize.Laws.{Spells, parse-Spells-iff}
use ipp_client.Model.Supply.{Supply, percent, unknown}
use ipp_client.Model.PrinterState
use ipp_client.Model.PrintQuality
use ipp_client.Model.PrinterOptions.{no_values}
use ipp_client.Model.Printer
use ipp_client.Model.Printer.{Printer}
use ipp_client.Model.Printer.Written
use ipp_client.Model.Printer.Written.{IsShown}
use ipp_client.Model.Printer.Exact.{decode-IsShown_iff}
use ipp_client.Model.Wire.{IsWire}
use ipp_client.Model.Job
use ipp_client.Model.Job.{Job}
use ipp_client.Errors.{ok}
use ipp_client.Model.Job.Written.{IsReported, group_of}
use ipp_client.Model.Job.Exact.{decode-IsReported_iff}
use ipp_client.Prelude.Text.Lines.{Solid}
use ipp_client.Lpoptions.{default_printer, user_lpoptions}
use ipp_client.Lpoptions.Files.{chosen, default_printer-files}
use ipp_client.Lpoptions.RoundTrip.{Line, IsLine, file}
use ipp_client.Tests.Scene.{lost}

parse_cases_example :
    ("paused" ≡ (parse "paused").keyword <> suffix_of (parse "paused").severity)
    ⊎ ((parse "paused" ≡ record { keyword = "paused"; severity = report })
        × ((k : String) (s : Severity) → "paused" ≢ k <> suffix_of s))
parse_cases_example = parse_cases "paused"

abbrev decoded : Job
decoded = record {
  id = pos 42;
  printer = "";
  name = none;
  user = none;
  state = JobState.processing;
  reasons = [];
  progress = Job.pages (pos 4) (pos 10);
  created = none;
  pages_printed = some (pos 4);
  completed = none;
}

decode-IsReported_iff_example :
    (IsWire (group_of decoded) × (Job.decode (group_of decoded) ≡ ok decoded)) ↔ IsReported decoded
decode-IsReported_iff_example = decode-IsReported_iff decoded

abbrev has_code : ℕ → String → Bool
has_code d [] = false
has_code d (c ∷ s) = code c == d || has_code d s

-- That a text lacks a character can be tested.
lacks : (d : ℕ) (s : String) → has_code d s ≡ false → Lacks d s
lacks d [] h = tt
lacks d (c ∷ s) h = (ground (arith, h), lacks d s (ground (arith, h)))

-- That a text has no whitespace can be tested.
abbrev has_space : String → Bool
has_space [] = false
has_space (c ∷ s) = is_whitespace (code c) || has_space s

solid : (s : String) → has_space s ≡ false → Solid s
solid [] h = tt
solid (c ∷ s) h = elim (Bool-cases (is_whitespace (code c))) [
  | inl y ↦ cc (rw y at h)
  | inr n ↦ (n, solid s (rw n at h))
]

abbrev office_line : Line
office_line = record {
  chosen = true;
  name = "office";
  instance_name = some "duplex";
  options = " sides=two-sided";
}

abbrev attic_line : Line
attic_line = record { chosen = false; name = "attic"; instance_name = none; options = "" }

office_line-IsLine : IsLine office_line
office_line-IsLine = record {
  named = refl;
  solid = solid "office" refl;
  no_slash = lacks b'/' "office" refl;
  plain = solid "duplex" refl;
  behind = refl;
  one_line = lacks b'\n' " sides=two-sided" refl;
}

attic_line-IsLine : IsLine attic_line
attic_line-IsLine = record {
  named = refl;
  solid = solid "attic" refl;
  no_slash = lacks b'/' "attic" refl;
  plain = tt;
  behind = tt;
  one_line = tt;
}

-- The user's file names an instance and no default, and the system's file names one.
abbrev two_files : String → Option String
two_files path =
    if str_eq path "/etc/cups/lpoptions"
    then some (file (office_line ∷ attic_line ∷ []))
    else if str_eq path "/home/ada/.cups/lpoptions"
    then some (file (attic_line ∷ []))
    else none

default_printer-files_example :
    default_printer two_files (some "/home/ada")
    ≡ first (filter_map chosen (some (attic_line ∷ []) ∷ some (office_line ∷ attic_line ∷ []) ∷ []))
unfolding user_lpoptions strip_suffix
default_printer-files_example =
    default_printer-files two_files (some "/home/ada") (some (attic_line ∷ []))
      (some (office_line ∷ attic_line ∷ [])) (attic_line-IsLine, tt)
      (office_line-IsLine, (attic_line-IsLine, tt)) refl refl

is_certificate_error_lem_example :
    (is_certificate_error (transport lost) ≡ true)
    ↔ Somewhere NamesCertificate (display (transport lost) ∷ sources (transport lost))
is_certificate_error_lem_example = is_certificate_error_lem (transport lost)

-- The keyword of a size and its parts.
abbrev letter : MediaSize.MediaSize
letter = record {
  keyword = "na_letter_8.5x11in";
  class = "na";
  name = "letter";
  dimensions = "8.5x11in";
  borderless = false;
}

parse-Spells-iff_example :
    (MediaSize.parse "na_letter_8.5x11in" ≡ some letter) ↔ Spells "na_letter_8.5x11in" letter
parse-Spells-iff_example = parse-Spells-iff "na_letter_8.5x11in" letter

abbrev shown_supplies : List Supply
shown_supplies =
    record {
      name = "black";
      kind = some "toner";
      colour = some "#000000";
      level = percent 40;
      low_threshold = none;
    }
    ∷ record {
      name = "waste";
      kind = none;
      colour = some "none";
      level = unknown;
      low_threshold = none;
    }
    ∷ []

abbrev laser : Printer
laser = record {
  name = "laser";
  uri = "ipp://print.example/printers/laser";
  device_uri = "usb://Acme/Laser";
  info = some "The laser printer";
  location = none;
  state = PrinterState.stopped;
  reasons = record { keyword = "media-empty"; severity = warning } ∷ [];
  accepting_jobs = false;
  supplies = shown_supplies;
  is_default = false;
  options = record {
    media = record { supported = "iso_a4_210x297mm" ∷ []; default = some "iso_a4_210x297mm" };
    sides = no_values;
    color_mode = no_values;
    quality = record { supported = PrintQuality.draft ∷ PrintQuality.high ∷ []; default = none };
    output_bin = no_values;
  };
}

laser-IsShown : IsShown laser
laser-IsShown = record {
  undecided = refl;
  supplies = record {
    levels = (omega arith, (tt, tt));
    kinds = tt;
    colours = tt;
    low_thresholds = (refl, tt);
  };
  thresholds = (tt, (tt, tt));
}

laser_found : IsWire (Written.group_of laser) × (Printer.decode (Written.group_of laser) ≡ ok laser)
laser_found = (decode-IsShown_iff laser).1 laser-IsShown

decode-IsShown_iff_example :
    (IsWire (Written.group_of laser) × (Printer.decode (Written.group_of laser) ≡ ok laser))
    ↔ IsShown laser
decode-IsShown_iff_example = decode-IsShown_iff laser
