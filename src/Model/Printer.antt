-- ===== src/Model/Printer.antt =====
-- ipp-async/src/model.rs: `Printer`, from a printer-attributes group.
pub mod Written
pub mod Exact
use ipp_client.Prelude.{String, Bool, true, false, Option, List, map, first, unwrap_or}
use ipp_client.Ipp.{Group}
use ipp_client.Errors.{Result, ok, ◌>>=◌}
use ipp_client.Attrs
use ipp_client.Model.PrinterState
use ipp_client.Model.PrinterState.{PrinterState}
use ipp_client.Model.StateReason
use ipp_client.Model.StateReason.{StateReason, Severity, max_of}
use ipp_client.Model.Supply
use ipp_client.Model.Supply.{Supply}
use ipp_client.Model.PrinterOptions
use ipp_client.Model.PrinterOptions.{PrinterOptions}

pub record Printer : Type 0 where
  pub name : String
  pub uri : String
  pub device_uri : String
  pub info : Option String
  pub location : Option String
  pub state : PrinterState
  pub reasons : List StateReason
  pub accepting_jobs : Bool
  pub supplies : List Supply
  pub is_default : Bool
  pub options : PrinterOptions

unfoldable pub decode : Group → Result Printer
decode group = do
  let a = Attrs.new group
  name ← Attrs.require_text a "printer-name"
  value ← Attrs.require_int a "printer-state"
  state ← PrinterState.from_ipp value
  ok (record {
    name = name;
    device_uri = unwrap_or (Attrs.text a "device-uri") "";
    uri = unwrap_or (first (Attrs.texts a "printer-uri-supported")) "";
    info = Attrs.text a "printer-info";
    location = Attrs.text a "printer-location";
    state = state;
    reasons = StateReason.parse_list (Attrs.texts a "printer-state-reasons");
    accepting_jobs = unwrap_or (Attrs.bool a "printer-is-accepting-jobs") true;
    supplies =
        Supply.decode_list (Attrs.texts a "marker-names") (Attrs.ints a "marker-levels")
          (Attrs.texts a "marker-types") (Attrs.texts a "marker-colors")
          (Attrs.ints a "marker-low-levels");
    is_default = false;
    options = PrinterOptions.decode a;
  })

unfoldable pub highest_severity : Printer → Option Severity
highest_severity p = max_of (map (λ (r : StateReason). r.severity) p.reasons)
