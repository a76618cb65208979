-- ===== src/Client/Printer/Laws.antt =====
-- What the controls of an `IppPrinter` send (ipp-async/src/client.rs).
use ipp_client.Prelude.{ℕ, String, Option, none, some, [], ◌∷◌}
use ipp_client.Ipp.{
  get_printer_attributes, Operation, pause_printer, resume_printer, new_request, Request,
}
use ipp_client.Host.{Host}
use ipp_client.Session.{Exec}
use ipp_client.Client.{IppPrinter}
use ipp_client.Client.Requests.Laws.{
  printer_action_request-eq-ok, raw_request-eq-ok, user_attribute,
}
use ipp_client.Client.Transfer.Sends.{Sends, Sends-run}
use ipp_client.Client.Printer.{
  printer_action, pause, resume, raw_action, disable, enable, hold_new_jobs, release_held_new_jobs,
  cancel_my_jobs, cancel_all_jobs,
}

-- The operations on a printer that take no argument.
pub data Control : Type 0 where
  pausing resuming disabling enabling : Control
  holding_new_jobs releasing_held_new_jobs cancelling_my_jobs cancelling_all_jobs : Control

-- The request of a control: its operation, or the code that is written over that of
-- Get-Printer-Attributes, by RFC 3998 and PWG 5100.11.
abbrev pub control_request : IppPrinter → Operation → Option ℕ → Request
control_request p operation code = record {
  builder = new_request operation (some p.uri);
  opcode = code;
  attributes = user_attribute p.client ∷ [];
}

abbrev pub request_of : IppPrinter → Control → Request
request_of p pausing = control_request p pause_printer none
request_of p resuming = control_request p resume_printer none
request_of p disabling = control_request p get_printer_attributes (some 0x0023)
request_of p enabling = control_request p get_printer_attributes (some 0x0022)
request_of p holding_new_jobs = control_request p get_printer_attributes (some 0x0025)
request_of p releasing_held_new_jobs = control_request p get_printer_attributes (some 0x0026)
request_of p cancelling_my_jobs = control_request p get_printer_attributes (some 0x0039)
request_of p cancelling_all_jobs = control_request p get_printer_attributes (some 0x0038)

module _ {S : Type 0} (h : Host S) (p : IppPrinter) where
  abbrev pub control : Control → Exec S (Unit {0})
  control pausing = pause h p
  control resuming = resume h p
  control disabling = disable h p
  control enabling = enable h p
  control holding_new_jobs = hold_new_jobs h p
  control releasing_held_new_jobs = release_held_new_jobs h p
  control cancelling_my_jobs = cancel_my_jobs h p
  control cancelling_all_jobs = cancel_all_jobs h p

  action-Sends :
      (operation : Operation) (label : String)
      → Sends (printer_action h p operation label) (control_request p operation none)
  unfolding printer_action
  action-Sends operation label =
      Sends-run h p.client _ label _ (printer_action_request-eq-ok h p.client operation p.uri)

  raw-Sends :
      (code : ℕ) (label : String)
      → Sends (raw_action h p code label) (control_request p get_printer_attributes (some code))
  unfolding raw_action
  raw-Sends code label = Sends-run h p.client _ label _ (raw_request-eq-ok h p.client p.uri code)

  -- A control sends its request, to the printer's own URI, and no other.
  pub control-Sends : (a : Control) → Sends (control a) (request_of p a)
  unfolding pause resume disable enable hold_new_jobs release_held_new_jobs cancel_my_jobs
      cancel_all_jobs
  control-Sends pausing = action-Sends pause_printer "Pause-Printer"
  control-Sends resuming = action-Sends resume_printer "Resume-Printer"
  control-Sends disabling = raw-Sends 0x0023 "Disable-Printer"
  control-Sends enabling = raw-Sends 0x0022 "Enable-Printer"
  control-Sends holding_new_jobs = raw-Sends 0x0025 "Hold-New-Jobs"
  control-Sends releasing_held_new_jobs = raw-Sends 0x0026 "Release-Held-New-Jobs"
  control-Sends cancelling_my_jobs = raw-Sends 0x0039 "Cancel-My-Jobs"
  control-Sends cancelling_all_jobs = raw-Sends 0x0038 "Cancel-Jobs"
