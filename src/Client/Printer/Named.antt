-- ===== src/Client/Printer/Named.antt =====
-- What the operations of `IppClient` on a queue that is named send (ipp-async/src/client.rs).
use ipp_client.Prelude.{String, ◌≡◌, refl}
use ipp_client.Ipp.{Uri}
use ipp_client.Errors.{Result, ok, err}
use ipp_client.Host.{Host}
use ipp_client.Session.{Session, Exec, lift, ◌>>=◌}
use ipp_client.Model.Job.{JobId}
use ipp_client.Client.{Client, IppPrinter, printer_uri}
use ipp_client.Client.Requests.{IdentifyAction}
use ipp_client.Client.Transfer.Sends.{Sent}
use ipp_client.Client.Jobs.{
  job_action, cancel_job, hold_job, release_job, restart_job, purge_jobs, identify_printer,
  validate_job,
}
use ipp_client.Client.Printer
use ipp_client.Client.Printer.Sent.{
  Action, cancelling, holding, releasing, restarting, Order, acting, purging, validating,
  identifying, order_request, perform, perform-Sent,
}

-- The operations that take the name of a queue.
pub data Task : Type 0 where
  act : Action → JobId → Task
  purge : Task
  validate : String → Task
  identify : IdentifyAction → Task

-- The operation of the printer itself.
abbrev pub order_of : Task → Order
order_of (act action job) = acting action job
order_of purge = purging
order_of (validate format) = validating format
order_of (identify action) = identifying action

abbrev pub printer_of : Client → Uri → IppPrinter
printer_of c uri = record { client = c; uri = uri }

module _ {S : Type 0} (h : Host S) (c : Client) where
  abbrev pub by_name : Task → String → Exec S (Unit {0})
  by_name (act cancelling job) printer = cancel_job h c printer job
  by_name (act holding job) printer = hold_job h c printer job
  by_name (act releasing job) printer = release_job h c printer job
  by_name (act restarting job) printer = restart_job h c printer job
  by_name purge printer = purge_jobs h c printer
  by_name (validate format) printer = validate_job h c printer format
  by_name (identify action) printer = identify_printer h c printer action

  -- Without a URI nothing is done. With one, the request of the printer's operation is sent to it.
  abbrev pub Addressed : {A : Type 0} → Result Uri → Order → Exec S A → Session S → Type 0
  Addressed (err e) order action s = action s ≡ (err e, s)
  Addressed (ok uri) order action s =
      ((action s).1.cache ≡ s.cache)
      × Sent (order_request (printer_of c uri) order) (action s).0 s (action s).1

  delegated :
      (uri : Result Uri) (order : Order) (s : Session S)
      → Addressed uri order (lift uri >>= λ u. perform h (printer_of c u) order) s
  delegated (err e) order s = refl
  delegated (ok uri) order s = perform-Sent h (printer_of c uri) order s

  -- An operation on a queue that is named fails, and sends nothing, if the name makes no URI. Else
  -- it sends at most the request of the printer's own operation at that URI: exactly once if it
  -- succeeds, and perhaps if it fails; nothing else is sent, and the cached default stays. The
  -- operations are the actions on a job, purging, validating and identifying.
  pub by_name-Addressed :
      (task : Task) (printer : String) (s : Session S)
      → Addressed (printer_uri h c printer) (order_of task) (by_name task printer) s
  unfolding cancel_job hold_job release_job restart_job job_action purge_jobs identify_printer
      validate_job Printer.cancel_job Printer.hold_job Printer.release_job Printer.restart_job
      Printer.job_action Printer.purge_jobs Printer.validate Printer.identify
  by_name-Addressed (act cancelling job) printer s =
      delegated (printer_uri h c printer) (acting cancelling job) s
  by_name-Addressed (act holding job) printer s =
      delegated (printer_uri h c printer) (acting holding job) s
  by_name-Addressed (act releasing job) printer s =
      delegated (printer_uri h c printer) (acting releasing job) s
  by_name-Addressed (act restarting job) printer s =
      delegated (printer_uri h c printer) (acting restarting job) s
  by_name-Addressed purge printer s = delegated (printer_uri h c printer) purging s
  by_name-Addressed (validate format) printer s =
      delegated (printer_uri h c printer) (validating format) s
  by_name-Addressed (identify action) printer s =
      delegated (printer_uri h c printer) (identifying action) s
