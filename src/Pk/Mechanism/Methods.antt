-- ===== src/Pk/Mechanism/Methods.antt =====
-- The methods of `CupsPk` that answer with success or an error (cups-pk-client/src/client.rs).
use ipp_client.Prelude.{ℤ, String, ◌≡◌, refl, sym, subst, Bool, List}
use ipp_client.Pk.Errors.{Result}
use ipp_client.Pk.Mechanism.{
  Call, call_printer_add, call_printer_delete, call_printer_rename, call_printer_set_default,
  call_printer_set_enabled, call_printer_set_accept_jobs, call_printer_set_info,
  call_printer_set_location, call_printer_add_option_default, call_job_cancel_purge, Bus,
  PrinterSpec, driverless, perform, printer_set_default, printer_set_enabled,
  printer_set_accept_jobs, printer_set_info, printer_set_location, printer_add, printer_delete,
  printer_rename, printer_add_option_default, job_cancel_purge,
}
use ipp_client.Pk.Mechanism.Laws.{Settled, perform-Settled}

-- Each method with what the caller gives it. `add_driverless` adds the printer of
-- `PrinterSpec::driverless`.
pub data Method : Type 0 where
  set_default delete : String → Method
  set_enabled : String → Bool → Method
  set_accept_jobs : String → Bool → String → Method
  set_info set_location rename add_driverless : String → String → Method
  add : PrinterSpec → Method
  add_option_default : String → String → List String → Method
  cancel_purge : ℤ → Bool → Method

-- The call on the wire, by the interface of the mechanism.
abbrev pub wire : Method → Call
wire (set_default name) = call_printer_set_default name
wire (delete name) = call_printer_delete name
wire (set_enabled name enabled) = call_printer_set_enabled name enabled
wire (set_accept_jobs name accept reason) = call_printer_set_accept_jobs name accept reason
wire (set_info name info) = call_printer_set_info name info
wire (set_location name location) = call_printer_set_location name location
wire (rename from to) = call_printer_rename from to
wire (add_driverless name uri) = call_printer_add name uri "everywhere" "" ""
wire (add spec) = call_printer_add spec.name spec.uri spec.ppd spec.info spec.location
wire (add_option_default name option values) = call_printer_add_option_default name option values
wire (cancel_purge job purge) = call_job_cancel_purge job purge

module _ {S : Type 0} (bus : Bus S) where
  abbrev pub invoke : Method → S → Result (Unit {0}) × S
  invoke (set_default name) = printer_set_default bus name
  invoke (delete name) = printer_delete bus name
  invoke (set_enabled name enabled) = printer_set_enabled bus name enabled
  invoke (set_accept_jobs name accept reason) = printer_set_accept_jobs bus name accept reason
  invoke (set_info name info) = printer_set_info bus name info
  invoke (set_location name location) = printer_set_location bus name location
  invoke (rename from to) = printer_rename bus from to
  invoke (add_driverless name uri) = printer_add bus (driverless name uri)
  invoke (add spec) = printer_add bus spec
  invoke (add_option_default name option values) = printer_add_option_default bus name option values
  invoke (cancel_purge job purge) = job_cancel_purge bus job purge

  invoke-perform : (m : Method) → invoke m ≡ perform bus (wire m)
  unfolding printer_set_default printer_delete printer_set_enabled printer_set_accept_jobs
      printer_set_info printer_set_location printer_rename printer_add driverless
      printer_add_option_default job_cancel_purge
  invoke-perform (set_default name) = refl
  invoke-perform _ = refl

  -- Every method of a `CupsPk`, a search for devices apart, makes exactly one call, its own, with
  -- what the caller gave. It succeeds if and only if the mechanism answers with an empty error text.
  -- It fails with a mechanism's error if and only if the answer is that text and not empty; with a
  -- refused authorization if and only if the bus fails with a text that says so; and with a
  -- transport's error if and only if the bus fails with this text and it does not.
  pub invoke-Settled :
      (m : Method) (s : S)
      → ((invoke m s).1 ≡ (bus.call (wire m) s).1) × Settled (bus.call (wire m) s).0 (invoke m s).0
  unfolding perform
  invoke-Settled m s =
      subst
        (λ (action : S → Result (Unit {0}) × S).
          ((action s).1 ≡ (bus.call (wire m) s).1) × Settled (bus.call (wire m) s).0 (action s).0)
        (sym (invoke-perform m)) (refl, perform-Settled bus (wire m) s)
