-- ===== src/Pk/Mechanism.antt =====
-- cups-pk-client/src/client.rs and proxy.rs: the methods of the mechanism.
pub mod Laws
pub mod Methods
use ipp_client.Prelude.{
  ℕ, ℤ, Duration, as_secs, as_i32, String, Bool, true, false, ◌||◌, List, [], if◌then◌else◌,
}
use ipp_client.Prelude.Text.{contains}
use ipp_client.Pk.Errors.{CupsPkError, authorization_failed, transport, Result, ok, err, translate}
use ipp_client.Pk.Device.{Device, decode_devices}

-- The methods of the interface that answer with an error text, with their arguments on the wire.
pub data Call : Type 0 where
  call_printer_add : String → String → String → String → String → Call
  call_printer_delete : String → Call
  call_printer_rename : String → String → Call
  call_printer_set_default : String → Call
  call_printer_set_enabled : String → Bool → Call
  call_printer_set_accept_jobs : String → Bool → String → Call
  call_printer_set_info call_printer_set_location : String → String → Call
  call_printer_add_option_default : String → String → List String → Call
  call_job_cancel_purge : ℤ → Bool → Call

-- The answer to a call, or the text of the D-Bus error.
pub data Reply {ℓ} (A : Type ℓ) : Type ℓ where
  answered : A → Reply A
  bus_error : String → Reply A

-- The interface of a proxy. `S` is the state behind it.
pub record Bus (S : Type 0) : Type 0 where
  pub call : Call → S → Reply String × S
  pub devices_get :
      ℤ → ℤ → List String → List String → S → Reply (String × List (String × String)) × S

pub record PrinterSpec : Type 0 where
  pub name : String
  pub uri : String
  pub ppd : String
  pub info : String
  pub location : String

unfoldable pub driverless : String → String → PrinterSpec
driverless name uri = record {
  name = name;
  uri = uri;
  ppd = "everywhere";
  info = "";
  location = "";
}

unfoldable pub call_failed : String → CupsPkError
unfolding contains
call_failed text =
    if contains "NotPrivileged" text
      || contains "AccessDenied" text
      || contains "not authorized" text
    then authorization_failed
    else transport text

module _ {S : Type 0} (bus : Bus S) where
  abbrev pub Action : Type 0 → Type 0
  Action A = S → Result A × S

  abbrev pub settle : Reply String → Result (Unit {0})
  settle (answered error) = translate error
  settle (bus_error text) = err (call_failed text)

  -- `.await.map_err(Self::call_failed)?; translate(error)`
  unfoldable pub perform : Call → Action (Unit {0})
  unfolding translate call_failed
  perform c s = let (reply, s') = bus.call c s in (settle reply, s')

  unfoldable pub printer_set_default : String → Action (Unit {0})
  unfolding perform
  printer_set_default name = perform (call_printer_set_default name)

  abbrev found : Result (Unit {0}) → List (String × String) → Result (List Device)
  found (ok done) raw = ok (decode_devices raw)
  found (err e) raw = err e

  abbrev pub settle_devices : Reply (String × List (String × String)) → Result (List Device)
  settle_devices (answered (error, raw)) = found (translate error) raw
  settle_devices (bus_error text) = err (call_failed text)

  -- `timeout.as_secs() as i32`, and the limit as `i32`.
  unfoldable pub devices_get : Duration → ℕ → Action (List Device)
  unfolding translate call_failed decode_devices
  devices_get timeout limit s =
      let (reply, s') = bus.devices_get (as_i32 (as_secs timeout)) (as_i32 limit) [] [] s in
      (settle_devices reply, s')

  unfoldable pub printer_set_enabled : String → Bool → Action (Unit {0})
  unfolding perform
  printer_set_enabled name enabled = perform (call_printer_set_enabled name enabled)

  unfoldable pub printer_set_accept_jobs : String → Bool → String → Action (Unit {0})
  unfolding perform
  printer_set_accept_jobs name accept reason =
      perform (call_printer_set_accept_jobs name accept reason)

  unfoldable pub printer_set_info : String → String → Action (Unit {0})
  unfolding perform
  printer_set_info name info = perform (call_printer_set_info name info)

  unfoldable pub printer_set_location : String → String → Action (Unit {0})
  unfolding perform
  printer_set_location name location = perform (call_printer_set_location name location)

  unfoldable pub printer_add : PrinterSpec → Action (Unit {0})
  unfolding perform
  printer_add spec = perform (call_printer_add spec.name spec.uri spec.ppd spec.info spec.location)

  unfoldable pub printer_delete : String → Action (Unit {0})
  unfolding perform
  printer_delete name = perform (call_printer_delete name)

  unfoldable pub printer_rename : String → String → Action (Unit {0})
  unfolding perform
  printer_rename from to = perform (call_printer_rename from to)

  unfoldable pub printer_add_option_default : String → String → List String → Action (Unit {0})
  unfolding perform
  printer_add_option_default name option values =
      perform (call_printer_add_option_default name option values)

  unfoldable pub job_cancel_purge : ℤ → Bool → Action (Unit {0})
  unfolding perform
  job_cancel_purge job purge = perform (call_job_cancel_purge job purge)
