-- ===== src/Client/Default.antt =====
-- ipp-async/src/client.rs: the default printer and its cache.
pub mod Laws
pub mod Async
pub mod Settles
pub mod Tasks
pub mod Steps
use ipp_client.Prelude.{String, Option, none, some, and_then, first}
use ipp_client.Ipp.{
  operation_attributes, printer_attributes, keyword, cups_get_default, new_request, Response,
}
use ipp_client.Errors.{Result, ok, err}
use ipp_client.Host.{Host}
use ipp_client.Session.{Exec, pure, lift, attempt, ◌>>=◌}
use ipp_client.Attrs
use ipp_client.Lpoptions
use ipp_client.Client.{Client}
use ipp_client.Client.Requests.{start, put}
use ipp_client.Client.Transfer.{send}

abbrev pub first_name : Response → Option String
first_name resp =
    and_then (first (resp.groups_of printer_attributes))
      λ g. Attrs.text (Attrs.new g) "printer-name"

module _ {S : Type 0} (h : Host S) (c : Client) where
  -- The keyword `printer-name` is converted by `unwrap`: the model takes it as it is.
  unfoldable pub server_default : Exec S (Option String)
  unfolding start put send
  server_default = do
    request ← lift (start h (new_request cups_get_default none))
    request ←
        lift (put h operation_attributes "requested-attributes" (keyword "printer-name") request)
    resp ← send h c request "CUPS-Get-Default"
    pure (first_name resp)

  -- An error is logged, and reads as no default.
  abbrev pub or_no_default : Result (Option String) → Option String
  or_no_default (ok name) = name
  or_no_default (err e) = none

  unfoldable pub resolve_default : Exec S (Option String)
  unfolding server_default
  resolve_default s = elim (Lpoptions.default_printer (h.read_to_string s.server) h.home) [
    | some chosen ↦ (ok (some chosen), s)
    | none ↦ (do found ← attempt server_default; pure (or_no_default found)) s
  ]

  abbrev store_default : Option String → Exec S (Option String)
  store_default resolved s = (ok resolved, record s { cache = some resolved })

  unfoldable pub default_printer : Exec S (Option String)
  unfolding resolve_default
  default_printer s = elim s.cache [
    | some cached ↦ (ok cached, s)
    | none ↦ (do resolved ← resolve_default; store_default resolved) s
  ]

unfoldable pub invalidate_default_printer_cache : {S : Type 0} → Exec S (Unit {0})
invalidate_default_printer_cache s = (ok tt, record s { cache = none })
