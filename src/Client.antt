-- ===== src/Client.antt =====
-- ipp-async/src/client.rs: the client, the handles that it gives, and the URIs of its queues.
pub mod Build
pub mod Opcodes
pub mod Requests
pub mod Transfer
pub mod Default
pub mod Queries
pub mod Jobs
pub mod Print
pub mod Printer
pub mod Notify
pub mod OpenJob
pub mod Stream
use ipp_client.Prelude.{String, ◌<>◌, Option, none, false, List, [], unwrap_or}
use ipp_client.Prelude.Text.{trim_end_matches}
use ipp_client.Ipp.{Uri}
use ipp_client.Errors.{Result, ok, err, ◌>>=◌, transport_msg}
use ipp_client.Host.{Host, Outcome, done, failed, Transport}

-- The cache of the default printer is part of a `Session`.
pub record Client : Type 0 where
  pub inner : Transport
  pub base : String
  pub user : String

-- One printer, addressed by its own URI.
pub record IppPrinter : Type 0 where
  pub client : Client
  pub uri : Uri

-- `AsyncIppClient::new`
abbrev pub plain_transport : Uri → Transport
plain_transport uri = record {
  uri = uri;
  request_timeout = none;
  basic_auth = none;
  ca_certs = [];
  ignore_tls_errors = false;
}

module _ {S : Type 0} (h : Host S) where
  -- `text.parse().map_err(…)`, the error's text behind a prefix.
  unfoldable pub parse_or : String → String → Result Uri
  parse_or prefix text = elim (h.parse_uri text) [
    | done uri ↦ ok uri
    | failed e ↦ err (transport_msg (prefix <> ": " <> e.text))
  ]

  unfoldable pub default_user : String
  default_user = unwrap_or h.user "anonymous"

  unfoldable pub with_uri : String → String → Result Client
  unfolding parse_or trim_end_matches
  with_uri uri user = do
    parsed ← parse_or ("bad CUPS uri " <> uri) uri
    ok (record { inner = plain_transport parsed; base = trim_end_matches b'/' uri; user = user })

  abbrev pub local_cups : String
  local_cups = "http://localhost:631"

  unfoldable pub local : Result Client
  unfolding with_uri default_user
  local = with_uri local_cups default_user

  module _ (c : Client) where
    unfoldable pub at : String → Result IppPrinter
    unfolding parse_or
    at uri = do
      parsed ← parse_or ("bad printer uri " <> uri) uri
      ok (record { client = c; uri = parsed })

    unfoldable pub printer_uri : String → Result Uri
    unfolding parse_or
    printer_uri name = parse_or ("bad printer uri for " <> name) (c.base <> "/printers/" <> name)

    unfoldable pub queue : String → Result IppPrinter
    unfolding printer_uri
    queue name = do uri ← printer_uri name; ok (record { client = c; uri = uri })
