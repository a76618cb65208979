-- ===== src/Host.antt =====
-- What the client relies on and does not implement: the `ipp` crate (parsing URIs, building
-- requests, bounded strings, attributes, statuses, sending a request), the environment variables,
-- the files, and the last component of a path. The state `S` is all that lies behind them.
use ipp_client.Prelude.{ℕ, Duration, String, Bool, Option, List}
use ipp_client.Ipp.{Uri, Bound, Value, Builder, Request, Response}
use ipp_client.Errors.{Cause}

pub data Outcome {ℓ} (A : Type ℓ) : Type ℓ where
  done : A → Outcome A
  failed : Cause → Outcome A

-- How a client reaches its endpoint: the settings of `AsyncIppClient` and of its builder.
pub record Transport : Type 0 where
  pub uri : Uri
  pub request_timeout : Option Duration
  pub basic_auth : Option (String × String)
  pub ca_certs : List (List ℕ)
  pub ignore_tls_errors : Bool

pub record Host (S : Type 0) : Type 0 where
  pub parse_uri : String → Outcome Uri
  -- the error of a constructor of requests, if it refuses its arguments
  pub build_error : Builder → Option Cause
  pub fits : Bound → String → Bool
  -- the error of `IppAttribute::with_name`, printed
  pub attribute_error : String → Value → Option String
  pub is_success : ℕ → Bool
  pub is_not_found : ℕ → Bool
  pub status_text : ℕ → String
  pub send : Transport → Request → S → Outcome Response × S
  pub read_to_string : S → String → Option String
  pub open_file : S → String → Outcome ℕ
  pub file_name : String → Option String
  pub home : Option String
  pub user : Option String
