-- ===== src/Client/Build.antt =====
-- ipp-async/src/client.rs: `IppClientBuilder`.
pub mod Laws
use ipp_client.Prelude.{
  ℕ, Duration, String, ◌<>◌, Bool, true, false, not, ◌||◌, Option, none, some, List, [], ◌∷◌, ◌++◌,
  str_eq, unwrap_or, if◌then◌else◌,
}
use ipp_client.Prelude.Text.{trim_end_matches}
use ipp_client.Ipp.{Uri}
use ipp_client.Errors.{Result, ok, ◌>>=◌}
use ipp_client.Host.{Host, Transport}
use ipp_client.Client.{Client, plain_transport, parse_or, default_user}

-- Built with the feature `tls`, which is on by default.
pub record IppClientBuilder : Type 0 where
  pub uri : String
  pub user : Option String
  pub basic_auth : Option (String × String)
  pub request_timeout : Option Duration
  pub ca_certs : List (List ℕ)
  pub accept_invalid_certs : Bool

abbrev pub builder : String → IppClientBuilder
builder uri = record {
  uri = uri;
  user = none;
  basic_auth = none;
  request_timeout = none;
  ca_certs = [];
  accept_invalid_certs = false;
}

abbrev pub set_user : String → IppClientBuilder → IppClientBuilder
set_user user b = record b { user = some user }

abbrev pub set_request_timeout : Duration → IppClientBuilder → IppClientBuilder
set_request_timeout timeout b = record b { request_timeout = some timeout }

abbrev pub set_basic_auth : String → String → IppClientBuilder → IppClientBuilder
set_basic_auth user password b = record b { basic_auth = some (user, password) }

abbrev pub ca_cert : List ℕ → IppClientBuilder → IppClientBuilder
ca_cert certificate b = record b { ca_certs = b.ca_certs ++ (certificate ∷ []) }

abbrev pub danger_accept_invalid_certs : Bool → IppClientBuilder → IppClientBuilder
danger_accept_invalid_certs accept b = record b { accept_invalid_certs = accept }

abbrev is_one_of : Option String → List String → Bool
is_one_of none names = false
is_one_of (some t) [] = false
is_one_of (some t) (n ∷ names) = str_eq t n || is_one_of (some t) names

-- Whether credentials are protected, by TLS or by never leaving the machine.
unfoldable pub is_confidential : Uri → Bool
is_confidential uri =
    if is_one_of uri.scheme ("https" ∷ []) || is_one_of uri.scheme ("ipps" ∷ [])
    then true
    else is_one_of uri.host ("localhost" ∷ "127.0.0.1" ∷ "::1" ∷ "[::1]" ∷ [])

abbrev apply_timeout : Option Duration → Transport → Transport
apply_timeout none t = t
apply_timeout (some timeout) t = record t { request_timeout = some timeout }

abbrev apply_auth : Option (String × String) → Transport → Transport
apply_auth none t = t
apply_auth (some auth) t = record t { basic_auth = some auth }

abbrev apply_certs : List (List ℕ) → Transport → Transport
apply_certs [] t = t
apply_certs (certificate ∷ rest) t =
    apply_certs rest (record t { ca_certs = t.ca_certs ++ (certificate ∷ []) })

-- The certificates are no longer checked; else the setting is left as it is.
abbrev apply_acceptance : Bool → Transport → Transport
apply_acceptance true t = record t { ignore_tls_errors = true }
apply_acceptance false t = t

abbrev pub warns : Option (String × String) → Uri → Bool
warns none uri = false
warns (some auth) uri = not (is_confidential uri)

module _ {S : Type 0} (h : Host S) where
  -- The client, and whether the build warns of credentials sent in the clear.
  unfoldable pub build : IppClientBuilder → Result (Client × Bool)
  unfolding parse_or default_user trim_end_matches is_confidential
  build b = do
    parsed ← parse_or h ("bad uri " <> b.uri) b.uri
    let timed = apply_timeout b.request_timeout (plain_transport parsed)
    let authorised = apply_auth b.basic_auth timed
    let trusting = apply_certs b.ca_certs authorised
    ok (
      record {
        inner = apply_acceptance b.accept_invalid_certs trusting;
        base = trim_end_matches b'/' b.uri;
        user = unwrap_or b.user (default_user h);
      },
      warns b.basic_auth parsed,
    )
