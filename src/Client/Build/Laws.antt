-- ===== src/Client/Build/Laws.antt =====
-- The client that the builder of ipp-async/src/client.rs makes, and the URIs of its queues.
use mathlib.Core.List.{append_assoc, append-nil}
use ipp_client.Prelude.{
  ℕ, Duration, String, ◌<>◌, ◌≡◌, ◌≢◌, ap, ◌∙◌, sym, ◌↔◌, Bool, true, false, Option, none, some,
  List, [], ◌∷◌, ◌++◌, unwrap_or, arith, eq_iff,
}
use ipp_client.Prelude.Text.{trim_end_matches}
use ipp_client.Prelude.Text.Affix.{last_code}
use ipp_client.Prelude.Text.Trim.{pad, trim_end_matches-append}
use ipp_client.Ipp.{Uri}
use ipp_client.Errors.{ok, ok-injective, >>=-eq-ok}
use ipp_client.Host.{Host, done, Transport}
use ipp_client.Client.{Client, plain_transport, parse_or, default_user, printer_uri, with_uri}
use ipp_client.Client.Build.{
  IppClientBuilder, is_confidential, is_one_of, build, warns, apply_certs, apply_acceptance,
  apply_auth, apply_timeout,
}

certs-apply :
    (t : Transport) (certificates : List (List ℕ))
    → apply_certs certificates t ≡ record t { ca_certs = t.ca_certs ++ certificates }
certs-apply t [] = ap (λ l. record t { ca_certs = l }) (sym (append-nil t.ca_certs))
certs-apply t (x ∷ xs) =
    certs-apply (record t { ca_certs = t.ca_certs ++ (x ∷ []) }) xs
    ∙ ap (λ l. record t { ca_certs = l }) (append_assoc t.ca_certs (x ∷ []) xs)

settings :
    (uri : Uri) (timeout : Option Duration) (auth : Option (String × String))
    (certs : List (List ℕ)) (accept : Bool)
    → apply_acceptance accept
        (apply_certs certs (apply_auth auth (apply_timeout timeout (plain_transport uri))))
      ≡ record {
        uri = uri;
        request_timeout = timeout;
        basic_auth = auth;
        ca_certs = certs;
        ignore_tls_errors = accept;
      }
settings uri none none certs true = ap (apply_acceptance true) (certs-apply _ certs)
settings uri none none certs false = certs-apply _ certs
settings uri none (some x) certs true = ap (apply_acceptance true) (certs-apply _ certs)
settings uri none (some x) certs false = certs-apply _ certs
settings uri (some t) none certs true = ap (apply_acceptance true) (certs-apply _ certs)
settings uri (some t) none certs false = certs-apply _ certs
settings uri (some t) (some x) certs true = ap (apply_acceptance true) (certs-apply _ certs)
settings uri (some t) (some x) certs false = certs-apply _ certs

one_of_iff : (o : Option String) (n : String) → (is_one_of o (n ∷ []) ≡ true) ↔ (o ≡ some n)
one_of_iff none n = ground arith
one_of_iff (some t) n = ground (arith, eq_iff t n)

local_iff :
    (o : Option String)
    → (is_one_of o ("localhost" ∷ "127.0.0.1" ∷ "::1" ∷ "[::1]" ∷ []) ≡ false)
      ↔ ((o ≢ some "localhost") × (o ≢ some "127.0.0.1") × (o ≢ some "::1") × (o ≢ some "[::1]"))
local_iff none = ground arith
local_iff (some t) =
    ground (arith, eq_iff t "localhost", eq_iff t "127.0.0.1", eq_iff t "::1", eq_iff t "[::1]")

warns_iff :
    (auth : Option (String × String)) (uri : Uri)
    → (warns auth uri ≡ true) ↔ (
        (auth ≢ none)
        × (uri.scheme ≢ some "https")
        × (uri.scheme ≢ some "ipps")
        × (uri.host ≢ some "localhost")
        × (uri.host ≢ some "127.0.0.1")
        × (uri.host ≢ some "::1")
        × (uri.host ≢ some "[::1]"))
unfolding is_confidential
warns_iff none uri = ground arith
warns_iff (some auth) uri =
    ground (arith, one_of_iff uri.scheme "https", one_of_iff uri.scheme "ipps", local_iff uri.host)

module _ {S : Type 0} (h : Host S) where
  -- A builder whose URI can be parsed builds a client with every setting that it was given, the
  -- certificates in their order, and the base less its trailing slashes; it warns if and only if
  -- there are credentials and they are not protected.
  build_lem :
      (b : IppClientBuilder) (uri : Uri)
      → h.parse_uri b.uri ≡ done uri
      → build h b
        ≡ ok (
          record {
            inner = record {
              uri = uri;
              request_timeout = b.request_timeout;
              basic_auth = b.basic_auth;
              ca_certs = b.ca_certs;
              ignore_tls_errors = b.accept_invalid_certs;
            };
            base = trim_end_matches b'/' b.uri;
            user = unwrap_or b.user (default_user h);
          },
          warns b.basic_auth uri,
        )
  unfolding build parse_or
  build_lem b uri e =
      rw (build, parse_or, e)
        (ap
          (λ inner. ok (
            record {
              inner = inner;
              base = trim_end_matches b'/' b.uri;
              user = unwrap_or b.user (default_user h);
            },
            warns b.basic_auth uri,
          ))
          (settings uri b.request_timeout b.basic_auth b.ca_certs b.accept_invalid_certs))

  -- Slashes behind the address of a server, which itself ends in none, make no difference to the
  -- URIs of the queues of a client that can be made: they are those of the address without them.
  pub with_uri-slashes :
      (address name user : String) (slashes : ℕ) (c : Client)
      → last_code address ≢ b'/'
      → with_uri h (address <> pad "/" slashes "") user ≡ ok c
      → printer_uri h c name
        ≡ parse_or h ("bad printer uri for " <> name) (address <> "/printers/" <> name)
  unfolding with_uri printer_uri
  with_uri-slashes address name user slashes c k e =
      let (parsed, e1, p1) =
        >>=-eq-ok
          (parse_or h ("bad CUPS uri " <> (address <> pad "/" slashes ""))
            (address <> pad "/" slashes ""))
          _ e in
      let base : c.base ≡ address =
        sym (ap (λ (c : Client). c.base) (ok-injective p1))
        ∙ trim_end_matches-append "/" address slashes k in
      rw base

  -- A build whose URI can be parsed warns if and only if there are credentials, the scheme is
  -- neither https nor ipps, and the host is none of localhost, 127.0.0.1, ::1 and [::1].
  pub build-warns :
      (b : IppClientBuilder) (uri : Uri) (c : Client) (warned : Bool)
      → h.parse_uri b.uri ≡ done uri
      → build h b ≡ ok (c, warned)
      → (warned ≡ true) ↔ (
          (b.basic_auth ≢ none)
          × (uri.scheme ≢ some "https")
          × (uri.scheme ≢ some "ipps")
          × (uri.host ≢ some "localhost")
          × (uri.host ≢ some "127.0.0.1")
          × (uri.host ≢ some "::1")
          × (uri.host ≢ some "[::1]"))
  build-warns b uri c warned e p =
      rw⁻¹ (ap (λ x. x.1) (ok-injective (sym (build_lem b uri e) ∙ p))) (warns_iff b.basic_auth uri)
