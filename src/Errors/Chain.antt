-- ===== src/Errors/Chain.antt =====
-- ipp-async/src/error.rs: what an error prints, and the walk along its sources.
use ipp_client.Prelude.{String, ◌<>◌, Bool, true, false, ◌||◌, none, some, List, [], ◌∷◌}
use ipp_client.Prelude.Text.{contains}
use ipp_client.Errors.{Cause, Error, transport_error, ipp_error, decode_error, io_error}

-- The `#[error]` texts.
unfoldable pub display : Error → String
display (transport_error message source) = "cannot reach the print service: " <> message
display (ipp_error operation status) = operation <> " was refused with " <> status
display (decode_error attribute detail) = "cannot decode attribute " <> attribute <> ": " <> detail
display (io_error e) = "io error: " <> e.text

abbrev texts : Cause → List String
texts c = c.text ∷ c.deeper

-- `source()`, followed to the end of the chain.
unfoldable pub sources : Error → List String
sources (transport_error message none) = []
sources (transport_error message (some c)) = texts c
sources (io_error c) = texts c
sources _ = []

unfoldable pub names_certificate : String → Bool
unfolding contains
names_certificate text = contains "certificate" text || contains "CertificateError" text

-- The `while` loop over what is left of the chain.
unfoldable pub certificate_loop : List String → Bool
unfolding names_certificate
certificate_loop [] = false
certificate_loop (text ∷ rest) =
    let later = certificate_loop rest in
    elim (names_certificate text) [ true ↦ true | false ↦ later ]

unfoldable pub is_certificate_error : Error → Bool
unfolding display sources certificate_loop
is_certificate_error e = certificate_loop (display e ∷ sources e)
