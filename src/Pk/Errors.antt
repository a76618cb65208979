-- ===== src/Pk/Errors.antt =====
-- cups-pk-client/src/error.rs: `CupsPkError` and the mechanism's convention for errors.
use ipp_client.Prelude.{String, true, false}
use ipp_client.Prelude.Text.{is_empty}

pub data CupsPkError : Type 0 where
  authorization_failed : CupsPkError
  mechanism transport : String → CupsPkError

pub data Result {ℓ} (A : Type ℓ) : Type ℓ where
  ok : A → Result A
  err : CupsPkError → Result A

-- An empty error text is success.
unfoldable pub translate : String → Result (Unit {0})
translate error = elim (is_empty error) [ true ↦ ok tt | false ↦ err (mechanism error) ]
