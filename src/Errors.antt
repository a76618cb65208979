-- ===== src/Errors.antt =====
-- ipp-async/src/error.rs: the errors of the client, and the result type with its `?`.
pub mod Chain
pub mod Laws
use ipp_client.Prelude.{◌⊎◌, inl, inr, String, ◌<>◌, ◌≡◌, refl, Option, none, some, List, []}

-- An error of another library: its text, and the texts of its sources, outermost first.
pub record Cause : Type 0 where
  pub text : String
  pub deeper : List String

pub data Error : Type 0 where
  transport_error : String → Option Cause → Error
  ipp_error : String → String → Error
  decode_error : String → String → Error
  io_error : Cause → Error

pub data Result {ℓ} (A : Type ℓ) : Type ℓ where
  ok : A → Result A
  err : Error → Result A

-- The operator `?`, as the bind of `do` blocks.
module _ {ℓ κ} {T : Type ℓ} {U : Type κ} where
  infixl 5 ◌>>=◌ ◌>>◌
  abbrev pub ◌>>=◌ : Result T → (T → Result U) → Result U
  err failure >>= next = err failure
  ok value >>= next = next value

  abbrev pub ◌>>◌ : Result T → Result U → Result U
  checked >> rest = checked >>= λ value. rest

  -- A result that is there came by a value of the first step.
  pub >>=-eq-ok :
      (step : Result T) (next : T → Result U) {u : U}
      → (step >>= next) ≡ ok u
      → (t : T) × (step ≡ ok t) × (next t ≡ ok u)
  >>=-eq-ok (err failure) next e = cc
  >>=-eq-ok (ok value) next e = (value, refl, e)

abbrev pub decode : String → String → Error
decode attribute detail = decode_error attribute detail

abbrev pub transport : Cause → Error
transport source = transport_error source.text (some source)

abbrev pub transport_msg : String → Error
transport_msg message = transport_error message none

-- `ok_or_else`
abbrev pub ok_or {ℓ} : {A : Type ℓ} → Option A → Error → Result A
ok_or none e = err e
ok_or (some a) e = ok a

pub ok-injective {ℓ} : {A : Type ℓ} {a b : A} → ◌≡◌ {A = Result A} (ok a) (ok b) → a ≡ b
ok-injective e = cc

pub Result-cases {ℓ} :
    {A : Type ℓ} (r : Result A) → ((e : Error) × (r ≡ err e)) ⊎ ((a : A) × (r ≡ ok a))
Result-cases (ok a) = inr (a, refl)
Result-cases (err e) = inl (e, refl)
