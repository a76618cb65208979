-- ===== src/Session.antt =====
-- The asynchronous methods of the client as actions: they may fail, and they change the state
-- behind the transport, the requests sent so far, and the cache of the default printer.
use ipp_client.Prelude.{String, Option, List, ◌≡◌, refl, ap}
use ipp_client.Ipp.{Request}
use ipp_client.Errors.{Error, Result, ok, err}

-- `sent` is the history of requests, oldest first; no code reads it.
-- `cache` is `IppClient::default_cache`: `none` is not yet resolved, `some none` is no default.
pub record Session (S : Type 0) : Type 0 where
  pub server : S
  pub sent : List Request
  pub cache : Option (Option String)

abbrev pub Exec : Type 0 → Type 0 → Type 0
Exec S A = Session S → Result A × Session S

module _ {S A : Type 0} where
  abbrev pub pure : A → Exec S A
  pure a s = (ok a, s)

  abbrev pub raise : Error → Exec S A
  raise e s = (err e, s)

  abbrev pub lift : Result A → Exec S A
  lift r s = (r, s)

  -- The result as a value, for a `match` on it.
  abbrev pub attempt : Exec S A → Exec S (Result A)
  attempt m s = let (r, s') = m s in (ok r, s')

module _ {S A B : Type 0} where
  abbrev pub continue : Result A → (A → Exec S B) → Exec S B
  continue (err failure) next session = (err failure, session)
  continue (ok value) next session = next value session

  infixl 5 ◌>>=◌ ◌>>◌
  abbrev pub ◌>>=◌ : Exec S A → (A → Exec S B) → Exec S B
  ◌>>=◌ action next session = let (result, then) = action session in continue result next then

  abbrev pub ◌>>◌ : Exec S A → Exec S B → Exec S B
  first >> second = first >>= λ value. second

  continue-eq-ok :
      (r : Result A) (s : Session S) (f : A → Exec S B) {b : B} {t : Session S}
      → continue r f s ≡ (ok b, t)
      → (a : A) × (r ≡ ok a) × (f a s ≡ (ok b, t))
  continue-eq-ok (ok a) s f h = (a, refl, h)
  continue-eq-ok (err e) s f h = cc

  pub >>=-eq-ok :
      (m : Exec S A) (f : A → Exec S B) {s : Session S} {b : B} {t : Session S}
      → (m >>= f) s ≡ (ok b, t)
      → (a : A) × (u : Session S) × (m s ≡ (ok a, u)) × (f a u ≡ (ok b, t))
  >>=-eq-ok m f {s = s} h =
      let (a, e, k) = continue-eq-ok (m s).0 (m s).1 f h in
      (a, (m s).1, ap (λ r. (r, (m s).1)) e, k)

  -- What follows a result: nothing behind an error, and the rest behind a value.
  pub continue-cases {ℓ} :
      (P : Result B × Session S → Type ℓ) (r : Result A) (f : A → Exec S B) (s : Session S)
      → ((e : Error) → r ≡ err e → P (err e, s))
      → ((a : A) → r ≡ ok a → P (f a s))
      → P (continue r f s)
  continue-cases P (ok a) f s failing following = following a refl
  continue-cases P (err e) f s failing following = failing e refl
