-- ===== src/Future/Pool/Steps.antt =====
-- How many steps a future takes, whatever it is answered and whatever it finds in the cache.
use ipp_client.Prelude.{ℕ, zero, suc, ◌≤◌, String, ◌≡◌, refl, arith, Option, List, [], ◌∷◌, length}
use ipp_client.Ipp.{Request, Response}
use ipp_client.Errors.{Result}
use ipp_client.Host.{Outcome, Transport}
use ipp_client.Future.{Future, ready, transmit, read_file, look, store, follow}
use ipp_client.Future.Pool.{Cache, Outside, Moment, resume, drive}

-- A sum that counts on by its first argument.
abbrev pub more : ℕ → ℕ → ℕ
more zero k = k
more (suc n) k = suc (more n k)

module _ {A : Type 0} (Q : Result A → Type 0) where
  -- The future ends after so many steps at most, with a result that is as it is to be.
  pub data Ends : ℕ → Future A → Type 0 where
    done : {n : ℕ} (r : Result A) → Q r → Ends n (ready r)
    transmits :
        {n : ℕ} (t : Transport) (request : Request) (k : Outcome Response → Future A)
        → ((o : Outcome Response) → Ends n (k o))
        → Ends (suc n) (transmit t request k)
    reads :
        {n : ℕ} (path : String) (k : Option String → Future A)
        → ((x : Option String) → Ends n (k x))
        → Ends (suc n) (read_file path k)
    looks : {n : ℕ} (k : Cache → Future A) → ((c : Cache) → Ends n (k c)) → Ends (suc n) (look k)
    stores : {n : ℕ} (c : Cache) (rest : Future A) → Ends n rest → Ends (suc n) (store c rest)

  Ends-suc : {n : ℕ} {f : Future A} → Ends n f → Ends (suc n) f
  Ends-suc (done r q) = done r q
  Ends-suc (transmits t request f e) = transmits t request f λ o. Ends-suc (e o)
  Ends-suc (reads path f e) = reads path f λ x. Ends-suc (e x)
  Ends-suc (looks f e) = looks f λ c. Ends-suc (e c)
  Ends-suc (stores c rest e) = stores c rest (Ends-suc e)

  Ends-more : (k : ℕ) {n : ℕ} {f : Future A} → Ends n f → Ends (more k n) f
  Ends-more zero e = e
  Ends-more (suc k) e = Ends-suc (Ends-more k e)

  resume-Ends :
      {n : ℕ} {f : Future A} (now : Outside) (cache : Cache)
      → Ends (suc n) f
      → Ends n (resume now cache f).0
  unfolding resume
  resume-Ends now cache (done r q) = done r q
  resume-Ends now cache (transmits t request k e) = e now.heard
  resume-Ends now cache (reads path k e) = e now.contents
  resume-Ends now cache (looks k e) = e cache
  resume-Ends now cache (stores c rest e) = e

  drive_done : (ms : List Moment) (r : Result A) → drive ms (ready r) ≡ ready r
  unfolding drive resume
  drive_done [] r = refl
  drive_done (m ∷ ms) r = drive_done ms r

  pub drive-Ends :
      {n : ℕ} {f : Future A} (ms : List Moment)
      → Ends n f
      → n ≤ length ms
      → (r : Result A) × (drive ms f ≡ ready r) × Q r
  unfolding drive
  drive-Ends {n = zero} ms (done r q) l = (r, drive_done ms r, q)
  drive-Ends {n = suc n} [] e l = elim l [ ]
  drive-Ends {n = suc n} (m ∷ ms) e l =
      drive-Ends {n = n} ms (resume-Ends m.outside m.cache e) (ground (arith, l))

pub follow-Ends :
    {A B : Type 0} (Q : Result A → Type 0) (R : Result B → Type 0) {n : ℕ} (k : ℕ) {f : Future A}
    (next : Result A → Future B)
    → Ends Q n f
    → ((r : Result A) → Q r → Ends R k (next r))
    → Ends R (more n k) (follow f next)
unfolding follow
follow-Ends Q R {n = n} k next (done r q) each = Ends-more R n (each r q)
follow-Ends Q R k next (transmits t request f e) each =
    transmits t request _ λ o. follow-Ends Q R k next (e o) each
follow-Ends Q R k next (reads path f e) each = reads path _ λ x. follow-Ends Q R k next (e x) each
follow-Ends Q R k next (looks f e) each = looks _ λ c. follow-Ends Q R k next (e c) each
follow-Ends Q R k next (stores c rest e) each = stores c _ (follow-Ends Q R k next e each)
