-- ===== src/Client/OpenJob/Laws.antt =====
-- The life of an `IppJob` (ipp-async/src/client.rs): documents are added until one is the last, and
-- closing tells the server only what it does not know yet.
use ipp_client.Prelude.{
  ℕ, String, ◌≡◌, ap, ◌∙◌, sym, Bool, true, false, ◌&&◌, ◌||◌, Option, some, List, [], ◌∷◌, arith,
}
use ipp_client.Ipp.{cancel_job, new_request, Request}
use ipp_client.Errors.{Error, Result, ok, err}
use ipp_client.Host.{Host}
use ipp_client.Session.{Session}
use ipp_client.Client.Opcodes.{close_job}
use ipp_client.Client.Requests.Laws.{int_attribute, user_attribute}
use ipp_client.Client.OpenJob.{
  IppJob, send_document, add_document, after_document, close_request, close,
}

-- A document with its format, and whether it is the last one.
abbrev pub Document : Type 0
Document = ℕ × Option String × Bool

abbrev is_ok : {A : Type 0} → Result A → Bool
is_ok (ok a) = true
is_ok (err e) = false

module _ {S : Type 0} (h : Host S) where
  -- Documents are added one after the other, whatever becomes of each; what is left is the job,
  -- the session, and whether a last document was accepted.
  unfoldable pub add_all : IppJob → List Document → Session S → (Bool × IppJob) × Session S
  unfolding add_document
  add_all j [] s = ((false, j), s)
  add_all j ((document, format, last) ∷ rest) s =
      let ((r, k), t) = add_document h j document format last s in
      let ((ended, final), u) = add_all k rest t in (((last && is_ok r) || ended, final), u)

  pub kept :
      (j : IppJob) (last : Bool) (r : Result (Unit {0}))
      → ((after_document h j last r).id ≡ j.id) × ((after_document h j last r).printer ≡ j.printer)
  kept j last r = ground arith

  -- Closing a closed job gives its id and does nothing.
  pub close_closed : (j : IppJob) (s : Session S) → j.closed ≡ true → close h j s ≡ (ok j.id, s)
  unfolding close
  close_closed j s e = rw e

  pub close_open :
      (j : IppJob) (s : Session S) → j.closed ≡ false → close h j s ≡ close_request h j s
  unfolding close
  close_open j s e = rw e

  -- A document that fails leaves the job as it was, so that another may be the last.
  pub add_document-err :
      (j k : IppJob) (document : ℕ) (format : Option String) (last : Bool) (s t : Session S)
      (e : Error)
      → add_document h j document format last s ≡ ((err e, k), t)
      → k ≡ j
  unfolding add_document
  add_document-err j k document format last s t e p =
      let r = (send_document h j document format last s).0 in
      let failing : r ≡ err e = ap (λ x. x.0.0) p in
      let left : after_document h j last r ≡ k = ap (λ x. x.0.1) p in
      sym left ∙ ap (after_document h j last) failing

  -- The request that closes a job begins as Cancel-Job, with the code of Close-Job written over.
  abbrev pub closing_request : IppJob → Request
  closing_request j = record {
    builder = new_request cancel_job (some j.printer.uri);
    opcode = some close_job;
    attributes = int_attribute "job-id" j.id ∷ user_attribute j.printer.client ∷ [];
  }
