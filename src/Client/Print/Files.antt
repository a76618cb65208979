-- ===== src/Client/Print/Files.antt =====
-- Printing a file: opening it, and submitting what is then read (ipp-async/src/client.rs).
use ipp_client.Prelude.{ℕ, String, ◌≡◌, refl, ◌⊎◌, inl, inr, some}
use ipp_client.Ipp.{Uri}
use ipp_client.Errors.{Error, Result, ok, err, io_error, Result-cases, Cause}
use ipp_client.Host.{Host, Outcome, done, failed}
use ipp_client.Session.{Session}
use ipp_client.Model.Job.{JobId}
use ipp_client.Client.{Client, printer_uri}
use ipp_client.Client.Print.{auto_type, job_name_of, open_file, print_stream, print_file}
use ipp_client.Client.Print.Laws.{Submitted, print_stream_at-Submitted}

Outcome-cases : (o : Outcome ℕ) → ((e : Cause) × (o ≡ failed e)) ⊎ ((n : ℕ) × (o ≡ done n))
Outcome-cases (failed e) = inl (e, refl)
Outcome-cases (done n) = inr (n, refl)

module _ {S : Type 0} (h : Host S) (c : Client) where
  -- What becomes of a file that is printed: the result, and the session after it.
  pub data Printed (printer path : String) (s : Session S) : Result JobId × Session S → Type 0 where
    unopened :
        (e : Cause)
        → h.open_file s.server path ≡ failed e
        → Printed printer path s (err (io_error e), s)
    unaddressed :
        (file : ℕ) (e : Error)
        → h.open_file s.server path ≡ done file
        → printer_uri h c printer ≡ err e
        → Printed printer path s (err e, s)
    submitted :
        (file : ℕ) (uri : Uri) (x : Result JobId × Session S)
        → h.open_file s.server path ≡ done file
        → printer_uri h c printer ≡ ok uri
        → Submitted h c uri file (some auto_type) (job_name_of h c path) s x
        → Printed printer path s x

  -- A file that cannot be opened is an error of reading it, and a printer whose name makes no URI
  -- is an error; in both cases nothing is sent, and nothing changes. Else the opened file is
  -- submitted to that URI, as data whose type the server is to find out, under the last component
  -- of its path, or as `document` if it has none: what is sent and what the result is, whatever the
  -- server answers, are those of a submission.
  pub print_file-Printed :
      (printer path : String) (s : Session S)
      → Printed printer path s (print_file h c printer path s)
  unfolding print_file open_file print_stream
  print_file-Printed printer path s = elim (Outcome-cases (h.open_file s.server path)) [
    | inl (e, p) ↦ rw p (unopened e p)
    | inr (file, p) ↦ elim (Result-cases (printer_uri h c printer)) [
      | inl (e, q) ↦ rw (p, q) (unaddressed file e p q)
      | inr (uri, q) ↦
          rw (p, q)
            (submitted file uri _ p q
              (print_stream_at-Submitted h c uri file (some auto_type) (job_name_of h c path) s))
    ]
  ]
