-- ===== src/Client/Transfer.antt =====
-- ipp-async/src/client.rs: sending a request, checking the status of the answer, and decoding
-- its groups.
pub mod Laws
pub mod Async
pub mod Sends
pub mod Gives
use ipp_client.Prelude.{
  String, Bool, false, Option, none, some, List, [], ◌∷◌, ◌++◌, filter_map, first, and_then, str_eq,
  if◌then◌else◌,
}
use ipp_client.Ipp.{printer_attributes, job_attributes, Request, Response}
use ipp_client.Errors.{Result, ok, err, ipp_error, decode, transport, ok_or}
use ipp_client.Host.{Host, Outcome, done, failed}
use ipp_client.Session.{Exec, pure, lift, ◌>>=◌, ◌>>◌}
use ipp_client.Attrs
use ipp_client.Model.Printer
use ipp_client.Model.Printer.{Printer}
use ipp_client.Model.Job
use ipp_client.Model.Job.{Job, JobId}
use ipp_client.Subscription.{decode_all}
use ipp_client.Client.{Client}

-- `printer.is_default = default == Some(name)`
abbrev names_default : Option String → String → Bool
names_default none name = false
names_default (some d) name = str_eq d name

abbrev pub mark_default : Option String → Printer → Printer
mark_default default p = record p { is_default = names_default default p.name }

abbrev pub decode_marked : Option String → Result Printer → Option Printer
decode_marked default (ok p) = some (mark_default default p)
decode_marked default (err e) = none

unfoldable pub decode_printers : Response → Option String → List Printer
decode_printers resp default =
    filter_map (λ group. decode_marked default (Printer.decode group))
      (resp.groups_of printer_attributes)

unfoldable pub decode_jobs : Response → List Job
unfolding decode_all
decode_jobs resp = decode_all resp job_attributes Job.decode

unfoldable pub decode_job_id : Response → Result JobId
decode_job_id resp =
    ok_or (and_then (first (resp.groups_of job_attributes)) λ g. Attrs.int (Attrs.new g) "job-id")
      (decode "job-id" "absent from the Print-Job reply")

module _ {S : Type 0} (h : Host S) where
  unfoldable pub check_status : Response → String → Result (Unit {0})
  check_status resp op =
      if h.is_success resp.status then ok tt else err (ipp_error op (h.status_text resp.status))

  abbrev pub received : Outcome Response → Result Response
  received (done resp) = ok resp
  received (failed e) = err (transport e)

  module _ (c : Client) where
    -- `self.inner.send(request).await.map_err(Error::transport)`
    unfoldable pub transmit : Request → Exec S Response
    transmit req s =
        let (answer, server) = h.send c.inner req s.server in
        (received answer, record s { server = server; sent = s.sent ++ (req ∷ []) })

    unfoldable pub send : Request → String → Exec S Response
    unfolding transmit check_status
    send req label = do resp ← transmit req; lift (check_status resp label); pure resp

    -- A request that is built and sent, and whose answer is not looked into.
    unfoldable pub run : Result Request → String → Exec S (Unit {0})
    unfolding send
    run request label = do r ← lift request; send r label; pure tt
