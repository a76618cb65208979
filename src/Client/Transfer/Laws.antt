-- ===== src/Client/Transfer/Laws.antt =====
-- Sending a request and decoding the printers of an answer (ipp-async/src/client.rs).
use mathlib.Core.Option.{some-injective}
use mathlib.Core.Path.{ap₂}
use ipp_client.Prelude.{
  String, ◌≡◌, refl, ap, ◌↔◌, true, false, Bool-cases, Option, none, some, inl, inr, List, [], ◌∷◌,
  ◌++◌, All, filter_map, push_option, map, arith, eq_iff, if◌then◌else◌,
}
use ipp_client.Ipp.{printer_attributes, Group, Request, Response}
use ipp_client.Errors.{Result, ok, err, transport, ipp_error, >>=-eq-ok, ok-injective}
use ipp_client.Host.{Host, Outcome, done, failed}
use ipp_client.Session.{Session, continue, lift, pure, ◌>>◌}
use ipp_client.Attrs
use ipp_client.Model.PrinterState
use ipp_client.Model.Printer
use ipp_client.Model.Printer.{Printer}
use ipp_client.Subscription.{decode_all, to_option}
use ipp_client.Client.{Client}
use ipp_client.Client.Transfer.{
  transmit, received, send, check_status, decode_printers, decode_marked, names_default,
}

module _ {S : Type 0} (h : Host S) (c : Client) where
  -- What an answer means to `send`.
  abbrev pub outcome_of : Outcome Response → String → Result Response
  outcome_of (failed e) label = err (transport e)
  outcome_of (done resp) label =
      if h.is_success resp.status
      then ok resp
      else err (ipp_error label (h.status_text resp.status))

  -- A call of `send` sends its request, exactly once and whatever becomes of it, and leaves the
  -- cache as it is. It gives the response if there is one with a status of success; it fails with
  -- the transport's error if there is none, and with the label and the status otherwise.
  pub send_lem :
      (req : Request) (label : String) (s : Session S)
      → send h c req label s ≡ (
        outcome_of (h.send c.inner req s.server).0 label,
        record s { server = (h.send c.inner req s.server).1; sent = s.sent ++ (req ∷ []) },
      )
  unfolding send transmit check_status
  send_lem req label s = settled (h.send c.inner req s.server).0 (h.send c.inner req s.server).1
    where
      settled :
          (answer : Outcome Response) (server : S)
          → continue
              (received h answer)
              (λ resp. (lift (check_status h resp label) >> pure resp))
              (record s { server = server; sent = s.sent ++ (req ∷ []) })
            ≡ (outcome_of answer label, record s { server = server; sent = s.sent ++ (req ∷ []) })
      settled (failed e) server = refl
      settled (done resp) server = elim (Bool-cases (h.is_success resp.status)) [
        | inl t ↦ rw t refl
        | inr f ↦ rw f refl
      ]

names_default_iff :
    (d : Option String) (name : String) → (names_default d name ≡ true) ↔ (d ≡ some name)
names_default_iff none name = ground arith
names_default_iff (some d) name =
    (λ h. ap some ((eq_iff d name).0 h), λ h. (eq_iff d name).1 (some-injective _ _ h))

-- What a group gives, as a list.
abbrev Marked : Option String → List Printer → Type 0
Marked d = All (λ (p : Printer). (p.is_default ≡ true) ↔ (d ≡ some p.name))

push-Marked :
    (d : Option String) (r : Result Printer) (ps : List Printer)
    → Marked d ps
    → Marked d (push_option (decode_marked d r) ps)
push-Marked d (ok p) ps all = (names_default_iff d p.name, all)
push-Marked d (err e) ps all = all

groups-Marked :
    (d : Option String) (gs : List Group)
    → Marked d (filter_map (λ group. decode_marked d (Printer.decode group)) gs)
groups-Marked d [] = tt
groups-Marked d (g ∷ gs) = push-Marked d (Printer.decode g) _ (groups-Marked d gs)

-- A printer of a response is marked as the default if and only if its name is the default's.
pub decode_printers-default :
    (resp : Response) (d : Option String)
    → All (λ p. (p.is_default ≡ true) ↔ (d ≡ some p.name)) (decode_printers resp d)
unfolding decode_printers
decode_printers-default resp d = groups-Marked d (resp.groups_of printer_attributes)

abbrev unmark : Printer → Printer
unmark p = record p { is_default = false }

ok-unmarked :
    (q p : Printer) → q.is_default ≡ false → ◌≡◌ {A = Result Printer} (ok q) (ok p) → unmark p ≡ p
ok-unmarked q p h e = let k : q ≡ p = ok-injective e in cc

decode-unmarked : (g : Group) (p : Printer) → Printer.decode g ≡ ok p → unmark p ≡ p
unfolding Printer.decode
decode-unmarked g p e =
    let (name, en, e1) = >>=-eq-ok (Attrs.require_text (Attrs.new g) "printer-name") _ e in
    let (value, ev, e2) = >>=-eq-ok (Attrs.require_int (Attrs.new g) "printer-state") _ e1 in
    let (state, es, e3) = >>=-eq-ok (PrinterState.from_ipp value) _ e2 in ok-unmarked _ p refl e3

-- Apart from the mark, the printers of a response are the groups that can be decoded, in their
-- order, whatever the default is.
decode_printers-groups :
    (resp : Response) (d : Option String)
    → map (λ (p : Printer). record p { is_default = false }) (decode_printers resp d)
      ≡ decode_all resp printer_attributes Printer.decode
unfolding decode_printers decode_all
decode_printers-groups resp d = groups (resp.groups_of printer_attributes)
  where
    pushed :
        (r : Result Printer) (ps qs : List Printer)
        → ((p : Printer) → r ≡ ok p → unmark p ≡ p)
        → map unmark ps ≡ qs
        → map unmark (push_option (decode_marked d r) ps) ≡ push_option (to_option r) qs
    pushed (ok p) ps qs h e = ap₂ (λ q qs. q ∷ qs) (h p refl) e
    pushed (err x) ps qs h e = e

    groups :
        (gs : List Group)
        → map unmark (filter_map (λ group. decode_marked d (Printer.decode group)) gs)
          ≡ filter_map (λ group. to_option (Printer.decode group)) gs
    groups [] = refl
    groups (g ∷ gs) = pushed (Printer.decode g) _ _ (decode-unmarked g) (groups gs)
