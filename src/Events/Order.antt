-- ===== src/Events/Order.antt =====
-- The order of the events that `diff` of ipp-async/src/events.rs emits, and that each is a change.
use native.Mathlib.Omega.{arith}
use text.Mathlib.TextEquality.{eq_iff}
use ipp_client.Prelude.{
  ℕ, ◌≤◌, ◌≡◌, ◌≢◌, refl, Bool, true, false, Option, none, some, List, [], ◌∷◌, ◌++◌, All,
  All-append, str_eq, beq_ℤ, beq_ℤ_iff, Bool-cases, inl, inr,
}
use ipp_client.Model.Job.{Job}
use ipp_client.Model.Printer.{Printer}
use ipp_client.Events.{
  PrinterEvent, job_added, job_changed, job_removed, printer_changed, printer_removed,
  resynchronised, Snapshot, id_of, name_of, job_removals, job_update, job_updates, printer_removals,
  printer_update, printer_updates, diff,
}
use ipp_client.Events.Equality.{beq_job, beq_job_iff, beq_printer, beq_printer_iff}
use ipp_client.Events.Keyed.{
  lookup, has, has-lookup, is_present, removals, updates, All-lookup_self, All-has_self,
  All-removals, All-updates,
}
use ipp_client.Events.Replay.{View, view, IsValid}

-- The four loops in their order.
abbrev pub phase : PrinterEvent → ℕ
phase (job_removed i) = 0
phase (job_added j) = 1
phase (job_changed j) = 1
phase (printer_removed n) = 2
phase (printer_changed p) = 3
phase (resynchronised ps js) = 4

-- No event is of an earlier phase than one before it, nor earlier than `low`.
abbrev pub Ascends : ℕ → List PrinterEvent → Type 0
Ascends low [] = Unit
Ascends low (e ∷ es) = (low ≤ phase e) × Ascends (phase e) es

-- Every change that an event announces is one from `s` to `t`.
abbrev pub IsChange : View → View → PrinterEvent → Type 0
IsChange s t (job_added j) = (s.job j.id ≡ none) × (t.job j.id ≡ some j)
IsChange s t (job_changed j) = (s.job j.id ≢ none) × (s.job j.id ≢ some j) × (t.job j.id ≡ some j)
IsChange s t (job_removed i) = (s.job i ≢ none) × (t.job i ≡ none)
IsChange s t (printer_changed p) = (s.printer p.name ≢ some p) × (t.printer p.name ≡ some p)
IsChange s t (printer_removed n) = (s.printer n ≢ none) × (t.printer n ≡ none)
IsChange s t (resynchronised ps js) = ⊥

Ascends-below : (low n : ℕ) (es : List PrinterEvent) → low ≤ n → Ascends n es → Ascends low es
Ascends-below low n [] h a = tt
Ascends-below low n (e ∷ es) h a = (omega arith, a.1)

not_none : {A : Type 0} (o : Option A) → is_present o ≡ true → o ≢ none
not_none none h e = cc
not_none (some a) h e = cc

is_none : {A : Type 0} (o : Option A) → is_present o ≡ false → o ≡ none
is_none none h = refl
is_none (some a) h = cc

module _ (s t : Snapshot) where
  removed_job :
      (j : Job)
      → has id_of beq_ℤ j.id s.jobs ≡ true
      → has id_of beq_ℤ j.id t.jobs ≡ false
      → IsChange (view s) (view t) (job_removed j.id)
  removed_job j there absent =
      (not_none _ (rw has-lookup at there), is_none _ (rw has-lookup at absent))

  removed_printer :
      (p : Printer)
      → has name_of str_eq p.name s.printers ≡ true
      → has name_of str_eq p.name t.printers ≡ false
      → IsChange (view s) (view t) (printer_removed p.name)
  removed_printer p there absent =
      (not_none _ (rw has-lookup at there), is_none _ (rw has-lookup at absent))

  updated_job :
      (o : Option Job) (j : Job)
      → (view s).job j.id ≡ o
      → (view t).job j.id ≡ some j
      → All (IsChange (view s) (view t)) (job_update o j)
  updated_job none j before after = ((before, after), tt)
  updated_job (some previous) j before after = elim (Bool-cases (beq_job previous j)) [
    | inl same ↦ rw same tt
    | inr differ ↦
        rw differ ((ground arith, λ e. ground (arith, beq_job_iff previous j), after), tt)
  ]

  updated_printer :
      (o : Option Printer) (p : Printer)
      → (view s).printer p.name ≡ o
      → (view t).printer p.name ≡ some p
      → All (IsChange (view s) (view t)) (printer_update o p)
  updated_printer none p before after = ((λ e. cc, after), tt)
  updated_printer (some previous) p before after = elim (Bool-cases (beq_printer previous p)) [
    | inl same ↦ rw same tt
    | inr differ ↦ rw differ ((λ e. ground (arith, beq_printer_iff previous p), after), tt)
  ]

-- Every event of a diff announces a change of what is known by id or by name: an added job was
-- not there, a changed one was there and differs, a removed one was there and is gone, a changed
-- printer differs or was not there; the job or printer carried is the one of the next snapshot.
-- No event is a reload. The next snapshot lists no id and no name twice.
pub diff-IsChange : (s t : Snapshot) → IsValid t → All (IsChange (view s) (view t)) (diff s t)
unfolding diff job_removals job_updates printer_removals printer_updates
diff-IsChange s t valid =
    All-append P (job_removals s.jobs t.jobs) _
      (All-removals id_of beq_ℤ P _ s.jobs t.jobs s.jobs (removed_job s t)
        (All-has_self id_of beq_ℤ beq_ℤ_iff s.jobs))
      (All-append P (job_updates s.jobs t.jobs) _
        (All-updates id_of beq_ℤ P job_update s.jobs t.jobs t.jobs
          (λ j after. updated_job s t _ j refl after)
          (All-lookup_self id_of beq_ℤ beq_ℤ_iff t.jobs valid.jobs))
        (All-append P (printer_removals s.printers t.printers) _
          (All-removals name_of str_eq P _ s.printers t.printers s.printers (removed_printer s t)
            (All-has_self name_of str_eq eq_iff s.printers))
          (All-updates name_of str_eq P printer_update s.printers t.printers t.printers
            (λ p after. updated_printer s t _ p refl after)
            (All-lookup_self name_of str_eq eq_iff t.printers valid.printers))))
  where
    P : PrinterEvent → Type 0
    P = IsChange (view s) (view t)

Ascends-append :
    (low n : ℕ) (es rest : List PrinterEvent)
    → low ≤ n
    → All (λ e. phase e ≡ n) es
    → Ascends n rest
    → Ascends low (es ++ rest)
Ascends-append low n [] rest h all tail = Ascends-below low n rest h tail
Ascends-append low n (e ∷ es) rest h all tail =
    (omega (arith, all.0), rw all.0 (Ascends-append n n es rest (omega arith) all.1 tail))

Ascends-All :
    (n : ℕ) {low : ℕ} (es : List PrinterEvent)
    → low ≤ n
    → All (λ e. phase e ≡ n) es
    → Ascends low es
Ascends-All n [] h all = tt
Ascends-All n (e ∷ es) h all = (omega (arith, all.0), Ascends-All n es (omega (arith, all.0)) all.1)

module _ {A K : Type 0} (key : A → K) (beq : K → K → Bool) (n : ℕ) where
  phase-removals :
      (gone : A → PrinterEvent) (old next : List A)
      → ((a : A) → phase (gone a) ≡ n)
      → All (λ e. phase e ≡ n) (removals key beq gone old next)
  unfolding removals
  phase-removals gone [] next h = tt
  phase-removals gone (a ∷ old) next h = ground (arith, h a, phase-removals gone old next h)

  phase-updates :
      (news : Option A → A → List PrinterEvent) (old next : List A)
      → ((o : Option A) (a : A) → All (λ e. phase e ≡ n) (news o a))
      → All (λ e. phase e ≡ n) (updates key beq news old next)
  unfolding updates
  phase-updates news old [] h = tt
  phase-updates news old (a ∷ next) h =
      All-append _ (news (lookup key beq (key a) old) a) _ (h _ a) (phase-updates news old next h)

phase-job_update : (o : Option Job) (j : Job) → All (λ e. phase e ≡ 1) (job_update o j)
phase-job_update none j = (refl, tt)
phase-job_update (some b) j = ground arith

phase-printer_update :
    (o : Option Printer) (p : Printer) → All (λ e. phase e ≡ 3) (printer_update o p)
phase-printer_update none p = (refl, tt)
phase-printer_update (some b) p = ground arith

-- In a diff the removals of jobs come first, then jobs that were added or changed, then the
-- removals of printers, then printers that changed; for any two snapshots.
pub diff-Ascends : (s t : Snapshot) → Ascends 0 (diff s t)
unfolding diff job_removals job_updates printer_removals printer_updates
diff-Ascends s t =
    Ascends-append 0 0 (job_removals s.jobs t.jobs) _ (omega arith)
      (phase-removals id_of beq_ℤ 0 _ s.jobs t.jobs (λ j. refl))
      (Ascends-append 0 1 (job_updates s.jobs t.jobs) _ (omega arith)
        (phase-updates id_of beq_ℤ 1 job_update s.jobs t.jobs phase-job_update)
        (Ascends-append 1 2 (printer_removals s.printers t.printers) _ (omega arith)
          (phase-removals name_of str_eq 2 _ s.printers t.printers (λ p. refl))
          (Ascends-All 3 _ (omega arith) (
            phase-updates name_of str_eq 3 printer_update s.printers t.printers
              phase-printer_update))))
