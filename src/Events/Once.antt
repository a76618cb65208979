-- ===== src/Events/Once.antt =====
-- How many events `diff` of ipp-async/src/events.rs emits about one job, and about one printer.
use ipp_client.Prelude.{
  ℕ, ◌+◌, ◌≤◌, String, ◌≡◌, ◌↔◌, refl, Bool, true, false, not, ◌&&◌, Option, List, [], ◌∷◌, ◌++◌,
  arith, str_eq, eq_iff, beq_ℤ, beq_ℤ_iff, if◌then◌else◌,
}
use ipp_client.Model.Job.{JobId}
use ipp_client.Events.{
  PrinterEvent, job_added, job_changed, job_removed, printer_changed, printer_removed, Snapshot,
  id_of, name_of, job_removals, job_update, job_updates, printer_removals, printer_update,
  printer_updates, diff,
}
use ipp_client.Events.Keyed.{lookup, has, removals, updates, Unique}
use ipp_client.Events.Replay.{IsValid}

abbrev pub count : {E : Type 0} → (E → Bool) → List E → ℕ
count p [] = 0
count p (e ∷ es) = (if p e then 1 else 0) + count p es

count-append :
    {E : Type 0} (p : E → Bool) (es fs : List E) → count p (es ++ fs) ≡ count p es + count p fs
count-append p [] fs = omega arith
count-append p (e ∷ es) fs = ground (arith, count-append p es fs)

module _ {A K E : Type 0} (key : A → K) (beq : K → K → Bool)
    (beq_iff : (j k : K) → (beq j k ≡ true) ↔ (j ≡ k)) (about : K → E → Bool) (k : K) where
  count-removals :
      (gone : A → E) (old next : List A)
      → ((a : A) → about k (gone a) ≡ beq (key a) k)
      → Unique key beq old
      → count (about k) (removals key beq gone old next)
        ≤ (if has key beq k old && not (has key beq k next) then 1 else 0)
  unfolding removals
  count-removals gone [] next of_key u = ground arith
  count-removals gone (a ∷ old) next of_key (fresh, u) =
      ground (arith, count-removals gone old next of_key u, of_key a, beq_iff (key a) k)

  count-updates :
      (news : Option A → A → List E) (old next : List A)
      → ((o : Option A) (a : A) → count (about k) (news o a) ≤ (if beq (key a) k then 1 else 0))
      → Unique key beq next
      → count (about k) (updates key beq news old next) ≤ (if has key beq k next then 1 else 0)
  unfolding updates
  count-updates news old [] of_key u = ground arith
  count-updates news old (a ∷ next) of_key (fresh, u) = ground (
    arith,
    count-append (about k) (news (lookup key beq (key a) old) a) (updates key beq news old next),
    count-updates news old next of_key u,
    of_key (lookup key beq (key a) old) a,
    beq_iff (key a) k,
  )

-- The loops over the other kind of thing.
module _ {A K E : Type 0} (key : A → K) (beq : K → K → Bool) (p : E → Bool) where
  none_of_removals :
      (gone : A → E) (old next : List A)
      → ((a : A) → p (gone a) ≡ false)
      → count p (removals key beq gone old next) ≡ 0
  unfolding removals
  none_of_removals gone [] next other = refl
  none_of_removals gone (a ∷ old) next other =
      ground (arith, none_of_removals gone old next other, other a)

  none_of_updates :
      (news : Option A → A → List E) (old next : List A)
      → ((o : Option A) (a : A) → count p (news o a) ≡ 0)
      → count p (updates key beq news old next) ≡ 0
  unfolding updates
  none_of_updates news old [] other = refl
  none_of_updates news old (a ∷ next) other = ground (
    arith,
    count-append p (news (lookup key beq (key a) old) a) (updates key beq news old next),
    none_of_updates news old next other,
    other (lookup key beq (key a) old) a,
  )

abbrev pub about_job : JobId → PrinterEvent → Bool
about_job k (job_added j) = beq_ℤ j.id k
about_job k (job_changed j) = beq_ℤ j.id k
about_job k (job_removed i) = beq_ℤ i k
about_job k _ = false

abbrev pub about_printer : String → PrinterEvent → Bool
about_printer n (printer_changed p) = str_eq p.name n
about_printer n (printer_removed m) = str_eq m n
about_printer n _ = false

parts :
    (p : PrinterEvent → Bool) (a b c d : List PrinterEvent)
    → count p (a ++ (b ++ (c ++ d))) ≡ count p a + (count p b + (count p c + count p d))
parts p a b c d =
    ground (arith, count-append p a (b ++ (c ++ d)), count-append p b (c ++ d), count-append p c d)

one_job :
    (s t : Snapshot) → IsValid s → IsValid t → (k : JobId) → count (about_job k) (diff s t) ≤ 1
unfolding diff job_removals job_updates printer_removals printer_updates
one_job s t old next k = ground (
  arith,
  parts (about_job k) (job_removals s.jobs t.jobs) (job_updates s.jobs t.jobs)
      (printer_removals s.printers t.printers) (printer_updates s.printers t.printers),
  count-removals id_of beq_ℤ beq_ℤ_iff about_job k (λ job. job_removed job.id) s.jobs t.jobs
      (λ j. refl) old.jobs,
  count-updates id_of beq_ℤ beq_ℤ_iff about_job k job_update s.jobs t.jobs (λ o j. ground arith)
      next.jobs,
  none_of_removals name_of str_eq (about_job k) (λ printer. printer_removed printer.name) s.printers
      t.printers (λ p. refl),
  none_of_updates name_of str_eq (about_job k) printer_update s.printers t.printers
      (λ o p. ground arith),
)

one_printer :
    (s t : Snapshot) → IsValid s → IsValid t → (n : String) → count (about_printer n) (diff s t) ≤ 1
unfolding diff job_removals job_updates printer_removals printer_updates
one_printer s t old next n = ground (
  arith,
  parts (about_printer n) (job_removals s.jobs t.jobs) (job_updates s.jobs t.jobs)
      (printer_removals s.printers t.printers) (printer_updates s.printers t.printers),
  count-removals name_of str_eq eq_iff about_printer n (λ printer. printer_removed printer.name)
      s.printers t.printers (λ p. refl) old.printers,
  count-updates name_of str_eq eq_iff about_printer n printer_update s.printers t.printers
      (λ o p. ground arith) next.printers,
  none_of_removals id_of beq_ℤ (about_printer n) (λ job. job_removed job.id) s.jobs t.jobs
      (λ j. refl),
  none_of_updates id_of beq_ℤ (about_printer n) job_update s.jobs t.jobs (λ o j. ground arith),
)

-- The diff of two snapshots that list no id and no name twice has at most one event about each
-- job, and at most one about each printer.
pub diff-count :
    (s t : Snapshot) (k : JobId) (n : String)
    → IsValid s
    → IsValid t
    → (count (about_job k) (diff s t) ≤ 1) × (count (about_printer n) (diff s t) ≤ 1)
diff-count s t k n old next = (one_job s t old next k, one_printer s t old next n)
