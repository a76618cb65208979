-- ===== src/Subscription/Laws.antt =====
-- Keywords of events, and groups that cannot be read (ipp-async/src/subscription.rs).
use ipp_client.Prelude.{
  String, ◌≡◌, ◌≢◌, refl, ap, ◌⊎◌, inl, inr, List, ◌∷◌, ◌++◌, arith, eq_iff, filter_map-append,
}
use ipp_client.Ipp.{Tag, Group, Response}
use ipp_client.Errors.{Error, Result, err}
use ipp_client.Subscription.{
  NotifyEvent, printer_state_changed, printer_stopped, job_created, job_state_changed,
  job_completed, job_stopped, all, other, keyword, from_keyword, decode_all,
}

-- Reading a keyword as an event and printing the event gives the keyword back, so that no keyword
-- is lost; and reading what an event prints gives the event back, unless the event is an `other`
-- that holds a keyword with an event of its own.
pub from_keyword-keyword :
    ((k : String) → keyword (from_keyword k) ≡ k)
    × ((e : NotifyEvent)
        → (from_keyword (keyword e) ≡ e)
          ⊎ ((k : String) × (e ≡ other k) × (from_keyword k ≢ other k)))
unfolding keyword from_keyword
from_keyword-keyword = (λ k. printed k, λ e. read e)
  where
    split : (k : String) (e : NotifyEvent) → keyword e ≡ k → (e ≡ other k) ⊎ (e ≢ other k)
    split k (other m) h = inl (ap other h)
    split k printer_state_changed h = inr (λ p. cc)
    split k printer_stopped h = inr (λ p. cc)
    split k job_created h = inr (λ p. cc)
    split k job_state_changed h = inr (λ p. cc)
    split k job_completed h = inr (λ p. cc)
    split k job_stopped h = inr (λ p. cc)
    split k all h = inr (λ p. cc)

    printed : (k : String) → keyword (from_keyword k) ≡ k
    printed k = ground (
      arith,
      eq_iff k "printer-state-changed",
      eq_iff k "printer-stopped",
      eq_iff k "job-created",
      eq_iff k "job-state-changed",
      eq_iff k "job-completed",
      eq_iff k "job-stopped",
      eq_iff k "all",
    )

    read :
        (e : NotifyEvent)
        → (from_keyword (keyword e) ≡ e)
          ⊎ ((k : String) × (e ≡ other k) × (from_keyword k ≢ other k))
    read printer_state_changed = inl refl
    read printer_stopped = inl refl
    read job_created = inl refl
    read job_state_changed = inl refl
    read job_completed = inl refl
    read job_stopped = inl refl
    read all = inl refl
    read (other k) = elim (split k (from_keyword k) (printed k)) [
      | inl same ↦ inl same
      | inr differ ↦ inr (k, refl, differ)
    ]

-- A group that cannot be decoded costs that group alone: what is decoded from a response is what
-- is decoded from one without the group.
pub decode_all-skips :
    {T : Type 0} (resp without : Response) (tag : Tag) (decode : Group → Result T)
    (before after : List Group) (g : Group) (e : Error)
    → resp.groups_of tag ≡ before ++ (g ∷ after)
    → without.groups_of tag ≡ before ++ after
    → decode g ≡ err e
    → decode_all resp tag decode ≡ decode_all without tag decode
unfolding decode_all
decode_all-skips resp without tag decode before after g e p q r =
    rw (p, q, filter_map-append, filter_map-append, r)
