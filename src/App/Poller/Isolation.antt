-- ===== src/App/Poller/Isolation.antt =====
-- The checks of different servers do not disturb each other, in whatever order their steps come.
use gopanel.Common.{
  ◌≡◌, inl, inr, refl, sym, ap, subst, ◌∙◌, false, not, ◌&&◌, Bool-cases, List, [], ◌∷◌, Option,
  none, some, Bytes, eqb, eqb_iff, if◌then◌else◌,
}
use gopanel.Common.Assoc.{lookup, lookup-insert_self, lookup-insert_other}
use gopanel.Diagnostic.Record.{build_record, record_input}
use gopanel.Container.Status.{Status, get_status, mark_checking, mark_connected, mark_unavailable}
use gopanel.App.Poller.{
  CheckResult, cancelled, answers, fails, Phase, queued, looked, marked, recorded, finished,
  stopped, Shared, is_unavailable, Poll, record_docker_status_failure, settle, step, advance,
  advance_job, run_steps,
}

-- The status that the cache holds for a server.
abbrev pub status_of : Bytes → Shared → Option Status
status_of id s = lookup id s.cache.statuses

-- The steps of one job.
unfoldable pub only : Bytes → List (Bytes × CheckResult) → List (Bytes × CheckResult)
only id [] = []
only id ((other, found) ∷ steps) =
    let rest = only id steps in if eqb other id then (other, found) ∷ rest else rest

module _ (sanitize_detail : Bytes → Bytes) where
  settle-other :
      (id other : Bytes) (previous : Status) (found : CheckResult) (s : Shared)
      → eqb id other ≡ false
      → status_of other (settle sanitize_detail id previous found s).1 ≡ status_of other s
  unfolding settle mark_connected mark_unavailable record_docker_status_failure
  settle-other id other previous cancelled s differ = refl
  settle-other id other previous (answers now) s differ =
      lookup-insert_other id other _ s.cache.statuses differ
  settle-other id other previous (fails now detail reference at) s differ =
      elim (Bool-cases (is_unavailable previous.state && not (eqb previous.error_reference []))) [
        | inl reuse ↦ rw reuse (lookup-insert_other id other _ s.cache.statuses differ)
        | inr fresh ↦ rw fresh refl
      ]

  step-other :
      (id other : Bytes) (found : CheckResult) (phase : Phase) (s : Shared)
      → eqb id other ≡ false
      → status_of other (step sanitize_detail id found phase s).1 ≡ status_of other s
  unfolding step mark_checking mark_unavailable
  step-other id other found queued s differ = refl
  step-other id other found (looked previous) s differ =
      lookup-insert_other id other _ s.cache.statuses differ
  step-other id other found (marked previous) s differ =
      settle-other id other previous found s differ
  step-other id other found (recorded now reference) s differ =
      lookup-insert_other id other _ s.cache.statuses differ
  step-other id other found finished s differ = refl
  step-other id other found stopped s differ = refl

  settle-same :
      (id : Bytes) (previous : Status) (found : CheckResult) (s t : Shared)
      → status_of id s ≡ status_of id t
      → ((settle sanitize_detail id previous found s).0
          ≡ (settle sanitize_detail id previous found t).0)
        × (status_of id (settle sanitize_detail id previous found s).1
            ≡ status_of id (settle sanitize_detail id previous found t).1)
  unfolding settle mark_connected mark_unavailable record_docker_status_failure record_input
      build_record
  settle-same id previous cancelled s t same = (refl, same)
  settle-same id previous (answers now) s t same = (
    refl,
    rw (lookup-insert_self id _ s.cache.statuses, lookup-insert_self id _ t.cache.statuses) refl,
  )
  settle-same id previous (fails now detail reference at) s t same =
      elim (Bool-cases (is_unavailable previous.state && not (eqb previous.error_reference []))) [
        | inl reuse ↦ rw reuse (
          refl,
          rw (lookup-insert_self id _ s.cache.statuses, lookup-insert_self id _ t.cache.statuses)
              refl,
        )
        | inr fresh ↦ rw fresh (refl, same)
      ]

  step-same :
      (id : Bytes) (found : CheckResult) (phase : Phase) (s t : Shared)
      → status_of id s ≡ status_of id t
      → ((step sanitize_detail id found phase s).0 ≡ (step sanitize_detail id found phase t).0)
        × (status_of id (step sanitize_detail id found phase s).1
            ≡ status_of id (step sanitize_detail id found phase t).1)
  unfolding step get_status mark_checking mark_unavailable
  step-same id found queued s t same = (rw same refl, same)
  step-same id found (looked previous) s t same = (
    refl,
    rw (lookup-insert_self id _ s.cache.statuses, lookup-insert_self id _ t.cache.statuses) refl,
  )
  step-same id found (marked previous) s t same = settle-same id previous found s t same
  step-same id found (recorded now reference) s t same = (
    refl,
    rw (lookup-insert_self id _ s.cache.statuses, lookup-insert_self id _ t.cache.statuses) refl,
  )
  step-same id found finished s t same = (refl, same)
  step-same id found stopped s t same = (refl, same)

  -- Two polls that agree on one server: on its status and on its job.
  pub record Agree (id : Bytes) (p q : Poll sanitize_detail) : Type 0 where
    pub status : status_of id p.shared ≡ status_of id q.shared
    pub job : lookup id p.jobs ≡ lookup id q.jobs

  advance_job-other :
      (id other : Bytes) (found : CheckResult) (p q : Poll sanitize_detail) (o : Option Phase)
      → eqb other id ≡ false
      → Agree id p q
      → Agree id (advance_job sanitize_detail other found p o) q
  advance_job-other id other found p q none differ h = h
  advance_job-other id other found p q (some phase) differ h = record {
    status = step-other other id found phase p.shared differ ∙ h.status;
    job = lookup-insert_other other id _ p.jobs differ ∙ h.job;
  }

  advance_job-same :
      (id : Bytes) (found : CheckResult) (p q : Poll sanitize_detail) (o : Option Phase)
      → Agree id p q
      → Agree id
          (advance_job sanitize_detail id found p o)
          (advance_job sanitize_detail id found q o)
  advance_job-same id found p q none h = h
  advance_job-same id found p q (some phase) h =
      let (phases, statuses) = step-same id found phase p.shared q.shared h.status in
      record {
        status = statuses;
        job =
            lookup-insert_self id _ p.jobs ∙ ap some phases ∙ sym (lookup-insert_self id _ q.jobs);
      }

  advance-same :
      (id : Bytes) (found : CheckResult) (p q : Poll sanitize_detail)
      → Agree id p q
      → Agree id (advance sanitize_detail id found p) (advance sanitize_detail id found q)
  unfolding advance
  advance-same id found p q h =
      subst
        (λ o.
          Agree id (advance sanitize_detail id found p) (advance_job sanitize_detail id found q o))
        h.job (advance_job-same id found p q _ h)

  run_steps-Agree :
      (id : Bytes) (steps : List (Bytes × CheckResult)) (p q : Poll sanitize_detail)
      → Agree id p q
      → Agree id (run_steps sanitize_detail steps p) (run_steps sanitize_detail (only id steps) q)
  unfolding run_steps only
  run_steps-Agree id [] p q h = h
  run_steps-Agree id ((other, found) ∷ steps) p q h = elim (Bool-cases (eqb other id)) [
    | inl own ↦
        let same : other ≡ id = (eqb_iff other id).0 own in
        rw own (rw same (run_steps-Agree id steps _ _ (advance-same id found p q h)))
    | inr differ ↦ rw differ (
        run_steps-Agree id steps _ q
          (unfold advance in advance_job-other id other found p q _ differ h))
  ]

  -- In whatever order the steps of the workers come, the status of a server and how far its check
  -- has come are what the steps of its own check alone would make of them.
  pub run_steps-only :
      (id : Bytes) (steps : List (Bytes × CheckResult)) (poll : Poll sanitize_detail)
      → Agree id
          (run_steps sanitize_detail steps poll)
          (run_steps sanitize_detail (only id steps) poll)
  run_steps-only id steps poll =
      run_steps-Agree id steps poll poll (record { status = refl; job = refl })
