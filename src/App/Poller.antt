-- ===== src/App/Poller.antt =====
-- internal/app/app.go: the checks of Docker servers, which workers run side by side. The shared
-- state is the cache of statuses and the log of diagnostics, and each call of one of their methods
-- is one step of a check.
pub mod HandOut
pub mod Isolation
pub mod Outage
use gopanel.Common.{
  ℕ, Bool, true, false, not, ◌&&◌, List, [], ◌∷◌, Option, none, some, Bytes, codes, eqb,
  if◌then◌else◌,
}
use gopanel.Common.Assoc.{lookup, insert}
use gopanel.Diagnostic.Record.{Input, Recorder, Record, record_input}
use gopanel.Container.Status.{
  Status, StatusState, unavailable, StatusCache, get_status, mark_checking, mark_connected,
  mark_unavailable,
}

-- What a check finds: the context is cancelled, Docker answers, or it does not, with the text of
-- SafeDiagnostic and the new reference of a record.
pub data CheckResult : Type 0 where
  cancelled : CheckResult
  answers : (now : ℕ) → CheckResult
  fails : (now : ℕ) (detail new_reference : Bytes) (recorded_at : ℕ) → CheckResult

-- How far `checkDockerStatus` has come.
pub data Phase : Type 0 where
  queued : Phase
  looked : (previous : Status) → Phase
  marked : (previous : Status) → Phase
  recorded : (now : ℕ) (reference : Bytes) → Phase
  finished : Phase
  stopped : Phase

pub record Shared : Type 0 where
  pub cache : StatusCache
  pub recorder : Recorder

abbrev pub is_unavailable : StatusState → Bool
is_unavailable unavailable = true
is_unavailable _ = false

abbrev pub status_failure : Bytes → Bytes → Bytes → Input
status_failure server_id action detail = record {
  event = action;
  component = codes "docker";
  public_message = codes "Docker status could not be checked.";
  technical_detail = detail;
  user_id = [];
  action = action;
  target = server_id;
  http_status = 503;
  audit_correlation_id = [];
}

module _ (sanitize_detail : Bytes → Bytes) where
  -- `recordDockerStatusFailure`, with the reference of the record.
  unfoldable pub record_docker_status_failure :
      Shared → (server_id action detail new_reference : Bytes) (recorded_at : ℕ) → Shared × Bytes
  record_docker_status_failure s server_id action detail new_reference recorded_at =
      let (recorder, new) =
        record_input sanitize_detail s.recorder new_reference recorded_at
          (status_failure server_id action detail) in
      (record s { recorder = recorder }, new.id)

  -- `checkDockerStatus` behind CheckStatus.
  unfoldable pub settle : Bytes → Status → CheckResult → Shared → Phase × Shared
  unfolding record_docker_status_failure
  settle server_id previous cancelled s = (stopped, s)
  settle server_id previous (answers now) s =
      (finished, record s { cache = mark_connected s.cache server_id now })
  settle server_id previous (fails now detail new_reference recorded_at) s =
      if is_unavailable previous.state && not (eqb previous.error_reference [])
      then (
        finished,
        record s { cache = mark_unavailable s.cache server_id now previous.error_reference },
      )
      else let (s', reference) =
          record_docker_status_failure s server_id (codes "check_docker_status") detail
            new_reference recorded_at in
        (recorded now reference, s')

  -- The next step of a check.
  unfoldable pub step : Bytes → CheckResult → Phase → Shared → Phase × Shared
  unfolding settle
  step server_id found queued s = (looked (get_status s.cache server_id), s)
  step server_id found (looked previous) s =
      (marked previous, record s { cache = mark_checking s.cache server_id })
  step server_id found (marked previous) s = settle server_id previous found s
  step server_id found (recorded now reference) s =
      (finished, record s { cache = mark_unavailable s.cache server_id now reference })
  step server_id found finished s = (finished, s)
  step server_id found stopped s = (stopped, s)

  -- The shared state after `checkDockerStatus` that nothing else runs beside: four steps at most.
  unfoldable pub check_docker_status : Bytes → CheckResult → Shared → Shared
  unfolding step
  check_docker_status server_id found s =
      let (phase₁, s₁) = step server_id found queued s in
      let (phase₂, s₂) = step server_id found phase₁ s₁ in
      let (phase₃, s₃) = step server_id found phase₂ s₂ in
      let (phase₄, s₄) = step server_id found phase₃ s₃ in s₄

  -- A poll: the check of each server's identifier is one job, and the identifiers are keys.
  pub record Poll : Type 0 where
    pub shared : Shared
    pub jobs : List (Bytes × Phase)

  -- The next step of a job, if there is one.
  abbrev pub advance_job : Bytes → CheckResult → Poll → Option Phase → Poll
  advance_job server_id found poll none = poll
  advance_job server_id found poll (some phase) =
      let r = step server_id found phase poll.shared in
      record { shared = r.1; jobs = insert server_id r.0 poll.jobs }

  -- The job of the identifier takes its next step.
  unfoldable pub advance : Bytes → CheckResult → Poll → Poll
  advance server_id found poll = advance_job server_id found poll (lookup server_id poll.jobs)

  -- Steps of the jobs in any order.
  unfoldable pub run_steps : List (Bytes × CheckResult) → Poll → Poll
  unfolding advance
  run_steps [] poll = poll
  run_steps ((server_id, found) ∷ steps) poll = run_steps steps (advance server_id found poll)
