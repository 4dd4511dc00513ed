-- ===== src/App/Poller/Outage.antt =====
-- Polls that find the same server out of reach again and again.
use gopanel.Common.{
  ℕ, ◌≡◌, ◌≢◌, refl, ap, ◌∙◌, Bool, true, false, not, ◌&&◌, List, [], ◌∷◌, some, Bytes, codes, eqb,
  eqb_iff, arith,
}
use gopanel.Common.Assoc.{lookup-insert_self}
use gopanel.Diagnostic.Record.{build_record, record_input}
use gopanel.Container.Status.{
  Status, unavailable, StatusCache, get_status, mark_checking, mark_unavailable,
}
use gopanel.App.Poller.{
  CheckResult, fails, Phase, recorded, finished, step, Shared, is_unavailable,
  record_docker_status_failure, settle, check_docker_status,
}
use gopanel.App.Poller.Isolation.{status_of}

-- A check that fails.
pub record Failure : Type 0 where
  pub now : ℕ
  pub detail : Bytes
  pub new_reference : Bytes
  pub recorded_at : ℕ

abbrev pub failing : Failure → CheckResult
failing f = fails f.now f.detail f.new_reference f.recorded_at

-- The status is unavailable, under a reference.
pub record Down (id reference : Bytes) (s : Shared) : Type 0 where
  pub status : Status
  pub stored : status_of id s ≡ some status
  pub down : status.state ≡ unavailable
  pub under : status.error_reference ≡ reference

-- The check of the server finds a reference that it goes on with.
abbrev pub known_outage : Bytes → Shared → Bool
known_outage id s =
    let previous = get_status s.cache id in
    is_unavailable previous.state && not (eqb previous.error_reference [])

module _ (sanitize_detail : Bytes → Bytes) (id : Bytes) where
  -- Checks that fail, one after the other.
  unfoldable pub check_failing : List Failure → Shared → Shared
  check_failing [] s = s
  check_failing (f ∷ fs) s = check_failing fs (check_docker_status sanitize_detail id (failing f) s)

  -- The log after the record of a failure.
  abbrev pub recorded_once : Failure → Shared → Shared
  recorded_once f s =
      (record_docker_status_failure sanitize_detail s id (codes "check_docker_status") f.detail
        f.new_reference f.recorded_at).0

  module _ (f : Failure) (s : Shared) where
    -- The shared state while the check of the server runs.
    abbrev checking_state : Shared
    checking_state = record s { cache = mark_checking s.cache id }

    after_settle :
        (r : Phase × Shared)
        → settle sanitize_detail id (get_status s.cache id) (failing f) checking_state ≡ r
        → check_docker_status sanitize_detail id (failing f) s
          ≡ (step sanitize_detail id (failing f) r.0 r.1).1
    unfolding check_docker_status step
    after_settle r e = ap (λ q. (step sanitize_detail id (failing f) q.0 q.1).1) e

    check-reuses :
        known_outage id s ≡ true
        → check_docker_status sanitize_detail id (failing f) s ≡ record s {
          cache =
              mark_unavailable
                (mark_checking s.cache id)
                id
                f.now
                (get_status s.cache id).error_reference;
        }
    unfolding step settle
    check-reuses test =
        after_settle
          (
            finished,
            record s {
              cache =
                  mark_unavailable (mark_checking s.cache id) id f.now
                    (get_status s.cache id).error_reference;
            },
          )
          (rw test refl)

    check-reports :
        known_outage id s ≡ false
        → check_docker_status sanitize_detail id (failing f) s ≡ record (recorded_once f s) {
          cache = mark_unavailable (mark_checking s.cache id) id f.now f.new_reference;
        }
    unfolding step settle record_docker_status_failure record_input build_record
    check-reports test =
        after_settle
          (
            recorded f.now f.new_reference,
            record (recorded_once f s) { cache = mark_checking s.cache id },
          )
          (rw test refl)

  from_mark :
      (cache : StatusCache) (now : ℕ) (reference : Bytes) (s t : Shared)
      → t ≡ record s { cache = mark_unavailable cache id now reference }
      → Down id reference t
  unfolding mark_unavailable
  from_mark cache now reference s t e = record {
    status = record {
      server_id = id;
      state = unavailable;
      checked_at = some now;
      error_reference = reference;
    };
    stored = ap (status_of id) e ∙ lookup-insert_self id _ cache.statuses;
    down = refl;
    under = refl;
  }

  check-keeps :
      (f : Failure) (reference : Bytes) (s : Shared)
      → reference ≢ []
      → Down id reference s
      → ((check_docker_status sanitize_detail id (failing f) s).recorder ≡ s.recorder)
        × Down id reference (check_docker_status sanitize_detail id (failing f) s)
  unfolding get_status
  check-keeps f reference s given h =
      let test : known_outage id s ≡ true =
        rw (h.stored, h.down, h.under) (ground (arith, given, eqb_iff reference [])) in
      let e = check-reuses f s test in
      let same : (get_status s.cache id).error_reference ≡ reference = rw h.stored h.under in
      (
        ap (λ t. t.recorder) e,
        from_mark (mark_checking s.cache id) f.now reference s _ (rw same at e),
      )

  check-records :
      (f : Failure) (s : Shared)
      → known_outage id s ≡ false
      → ((check_docker_status sanitize_detail id (failing f) s).recorder
          ≡ (recorded_once f s).recorder)
        × Down id f.new_reference (check_docker_status sanitize_detail id (failing f) s)
  check-records f s test =
      let e = check-reports f s test in
      (
        ap (λ t. t.recorder) e,
        from_mark (mark_checking s.cache id) f.now f.new_reference (recorded_once f s) _ e,
      )

  check_failing-keeps :
      (fs : List Failure) (reference : Bytes) (s : Shared)
      → reference ≢ []
      → Down id reference s
      → ((check_failing fs s).recorder ≡ s.recorder) × Down id reference (check_failing fs s)
  unfolding check_failing
  check_failing-keeps [] reference s given h = (refl, h)
  check_failing-keeps (f ∷ fs) reference s given h =
      let (same, next) = check-keeps f reference s given h in
      let (rest, last) = check_failing-keeps fs reference _ given next in (rest ∙ same, last)

  -- An outage of any length leaves one record in the log of diagnostics, that of the first check
  -- that fails, and the server is shown unavailable under its reference, which is not empty, to the
  -- last check.
  pub check_failing-Down :
      (f : Failure) (fs : List Failure) (s : Shared)
      → f.new_reference ≢ []
      → known_outage id s ≡ false
      → ((check_failing (f ∷ fs) s).recorder ≡ (recorded_once f s).recorder)
        × Down id f.new_reference (check_failing (f ∷ fs) s)
  unfolding check_failing
  check_failing-Down f fs s given test =
      let (once, down) = check-records f s test in
      let (rest, last) = check_failing-keeps fs f.new_reference _ given down in (rest ∙ once, last)
