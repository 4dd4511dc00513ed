-- ===== src/App/Examples.antt =====
-- The theorems on the checks of Docker servers at concrete inputs.
use gopanel.Common.{
  length, ◌≤◌, ◌+◌, ◌*◌, ◌++◌, ◌⊎◌, some, eqb, [], ◌∷◌, ◌≡◌, ◌≢◌, refl, List, Bytes, codes,
  trim_space, true, false, arith,
}
use gopanel.Common.Assoc.{lookup}
use gopanel.Diagnostic.Record.{new_recorder}
use gopanel.Container.Status.{new_status_cache, get_status}
use gopanel.App.Poller.HandOut.{
  Pool, start_pool, Move, hand_out, finish, end_context, cancel, remove_first, move, run_moves,
}
use gopanel.App.Poller.HandOut.Ends.{run_moves-ends}
use gopanel.App.Poller.{CheckResult, answers, queued, Shared, Poll, run_steps}
use gopanel.App.Poller.Isolation.{only, Agree, run_steps-only}
use gopanel.App.Poller.Outage.{
  Failure, failing, Down, known_outage, check_failing, recorded_once, check_failing-Down,
}

abbrev start : Shared
start = record { cache = new_status_cache; recorder = new_recorder }

abbrev poll : Poll trim_space
poll = record { shared = start; jobs = (codes "s1", queued) ∷ (codes "s2", queued) ∷ [] }

abbrev first_failure : Failure
first_failure = record {
  now = 10;
  detail = codes "connection refused";
  new_reference = codes "err_1";
  recorded_at = 11;
}

abbrev second_failure : Failure
second_failure = record first_failure { now = 40; new_reference = codes "err_2"; recorded_at = 41 }

-- Steps of both checks in turn.
abbrev turns : List (Bytes × CheckResult)
turns =
    (codes "s1", answers 9)
    ∷ (codes "s2", failing first_failure)
    ∷ (codes "s2", failing first_failure)
    ∷ (codes "s1", answers 9)
    ∷ (codes "s1", answers 9)
    ∷ []

run_steps-only_example :
    Agree trim_space
      (codes "s1")
      (run_steps trim_space turns poll)
      (run_steps trim_space (only (codes "s1") turns) poll)
run_steps-only_example = run_steps-only trim_space (codes "s1") turns poll

not_known : known_outage (codes "s1") start ≡ false
unfolding get_status new_status_cache lookup
not_known = refl

reference_given : first_failure.new_reference ≢ []
reference_given = λ e. absurd (ground arith)

check_failing-Down_example :
    ((check_failing trim_space (codes "s1") (first_failure ∷ second_failure ∷ []) start).recorder
      ≡ (recorded_once trim_space (codes "s1") first_failure start).recorder)
    × Down
        (codes "s1")
        (codes "err_1")
        (check_failing trim_space (codes "s1") (first_failure ∷ second_failure ∷ []) start)
check_failing-Down_example =
    check_failing-Down trim_space (codes "s1") first_failure (second_failure ∷ []) start
      reference_given not_known

abbrev servers : List Bytes
servers = codes "s1" ∷ codes "s2" ∷ codes "s3" ∷ []

-- Two of the servers are handed out to two workers, one check ends, and the context ends.
abbrev moves : List Move
moves = hand_out ∷ hand_out ∷ finish (codes "s1") ∷ end_context ∷ cancel ∷ []

abbrev cut_pool : Pool
cut_pool = record {
  pending = [];
  handed = codes "s1" ∷ codes "s2" ∷ [];
  dropped = codes "s3" ∷ [];
  working = codes "s2" ∷ [];
  idle = 1;
  ended = true;
}

moves_made : run_moves moves (start_pool 2 servers) ≡ some cut_pool
unfolding run_moves move start_pool remove_first eqb
moves_made = refl

run_moves-ends_example :
    (length moves ≤ 2 * length servers + 1)
    × (length cut_pool.working ≤ 2)
    × (cut_pool.handed ++ (cut_pool.pending ++ cut_pool.dropped) ≡ servers)
    × ((cut_pool.dropped ≡ []) ⊎ (cut_pool.ended ≡ true))
    × (((cut_pool.pending ≡ []) × (cut_pool.working ≡ []))
        ⊎ ((id : Bytes) × (p' : Pool) × (move (finish id) cut_pool ≡ some p'))
        ⊎ ((p' : Pool) × (move hand_out cut_pool ≡ some p')))
run_moves-ends_example = run_moves-ends 2 servers moves cut_pool (omega arith) moves_made
