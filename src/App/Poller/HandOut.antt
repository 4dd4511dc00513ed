-- ===== src/App/Poller/HandOut.antt =====
-- internal/app/app.go, `pollDockerStatuses`: how the servers are handed out to the workers.
pub mod Ends
use gopanel.Common.{
  ℕ, zero, suc, Bool, true, false, List, [], ◌∷◌, ◌++◌, Option, none, some, Bytes, codes, eqb,
  length, ltb, if◌then◌else◌,
}
use gopanel.App.Poller.{Shared, record_docker_status_failure}

-- The servers that are not handed out yet, those that are, those that the end of the context has cut
-- off, those that a worker has, the number of workers that wait for one, and whether the context has
-- ended.
pub record Pool : Type 0 where
  pub pending : List Bytes
  pub handed : List Bytes
  pub dropped : List Bytes
  pub working : List Bytes
  pub idle : ℕ
  pub ended : Bool

-- min
abbrev pub worker_count : (concurrency count : ℕ) → ℕ
worker_count concurrency count = if ltb count concurrency then count else concurrency

unfoldable pub start_pool : (concurrency : ℕ) → List Bytes → Pool
start_pool concurrency server_ids = record {
  pending = server_ids;
  handed = [];
  dropped = [];
  working = [];
  idle = worker_count concurrency (length server_ids);
  ended = false;
}

-- A job goes to a worker that waits, a worker ends its check, the context ends, or the loop sees that
-- it has ended.
pub data Move : Type 0 where
  hand_out : Move
  finish : (server_id : Bytes) → Move
  end_context : Move
  cancel : Move

abbrev cons_option : Bytes → Option (List Bytes) → Option (List Bytes)
cons_option id none = none
cons_option id (some ids) = some (id ∷ ids)

unfoldable pub remove_first : Bytes → List Bytes → Option (List Bytes)
remove_first id [] = none
remove_first id (other ∷ ids) =
    let rest = cons_option other (remove_first id ids) in if eqb other id then some ids else rest

abbrev pub handed_out : (pending : List Bytes) (idle : ℕ) → Pool → Option Pool
handed_out [] idle p = none
handed_out (id ∷ pending) zero p = none
handed_out (id ∷ pending) (suc idle) p = some (record {
  pending = pending;
  handed = p.handed ++ id ∷ [];
  dropped = p.dropped;
  working = id ∷ p.working;
  idle = idle;
  ended = p.ended;
})

abbrev pub finished : Option (List Bytes) → Pool → Option Pool
finished none p = none
finished (some working) p = some (record p { working = working; idle = suc p.idle })

-- The context ends once.
abbrev pub context_ended : (ended : Bool) → Pool → Option Pool
context_ended true p = none
context_ended false p = some (record p { ended = true })

-- Where the context has ended and a server is left, the jobs are closed.
abbrev pub cut_off : (ended : Bool) (pending : List Bytes) → Pool → Option Pool
cut_off false pending p = none
cut_off true [] p = none
cut_off true (id ∷ pending) p = some (record p { pending = []; dropped = id ∷ pending })

-- `none` is a move that cannot be made.
unfoldable pub move : Move → Pool → Option Pool
unfolding remove_first
move hand_out p = handed_out p.pending p.idle p
move (finish id) p = finished (remove_first id p.working) p
move end_context p = context_ended p.ended p
move cancel p = cut_off p.ended p.pending p

abbrev pub moved : (Pool → Option Pool) → Option Pool → Option Pool
moved next none = none
moved next (some p) = next p

unfoldable pub run_moves : List Move → Pool → Option Pool
unfolding move
run_moves [] p = some p
run_moves (m ∷ moves) p = moved (run_moves moves) (move m p)

module _ (sanitize_detail : Bytes → Bytes) where
  -- What a poll begins with: the record of a failing list, or the pool.
  unfoldable pub poll_docker_statuses :
      (concurrency : ℕ)
      → Option (List Bytes)
      → (detail new_reference : Bytes) (recorded_at : ℕ) → Shared
      → Shared × Pool
  unfolding start_pool
  poll_docker_statuses concurrency none detail new_reference recorded_at s = (
    (record_docker_status_failure sanitize_detail s [] (codes "list_docker_servers") detail
        new_reference recorded_at).0,
    start_pool concurrency [],
  )
  poll_docker_statuses concurrency (some server_ids) detail new_reference recorded_at s =
      (s, start_pool concurrency server_ids)
