-- ===== src/App/Poller/HandOut/Ends.antt =====
-- How a poll of internal/app/app.go ends, and how many of its checks run at a time.
use gopanel.Common.{
  ℕ, zero, suc, ◌+◌, ◌*◌, ◌≤◌, ◌≡◌, ◌⊎◌, inl, inr, refl, Bool, true, false, sym, ap, ◌∙◌, List, [],
  ◌∷◌, ◌++◌, append_assoc, append-nil, Option, none, some, Bytes, eqb, eqb_self, arith, length,
  length-append, Bool-cases, Option-cases,
}
use gopanel.App.Poller.HandOut.{
  Pool, worker_count, start_pool, Move, hand_out, finish, cancel, cons_option, remove_first,
  end_context, handed_out, finished, context_ended, cut_off, move, run_moves,
}

-- The context ends once at most.
abbrev to_end : (ended : Bool) → ℕ
to_end true = 0
to_end false = 1

-- The moves that are left at most.
abbrev measure : Pool → ℕ
measure p = 2 * length p.pending + length p.working + to_end p.ended

-- The workers are the same throughout, and every server is handed out once, in order, or cut off where
-- the context has ended.
record Sound (workers : ℕ) (server_ids : List Bytes) (p : Pool) : Type 0 where
  all_workers : length p.working + p.idle ≡ workers
  in_order : p.handed ++ (p.pending ++ p.dropped) ≡ server_ids
  cut_at_end : (p.pending ≡ []) ⊎ (p.dropped ≡ [])
  cut_by_end : (p.dropped ≡ []) ⊎ (p.ended ≡ true)

length-cons_option :
    (id : Bytes) (found : Option (List Bytes)) (ids rest : List Bytes) (n : ℕ)
    → cons_option id found ≡ some rest
    → ((ys : List Bytes) → found ≡ some ys → suc (length ys) ≡ n)
    → length rest ≡ n
length-cons_option id none ids rest n h k = absurd (ground (arith, h))
length-cons_option id (some ys) ids rest n h k =
    let same : id ∷ ys ≡ rest = ground (arith, h) in let count = k ys refl in rw (← same) count

length-remove_first :
    (id : Bytes) (ids rest : List Bytes)
    → remove_first id ids ≡ some rest
    → suc (length rest) ≡ length ids
unfolding remove_first
length-remove_first id [] rest h = absurd (ground (arith, h))
length-remove_first id (other ∷ ids) rest h = elim (Bool-cases (eqb other id)) [
  | inl hit ↦ let same : ids ≡ rest = ground (arith, h, hit) in rw (← same) refl
  | inr miss ↦ ap suc (
      length-cons_option other (remove_first id ids) ids rest (length ids) (ground (arith, h, miss))
        (length-remove_first id ids))
]

remove_first_head : (id : Bytes) (ids : List Bytes) → remove_first id (id ∷ ids) ≡ some ids
unfolding remove_first
remove_first_head id ids = rw (eqb_self id) refl

module _ (workers : ℕ) (server_ids : List Bytes) where
  -- A move keeps the pool sound and leaves fewer moves.
  abbrev Next : Pool → Pool → Type 0
  Next p p' = Sound workers server_ids p' × (suc (measure p') ≤ measure p)

  some-Next : (p next p' : Pool) → Next p next → some next ≡ some p' → Next p p'
  some-Next p next p' h e = let same : next ≡ p' = ground (arith, e) in rw (← same) h

  nothing_dropped :
      (p : Pool) (id : Bytes) (pending : List Bytes)
      → Sound workers server_ids p
      → p.pending ≡ id ∷ pending
      → p.dropped ≡ []
  nothing_dropped p id pending s e = elim s.cut_at_end [
    | inl none_left ↦ absurd (ground (arith, none_left, e))
    | inr none_dropped ↦ none_dropped
  ]

  whole :
      (p : Pool) (id : Bytes) (pending : List Bytes)
      → Sound workers server_ids p
      → p.pending ≡ id ∷ pending
      → id ∷ pending ≡ p.pending ++ p.dropped
  whole p id pending s e =
      rw (e, nothing_dropped p id pending s e) (sym (append-nil (id ∷ pending)))

  hand_out-Next :
      (p p' : Pool) (pending : List Bytes) (idle : ℕ)
      → Sound workers server_ids p
      → p.pending ≡ pending
      → p.idle ≡ idle
      → handed_out pending idle p ≡ some p'
      → Next p p'
  hand_out-Next p p' [] idle s e f h = absurd (ground (arith, h))
  hand_out-Next p p' (id ∷ pending) zero s e f h = absurd (ground (arith, h))
  hand_out-Next p p' (id ∷ pending) (suc idle) s e f h =
      some-Next p _ p'
        (
          record {
            all_workers = omega (arith, s.all_workers, f);
            in_order =
                append_assoc p.handed (id ∷ []) (pending ++ p.dropped)
                ∙ ap (λ xs. p.handed ++ (xs ++ p.dropped)) (sym e)
                ∙ s.in_order;
            cut_at_end = inr (nothing_dropped p id pending s e);
            cut_by_end = s.cut_by_end;
          },
          omega (arith, ap length e),
        )
        h

  finish-Next :
      (p p' : Pool) (id : Bytes) (rest : Option (List Bytes))
      → Sound workers server_ids p
      → remove_first id p.working ≡ rest
      → finished rest p ≡ some p'
      → Next p p'
  finish-Next p p' id none s e h = absurd (ground (arith, h))
  finish-Next p p' id (some working) s e h =
      let count = length-remove_first id p.working working e in
      some-Next p _ p'
        (
          record {
            all_workers = omega (arith, s.all_workers, count);
            in_order = s.in_order;
            cut_at_end = s.cut_at_end;
            cut_by_end = s.cut_by_end;
          },
          omega (arith, count),
        )
        h

  end_context-Next :
      (p p' : Pool) (ended : Bool)
      → Sound workers server_ids p
      → p.ended ≡ ended
      → context_ended ended p ≡ some p'
      → Next p p'
  end_context-Next p p' true s e h = absurd (ground (arith, h))
  end_context-Next p p' false s e h =
      some-Next p _ p'
        (
          record {
            all_workers = s.all_workers;
            in_order = s.in_order;
            cut_at_end = s.cut_at_end;
            cut_by_end = inr refl;
          },
          omega (arith, ap to_end e),
        )
        h

  cancel-Next :
      (p p' : Pool) (ended : Bool) (pending : List Bytes)
      → Sound workers server_ids p
      → p.ended ≡ ended
      → p.pending ≡ pending
      → cut_off ended pending p ≡ some p'
      → Next p p'
  cancel-Next p p' false pending s f e h = absurd (ground (arith, h))
  cancel-Next p p' true [] s f e h = absurd (ground (arith, h))
  cancel-Next p p' true (id ∷ pending) s f e h =
      some-Next p _ p'
        (
          record {
            all_workers = s.all_workers;
            in_order = ap (λ xs. p.handed ++ xs) (whole p id pending s e) ∙ s.in_order;
            cut_at_end = inl refl;
            cut_by_end = inr f;
          },
          omega (arith, ap length e),
        )
        h

  move-Next : (m : Move) (p p' : Pool) → Sound workers server_ids p → move m p ≡ some p' → Next p p'
  unfolding move
  move-Next hand_out p p' s h = hand_out-Next p p' p.pending p.idle s refl refl h
  move-Next (finish id) p p' s h = finish-Next p p' id (remove_first id p.working) s refl h
  move-Next end_context p p' s h = end_context-Next p p' p.ended s refl h
  move-Next cancel p p' s h = cancel-Next p p' p.ended p.pending s refl refl h

  run_moves-Sound :
      (moves : List Move) (p p' : Pool)
      → Sound workers server_ids p
      → run_moves moves p ≡ some p'
      → Sound workers server_ids p' × (length moves + measure p' ≤ measure p)
  unfolding run_moves
  run_moves-Sound [] p p' s h =
      let same : p ≡ p' = ground (arith, h) in rw (← same) (s, omega arith)
  run_moves-Sound (m ∷ moves) p p' s h = elim (Option-cases (move m p)) [
    | inl stuck ↦ absurd (ground (arith, h, stuck))
    | inr (q, made) ↦
        let (sq, less) = move-Next m p q s made in
        let (sp, rest) = run_moves-Sound moves q p' sq (rw made at h) in (sp, omega arith)
  ]

  -- Unless all is done, a check can end or a server can be handed out.
  advances :
      (p : Pool) (pending working : List Bytes) (idle : ℕ)
      → p.pending ≡ pending
      → p.working ≡ working
      → p.idle ≡ idle
      → (1 ≤ length pending → 1 ≤ length working + idle)
      → ((pending ≡ []) × (working ≡ []))
        ⊎ ((id : Bytes) × (p' : Pool) × (move (finish id) p ≡ some p'))
        ⊎ ((p' : Pool) × (move hand_out p ≡ some p'))
  unfolding move
  advances p pending (id ∷ working) idle e f g some_worker = inr (
      inl (
        id,
        record p { working = working; idle = suc p.idle },
        rw (f, remove_first_head id working) refl,
      ))
  advances p [] [] idle e f g some_worker = inl (refl, refl)
  advances p (id ∷ pending) [] zero e f g some_worker =
      let least = some_worker (omega arith) in absurd (omega arith)
  advances p (id ∷ pending) [] (suc idle) e f g some_worker = inr (
      inr (
        record {
          pending = pending;
          handed = p.handed ++ id ∷ [];
          dropped = p.dropped;
          working = id ∷ p.working;
          idle = idle;
          ended = p.ended;
        },
        rw (e, g) refl,
      ))

enough : (concurrency count : ℕ) → 1 ≤ concurrency → 1 ≤ count → 1 ≤ worker_count concurrency count
enough concurrency count p q = ground arith

-- A poll takes at most two moves for each server and one for the end of the context, and no more
-- checks than the concurrency, which is not 0, run at a time. Every server is handed out once and in
-- order, or is cut off, and that only where the context has ended. Until no server is left and no check
-- runs, a worker can end its check or a waiting worker can take the next server.
pub run_moves-ends :
    (concurrency : ℕ) (server_ids : List Bytes) (moves : List Move) (p : Pool)
    → 1 ≤ concurrency
    → run_moves moves (start_pool concurrency server_ids) ≡ some p
    → (length moves ≤ 2 * length server_ids + 1)
      × (length p.working ≤ concurrency)
      × (p.handed ++ (p.pending ++ p.dropped) ≡ server_ids)
      × ((p.dropped ≡ []) ⊎ (p.ended ≡ true))
      × (((p.pending ≡ []) × (p.working ≡ []))
          ⊎ ((id : Bytes) × (p' : Pool) × (move (finish id) p ≡ some p'))
          ⊎ ((p' : Pool) × (move hand_out p ≡ some p')))
unfolding start_pool
run_moves-ends concurrency server_ids moves p least h =
    let workers = worker_count concurrency (length server_ids) in
    let (s, fewer) =
      run_moves-Sound workers server_ids moves (start_pool concurrency server_ids) p
        (record {
          all_workers = omega arith;
          in_order = append-nil server_ids;
          cut_at_end = inr refl;
          cut_by_end = inl refl;
        })
        h in
    let most : workers ≤ concurrency = ground arith in
    (
      omega arith,
      omega (arith, s.all_workers, most),
      s.in_order,
      s.cut_by_end,
      advances workers server_ids p p.pending p.working p.idle refl refl refl (λ some_left.
          let count : 1 ≤ length server_ids = omega (
            arith,
            length-append p.handed (p.pending ++ p.dropped),
            length-append p.pending p.dropped,
            ap length s.in_order,
            some_left,
          ) in
          let busy : 1 ≤ workers = enough concurrency (length server_ids) least count in
          omega (arith, busy, s.all_workers)),
    )
