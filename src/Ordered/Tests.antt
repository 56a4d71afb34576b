-- ===== src/Ordered/Tests.antt =====
-- A run of one worker over one item, and the theorems at it.
use Prim.Native.Nat.{◌≤◌, ◌<◌}
use greeg.Base.{
  All, take, ◌++◌, ◌⊎◌, ◌+◌, ℕ, suc, ◌≡◌, refl, Bool, true, false, Option, none, some, List, [],
  ◌∷◌,
}
use greeg.Ordered.{
  Outcome, Ending, flatten, insert, lead, work_all, Shared, Worker, Writer, System, Work, Write,
  Step, Reach, start, replicate,
}
use greeg.Ordered.Invariant.{Produces}
use greeg.Ordered.InOrder.{run_complete, run_in_order}
use greeg.Ordered.Bounded.{run_bounded}
use greeg.Ordered.Progress.{run_progress}

-- The worker counts its items.
abbrev next : ℕ → ℕ → Option (Option ℕ × ℕ)
next s t = some (some t, suc s)

abbrev Fields : Type 0
Fields = Shared ℕ ℕ ℕ next

abbrev at : List ℕ → ℕ → ℕ → ℕ → (ℕ → Option (Outcome ℕ)) → Option ℕ → Bool → List ℕ → Fields
at rest given claimed emitted done total stop sent = record {
  rest = rest;
  given = given;
  claimed = claimed;
  emitted = emitted;
  done = done;
  total = total;
  stop = stop;
  stopped = false;
  sent = sent;
}

abbrev state : Fields → Worker ℕ ℕ ℕ next → Writer ℕ ℕ ℕ next → System ℕ ℕ ℕ next
state x w u = record { shared = x; workers = w ∷ []; writer = u }

lead-few : lead 1 4 ≡ 5
unfolding lead
lead-few = refl

lead-window : lead 1000 4 ≡ 32
unfolding lead
lead-window = refl

abbrev absent : ℕ → Option (Outcome ℕ)
absent i = none

abbrev first_done : ℕ → Option (Outcome ℕ)
first_done = insert 0 (some (Outcome.worked (some 7 ∷ []))) absent

abbrev first_taken : ℕ → Option (Outcome ℕ)
first_taken = insert 0 none first_done

abbrev final : System ℕ ℕ ℕ next
final =
    state (at [] 1 2 1 first_taken (some 1) true (7 ∷ [])) Worker.over
      (Writer.ended Ending.returned)

by_first :
    {x y : Fields} {w v : Worker ℕ ℕ ℕ next} {u : Writer ℕ ℕ ℕ next}
    → Work ℕ ℕ ℕ next 2 x w y v
    → Step ℕ ℕ ℕ next 2 (state x w u) (state y v u)
by_first m = Step.by_worker [] [] refl m

-- The worker has reported the only chunk.
abbrev reported : System ℕ ℕ ℕ next
reported = state (at [] 1 1 0 first_done none false []) (Worker.idle 1) (Writer.waiting 0)

reported-Reach : Reach ℕ ℕ ℕ next 2 (start ℕ ℕ ℕ next (7 ∷ []) 1 0) reported
unfolding start replicate work_all
reported-Reach =
    Reach.later
      (Reach.later (Reach.later Reach.here (by_first (Work.claim refl refl refl)))
        (by_first (Work.fetch 7 [] refl)))
      (by_first (Work.report (some 7 ∷ []) 1 refl))

final-Reach : Reach ℕ ℕ ℕ next 2 (start ℕ ℕ ℕ next (7 ∷ []) 1 0) final
unfolding flatten insert
final-Reach =
    Reach.later
      (Reach.later
        (Reach.later
          (Reach.later
            (Reach.later
              (Reach.later
                (Reach.later
                  (Reach.later reported-Reach
                    (Step.by_writer (Write.take_chunk (some 7 ∷ []) refl)))
                  (by_first (Work.claim refl refl refl)))
                (by_first (Work.fetch_none refl)))
              (by_first Work.set_total))
            (Step.by_writer Write.emit))
          (Step.by_writer Write.next_chunk))
        (Step.by_writer (Write.end_chunks 1 refl refl refl)))
      (Step.by_writer Write.leave)

run_complete_example :
    (os : List (Option ℕ)) × Produces ℕ ℕ ℕ next (7 ∷ []) os × (final.shared.sent ≡ flatten os)
run_complete_example = run_complete ℕ ℕ ℕ next (7 ∷ []) 2 1 0 final final-Reach refl

run_in_order_example :
    (n : ℕ) × (rs : List ℕ) × (os : List (Option ℕ)) × Produces ℕ ℕ ℕ next (take n (7 ∷ [])) os
    × (final.shared.sent ++ rs ≡ flatten os)
run_in_order_example = run_in_order ℕ ℕ ℕ next (7 ∷ []) 2 1 0 final final-Reach

first_here : first_done 0 ≡ some (Outcome.worked (some 7 ∷ []))
unfolding insert
first_here = refl

run_bounded_example : (0 ≤ 0) × (0 < 0 + 2)
run_bounded_example =
    run_bounded ℕ ℕ ℕ next 2 (7 ∷ []) 1 0 reported 0 0 (Outcome.worked (some 7 ∷ [])) reported-Reach
      refl first_here

run_progress_example :
    (((e : Ending) × (reported.writer ≡ Writer.ended e))
      × All (λ w. w ≡ Worker.over) reported.workers)
    ⊎ ((z : System ℕ ℕ ℕ next) × Step ℕ ℕ ℕ next (lead 10 1) reported z)
unfolding lead
run_progress_example = run_progress ℕ ℕ ℕ next 10 (7 ∷ []) 1 0 reported reported-Reach
