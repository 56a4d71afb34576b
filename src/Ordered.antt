-- ===== src/Ordered.antt =====
-- crates/greeg-query/src/ordered.rs: `run`, work over a list on several threads. One step is what a
-- thread does under one lock; the workers and the writer take theirs in any order. A worker's chunk
-- is worked on in the step that reports it, since `work` reads nothing that the threads share. What
-- `emit` answers is chosen by the step. A thread that the code blocks on a condition has no step.
pub mod Invariant
pub mod Steps
pub mod InOrder
pub mod Counts
pub mod Lead
pub mod Bounded
pub mod Ready
pub mod Joined
pub mod Progress
mod Tests
use Prim.Native.Nat.{◌/◌, max}
use greeg.Base.{
  ℕ, zero, suc, ◌+◌, ◌≡◌, Bool, true, false, Option, none, some, List, [], ◌∷◌, ◌++◌, length, take,
  drop, ltb, leb, ◌==◌, ◌||◌, if◌then◌else◌,
}

abbrev pub chunk : ℕ
chunk = 32

-- `window.div_ceil(CHUNK).max(threads + 1)`, of the number of workers.
unfoldable pub lead : ℕ → ℕ → ℕ
lead window threads = max ((window + 31) / chunk) (threads + 1)

-- What became of a chunk: its results, or a panic.
pub data Outcome (R : Type 0) : Type 0 where
  worked : List (Option R) → Outcome R
  panicked : Outcome R

-- How `run` ends: `Ok`, the `Err` of `emit`, or a panic resumed.
pub data Ending : Type 0 where
  returned failed resumed : Ending

-- `into_iter().flatten()`
unfoldable pub flatten : {R : Type 0} → List (Option R) → List R
flatten [] = []
flatten (none ∷ os) = flatten os
flatten (some r ∷ os) = r ∷ flatten os

-- `BTreeMap::insert` and `remove`, on the map as a function.
unfoldable pub insert : {R : Type 0} → ℕ → Option R → (ℕ → Option R) → ℕ → Option R
insert c v done i = if i == c then v else done i

module _ (T S R : Type 0) (work : S → T → Option (Option R × S)) where
  -- The map over one chunk; `work` gives `none` when it panics.
  unfoldable pub work_all : S → List T → Option (List (Option R) × S)
  work_all s [] = some ([], s)
  work_all s (t ∷ ts) = elim (work s t) [
    | none ↦ none
    | some (o, s') ↦ elim (work_all s' ts) [ none ↦ none | some (os, s'') ↦ some (o ∷ os, s'') ]
  ]

  -- The items left and the chunks given (`source`), the fields of `State`, the flag `stopped`, and
  -- what `emit` has accepted.
  pub record Shared : Type 0 where
    pub rest : List T
    pub given : ℕ
    pub claimed : ℕ
    pub emitted : ℕ
    pub done : ℕ → Option (Outcome R)
    pub total : Option ℕ
    pub stop : Bool
    pub stopped : Bool
    pub sent : List R

  -- A worker at the top of its loop, after its claim, with a chunk, with no items left, and ended.
  pub data Worker : Type 0 where
    idle fetching : S → Worker
    holding : S → ℕ → List T → Worker
    exhausted over : Worker

  -- The writer waiting for a chunk, passing on its results, out of its loop, and at the end of the
  -- scope, where it waits until every worker is over.
  pub data Writer : Type 0 where
    waiting : ℕ → Writer
    emitting : ℕ → List R → Writer
    leaving ended : Ending → Writer

  pub record System : Type 0 where
    pub shared : Shared
    pub workers : List Worker
    pub writer : Writer

  -- The workers' loop, when `ahead` chunks may be claimed before they are emitted.
  pub data Work (ahead : ℕ) (x : Shared) : Worker → Shared → Worker → Type 0 where
    claim :
        {s : S}
        → x.stop ≡ false
        → x.total ≡ none
        → ltb x.claimed (x.emitted + ahead) ≡ true
        → Work ahead x (Worker.idle s) (record x { claimed = suc x.claimed }) (Worker.fetching s)
    stop_idle : {s : S} → x.stop ≡ true → Work ahead x (Worker.idle s) x Worker.over
    end_idle : {s : S} (n : ℕ) → x.total ≡ some n → Work ahead x (Worker.idle s) x Worker.over
    fetch :
        {s : S} (t : T) (ts : List T)
        → x.rest ≡ t ∷ ts
        → Work ahead x
            (Worker.fetching s)
            (record x { rest = drop chunk x.rest; given = suc x.given })
            (Worker.holding s x.given (take chunk x.rest))
    fetch_none : {s : S} → x.rest ≡ [] → Work ahead x (Worker.fetching s) x Worker.exhausted
    set_total : Work ahead x Worker.exhausted (record x { total = some x.given }) Worker.over
    report :
        {s : S} {c : ℕ} {part : List T} (os : List (Option R)) (s' : S)
        → work_all s part ≡ some (os, s')
        → Work ahead x
            (Worker.holding s c part)
            (record x { done = insert c (some (Outcome.worked os)) x.done })
            (Worker.idle s')
    report_panic :
        {s : S} {c : ℕ} {part : List T}
        → work_all s part ≡ none
        → Work ahead x
            (Worker.holding s c part)
            (record x { done = insert c (some Outcome.panicked) x.done; stop = true })
            (Worker.idle s)

  -- The writer's loop, on the thread that calls `run`.
  pub data Write (x : Shared) : Writer → Shared → Writer → Type 0 where
    take_chunk :
        {c : ℕ} (os : List (Option R))
        → x.done c ≡ some (Outcome.worked os)
        → Write x
            (Writer.waiting c)
            (record x { done = insert c none x.done })
            (Writer.emitting c (flatten os))
    take_panic :
        {c : ℕ}
        → x.done c ≡ some Outcome.panicked
        → Write x
            (Writer.waiting c)
            (record x { done = insert c none x.done; stopped = true })
            (Writer.leaving Ending.resumed)
    end_chunks :
        {c : ℕ} (n : ℕ)
        → x.done c ≡ none
        → x.total ≡ some n
        → leb n c ≡ true
        → Write x (Writer.waiting c) x (Writer.leaving Ending.returned)
    emit :
        {c : ℕ} {r : R} {rs : List R}
        → Write x
            (Writer.emitting c (r ∷ rs))
            (record x { sent = x.sent ++ r ∷ [] })
            (Writer.emitting c rs)
    emit_error :
        {c : ℕ} {r : R} {rs : List R}
        → Write x
            (Writer.emitting c (r ∷ rs))
            (record x { stopped = true })
            (Writer.leaving Ending.failed)
    next_chunk :
        {c : ℕ}
        → Write x (Writer.emitting c []) (record x { emitted = suc c }) (Writer.waiting (suc c))
    leave : {e : Ending} → Write x (Writer.leaving e) (record x { stop = true }) (Writer.ended e)

  pub data Step (ahead : ℕ) : System → System → Type 0 where
    by_worker :
        {x y : Shared} {ws : List Worker} {w v : Worker} {u : Writer} (before after : List Worker)
        → ws ≡ before ++ w ∷ after
        → Work ahead x w y v
        → Step ahead
            (record { shared = x; workers = ws; writer = u })
            (record { shared = y; workers = before ++ v ∷ after; writer = u })
    by_writer :
        {x y : Shared} {u v : Writer} {ws : List Worker}
        → Write x u y v
        → Step ahead
            (record { shared = x; workers = ws; writer = u })
            (record { shared = y; workers = ws; writer = v })

  unfoldable pub replicate : ℕ → Worker → List Worker
  replicate zero w = []
  replicate (suc n) w = w ∷ replicate n w

  -- The state `run` starts its threads in: `threads.max(1)` workers.
  unfoldable pub start : List T → ℕ → S → System
  unfolding replicate
  start items threads init = record {
    shared = record {
      rest = items;
      given = 0;
      claimed = 0;
      emitted = 0;
      done = (λ i. none);
      total = none;
      stop = false;
      stopped = false;
      sent = [];
    };
    workers = replicate (max threads 1) (Worker.idle init);
    writer = Writer.waiting 0;
  }

  pub data Reach (ahead : ℕ) (x : System) : System → Type 0 where
    here : Reach ahead x x
    later : {y z : System} → Reach ahead x y → Step ahead y z → Reach ahead x z
