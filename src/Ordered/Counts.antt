-- ===== src/Ordered/Counts.antt =====
-- Where each chunk given is: with one worker, in `done`, or with the writer.
use greeg.Base.{
  ℕ, suc, ◌+◌, ◌≡◌, ◌⊎◌, inl, inr, refl, sym, arith, Bool, true, Option, none, some, List, [], ◌∷◌,
  ◌++◌, All, ltb, ◌==◌, if◌then◌else◌, Bool-cases, ==_iff,
}
use mathlib.Core.Option.{none-ne-some}
use Prim.Native.Nat.{◌≤◌}
use greeg.Ordered.{Outcome, insert, Shared, Worker, Writer, System, Work}

abbrev pub one_if : Bool → ℕ
one_if b = if b then 1 else 0

abbrev pub present : {R : Type 0} → Option (Outcome R) → ℕ
present none = 0
present (some o) = 1

pub one_if_below : (i n : ℕ) → one_if (ltb i (suc n)) ≡ one_if (ltb i n) + one_if (i == n)
one_if_below i n = ground arith

present-insert :
    {R : Type 0} (c i : ℕ) (o : Outcome R) (done : ℕ → Option (Outcome R))
    → one_if (i == c) + present (done i) ≤ 1
    → present (insert c (some o) done i) ≡ one_if (i == c) + present (done i)
unfolding insert
present-insert c i o done h = elim (Bool-cases (i == c)) [
  | inl k ↦ let h' = rw k at h in rw k (omega (arith, h'))
  | inr k ↦ rw k (omega arith)
]

pub present-remove :
    {R : Type 0} (c i : ℕ) (o : Outcome R) (done : ℕ → Option (Outcome R))
    → done c ≡ some o
    → present (insert c none done i) + one_if (i == c) ≡ present (done i)
unfolding insert
present-remove c i o done e = elim (Bool-cases (i == c)) [
  | inl k ↦ rw (k, (==_iff i c).0 k, e) refl
  | inr k ↦ rw k (omega arith)
]

module _ (T S R : Type 0) (work : S → T → Option (Option R × S)) (ahead : ℕ) where
  abbrev pub holds : ℕ → Worker T S R work → ℕ
  holds i (Worker.holding s c part) = one_if (i == c)
  holds i _ = 0

  -- A worker after its claim that has no chunk yet, or got none.
  abbrev pub claims : Worker T S R work → ℕ
  claims (Worker.fetching s) = 1
  claims Worker.exhausted = 1
  claims _ = 0

  unfoldable pub count : (Worker T S R work → ℕ) → List (Worker T S R work) → ℕ
  count f [] = 0
  count f (w ∷ ws) = f w + count f ws

  pub count-middle :
      (f : Worker T S R work → ℕ) (before : List (Worker T S R work)) (w : Worker T S R work)
      (after : List (Worker T S R work))
      → count f (before ++ w ∷ after) ≡ f w + (count f before + count f after)
  unfolding count
  count-middle f [] w after = omega arith
  count-middle f (b ∷ before) w after = omega (arith, count-middle f before w after)

  abbrev pub Over : Shared T S R work → Worker T S R work → Type 0
  Over x Worker.over = (x.stop ≡ true) ⊎ ((n : ℕ) × (x.total ≡ some n))
  Over x _ = Unit

  -- The chunks below `k` are with the writer or emitted.
  pub record Placed (x : Shared T S R work) (ws : List (Worker T S R work)) (k : ℕ) : Type 0 where
    pub placed :
        (i : ℕ)
        → count (holds i) ws + present (x.done i) + one_if (ltb i k) ≡ one_if (ltb i x.given)
    pub stop_ok : x.stop ≡ true → (i : ℕ) × (x.done i ≡ some Outcome.panicked)

  abbrev pub AtWriter : Shared T S R work → List (Worker T S R work) → Writer T S R work → Type 0
  AtWriter x ws (Writer.waiting c) = (c ≡ x.emitted) × Placed x ws c
  AtWriter x ws (Writer.emitting c rs) = (c ≡ x.emitted) × Placed x ws (suc c)
  AtWriter x ws _ = Unit

  pub record IsCounted (y : System T S R work) : Type 0 where
    pub lead_ok : y.shared.claimed ≤ y.shared.emitted + ahead
    pub claims_ok : y.shared.given + count claims y.workers ≤ y.shared.claimed
    pub claims_eq :
        y.shared.total ≡ none → y.shared.claimed ≡ y.shared.given + count claims y.workers
    pub over_ok : All (Over y.shared) y.workers
    pub at_writer : AtWriter y.shared y.workers y.writer

  -- What a worker's step does to the counts, where its chunk is not in `done` yet.
  pub Work-holds :
      {x y : Shared T S R work} {w v : Worker T S R work}
      → Work T S R work ahead x w y v
      → (i : ℕ) → holds i w + present (x.done i) ≤ 1
      → holds i v + present (y.done i) + one_if (ltb i x.given)
        ≡ holds i w + present (x.done i) + one_if (ltb i y.given)
  unfolding insert
  Work-holds (Work.claim a b c) i h = refl
  Work-holds (Work.stop_idle e) i h = refl
  Work-holds (Work.end_idle n e) i h = refl
  Work-holds {x = x} (Work.fetch t ts e) i h = omega (arith, one_if_below i x.given)
  Work-holds (Work.fetch_none e) i h = refl
  Work-holds Work.set_total i h = refl
  Work-holds {x = x} (Work.report {c = c} os z' e) i h =
      omega (arith, present-insert c i (Outcome.worked os) x.done h)
  Work-holds {x = x} (Work.report_panic {c = c} e) i h =
      omega (arith, present-insert c i Outcome.panicked x.done h)

  pub Work-claims :
      {x y : Shared T S R work} {w v : Worker T S R work}
      → Work T S R work ahead x w y v
      → (n : ℕ) → x.given + (claims w + n) ≤ x.claimed
      → y.given + (claims v + n) ≤ y.claimed
  Work-claims (Work.claim a b c) n h = omega arith
  Work-claims (Work.stop_idle e) n h = h
  Work-claims (Work.end_idle k e) n h = h
  Work-claims (Work.fetch t ts e) n h = omega arith
  Work-claims (Work.fetch_none e) n h = h
  Work-claims Work.set_total n h = omega arith
  Work-claims (Work.report os z' e) n h = h
  Work-claims (Work.report_panic e) n h = h

  pub Work-claims_eq :
      {x y : Shared T S R work} {w v : Worker T S R work}
      → Work T S R work ahead x w y v
      → (n : ℕ) → (x.total ≡ none → x.claimed ≡ x.given + (claims w + n))
      → y.total ≡ none
      → y.claimed ≡ y.given + (claims v + n)
  Work-claims_eq (Work.claim a b c) n h e = omega (arith, h e)
  Work-claims_eq (Work.stop_idle e') n h e = h e
  Work-claims_eq (Work.end_idle k e') n h e = h e
  Work-claims_eq (Work.fetch t ts e') n h e = omega (arith, h e)
  Work-claims_eq (Work.fetch_none e') n h e = h e
  Work-claims_eq Work.set_total n h e = absurd (none-ne-some _ (sym e))
  Work-claims_eq (Work.report os z' e') n h e = h e
  Work-claims_eq (Work.report_panic e') n h e = h e

  pub Work-lead :
      {x y : Shared T S R work} {w v : Worker T S R work}
      → Work T S R work ahead x w y v
      → x.claimed ≤ x.emitted + ahead
      → y.claimed ≤ y.emitted + ahead
  Work-lead (Work.claim a b c) h = ground arith
  Work-lead (Work.stop_idle e) h = h
  Work-lead (Work.end_idle k e) h = h
  Work-lead (Work.fetch t ts e) h = h
  Work-lead (Work.fetch_none e) h = h
  Work-lead Work.set_total h = h
  Work-lead (Work.report os z' e) h = h
  Work-lead (Work.report_panic e) h = h
