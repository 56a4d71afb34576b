-- ===== src/Ordered/Lead.antt =====
-- What the steps keep of the counts, and of why a worker ends.
use greeg.Base.{
  ℕ, ◌+◌, ◌≡◌, ◌⊎◌, inl, inr, refl, sym, arith, Bool, true, false, Option, some, List, ◌∷◌, ◌++◌,
  ltb, ◌==◌, Bool-cases, ==_iff,
}
use Prim.Native.Nat.{◌≤◌}
use greeg.Ordered.{Outcome, insert, Shared, Worker, Writer, Work, Write}
use greeg.Ordered.Counts.{one_if, present, holds, count-middle, Over, Placed, Work-holds}

one_if-le : (b : Bool) → one_if b ≤ 1
one_if-le true = omega arith
one_if-le false = omega arith

module _ (T S R : Type 0) (work : S → T → Option (Option R × S)) (ahead : ℕ) where
  abbrev pub Panicked : (ℕ → Option (Outcome R)) → Type 0
  Panicked done = (i : ℕ) × (done i ≡ some Outcome.panicked)

  -- A chunk that is not in `done` yet leaves a panic in `done`.
  Panicked-insert :
      (c : ℕ) (o : Outcome R) (done : ℕ → Option (Outcome R))
      → one_if (c == c) + present (done c) ≤ 1
      → Panicked done
      → Panicked (insert c (some o) done)
  unfolding insert
  Panicked-insert c o done h (i, e) = elim (Bool-cases (i == c)) [
    | inl k ↦
        let full : present (done c) ≡ 1 = rw (sym ((==_iff i c).0 k), e) refl in
        absurd (ground arith)
    | inr k ↦ (i, rw k e)
  ]

  Work-stop :
      {x y : Shared T S R work} {w v : Worker T S R work}
      → Work T S R work ahead x w y v
      → ((i : ℕ) → holds T S R work ahead i w + present (x.done i) ≤ 1)
      → (x.stop ≡ true → Panicked x.done)
      → y.stop ≡ true
      → Panicked y.done
  unfolding insert
  Work-stop (Work.claim a b c) h f e = f e
  Work-stop (Work.stop_idle e') h f e = f e
  Work-stop (Work.end_idle k e') h f e = f e
  Work-stop (Work.fetch t ts e') h f e = f e
  Work-stop (Work.fetch_none e') h f e = f e
  Work-stop Work.set_total h f e = f e
  Work-stop {x = x} (Work.report {c = c} os z' e') h f e =
      Panicked-insert c (Outcome.worked os) x.done (h c) (f e)
  Work-stop {x = x} (Work.report_panic {c = c} e') h f e =
      let k : (c == c) ≡ true = (==_iff c c).1 refl in (c, rw k refl)

  pub Work-Over :
      {x y : Shared T S R work} {w v : Worker T S R work}
      → Work T S R work ahead x w y v
      → Over T S R work ahead y v
  Work-Over (Work.claim a b c) = tt
  Work-Over (Work.stop_idle e) = inl e
  Work-Over (Work.end_idle n e) = inr (n, e)
  Work-Over (Work.fetch t ts e) = tt
  Work-Over (Work.fetch_none e) = tt
  Work-Over {x = x} Work.set_total = inr (x.given, refl)
  Work-Over (Work.report os z' e) = tt
  Work-Over (Work.report_panic e) = tt

  -- What ends a worker stays.
  unfoldable pub Ends : Shared T S R work → Type 0
  Ends x = (x.stop ≡ true) ⊎ ((n : ℕ) × (x.total ≡ some n))

  pub Work-Ends :
      {x y : Shared T S R work} {w v : Worker T S R work}
      → Work T S R work ahead x w y v
      → Ends x
      → Ends y
  unfolding Ends
  Work-Ends (Work.claim a b c) h = h
  Work-Ends (Work.stop_idle e) h = h
  Work-Ends (Work.end_idle n e) h = h
  Work-Ends (Work.fetch t ts e) h = h
  Work-Ends (Work.fetch_none e) h = h
  Work-Ends {x = x} Work.set_total h = inr (x.given, refl)
  Work-Ends (Work.report os z' e) h = h
  Work-Ends (Work.report_panic e) h = inl refl

  pub Write-Ends :
      {x y : Shared T S R work} {u v : Writer T S R work}
      → Write T S R work x u y v
      → Ends x
      → Ends y
  unfolding Ends
  Write-Ends (Write.take_chunk os e) h = h
  Write-Ends (Write.take_panic e) h = h
  Write-Ends (Write.end_chunks n a b c) h = h
  Write-Ends Write.emit h = h
  Write-Ends Write.emit_error h = h
  Write-Ends Write.next_chunk h = h
  Write-Ends Write.leave h = inl refl

  pub Over-Ends :
      (x y : Shared T S R work)
      → (Ends x → Ends y)
      → (w : Worker T S R work) → Over T S R work ahead x w
      → Over T S R work ahead y w
  unfolding Ends
  Over-Ends x y f (Worker.idle s) h = h
  Over-Ends x y f (Worker.fetching s) h = h
  Over-Ends x y f (Worker.holding s c part) h = h
  Over-Ends x y f Worker.exhausted h = h
  Over-Ends x y f Worker.over h = f h

  pub Work-Placed :
      {x y : Shared T S R work} {w v : Worker T S R work} (before after : List (Worker T S R work))
      (k : ℕ)
      → Work T S R work ahead x w y v
      → Placed T S R work ahead x (before ++ w ∷ after) k
      → Placed T S R work ahead y (before ++ v ∷ after) k
  Work-Placed {x} {y} {w} {v} before after k m p =
      let few : (i : ℕ) → holds T S R work ahead i w + present (x.done i) ≤ 1 = λ i. omega (
        arith,
        p.placed i,
        count-middle T S R work ahead (holds T S R work ahead i) before w after,
        one_if-le (ltb i x.given),
      ) in
      record {
        placed = λ i. omega (
          arith,
          p.placed i,
          Work-holds T S R work ahead m i (few i),
          count-middle T S R work ahead (holds T S R work ahead i) before w after,
          count-middle T S R work ahead (holds T S R work ahead i) before v after,
        );
        stop_ok = Work-stop m few p.stop_ok;
      }
