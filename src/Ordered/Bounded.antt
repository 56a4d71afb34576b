-- ===== src/Ordered/Bounded.antt =====
-- The workers stay a bounded number of chunks ahead of the writer.
use greeg.Base.{
  ℕ, zero, suc, ◌+◌, ◌≡◌, inl, inr, refl, sym, ap, ◌∙◌, subst, arith, Option, none, some, List, ◌∷◌,
  ◌++◌, All, ltb, ◌==◌, Bool-cases, ==_iff,
}
use Prim.Native.Nat.{◌≤◌, ◌<◌, max}
use greeg.Ordered.{
  Outcome, insert, Shared, Worker, Writer, System, Work, Write, Step, Reach, start, replicate,
}
use greeg.Ordered.Invariant.{All-replace, All-weaken}
use greeg.Ordered.Counts.{
  one_if, present, one_if_below, present-remove, holds, claims, count, count-middle, Over, AtWriter,
  IsCounted, Work-claims, Work-claims_eq, Work-lead,
}
use greeg.Ordered.Lead.{Panicked, Work-Over, Work-Ends, Write-Ends, Over-Ends, Work-Placed}

one_if_bounds : (i c g n : ℕ) → n + 1 + one_if (ltb i c) ≡ one_if (ltb i g) → (c ≤ i) × (i < g)
one_if_bounds i c g n h = (ground arith, ground arith)

module _ (T S R : Type 0) (work : S → T → Option (Option R × S)) (ahead : ℕ) where
  Work-emitted :
      {x y : Shared T S R work} {w v : Worker T S R work}
      → Work T S R work ahead x w y v
      → x.emitted ≡ y.emitted
  Work-emitted (Work.claim a b c) = refl
  Work-emitted (Work.stop_idle e) = refl
  Work-emitted (Work.end_idle n e) = refl
  Work-emitted (Work.fetch t ts e) = refl
  Work-emitted (Work.fetch_none e) = refl
  Work-emitted Work.set_total = refl
  Work-emitted (Work.report os z' e) = refl
  Work-emitted (Work.report_panic e) = refl

  Work-AtWriter :
      {x y : Shared T S R work} {w v : Worker T S R work} (before after : List (Worker T S R work))
      (u : Writer T S R work)
      → Work T S R work ahead x w y v
      → AtWriter T S R work ahead x (before ++ w ∷ after) u
      → AtWriter T S R work ahead y (before ++ v ∷ after) u
  Work-AtWriter before after (Writer.waiting c) m (e, p) =
      (e ∙ Work-emitted m, Work-Placed T S R work ahead before after c m p)
  Work-AtWriter before after (Writer.emitting c rs) m (e, p) =
      (e ∙ Work-emitted m, Work-Placed T S R work ahead before after (suc c) m p)
  Work-AtWriter before after (Writer.leaving e) m a = tt
  Work-AtWriter before after (Writer.ended e) m a = tt

  Panicked-remove :
      (c : ℕ) (os : List (Option R)) (done : ℕ → Option (Outcome R))
      → done c ≡ some (Outcome.worked os)
      → Panicked T S R work ahead done
      → Panicked T S R work ahead (insert c none done)
  unfolding insert
  Panicked-remove c os done e (i, f) = elim (Bool-cases (i == c)) [
    | inl k ↦ let g = sym e ∙ ap done (sym ((==_iff i c).0 k)) ∙ f in cc
    | inr k ↦ (i, rw k f)
  ]

  Write-AtWriter :
      {x y : Shared T S R work} {u v : Writer T S R work} (ws : List (Worker T S R work))
      → Write T S R work x u y v
      → AtWriter T S R work ahead x ws u
      → AtWriter T S R work ahead y ws v
  Write-AtWriter {x = x} ws (Write.take_chunk {c} os e) (k, p) = (
    k,
    record {
      placed = λ i.
          omega
            (arith, p.placed i, one_if_below i c, present-remove c i (Outcome.worked os) x.done e);
      stop_ok = λ h. Panicked-remove c os x.done e (p.stop_ok h);
    },
  )
  Write-AtWriter ws (Write.take_panic e) a = tt
  Write-AtWriter ws (Write.end_chunks n a b c) h = tt
  Write-AtWriter ws Write.emit (k, p) = (k, record { placed = p.placed; stop_ok = p.stop_ok })
  Write-AtWriter ws Write.emit_error a = tt
  Write-AtWriter ws Write.next_chunk (k, p) =
      (refl, record { placed = p.placed; stop_ok = p.stop_ok })
  Write-AtWriter ws Write.leave a = tt

  -- The writer changes the count of chunks emitted, upwards, and neither those claimed nor given.
  Write-claims :
      {x y : Shared T S R work} {u v : Writer T S R work} (ws : List (Worker T S R work))
      → Write T S R work x u y v
      → AtWriter T S R work ahead x ws u
      → (x.emitted ≤ y.emitted)
        × (y.claimed ≡ x.claimed)
        × (y.given ≡ x.given)
        × (y.total ≡ x.total)
  Write-claims ws (Write.take_chunk os e) a = (omega arith, refl, refl, refl)
  Write-claims ws (Write.take_panic e) a = (omega arith, refl, refl, refl)
  Write-claims ws (Write.end_chunks n a b c) h = (omega arith, refl, refl, refl)
  Write-claims ws Write.emit a = (omega arith, refl, refl, refl)
  Write-claims ws Write.emit_error a = (omega arith, refl, refl, refl)
  Write-claims ws Write.next_chunk (k, p) = (omega arith, refl, refl, refl)
  Write-claims ws Write.leave a = (omega arith, refl, refl, refl)

  Step-IsCounted :
      {x y : System T S R work}
      → Step T S R work ahead x y
      → IsCounted T S R work ahead x
      → IsCounted T S R work ahead y
  Step-IsCounted (Step.by_worker {x} {y} {ws} {w} {v} {u} before after e m) i =
      let middle = count-middle T S R work ahead (claims T S R work ahead) before in
      let rest =
        count T S R work ahead (claims T S R work ahead) before
        + count T S R work ahead (claims T S R work ahead) after in
      let was : count T S R work ahead (claims T S R work ahead) ws
          ≡ claims T S R work ahead w + rest =
        ap (count T S R work ahead (claims T S R work ahead)) e ∙ middle w after in
      let old = subst (All (Over T S R work ahead x)) e i.over_ok in
      record {
        lead_ok = Work-lead T S R work ahead m i.lead_ok;
        claims_ok = rw (middle v after) (
            Work-claims T S R work ahead m rest
              (subst (λ n. x.given + n ≤ x.claimed) was i.claims_ok));
        claims_eq = rw (middle v after) (
            Work-claims_eq T S R work ahead m rest
              (λ h. subst (λ n. x.claimed ≡ x.given + n) was (i.claims_eq h)));
        over_ok =
            All-replace _ before w v after
              (All-weaken _ _ (Over-Ends T S R work ahead x y (Work-Ends T S R work ahead m)) _ old)
              (Work-Over T S R work ahead m);
        at_writer =
            Work-AtWriter before after u m
              (subst (λ l. AtWriter T S R work ahead x l u) e i.at_writer);
      }
  Step-IsCounted (Step.by_writer {x} {y} {u} {v} {ws} m) i =
      let (a, b, c, d) = Write-claims ws m i.at_writer in
      let lead = i.lead_ok in
      let few = i.claims_ok in
      record {
        lead_ok = omega arith;
        claims_ok = omega arith;
        claims_eq = λ h. (let k = i.claims_eq (sym d ∙ h) in omega arith);
        over_ok =
            All-weaken _ _ (Over-Ends T S R work ahead x y (Write-Ends T S R work ahead m)) ws
              i.over_ok;
        at_writer = Write-AtWriter ws m i.at_writer;
      }

  replicate-idle :
      (n : ℕ) (init : S) (f : Worker T S R work → ℕ)
      → f (Worker.idle init) ≡ 0
      → count T S R work ahead f (replicate T S R work n (Worker.idle init)) ≡ 0
  unfolding count replicate
  replicate-idle zero init f e = refl
  replicate-idle (suc n) init f e = omega (arith, e, replicate-idle n init f e)

  replicate-Over :
      (x : Shared T S R work) (n : ℕ) (init : S)
      → All (Over T S R work ahead x) (replicate T S R work n (Worker.idle init))
  unfolding replicate
  replicate-Over x zero init = tt
  replicate-Over x (suc n) init = (tt, replicate-Over x n init)

  start-IsCounted :
      (items : List T) (threads : ℕ) (init : S)
      → IsCounted T S R work ahead (start T S R work items threads init)
  unfolding start
  start-IsCounted items threads init = record {
    lead_ok = omega arith;
    claims_ok = omega (arith, replicate-idle (max threads 1) init (claims T S R work ahead) refl);
    claims_eq =
        λ h. omega (arith, replicate-idle (max threads 1) init (claims T S R work ahead) refl);
    over_ok = replicate-Over (start T S R work items threads init).shared (max threads 1) init;
    at_writer = (
      refl,
      record {
        placed =
            λ i. omega (arith, replicate-idle (max threads 1) init (holds T S R work ahead i) refl);
        stop_ok = λ h. absurd (ground arith);
      },
    );
  }

  pub Reach-IsCounted :
      (items : List T) (threads : ℕ) (init : S) {y : System T S R work}
      → Reach T S R work ahead (start T S R work items threads init) y
      → IsCounted T S R work ahead y
  Reach-IsCounted items threads init Reach.here = start-IsCounted items threads init
  Reach-IsCounted items threads init (Reach.later r m) =
      Step-IsCounted m (Reach-IsCounted items threads init r)

  -- While the writer waits for chunk `c`, the chunks whose results are held are `c` and less than
  -- `ahead` chunks from it on: none of them was passed on already.
  pub run_bounded :
      (items : List T) (threads : ℕ) (init : S) (y : System T S R work) (c i : ℕ) (o : Outcome R)
      → Reach T S R work ahead (start T S R work items threads init) y
      → y.writer ≡ Writer.waiting c
      → y.shared.done i ≡ some o
      → (c ≤ i) × (i < c + ahead)
  run_bounded items threads init y c i o r e h =
      let inv = Reach-IsCounted items threads init r in
      let (k, p) = subst (AtWriter T S R work ahead y.shared y.workers) e inv.at_writer in
      let lead = inv.lead_ok in
      let few = inv.claims_ok in
      let full : present (y.shared.done i) ≡ 1 = ap present h in
      let (a, b) =
        one_if_bounds i c y.shared.given
          (count T S R work ahead (holds T S R work ahead i) y.workers)
          (omega (arith, p.placed i)) in
      (a, omega arith)
