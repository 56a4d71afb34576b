-- ===== src/Ordered/Joined.antt =====
-- The end of `run`'s scope, which joins its threads: a thread that has not ended can go on.
use greeg.Base.{
  ℕ, ◌≡◌, ◌⊎◌, inl, inr, refl, sym, ◌∙◌, subst, append_assoc, Option, List, [], ◌∷◌, ◌++◌, All,
  true,
}
use greeg.Ordered.{Ending, Shared, Worker, Writer, System, Work, Write, Step, Reach, start}
use greeg.Ordered.Ready.{CanStep, Found-CanStep}

module _ (T S R : Type 0) (work : S → T → Option (Option R × S)) (ahead : ℕ) where
  -- The caller waits at the end of the scope only after it set `stop`.
  abbrev AtJoin : Shared T S R work → Writer T S R work → Type 0
  AtJoin x (Writer.ended e) = x.stop ≡ true
  AtJoin x _ = Unit

  Work-stop :
      {x y : Shared T S R work} {w v : Worker T S R work}
      → Work T S R work ahead x w y v
      → x.stop ≡ true
      → y.stop ≡ true
  Work-stop (Work.claim a b c) h = h
  Work-stop (Work.stop_idle a) h = h
  Work-stop (Work.end_idle n a) h = h
  Work-stop (Work.fetch t ts a) h = h
  Work-stop (Work.fetch_none a) h = h
  Work-stop Work.set_total h = h
  Work-stop (Work.report os s a) h = h
  Work-stop (Work.report_panic a) h = refl

  AtJoin-mono :
      (x y : Shared T S R work) (u : Writer T S R work)
      → (x.stop ≡ true → y.stop ≡ true)
      → AtJoin x u
      → AtJoin y u
  AtJoin-mono x y (Writer.ended e) f h = f h
  AtJoin-mono x y (Writer.waiting c) f h = tt
  AtJoin-mono x y (Writer.emitting c rs) f h = tt
  AtJoin-mono x y (Writer.leaving e) f h = tt

  Write-AtJoin :
      {x y : Shared T S R work} {u v : Writer T S R work} → Write T S R work x u y v → AtJoin y v
  Write-AtJoin (Write.take_chunk os a) = tt
  Write-AtJoin (Write.take_panic a) = tt
  Write-AtJoin (Write.end_chunks n a b c) = tt
  Write-AtJoin Write.emit = tt
  Write-AtJoin Write.emit_error = tt
  Write-AtJoin Write.next_chunk = tt
  Write-AtJoin Write.leave = refl

  Step-AtJoin :
      {x y : System T S R work}
      → Step T S R work ahead x y
      → AtJoin x.shared x.writer
      → AtJoin y.shared y.writer
  Step-AtJoin (Step.by_worker {x} {y} {u = u} before after e m) h =
      AtJoin-mono x y u (Work-stop m) h
  Step-AtJoin (Step.by_writer m) h = Write-AtJoin m

  pub Reach-AtJoin :
      (items : List T) (threads : ℕ) (init : S) {y : System T S R work}
      → Reach T S R work ahead (start T S R work items threads init) y
      → AtJoin y.shared y.writer
  unfolding start
  Reach-AtJoin items threads init Reach.here = tt
  Reach-AtJoin items threads init (Reach.later r m) =
      Step-AtJoin m (Reach-AtJoin items threads init r)

  abbrev pub AreOver : List (Worker T S R work) → Type 0
  AreOver = All (λ w. w ≡ Worker.over)

  -- Once the workers are told to stop, all have ended or one can go on.
  stopped_workers :
      (x : System T S R work) (before after : List (Worker T S R work))
      → x.shared.stop ≡ true
      → x.workers ≡ before ++ after
      → AreOver after ⊎ CanStep T S R work ahead x
  stopped_workers x before [] s e = inl tt
  stopped_workers x before (Worker.idle z ∷ ws) s e =
      inr (_, Step.by_worker before ws e (Work.stop_idle s))
  stopped_workers x before (Worker.fetching z ∷ ws) s e =
      inr (Found-CanStep T S R work ahead x (before, _, ws, e, tt))
  stopped_workers x before (Worker.holding z c part ∷ ws) s e =
      inr (Found-CanStep T S R work ahead x (before, _, ws, e, tt))
  stopped_workers x before (Worker.exhausted ∷ ws) s e =
      inr (Found-CanStep T S R work ahead x (before, _, ws, e, tt))
  stopped_workers x before (Worker.over ∷ ws) s e =
      elim (stopped_workers x (before ++ Worker.over ∷ []) ws s
        (e ∙ sym (append_assoc before (Worker.over ∷ []) ws))) [
          | inl a ↦ inl (refl, a)
          | inr c ↦ inr c
        ]

  pub ended_workers :
      (x : System T S R work) (e : Ending)
      → x.writer ≡ Writer.ended e
      → AtJoin x.shared x.writer
      → AreOver x.workers ⊎ CanStep T S R work ahead x
  ended_workers x e k h = stopped_workers x [] x.workers (subst (AtJoin x.shared) k h) refl
