-- ===== src/Ordered/Progress.antt =====
-- `run` is never stuck before it returns.
use greeg.Base.{
  ℕ, zero, suc, ◌+◌, ◌≡◌, ◌⊎◌, inl, inr, refl, ap, subst, arith, Option, none, some, List, [], ◌∷◌,
  ◌++◌, All, ltb, Bool-cases, Option-cases,
}
use Prim.Native.Nat.{◌≤◌, ◌<◌, max}
use greeg.Ordered.{
  Outcome, Ending, lead, Worker, Writer, System, Write, Step, Reach, start, replicate,
}
use greeg.Ordered.Counts.{one_if, present, holds, claims, count, AtWriter, IsCounted}
use greeg.Ordered.InOrder.{Reach-IsOrdered}
use greeg.Ordered.Ready.{
  CanStep, Found-CanStep, worker-CanStep, writer-CanStep, count-Found, holds-IsReady,
  claims-IsReady,
}
use greeg.Ordered.Joined.{AreOver, Reach-AtJoin, ended_workers}
use greeg.Ordered.Bounded.{Reach-IsCounted}

max_pos : (q t : ℕ) → 0 < max q (t + 1)
max_pos q t = omega arith

chunk_given : (c g : ℕ) → one_if (ltb c c) ≡ one_if (ltb c g) → g ≤ c
chunk_given c g h = ground arith

no_room : (c g i n : ℕ) → n + 1 + one_if (ltb i c) ≡ one_if (ltb i g) → g ≤ c → ⊥
no_room c g i n h l = ground arith

module _ (T S R : Type 0) (work : S → T → Option (Option R × S)) (ahead : ℕ) where
  -- The writer waits for chunk `c`, and it is not there.
  waiting-CanStep :
      (x : System T S R work) (c : ℕ)
      → 0 < ahead
      → IsCounted T S R work ahead x
      → (w : Worker T S R work) (ws : List (Worker T S R work)) → x.workers ≡ w ∷ ws
      → ((n : ℕ) → x.shared.total ≡ some n → n ≡ x.shared.given)
      → x.writer ≡ Writer.waiting c
      → x.shared.done c ≡ none
      → CanStep T S R work ahead x
  waiting-CanStep x c pos inv w ws e t k d =
      let (m, p) = subst (AtWriter T S R work ahead x.shared x.workers) k inv.at_writer in
      let absent : present (x.shared.done c) ≡ 0 = ap present d in
      elim (count-Found T S R work ahead (holds T S R work ahead c)
        (holds-IsReady T S R work ahead c) x.workers) [
          | inr f ↦ Found-CanStep T S R work ahead x f
          | inl z ↦
              let few : x.shared.given ≤ c =
                chunk_given c x.shared.given (omega (arith, p.placed c)) in
              elim (Option-cases x.shared.total) [
                | inr (n, q) ↦
                    writer-CanStep T S R work ahead x _ _ _ k
                      (Write.end_chunks n d q (let same = t n q in ground arith))
                | inl q ↦
                    elim (count-Found T S R work ahead (claims T S R work ahead)
                      (claims-IsReady T S R work ahead) x.workers) [
                        | inr f ↦ Found-CanStep T S R work ahead x f
                        | inl y ↦ elim (Bool-cases x.shared.stop) [
                          | inl s ↦
                              let (i, g) = p.stop_ok s in
                              let full : present (x.shared.done i) ≡ 1 = ap present g in
                              absurd (
                                no_room c x.shared.given i
                                  (count T S R work ahead (holds T S R work ahead i) x.workers)
                                  (omega (arith, p.placed i)) few)
                          | inr s ↦
                              let all = inv.claims_eq q in
                              worker-CanStep T S R work ahead x q s (ground arith) inv.over_ok w ws
                                e
                        ]
                      ]
              ]
        ]

  abbrev Ended : System T S R work → Type 0
  Ended x = (e : Ending) × (x.writer ≡ Writer.ended e)

  cases-CanStep :
      (x : System T S R work) (u : Writer T S R work)
      → x.writer ≡ u
      → ((c : ℕ)
          → x.writer ≡ Writer.waiting c
          → x.shared.done c ≡ none
          → CanStep T S R work ahead x)
      → Ended x ⊎ CanStep T S R work ahead x
  cases-CanStep x (Writer.waiting c) k f = elim (Option-cases (x.shared.done c)) [
    | inl d ↦ inr (f c k d)
    | inr (Outcome.worked os, d) ↦
        inr (writer-CanStep T S R work ahead x _ _ _ k (Write.take_chunk os d))
    | inr (Outcome.panicked, d) ↦
        inr (writer-CanStep T S R work ahead x _ _ _ k (Write.take_panic d))
  ]
  cases-CanStep x (Writer.emitting c []) k f =
      inr (writer-CanStep T S R work ahead x _ _ _ k Write.next_chunk)
  cases-CanStep x (Writer.emitting c (r ∷ rs)) k f =
      inr (writer-CanStep T S R work ahead x _ _ _ k Write.emit)
  cases-CanStep x (Writer.leaving e) k f =
      inr (writer-CanStep T S R work ahead x _ _ _ k Write.leave)
  cases-CanStep x (Writer.ended e) k f = inl (e, k)

  Nonempty : List (Worker T S R work) → Type 0
  Nonempty l = (w : Worker T S R work) × (ws : List (Worker T S R work)) × (l ≡ w ∷ ws)

  Nonempty-middle :
      (before : List (Worker T S R work)) (v : Worker T S R work) (after : List (Worker T S R work))
      → Nonempty (before ++ v ∷ after)
  unfolding Nonempty
  Nonempty-middle [] v after = (v, after, refl)
  Nonempty-middle (b ∷ before) v after = (b, before ++ v ∷ after, refl)

  Step-Nonempty :
      {x y : System T S R work}
      → Step T S R work ahead x y
      → Nonempty x.workers
      → Nonempty y.workers
  Step-Nonempty (Step.by_worker {v = v} before after e m) n = Nonempty-middle before v after
  Step-Nonempty (Step.by_writer m) n = n

  replicate-Nonempty : (n : ℕ) (w : Worker T S R work) → 0 < n → Nonempty (replicate T S R work n w)
  unfolding Nonempty replicate
  replicate-Nonempty zero w h = absurd (omega arith)
  replicate-Nonempty (suc n) w h = (w, replicate T S R work n w, refl)

  start-Nonempty :
      (items : List T) (threads : ℕ) (init : S)
      → Nonempty (start T S R work items threads init).workers
  unfolding start
  start-Nonempty items threads init =
      replicate-Nonempty (max threads 1) (Worker.idle init) (omega arith)

  Reach-Nonempty :
      (items : List T) (threads : ℕ) (init : S) {y : System T S R work}
      → Reach T S R work ahead (start T S R work items threads init) y
      → Nonempty y.workers
  Reach-Nonempty items threads init Reach.here = start-Nonempty items threads init
  Reach-Nonempty items threads init (Reach.later r m) =
      Step-Nonempty m (Reach-Nonempty items threads init r)

  -- The caller is at the join, and every thread it waits for has ended.
  abbrev pub IsJoined : System T S R work → Type 0
  IsJoined x = Ended x × AreOver T S R work ahead x.workers

  writer_progress :
      (items : List T) (threads : ℕ) (init : S) (y : System T S R work)
      → 0 < ahead
      → Reach T S R work ahead (start T S R work items threads init) y
      → Ended y ⊎ CanStep T S R work ahead y
  unfolding Nonempty
  writer_progress items threads init y pos r =
      let (w, ws, e) = Reach-Nonempty items threads init r in
      cases-CanStep y y.writer refl (λ c k d.
        waiting-CanStep y c pos (Reach-IsCounted T S R work ahead items threads init r) w ws e
          (λ n q. ((Reach-IsOrdered T S R work items threads init r).sound.total_ok n q).0) k d)

  pub ahead_progress :
      (items : List T) (threads : ℕ) (init : S) (y : System T S R work)
      → 0 < ahead
      → Reach T S R work ahead (start T S R work items threads init) y
      → IsJoined y ⊎ CanStep T S R work ahead y
  ahead_progress items threads init y pos r = elim (writer_progress items threads init y pos r) [
    | inr c ↦ inr c
    | inl (e, k) ↦
        elim (ended_workers T S R work ahead y e k
          (Reach-AtJoin T S R work ahead items threads init r)) [
            | inl o ↦ inl ((e, k), o)
            | inr c ↦ inr c
          ]
  ]

module _ (T S R : Type 0) (work : S → T → Option (Option R × S)) (window : ℕ) where
  -- In every state that is reached, a thread can take a step, or `run` can return: the writer has left
  -- its loop, and every worker that the scope joins has ended. So `run` is never stuck, also not at the
  -- join, however its loop was left.
  pub run_progress :
      (items : List T) (threads : ℕ) (init : S) (y : System T S R work)
      → Reach T S R work (lead window (max threads 1)) (start T S R work items threads init) y
      → (((e : Ending) × (y.writer ≡ Writer.ended e)) × All (λ w. w ≡ Worker.over) y.workers)
        ⊎ ((z : System T S R work) × Step T S R work (lead window (max threads 1)) y z)
  unfolding lead
  run_progress items threads init y r =
      ahead_progress T S R work (lead window (max threads 1)) items threads init y
        (max_pos _ (max threads 1)) r
