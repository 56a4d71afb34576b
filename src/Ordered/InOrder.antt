-- ===== src/Ordered/InOrder.antt =====
-- What `run` has passed on is in the order of the items, and all of it when `run` returns.
use greeg.Base.{
  ℕ, zero, suc, ◌+◌, ◌*◌, ◌≡◌, refl, sym, ap, ◌∙◌, subst, arith, Option, List, [], ◌∷◌, ◌++◌,
  length, take, drop, All,
}
use mathlib.Core.Option.{none-ne-some}
use mathlib.Core.List.{append_assoc, append-nil}
use Prim.Native.Nat.{◌≤◌, max}
use greeg.Ordered.{
  chunk, Ending, flatten, Shared, Worker, Writer, System, Write, Step, Reach, start, replicate,
}
use greeg.Ordered.Invariant.{
  take-drop, take_all, All-middle, All-replace, All-weaken, flatten-append, Produces,
  Produces-append, piece, Held, Sent, SentBy, IsSound,
}
use greeg.Ordered.Steps.{
  Work-IsSound, Held-rest, Work-IsEnd, Work-Held, Work-sent, Write-IsSound, Write-IsEnd,
}

module _ (T S R : Type 0) (work : S → T → Option (Option R × S)) (items : List T) where
  drop-length : (l : List T) → drop (length l) l ≡ []
  drop-length [] = refl
  drop-length (x ∷ l) = drop-length l

  -- The results of one more chunk.
  Sent-next :
      (c : ℕ) (sent : List R) (os : List (Option R))
      → Sent T S R work items (chunk * c) sent []
      → Produces T S R work (piece T S R work items c) os
      → Sent T S R work items (chunk * suc c) sent (flatten os)
  Sent-next c sent os s p =
      let e : chunk * c + chunk ≡ chunk * suc c = omega arith in
      record {
        results = s.results ++ os;
        produced =
            subst (λ l. Produces T S R work l (s.results ++ os))
              (take-drop (chunk * c) chunk items ∙ ap (λ n. take n items) e)
              (Produces-append T S R work (take (chunk * c) items) (piece T S R work items c)
                s.results os s.produced p);
        in_order =
            ap (λ l. l ++ flatten os) (sym (append-nil sent) ∙ s.in_order)
            ∙ sym (flatten-append s.results os);
      }

  -- The results of all the items, when the chunks have run out.
  Sent-all :
      (n m : ℕ) (sent : List R)
      → drop n items ≡ []
      → n ≤ m
      → Sent T S R work items m sent []
      → Sent T S R work items (length items) sent []
  Sent-all n m sent e h s = record {
    results = s.results;
    produced =
        subst (λ l. Produces T S R work l s.results)
          (take_all n m items e h
            ∙ sym (take_all (length items) (length items) items (drop-length items) (omega arith)))
          s.produced;
    in_order = s.in_order;
  }

  Write-SentBy :
      {x y : Shared T S R work} {u v : Writer T S R work}
      → Write T S R work x u y v
      → IsSound T S R work items x
      → SentBy T S R work items x.sent u
      → SentBy T S R work items y.sent v
  Write-SentBy {x = x} (Write.take_chunk {c} os e) s h = Sent-next c x.sent os h (s.done_ok c os e)
  Write-SentBy (Write.take_panic {c} e) s h = (chunk * c, [], h)
  Write-SentBy {x = x} (Write.end_chunks {c} n a b d) s h =
      let (p, q) = s.total_ok n b in
      Sent-all (chunk * x.given) (chunk * c) x.sent (sym s.rest_eq ∙ q)
        (let l : n ≤ c = ground arith in omega arith) h
  Write-SentBy {x = x} (Write.emit {c = c} {r = r} {rs = rs}) s h = record {
    results = h.results;
    produced = h.produced;
    in_order = append_assoc x.sent (r ∷ []) rs ∙ h.in_order;
  }
  Write-SentBy (Write.emit_error {c = c} {r = r} {rs = rs}) s h = (chunk * suc c, r ∷ rs, h)
  Write-SentBy Write.next_chunk s h = h
  Write-SentBy (Write.leave {e = Ending.returned}) s h = h
  Write-SentBy (Write.leave {e = Ending.failed}) s h = h
  Write-SentBy (Write.leave {e = Ending.resumed}) s h = h

  pub record IsOrdered (x : System T S R work) : Type 0 where
    pub sound : IsSound T S R work items x.shared
    held : All (Held T S R work items x.shared) x.workers
    sent : SentBy T S R work items x.shared.sent x.writer

  Step-IsOrdered :
      {ahead : ℕ} {x y : System T S R work} → Step T S R work ahead x y → IsOrdered x → IsOrdered y
  Step-IsOrdered (Step.by_worker {x} {y} {ws} {w} {v} {u} before after e m) i =
      let old = subst (All (Held T S R work items x)) e i.held in
      let (a, h, b) = All-middle _ before w after old in
      record {
        sound = Work-IsSound T S R work items m i.sound h;
        held =
            All-replace _ before w v after
              (All-weaken _ _ (Held-rest T S R work items x y (Work-IsEnd T S R work items m)) _
                old)
              (Work-Held T S R work items m i.sound);
        sent = subst (λ l. SentBy T S R work items l u) (Work-sent T S R work items m) i.sent;
      }
  Step-IsOrdered (Step.by_writer {x} {y} {u} {v} {ws} m) i = record {
    sound = Write-IsSound T S R work items m i.sound;
    held =
        All-weaken _ _ (Held-rest T S R work items x y (Write-IsEnd T S R work items m)) ws i.held;
    sent = Write-SentBy m i.sound i.sent;
  }

  replicate-All :
      (P : Worker T S R work → Type 0) (n : ℕ) (w : Worker T S R work)
      → P w
      → All P (replicate T S R work n w)
  unfolding replicate
  replicate-All P zero w p = tt
  replicate-All P (suc n) w p = (p, replicate-All P n w p)

  start-IsOrdered : (threads : ℕ) (init : S) → IsOrdered (start T S R work items threads init)
  unfolding start Produces flatten
  start-IsOrdered threads init = record {
    sound = record {
      rest_eq = refl;
      done_ok = λ i os e. absurd (none-ne-some _ e);
      total_ok = λ n e. absurd (none-ne-some _ e);
    };
    held = replicate-All _ (max threads 1) (Worker.idle init) tt;
    sent = record { results = []; produced = tt; in_order = refl };
  }

  pub Reach-IsOrdered :
      {ahead : ℕ} (threads : ℕ) (init : S) {y : System T S R work}
      → Reach T S R work ahead (start T S R work items threads init) y
      → IsOrdered y
  Reach-IsOrdered threads init Reach.here = start-IsOrdered threads init
  Reach-IsOrdered threads init (Reach.later r m) = Step-IsOrdered m (Reach-IsOrdered threads init r)

  -- Whatever the threads' order, what `run` has passed on when it has returned is, in the order of
  -- the items, the results that `work` gave for all of them.
  pub run_complete :
      (ahead threads : ℕ) (init : S) (y : System T S R work)
      → Reach T S R work ahead (start T S R work items threads init) y
      → y.writer ≡ Writer.ended Ending.returned
      → (os : List (Option R)) × Produces T S R work items os × (y.shared.sent ≡ flatten os)
  run_complete ahead threads init y r e =
      let s =
        subst (SentBy T S R work items y.shared.sent) e (Reach-IsOrdered threads init r).sent in
      (
        s.results,
        subst (λ l. Produces T S R work l s.results)
            (take_all (length items) (length items) items (drop-length items) (omega arith))
            s.produced,
        sym (append-nil y.shared.sent) ∙ s.in_order,
      )

  abbrev Prefix : List R → Type 0
  Prefix sent =
      (n : ℕ) × (rs : List R) × (os : List (Option R)) × Produces T S R work (take n items) os
      × (sent ++ rs ≡ flatten os)

  Sent-prefix : (n : ℕ) (sent rs : List R) → Sent T S R work items n sent rs → Prefix sent
  Sent-prefix n sent rs s = (n, rs, s.results, s.produced, s.in_order)

  SentBy-prefix :
      (sent : List R) (u : Writer T S R work) → SentBy T S R work items sent u → Prefix sent
  SentBy-prefix sent (Writer.waiting c) s = Sent-prefix _ sent _ s
  SentBy-prefix sent (Writer.emitting c rs) s = Sent-prefix _ sent rs s
  SentBy-prefix sent (Writer.leaving Ending.returned) s = Sent-prefix _ sent _ s
  SentBy-prefix sent (Writer.leaving Ending.failed) (n, rs, s) = Sent-prefix n sent rs s
  SentBy-prefix sent (Writer.leaving Ending.resumed) (n, rs, s) = Sent-prefix n sent rs s
  SentBy-prefix sent (Writer.ended Ending.returned) s = Sent-prefix _ sent _ s
  SentBy-prefix sent (Writer.ended Ending.failed) (n, rs, s) = Sent-prefix n sent rs s
  SentBy-prefix sent (Writer.ended Ending.resumed) (n, rs, s) = Sent-prefix n sent rs s

  -- Whatever the threads' order, and however `run` ends, what it has passed on is a prefix of the
  -- results that `work` gave for the first items, in their order.
  pub run_in_order :
      (ahead threads : ℕ) (init : S) (y : System T S R work)
      → Reach T S R work ahead (start T S R work items threads init) y
      → (n : ℕ) × (rs : List R) × (os : List (Option R)) × Produces T S R work (take n items) os
        × (y.shared.sent ++ rs ≡ flatten os)
  run_in_order ahead threads init y r =
      SentBy-prefix y.shared.sent y.writer (Reach-IsOrdered threads init r).sent
