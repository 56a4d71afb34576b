-- ===== src/Ordered/Steps.antt =====
-- Every step keeps the data sound, and what was sent is in the order of the items.
use greeg.Base.{
  ℕ, suc, ◌+◌, ◌*◌, ◌≡◌, refl, sym, ap, ◌∙◌, subst, arith, Option, none, some, List, [], ◌∷◌, take,
  drop, ◌==◌, Bool-cases, inl, inr, ==_iff,
}
use mathlib.Core.Option.{some-injective, none-ne-some}
use greeg.Ordered.{chunk, Outcome, insert, Shared, Worker, Writer, Work, Write}
use greeg.Ordered.Invariant.{drop-drop, Produces, work_all-Produces, IsEnd, Held, IsSound}

module _ (T S R : Type 0) (work : S → T → Option (Option R × S)) (items : List T) where
  insert-ok :
      (c : ℕ) (v : Option (Outcome R)) (done : ℕ → Option (Outcome R))
      (P : ℕ → List (Option R) → Type 0)
      → ((i : ℕ) (os : List (Option R)) → done i ≡ some (Outcome.worked os) → P i os)
      → ((os : List (Option R)) → v ≡ some (Outcome.worked os) → P c os)
      → (i : ℕ) (os : List (Option R)) → insert c v done i ≡ some (Outcome.worked os)
      → P i os
  unfolding insert
  insert-ok c v done P f g i os e = elim (Bool-cases (i == c)) [
    | inl h ↦ subst (λ j. P j os) (sym ((==_iff i c).0 h)) (g os (rw h at e))
    | inr h ↦ f i os (rw h at e)
  ]

  worked-injective :
      (os ps : List (Option R)) → some (Outcome.worked os) ≡ some (Outcome.worked ps) → os ≡ ps
  worked-injective os ps e = cc

  next_piece : (n : ℕ) → drop chunk (drop (chunk * n) items) ≡ drop (chunk * suc n) items
  next_piece n =
      let e : chunk * n + chunk ≡ chunk * suc n = omega arith in
      drop-drop (chunk * n) chunk items ∙ ap (λ k. drop k items) e

  not_end : {l ts : List T} {t : T} → l ≡ t ∷ ts → l ≡ [] → ⊥
  not_end e f = cc

  pub Work-IsSound :
      {ahead : ℕ} {x y : Shared T S R work} {w v : Worker T S R work}
      → Work T S R work ahead x w y v
      → IsSound T S R work items x
      → Held T S R work items x w
      → IsSound T S R work items y
  Work-IsSound (Work.claim a b c) s h = record {
    rest_eq = s.rest_eq;
    done_ok = s.done_ok;
    total_ok = s.total_ok;
  }
  Work-IsSound (Work.stop_idle e) s h = s
  Work-IsSound (Work.end_idle n e) s h = s
  Work-IsSound {x = x} (Work.fetch t ts e) s h = record {
    rest_eq = rw s.rest_eq (next_piece x.given);
    done_ok = s.done_ok;
    total_ok = λ n k. absurd (not_end e (s.total_ok n k).1);
  }
  Work-IsSound (Work.fetch_none e) s h = s
  Work-IsSound Work.set_total s h = record {
    rest_eq = s.rest_eq;
    done_ok = s.done_ok;
    total_ok = λ n k. (sym (some-injective _ _ k), h);
  }
  Work-IsSound {x = x} (Work.report {s = z} {c} {part} os z' e) s h = record {
    rest_eq = s.rest_eq;
    done_ok = insert-ok c _ x.done _ s.done_ok (λ ps k.
        subst (λ us. Produces T S R work us ps) h
          (work_all-Produces T S R work z z' part ps
            (e ∙ ap (λ q. some (q, z')) (worked-injective os ps k))));
    total_ok = s.total_ok;
  }
  Work-IsSound {x = x} (Work.report_panic {c = c} e) s h = record {
    rest_eq = s.rest_eq;
    done_ok = insert-ok c _ x.done _ s.done_ok (λ ps k. cc);
    total_ok = s.total_ok;
  }

  pub Held-rest :
      (x y : Shared T S R work)
      → (IsEnd T S R work items x → IsEnd T S R work items y)
      → (w : Worker T S R work) → Held T S R work items x w
      → Held T S R work items y w
  Held-rest x y f (Worker.idle s) h = h
  Held-rest x y f (Worker.fetching s) h = h
  Held-rest x y f (Worker.holding s c part) h = h
  Held-rest x y f Worker.exhausted h = f h
  Held-rest x y f Worker.over h = h

  -- A step of a worker leaves the items at their end, and gives it a chunk of the items.
  pub Work-IsEnd :
      {ahead : ℕ} {x y : Shared T S R work} {w v : Worker T S R work}
      → Work T S R work ahead x w y v
      → IsEnd T S R work items x
      → IsEnd T S R work items y
  Work-IsEnd (Work.claim a b c) h = h
  Work-IsEnd (Work.stop_idle e) h = h
  Work-IsEnd (Work.end_idle n e) h = h
  Work-IsEnd (Work.fetch t ts e) h = absurd (not_end e h)
  Work-IsEnd (Work.fetch_none e) h = h
  Work-IsEnd Work.set_total h = h
  Work-IsEnd (Work.report os z' e) h = h
  Work-IsEnd (Work.report_panic e) h = h

  pub Work-Held :
      {ahead : ℕ} {x y : Shared T S R work} {w v : Worker T S R work}
      → Work T S R work ahead x w y v
      → IsSound T S R work items x
      → Held T S R work items y v
  Work-Held (Work.claim a b c) s = tt
  Work-Held (Work.stop_idle e) s = tt
  Work-Held (Work.end_idle n e) s = tt
  Work-Held {x = x} (Work.fetch t ts e) s = ap (take chunk) s.rest_eq
  Work-Held (Work.fetch_none e) s = e
  Work-Held Work.set_total s = tt
  Work-Held (Work.report os z' e) s = tt
  Work-Held (Work.report_panic e) s = tt

  pub Work-sent :
      {ahead : ℕ} {x y : Shared T S R work} {w v : Worker T S R work}
      → Work T S R work ahead x w y v
      → x.sent ≡ y.sent
  Work-sent (Work.claim a b c) = refl
  Work-sent (Work.stop_idle e) = refl
  Work-sent (Work.end_idle n e) = refl
  Work-sent (Work.fetch t ts e) = refl
  Work-sent (Work.fetch_none e) = refl
  Work-sent Work.set_total = refl
  Work-sent (Work.report os z' e) = refl
  Work-sent (Work.report_panic e) = refl

  pub Write-IsSound :
      {x y : Shared T S R work} {u v : Writer T S R work}
      → Write T S R work x u y v
      → IsSound T S R work items x
      → IsSound T S R work items y
  Write-IsSound {x = x} (Write.take_chunk {c} os e) s = record {
    rest_eq = s.rest_eq;
    total_ok = s.total_ok;
    done_ok = insert-ok c none x.done _ s.done_ok (λ ps k. absurd (none-ne-some _ k));
  }
  Write-IsSound {x = x} (Write.take_panic {c} e) s = record {
    rest_eq = s.rest_eq;
    total_ok = s.total_ok;
    done_ok = insert-ok c none x.done _ s.done_ok (λ ps k. absurd (none-ne-some _ k));
  }
  Write-IsSound (Write.end_chunks n a b c) s = s
  Write-IsSound Write.emit s = record {
    rest_eq = s.rest_eq;
    done_ok = s.done_ok;
    total_ok = s.total_ok;
  }
  Write-IsSound Write.emit_error s = record {
    rest_eq = s.rest_eq;
    done_ok = s.done_ok;
    total_ok = s.total_ok;
  }
  Write-IsSound Write.next_chunk s = record {
    rest_eq = s.rest_eq;
    done_ok = s.done_ok;
    total_ok = s.total_ok;
  }
  Write-IsSound Write.leave s = record {
    rest_eq = s.rest_eq;
    done_ok = s.done_ok;
    total_ok = s.total_ok;
  }

  pub Write-IsEnd :
      {x y : Shared T S R work} {u v : Writer T S R work}
      → Write T S R work x u y v
      → IsEnd T S R work items x
      → IsEnd T S R work items y
  Write-IsEnd (Write.take_chunk os e) h = h
  Write-IsEnd (Write.take_panic e) h = h
  Write-IsEnd (Write.end_chunks n a b c) h = h
  Write-IsEnd Write.emit h = h
  Write-IsEnd Write.emit_error h = h
  Write-IsEnd Write.next_chunk h = h
  Write-IsEnd Write.leave h = h
