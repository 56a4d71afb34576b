-- ===== src/Ordered/Invariant.antt =====
-- What holds of the data in every state of `run`.
use greeg.Base.{
  ℕ, zero, suc, ◌+◌, ◌*◌, ◌≡◌, refl, ap, subst, arith, Option, none, some, List, [], ◌∷◌, ◌++◌,
  length, take, drop, All, Option-cases, inl, inr,
}
use mathlib.Core.Option.{some-injective}
use Prim.Native.Nat.{◌≤◌}
use native.Mathlib.Numerals.{unary_clauses}
use greeg.Ordered.{chunk, Outcome, Ending, flatten, work_all, Shared, Worker, Writer}

module _ {A : Type 0} where
  pub take-drop : (n m : ℕ) (l : List A) → take n l ++ take m (drop n l) ≡ take (n + m) l
  take-drop zero m l = let e : zero + m ≡ m = omega arith in rw e refl
  take-drop (suc n) zero [] = simp unary_clauses refl
  take-drop (suc n) (suc m) [] = simp unary_clauses refl
  take-drop (suc n) m (x ∷ l) =
      let e : suc n + m ≡ suc (n + m) = omega arith in rw e (ap (◌∷◌ x) (take-drop n m l))

  pub drop-drop : (n m : ℕ) (l : List A) → drop m (drop n l) ≡ drop (n + m) l
  drop-drop zero m l = let e : zero + m ≡ m = omega arith in rw e refl
  drop-drop (suc n) zero [] = simp unary_clauses refl
  drop-drop (suc n) (suc m) [] = simp unary_clauses refl
  drop-drop (suc n) m (x ∷ l) =
      let e : suc n + m ≡ suc (n + m) = omega arith in rw e (drop-drop n m l)

  pub take_all : (n m : ℕ) (l : List A) → drop n l ≡ [] → n ≤ m → take m l ≡ l
  take_all zero zero [] e h = refl
  take_all zero (suc m) [] e h = refl
  take_all zero m (x ∷ l) e h = cc
  take_all (suc n) zero l e h = absurd (omega arith)
  take_all (suc n) (suc m) [] e h = refl
  take_all (suc n) (suc m) (x ∷ l) e h = ap (◌∷◌ x) (take_all n m l e (omega arith))

  pub All-middle :
      (P : A → Type 0) (before : List A) (w : A) (after : List A)
      → All P (before ++ w ∷ after)
      → All P before × P w × All P after
  All-middle P [] w after a = (tt, a.0, a.1)
  All-middle P (b ∷ before) w after a =
      let (p, q, r) = All-middle P before w after a.1 in ((a.0, p), q, r)

  pub All-replace :
      (P : A → Type 0) (before : List A) (w v : A) (after : List A)
      → All P (before ++ w ∷ after)
      → P v
      → All P (before ++ v ∷ after)
  All-replace P [] w v after a p = (p, a.1)
  All-replace P (b ∷ before) w v after a p = (a.0, All-replace P before w v after a.1 p)

  pub All-weaken : (P Q : A → Type 0) → ((x : A) → P x → Q x) → (l : List A) → All P l → All Q l
  All-weaken P Q f [] a = tt
  All-weaken P Q f (x ∷ l) a = (f x a.0, All-weaken P Q f l a.1)

pub flatten-append :
    {R : Type 0} (os ps : List (Option R)) → flatten (os ++ ps) ≡ flatten os ++ flatten ps
unfolding flatten
flatten-append [] ps = refl
flatten-append (none ∷ os) ps = flatten-append os ps
flatten-append (some r ∷ os) ps = ap (◌∷◌ r) (flatten-append os ps)

module _ (T S R : Type 0) (work : S → T → Option (Option R × S)) where
  -- `work` gave each result for the item beside it, in some state of a worker.
  unfoldable pub Produces : List T → List (Option R) → Type 0
  Produces [] [] = Unit
  Produces (t ∷ ts) (o ∷ os) = ((s : S) × (s' : S) × (work s t ≡ some (o, s'))) × Produces ts os
  Produces _ _ = ⊥

  pub Produces-append :
      (ts us : List T) (os ps : List (Option R))
      → Produces ts os
      → Produces us ps
      → Produces (ts ++ us) (os ++ ps)
  unfolding Produces
  Produces-append [] us [] ps p q = q
  Produces-append [] us (o ∷ os) ps p q = absurd p
  Produces-append (t ∷ ts) us [] ps p q = absurd p
  Produces-append (t ∷ ts) us (o ∷ os) ps p q = (p.0, Produces-append ts us os ps p.1 q)

  pub work_all-Produces :
      (s s' : S) (ts : List T) (os : List (Option R))
      → work_all T S R work s ts ≡ some (os, s')
      → Produces ts os
  unfolding Produces work_all
  work_all-Produces s s' [] [] e = tt
  work_all-Produces s s' [] (o ∷ os) e = cc
  work_all-Produces s s' (t ∷ ts) os e = elim (Option-cases (work s t)) [
    | inl h ↦ let f = rw (h, work_all) at e in cc
    | inr ((o, z), h) ↦ elim (Option-cases (work_all T S R work z ts)) [
      | inl k ↦ let f = rw (h, work_all, k, work_all) at e in cc
      | inr ((ps, y), k) ↦
          let f = rw (h, work_all, k, work_all) at e in
          subst (Produces (t ∷ ts)) (ap (λ p. p.0) (some-injective _ _ f))
            ((s, z, h), work_all-Produces z y ts ps k)
    ]
  ]

  module _ (items : List T) where
    -- Chunk `c`: the items from `32 * c` on, 32 of them at most.
    abbrev pub piece : ℕ → List T
    piece c = take chunk (drop (chunk * c) items)

    abbrev pub IsEnd : Shared T S R work → Type 0
    IsEnd x = x.rest ≡ []

    abbrev pub Held : Shared T S R work → Worker T S R work → Type 0
    Held x (Worker.holding s c part) = part ≡ piece c
    Held x Worker.exhausted = IsEnd x
    Held x _ = Unit

    -- The results of the first `n` items are what was sent, then `rs`.
    pub record Sent (n : ℕ) (sent rs : List R) : Type 0 where
      pub results : List (Option R)
      pub produced : Produces (take n items) results
      pub in_order : sent ++ rs ≡ flatten results

    -- What the writer has sent, by where it is.
    abbrev pub SentBy : List R → Writer T S R work → Type 0
    SentBy sent (Writer.waiting c) = Sent (chunk * c) sent []
    SentBy sent (Writer.emitting c rs) = Sent (chunk * suc c) sent rs
    SentBy sent (Writer.leaving Ending.returned) = Sent (length items) sent []
    SentBy sent (Writer.ended Ending.returned) = Sent (length items) sent []
    SentBy sent (Writer.leaving _) = (n : ℕ) × (rs : List R) × Sent n sent rs
    SentBy sent (Writer.ended _) = (n : ℕ) × (rs : List R) × Sent n sent rs

    pub record IsSound (x : Shared T S R work) : Type 0 where
      pub rest_eq : x.rest ≡ drop (chunk * x.given) items
      pub done_ok :
          (i : ℕ) (os : List (Option R))
          → x.done i ≡ some (Outcome.worked os)
          → Produces (piece i) os
      pub total_ok : (n : ℕ) → x.total ≡ some n → (n ≡ x.given) × IsEnd x
