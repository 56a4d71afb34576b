-- ===== src/Ordered/Ready.antt =====
-- Which threads of `run` can take a step.
use greeg.Base.{
  ℕ, ◌+◌, ◌≡◌, ◌⊎◌, inl, inr, refl, sym, ap, ◌∙◌, subst, arith, true, false, Option, none, List, [],
  ◌∷◌, ◌++◌, All, ltb, Option-cases,
}
use mathlib.Core.Bool.{true≢false}
use mathlib.Core.Option.{none-ne-some}
use greeg.Ordered.{work_all, Shared, Worker, Writer, System, Work, Write, Step}
use greeg.Ordered.Counts.{holds, claims, count, Over}

List-cases : {A : Type 0} (l : List A) → (l ≡ []) ⊎ ((x : A) × (xs : List A) × (l ≡ x ∷ xs))
List-cases [] = inl refl
List-cases (x ∷ xs) = inr (x, xs, refl)

module _ (T S R : Type 0) (work : S → T → Option (Option R × S)) (ahead : ℕ) where
  -- A worker whose step waits for nothing.
  abbrev pub IsReady : Worker T S R work → Type 0
  IsReady (Worker.fetching s) = Unit
  IsReady (Worker.holding s c part) = Unit
  IsReady Worker.exhausted = Unit
  IsReady _ = ⊥

  ready-Work :
      (x : Shared T S R work) (w : Worker T S R work)
      → IsReady w
      → (y : Shared T S R work) × (v : Worker T S R work) × Work T S R work ahead x w y v
  ready-Work x (Worker.fetching s) h = elim (List-cases x.rest) [
    | inl e ↦ (_, _, Work.fetch_none e)
    | inr (t, ts, e) ↦ (_, _, Work.fetch t ts e)
  ]
  ready-Work x (Worker.holding s c part) h = elim (Option-cases (work_all T S R work s part)) [
    | inl e ↦ (_, _, Work.report_panic e)
    | inr ((os, z), e) ↦ (_, _, Work.report os z e)
  ]
  ready-Work x Worker.exhausted h = (_, _, Work.set_total)
  ready-Work x (Worker.idle s) h = absurd h
  ready-Work x Worker.over h = absurd h

  abbrev pub Found : List (Worker T S R work) → Type 0
  Found ws =
      (before : List (Worker T S R work)) × (w : Worker T S R work) × (after : List
        (Worker T S R work))
      × (ws ≡ before ++ w ∷ after)
      × IsReady w

  Found-cons : (w : Worker T S R work) (ws : List (Worker T S R work)) → Found ws → Found (w ∷ ws)
  Found-cons w ws (b, v, a, e, r) = (w ∷ b, v, a, ap (◌∷◌ w) e, r)

  -- A positive count of what only ready workers have finds one.
  pub count-Found :
      (f : Worker T S R work → ℕ)
      → ((w : Worker T S R work) → (f w ≡ 0) ⊎ IsReady w)
      → (ws : List (Worker T S R work)) → (count T S R work ahead f ws ≡ 0) ⊎ Found ws
  unfolding count
  count-Found f g [] = inl refl
  count-Found f g (w ∷ ws) = elim (g w) [
    | inr r ↦ inr ([], w, ws, refl, r)
    | inl z ↦ elim (count-Found f g ws) [
      | inl n ↦ inl (omega (arith, z, n))
      | inr p ↦ inr (Found-cons w ws p)
    ]
  ]

  pub holds-IsReady : (i : ℕ) (w : Worker T S R work) → (holds T S R work ahead i w ≡ 0) ⊎ IsReady w
  holds-IsReady i (Worker.idle s) = inl refl
  holds-IsReady i (Worker.fetching s) = inl refl
  holds-IsReady i (Worker.holding s c part) = inr tt
  holds-IsReady i Worker.exhausted = inl refl
  holds-IsReady i Worker.over = inl refl

  pub claims-IsReady : (w : Worker T S R work) → (claims T S R work ahead w ≡ 0) ⊎ IsReady w
  claims-IsReady (Worker.idle s) = inl refl
  claims-IsReady (Worker.fetching s) = inr tt
  claims-IsReady (Worker.holding s c part) = inl refl
  claims-IsReady Worker.exhausted = inr tt
  claims-IsReady Worker.over = inl refl

  abbrev pub CanStep : System T S R work → Type 0
  CanStep x = (y : System T S R work) × Step T S R work ahead x y

  pub Found-CanStep : (x : System T S R work) → Found x.workers → CanStep x
  Found-CanStep x (b, w, a, e, r) =
      let (y, v, m) = ready-Work x.shared w r in (_, Step.by_worker b a e m)

  -- With no chunk on its way and none to wait for, the first worker goes on.
  pub worker-CanStep :
      (x : System T S R work)
      → (x.shared.total ≡ none)
      → (x.shared.stop ≡ false)
      → ltb x.shared.claimed (x.shared.emitted + ahead) ≡ true
      → All (Over T S R work ahead x.shared) x.workers
      → (w : Worker T S R work) (ws : List (Worker T S R work)) → x.workers ≡ w ∷ ws
      → CanStep x
  worker-CanStep x t s l o (Worker.idle z) ws e = (_, Step.by_worker [] ws e (Work.claim s t l))
  worker-CanStep x t s l o (Worker.fetching z) ws e = Found-CanStep x ([], _, ws, e, tt)
  worker-CanStep x t s l o (Worker.holding z c part) ws e = Found-CanStep x ([], _, ws, e, tt)
  worker-CanStep x t s l o Worker.exhausted ws e = (_, Step.by_worker [] ws e Work.set_total)
  worker-CanStep x t s l o Worker.over ws e =
      elim (subst (All (Over T S R work ahead x.shared)) e o).0 [
        | inl a ↦ absurd (true≢false (sym a ∙ s))
        | inr (n, a) ↦ absurd (none-ne-some _ (sym t ∙ a))
      ]

  pub writer-CanStep :
      (x : System T S R work) (u : Writer T S R work) (y : Shared T S R work)
      (v : Writer T S R work)
      → x.writer ≡ u
      → Write T S R work x.shared u y v
      → CanStep x
  writer-CanStep x u y v e m =
      (_, Step.by_writer (subst (λ w. Write T S R work x.shared w y v) (sym e) m))
