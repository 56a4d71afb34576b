-- ===== src/Plan/Query.antt =====
-- `Q`, `and`, `or`, and when a document that holds some trigrams satisfies a query.
use greeg.Base.{ℕ, ◌↔◌, ◌⊎◌, inl, inr}

-- `Vec<Q>` is the list type of the block.
mutual
  pub data Q : Type 0 where
    all : Q
    none : Q
    gram : ℕ → Q
    and : Qs → Q
    or : Qs → Q

  pub data Qs : Type 0 where
    nil : Qs
    cons : Q → Qs → Qs

-- `x.append(&mut y)`, and `x.push(y)` as the case of one query.
unfoldable pub append : Qs → Qs → Qs
append nil y = y
append (cons q x) y = cons q (append x y)

unfoldable pub push : Qs → Q → Qs
unfolding append
push x y = append x (cons y nil)

-- `and(a, b)`: the arms of its `match`, in order.
unfoldable pub both : Q → Q → Q
unfolding append push
both Q.all x = x
both Q.none Q.all = Q.none
both (Q.gram k) Q.all = Q.gram k
both (Q.and v) Q.all = Q.and v
both (Q.or v) Q.all = Q.or v
both Q.none _ = Q.none
both (Q.gram k) Q.none = Q.none
both (Q.and v) Q.none = Q.none
both (Q.or v) Q.none = Q.none
both (Q.and x) (Q.and y) = Q.and (append x y)
both (Q.and x) (Q.gram k) = Q.and (push x (Q.gram k))
both (Q.and x) (Q.or y) = Q.and (push x (Q.or y))
both (Q.gram k) (Q.and x) = Q.and (push x (Q.gram k))
both (Q.or y) (Q.and x) = Q.and (push x (Q.or y))
both (Q.gram k) (Q.gram j) = Q.and (cons (Q.gram k) (cons (Q.gram j) nil))
both (Q.gram k) (Q.or y) = Q.and (cons (Q.gram k) (cons (Q.or y) nil))
both (Q.or x) (Q.gram j) = Q.and (cons (Q.or x) (cons (Q.gram j) nil))
both (Q.or x) (Q.or y) = Q.and (cons (Q.or x) (cons (Q.or y) nil))

-- `or(a, b)`
unfoldable pub either : Q → Q → Q
unfolding append push
either Q.all x = Q.all
either Q.none Q.all = Q.all
either (Q.gram k) Q.all = Q.all
either (Q.and v) Q.all = Q.all
either (Q.or v) Q.all = Q.all
either Q.none x = x
either (Q.gram k) Q.none = Q.gram k
either (Q.and v) Q.none = Q.and v
either (Q.or v) Q.none = Q.or v
either (Q.or x) (Q.or y) = Q.or (append x y)
either (Q.or x) (Q.gram k) = Q.or (push x (Q.gram k))
either (Q.or x) (Q.and y) = Q.or (push x (Q.and y))
either (Q.gram k) (Q.or x) = Q.or (push x (Q.gram k))
either (Q.and y) (Q.or x) = Q.or (push x (Q.and y))
either (Q.gram k) (Q.gram j) = Q.or (cons (Q.gram k) (cons (Q.gram j) nil))
either (Q.gram k) (Q.and y) = Q.or (cons (Q.gram k) (cons (Q.and y) nil))
either (Q.and x) (Q.gram j) = Q.or (cons (Q.and x) (cons (Q.gram j) nil))
either (Q.and x) (Q.and y) = Q.or (cons (Q.and x) (cons (Q.and y) nil))

-- What a query asks of a document whose trigrams are `G`.
unfoldable mutual
  pub Holds : (ℕ → Type 0) → Q → Type 0
  Holds G Q.all = Unit
  Holds G Q.none = ⊥
  Holds G (Q.gram k) = G k
  Holds G (Q.and v) = HoldsAll G v
  Holds G (Q.or v) = HoldsAny G v

  pub HoldsAll : (ℕ → Type 0) → Qs → Type 0
  HoldsAll G Qs.nil = Unit
  HoldsAll G (Qs.cons q v) = Holds G q × HoldsAll G v

  pub HoldsAny : (ℕ → Type 0) → Qs → Type 0
  HoldsAny G Qs.nil = ⊥
  HoldsAny G (Qs.cons q v) = Holds G q ⊎ HoldsAny G v

module _ (G : ℕ → Type 0) where
  pub HoldsAll-append : (x y : Qs) → HoldsAll G (append x y) ↔ (HoldsAll G x × HoldsAll G y)
  unfolding append Holds HoldsAll
  HoldsAll-append Qs.nil y = (λ h. (tt, h), λ h. h.1)
  HoldsAll-append (Qs.cons q x) y =
      let (f, g) = HoldsAll-append x y in
      (λ h. ((h.0, (f h.1).0), (f h.1).1), λ h. (h.0.0, g (h.0.1, h.1)))

  pub HoldsAny-append : (x y : Qs) → HoldsAny G (append x y) ↔ (HoldsAny G x ⊎ HoldsAny G y)
  unfolding append Holds HoldsAny
  HoldsAny-append Qs.nil y = (λ h. inr h, λ h. elim h [ inl n ↦ absurd n | inr r ↦ r ])
  HoldsAny-append (Qs.cons q x) y =
      let (f, g) = HoldsAny-append x y in
      (
        λ h. elim h [
          | inl a ↦ inl (inl a)
          | inr r ↦ elim (f r) [ inl b ↦ inl (inr b) | inr c ↦ inr c ]
        ],
        λ h. elim h [
          | inl (inl a) ↦ inl a
          | inl (inr b) ↦ inr (g (inl b))
          | inr c ↦ inr (g (inr c))
        ],
      )

  pushed : (x : Qs) (q : Q) → HoldsAll G (push x q) ↔ (HoldsAll G x × Holds G q)
  unfolding push HoldsAll
  pushed x q =
      let (f, g) = HoldsAll-append x (Qs.cons q Qs.nil) in
      (λ h. ((f h).0, (f h).1.0), λ h. g (h.0, (h.1, tt)))

  pushed_front : (x : Qs) (q : Q) → HoldsAll G (push x q) ↔ (Holds G q × HoldsAll G x)
  pushed_front x q = let (f, g) = pushed x q in (λ h. ((f h).1, (f h).0), λ h. g (h.1, h.0))

  any_pushed : (x : Qs) (q : Q) → HoldsAny G (push x q) ↔ (HoldsAny G x ⊎ Holds G q)
  unfolding push HoldsAny
  any_pushed x q =
      let (f, g) = HoldsAny-append x (Qs.cons q Qs.nil) in
      (
        λ h. elim (f h) [ inl a ↦ inl a | inr (inl b) ↦ inr b | inr (inr c) ↦ absurd c ],
        λ h. elim h [ inl a ↦ g (inl a) | inr b ↦ g (inr (inl b)) ],
      )

  any_pushed_front : (x : Qs) (q : Q) → HoldsAny G (push x q) ↔ (Holds G q ⊎ HoldsAny G x)
  any_pushed_front x q =
      let (f, g) = any_pushed x q in
      (
        λ h. elim (f h) [ inl a ↦ inr a | inr b ↦ inl b ],
        λ h. elim h [ inl a ↦ g (inr a) | inr b ↦ g (inl b) ],
      )

  pub both_iff : (a b : Q) → Holds G (both a b) ↔ (Holds G a × Holds G b)
  unfolding both Holds HoldsAll
  both_iff Q.all b = (λ h. (tt, h), λ h. h.1)
  both_iff Q.none Q.all = (λ h. absurd h, λ h. h.0)
  both_iff _ Q.all = (λ h. (h, tt), λ h. h.0)
  both_iff Q.none _ = (λ h. absurd h, λ h. h.0)
  both_iff _ Q.none = (λ h. absurd h, λ h. h.1)
  both_iff (Q.and x) (Q.and y) = HoldsAll-append x y
  both_iff (Q.and x) (Q.gram k) = pushed x (Q.gram k)
  both_iff (Q.and x) (Q.or y) = pushed x (Q.or y)
  both_iff (Q.gram k) (Q.and x) = pushed_front x (Q.gram k)
  both_iff (Q.or y) (Q.and x) = pushed_front x (Q.or y)
  both_iff _ _ = (λ h. (h.0, h.1.0), λ h. (h.0, (h.1, tt)))

  pub either_iff : (a b : Q) → Holds G (either a b) ↔ (Holds G a ⊎ Holds G b)
  unfolding either Holds HoldsAny
  either_iff Q.all b = (λ h. inl tt, λ h. tt)
  either_iff _ Q.all = (λ h. inr tt, λ h. tt)
  either_iff Q.none _ = (λ h. inr h, λ h. elim h [ inl a ↦ absurd a | inr b ↦ b ])
  either_iff _ Q.none = (λ h. inl h, λ h. elim h [ inl a ↦ a | inr b ↦ absurd b ])
  either_iff (Q.or x) (Q.or y) = HoldsAny-append x y
  either_iff (Q.or x) (Q.gram k) = any_pushed x (Q.gram k)
  either_iff (Q.or x) (Q.and y) = any_pushed x (Q.and y)
  either_iff (Q.gram k) (Q.or x) = any_pushed_front x (Q.gram k)
  either_iff (Q.and y) (Q.or x) = any_pushed_front x (Q.and y)
  either_iff _ _ = (
    λ h. elim h [ inl a ↦ inl a | inr (inl b) ↦ inr b | inr (inr c) ↦ absurd c ],
    λ h. elim h [ inl a ↦ inl a | inr b ↦ inr (inl b) ],
  )
