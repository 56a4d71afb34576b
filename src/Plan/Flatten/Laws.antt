-- ===== src/Plan/Flatten/Laws.antt =====
-- `flatten` keeps what a query asks, whatever trigrams the document has.
use greeg.Base.{
  ℕ, ◌≡◌, ◌↔◌, ◌⊎◌, inl, inr, refl, ap, ap₂, arith, Bool, true, ◌&&◌, Option, none, some, leb,
  ==_iff, Bool-cases,
}
use greeg.Plan.Query.{Q, Qs, Holds, HoldsAll, HoldsAny, HoldsAll-append, HoldsAny-append}
use greeg.Plan.Flatten.{
  sort_key, insert_by_key, sort_by_key, q_eq, qs_eq, dedup_after, dedup, and_round, or_round,
  and_of_len, or_of_len, and_end, or_end, flatten, flatten_and, flatten_or,
}

and_left : (x y : Bool) → (x && y) ≡ true → x ≡ true
and_left x y h = ground arith

and_right : (x y : Bool) → (x && y) ≡ true → y ≡ true
and_right x y h = ground arith

mutual
  unfolding q_eq

  q_eq_sound : (a b : Q) → q_eq a b ≡ true → a ≡ b
  q_eq_sound Q.all Q.all e = refl
  q_eq_sound Q.none Q.none e = refl
  q_eq_sound (Q.gram a) (Q.gram b) e = ap Q.gram ((==_iff a b).0 e)
  q_eq_sound (Q.and v) (Q.and w) e = ap Q.and (qs_eq_sound v w e)
  q_eq_sound (Q.or v) (Q.or w) e = ap Q.or (qs_eq_sound v w e)
  q_eq_sound Q.all Q.none e = cc
  q_eq_sound Q.all (Q.gram b) e = cc
  q_eq_sound Q.all (Q.and b) e = cc
  q_eq_sound Q.all (Q.or b) e = cc
  q_eq_sound Q.none Q.all e = cc
  q_eq_sound Q.none (Q.gram b) e = cc
  q_eq_sound Q.none (Q.and b) e = cc
  q_eq_sound Q.none (Q.or b) e = cc
  q_eq_sound (Q.gram a) Q.all e = cc
  q_eq_sound (Q.gram a) Q.none e = cc
  q_eq_sound (Q.gram a) (Q.and b) e = cc
  q_eq_sound (Q.gram a) (Q.or b) e = cc
  q_eq_sound (Q.and a) Q.all e = cc
  q_eq_sound (Q.and a) Q.none e = cc
  q_eq_sound (Q.and a) (Q.gram b) e = cc
  q_eq_sound (Q.and a) (Q.or b) e = cc
  q_eq_sound (Q.or a) Q.all e = cc
  q_eq_sound (Q.or a) Q.none e = cc
  q_eq_sound (Q.or a) (Q.gram b) e = cc
  q_eq_sound (Q.or a) (Q.and b) e = cc

  qs_eq_sound : (v w : Qs) → qs_eq v w ≡ true → v ≡ w
  qs_eq_sound Qs.nil Qs.nil e = refl
  qs_eq_sound Qs.nil (Qs.cons b w) e = cc
  qs_eq_sound (Qs.cons a v) Qs.nil e = cc
  qs_eq_sound (Qs.cons a v) (Qs.cons b w) e =
      ap₂ Qs.cons (q_eq_sound a b (and_left _ _ e)) (qs_eq_sound v w (and_right (q_eq a b) _ e))

module _ (G : ℕ → Type 0) where
  insert_by_key_iff : (x : Q) (v : Qs) → HoldsAll G (insert_by_key x v) ↔ (Holds G x × HoldsAll G v)
  unfolding insert_by_key HoldsAll
  insert_by_key_iff x Qs.nil = (λ h. h, λ h. h)
  insert_by_key_iff x (Qs.cons y v) =
      let (f, g) = insert_by_key_iff x v in
      elim (Bool-cases (leb (sort_key x) (sort_key y))) [
        | inl e ↦ rw e (λ h. h, λ h. h)
        | inr e ↦ rw e (λ h. ((f h.1).0, (h.0, (f h.1).1)), λ h. (h.1.0, g (h.0, h.1.1)))
      ]

  sort_by_key_iff : (v : Qs) → HoldsAll G (sort_by_key v) ↔ HoldsAll G v
  unfolding sort_by_key HoldsAll
  sort_by_key_iff Qs.nil = (λ h. h, λ h. h)
  sort_by_key_iff (Qs.cons x v) =
      let (f, g) = sort_by_key_iff v in
      let (a, b) = insert_by_key_iff x (sort_by_key v) in
      (λ h. ((a h).0, f (a h).1), λ h. b (h.0, g h.1))

  dedup_after_iff :
      (x : Q) (v : Qs) → (Holds G x × HoldsAll G (dedup_after x v)) ↔ (Holds G x × HoldsAll G v)
  unfolding dedup_after HoldsAll
  dedup_after_iff x Qs.nil = (λ h. h, λ h. h)
  dedup_after_iff x (Qs.cons y v) =
      let (f, g) = dedup_after_iff y v in
      elim (Bool-cases (q_eq x y)) [
        | inl e ↦ rw e (rw (q_eq_sound x y e) (λ h. (h.0, f h), λ h. g h.1))
        | inr e ↦ rw e (λ h. (h.0, f h.1), λ h. (h.0, g h.1))
      ]

  dedup_iff : (v : Qs) → HoldsAll G (dedup v) ↔ HoldsAll G v
  unfolding dedup HoldsAll
  dedup_iff Qs.nil = (λ h. h, λ h. h)
  dedup_iff (Qs.cons x v) = dedup_after_iff x v

  -- A loop's result, with its early return: false for a conjunction, true for a disjunction.
  abbrev AllOf : Option Qs → Type 0
  AllOf none = ⊥
  AllOf (some v) = HoldsAll G v

  abbrev AnyOf : Option Qs → Type 0
  AnyOf none = Unit
  AnyOf (some v) = HoldsAny G v

  both_absurd : {A : Type 0} → ⊥ ↔ (A × ⊥)
  both_absurd = (λ h. absurd h, λ h. h.1)

  and_round_iff : (q : Q) (o : Option Qs) → AllOf (and_round q o) ↔ (Holds G q × AllOf o)
  unfolding and_round Holds
  and_round_iff Q.all o = (λ h. (tt, h), λ h. h.1)
  and_round_iff Q.none o = (λ h. absurd h, λ h. h.0)
  and_round_iff (Q.and w) none = both_absurd
  and_round_iff (Q.and w) (some v) = HoldsAll-append G w v
  and_round_iff (Q.gram g) none = both_absurd
  and_round_iff (Q.gram g) (some v) = (λ h. h, λ h. h)
  and_round_iff (Q.or w) none = both_absurd
  and_round_iff (Q.or w) (some v) = (λ h. h, λ h. h)

  either_true : {A : Type 0} → Unit {0} ↔ (A ⊎ Unit {0})
  either_true = (λ h. inr tt, λ h. tt)

  or_round_iff : (q : Q) (o : Option Qs) → AnyOf (or_round q o) ↔ (Holds G q ⊎ AnyOf o)
  unfolding or_round Holds
  or_round_iff Q.all o = (λ h. inl tt, λ h. tt)
  or_round_iff Q.none o = (λ h. inr h, λ h. elim h [ inl a ↦ absurd a | inr b ↦ b ])
  or_round_iff (Q.or w) none = either_true
  or_round_iff (Q.or w) (some v) = HoldsAny-append G w v
  or_round_iff (Q.gram g) none = either_true
  or_round_iff (Q.gram g) (some v) = (λ h. h, λ h. h)
  or_round_iff (Q.and w) none = either_true
  or_round_iff (Q.and w) (some v) = (λ h. h, λ h. h)

  and_of_len_iff : (v : Qs) → Holds G (and_of_len v) ↔ HoldsAll G v
  unfolding and_of_len Holds
  and_of_len_iff Qs.nil = (λ h. h, λ h. h)
  and_of_len_iff (Qs.cons q Qs.nil) = (λ h. (h, tt), λ h. h.0)
  and_of_len_iff (Qs.cons q (Qs.cons r v)) = (λ h. h, λ h. h)

  or_of_len_iff : (v : Qs) → Holds G (or_of_len v) ↔ HoldsAny G v
  unfolding or_of_len Holds
  or_of_len_iff Qs.nil = (λ h. h, λ h. h)
  or_of_len_iff (Qs.cons q Qs.nil) = (λ h. inl h, λ h. elim h [ inl a ↦ a | inr b ↦ absurd b ])
  or_of_len_iff (Qs.cons q (Qs.cons r v)) = (λ h. h, λ h. h)

  and_end_iff : (o : Option Qs) → Holds G (and_end o) ↔ AllOf o
  unfolding and_end
  and_end_iff none = unfold Holds in (λ h. h, λ h. h)
  and_end_iff (some v) =
      let (a, b) = and_of_len_iff (dedup (sort_by_key v)) in
      let (c, d) = dedup_iff (sort_by_key v) in
      let (e, f) = sort_by_key_iff v in (λ h. e (c (a h)), λ h. b (d (f h)))

  or_end_iff : (o : Option Qs) → Holds G (or_end o) ↔ AnyOf o
  unfolding or_end
  or_end_iff none = unfold Holds in (λ h. h, λ h. h)
  or_end_iff (some v) = or_of_len_iff v

  mutual
    unfolding flatten Holds

    flatten-Holds : (q : Q) → Holds G (flatten q) ↔ Holds G q
    flatten-Holds Q.all = (λ h. h, λ h. h)
    flatten-Holds Q.none = (λ h. h, λ h. h)
    flatten-Holds (Q.gram g) = (λ h. h, λ h. h)
    flatten-Holds (Q.and v) =
        let (a, b) = and_end_iff (flatten_and v) in
        let (c, d) = flatten_and-HoldsAll v in (λ h. c (a h), λ h. b (d h))
    flatten-Holds (Q.or v) =
        let (a, b) = or_end_iff (flatten_or v) in
        let (c, d) = flatten_or-HoldsAny v in (λ h. c (a h), λ h. b (d h))

    flatten_and-HoldsAll : (v : Qs) → AllOf (flatten_and v) ↔ HoldsAll G v
    flatten_and-HoldsAll Qs.nil = (λ h. h, λ h. h)
    flatten_and-HoldsAll (Qs.cons x v) =
        let (a, b) = and_round_iff (flatten x) (flatten_and v) in
        let (c, d) = flatten-Holds x in
        let (e, f) = flatten_and-HoldsAll v in (λ h. (c (a h).0, e (a h).1), λ h. b (d h.0, f h.1))

    flatten_or-HoldsAny : (v : Qs) → AnyOf (flatten_or v) ↔ HoldsAny G v
    flatten_or-HoldsAny Qs.nil = (λ h. h, λ h. h)
    flatten_or-HoldsAny (Qs.cons x v) =
        let (a, b) = or_round_iff (flatten x) (flatten_or v) in
        let (c, d) = flatten-Holds x in
        let (e, f) = flatten_or-HoldsAny v in
        (
          λ h. elim (a h) [ inl p ↦ inl (c p) | inr r ↦ inr (e r) ],
          λ h. b (elim h [ inl p ↦ inl (d p) | inr r ↦ inr (f r) ]),
        )

  -- A document satisfies the flattened query exactly when it satisfies the query.
  pub flatten_iff : (q : Q) → Holds G (flatten q) ↔ Holds G q
  flatten_iff q = flatten-Holds q
