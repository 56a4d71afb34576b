-- ===== src/Plan/Sets/Laws.antt =====
-- Membership in the sets of plan.rs, and the soundness of `trigrams_of`.
use Prim.Native.Nat.{Ordering}
use greeg.Base.{
  ℕ, ◌≡◌, ◌⊎◌, inl, inr, refl, ap, Option, none, some, List, [], ◌∷◌, ◌++◌, map, map-append, Bytes,
  In, In-map, In-append_left, In-append_right, In-append_cases, dedup, In-dedup,
}
use greeg.Gram.{literal_keys, fold}
use greeg.Gram.Literal.{InGroups, literal_keys_lem}
use greeg.Gram.Windows.{HasGram, HasGram-infix}
use greeg.Plan.Query.{Q, Qs, Holds, HoldsAll, HoldsAny}
use greeg.Plan.Sets.{
  cmp, cmp-eq, Set, insert, from_list, union, one, cross_with, cross_onto, cross, flat,
  gram_queries, and_of, alternative, alternatives, or_of, trigrams_of,
}

Ordering-cases : (o : Ordering) → (o ≡ Ordering.lt) ⊎ (o ≡ Ordering.eq) ⊎ (o ≡ Ordering.gt)
Ordering-cases Ordering.lt = inl refl
Ordering-cases Ordering.eq = inr (inl refl)
Ordering-cases Ordering.gt = inr (inr refl)

pub In-insert_self : (s : Bytes) (l : Set) → In s (insert s l)
unfolding insert
In-insert_self s [] = inl refl
In-insert_self s (t ∷ ts) = elim (Ordering-cases (cmp s t)) [
  | inl e ↦ rw (e, insert) (inl refl)
  | inr (inl e) ↦ rw (e, insert) (inl (cmp-eq s t e))
  | inr (inr e) ↦ rw (e, insert) (inr (In-insert_self s ts))
]

pub In-insert_other : (r s : Bytes) (l : Set) → In r l → In r (insert s l)
unfolding insert
In-insert_other r s [] h = absurd h
In-insert_other r s (t ∷ ts) h = elim (Ordering-cases (cmp s t)) [
  | inl e ↦ rw (e, insert) (inr h)
  | inr (inl e) ↦ rw (e, insert) h
  | inr (inr e) ↦ rw (e, insert) (elim h [ inl p ↦ inl p | inr q ↦ inr (In-insert_other r s ts q) ])
]

pub In-from_list : (r : Bytes) (l : List Bytes) → In r l → In r (from_list l)
unfolding from_list
In-from_list r [] h = h
In-from_list r (s ∷ l) (inl e) = rw e (In-insert_self s (from_list l))
In-from_list r (s ∷ l) (inr h) = In-insert_other r s (from_list l) (In-from_list r l h)

-- Nothing is added by `collect` or by `union`.
pub In-map_set : (f : Bytes → Bytes) (r : Bytes) (l : Set) → In r l → In (f r) (from_list (map f l))
In-map_set f r l h = In-from_list (f r) (map f l) (In-map f r l h)

pub In-union_left : (r : Bytes) (x y : Set) → In r x → In r (union x y)
unfolding union
In-union_left r x y h = In-from_list r (x ++ y) (In-append_left r x y h)

pub In-union_right : (r : Bytes) (x y : Set) → In r y → In r (union x y)
unfolding union
In-union_right r x y h = In-from_list r (x ++ y) (In-append_right r x y h)

pub In-one : (s : Bytes) → In s (one s)
unfolding one
In-one s = inl refl

cross_with-keeps : (r x : Bytes) (b out : Set) → In r out → In r (cross_with x b out)
unfolding cross_with
cross_with-keeps r x [] out h = h
cross_with-keeps r x (y ∷ ys) out h =
    cross_with-keeps r x ys (insert (x ++ y) out) (In-insert_other r (x ++ y) out h)

In-cross_with : (x y : Bytes) (b out : Set) → In y b → In (x ++ y) (cross_with x b out)
unfolding cross_with
In-cross_with x y [] out h = absurd h
In-cross_with x y (z ∷ ys) out (inl e) =
    rw e (cross_with-keeps (x ++ z) x ys (insert (x ++ z) out) (In-insert_self (x ++ z) out))
In-cross_with x y (z ∷ ys) out (inr h) = In-cross_with x y ys (insert (x ++ z) out) h

cross_onto-keeps : (r : Bytes) (a b out : Set) → In r out → In r (cross_onto a b out)
unfolding cross_onto
cross_onto-keeps r [] b out h = h
cross_onto-keeps r (x ∷ xs) b out h =
    cross_onto-keeps r xs b (cross_with x b out) (cross_with-keeps r x b out h)

In-cross_onto : (x y : Bytes) (a b out : Set) → In x a → In y b → In (x ++ y) (cross_onto a b out)
unfolding cross_onto
In-cross_onto x y [] b out h k = absurd h
In-cross_onto x y (z ∷ xs) b out (inl e) k =
    rw e (cross_onto-keeps (z ++ y) xs b (cross_with z b out) (In-cross_with z y b out k))
In-cross_onto x y (z ∷ xs) b out (inr h) k = In-cross_onto x y xs b (cross_with z b out) h k

pub In-cross : (x y : Bytes) (a b : Set) → In x a → In y b → In (x ++ y) (cross a b)
unfolding cross
In-cross x y a b h k = In-cross_onto x y a b [] h k

-- The document's trigrams `G` include those of the text, case-folded.
abbrev pub Covers : (ℕ → Type 0) → Bytes → Type 0
Covers G s = (k : ℕ) → HasGram k (map fold s) → G k

pub Covers-infix :
    {G : ℕ → Type 0} (pre s post : Bytes) → Covers G (pre ++ (s ++ post)) → Covers G s
Covers-infix pre s post c k h =
    c k (rw (map-append, map-append) (HasGram-infix (map fold pre) (map fold post) h))

flat→InGroups : (k : ℕ) (gs : List (List ℕ)) → In k (flat gs) → InGroups k gs
unfolding flat
flat→InGroups k [] h = h
flat→InGroups k (g ∷ gs) h = elim (In-append_cases k g (flat gs) h) [
  | inl x ↦ inl x
  | inr y ↦ inr (flat→InGroups k gs y)
]

module _ (G : ℕ → Type 0) where
  HoldsAll-gram_queries : (ks : List ℕ) → ((k : ℕ) → In k ks → G k) → HoldsAll G (gram_queries ks)
  unfolding gram_queries Holds
  HoldsAll-gram_queries [] f = tt
  HoldsAll-gram_queries (k ∷ ks) f = (f k (inl refl), HoldsAll-gram_queries ks (λ j h. f j (inr h)))

  Holds-and_of : (v : Qs) → HoldsAll G v → Holds G (and_of v)
  unfolding and_of Holds
  Holds-and_of (Qs.cons q Qs.nil) h = h.0
  Holds-and_of Qs.nil h = h
  Holds-and_of (Qs.cons q (Qs.cons r v)) h = h

  Holds-or_of : (v : Qs) → HoldsAny G v → Holds G (or_of v)
  unfolding or_of Holds
  Holds-or_of Qs.nil h = tt
  Holds-or_of (Qs.cons q Qs.nil) h = elim h [ inl a ↦ a | inr b ↦ absurd b ]
  Holds-or_of (Qs.cons q (Qs.cons r v)) h = h

  -- The query of one string holds where the string stands.
  Holds-string :
      (s : Bytes) (gs : List (List ℕ))
      → literal_keys s ≡ gs
      → Covers G s
      → Holds G (and_of (gram_queries (dedup (flat gs))))
  Holds-string s gs e c = Holds-and_of (gram_queries (dedup (flat gs))) (
      HoldsAll-gram_queries (dedup (flat gs)) λ k h.
        c k ((literal_keys_lem k s).0 (rw e (flat→InGroups k gs ((In-dedup k (flat gs)).0 h)))))

  -- `none` is the early return of `Q::All`, which always holds.
  abbrev HoldsOption : Option Qs → Type 0
  HoldsOption none = Unit
  HoldsOption (some v) = HoldsAny G v

  alternative-here :
      (s : Bytes) (gs : List (List ℕ)) (rest : Option Qs)
      → literal_keys s ≡ gs
      → Covers G s
      → HoldsOption (alternative gs rest)
  unfolding alternative HoldsAny
  alternative-here s [] rest e c = tt
  alternative-here s (g ∷ gs) none e c = tt
  alternative-here s (g ∷ gs) (some v) e c = inl (Holds-string s (g ∷ gs) e c)

  alternative-there :
      (gs : List (List ℕ)) (rest : Option Qs) → HoldsOption rest → HoldsOption (alternative gs rest)
  unfolding alternative HoldsAny
  alternative-there [] rest h = tt
  alternative-there (g ∷ gs) none h = tt
  alternative-there (g ∷ gs) (some v) h = inr h

  HoldsOption-alternatives :
      (s : Bytes) (set : Set) → In s set → Covers G s → HoldsOption (alternatives set)
  unfolding alternatives
  HoldsOption-alternatives s [] h c = absurd h
  HoldsOption-alternatives s (t ∷ ts) (inl e) c =
      alternative-here s (literal_keys t) (alternatives ts) (ap literal_keys e) c
  HoldsOption-alternatives s (t ∷ ts) (inr h) c =
      alternative-there (literal_keys t) (alternatives ts) (HoldsOption-alternatives s ts h c)

  or_of_option :
      (o : Option Qs) → HoldsOption o → Holds G (elim o [ none ↦ Q.all | some v ↦ or_of v ])
  or_of_option none h = unfold Holds in tt
  or_of_option (some v) h = Holds-or_of v h

  -- A document that holds the trigrams of one string of the set satisfies the set's query.
  pub Holds-trigrams_of :
      (s : Bytes) (set : Set) → In s set → Covers G s → Holds G (trigrams_of set)
  unfolding trigrams_of
  Holds-trigrams_of s set h c = or_of_option (alternatives set) (HoldsOption-alternatives s set h c)
