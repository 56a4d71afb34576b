-- ===== src/Plan/Analyze/Facts.antt =====
-- What an `Info` promises of a match, and that `simplify`, `concat` and `alternate` keep it.
use greeg.Base.{
  ℕ, ◌≡◌, ◌⊎◌, inl, inr, refl, sym, ap, ap₂, ◌∙◌, subst, arith, Bool, true, false, ◌&&◌, ◌||◌,
  Option, none, some, [], ◌∷◌, ◌++◌, append_assoc, append-nil, Bytes, length, In, Bool-cases, ltb,
  if◌then◌else◌,
}
use greeg.Plan.Query.{Q, Holds, both, both_iff, either, either_iff}
use greeg.Plan.Sets.{max_set, max_str, Set, cross, trim_prefixes, trim_suffixes, trigrams_of}
use greeg.Plan.Sets.Laws.{
  In-union_left, In-union_right, In-cross, Covers, Covers-infix, Holds-trigrams_of,
}
use greeg.Plan.Analyze.{
  Info, too_big, fold_exact, simplify, cross_exact, is_none, concat_info, concat, with_exact,
  union_exact, alternate,
}
use greeg.Plan.Analyze.Edges.{
  Starts, Ends, Exactly, Starts-map, Ends-map, Starts-shrink, Ends-shrink,
}

-- What the analysis of an expression says of its match `m` (case-folded) in a document whose
-- trigrams are `G`.
pub record Fits (G : ℕ → Type 0) (i : Info) (m : Bytes) : Type 0 where
  pub exactly : Exactly i.exact m
  pub starts : Starts i.prefix m
  pub ends : Ends i.suffix m
  pub query : Covers G m → Holds G i.q
  pub empty : m ≡ [] → i.emptyable ≡ true

module _ (G : ℕ → Type 0) where
  fold_exact-Fits :
      (i : Info) (o : Option Set) (m : Bytes) → i.exact ≡ o → Fits G i m → Fits G (fold_exact o i) m
  unfolding fold_exact
  fold_exact-Fits i none m e f = f
  fold_exact-Fits i (some ex) m e f = elim (Bool-cases (too_big ex)) [
    | inl b ↦ rw b (record {
      exactly = tt;
      starts =
          Starts-map 3 (trim_prefixes ex) m (unfold trim_prefixes in Starts-map max_str ex m start);
      ends = Ends-map 3 (trim_suffixes ex) m (unfold trim_suffixes in Ends-map max_str ex m end);
      query = λ c. (both_iff G i.q (trigrams_of ex)).1 (f.query c, Holds-trigrams_of G m ex here c);
      empty = f.empty;
    })
    | inr b ↦ rw b f
  ]
    where
      here : In m ex
      here = subst (λ x. Exactly x m) e f.exactly

      start : Starts ex m
      start = (m, here, ([], sym (append-nil m)))

      end : Ends ex m
      end = (m, here, ([], refl))

  pub simplify-Fits : (i : Info) (m : Bytes) → Fits G i m → Fits G (simplify i) m
  unfolding simplify
  simplify-Fits i m f =
      let g = fold_exact-Fits i i.exact m refl f in
      record {
        exactly = g.exactly;
        starts = Starts-shrink 2 (fold_exact i.exact i).prefix m g.starts;
        ends = Ends-shrink 2 (fold_exact i.exact i).suffix m g.ends;
        query = g.query;
        empty = g.empty;
      }

  -- A string that starts the first part starts the whole; one that is the first part goes on.
  Starts-concat :
      (a b : Info) (m n : Bytes) (o : Option Set)
      → Exactly o m
      → Starts a.prefix m
      → Starts b.prefix n
      → Starts (elim o [ none ↦ a.prefix | some x ↦ cross x b.prefix ]) (m ++ n)
  Starts-concat a b m n none x (p, i, (r, e)) s =
      (p, i, (r ++ n, ap (λ t. t ++ n) e ∙ append_assoc p r n))
  Starts-concat a b m n (some set) x s (p, i, (r, e)) =
      (m ++ p, In-cross m p set b.prefix x i, (r, ap (λ t. m ++ t) e ∙ sym (append_assoc m p r)))

  Ends-concat :
      (a b : Info) (m n : Bytes) (o : Option Set)
      → Exactly o n
      → Ends a.suffix m
      → Ends b.suffix n
      → Ends (elim o [ none ↦ b.suffix | some y ↦ cross a.suffix y ]) (m ++ n)
  Ends-concat a b m n none x s (p, i, (r, e)) =
      (p, i, (m ++ r, ap (λ t. m ++ t) e ∙ sym (append_assoc m r p)))
  Ends-concat a b m n (some set) x (p, i, (r, e)) s =
      (p ++ n, In-cross p n a.suffix set i x, (r, ap (λ t. t ++ n) e ∙ append_assoc r p n))

  Exactly-cross :
      (x y : Option Set) (m n : Bytes)
      → Exactly x m
      → Exactly y n
      → Exactly (cross_exact x y) (m ++ n)
  unfolding cross_exact
  Exactly-cross (some x) (some y) m n h k = In-cross m n x y h k
  Exactly-cross (some x) none m n h k = tt
  Exactly-cross none y m n h k = tt

  pub Covers-left : (m n : Bytes) → Covers G (m ++ n) → Covers G m
  Covers-left m n c = Covers-infix [] m n c

  pub Covers-right : (m n : Bytes) → Covers G (m ++ n) → Covers G n
  Covers-right m n c = Covers-infix m n [] (rw append-nil c)

  -- A string that ends the first part and one that starts the second meet at the boundary.
  Holds-boundary :
      (a b : Info) (m n : Bytes)
      → Ends a.suffix m
      → Starts b.prefix n
      → Covers G (m ++ n)
      → Holds G (trigrams_of (cross a.suffix b.prefix))
  Holds-boundary a b m n (s, i, (r, e)) (p, j, (t, f)) c =
      Holds-trigrams_of G (s ++ p) (cross a.suffix b.prefix) (In-cross s p a.suffix b.prefix i j)
        (Covers-infix r (s ++ p) t (subst (Covers G) (ap₂ (λ x y. x ++ y) e f ∙ regroup) c))
    where
      regroup : (r ++ s) ++ (p ++ t) ≡ r ++ ((s ++ p) ++ t)
      regroup = append_assoc r s (p ++ t) ∙ ap (λ x. r ++ x) (sym (append_assoc s p t))

  pub append-eq-nil : (m n : Bytes) → m ++ n ≡ [] → (m ≡ []) × (n ≡ [])
  append-eq-nil [] n e = (refl, e)
  append-eq-nil (x ∷ m) n e = absurd (cc e)

  concat_info-Fits :
      (a b : Info) (m n : Bytes) → Fits G a m → Fits G b n → Fits G (concat_info a b) (m ++ n)
  unfolding concat_info
  concat_info-Fits a b m n f g = record {
    exactly = Exactly-cross a.exact b.exact m n f.exactly g.exactly;
    starts = Starts-concat a b m n a.exact f.exactly f.starts g.starts;
    ends = Ends-concat a b m n b.exact g.exactly f.ends g.ends;
    query = λ c. query (is_none (cross_exact a.exact b.exact)) c;
    empty = λ e. let (x, y) = append-eq-nil m n e in both_true (f.empty x) (g.empty y);
  }
    where
      both_true : {x y : Bool} → x ≡ true → y ≡ true → (x && y) ≡ true
      both_true p q = ground arith

      parts : Covers G (m ++ n) → Holds G (both a.q b.q)
      parts c = (both_iff G a.q b.q).1 (f.query (Covers-left m n c), g.query (Covers-right m n c))

      query :
          (z : Bool)
          → Covers G (m ++ n)
          → Holds G (
              if z
              then both (both a.q b.q) (trigrams_of (cross a.suffix b.prefix))
              else both a.q b.q)
      query true c =
          (both_iff G (both a.q b.q) (trigrams_of (cross a.suffix b.prefix))).1
            (parts c, Holds-boundary a b m n f.ends g.starts c)
      query false c = parts c

  pub concat-Fits :
      (a b : Info) (m n : Bytes) → Fits G a m → Fits G b n → Fits G (concat a b) (m ++ n)
  unfolding concat
  concat-Fits a b m n f g = go (concat_info a b).exact
    where
      out : Info
      out = concat_info a b

      h : Fits G out (m ++ n)
      h = concat_info-Fits a b m n f g

      once : Fits G (simplify out) (m ++ n)
      once = simplify-Fits out (m ++ n) h

      go :
          (o : Option Set)
          → Fits G
              (elim o [
                | none ↦ simplify out
                | some ex ↦
                    if ltb max_set (length ex) then simplify (simplify out) else simplify out
              ])
              (m ++ n)
      go none = once
      go (some ex) = elim (Bool-cases (ltb max_set (length ex))) [
        | inl e ↦ rw e (simplify-Fits (simplify out) (m ++ n) once)
        | inr e ↦ rw e once
      ]

  Holds-with_exact : (i : Info) (m : Bytes) → Fits G i m → Covers G m → Holds G (with_exact i)
  unfolding with_exact
  Holds-with_exact i m f c = (both_iff G i.q _).1 (f.query c, go i.exact f.exactly)
    where
      go :
          (o : Option Set)
          → Exactly o m
          → Holds G (elim o [ none ↦ Q.all | some x ↦ trigrams_of x ])
      go none x = unfold Holds in tt
      go (some set) x = Holds-trigrams_of G m set x c

  Exactly-union_left : (x y : Option Set) (m : Bytes) → Exactly x m → Exactly (union_exact x y) m
  unfolding union_exact
  Exactly-union_left (some x) (some y) m h = In-union_left m x y h
  Exactly-union_left (some x) none m h = tt
  Exactly-union_left none y m h = tt

  Exactly-union_right : (x y : Option Set) (m : Bytes) → Exactly y m → Exactly (union_exact x y) m
  unfolding union_exact
  Exactly-union_right (some x) (some y) m h = In-union_right m x y h
  Exactly-union_right (some x) none m h = tt
  Exactly-union_right none y m h = tt

  -- The query of `alternate` holds for a match of either side.
  alternate_query :
      (z : Bool) (p q : Q) → Holds G p ⊎ Holds G q → Holds G (if z then either p q else Q.all)
  alternate_query true p q h = (either_iff G p q).1 h
  alternate_query false p q h = unfold Holds in tt

  or_true_left : (x y : Bool) → x ≡ true → (x || y) ≡ true
  or_true_left x y p = ground arith

  or_true_right : (x y : Bool) → y ≡ true → (x || y) ≡ true
  or_true_right x y p = ground arith

  pub alternate-Fits_left : (a b : Info) (m : Bytes) → Fits G a m → Fits G (alternate a b) m
  unfolding alternate
  alternate-Fits_left a b m f =
      let (p, i, r) = f.starts in
      let (s, j, t) = f.ends in
      simplify-Fits _ m (record {
        exactly = Exactly-union_left a.exact b.exact m f.exactly;
        starts = (p, In-union_left p a.prefix b.prefix i, r);
        ends = (s, In-union_left s a.suffix b.suffix j, t);
        query = λ c. alternate_query _ _ _ (inl (Holds-with_exact a m f c));
        empty = λ e. or_true_left _ _ (f.empty e);
      })

  pub alternate-Fits_right : (a b : Info) (m : Bytes) → Fits G b m → Fits G (alternate a b) m
  unfolding alternate
  alternate-Fits_right a b m f =
      let (p, i, r) = f.starts in
      let (s, j, t) = f.ends in
      simplify-Fits _ m (record {
        exactly = Exactly-union_right a.exact b.exact m f.exactly;
        starts = (p, In-union_right p a.prefix b.prefix i, r);
        ends = (s, In-union_right s a.suffix b.suffix j, t);
        query = λ c. alternate_query _ _ _ (inr (Holds-with_exact b m f c));
        empty = λ e. or_true_right _ _ (f.empty e);
      })
