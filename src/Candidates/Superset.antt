-- ===== src/Candidates/Superset.antt =====
-- Evaluation never leaves out a file whose trigrams satisfy the query.
use greeg.Base.{
  ℕ, ◌+◌, ◌*◌, ◌≡◌, inl, inr, refl, ap₂, ◌∙◌, subst, arith, Bool, true, false, ◌&&◌, ◌||◌, Option,
  none, some, List, [], ◌∷◌, All, Bool-cases, Option-cases, ltb, leb, ◌==◌,
}
use Prim.Native.Nat.{max}
use greeg.Plan.Query.{Q, Qs, Holds, HoldsAll, HoldsAny}
use greeg.Candidates.{
  Bitmaps, insert_pair, sort_pairs, is_gram, Segment, Evaluated, posting_at, posting, narrow,
  gram_lists, Subs, after_lists, and_result, meet_lists, narrow_by, eval, eval_subs, eval_or,
}

module _ (P : ℕ × ℕ → Type 0) where
  All-insert_pair : (p : ℕ × ℕ) (l : List (ℕ × ℕ)) → P p → All P l → All P (insert_pair p l)
  unfolding insert_pair
  All-insert_pair p [] h a = (h, tt)
  All-insert_pair p (r ∷ rs) h a = elim (Bool-cases (ltb p.0 r.0 || (p.0 == r.0 && leb p.1 r.1))) [
    | inl e ↦ rw e (h, a)
    | inr e ↦ rw e (a.0, All-insert_pair p rs h a.1)
  ]

  All-sort_pairs : (l : List (ℕ × ℕ)) → All P l → All P (sort_pairs l)
  unfolding sort_pairs
  All-sort_pairs [] a = tt
  All-sort_pairs (p ∷ l) a = All-insert_pair p (sort_pairs l) a.0 (All-sort_pairs l a.1)

module _ (bitmaps : Bitmaps) where
  open bitmaps use {
    Bitmap, has, new, meet, join, is_empty, deserialize, has-new, has-meet, has-join,
  }

  -- The segment's file `n`, whose trigrams are `G`, is listed under each of them in every posting
  -- list that can be read, and among all the files.
  pub record IsListed (seg : Segment bitmaps) (G : ℕ → Type 0) (n : ℕ) : Type 0 where
    pub listed :
        (k : ℕ)
        → G k
        → (i : ℕ) × (seg.find k ≡ some i)
          × ((bm : Bitmap) → deserialize (seg.posting_bytes i) ≡ some bm → has bm n ≡ true)
    pub everywhere : has seg.all n ≡ true

  -- The file is one that the evaluation leaves; `None` leaves every file.
  abbrev pub IsCandidate : ℕ → Option Bitmap → Type 0
  IsCandidate n none = Unit
  IsCandidate n (some b) = has b n ≡ true

  module _ (seg : Segment bitmaps) (G : ℕ → Type 0) (n : ℕ) (listed : IsListed seg G n) where
    posting_at-has :
        (i : ℕ) (corrupt : Bool)
        → ((bm : Bitmap) → deserialize (seg.posting_bytes i) ≡ some bm → has bm n ≡ true)
        → has (posting_at bitmaps seg i corrupt).0.1 n ≡ true
    unfolding posting_at
    posting_at-has i corrupt h = elim (Option-cases (deserialize (seg.posting_bytes i))) [
      | inl e ↦ rw (e, posting_at) listed.everywhere
      | inr (bm, e) ↦ rw (e, posting_at) (h bm e)
    ]

    -- A trigram of the file has a posting list, and the file is in it.
    posting-has :
        (k : ℕ) (corrupt : Bool)
        → G k
        → (p : ℕ × Bitmap) × ((posting bitmaps seg k corrupt).0 ≡ some p) × (has p.1 n ≡ true)
    unfolding posting
    posting-has k corrupt g =
        let (i, e, h) = listed.listed k g in
        ((posting_at bitmaps seg i corrupt).0, rw (e, posting), posting_at-has i corrupt h)

    narrow-has :
        (acc : Option Bitmap) (bm : Bitmap)
        → IsCandidate n acc
        → has bm n ≡ true
        → has (narrow bitmaps seg acc bm) n ≡ true
    unfolding narrow
    narrow-has none bm c h = h
    narrow-has (some a) bm c h = has-meet a bm n ∙ ap₂ (λ x y. x && y) c h

    abbrev IsGrams : List (ℕ × ℕ) → Type 0
    IsGrams = All (λ (p : ℕ × ℕ). G p.1)

    gram_lists-IsGrams :
        (v : Qs)
        → HoldsAll G v
        → (l : List (ℕ × ℕ)) × (gram_lists bitmaps seg v ≡ some l) × IsGrams l
    unfolding gram_lists Holds
    gram_lists-IsGrams Qs.nil h = ([], refl, tt)
    gram_lists-IsGrams (Qs.cons (Q.gram g) v) h =
        let (l, e, a) = gram_lists-IsGrams v h.1 in
        let (i, f, x) = listed.listed g h.0 in
        ((seg.count i, g) ∷ l, rw (f, gram_lists) (rw (e, gram_lists)), (h.0, a))
    gram_lists-IsGrams (Qs.cons Q.all v) h = gram_lists-IsGrams v h.1
    gram_lists-IsGrams (Qs.cons Q.none v) h = gram_lists-IsGrams v h.1
    gram_lists-IsGrams (Qs.cons (Q.and w) v) h = gram_lists-IsGrams v h.1
    gram_lists-IsGrams (Qs.cons (Q.or w) v) h = gram_lists-IsGrams v h.1

    meet_lists-IsCandidate :
        (l : List (ℕ × ℕ)) (j : ℕ) (acc : Option Bitmap) (corrupt : Bool)
        → IsGrams l
        → IsCandidate n acc
        → IsCandidate n (meet_lists bitmaps seg l j acc corrupt).1.0
    unfolding meet_lists
    meet_lists-IsCandidate [] j acc corrupt g c = c
    meet_lists-IsCandidate ((count, key) ∷ rest) j acc corrupt g c =
        let (p, e, h) = posting-has key corrupt g.0 in
        let kept = narrow-has acc p.1 c h in
        elim (Bool-cases (leb 6 j || (ltb 0 j && ltb (max seg.n_files 1) (count * 2)))) [
          | inl t ↦ rw t c
          | inr t ↦ rw t (
              rw e (elim (Bool-cases (is_empty (narrow bitmaps seg acc p.1))) [
                | inl z ↦ rw z kept
                | inr z ↦ rw z (
                    meet_lists-IsCandidate rest (j + 1) (some (narrow bitmaps seg acc p.1))
                      (posting bitmaps seg key corrupt).1 g.1 kept)
              ]))
        ]

    IsCandidate-narrow_by :
        (acc o : Option Bitmap)
        → IsCandidate n acc
        → IsCandidate n o
        → IsCandidate n (narrow_by bitmaps seg acc o)
    IsCandidate-narrow_by acc none c h = c
    IsCandidate-narrow_by acc (some bm) c h = narrow-has acc bm c h

    join_left : (a b : Bitmap) → has a n ≡ true → has (join a b) n ≡ true
    join_left a b h = has-join a b n ∙ (rw h)

    join_right : (a b : Bitmap) → has b n ≡ true → has (join a b) n ≡ true
    join_right a b h = has-join a b n ∙ or_true (has a n) h
      where
        or_true : (x : Bool) {y : Bool} → y ≡ true → (x || y) ≡ true
        or_true x e = ground arith

    eval_or-keeps :
        (v : Qs) (acc : Bitmap) (corrupt : Bool)
        → has acc n ≡ true
        → IsCandidate n (eval_or bitmaps seg v acc corrupt).0
    unfolding eval
    eval_or-keeps Qs.nil acc corrupt h = h
    eval_or-keeps (Qs.cons q v) acc corrupt h = elim (Option-cases (eval bitmaps seg q corrupt).0) [
      | inl e ↦ rw e tt
      | inr (bm, e) ↦ rw e (eval_or-keeps v (join acc bm) _ (join_left acc bm h))
    ]

    after_lists-IsCandidate :
        (r : Bool × Evaluated bitmaps) (subs : Subs bitmaps seg)
        → IsCandidate n r.1.0
        → ((acc : Option Bitmap) (c : Bool) → IsCandidate n acc → IsCandidate n (subs acc c).0)
        → IsCandidate n (after_lists bitmaps seg r subs).0
    unfolding after_lists
    after_lists-IsCandidate (true, r) subs k f = k
    after_lists-IsCandidate (false, (acc, c)) subs k f = f acc c k

    and_result-IsCandidate :
        (o : Option (List (ℕ × ℕ))) (l : List (ℕ × ℕ))
        → o ≡ some l
        → IsGrams l
        → (subs : Subs bitmaps seg) (corrupt : Bool)
        → ((acc : Option Bitmap) (c : Bool) → IsCandidate n acc → IsCandidate n (subs acc c).0)
        → IsCandidate n (and_result bitmaps seg o subs corrupt).0
    and_result-IsCandidate o l e a subs corrupt f = rw e (
        unfold and_result in
        after_lists-IsCandidate _ subs
          (meet_lists-IsCandidate (sort_pairs l) 0 none corrupt (All-sort_pairs _ l a) tt) f)

    mutual
      unfolding eval Holds

      eval-IsCandidate :
          (q : Q) (corrupt : Bool) → Holds G q → IsCandidate n (eval bitmaps seg q corrupt).0
      eval-IsCandidate Q.all corrupt h = tt
      eval-IsCandidate Q.none corrupt h = absurd h
      eval-IsCandidate (Q.gram g) corrupt h = let (p, e, x) = posting-has g corrupt h in rw e x
      eval-IsCandidate (Q.and v) corrupt h =
          let (l, e, a) = gram_lists-IsGrams v h in
          and_result-IsCandidate (gram_lists bitmaps seg v) l e a (eval_subs bitmaps seg v) corrupt
            (λ acc c k. eval_subs-IsCandidate v acc c h k)
      eval-IsCandidate (Q.or v) corrupt h = eval_or-IsCandidate v new corrupt h

      eval_subs-IsCandidate :
          (v : Qs) (acc : Option Bitmap) (corrupt : Bool)
          → HoldsAll G v
          → IsCandidate n acc
          → IsCandidate n (eval_subs bitmaps seg v acc corrupt).0
      eval_subs-IsCandidate Qs.nil acc corrupt h c = c
      eval_subs-IsCandidate (Qs.cons q v) acc corrupt h c = elim (Bool-cases (is_gram q)) [
        | inl t ↦ rw (t, eval_subs) (eval_subs-IsCandidate v acc corrupt h.1 c)
        | inr t ↦
            rw (t, eval_subs)
              (eval_subs-IsCandidate v _ _ h.1 (
                IsCandidate-narrow_by acc (eval bitmaps seg q corrupt).0 c
                  (eval-IsCandidate q corrupt h.0)))
      ]

      eval_or-IsCandidate :
          (v : Qs) (acc : Bitmap) (corrupt : Bool)
          → HoldsAny G v
          → IsCandidate n (eval_or bitmaps seg v acc corrupt).0
      eval_or-IsCandidate Qs.nil acc corrupt h = absurd h
      eval_or-IsCandidate (Qs.cons q v) acc corrupt (inl h) =
          let got = eval-IsCandidate q corrupt h in
          elim (Option-cases (eval bitmaps seg q corrupt).0) [
            | inl e ↦ rw (e, eval_or) tt
            | inr (bm, e) ↦
                rw (e, eval_or)
                  (eval_or-keeps v (join acc bm) _
                    (join_right acc bm (subst (IsCandidate n) e got)))
          ]
      eval_or-IsCandidate (Qs.cons q v) acc corrupt (inr h) =
          elim (Option-cases (eval bitmaps seg q corrupt).0) [
            | inl e ↦ rw (e, eval_or) tt
            | inr (bm, e) ↦ rw (e, eval_or) (eval_or-IsCandidate v (join acc bm) _ h)
          ]

    -- A file whose trigrams satisfy the query is among the candidates that `eval` leaves.
    pub eval_superset :
        (q : Q) (corrupt : Bool) → Holds G q → IsCandidate n (eval bitmaps seg q corrupt).0
    eval_superset q corrupt h = eval-IsCandidate q corrupt h
