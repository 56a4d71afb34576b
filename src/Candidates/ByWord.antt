-- ===== src/Candidates/ByWord.antt =====
-- Evaluation by words never leaves out a file that holds one of them.
use greeg.Base.{
  ℕ, ◌≡◌, inl, inr, refl, sym, ap, ◌∙◌, Bool, true, false, ◌||◌, Option, some, List, [], ◌∷◌, Bytes,
  In, Option-cases,
}
use greeg.Candidates.{Bitmaps, Segment, eval_words_loop, eval_words}
use greeg.Candidates.Superset.{IsCandidate}

or_true : (b : Bool) → (b || true) ≡ true
or_true true = refl
or_true false = refl

module _ (bitmaps : Bitmaps) (seg : Segment bitmaps) (n : ℕ) where
  open bitmaps use {Bitmap, has, new, join, deserialize, has-join}

  -- File `n` is listed under the word, in a posting list that can be read, and among all files.
  pub record IsListedUnder (find : Bytes → Option ℕ) (w : Bytes) : Type 0 where
    pub position : ℕ
    pub found : find w ≡ some position
    pub listed : (bm : Bitmap) → deserialize (seg.word_bytes position) ≡ some bm → has bm n ≡ true
    pub everywhere : has seg.all n ≡ true

  eval_words_loop-keeps :
      (find : Bytes → Option ℕ) (alts : List Bytes) (acc : Bitmap) (corrupt : Bool)
      → has seg.all n ≡ true
      → has acc n ≡ true
      → has (eval_words_loop bitmaps seg find alts acc corrupt).0 n ≡ true
  unfolding eval_words_loop
  eval_words_loop-keeps find [] acc corrupt a h = h
  eval_words_loop-keeps find (v ∷ alts) acc corrupt a h = elim (Option-cases (find v)) [
    | inl e ↦ rw (e, eval_words_loop) (eval_words_loop-keeps find alts acc corrupt a h)
    | inr (i, e) ↦ elim (Option-cases (deserialize (seg.word_bytes i))) [
      | inl d ↦ rw (e, eval_words_loop, d, eval_words_loop) a
      | inr (bm, d) ↦
          rw (e, eval_words_loop, d, eval_words_loop)
            (eval_words_loop-keeps find alts (join acc bm) corrupt a
              (has-join acc bm n ∙ ap (λ b. b || has bm n) h))
    ]
  ]

  eval_words_loop-has :
      (find : Bytes → Option ℕ) (alts : List Bytes) (w : Bytes) (acc : Bitmap) (corrupt : Bool)
      → In w alts
      → IsListedUnder find w
      → has (eval_words_loop bitmaps seg find alts acc corrupt).0 n ≡ true
  unfolding eval_words_loop
  eval_words_loop-has find [] w acc corrupt m l = absurd m
  eval_words_loop-has find (v ∷ alts) w acc corrupt (inl k) l =
      let e = ap find (sym k) ∙ l.found in
      elim (Option-cases (deserialize (seg.word_bytes l.position))) [
        | inl d ↦ rw (e, eval_words_loop, d, eval_words_loop) l.everywhere
        | inr (bm, d) ↦
            rw (e, eval_words_loop, d, eval_words_loop)
              (eval_words_loop-keeps find alts (join acc bm) corrupt l.everywhere (
                has-join acc bm n ∙ ap (λ b. has acc n || b) (l.listed bm d) ∙ or_true (has acc n)))
      ]
  eval_words_loop-has find (v ∷ alts) w acc corrupt (inr m) l = elim (Option-cases (find v)) [
    | inl e ↦ rw (e, eval_words_loop) (eval_words_loop-has find alts w acc corrupt m l)
    | inr (i, e) ↦ elim (Option-cases (deserialize (seg.word_bytes i))) [
      | inl d ↦ rw (e, eval_words_loop, d, eval_words_loop) l.everywhere
      | inr (bm, d) ↦
          rw (e, eval_words_loop, d, eval_words_loop)
            (eval_words_loop-has find alts w (join acc bm) corrupt m l)
    ]
  ]

  -- A file that is listed under one of the words asked for is a candidate, in a segment with a word
  -- section or without.
  pub eval_words_superset :
      (alts : List Bytes) (w : Bytes) (corrupt : Bool)
      → In w alts
      → ((find : Bytes → Option ℕ) → seg.find_word ≡ some find → IsListedUnder find w)
      → IsCandidate bitmaps n (eval_words bitmaps seg alts corrupt).0
  unfolding eval_words
  eval_words_superset alts w corrupt m l = elim (Option-cases seg.find_word) [
    | inl e ↦ rw (e, eval_words) tt
    | inr (find, e) ↦ rw (e, eval_words) (eval_words_loop-has find alts w new corrupt m (l find e))
  ]
