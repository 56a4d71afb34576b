-- ===== src/Plan/Analyze/Sound.antt =====
-- `analyze` promises of every match what `Fits` says.
use greeg.Base.{
  ℕ, zero, suc, ◌≡◌, inl, inr, refl, sym, ap, ◌∙◌, subst, arith, ◌≤◌, Bool, true, false, Option,
  none, some, [], ◌∷◌, ◌++◌, map, map-append, append-nil, append_assoc, Bytes, length, In,
  Bool-cases, leb, ◌==◌, ==_iff,
}
use greeg.Gram.{fold}
use greeg.Plan.Query.{Holds}
use greeg.Plan.Sets.{Set, from_list, empty_str}
use greeg.Plan.Sets.Laws.{In-from_list, In-one}
use greeg.Plan.Hir.{
  Class, Hir, Hirs, ClassHas, unicode, bytes, encode_utf8, AtMost, Matches, empty, look, literal,
  class, repetition, capture, concat, first, later, Copies, stop, copy, Sequence, end, step, Branch,
  this, next,
}
use greeg.Plan.Analyze
use greeg.Plan.Analyze.{
  Info, unknown, exactly, is_nil, class_members, class_info, repeat_info, analyze, analyze_concat,
  analyze_alternation, alternate,
}
use greeg.Plan.Analyze.Facts.{
  Fits, simplify-Fits, concat-Fits, alternate-Fits_left, alternate-Fits_right, Covers-left,
  append-eq-nil,
}
use greeg.Plan.Analyze.Edges.{Starts-empty, Ends-empty}
use greeg.Plan.Analyze.Classes.{class_members_lem}

module _ (G : ℕ → Type 0) where
  unknown-Fits : (e : Bool) (m : Bytes) → (m ≡ [] → e ≡ true) → Fits G (unknown e) m
  unfolding Holds
  unknown-Fits e m h = record {
    exactly = tt;
    starts = Starts-empty m;
    ends = Ends-empty m;
    query = λ c. tt;
    empty = h;
  }

  exactly-Fits :
      (e : Bool) (set : Set) (m : Bytes) → In m set → (m ≡ [] → e ≡ true) → Fits G (exactly e set) m
  unfolding Holds
  exactly-Fits e set m i h = record {
    exactly = i;
    starts = (m, i, ([], sym (append-nil m)));
    ends = (m, i, ([], refl));
    query = λ c. tt;
    empty = h;
  }

  empty-Fits : Fits G (exactly true empty_str) []
  empty-Fits = exactly-Fits true empty_str [] (inl refl) (λ e. refl)

  is_nil_lem : (m : Bytes) → m ≡ [] → is_nil m ≡ true
  unfolding is_nil
  is_nil_lem [] e = refl
  is_nil_lem (x ∷ m) e = cc

  encode_utf8-ne-nil : (cp : ℕ) → map fold (encode_utf8 cp) ≡ [] → ⊥
  unfolding encode_utf8
  encode_utf8-ne-nil cp e = ground arith

  ClassHas-ne-nil : {c : Class} {bs : Bytes} → ClassHas c bs → map fold bs ≡ [] → ⊥
  ClassHas-ne-nil (unicode cp ok i) e = encode_utf8-ne-nil cp e
  ClassHas-ne-nil (bytes b i) e = cc

  class_info-Fits :
      (o : Option Set) (m : Bytes)
      → ((ms : Set) → o ≡ some ms → In m ms)
      → (m ≡ [] → ⊥)
      → Fits G (class_info o) m
  unfolding class_info
  class_info-Fits none m h n = unknown-Fits false m (λ e. absurd (n e))
  class_info-Fits (some []) m h n = unknown-Fits false m (λ e. absurd (n e))
  class_info-Fits (some (s ∷ ss)) m h n = elim (Bool-cases (leb (length (s ∷ ss)) 8)) [
    | inl e ↦ rw e (
        exactly-Fits false (from_list (s ∷ ss)) m (In-from_list m (s ∷ ss) (h (s ∷ ss) refl))
          (λ e. absurd (n e)))
    | inr e ↦ rw e (unknown-Fits false m (λ e. absurd (n e)))
  ]

  -- One or more copies: the first starts the text, the last ends it, and any of them will do for
  -- the query.
  inexact : Info → Info
  inexact i = record i { exact = none }

  inexact-Fits : (i : Info) (m : Bytes) → Fits G i m → Fits G (inexact i) m
  unfolding inexact
  inexact-Fits i m f = record {
    exactly = tt;
    starts = f.starts;
    ends = f.ends;
    query = f.query;
    empty = f.empty;
  }

  inexact-Fits_append :
      (i : Info) (m n : Bytes) → Fits G i m → Fits G (inexact i) n → Fits G (inexact i) (m ++ n)
  unfolding inexact
  inexact-Fits_append i m n f g =
      let (p, j, (r, e)) = f.starts in
      let (s, k, (t, d)) = g.ends in
      record {
        exactly = tt;
        starts = (p, j, (r ++ n, ap (λ x. x ++ n) e ∙ append_assoc p r n));
        ends = (s, k, (m ++ t, ap (λ x. m ++ x) d ∙ sym (append_assoc m t s)));
        query = λ c. f.query (Covers-left G m n c);
        empty = λ z. f.empty (append-eq-nil G m n z).0;
      }

  repeat_info_once :
      (i : Info) (m : Bytes) (min : ℕ) (max : Option ℕ)
      → 1 ≤ min
      → Fits G (inexact i) m
      → (max ≡ some 1 → Fits G i m)
      → Fits G (repeat_info min max i) m
  unfolding repeat_info inexact
  repeat_info_once i m zero max l f g = absurd (omega arith)
  repeat_info_once i m (suc zero) none l f g = f
  repeat_info_once i m (suc zero) (some k) l f g = elim (Bool-cases (k == 1)) [
    | inl e ↦ rw e (g (ap some ((==_iff k 1).0 e)))
    | inr e ↦ rw e f
  ]
  repeat_info_once i m (suc (suc n)) max l f g = f

  alternation_keeps :
      (hs : Hirs) (acc : Info) (m : Bytes) → Fits G acc m → Fits G (analyze_alternation hs acc) m
  unfolding analyze
  alternation_keeps Hirs.nil acc m f = f
  alternation_keeps (Hirs.cons h hs) acc m f =
      alternation_keeps hs (alternate acc (analyze h)) m (alternate-Fits_left G acc (analyze h) m f)

  -- What `n` copies give: nothing, one match, or more.
  CopiesFit : Info → ℕ → Bytes → Type 0
  CopiesFit i zero m = m ≡ []
  CopiesFit i (suc zero) m = Fits G i m
  CopiesFit i (suc (suc n)) m = Fits G (inexact i) m

  CopiesFit-inexact : (i : Info) (n : ℕ) (m : Bytes) → CopiesFit i (suc n) m → Fits G (inexact i) m
  unfolding CopiesFit
  CopiesFit-inexact i zero m f = inexact-Fits i m f
  CopiesFit-inexact i (suc n) m f = f

  copy-CopiesFit :
      (i : Info) (n : ℕ) (xs ys : Bytes)
      → Fits G i (map fold xs)
      → CopiesFit i n (map fold ys)
      → CopiesFit i (suc n) (map fold (xs ++ ys))
  unfolding CopiesFit
  copy-CopiesFit i zero xs ys f g = rw map-append (rw g (rw append-nil f))
  copy-CopiesFit i (suc n) xs ys f g =
      rw map-append (
        inexact-Fits_append i (map fold xs) (map fold ys) f (CopiesFit-inexact i n (map fold ys) g))

  repeat-Fits :
      (min : ℕ) (max : Option ℕ) (h : Hir) (n : ℕ) (m : Bytes)
      → min ≤ n
      → AtMost n max
      → CopiesFit (analyze h) n m
      → Fits G (repeat_info min max (analyze h)) m
  unfolding repeat_info CopiesFit
  repeat-Fits zero max h n m l u c = unknown-Fits true m (λ e. refl)
  repeat-Fits (suc k) max h zero m l u c = absurd (omega arith)
  repeat-Fits (suc k) max h (suc zero) m l u c =
      repeat_info_once (analyze h) m (suc k) max (omega arith) (inexact-Fits (analyze h) m c)
        (λ e. c)
  repeat-Fits (suc k) max h (suc (suc n)) m l u c =
      repeat_info_once (analyze h) m (suc k) max (omega arith) c
        (λ e. absurd (too_many (subst (AtMost (suc (suc n))) e u)))
    where
      too_many : suc (suc n) ≤ 1 → ⊥
      too_many p = omega arith

  mutual
    unfolding analyze CopiesFit

    pub analyze-Fits : {h : Hir} {bs : Bytes} → Matches h bs → Fits G (analyze h) (map fold bs)
    analyze-Fits empty = simplify-Fits G _ [] empty-Fits
    analyze-Fits (look l) = simplify-Fits G _ [] empty-Fits
    analyze-Fits (literal bs) =
        simplify-Fits G _ (map fold bs)
          (exactly-Fits _ _ (map fold bs) (In-one (map fold bs)) (is_nil_lem (map fold bs)))
    analyze-Fits (class {c} {bs} h) = simplify-Fits G _ (map fold bs) (
        class_info-Fits (class_members c) (map fold bs) (λ ms e. class_members_lem c bs ms h e)
          (ClassHas-ne-nil h))
    analyze-Fits (repetition {min} {max} {h} {bs} n l u c) =
        simplify-Fits G _ (map fold bs) (repeat-Fits min max h n (map fold bs) l u (Copies-Fits c))
    analyze-Fits (capture {h} {bs} m) = simplify-Fits G _ (map fold bs) (analyze-Fits m)
    analyze-Fits (concat {hs} {bs} s) =
        simplify-Fits G _ (map fold bs) (Sequence-Fits s (exactly true empty_str) [] empty-Fits)
    analyze-Fits (first {h} {hs} {bs} m) =
        simplify-Fits G _ (map fold bs)
          (alternation_keeps hs (analyze h) (map fold bs) (analyze-Fits m))
    analyze-Fits (later {h} {hs} {bs} b) =
        simplify-Fits G _ (map fold bs) (Branch-Fits b (analyze h))

    -- a match of exactly one copy is a match of the expression
    Copies-Fits :
        {h : Hir} {n : ℕ} {bs : Bytes} → Copies h n bs → CopiesFit (analyze h) n (map fold bs)
    Copies-Fits stop = refl
    Copies-Fits (copy {h} {n} {xs} {ys} m c) =
        copy-CopiesFit (analyze h) n xs ys (analyze-Fits m) (Copies-Fits c)

    Sequence-Fits :
        {hs : Hirs} {bs : Bytes}
        → Sequence hs bs
        → (acc : Info) (m : Bytes) → Fits G acc m
        → Fits G (analyze_concat hs acc) (m ++ map fold bs)
    Sequence-Fits end acc m f = rw append-nil f
    Sequence-Fits (step {h} {hs} {xs} {ys} x s) acc m f =
        rw (map-append, ← append_assoc)
          (Sequence-Fits s (Analyze.concat acc (analyze h)) (m ++ map fold xs)
            (concat-Fits G acc (analyze h) m (map fold xs) f (analyze-Fits x)))

    Branch-Fits :
        {hs : Hirs} {bs : Bytes}
        → Branch hs bs
        → (acc : Info) → Fits G (analyze_alternation hs acc) (map fold bs)
    Branch-Fits (this {h} {hs} {bs} m) acc =
        alternation_keeps hs (alternate acc (analyze h)) (map fold bs)
          (alternate-Fits_right G acc (analyze h) (map fold bs) (analyze-Fits m))
    Branch-Fits (next {h} {hs} {bs} b) acc = Branch-Fits b (alternate acc (analyze h))
