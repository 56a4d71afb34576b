-- ===== src/Plan/Planner.antt =====
-- `plan` of crates/greeg-index/src/plan.rs, and why the candidates it selects miss no match.
-- regex-syntax is a parameter: `escape` is `regex_syntax::escape`, and `parse casei pattern` the
-- parser built with `case_insensitive(casei)`, with `none` for its error.
use greeg.Base.{
  ℕ, ◌≡◌, refl, subst, arith, Bool, Option, none, some, [], ◌∷◌, ◌++◌, map, map-append, Bytes, In,
  if◌then◌else◌,
}
use greeg.Gram.{fold, fold_buf, Dedup, extract}
use greeg.Gram.Windows.{HasGram}
use greeg.Gram.Extract.{IsClean, extract_lem}
use greeg.Plan.Query.{Q, Holds, both, both_iff}
use greeg.Plan.Sets.{Set, trigrams_of}
use greeg.Plan.Sets.Laws.{Covers, Covers-infix, Holds-trigrams_of}
use greeg.Plan.Hir.{Hir, Matches}
use greeg.Plan.Analyze.{analyze}
use greeg.Plan.Analyze.Edges.{Exactly}
use greeg.Plan.Analyze.Sound.{analyze-Fits}
use greeg.Plan.Flatten.{flatten}
use greeg.Plan.Flatten.Laws.{flatten_iff}

-- `and(q, trigrams_of(ex))` if the exact set is known.
with_known : Q → Option Set → Q
with_known q none = q
with_known q (some ex) = both q (trigrams_of ex)

-- What `plan` does with the parsed expression.
unfoldable pub plan_hir : Hir → Q
unfolding with_known
plan_hir h = flatten (with_known (analyze h).q (analyze h).exact)

module _ (escape : Bytes → Bytes) (parse : Bool → Bytes → Option Hir) where
  unfoldable pub plan : Bytes → Bool → Bool → Option Q
  unfolding plan_hir
  plan pattern fixed casei = elim (parse casei (if fixed then escape pattern else pattern)) [
    | none ↦ none
    | some h ↦ some (plan_hir h)
  ]

module _ (G : ℕ → Type 0) where
  Holds-with_known :
      (q : Q) (o : Option Set) (m : Bytes)
      → Holds G q
      → Exactly o m
      → Covers G m
      → Holds G (with_known q o)
  unfolding with_known
  Holds-with_known q none m h x c = h
  Holds-with_known q (some ex) m h x c =
      (both_iff G q (trigrams_of ex)).1 (h, Holds-trigrams_of G m ex x c)

  Holds-plan_hir :
      (h : Hir) (m : Bytes) → Matches h m → Covers G (map fold m) → Holds G (plan_hir h)
  unfolding plan_hir
  Holds-plan_hir h m x c =
      let f = analyze-Fits G x in
      (flatten_iff G _).1
        (Holds-with_known (analyze h).q (analyze h).exact (map fold m) (f.query c) f.exactly c)

fold-fold : (b : ℕ) → fold (fold b) ≡ fold b
unfolding fold
fold-fold b = ground arith

map-fold-fold : (bs : Bytes) → map fold (map fold bs) ≡ map fold bs
map-fold-fold [] = refl
map-fold-fold (b ∷ bs) = rw (fold-fold b, map-fold-fold bs)

-- The trigrams extracted from a document cover every part of its folded text.
extract-Covers :
    (d : Dedup) (pre m post : Bytes)
    → IsClean d
    → Covers (λ k. In k (extract d (fold_buf (pre ++ (m ++ post)))).1) (map fold m)
extract-Covers d pre m post c =
    Covers-infix {G = λ k. In k (extract d (fold_buf (pre ++ (m ++ post)))).1} (map fold pre)
      (map fold m) (map fold post)
      λ k h. ((extract_lem d (fold_buf (pre ++ (m ++ post))) c).1 k).1 (subst (HasGram k) text h)
  where
    text : map fold (map fold pre ++ (map fold m ++ map fold post)) ≡ fold_buf (pre ++ (m ++ post))
    text = unfold fold_buf in rw (← map-append, ← map-append) (map-fold-fold (pre ++ (m ++ post)))

some_inj : {p q : Q} → some p ≡ some q → p ≡ q
some_inj e = cc

-- A document that holds a match of the pattern satisfies the pattern's plan with the trigrams
-- extracted from it: whatever regex-syntax parses the (escaped, if `fixed`) pattern to, wherever
-- in the document the match stands, and whatever the case of its letters.
pub plan_sound :
    (escape : Bytes → Bytes) (parse : Bool → Bytes → Option Hir) (pattern : Bytes)
    (fixed casei : Bool) (q : Q) (h : Hir) (d : Dedup) (pre m post : Bytes)
    → plan escape parse pattern fixed casei ≡ some q
    → parse casei (if fixed then escape pattern else pattern) ≡ some h
    → Matches h m
    → IsClean d
    → Holds (λ k. In k (extract d (fold_buf (pre ++ (m ++ post)))).1) q
unfolding plan
plan_sound escape parse pattern fixed casei q h d pre m post e p x c =
    subst (Holds (λ k. In k (extract d (fold_buf (pre ++ (m ++ post)))).1))
      (some_inj (rw (p, plan) at e)) (Holds-plan_hir _ h m x (extract-Covers d pre m post c))
