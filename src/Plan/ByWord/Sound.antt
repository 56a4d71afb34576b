-- ===== src/Plan/ByWord/Sound.antt =====
-- The word plan of a pattern misses none of its whole-word matches.
use greeg.Base.{
  ◌≡◌, inl, inr, refl, sym, ap, ◌∙◌, subst, Bool, true, false, Option, none, some, List, [], ◌∷◌,
  ◌++◌, Bytes, In, In-append_left, In-append_right, bytes_eq, bytes_eq_iff, Bool-cases,
  Option-cases,
}
use mathlib.Core.Option.{none-ne-some, some-injective}
use mathlib.Core.List.{append-nil}
use greeg.Words.{is_query_word, for_each_word}
use greeg.Words.Maximal.{Before, After}
use greeg.Words.Exact.{for_each_word_iff}
use greeg.Plan.Hir.{Hir, Matches}
use greeg.Plan.ByWord.{
  Tok, bound, lit, Seqs, seqs, word_of, contains, push_new, words_of, if_any, word_plan_hir,
  word_plan,
}
use greeg.Plan.ByWord.Laws.{text, seqs-Denotes}

word_of-text : (word : Bool) (s : List Tok) (l : Bytes) → word_of word s ≡ some l → text s ≡ l
unfolding word_of text
word_of-text true [] l e = absurd (none-ne-some _ e)
word_of-text false [] l e = absurd (none-ne-some _ e)
word_of-text true (lit k ∷ []) l e = append-nil k ∙ some-injective _ _ e
word_of-text false (lit k ∷ []) l e = absurd (none-ne-some _ e)
word_of-text true (lit k ∷ t ∷ s) l e = absurd (none-ne-some _ e)
word_of-text false (lit k ∷ t ∷ s) l e = absurd (none-ne-some _ e)
word_of-text true (bound ∷ []) l e = absurd (none-ne-some _ e)
word_of-text false (bound ∷ []) l e = absurd (none-ne-some _ e)
word_of-text true (bound ∷ bound ∷ s) l e = absurd (none-ne-some _ e)
word_of-text false (bound ∷ bound ∷ s) l e = absurd (none-ne-some _ e)
word_of-text true (bound ∷ lit k ∷ []) l e = absurd (none-ne-some _ e)
word_of-text false (bound ∷ lit k ∷ []) l e = absurd (none-ne-some _ e)
word_of-text true (bound ∷ lit k ∷ lit j ∷ s) l e = absurd (none-ne-some _ e)
word_of-text false (bound ∷ lit k ∷ lit j ∷ s) l e = absurd (none-ne-some _ e)
word_of-text true (bound ∷ lit k ∷ bound ∷ t ∷ s) l e = absurd (none-ne-some _ e)
word_of-text false (bound ∷ lit k ∷ bound ∷ t ∷ s) l e = absurd (none-ne-some _ e)
word_of-text true (bound ∷ lit k ∷ bound ∷ []) l e = append-nil k ∙ some-injective _ _ e
word_of-text false (bound ∷ lit k ∷ bound ∷ []) l e = append-nil k ∙ some-injective _ _ e

contains-In : (out : List Bytes) (l : Bytes) → contains out l ≡ true → In l out
unfolding contains
contains-In [] l e = cc
contains-In (w ∷ out) l e = elim (Bool-cases (bytes_eq w l)) [
  | inl b ↦ inl (sym ((bytes_eq_iff w l).0 b))
  | inr b ↦ inr (contains-In out l (rw b at e))
]

push_new-In : (out : List Bytes) (l : Bytes) → In l (push_new out l)
push_new-In out l = elim (Bool-cases (contains out l)) [
  | inl e ↦ rw e (contains-In out l e)
  | inr e ↦ rw e (In-append_right l out (l ∷ []) (inl refl))
]

push_new-keeps : (out : List Bytes) (l m : Bytes) → In m out → In m (push_new out l)
push_new-keeps out l m h = elim (Bool-cases (contains out l)) [
  | inl e ↦ rw e h
  | inr e ↦ rw e (In-append_left m out (l ∷ []) h)
]

-- One round of the loop goes on with the literal, which is a query word.
words_of_step :
    (word : Bool) (s : List Tok) (ss : Seqs) (out alts : List Bytes)
    → words_of word (s ∷ ss) out ≡ some alts
    → (l : Bytes) × (text s ≡ l)
      × (is_query_word l ≡ true)
      × (words_of word ss (push_new out l) ≡ some alts)
unfolding words_of
words_of_step word s ss out alts e = elim (Option-cases (word_of word s)) [
  | inl f ↦ absurd (none-ne-some _ (rw (f, words_of) at e))
  | inr (l, f) ↦ elim (Bool-cases (is_query_word l)) [
    | inl q ↦ (l, word_of-text word s l f, q, rw (f, words_of, q, words_of) at e)
    | inr q ↦ absurd (none-ne-some _ (rw (f, words_of, q, words_of) at e))
  ]
]

words_of-keeps :
    (word : Bool) (ss : Seqs) (out alts : List Bytes) (m : Bytes)
    → words_of word ss out ≡ some alts
    → In m out
    → In m alts
unfolding words_of
words_of-keeps word [] out alts m e h = subst (In m) (some-injective _ _ e) h
words_of-keeps word (s ∷ ss) out alts m e h =
    let (l, t, q, f) = words_of_step word s ss out alts e in
    words_of-keeps word ss (push_new out l) alts m f (push_new-keeps out l m h)

words_of-has :
    (word : Bool) (ss : Seqs) (out alts : List Bytes) (s : List Tok)
    → words_of word ss out ≡ some alts
    → In s ss
    → In (text s) alts × (is_query_word (text s) ≡ true)
words_of-has word [] out alts s e h = absurd h
words_of-has word (r ∷ ss) out alts s e (inl k) =
    let (l, t, q, f) = words_of_step word r ss out alts e in
    let same : text s ≡ l = ap text k ∙ t in
    rw same (words_of-keeps word ss (push_new out l) alts l f (push_new-In out l), q)
words_of-has word (r ∷ ss) out alts s e (inr k) =
    let (l, t, q, f) = words_of_step word r ss out alts e in
    words_of-has word ss (push_new out l) alts s f k

if_any-eq-some :
    (o : Option (List Bytes)) (alts : List Bytes) → if_any o ≡ some alts → o ≡ some alts
if_any-eq-some none alts e = absurd (none-ne-some _ e)
if_any-eq-some (some []) alts e = absurd (none-ne-some _ e)
if_any-eq-some (some (w ∷ out)) alts e = e

word_plan_hir-has :
    (word : Bool) (h : Hir) (alts : List Bytes) (m : Bytes)
    → word_plan_hir word h ≡ some alts
    → Matches h m
    → In m alts × (is_query_word m ≡ true)
unfolding word_plan_hir
word_plan_hir-has word h alts m e x = elim (Option-cases (seqs h)) [
  | inl f ↦ absurd (none-ne-some _ (rw (f, word_plan_hir) at e))
  | inr (ss, f) ↦
      let (s, i, t) = seqs-Denotes x ss f in
      let g : if_any (words_of word ss []) ≡ some alts = rw (f, word_plan_hir) at e in
      subst (λ z. In z alts × (is_query_word z ≡ true)) t
        (words_of-has word ss [] alts s (if_any-eq-some (words_of word ss []) alts g) i)
]

module _ (parse : Bool → Bytes → Option Hir) where
  -- When a regular expression has a word plan, each of its matches that stands between bytes that
  -- are no word bytes is one of the plan's words and one of the words indexed for the file.
  pub word_plan_sound :
      (pattern : Bytes) (word : Bool) (alts : List Bytes) (h : Hir) (pre m post : Bytes)
      → word_plan parse pattern false false word false ≡ some alts
      → parse false pattern ≡ some h
      → Matches h m
      → Before pre
      → After post
      → In m alts × In m (for_each_word (pre ++ (m ++ post)))
  unfolding word_plan
  word_plan_sound pattern word alts h pre m post e p x b a =
      let g : word_plan_hir word h ≡ some alts = rw (p, word_plan) at e in
      let (i, q) = word_plan_hir-has word h alts m g x in
      (i, (for_each_word_iff (pre ++ (m ++ post)) m).1 (q, (pre, post, refl, b, a)))
