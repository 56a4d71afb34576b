-- ===== src/Words/Maximal.antt =====
-- The indexed words of a file are its maximal runs of word bytes whose length is indexed.
use greeg.Base.{
  ℕ, ◌≡◌, inl, inr, refl, sym, ◌∙◌, subst, arith, true, false, List, [], ◌∷◌, ◌++◌, Bytes, In,
  Bool-cases,
}
use mathlib.Core.Bool.{true≢false}
use mathlib.Core.List.{append_assoc, append-nil}
use greeg.Words.{
  is_word_byte, all_word_bytes, has_word_length, is_query_word, call, for_each_word, word_loop,
}

-- Nothing, or what ends in a byte that is no word byte.
unfoldable pub Before : Bytes → Type 0
Before [] = Unit
Before (b ∷ []) = is_word_byte b ≡ false
Before (b ∷ c ∷ pre) = Before (c ∷ pre)

-- Nothing, or what starts with a byte that is no word byte.
abbrev pub After : Bytes → Type 0
After [] = Unit
After (b ∷ post) = is_word_byte b ≡ false

-- `w` stands in the file between bytes that are no word bytes.
abbrev pub IsWordOf : Bytes → Bytes → Type 0
IsWordOf src w =
    (pre : Bytes) × (post : Bytes) × (src ≡ pre ++ (w ++ post)) × Before pre × After post

Before-tail : (b : ℕ) (pre : Bytes) → Before (b ∷ pre) → Before pre
unfolding Before
Before-tail b [] h = tt
Before-tail b (c ∷ pre) h = h

pub Before-skip : (b : ℕ) (pre : Bytes) → is_word_byte b ≡ false → Before pre → Before (b ∷ pre)
unfolding Before
Before-skip b [] e h = e
Before-skip b (c ∷ pre) e h = h

In-call_rest : (w v : Bytes) (rest : List Bytes) → In w rest → In w (call v rest)
unfolding call
In-call_rest w v rest h = elim (Bool-cases (has_word_length v)) [
  | inl e ↦ rw e (inr h)
  | inr e ↦ rw e h
]

In-call_self : (w : Bytes) (rest : List Bytes) → is_query_word w ≡ true → In w (call w rest)
unfolding call is_query_word
In-call_self w rest h = let e : has_word_length w ≡ true = ground arith in rw e (inl refl)

-- The loop over the rest of a word calls with the whole of it.
word_loop-whole :
    (v w post : Bytes)
    → all_word_bytes w ≡ true
    → After post
    → is_query_word (v ++ w) ≡ true
    → In (v ++ w) (word_loop v (w ++ post))
unfolding all_word_bytes word_loop
word_loop-whole v [] [] a p h =
    rw (append-nil v) (In-call_self v [] (subst (λ u. is_query_word u ≡ true) (append-nil v) h))
word_loop-whole v [] (b ∷ post) a p h =
    rw (p, word_loop, append-nil v)
      (In-call_self v _ (subst (λ u. is_query_word u ≡ true) (append-nil v) h))
word_loop-whole v (b ∷ w) post a p h =
    let e : is_word_byte b ≡ true = ground arith in
    let r : all_word_bytes w ≡ true = ground arith in
    let s : (v ++ b ∷ []) ++ w ≡ v ++ b ∷ w = append_assoc v (b ∷ []) w in
    rw (e, word_loop)
      (subst (λ u. In u (word_loop (v ++ b ∷ []) (w ++ post))) s
        (word_loop-whole (v ++ b ∷ []) w post r p (subst (λ u. is_query_word u ≡ true) (sym s) h)))

for_each_word-here :
    (w post : Bytes) → is_query_word w ≡ true → After post → In w (for_each_word (w ++ post))
unfolding is_query_word all_word_bytes for_each_word
for_each_word-here [] post h p = cc
for_each_word-here (b ∷ w) post h p =
    let e : is_word_byte b ≡ true = ground arith in
    let r : all_word_bytes w ≡ true = ground arith in
    rw (e, for_each_word) (word_loop-whole (b ∷ []) w post r p h)

mutual
  unfolding Before for_each_word

  pub for_each_word-later :
      (pre w post : Bytes)
      → Before pre
      → is_query_word w ≡ true
      → After post
      → In w (for_each_word (pre ++ (w ++ post)))
  for_each_word-later [] w post a h p = for_each_word-here w post h p
  for_each_word-later (b ∷ pre) w post a h p = elim (Bool-cases (is_word_byte b)) [
    | inl e ↦ rw (e, for_each_word) (word_loop-later (b ∷ []) b pre w post e a h p)
    | inr e ↦ rw (e, for_each_word) (for_each_word-later pre w post (Before-tail b pre a) h p)
  ]

  -- Inside a word before it, whose last byte is `b`.
  word_loop-later :
      (v : Bytes) (b : ℕ) (pre w post : Bytes)
      → is_word_byte b ≡ true
      → Before (b ∷ pre)
      → is_query_word w ≡ true
      → After post
      → In w (word_loop v (pre ++ (w ++ post)))
  word_loop-later v b [] w post e a h p = absurd (true≢false (sym e ∙ a))
  word_loop-later v b (c ∷ pre) w post e a h p = elim (Bool-cases (is_word_byte c)) [
    | inl f ↦ rw (f, word_loop) (word_loop-later (v ++ c ∷ []) c pre w post f a h p)
    | inr f ↦
        rw (f, word_loop)
          (In-call_rest w v _ (for_each_word-later pre w post (Before-tail c pre a) h p))
  ]
