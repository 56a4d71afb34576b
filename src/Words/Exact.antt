-- ===== src/Words/Exact.antt =====
-- Nothing but the maximal runs of word bytes is indexed.
use greeg.Base.{
  ℕ, ◌≡◌, ◌↔◌, ◌⊎◌, inl, inr, refl, sym, ap, ◌∙◌, subst, arith, true, false, List, [], ◌∷◌, ◌++◌,
  Bytes, In, Bool-cases,
}
use mathlib.Core.List.{append_assoc, append-nil}
use greeg.Words.{
  is_word_byte, all_word_bytes, has_word_length, is_query_word, call, for_each_word, word_loop,
}
use greeg.Words.Maximal.{Before, After, IsWordOf, Before-skip, for_each_word-later}

In-call_cases :
    (w v : Bytes) (rest : List Bytes)
    → In w (call v rest)
    → ((w ≡ v) × (has_word_length v ≡ true)) ⊎ In w rest
unfolding call
In-call_cases w v rest h = elim (Bool-cases (has_word_length v)) [
  | inl e ↦ elim (rw e at h) [ inl k ↦ inl (k, e) | inr k ↦ inr k ]
  | inr e ↦ inr (rw e at h)
]

all_word_bytes-push :
    (v : Bytes) (b : ℕ)
    → all_word_bytes v ≡ true
    → is_word_byte b ≡ true
    → all_word_bytes (v ++ b ∷ []) ≡ true
unfolding all_word_bytes
all_word_bytes-push [] b h e = ground arith
all_word_bytes-push (c ∷ v) b h e = let r = all_word_bytes-push v b (ground arith) e in ground arith

-- A word of the bytes left, after the word bytes `v`: it goes on from them, or comes later.
Goes : Bytes → Bytes → Bytes → Type 0
Goes v src w =
    ((p : Bytes) × (post : Bytes) × (src ≡ p ++ post) × (w ≡ v ++ p) × After post)
    ⊎ ((c : ℕ) × (pre : Bytes) × (post : Bytes) × (src ≡ c ∷ pre ++ (w ++ post))
        × Before (c ∷ pre)
        × After post)

-- One more byte goes before the words that come later.
Goes-cons : (v : Bytes) (b : ℕ) (src w : Bytes) → Goes (v ++ b ∷ []) src w → Goes v (b ∷ src) w
unfolding Goes Before
Goes-cons v b src w (inl (p, post, e, k, a)) =
    inl (b ∷ p, post, ap (◌∷◌ b) e, k ∙ append_assoc v (b ∷ []) p, a)
Goes-cons v b src w (inr (c, pre, post, e, k, a)) = inr (b, c ∷ pre, post, ap (◌∷◌ b) e, k, a)

Goes-later :
    (v : Bytes) (b : ℕ) (src w : Bytes)
    → is_word_byte b ≡ false
    → IsWordOf src w
    → Goes v (b ∷ src) w
unfolding Goes
Goes-later v b src w f (pre, post, e, k, a) =
    inr (b, pre, post, ap (◌∷◌ b) e, Before-skip b pre f k, a)

Goes-here : (v src w : Bytes) → w ≡ v → After src → Goes v src w
unfolding Goes
Goes-here v src w k a = inl ([], src, refl, k ∙ sym (append-nil v), a)

Goes-first : (b : ℕ) (src w : Bytes) → Goes (b ∷ []) src w → IsWordOf (b ∷ src) w
unfolding Goes Before
Goes-first b src w (inl (p, post, s, k, a)) =
    ([], post, ap (◌∷◌ b) s ∙ ap (λ u. u ++ post) (sym k), tt, a)
Goes-first b src w (inr (c, pre, post, s, k, a)) = (b ∷ c ∷ pre, post, ap (◌∷◌ b) s, k, a)

IsWordOf-skip :
    (b : ℕ) (src w : Bytes) → is_word_byte b ≡ false → IsWordOf src w → IsWordOf (b ∷ src) w
IsWordOf-skip b src w e (pre, post, s, k, a) =
    (b ∷ pre, post, ap (◌∷◌ b) s, Before-skip b pre e k, a)

mutual
  unfolding for_each_word

  for_each_word-IsWordOf : (src w : Bytes) → In w (for_each_word src) → IsWordOf src w
  for_each_word-IsWordOf [] w h = absurd h
  for_each_word-IsWordOf (b ∷ src) w h = elim (Bool-cases (is_word_byte b)) [
    | inl e ↦ Goes-first b src w (word_loop-Goes (b ∷ []) src w (rw (e, for_each_word) at h))
    | inr e ↦ IsWordOf-skip b src w e (for_each_word-IsWordOf src w (rw (e, for_each_word) at h))
  ]

  word_loop-Goes : (v src w : Bytes) → In w (word_loop v src) → Goes v src w
  word_loop-Goes v [] w h = elim (In-call_cases w v [] h) [
    | inl (k, l) ↦ Goes-here v [] w k tt
    | inr k ↦ absurd k
  ]
  word_loop-Goes v (b ∷ src) w h = elim (Bool-cases (is_word_byte b)) [
    | inl e ↦ Goes-cons v b src w (word_loop-Goes (v ++ b ∷ []) src w (rw (e, word_loop) at h))
    | inr e ↦ elim (In-call_cases w v (for_each_word src) (rw (e, word_loop) at h)) [
      | inl (k, l) ↦ Goes-here v (b ∷ src) w k e
      | inr k ↦ Goes-later v b src w e (for_each_word-IsWordOf src w k)
    ]
  ]

query_word :
    (v w : Bytes)
    → all_word_bytes v ≡ true
    → (w ≡ v) × (has_word_length v ≡ true)
    → is_query_word w ≡ true
unfolding is_query_word
query_word v w a (k, l) = rw (k, l, a) refl

mutual
  unfolding for_each_word all_word_bytes

  for_each_word-is_query_word : (src w : Bytes) → In w (for_each_word src) → is_query_word w ≡ true
  for_each_word-is_query_word [] w h = absurd h
  for_each_word-is_query_word (b ∷ src) w h = elim (Bool-cases (is_word_byte b)) [
    | inl e ↦ word_loop-is_query_word (b ∷ []) src w (rw e refl) (rw (e, for_each_word) at h)
    | inr e ↦ for_each_word-is_query_word src w (rw (e, for_each_word) at h)
  ]

  word_loop-is_query_word :
      (v src w : Bytes) → all_word_bytes v ≡ true → In w (word_loop v src) → is_query_word w ≡ true
  word_loop-is_query_word v [] w a h = elim (In-call_cases w v [] h) [
    | inl k ↦ query_word v w a k
    | inr k ↦ absurd k
  ]
  word_loop-is_query_word v (b ∷ src) w a h = elim (Bool-cases (is_word_byte b)) [
    | inl e ↦
        word_loop-is_query_word (v ++ b ∷ []) src w (all_word_bytes-push v b a e)
          (rw (e, word_loop) at h)
    | inr e ↦ elim (In-call_cases w v (for_each_word src) (rw (e, word_loop) at h)) [
      | inl k ↦ query_word v w a k
      | inr k ↦ for_each_word-is_query_word src w k
    ]
  ]

-- The words that are indexed are those that a query may ask for and that stand in the file between
-- bytes that are no word bytes.
pub for_each_word_iff :
    (src w : Bytes) → In w (for_each_word src) ↔ ((is_query_word w ≡ true) × IsWordOf src w)
for_each_word_iff src w = (
  λ h. (for_each_word-is_query_word src w h, for_each_word-IsWordOf src w h),
  λ (q, (pre, post, e, b, a)).
      subst (λ s. In w (for_each_word s)) (sym e) (for_each_word-later pre w post b q a),
)
