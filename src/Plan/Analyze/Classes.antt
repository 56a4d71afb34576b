-- ===== src/Plan/Analyze/Classes.antt =====
-- `class_members` lists every text of a small class, case-folded.
use greeg.Base.{
  ℕ, zero, suc, ◌+◌, ◌-◌, ◌≤◌, ◌<◌, ◌≡◌, inl, inr, refl, ap, ◌∙◌, subst, arith, true, Option, none,
  some, List, [], ◌∷◌, map, Bytes, In, Bool-cases, ltb, leb,
}
use native.Mathlib.Decide.{ℕ_discrete}
use greeg.Gram.{fold}
use greeg.Plan.Sets.{Set, insert}
use greeg.Plan.Sets.Laws.{In-insert_self, In-insert_other}
use greeg.Plan.Hir.{Range, Class, is_char, encode_utf8, InRanges, ClassHas, unicode, bytes}
use greeg.Plan.Analyze.{char_text, chars_onto, bytes_onto, ranges_onto, class_members}

none_ne_some : {x : Set} → ◌≡◌ {A = Option Set} none (some x) → ⊥
none_ne_some e = cc

some_inj : {x y : Set} → some x ≡ some y → x ≡ y
some_inj e = cc

-- What the code inserts for a character is its case-folded UTF-8.
fold-encode_utf8 : (cp : ℕ) → is_char cp ≡ true → char_text cp ≡ map fold (encode_utf8 cp)
unfolding fold encode_utf8
fold-encode_utf8 cp h = ground arith

-- A loop over the values from `x` on: `texts v` is what a round at `v` inserts.
record IsLoop (inner : ℕ → ℕ → Set → Option Set) (text : ℕ → Bytes) (valid : ℕ → Type 0)
    : Type 0 where
  keeps : (n x : ℕ) (out out' : Set) (r : Bytes) → inner n x out ≡ some out' → In r out → In r out'
  adds :
      (n x v : ℕ) (out out' : Set)
      → inner n x out ≡ some out'
      → x ≤ v
      → v < x + n
      → valid v
      → In (text v) out'

chars_onto-keeps :
    (n x : ℕ) (out out' : Set) (r : Bytes) → chars_onto n x out ≡ some out' → In r out → In r out'
unfolding chars_onto
chars_onto-keeps zero x out out' r e h = subst (In r) (some_inj e) h
chars_onto-keeps (suc n) x out out' r e h = elim (Bool-cases (is_char x)) [
  | inl c ↦ chars_onto-keeps n (x + 1) _ out' r (rw c at e) (In-insert_other r _ out h)
  | inr c ↦ absurd (none_ne_some (rw c at e))
]

chars_onto-adds :
    (n x v : ℕ) (out out' : Set)
    → chars_onto n x out ≡ some out'
    → x ≤ v
    → v < x + n
    → is_char v ≡ true
    → In (map fold (encode_utf8 v)) out'
unfolding chars_onto
chars_onto-adds zero x v out out' e l u c = absurd (omega arith)
chars_onto-adds (suc n) x v out out' e l u c = elim (Bool-cases (is_char x)) [
  | inl d ↦ elim (ℕ_discrete x v) [
    | yes p ↦ chars_onto-keeps n (x + 1) _ out' _ (rw d at e) (
        subst (λ t. In t (insert (char_text x) out))
          (fold-encode_utf8 x d ∙ ap (λ y. map fold (encode_utf8 y)) p)
          (In-insert_self (char_text x) out))
    | no q ↦ chars_onto-adds n (x + 1) v _ out' (rw d at e) (omega arith) (omega arith) c
  ]
  | inr d ↦ absurd (none_ne_some (rw d at e))
]

bytes_onto-keeps :
    (n x : ℕ) (out out' : Set) (r : Bytes) → bytes_onto n x out ≡ some out' → In r out → In r out'
unfolding bytes_onto
bytes_onto-keeps zero x out out' r e h = subst (In r) (some_inj e) h
bytes_onto-keeps (suc n) x out out' r e h = elim (Bool-cases (leb 0x80 x)) [
  | inl c ↦ absurd (none_ne_some (rw c at e))
  | inr c ↦ bytes_onto-keeps n (x + 1) _ out' r (rw c at e) (In-insert_other r _ out h)
]

bytes_onto-adds :
    (n x v : ℕ) (out out' : Set)
    → bytes_onto n x out ≡ some out'
    → x ≤ v
    → v < x + n
    → In (fold v ∷ []) out'
unfolding bytes_onto
bytes_onto-adds zero x v out out' e l u = absurd (omega arith)
bytes_onto-adds (suc n) x v out out' e l u = elim (Bool-cases (leb 0x80 x)) [
  | inl d ↦ absurd (none_ne_some (rw d at e))
  | inr d ↦ elim (ℕ_discrete x v) [
    | yes p ↦ bytes_onto-keeps n (x + 1) _ out' _ (rw d at e) (
        subst (λ t. In (fold t ∷ []) (insert (fold x ∷ []) out)) p
          (In-insert_self (fold x ∷ []) out))
    | no q ↦ bytes_onto-adds n (x + 1) v _ out' (rw d at e) (omega arith) (omega arith)
  ]
]

-- A successful run of the loop over the ranges, taken apart.
ranges_onto_step :
    (inner : ℕ → ℕ → Set → Option Set) (q : Range) (rs : List Range) (out out' : Set)
    → ranges_onto inner (q ∷ rs) out ≡ some out'
    → (mid : Set) × (inner (q.last + 1 - q.first) q.first out ≡ some mid)
      × (ranges_onto inner rs mid ≡ some out')
unfolding ranges_onto
ranges_onto_step inner q rs out out' e = elim (Bool-cases (ltb 16 (q.last - q.first))) [
  | inl c ↦ absurd (none_ne_some (rw c at e))
  | inr c ↦ go (inner (q.last + 1 - q.first) q.first out) refl (rw c at e)
]
  where
    go :
        (o : Option Set)
        → inner (q.last + 1 - q.first) q.first out ≡ o
        → elim o [ none ↦ none | some m ↦ ranges_onto inner rs m ] ≡ some out'
        → (mid : Set) × (inner (q.last + 1 - q.first) q.first out ≡ some mid)
          × (ranges_onto inner rs mid ≡ some out')
    go none p x = absurd (none_ne_some x)
    go (some m) p x = (m, p, x)

module _ {inner : ℕ → ℕ → Set → Option Set} {text : ℕ → Bytes} {valid : ℕ → Type 0}
    (loop : IsLoop inner text valid) where
  ranges_onto-keeps :
      (rs : List Range) (out out' : Set) (r : Bytes)
      → ranges_onto inner rs out ≡ some out'
      → In r out
      → In r out'
  unfolding ranges_onto
  ranges_onto-keeps [] out out' r e h = subst (In r) (some_inj e) h
  ranges_onto-keeps (q ∷ rs) out out' r e h =
      let (mid, p, x) = ranges_onto_step inner q rs out out' e in
      ranges_onto-keeps rs mid out' r x (loop.keeps (q.last + 1 - q.first) q.first out mid r p h)

  ranges_onto-adds :
      (rs : List Range) (v : ℕ) (out out' : Set)
      → ranges_onto inner rs out ≡ some out'
      → InRanges v rs
      → valid v
      → In (text v) out'
  unfolding ranges_onto
  ranges_onto-adds [] v out out' e i c = absurd i
  ranges_onto-adds (r ∷ rs) v out out' e i c =
      let (mid, p, x) = ranges_onto_step inner r rs out out' e in
      elim i [
        | inl (l, u) ↦
            ranges_onto-keeps rs mid out' (text v) x
              (loop.adds (r.last + 1 - r.first) r.first v out mid p l (omega arith) c)
        | inr j ↦ ranges_onto-adds rs v mid out' x j c
      ]

-- Whatever a listed class matches is listed, case-folded.
pub class_members_lem :
    (c : Class) (bs : Bytes) (ms : Set)
    → ClassHas c bs
    → class_members c ≡ some ms
    → In (map fold bs) ms
unfolding class_members
class_members_lem c bs ms (unicode cp ok i) e =
    ranges_onto-adds (record { keeps = chars_onto-keeps; adds = chars_onto-adds }) _ cp [] ms e i ok
class_members_lem c bs ms (bytes b i) e = ranges_onto-adds byte_loop _ b [] ms e i tt
  where
    byte_loop : IsLoop bytes_onto (λ b. fold b ∷ []) (λ b. Unit)
    byte_loop = record {
      keeps = bytes_onto-keeps;
      adds = λ n x v out out' e l u t. bytes_onto-adds n x v out out' e l u;
    }
