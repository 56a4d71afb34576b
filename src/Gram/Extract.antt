-- ===== src/Gram/Extract.antt =====
-- `Dedup::extract` against `HasGram`: the bitset marks exactly the keys pushed.
use greeg.Base.{ℕ, ◌/◌, ◌%◌, ◌<◌, ◌≡◌, ◌≢◌, ◌↔◌, ◌⊎◌, inl, inr, refl, sym, ap}
use greeg.Base.{arith, ◌∙◌, Bool, true, false, List, [], ◌∷◌, ltb, ltb→lt, ◌==◌, ==_iff, Bool-cases}
use greeg.Base.{
  Bytes, length, In, IsUnique, IsAscending, In-sort_unstable, sort_unstable-IsAscending,
}
use native.Mathlib.Decide.{ℕ_discrete}
use greeg.Base.Bits.{test_bit, set_bit, test_bit-set_bit_self, test_bit-set_bit_ne, test_bit_zero}
use greeg.Gram.{key3, Dedup, store, Scan, visit, push_key, extract_loop, clear_touched, extract}
use greeg.Gram.Windows.{
  HasGram, here, there, HasGram-short, HasGram-cons_cases, HasGram-newline_first,
  HasGram-newline_second, HasGram-newline_third,
}

-- The deduplicator is ready for a file: no bit is set.
pub record IsClean (d : Dedup) : Type 0 where
  pub zeroed : (w : ℕ) → d.bits w ≡ 0
  pub untouched : d.touched ≡ []

marked : (ℕ → ℕ) → ℕ → Bool
marked bits k = test_bit (bits (k / 64)) (k % 64)

store_self : (bits : ℕ → ℕ) (w v : ℕ) → store bits w v w ≡ v
unfolding store
store_self bits w v = ground arith

store_ne : (bits : ℕ → ℕ) (w v i : ℕ) → i ≢ w → store bits w v i ≡ bits i
unfolding store
store_ne bits w v i h = ground arith

marked-store_self :
    (bits : ℕ → ℕ) (k : ℕ)
    → marked (store bits (k / 64) (set_bit (bits (k / 64)) (k % 64))) k ≡ true
unfolding marked
marked-store_self bits k =
    rw (store_self bits (k / 64) (set_bit (bits (k / 64)) (k % 64)))
      (test_bit-set_bit_self (bits (k / 64)) (k % 64))

marked-store_ne :
    (bits : ℕ → ℕ) (k j : ℕ)
    → j ≢ k
    → marked (store bits (k / 64) (set_bit (bits (k / 64)) (k % 64))) j ≡ marked bits j
unfolding marked
marked-store_ne bits k j h = elim (Bool-cases (j / 64 == k / 64)) [
  | inl e ↦ same ((==_iff (j / 64) (k / 64)).0 e)
  | inr e ↦
      ap (λ (w : ℕ). test_bit w (j % 64))
        (store_ne bits (k / 64) (set_bit (bits (k / 64)) (k % 64)) (j / 64) (ground arith))
]
  where
    same :
        j / 64 ≡ k / 64
        → test_bit (store bits (k / 64) (set_bit (bits (k / 64)) (k % 64)) (j / 64)) (j % 64)
          ≡ test_bit (bits (j / 64)) (j % 64)
    same e = rw e (
        rw (store_self bits (k / 64) (set_bit (bits (k / 64)) (k % 64)))
          (test_bit-set_bit_ne (bits (k / 64)) (k % 64) (j % 64) (omega arith)))

nonzero : {n : ℕ} → (n == 0) ≡ false → n ≡ 0 → ⊥
nonzero h e = ground arith

true_not_false : {b : Bool} → b ≡ true → b ≡ false → ⊥
true_not_false p q = cc

record Inv (s : Scan) : Type 0 where
  pushed : (k : ℕ) → marked s.dedup.bits k ≡ true → In k s.out
  marks : (k : ℕ) → In k s.out → marked s.dedup.bits k ≡ true
  touches : (w : ℕ) → s.dedup.bits w ≢ 0 → In w s.dedup.touched
  unique : IsUnique s.out

module _ (key : ℕ) (s : Scan) where
  visit_old : marked s.dedup.bits key ≡ true → visit key s ≡ s
  unfolding visit marked
  visit_old e = rw e

  visit_new : marked s.dedup.bits key ≡ false → visit key s ≡ push_key key s
  unfolding visit marked
  visit_new e = rw e

  touches_new :
      ((w : ℕ) → s.dedup.bits w ≢ 0 → In w s.dedup.touched)
      → (w : ℕ) → store s.dedup.bits (key / 64) (set_bit (s.dedup.bits (key / 64)) (key % 64)) w ≢ 0
      → In w (push_key key s).dedup.touched
  unfolding push_key
  touches_new t w h = elim (Bool-cases (s.dedup.bits (key / 64) == 0)) [
    | inl z ↦ rw z (elim (ℕ_discrete w (key / 64)) [
      | yes p ↦ inl p
      | no n ↦ inr (t w (λ q. h (store_ne s.dedup.bits (key / 64) _ w n ∙ q)))
    ])
    | inr z ↦ rw z (elim (ℕ_discrete w (key / 64)) [
      | yes p ↦ t w (λ q. nonzero z (ap s.dedup.bits (sym p) ∙ q))
      | no n ↦ t w (λ q. h (store_ne s.dedup.bits (key / 64) _ w n ∙ q))
    ])
  ]

  push_key-Inv : marked s.dedup.bits key ≡ false → Inv s → Inv (push_key key s)
  unfolding push_key
  push_key-Inv e v = record {
    pushed = λ k m. elim (ℕ_discrete k key) [
      | yes p ↦ inl p
      | no n ↦ inr (v.pushed k (sym (marked-store_ne s.dedup.bits key k n) ∙ m))
    ];
    marks = λ k h. elim (ℕ_discrete k key) [
      | yes p ↦ rw p (marked-store_self s.dedup.bits key)
      | no n ↦ marked-store_ne s.dedup.bits key k n ∙ v.marks k (other n h)
    ];
    touches = touches_new v.touches;
    unique = (λ h. true_not_false (v.marks key h) e, v.unique);
  }
    where
      other : {k : ℕ} → k ≢ key → (k ≡ key) ⊎ In k s.out → In k s.out
      other n (inl p) = absurd (n p)
      other n (inr h) = h

  visit-Inv : Inv s → Inv (visit key s)
  visit-Inv v = elim (Bool-cases (marked s.dedup.bits key)) [
    | inl e ↦ rw (visit_old e) v
    | inr e ↦ rw (visit_new e) (push_key-Inv e v)
  ]

  In-visit : (k : ℕ) → Inv s → In k (visit key s).out ↔ ((k ≡ key) ⊎ In k s.out)
  In-visit k v = elim (Bool-cases (marked s.dedup.bits key)) [
    | inl e ↦
        rw (visit_old e) (λ h. inr h, λ h. elim h [ inl p ↦ rw p (v.pushed key e) | inr q ↦ q ])
    | inr e ↦ rw (visit_new e) (unfold push_key in (λ h. h, λ h. h))
  ]

-- The loop keeps the invariant, and adds the keys of the buffer to those pushed before.
extract_loop-Inv : (bs : Bytes) (s : Scan) → Inv s → Inv (extract_loop bs s)
unfolding extract_loop
extract_loop-Inv (a ∷ b ∷ c ∷ rest) s v = elim (Bool-cases (c == b'\n')) [
  | inl p ↦ rw p (extract_loop-Inv rest s v)
  | inr p ↦ rw p (elim (Bool-cases (b == b'\n')) [
    | inl q ↦ rw q (extract_loop-Inv (c ∷ rest) s v)
    | inr q ↦ rw q (elim (Bool-cases (a == b'\n')) [
      | inl r ↦ rw r (extract_loop-Inv (b ∷ c ∷ rest) s v)
      | inr r ↦ rw r (extract_loop-Inv (b ∷ c ∷ rest) (visit (key3 a b c) s) (visit-Inv _ s v))
    ])
  ])
]
extract_loop-Inv [] s v = v
extract_loop-Inv (a ∷ []) s v = v
extract_loop-Inv (a ∷ b ∷ []) s v = v

-- One window more than the rest of the buffer has.
add_window :
    {a b c : ℕ} {rest : Bytes} (k : ℕ) (s : Scan)
    → Inv s
    → (a == b'\n') ≡ false
    → (b == b'\n') ≡ false
    → (c == b'\n') ≡ false
    → (out : List ℕ) → In k out ↔ (HasGram k (b ∷ c ∷ rest) ⊎ In k (visit (key3 a b c) s).out)
    → In k out ↔ (HasGram k (a ∷ b ∷ c ∷ rest) ⊎ In k s.out)
add_window {a} {b} {c} {rest} k s v p q r out i =
    let n = In-visit (key3 a b c) s k v in
    (
      λ o. elim (i.0 o) [
        | inl h ↦ inl (there a h)
        | inr y ↦ elim (n.0 y) [
          | inl e ↦ inl (here a b c rest (ground arith) (ground arith) (ground arith) e)
          | inr z ↦ inr z
        ]
      ],
      λ h. i.1 (elim h [
        | inl x ↦ elim (HasGram-cons_cases x) [ inl w ↦ inr (n.1 (inl w.3)) | inr y ↦ inl y ]
        | inr z ↦ inr (n.1 (inr z))
      ]),
    )

no_window : {k : ℕ} {bs : Bytes} {D : Type 0} → length bs < 3 → D ↔ (HasGram k bs ⊎ D)
no_window l = (λ d. inr d, λ h. elim h [ inl g ↦ absurd (HasGram-short g l) | inr d ↦ d ])

widen : {A B C D : Type 0} → C ↔ (A ⊎ D) → (A → B) → (B → A) → C ↔ (B ⊎ D)
widen i f g = (
  λ c. elim (i.0 c) [ inl x ↦ inl (f x) | inr y ↦ inr y ],
  λ h. i.1 (elim h [ inl x ↦ inl (g x) | inr y ↦ inr y ]),
)

-- Which keys the loop adds.
In-extract_loop :
    (k : ℕ) (bs : Bytes) (s : Scan)
    → Inv s
    → In k (extract_loop bs s).out ↔ (HasGram k bs ⊎ In k s.out)
unfolding extract_loop
In-extract_loop k (a ∷ b ∷ c ∷ rest) s v = elim (Bool-cases (c == b'\n')) [
  | inl p ↦
      let e = (==_iff c b'\n').0 p in
      rw p (
        widen (In-extract_loop k rest s v) (λ h. there a (there b (there c h)))
          (λ h. HasGram-newline_first e (HasGram-newline_second e (HasGram-newline_third e h))))
  | inr p ↦ rw p (elim (Bool-cases (b == b'\n')) [
    | inl q ↦
        let e = (==_iff b b'\n').0 q in
        rw q (
          widen (In-extract_loop k (c ∷ rest) s v) (λ h. there a (there b h))
            (λ h. HasGram-newline_first e (HasGram-newline_second e h)))
    | inr q ↦ rw q (elim (Bool-cases (a == b'\n')) [
      | inl r ↦
          let e = (==_iff a b'\n').0 r in
          rw r (
            widen (In-extract_loop k (b ∷ c ∷ rest) s v) (λ h. there a h)
              (λ h. HasGram-newline_first e h))
      | inr r ↦
          rw r (add_window k s v r q p _ (In-extract_loop k (b ∷ c ∷ rest) _ (visit-Inv _ s v)))
    ])
  ])
]
In-extract_loop k [] s v = no_window (omega arith)
In-extract_loop k (a ∷ []) s v = no_window (omega arith)
In-extract_loop k (a ∷ b ∷ []) s v = no_window (omega arith)

clear_touched_lem :
    (ts : List ℕ) (bits : ℕ → ℕ) (w : ℕ) → (bits w ≢ 0 → In w ts) → clear_touched ts bits w ≡ 0
unfolding clear_touched
clear_touched_lem [] bits w h = elim (ℕ_discrete (bits w) 0) [ yes p ↦ p | no n ↦ absurd (h n) ]
clear_touched_lem (t ∷ ts) bits w h = clear_touched_lem ts (store bits t 0) w left
  where
    tail_of : w ≢ t → (w ≡ t) ⊎ In w ts → In w ts
    tail_of n (inl e) = absurd (n e)
    tail_of n (inr i) = i

    left : store bits t 0 w ≢ 0 → In w ts
    left n = elim (ℕ_discrete w t) [
      | yes e ↦ absurd (n (rw e (store_self bits t 0)))
      | no m ↦ tail_of m (h (λ z. n (store_ne bits t 0 w m ∙ z)))
    ]

start : Dedup → Scan
start d = record { dedup = d; out = [] }

start-Inv : (d : Dedup) → IsClean d → Inv (start d)
unfolding start marked
start-Inv d c = record {
  pushed = λ k m. absurd (true_not_false m (rw (c.zeroed (k / 64)) (test_bit_zero (k % 64))));
  marks = λ k h. absurd h;
  touches = λ w n. absurd (n (c.zeroed w));
  unique = tt;
}

pub extract-IsClean : (d : Dedup) (buf : Bytes) → IsClean d → IsClean (extract d buf).0
unfolding extract start
extract-IsClean d buf c = elim (Bool-cases (ltb (length buf) 3)) [
  | inl e ↦ rw e c
  | inr e ↦
      let s = extract_loop buf (start d) in
      rw e (record {
        zeroed = λ w.
            clear_touched_lem s.dedup.touched s.dedup.bits w
              ((extract_loop-Inv buf (start d) (start-Inv d c)).touches w);
        untouched = refl;
      })
]

pub In-extract :
    (d : Dedup) (buf : Bytes) (k : ℕ) → IsClean d → In k (extract d buf).1 ↔ HasGram k buf
unfolding extract start
In-extract d buf k c = elim (Bool-cases (ltb (length buf) 3)) [
  | inl e ↦ rw e (λ h. absurd h, λ g. HasGram-short g (ltb→lt (length buf) 3 e))
  | inr e ↦
      let (f, g) = In-extract_loop k buf (start d) (start-Inv d c) in
      let (a, b) = In-sort_unstable k (extract_loop buf (start d)).out in
      rw e (λ h. elim (f (a h)) [ inl x ↦ x | inr y ↦ absurd y ], λ h. b (g (inl h)))
]

pub extract-IsAscending : (d : Dedup) (buf : Bytes) → IsClean d → IsAscending (extract d buf).1
unfolding extract start
extract-IsAscending d buf c = elim (Bool-cases (ltb (length buf) 3)) [
  | inl e ↦ rw e tt
  | inr e ↦ rw e (
      sort_unstable-IsAscending (extract_loop buf (start d)).out
        (extract_loop-Inv buf (start d) (start-Inv d c)).unique)
]

-- A clean deduplicator is clean again after a file, and the keys it gives are exactly those of the
-- buffer's newline-free windows, in ascending order with none twice.
pub extract_lem :
    (d : Dedup) (buf : Bytes)
    → IsClean d
    → IsClean (extract d buf).0
      × ((k : ℕ) → In k (extract d buf).1 ↔ HasGram k buf)
      × IsAscending (extract d buf).1
extract_lem d buf c =
    (extract-IsClean d buf c, λ k. In-extract d buf k c, extract-IsAscending d buf c)
