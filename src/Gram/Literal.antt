-- ===== src/Gram/Literal.antt =====
-- `literal_keys`: the keys of a literal are those that its case-folded bytes have.
use greeg.Base.{
  ℕ, ◌<◌, ◌≡◌, ◌≢◌, ◌↔◌, ◌⊎◌, inl, inr, refl, sym, ap, subst, ◌∙◌, arith, List, [], ◌∷◌,
}
use greeg.Base.{◌++◌, map, map-append, Bytes, length, ltb, ltb→lt, ◌==◌, ==_iff, Bool-cases}
use greeg.Base.{In, All, In-sort_unstable, In-dedup, sort_unstable, length-map}
use greeg.Gram.{fold, window_keys, split_lines, piece_groups, literal_keys}
use greeg.Gram.Windows.{
  HasGram, here, there, HasGram-append_left, HasGram-append_right, HasGram-short,
  HasGram-cons_cases, HasGram-newline_first, HasGram-newline_second, HasGram-newline_third,
}

-- A key of one of the groups.
abbrev pub InGroups : ℕ → List (List ℕ) → Type 0
InGroups k [] = ⊥
InGroups k (g ∷ gs) = In k g ⊎ InGroups k gs

-- A line feed separates the windows before it from those behind it.
HasGram-newline : {k : ℕ} (p r : Bytes) → HasGram k (p ++ (b'\n' ∷ r)) → HasGram k p ⊎ HasGram k r
HasGram-newline [] r h = inr (HasGram-newline_first refl h)
HasGram-newline (x ∷ []) r h = inr (HasGram-newline_first refl (HasGram-newline_second refl h))
HasGram-newline (x ∷ y ∷ []) r h =
    inr (HasGram-newline_first refl (HasGram-newline_second refl (HasGram-newline_third refl h)))
HasGram-newline (x ∷ y ∷ z ∷ p) r h = elim (HasGram-cons_cases h) [
  | inl (m, n, o, e) ↦ inl (here x y z p m n o e)
  | inr g ↦ elim (HasGram-newline (y ∷ z ∷ p) r g) [ inl l ↦ inl (there x l) | inr t ↦ inr t ]
]

-- The text whose lines are these.
join_lines : Bytes → List Bytes → Bytes
join_lines p [] = p
join_lines p (q ∷ qs) = p ++ (b'\n' ∷ join_lines q qs)

join_lines-cons :
    (b : ℕ) (p : Bytes) (qs : List Bytes) → join_lines (b ∷ p) qs ≡ b ∷ join_lines p qs
unfolding join_lines
join_lines-cons b p [] = refl
join_lines-cons b p (q ∷ qs) = refl

join_lines-split_lines : (lit : Bytes) → join_lines (split_lines lit).0 (split_lines lit).1 ≡ lit
unfolding split_lines join_lines
join_lines-split_lines [] = refl
join_lines-split_lines (b ∷ bs) = elim (Bool-cases (b == b'\n')) [
  | inl e ↦ rw e (rw ((==_iff b b'\n').0 e) (ap (◌∷◌ b'\n') (join_lines-split_lines bs)))
  | inr e ↦ rw e (join_lines-cons b _ _ ∙ (ap (◌∷◌ b) (join_lines-split_lines bs)))
]

abbrev IsLine : Bytes → Type 0
IsLine = All (λ b. b ≢ b'\n')

split_lines-IsLine : (lit : Bytes) → IsLine (split_lines lit).0 × All IsLine (split_lines lit).1
unfolding split_lines
split_lines-IsLine [] = (tt, tt)
split_lines-IsLine (b ∷ bs) =
    let (l, ls) = split_lines-IsLine bs in
    elim (Bool-cases (b == b'\n')) [
      | inl e ↦ rw e (tt, (l, ls))
      | inr e ↦ rw e ((ground arith, l), ls)
    ]

fold-ne-newline : (b : ℕ) → b ≢ b'\n' → fold b ≢ b'\n'
unfolding fold
fold-ne-newline b h e = ground arith

In-window_keys : (k : ℕ) (p : Bytes) → IsLine p → In k (window_keys p) ↔ HasGram k (map fold p)
unfolding window_keys
In-window_keys k (a ∷ b ∷ c ∷ rest) (l, (m, n)) =
    let (f, g) = In-window_keys k (b ∷ c ∷ rest) (m, n) in
    (
      λ h. elim h [
        | inl e ↦
            here (fold a) (fold b) (fold c) (map fold rest) (fold-ne-newline a l)
              (fold-ne-newline b m) (fold-ne-newline c n.0) e
        | inr y ↦ there (fold a) (f y)
      ],
      λ h. elim (HasGram-cons_cases h) [ inl w ↦ inl w.3 | inr y ↦ inr (g y) ],
    )
In-window_keys k [] l = (λ h. absurd h, λ h. HasGram-short h (omega arith))
In-window_keys k (a ∷ []) l = (λ h. absurd h, λ h. HasGram-short h (omega arith))
In-window_keys k (a ∷ b ∷ []) l = (λ h. absurd h, λ h. HasGram-short h (omega arith))

-- A key of one of the lines, each folded.
abbrev InLines : ℕ → List Bytes → Type 0
InLines k [] = ⊥
InLines k (p ∷ ps) = HasGram k (map fold p) ⊎ InLines k ps

InGroups-piece_groups :
    (k : ℕ) (ps : List Bytes) → All IsLine ps → InGroups k (piece_groups ps) ↔ InLines k ps
unfolding piece_groups
InGroups-piece_groups k [] l = (λ h. h, λ h. h)
InGroups-piece_groups k (p ∷ ps) (l, ls) =
    let (f, g) = InGroups-piece_groups k ps ls in
    elim (Bool-cases (ltb (length p) 3)) [
      | inl e ↦ rw e (
        λ h. inr (f h),
        λ h. elim h [
          | inl x ↦ absurd (HasGram-short x (folded_short p (ltb→lt (length p) 3 e)))
          | inr y ↦ g y
        ],
      )
      | inr e ↦
          let (a, b) = In-window_keys k p l in
          let (c, d) = In-sort_unstable k (window_keys p) in
          let (i, j) = In-dedup k (sort_unstable (window_keys p)) in
          rw e (
            λ h. elim h [ inl x ↦ inl (a (c (i x))) | inr y ↦ inr (f y) ],
            λ h. elim h [ inl x ↦ inl (j (d (b x))) | inr y ↦ inr (g y) ],
          )
    ]
  where
    folded_short : (p : Bytes) → length p < 3 → length (map fold p) < 3
    folded_short p h = rw (length-map fold p) h

InLines-join_lines :
    (k : ℕ) (p : Bytes) (ps : List Bytes)
    → InLines k (p ∷ ps) ↔ HasGram k (map fold (join_lines p ps))
unfolding join_lines fold
InLines-join_lines k p [] = (λ h. elim h [ inl x ↦ x | inr y ↦ absurd y ], λ h. inl h)
InLines-join_lines k p (q ∷ qs) =
    let (f, g) = InLines-join_lines k q qs in
    rw (map-append) (
      λ h. elim h [
        | inl x ↦ HasGram-append_right _ x
        | inr y ↦ HasGram-append_left (map fold p) _ (there _ (f y))
      ],
      λ h. elim (HasGram-newline (map fold p) (map fold (join_lines q qs)) h) [
        | inl x ↦ inl x
        | inr y ↦ inr (g y)
      ],
    )

-- The groups of `literal_keys` hold exactly the keys of the literal's folded bytes.
pub literal_keys_lem :
    (k : ℕ) (lit : Bytes) → InGroups k (literal_keys lit) ↔ HasGram k (map fold lit)
unfolding literal_keys
literal_keys_lem k lit =
    let (piece, pieces) = split_lines lit in
    let (f, g) = InGroups-piece_groups k (piece ∷ pieces) (split_lines-IsLine lit) in
    let (a, b) = InLines-join_lines k piece pieces in
    let e = join_lines-split_lines lit in
    (
      λ h. subst (λ l. HasGram k (map fold l)) e (a (f h)),
      λ h. g (b (subst (λ l. HasGram k (map fold l)) (sym e) h)),
    )
