-- ===== src/Spill/Slots.antt =====
-- crates/greeg-index/src/external.rs: what the map of a `Sink` holds after a push, and as the sorted
-- records of a segment.
use mathlib.Core.Bool.{true≢false}
use greeg.Base.{
  ℕ, ◌<◌, ◌≡◌, ◌↔◌, ◌⊎◌, inl, inr, refl, sym, ◌∙◌, subst, true, false, List, [], ◌∷◌, ◌++◌, Bytes,
  length, All, In, In-append_left, In-append_right, In-append_cases, bytes_eq, bytes_eq_iff, ◌==◌,
  ==_iff, Bool-cases,
}
use greeg.Spill.RecordLaws.{IsU32}
use greeg.Spill.Sink.{Slot, last_is, push_file, push_slot}

abbrev pub HasSlot : Bytes → ℕ → List Slot → Type 0
HasSlot key file [] = ⊥
HasSlot key file ((k, v, c) ∷ slots) = ((key ≡ k) × In file v) ⊎ HasSlot key file slots

-- No slot has the key.
abbrev pub Fresh : Bytes → List Slot → Type 0
Fresh key = All (λ s. bytes_eq s.0 key ≡ false)

-- Each key once, with `u32` files.
abbrev pub IsMap : List Slot → Type 0
IsMap [] = Unit
IsMap ((k, v, c) ∷ slots) =
    Fresh k slots × (length k < 18446744073709551616) × All IsU32 v × IsMap slots

last_is-In : (v : List ℕ) (file : ℕ) → last_is v file ≡ true → In file v
unfolding last_is
last_is-In [] file h = absurd (true≢false (sym h))
last_is-In (x ∷ []) file h = inl (sym ((==_iff x file).0 h))
last_is-In (x ∷ y ∷ v) file h = inr (last_is-In (y ∷ v) file h)

push_file-files : (v : List ℕ) (c file : ℕ) → (push_file v c file).0 ≡ v ++ file ∷ []
unfolding push_file
push_file-files v c file = elim (Bool-cases (length v == c)) [
  | inl e ↦ rw e refl
  | inr e ↦ rw e refl
]

module _ (cost : Bytes → ℕ) where
  pub HasSlot-push_slot :
      (key : Bytes) (file : ℕ) (slots : List Slot) (k : Bytes) (f : ℕ)
      → HasSlot k f (push_slot cost key file slots).0
        ↔ (((k ≡ key) × (f ≡ file)) ⊎ HasSlot k f slots)
  unfolding push_slot
  HasSlot-push_slot key file [] k f = (
    λ p. elim p [ inl (a, inl b) ↦ inl (a, b) | inl (a, inr b) ↦ absurd b | inr b ↦ absurd b ],
    λ p. elim p [ inl (a, b) ↦ inl (a, inl b) | inr b ↦ absurd b ],
  )
  HasSlot-push_slot key file ((j, v, c) ∷ slots) k f = elim (Bool-cases (bytes_eq j key)) [
    | inr e ↦
        let (to, from) = HasSlot-push_slot key file slots k f in
        rw e (
          λ p. elim p [
            | inl q ↦ inr (inl q)
            | inr q ↦ elim (to q) [ inl r ↦ inl r | inr r ↦ inr (inr r) ]
          ],
          λ p. elim p [
            | inl q ↦ inr (from (inl q))
            | inr (inl q) ↦ inl q
            | inr (inr q) ↦ inr (from (inr q))
          ],
        )
    | inl e ↦
        let same = (bytes_eq_iff j key).0 e in
        elim (Bool-cases (last_is v file)) [
          | inl g ↦
              rw (e, g)
                (
                  λ p. inr p,
                  λ p. elim p [
                    | inl (a, b) ↦
                        inl (a ∙ sym same, subst (λ x. In x v) (sym b) (last_is-In v file g))
                    | inr q ↦ q
                  ],
                )
          | inr g ↦
              rw (e, g)
                (
                  λ p. elim p [
                    | inl (a, b) ↦
                        elim (In-append_cases f v (file ∷ [])
                          (subst (In f) (push_file-files v c file) b)) [
                            | inl q ↦ inr (inl (a, q))
                            | inr (inl q) ↦ inl (a ∙ same, q)
                            | inr (inr q) ↦ absurd q
                          ]
                    | inr q ↦ inr (inr q)
                  ],
                  λ p. elim p [
                    | inl (a, b) ↦ inl (
                      a ∙ sym same,
                      subst (In f) (sym (push_file-files v c file))
                          (In-append_right f v (file ∷ []) (inl b)),
                    )
                    | inr (inl (a, b)) ↦ inl (
                      a,
                      subst (In f) (sym (push_file-files v c file))
                          (In-append_left f v (file ∷ []) b),
                    )
                    | inr (inr q) ↦ inr q
                  ],
                )
        ]
  ]

  Fresh-push_slot :
      (j key : Bytes) (file : ℕ) (slots : List Slot)
      → bytes_eq key j ≡ false
      → Fresh j slots
      → Fresh j (push_slot cost key file slots).0
  unfolding push_slot
  Fresh-push_slot j key file [] d a = (d, tt)
  Fresh-push_slot j key file ((i, v, c) ∷ slots) d (b, a) = elim (Bool-cases (bytes_eq i key)) [
    | inr e ↦ rw e (b, Fresh-push_slot j key file slots d a)
    | inl e ↦ elim (Bool-cases (last_is v file)) [
      | inl g ↦ rw (e, g) (b, a)
      | inr g ↦ rw (e, g) (b, a)
    ]
  ]

  All-snoc : (v : List ℕ) (file : ℕ) → All IsU32 v → IsU32 file → All IsU32 (v ++ file ∷ [])
  All-snoc [] file a b = (b, tt)
  All-snoc (x ∷ v) file (p, a) b = (p, All-snoc v file a b)

  differ : (j key : Bytes) → bytes_eq j key ≡ false → bytes_eq key j ≡ false
  differ j key e = elim (Bool-cases (bytes_eq key j)) [
    | inr g ↦ g
    | inl g ↦
        absurd (true≢false (sym ((bytes_eq_iff j key).1 (sym ((bytes_eq_iff key j).0 g))) ∙ e))
  ]

  pub push_slot-IsMap :
      (key : Bytes) (file : ℕ) (slots : List Slot)
      → length key < 18446744073709551616
      → IsU32 file
      → IsMap slots
      → IsMap (push_slot cost key file slots).0
  unfolding push_slot
  push_slot-IsMap key file [] k u m = (tt, k, (u, tt), tt)
  push_slot-IsMap key file ((j, v, c) ∷ slots) k u (a, b, d, m) =
      elim (Bool-cases (bytes_eq j key)) [
        | inr e ↦ rw e (
          Fresh-push_slot j key file slots (differ j key e) a,
          b,
          d,
          push_slot-IsMap key file slots k u m,
        )
        | inl e ↦ elim (Bool-cases (last_is v file)) [
          | inl g ↦ rw (e, g) (a, b, d, m)
          | inr g ↦
              rw (e, g)
                (a, b, subst (All IsU32) (sym (push_file-files v c file)) (All-snoc v file d u), m)
        ]
      ]
