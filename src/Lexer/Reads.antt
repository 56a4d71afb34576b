-- ===== src/Lexer/Reads.antt =====
-- What the lexers read ahead: lines, markers, and the end of an inner loop.
use greeg.Base.{
  ℕ, zero, suc, ◌+◌, ◌≤◌, ◌<◌, ◌≡◌, ◌≢◌, ◌⊎◌, inl, inr, refl, sym, ap, ◌∙◌, arith, true, [], ◌∷◌,
  Bytes, length, drop, ◌==◌, Bool-cases, Option-cases, ==_iff, strip_prefix, is_some, starts_with,
}
use Prim.Native.Nat.{min}
use greeg.Base.Scan.{Next, scan, Broke, scan-ge, scan-ends}
use greeg.Lexer.{byte, Memchr, line_end}

pub byte-drop : (i k : ℕ) (s : Bytes) → byte (drop i s) k ≡ byte s (i + k)
unfolding byte
byte-drop zero k s = let e : zero + k ≡ k = omega arith in rw e refl
byte-drop (suc i) k [] = refl
byte-drop (suc i) k (b ∷ s) =
    let e : suc i + k ≡ suc (i + k) = omega arith in rw e (byte-drop i k s)

pub length-drop : (i : ℕ) (s : Bytes) → i ≤ length s → i + length (drop i s) ≡ length s
length-drop zero s h = omega arith
length-drop (suc i) [] h = absurd (omega arith)
length-drop (suc i) (b ∷ s) h = omega (arith, length-drop i s (omega arith))

strip_prefix-length : (p s : Bytes) → is_some (strip_prefix p s) ≡ true → length p ≤ length s
unfolding strip_prefix is_some
strip_prefix-length [] s h = omega arith
strip_prefix-length (x ∷ p) [] h = cc
strip_prefix-length (x ∷ p) (c ∷ s) h = elim (Bool-cases (x == c)) [
  | inl e ↦ let r = strip_prefix-length p s (rw e at h) in omega arith
  | inr e ↦ let f = rw e at h in cc
]

pub starts_with-length : (s p : Bytes) → starts_with s p ≡ true → length p ≤ length s
unfolding starts_with
starts_with-length s p h = strip_prefix-length p s h

pub starts_with-byte : (s : Bytes) (c : ℕ) (p : Bytes) → starts_with s (c ∷ p) ≡ true → byte s 0 ≡ c
unfolding starts_with strip_prefix is_some byte
starts_with-byte [] c p h = cc
starts_with-byte (x ∷ s) c p h = elim (Bool-cases (c == x)) [
  | inl e ↦ sym ((==_iff c x).0 e)
  | inr e ↦ let f = rw e at h in cc
]

module _ (m : Memchr) (src : Bytes) where
  -- The rest of the line from a byte that does not end it.
  pub record LineEnd (i e : ℕ) : Type 0 where
    pub after : i < e
    pub in_file : e ≤ length src
    pub ends : (byte src e ≡ b'\n') ⊎ (length src ≤ e)

  pub line_end_lem : (i : ℕ) → i < length src → byte src i ≢ b'\n' → LineEnd i (line_end m src i)
  unfolding line_end
  line_end_lem i l ne = elim (Option-cases (m.memchr b'\n' (drop i src))) [
    | inl e ↦
        rw (e, line_end) (record { after = l; in_file = omega arith; ends = inr (omega arith) })
    | inr (k, e) ↦
        let (lt, b) = m.memchr-byte b'\n' (drop i src) k e in
        let c : byte src (i + k) ≡ b'\n' = sym (byte-drop i k src) ∙ b in
        let pos : 0 < k = elim (Bool-cases (k == 0)) [
          | inl z ↦
              let f : i + k ≡ i = (let g = (==_iff k 0).0 z in omega arith) in
              absurd (ne (ap (byte src) (sym f) ∙ c))
          | inr z ↦ ground arith
        ] in
        rw (e, line_end)
          (record {
            after = omega arith;
            in_file = omega (arith, length-drop i src (omega arith));
            ends = inl c;
          })
  ]

-- Where an inner loop ends, cut at the end of the file: after a `break`, or there.
pub record Ending {S : Type 0} (src : Bytes) (step : ℕ → S → Next S) (i e : ℕ) : Type 0 where
  pub after : i ≤ e
  pub cut_after : i ≤ length src → i ≤ min e (length src)
  pub cut_in : min e (length src) ≤ length src
  pub cut_le : min e (length src) ≤ e
  pub how : Broke step (length src) i e ⊎ (length src ≤ min e (length src))

pub scan_lem :
    {S : Type 0} (src : Bytes) (step : ℕ → S → Next S) (i : ℕ) (s : S)
    → Ending src step i (scan step (length src) (length src) i s)
scan_lem src step i s =
    let ge = scan-ge step (length src) (length src) i s in
    record {
      after = ge;
      cut_after = λ h. omega arith;
      cut_in = omega arith;
      cut_le = omega arith;
      how = elim (scan-ends step (length src) (length src) i s (omega arith)) [
        | inl b ↦ inl b
        | inr p ↦ inr (omega arith)
      ];
    }
