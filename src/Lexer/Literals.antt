-- ===== src/Lexer/Literals.antt =====
-- The rounds of `lex_c_like` at a raw string and at a single quote.
use greeg.Base.{
  ℕ, ◌+◌, ◌-◌, ◌≤◌, ◌<◌, ◌≡◌, inl, inr, refl, sym, ◌∙◌, arith, Bool, true, false, ◌&&◌, ◌||◌, not,
  Bytes, length, ltb, leb, ◌==◌, Bool-cases,
}
use mathlib.Core.Bool.{true≢false}
use Prim.Native.Nat.{min}
use greeg.Base.Scan.{scan, scan-ge}
use greeg.Lexer.{Lexed, byte, is_ascii_alphabetic, is_ident_byte}
use greeg.Lexer.Kept.{Barrier, Kept, prefix}
use greeg.Lexer.Push.{Kept-moves, spanned-Kept, Goes}
use greeg.Lexer.Reads.{scan_lem}
use greeg.Lexer.Strings.{
  closing_step, rust_raw_step, hashes_end, hash_step, is_prefixed, rust_raw_end, rust_raw_arm,
  js_step, escape_step, next_is, char_end, quote_arm,
}
use greeg.Lexer.Rounds.{rust_raw_step-stop, before-alpha, closing_step-alpha, arm-Goes, scan-Goes}

is_prefixed_lem :
    (src : Bytes) (i : ℕ)
    → is_prefixed src i ≡ true
    → (0 < i) × (is_ascii_alphabetic (byte src (i - 1)) ≡ true)
unfolding is_prefixed is_ascii_alphabetic
is_prefixed_lem src i h = (ground arith, ground arith)

hashes_end-ge : (src : Bytes) (i : ℕ) → i + 1 ≤ hashes_end src i
unfolding hashes_end
hashes_end-ge src i = scan-ge (hash_step src) (length src) (length src) (i + 1) tt

rust_raw_end_bounds :
    (src : Bytes) (i : ℕ)
    → i < length src
    → (i < rust_raw_end src i) × (rust_raw_end src i ≤ length src)
unfolding rust_raw_end
rust_raw_end_bounds src i l =
    let a = hashes_end-ge src i in
    let b =
      scan-ge (rust_raw_step src (hashes_end src i - (i + 1))) (length src) (length src)
        (hashes_end src i + 1) tt in
    (omega arith, omega arith)

-- A raw string ends with a quote or a `#`, or at the end of the file.
rust_raw_end-Barrier :
    (src : Bytes) (strict : Bool) (i : ℕ) → Barrier src strict (rust_raw_end src i)
unfolding rust_raw_end
rust_raw_end-Barrier src strict i =
    let hashes = hashes_end src i - (i + 1) in
    let e = scan_lem src (rust_raw_step src hashes) (hashes_end src i + 1) tt in
    elim e.how [
      | inr past ↦ inr (inr past)
      | inl b ↦
          let (quote, k) = rust_raw_step-stop src hashes b.at b.last b.state b.broke in
          let closing = scan (closing_step src hashes) (length src) (length src) (b.at + 1) 0 in
          let ge = scan-ge (closing_step src hashes) (length src) (length src) (b.at + 1) 0 in
          let r = b.result_eq in
          let found : scan (rust_raw_step src hashes) (length src) (length src)
                (hashes_end src i + 1) tt
              ≡ closing =
            omega arith in
          elim (Bool-cases (leb closing (length src))) [
            | inl small ↦
                let cut : min
                      (scan (rust_raw_step src hashes) (length src) (length src)
                        (hashes_end src i + 1) tt)
                      (length src)
                    ≡ closing =
                  (let s : closing ≤ length src = ground arith in omega arith) in
                inl (rw cut (closing_step-alpha src hashes b.at quote))
            | inr big ↦ inr (inr (let s : length src < closing = ground arith in omega arith))
          ]
    ]

char_end-ge : (src : Bytes) (i : ℕ) → i ≤ char_end src i
unfolding char_end
char_end-ge src i =
    let a = scan-ge (escape_step src i) (length src) (length src) (i + 3) tt in
    elim (Bool-cases (next_is src i b'\\')) [
      | inl e ↦ rw e (omega arith)
      | inr e ↦ rw e (elim (Bool-cases (ltb (i + 1) (length src))) [
        | inl f ↦ rw f (omega arith)
        | inr f ↦ rw f (omega arith)
      ])
    ]

module _ (src : Bytes) (strict : Bool) (small : length src < 4294967296) where
  pub rust_raw_arm-Goes :
      (i : ℕ) (out : Lexed)
      → Kept src strict i out
      → strict ≡ true
      → i < length src
      → byte src i ≡ b'r'
      → Goes src strict small i (rust_raw_arm src i out)
  unfolding rust_raw_arm
  rust_raw_arm-Goes i out k on l c =
      let (after, in_file) = rust_raw_end_bounds src i l in
      elim (Bool-cases (
        ltb (hashes_end src i) (length src)
        && byte src (hashes_end src i) == b'"'
        && (i == 0 || is_prefixed src i || not (is_ident_byte (byte src (i - 1)))))) [
          | inr e ↦ rw e (Kept-moves src strict small i (i + 1) out (omega arith) k, omega arith)
          | inl e ↦ elim (Bool-cases (is_prefixed src i)) [
            | inr f ↦
                rw (e, f)
                  (arm-Goes src strict small i (rust_raw_end src i) (rust_raw_end src i) _ out k
                    after (omega arith) in_file (λ _. rust_raw_end-Barrier src strict i))
            | inl f ↦
                let (pos, alpha) = is_prefixed_lem src i f in
                rw (e, f)
                  (
                    spanned-Kept src strict small i (rust_raw_end src i) (i - 1)
                        (rust_raw_end src i) _ out k
                        (prefix on l (λ n. (let g = sym c ∙ n in cc))
                          (λ j a b. (let same : j ≡ i - 1 = omega arith in rw same alpha)))
                        (omega arith) (omega arith) in_file
                        (λ _. rust_raw_end-Barrier src strict i),
                    after,
                  )
          ]
        ]

  pub quote_arm-Goes :
      (js : Bool) (i : ℕ) (out : Lexed)
      → Kept src strict i out
      → (strict ≡ true → js ≡ false)
      → Goes src strict small i (quote_arm src js i out)
  unfolding quote_arm
  quote_arm-Goes true i out k plain =
      scan-Goes src strict small (js_step src) tt i (i + 1) _ out k (omega arith)
        (λ on b. absurd (true≢false (plain on)))
  quote_arm-Goes false i out k plain =
      elim (Bool-cases (ltb (char_end src i) (length src) && byte src (char_end src i) == b'\'')) [
        | inr e ↦ rw e (Kept-moves src strict small i (i + 1) out (omega arith) k, omega arith)
        | inl e ↦
            let lt : char_end src i < length src = ground arith in
            let q : byte src (char_end src i) ≡ b'\'' = ground arith in
            rw e (
              arm-Goes src strict small i (char_end src i + 1) (char_end src i + 1) _ out k
                (let a = char_end-ge src i in omega arith) (omega arith) (omega arith)
                (λ _.
                  inl (before-alpha src (char_end src i + 1) (char_end src i) b'\'' refl q refl)))
      ]
