-- ===== src/Lexer/Rounds.antt =====
-- Each round of `lex_c_like` keeps the spans and braces in order and moves on.
use greeg.Base.{
  ap₂, ℕ, suc, ◌+◌, ◌-◌, ◌≤◌, ◌<◌, ◌≡◌, inl, inr, refl, sym, ◌∙◌, arith, Bool, true, false, ◌&&◌,
  Bytes, length, ltb, Bool-cases,
}
use mathlib.Core.Bool.{true≢false}
use Prim.Native.Nat.{min}
use greeg.Base.Scan.{Next, on, stop, scan, Broke, scan_inv}
use greeg.Lexer.{SpanKind, Lexed, byte, Memchr, spanned, line_end, is_ascii_alphabetic}
use greeg.Lexer.Kept.{Barrier, Kept, here}
use greeg.Lexer.Push.{spanned-Kept, Goes}
use greeg.Lexer.Reads.{line_end_lem, scan_lem}
use greeg.Lexer.Strings.{
  next_two_are, kotlin_raw_step, string_step, string_arm, closing_step, rust_raw_step,
  template_step, template_arm,
}
use greeg.Lexer.CLike.{comment_step, regex_step, line_comment_arm, block_comment_arm, regex_arm}

comment_step-stop :
    (src : Bytes) (nested : Bool) (i depth k : ℕ)
    → comment_step src nested i depth ≡ stop k
    → (k ≡ 2) × (byte src (i + 1) ≡ b'/') × (i + 1 < length src)
unfolding comment_step
comment_step-stop src nested i depth k h = (ground arith, ground arith, ground arith)

string_step-stop :
    (src : Bytes) (i depth k : ℕ)
    → string_step src true false i depth ≡ stop k
    → (k ≡ 1) × (byte src i ≡ b'"')
unfolding string_step
string_step-stop src i depth k h = (ground arith, ground arith)

closing_step-on :
    (src : Bytes) (hashes i h k h' : ℕ)
    → closing_step src hashes i h ≡ on k h'
    → (k ≡ 0) × (byte src i ≡ b'#')
unfolding closing_step
closing_step-on src hashes i h k h' e = (ground arith, ground arith)

closing_step-stop : (src : Bytes) (hashes i h k : ℕ) → closing_step src hashes i h ≡ stop k → k ≡ 0
unfolding closing_step
closing_step-stop src hashes i h k e = ground arith

pub rust_raw_step-stop :
    (src : Bytes) (hashes j k : ℕ) (s : Unit {0})
    → rust_raw_step src hashes j s ≡ stop k
    → (byte src j ≡ b'"')
      × (k ≡ scan (closing_step src hashes) (length src) (length src) (j + 1) 0 - j)
unfolding rust_raw_step
rust_raw_step-stop src hashes j k s e = (ground arith, ground arith)

-- Bytes that are no letters.
not_alpha : (b : ℕ) → ltb b b'A' ≡ true → is_ascii_alphabetic b ≡ false
unfolding is_ascii_alphabetic
not_alpha b e = ground arith

-- The byte before `e` is `c`, which is no letter.
pub before-alpha :
    (src : Bytes) (e i c : ℕ)
    → e ≡ i + 1
    → byte src i ≡ c
    → ltb c b'A' ≡ true
    → is_ascii_alphabetic (byte src (e - 1)) ≡ false
before-alpha src e i c p q h = let f : e - 1 ≡ i = omega arith in rw (f, q) (not_alpha c h)

pub closing_step-alpha :
    (src : Bytes) (hashes : ℕ) (j : ℕ)
    → byte src j ≡ b'"'
    → is_ascii_alphabetic
        (byte src (scan (closing_step src hashes) (length src) (length src) (j + 1) 0 - 1))
      ≡ false
closing_step-alpha src hashes j q =
    scan_inv (λ e. is_ascii_alphabetic (byte src (e - 1)) ≡ false) (closing_step src hashes)
      (length src)
      (λ i s s' k l p h.
        let (z, b) = closing_step-on src hashes i s k s' h in
        before-alpha src (i + suc k) i b'#' (omega arith) b refl)
      (λ i s k l p h.
        let f : i + k ≡ i = (let z = closing_step-stop src hashes i s k h in omega arith) in rw f p)
      (length src) (j + 1) 0 (before-alpha src (j + 1) j b'"' refl q refl)

module _ (src : Bytes) (strict : Bool) (small : length src < 4294967296) where
  pub arm-Goes :
      (i j end : ℕ) (kind : SpanKind) (out : Lexed)
      → Kept src strict i out
      → i < j
      → end ≤ j
      → end ≤ length src
      → (strict ≡ true → Barrier src strict end)
      → Goes src strict small i (j, spanned out i end kind)
  arm-Goes i j end kind out k h g f b =
      (spanned-Kept src strict small i j i end kind out k here (omega arith) g f b, h)

  -- An arm whose end is that of an inner loop.
  pub scan-Goes :
      {S : Type 0} (step : ℕ → S → Next S) (s : S) (i first : ℕ) (kind : SpanKind) (out : Lexed)
      → Kept src strict i out
      → i < first
      → (strict ≡ true
          → Broke step (length src) first (scan step (length src) (length src) first s)
          → Barrier src strict (min (scan step (length src) (length src) first s) (length src)))
      → Goes src strict small i (
        scan step (length src) (length src) first s,
        spanned out i (min (scan step (length src) (length src) first s) (length src)) kind,
      )
  scan-Goes step s i first kind out k h b =
      let e = scan_lem src step first s in
      let after = e.after in
      arm-Goes i (scan step (length src) (length src) first s) _ kind out k (omega arith) e.cut_le
        e.cut_in (λ on. elim e.how [ inl broke ↦ b on broke | inr past ↦ inr (inr past) ])

  pub line_comment_arm-Goes :
      (m : Memchr) (rust : Bool) (i : ℕ) (out : Lexed)
      → Kept src strict i out
      → i < length src
      → byte src i ≡ b'/'
      → Goes src strict small i (line_comment_arm m src rust i out)
  unfolding line_comment_arm
  line_comment_arm-Goes m rust i out k l b =
      let e = line_end_lem m src i l (λ f. (let g = sym b ∙ f in cc)) in
      arm-Goes i (line_end m src i) (line_end m src i) _ out k e.after (omega arith) e.in_file
        (λ on. inr e.ends)

  pub block_comment_arm-Goes :
      (nested : Bool) (i : ℕ) (out : Lexed)
      → Kept src strict i out
      → Goes src strict small i (block_comment_arm src nested i out)
  unfolding block_comment_arm
  block_comment_arm-Goes nested i out k =
      scan-Goes (comment_step src nested) 1 i (i + 2) _ out k (omega arith) (λ on b.
        let (two, slash, lt) = comment_step-stop src nested b.at b.state b.last b.broke in
        let r = b.result_eq in inl (before-alpha src _ (b.at + 1) b'/' (omega arith) slash refl))

  pub regex_arm-Goes :
      (i : ℕ) (out : Lexed)
      → Kept src strict i out
      → strict ≡ false
      → Goes src strict small i (regex_arm src i out)
  unfolding regex_arm
  regex_arm-Goes i out k off =
      scan-Goes (regex_step src) false i (i + 1) _ out k (omega arith)
        (λ on b. absurd (true≢false (sym on ∙ off)))

  pub template_arm-Goes :
      (i : ℕ) (out : Lexed)
      → Kept src strict i out
      → strict ≡ false
      → Goes src strict small i (template_arm src i out)
  unfolding template_arm
  template_arm-Goes i out k off =
      scan-Goes (template_step src) 0 i (i + 1) _ out k (omega arith)
        (λ on b. absurd (true≢false (sym on ∙ off)))

  pub string_arm-Goes :
      (kotlin : Bool) (i : ℕ) (out : Lexed)
      → Kept src strict i out
      → (strict ≡ true → kotlin ≡ false)
      → Goes src strict small i (string_arm src strict kotlin i out)
  unfolding string_arm
  string_arm-Goes kotlin i out k plain = elim (Bool-cases (kotlin && next_two_are src i b'"')) [
    | inl e ↦ rw e (
        scan-Goes (kotlin_raw_step src) tt i (i + 3) _ out k (omega arith)
          (λ on b. absurd (let p = plain on in ground arith)))
    | inr e ↦ rw e (
        scan-Goes (string_step src strict kotlin) 0 i (i + 1) _ out k (omega arith) (λ on b.
          let step = ap₂ (λ r t. string_step src r t b.at b.state) on (plain on) in
          let (one, q) = string_step-stop src b.at b.state b.last (sym step ∙ b.broke) in
          let r = b.result_eq in
          let lt = b.before in inl (before-alpha src _ b.at b'"' (omega arith) q refl)))
  ]
