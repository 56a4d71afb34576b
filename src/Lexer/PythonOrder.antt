-- ===== src/Lexer/PythonOrder.antt =====
-- The spans of `lex_python` are in order and apart, and sorting them changes nothing.
use greeg.Base.{
  ℕ, zero, suc, ◌+◌, ◌≤◌, ◌<◌, ◌≡◌, ◌⊎◌, inl, inr, refl, sym, ◌∙◌, arith, Bool, true, false, ◌&&◌,
  ◌||◌, List, [], ◌∷◌, Bytes, length, ltb, leb, ◌==◌, All, Bool-cases, ==_iff,
}
use Prim.Native.Nat.{min}
use greeg.Base.Scan.{stop, scan-ge}
use greeg.Lexer.{Span, Lexed, no_lexed, byte, Memchr, line_end, is_ascii_alphabetic, lex_loop}
use greeg.Lexer.Kept.{All-imp, Sorted, Barrier, Kept, prefix}
use greeg.Lexer.Push.{Kept-moves, spanned-Kept, Goes, lex_loop-Kept_start}
use greeg.Lexer.Reads.{line_end_lem, Ending, scan_lem}
use greeg.Lexer.Rounds.{before-alpha, arm-Goes}
use greeg.Lexer.Python.{
  prefix_start, triple_at, python_step, python_end, python_string, python_body, insert_span,
  sort_spans, lex_python,
}

prefix_start-alpha :
    (src : Bytes) (start s k : ℕ)
    → prefix_start src start s ≤ k
    → k < s
    → is_ascii_alphabetic (byte src k) ≡ true
unfolding prefix_start
prefix_start-alpha src start zero k h l = absurd (omega arith)
prefix_start-alpha src start (suc s) k h l =
    elim (Bool-cases (is_ascii_alphabetic (byte src s) && ltb start (suc s + 3))) [
      | inr e ↦ let f = rw e at h in absurd (omega arith)
      | inl e ↦ elim (Bool-cases (k == s)) [
        | inl f ↦ let same : k ≡ s = (==_iff k s).0 f in rw same (ground arith)
        | inr f ↦ prefix_start-alpha src start s k (rw e at h) (ground arith)
      ]
    ]

abbrev Stops : Bytes → ℕ → ℕ → ℕ → Type 0
Stops src q i k =
    ((k ≡ 3) × (byte src (i + 2) ≡ q) × (i + 2 < length src))
    ⊎ ((k ≡ 1) × (byte src i ≡ q))
    ⊎ ((k ≡ 0) × (byte src i ≡ b'\n'))

python_step-stop :
    (src : Bytes) (q : ℕ) (triple is_raw : Bool) (i : ℕ) (s : Unit {0}) (k : ℕ)
    → python_step src q triple is_raw i s ≡ stop k
    → Stops src q i k
unfolding python_step
python_step-stop src q true is_raw i s k h = inl (ground arith, ground arith, ground arith)
python_step-stop src q false is_raw i s k h = elim (Bool-cases (byte src i == q)) [
  | inl e ↦ inr (inl (ground arith, (==_iff _ q).0 e))
  | inr e ↦ inr (inr (ground arith, ground arith))
]

module _ (src : Bytes) (small : length src < 4294967296) where
  python_end_bounds :
      (i : ℕ) (triple is_raw : Bool)
      → i < length src
      → (i < python_end src i triple is_raw) × (python_end src i triple is_raw ≤ length src)
  unfolding python_end
  python_end_bounds i true is_raw l =
      let a =
        scan-ge (python_step src (byte src i) true is_raw) (length src) (length src) (i + 3) tt in
      (omega arith, omega arith)
  python_end_bounds i false is_raw l =
      let a =
        scan-ge (python_step src (byte src i) false is_raw) (length src) (length src) (i + 1) tt in
      (omega arith, omega arith)

  Stops-Barrier :
      (q first e : ℕ) (triple is_raw : Bool)
      → ltb q b'A' ≡ true
      → Ending src (python_step src q triple is_raw) first e
      → Barrier src true (min e (length src))
  Stops-Barrier q first e triple is_raw h g = elim g.how [
    | inr past ↦ inr (inr past)
    | inl b ↦
        let r = b.result_eq in
        let lt = b.before in
        elim (python_step-stop src q triple is_raw b.at b.state b.last b.broke) [
          | inl (three, quote, l) ↦ inl (before-alpha src _ (b.at + 2) q (omega arith) quote h)
          | inr (inl (k, quote)) ↦ inl (before-alpha src _ b.at q (omega arith) quote h)
          | inr (inr (k, newline)) ↦
              let same : min e (length src) ≡ b.at = omega arith in inr (inl (rw same newline))
        ]
  ]

  python_end-Barrier :
      (i : ℕ) (triple is_raw : Bool)
      → ltb (byte src i) b'A' ≡ true
      → Barrier src true (python_end src i triple is_raw)
  unfolding python_end
  python_end-Barrier i triple is_raw h =
      Stops-Barrier (byte src i) _ _ triple is_raw h
        (scan_lem src (python_step src (byte src i) triple is_raw) _ tt)

  python_string-Goes :
      (i : ℕ) (out : Lexed)
      → i < length src
      → (byte src i == b'\'' || byte src i == b'"') ≡ true
      → Kept src true i out
      → Goes src true small i (python_string src i out)
  unfolding python_string
  python_string-Goes i out l q k =
      let (after, in_file) = python_end_bounds i (triple_at src (byte src i) i) _ l in
      (
        spanned-Kept src true small i _ (prefix_start src i i) _ _ out k
            (prefix refl l (λ n. (let f : ltb (byte src i) b' ' ≡ true = rw n refl in ground arith))
              (λ j a b. prefix_start-alpha src i i j a b))
            (omega arith) (omega arith) in_file (λ _. python_end-Barrier i _ _ (ground arith)),
        after,
      )

  python_body-Goes :
      (m : Memchr) (i : ℕ) (out : Lexed)
      → i < length src
      → Kept src true i out
      → Goes src true small i (python_body m src i out)
  unfolding python_body
  python_body-Goes m i out l k = elim (Bool-cases (byte src i == b'#')) [
    | inl e ↦
        let b : byte src i ≡ b'#' = (==_iff _ _).0 e in
        let r = line_end_lem m src i l (λ f. (let g = sym b ∙ f in cc)) in
        rw e (
          arm-Goes src true small i (line_end m src i) (line_end m src i) _ out k r.after
            (omega arith) r.in_file (λ _. inr r.ends))
    | inr e ↦ rw e (elim (Bool-cases (byte src i == b'\'' || byte src i == b'"')) [
      | inl f ↦ rw f (python_string-Goes i out l f k)
      | inr f ↦ rw f (Kept-moves src true small i (i + 1) out (omega arith) k, omega arith)
    ])
  ]

-- Spans in order are sorted already.
sort_spans-eq :
    (spans : List Span)
    → Sorted spans
    → All (λ (s : Span). s.start < s.end) spans
    → sort_spans spans ≡ spans
unfolding sort_spans insert_span
sort_spans-eq [] h a = refl
sort_spans-eq (s ∷ []) h a = refl
sort_spans-eq (s ∷ t ∷ spans) h a =
    let e : leb s.start t.start ≡ true = (let x = h.0.0 in let y = a.0 in ground arith) in
    rw (sort_spans-eq (t ∷ spans) h.1 a.1, e) refl

pub lex_python-Kept :
    (m : Memchr) (src : Bytes)
    → length src < 4294967296
    → (i : ℕ) × Kept src true i (lex_python m src) × (length src ≤ i)
unfolding lex_python
lex_python-Kept m src small =
    let (k, e) =
      lex_loop-Kept_start src true small (python_body m src) (python_body-Goes src small m) in
    let out = (lex_loop (python_body m src) (length src) (length src) 0 no_lexed).1 in
    (
      (lex_loop (python_body m src) (length src) (length src) 0 no_lexed).0,
      (let same =
            sort_spans-eq out.spans k.sorted
              (All-imp _ _ (λ s p. p.nonempty) out.spans k.spans_ok) in
          rw same k),
      e,
    )
