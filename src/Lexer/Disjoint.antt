-- ===== src/Lexer/Disjoint.antt =====
-- The spans of `lex_c_like` are in order and apart, and no brace is inside one.
use greeg.Base.{
  ℕ, ◌+◌, ◌≤◌, ◌<◌, ◌≡◌, inl, inr, refl, sym, ◌∙◌, arith, Bool, true, false, ◌&&◌, ◌||◌, Bytes,
  length, ◌==◌, Bool-cases, if◌then◌else◌, ==_iff,
}
use mathlib.Core.Bool.{true≢false}
use greeg.Lexer.{Lexed, byte, Memchr, push_brace, is_ascii_alphabetic, lex_loop, no_lexed}
use greeg.Lexer.Kept.{Kept}
use greeg.Lexer.Push.{Kept-moves, push_brace-Kept, Goes, lex_loop-Kept_start}
use greeg.Lexer.Strings.{next_is, string_arm, rust_raw_arm, quote_arm, template_arm}
use greeg.Lexer.CLike.{regex_can_start, c_like_body, lex_c_like}
use greeg.Lexer.Rounds.{
  line_comment_arm-Goes, block_comment_arm-Goes, regex_arm-Goes, template_arm-Goes, string_arm-Goes,
}
use greeg.Lexer.Literals.{rust_raw_arm-Goes, quote_arm-Goes}

brace-alpha :
    (b c : ℕ) → (b == c) ≡ true → is_ascii_alphabetic c ≡ false → is_ascii_alphabetic b ≡ false
brace-alpha b c e h = rw ((==_iff b c).0 e) h

open-alpha : is_ascii_alphabetic b'{' ≡ false
unfolding is_ascii_alphabetic
open-alpha = refl

close-alpha : is_ascii_alphabetic b'}' ≡ false
unfolding is_ascii_alphabetic
close-alpha = refl

and_left : (a b : Bool) → (a && b) ≡ true → a ≡ true
and_left true b e = refl
and_left false b e = cc

and_right : (a b : Bool) → (a && b) ≡ true → b ≡ true
and_right true b e = e
and_right false b e = cc

off_of : (a b : Bool) → b ≡ true → (a ≡ true → b ≡ false) → a ≡ false
off_of true b e f = absurd (true≢false (sym e ∙ f refl))
off_of false b e f = refl

module _ (m : Memchr) (src : Bytes) (nested rust js kotlin : Bool) (small : length src < 4294967296)
    (not_js : rust ≡ true → js ≡ false) (not_kotlin : rust ≡ true → kotlin ≡ false) where
  -- The arms after the comments.
  rest-Goes :
      (i : ℕ) (out : Lexed)
      → i < length src
      → Kept src rust i out
      → Goes src rust small i (
          if byte src i == b'"'
          then string_arm src rust kotlin i out
          else if byte src i == b'r' && rust && (next_is src i b'"' || next_is src i b'#')
          then rust_raw_arm src i out
          else if byte src i == b'\''
          then quote_arm src js i out
          else if byte src i == b'`' && js
          then template_arm src i out
          else if byte src i == b'{'
          then (i + 1, push_brace i true out)
          else if byte src i == b'}'
          then (i + 1, push_brace i false out)
          else (i + 1, out))
  rest-Goes i out l k = elim (Bool-cases (byte src i == b'"')) [
    | inl e ↦ rw e (string_arm-Goes src rust small kotlin i out k not_kotlin)
    | inr e ↦
        rw e
          (elim (Bool-cases
            (byte src i == b'r' && rust && (next_is src i b'"' || next_is src i b'#'))) [
              | inl f ↦ rw f (
                  rust_raw_arm-Goes src rust small i out k (and_right _ rust (and_left _ _ f)) l
                    ((==_iff _ _).0 (and_left _ rust (and_left _ _ f))))
              | inr f ↦ rw f (elim (Bool-cases (byte src i == b'\'')) [
                | inl g ↦ rw g (quote_arm-Goes src rust small js i out k not_js)
                | inr g ↦ rw g (elim (Bool-cases (byte src i == b'`' && js)) [
                  | inl h ↦ rw h (
                      template_arm-Goes src rust small i out k
                        (off_of rust js (and_right _ js h) not_js))
                  | inr h ↦ rw h (elim (Bool-cases (byte src i == b'{')) [
                    | inl o ↦ rw o (
                      push_brace-Kept src rust small i true out l (brace-alpha _ _ o open-alpha) k,
                      omega arith,
                    )
                    | inr o ↦ rw o (elim (Bool-cases (byte src i == b'}')) [
                      | inl c ↦ rw c (
                        push_brace-Kept src rust small i false out l (brace-alpha _ _ c close-alpha)
                            k,
                        omega arith,
                      )
                      | inr c ↦
                          rw c
                            (Kept-moves src rust small i (i + 1) out (omega arith) k, omega arith)
                    ])
                  ])
                ])
              ])
            ])
  ]

  c_like_body-Goes :
      (i : ℕ) (out : Lexed)
      → i < length src
      → Kept src rust i out
      → Goes src rust small i (c_like_body m src nested rust js kotlin i out)
  unfolding c_like_body
  c_like_body-Goes i out l k = elim (Bool-cases (byte src i == b'/' && next_is src i b'/')) [
    | inl e ↦
        rw e
          (line_comment_arm-Goes src rust small m rust i out k l ((==_iff _ _).0 (and_left _ _ e)))
    | inr e ↦ rw e (elim (Bool-cases (byte src i == b'/' && next_is src i b'*')) [
      | inl f ↦ rw f (block_comment_arm-Goes src rust small nested i out k)
      | inr f ↦ rw f (elim (Bool-cases (byte src i == b'/' && js && regex_can_start src i)) [
        | inl g ↦ rw g (
            regex_arm-Goes src rust small i out k
              (off_of rust js (and_right (byte src i == b'/') js (and_left _ _ g)) not_js))
        | inr g ↦ rw g (rest-Goes i out l k)
      ])
    ])
  ]

  pub lex_c_like-Kept :
      (i : ℕ) × Kept src rust i (lex_c_like m src nested rust js kotlin) × (length src ≤ i)
  unfolding lex_c_like
  lex_c_like-Kept =
      let (k, e) =
        lex_loop-Kept_start src rust small (c_like_body m src nested rust js kotlin)
          c_like_body-Goes in
      (
        (lex_loop (c_like_body m src nested rust js kotlin) (length src) (length src) 0 no_lexed).0,
        k,
        e,
      )

  -- With as many rounds as the file has bytes, the outer loop of `lex_c_like` ends by its own test.
  pub lex_c_like_ends :
      length src
      ≤ (lex_loop (c_like_body m src nested rust js kotlin) (length src) (length src) 0 no_lexed).0
  lex_c_like_ends =
      (lex_loop-Kept_start src rust small (c_like_body m src nested rust js kotlin)
        c_like_body-Goes).1
