-- ===== src/Rewrite/Balanced.antt =====
-- crates/greeg/src/rewrite.rs: the expressions that `posix_regex` gives are balanced.
use greeg.Base.{
  ℕ, zero, suc, ◌≡◌, refl, subst, arith, Bool, true, false, not, ◌&&◌, ◌||◌, some, [], ◌∷◌, Bytes,
  ltb, ◌==◌, if◌then◌else◌, codes, contains_char, ok,
}
use greeg.Base.Binds.{Holds, refused, held, Holds-if, Holds-bind, Holds-ok}
use greeg.Rewrite.Posix.{Posix, escape_first, is_end, operator, posix_step, posix_loop, posix_regex}
use greeg.Rewrite.Scanned.{outside, scan_open, scan_char, and_then, scan_regex, Takes, is_plain}
use greeg.Rewrite.Classes.{IsClosed, bracket-IsClosed}
use greeg.Rewrite.Escapes.{
  IsBalanced, Keeps, push_text-IsBalanced, open_group-IsBalanced, close-IsBalanced, escaped_pair,
  plain_char, brace-Keeps, add_alternative-IsBalanced, repeat_plain, escape-Keeps,
}

escape_first-Keeps :
    (extended start : Bool) (cs : Bytes) (s : Posix)
    → IsBalanced s
    → Keeps (escape_first extended start cs s)
unfolding escape_first
escape_first-Keeps extended start [] s h = refused _
escape_first-Keeps extended start (e ∷ cs) s h = escape-Keeps extended start e cs s h

dollar-IsClosed : (ends : Bool) → IsClosed (if ends then codes "$" else codes "\\$")
unfolding scan_regex scan_char scan_open and_then
dollar-IsClosed true n = refl
dollar-IsClosed false n = refl

literal_outside :
    (c n : ℕ)
    → (c == b'[') ≡ false
    → (c == b'\\') ≡ false
    → contains_char (codes "+?{}()|") c ≡ false
    → scan_char c (outside n) ≡ some (outside n)
unfolding scan_char scan_open contains_char
literal_outside c n a b e = ground arith

literal-IsClosed :
    (c : ℕ)
    → (c == b'[') ≡ false
    → (c == b'\\') ≡ false
    → contains_char (codes "+?{}()|") c ≡ false
    → IsClosed (c ∷ [])
unfolding scan_regex and_then
literal-IsClosed c a b e n = rw (literal_outside c n a b e) refl

star_plain : (c : ℕ) → (c == b'*' || c == b'.') ≡ true → is_plain c ≡ true
unfolding contains_char
star_plain c h = ground arith

open_some : (a b : Bool) (n : ℕ) → (a && b && ltb 0 n) ≡ true → (n == 0) ≡ false
open_some a b n h = ground arith

-- The arms from `$` on.
operator-Keeps :
    (extended start : Bool) (c : ℕ) (cs : Bytes) (s : Posix)
    → IsBalanced s
    → (c == b'[') ≡ false
    → (c == b'\\') ≡ false
    → Keeps (operator extended start c cs s)
unfolding operator scan_regex scan_char scan_open and_then
operator-Keeps extended start c cs s h x y =
    Holds-if (c == b'$')
      (λ _. held _ (
        push_text-IsBalanced (if is_end extended cs then codes "$" else codes "\\$") s h
          (dollar-IsClosed (is_end extended cs))))
      (λ _.
        Holds-if ((c == b'+' || c == b'?') && extended && not start)
          (λ f. held _ (
            push_text-IsBalanced (c ∷ []) s h
              (plain_char c (repeat_plain c extended (not start) f))))
          (λ _.
            Holds-if (c == b'{' && extended && not start) (λ _. brace-Keeps cs s h)
              (λ _.
                Holds-if (c == b'(' && extended) (λ _. held _ (open_group-IsBalanced s h))
                  (λ _.
                    Holds-if (c == b')' && extended && ltb 0 s.depth)
                      (λ f.
                        held _ (close-IsBalanced s h (open_some (c == b')') extended s.depth f)))
                      (λ _.
                        Holds-if (c == b'|' && extended)
                          (λ _. held _ (add_alternative-IsBalanced s h))
                          (λ _.
                            Holds-if (contains_char (codes "+?{}()|") c)
                              (λ _.
                                held _ (push_text-IsBalanced (b'\\' ∷ c ∷ []) s h (escaped_pair c)))
                              (λ e. held _ (
                                push_text-IsBalanced (c ∷ []) s h (literal-IsClosed c x y e)))))))))

no_depth : (n : ℕ) → ltb 0 n ≡ false → n ≡ 0
no_depth n h = ground arith

posix_step-Keeps :
    (extended start : Bool) (c : ℕ) (cs : Bytes) (s : Posix)
    → IsBalanced s
    → Keeps (posix_step extended start c cs s)
unfolding posix_step scan_regex scan_char scan_open and_then
posix_step-Keeps extended start c cs s h =
    Holds-if (c == b'[')
      (λ _. Holds-bind (bracket-IsClosed cs) (λ b k. held _ (push_text-IsBalanced b.0 s h k)))
      (λ x.
        Holds-if (c == b'\\') (λ _. escape_first-Keeps extended start cs s h)
          (λ y.
            Holds-if (c == b'*' && start)
              (λ _. held _ (push_text-IsBalanced (codes "\\*") s h (λ n. refl)))
              (λ _.
                Holds-if (c == b'*' || c == b'.')
                  (λ e. held _ (push_text-IsBalanced (c ∷ []) s h (plain_char c (star_plain c e))))
                  (λ _.
                    Holds-if (c == b'^' && (extended || start))
                      (λ _. held _ (push_text-IsBalanced (codes "^") s h (λ n. refl)))
                      (λ _.
                        Holds-if (c == b'^')
                          (λ _. held _ (push_text-IsBalanced (codes "\\^") s h (λ n. refl)))
                          (λ _. operator-Keeps extended start c cs s h x y))))))

posix_loop-Balanced :
    (extended : Bool) (cs : Bytes) (skip : ℕ) (s : Posix)
    → IsBalanced s
    → Holds (λ out. Takes out (outside 0) (outside 0)) (posix_loop extended cs skip s)
unfolding posix_loop
posix_loop-Balanced extended [] skip s h =
    Holds-if (ltb 0 s.depth) (λ _. refused _)
      (λ e. held _ (subst (λ d. Takes s.out (outside 0) (outside d)) (no_depth s.depth e) h))
posix_loop-Balanced extended (c ∷ cs) (suc skip) s h = posix_loop-Balanced extended cs skip s h
posix_loop-Balanced extended (c ∷ cs) zero s h =
    Holds-bind (posix_step-Keeps extended s.at_start c cs (record s { at_start = false }) h)
      (λ r k. posix_loop-Balanced extended cs r.1 r.0 k)

-- An expression that `posix_regex` translates becomes one whose groups and classes are closed, whose
-- closing parentheses have an opening one before them, and which ends in no open escape.
pub posix_regex-balanced :
    (p out : Bytes) (extended : Bool)
    → posix_regex p extended ≡ ok out
    → scan_regex out (outside 0) ≡ some (outside 0)
unfolding posix_regex scan_regex
posix_regex-balanced p out extended e =
    Holds-ok out
      (posix_loop-Balanced extended p 0 (record { out = []; at_start = true; depth = 0 }) refl) e
