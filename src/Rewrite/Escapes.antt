-- ===== src/Rewrite/Escapes.antt =====
-- crates/greeg/src/rewrite.rs: what `posix_regex` writes for escapes and intervals keeps the text
-- balanced.
use mathlib.Core.Option.{some-injective, none-ne-some}
use greeg.Base.{
  ℕ, ◌+◌, ◌-◌, ◌≡◌, inl, inr, refl, sym, ap, ◌∙◌, arith, Bool, true, false, not, ◌&&◌, ◌||◌, some,
  [], ◌∷◌, Bytes, length, take, drop, leb, ◌==◌, codes, contains_char, bytes_eq, Bool-cases,
  Option-cases,
}
use greeg.Base.Binds.{Holds, refused, held, Holds-if}
use greeg.Rewrite.Bracket.{
  take_bounds, is_empty_text, count_char, is_ascii_punctuation, interval, braced,
}
use greeg.Rewrite.Posix.{
  Posix, push_text, open_group, add_alternative, PosixStep, escaped_interval, escape, brace,
}
use greeg.Rewrite.Scanned.{
  outside, scan_open, scan_char, and_then, scan_regex, Takes, Takes-append, all_plain,
  take_bounds-plain, is_plain, scan_char-plain,
}
use greeg.Rewrite.Classes.{IsClosed, braced-IsClosed}

-- The text so far has as many open groups as `depth` says, no open class and no open escape.
abbrev pub IsBalanced : Posix → Type 0
IsBalanced s = Takes s.out (outside 0) (outside s.depth)

pub push_text-IsBalanced :
    (text : Bytes) (s : Posix) → IsBalanced s → IsClosed text → IsBalanced (push_text text s)
push_text-IsBalanced text s h k =
    Takes-append s.out text (outside 0) (outside s.depth) (outside s.depth) h (k s.depth)

pub open_group-IsBalanced : (s : Posix) → IsBalanced s → IsBalanced (open_group s)
unfolding scan_regex scan_char scan_open and_then
open_group-IsBalanced s h =
    Takes-append s.out (codes "(") (outside 0) (outside s.depth) (outside (s.depth + 1)) h refl

pub close-IsBalanced :
    (s : Posix)
    → IsBalanced s
    → (s.depth == 0) ≡ false
    → IsBalanced (push_text (codes ")") (record s { depth = s.depth - 1 }))
unfolding scan_regex scan_char scan_open and_then
close-IsBalanced s h e =
    Takes-append s.out (codes ")") (outside 0) (outside s.depth) (outside (s.depth - 1)) h
      (rw e refl)

interval-plain :
    (cs close body : Bytes) (n : ℕ) → interval cs close ≡ some (body, n) → all_plain body ≡ true
unfolding interval
interval-plain cs close body n e =
    let bounds = take_bounds cs in
    let rest = take (length close) (drop (length bounds) cs) in
    elim (Bool-cases (
      not (is_empty_text bounds)
      && leb (count_char b',' bounds) 1
      && not (bytes_eq bounds (codes ","))
      && bytes_eq rest close)) [
        | inr f ↦ absurd (none-ne-some _ (rw f at e))
        | inl f ↦
            ap all_plain (sym (ap (λ r. r.0) (some-injective _ _ (rw f at e))))
            ∙ take_bounds-plain cs
      ]

pub escaped_pair : (e : ℕ) → IsClosed (b'\\' ∷ e ∷ [])
unfolding scan_regex scan_char scan_open and_then
escaped_pair e n = refl

pub plain_char : (c : ℕ) → is_plain c ≡ true → IsClosed (c ∷ [])
unfolding scan_regex and_then
plain_char c h n = rw (scan_char-plain c n 0 h) refl

-- A step that keeps the text balanced.
abbrev pub Keeps : PosixStep → Type 0
Keeps = Holds (λ r. IsBalanced r.0)

escaped_interval-Keeps :
    (cs : Bytes) (start : Bool) (s : Posix)
    → IsBalanced s
    → Keeps (escaped_interval (interval cs (codes "\\}")) start s)
unfolding escaped_interval
escaped_interval-Keeps cs start s h = elim (Option-cases (interval cs (codes "\\}"))) [
  | inl e ↦ rw (e, escaped_interval) (refused _)
  | inr ((body, n), e) ↦
      rw (e, escaped_interval)
        (Holds-if start (λ _. refused _)
          (λ _. held _ (
            push_text-IsBalanced (braced body) s h
              (braced-IsClosed body (interval-plain cs (codes "\\}") body n e)))))
]

pub brace-Keeps :
    (cs : Bytes) (s : Posix) → IsBalanced s → Keeps (brace (interval cs (codes "}")) s)
unfolding brace scan_regex scan_char scan_open and_then
brace-Keeps cs s h = elim (Option-cases (interval cs (codes "}"))) [
  | inl e ↦ rw (e, brace) (held _ (push_text-IsBalanced (codes "\\{") s h (λ n. refl)))
  | inr ((body, n), e) ↦
      rw (e, brace)
        (held _ (
          push_text-IsBalanced (braced body) s h
            (braced-IsClosed body (interval-plain cs (codes "}") body n e))))
]

pub add_alternative-IsBalanced : (s : Posix) → IsBalanced s → IsBalanced (add_alternative s)
unfolding scan_regex scan_char scan_open and_then
add_alternative-IsBalanced s h = push_text-IsBalanced (codes "|") s h (λ n. refl)

pub repeat_plain :
    (c : ℕ) (a b : Bool) → ((c == b'+' || c == b'?') && a && b) ≡ true → is_plain c ≡ true
unfolding contains_char
repeat_plain c a b h = ground arith

pub escape-Keeps :
    (extended start : Bool) (e : ℕ) (cs : Bytes) (s : Posix)
    → IsBalanced s
    → Keeps (escape extended start e cs s)
unfolding escape
escape-Keeps extended start e cs s h =
    Holds-if (e == b'(' && not extended) (λ _. held _ (open_group-IsBalanced s h))
      (λ _.
        Holds-if (e == b')' && not extended)
          (λ _. Holds-if (s.depth == 0) (λ _. refused _) (λ z. held _ (close-IsBalanced s h z)))
          (λ _.
            Holds-if (e == b'|' && not extended) (λ _. held _ (add_alternative-IsBalanced s h))
              (λ _.
                Holds-if ((e == b'+' || e == b'?') && not extended && not start)
                  (λ f. held _ (
                    push_text-IsBalanced (e ∷ []) s h
                      (plain_char e (repeat_plain e (not extended) (not start) f))))
                  (λ _.
                    Holds-if (e == b'{' && not extended) (λ _. escaped_interval-Keeps cs start s h)
                      (λ _.
                        Holds-if (contains_char (codes "<>bBwWsS") e)
                          (λ _. held _ (push_text-IsBalanced (b'\\' ∷ e ∷ []) s h (escaped_pair e)))
                          (λ _.
                            Holds-if (leb b'1' e && leb e b'9') (λ _. refused _)
                              (λ _.
                                Holds-if (is_ascii_punctuation e)
                                  (λ _.
                                    held _
                                      (push_text-IsBalanced (b'\\' ∷ e ∷ []) s h (escaped_pair e)))
                                  (λ _. refused _))))))))
