-- ===== src/Rewrite/Classes.antt =====
-- crates/greeg/src/rewrite.rs: the texts that `bracket` gives are closed classes.
use mathlib.Core.Bool.{true≢false}
use greeg.Base.{
  ℕ, zero, suc, ◌+◌, ◌≡◌, inl, inr, refl, sym, ap, ◌∙◌, arith, Bool, true, false, ◌&&◌, ◌||◌, some,
  List, [], ◌∷◌, ◌++◌, Bytes, length, drop, ◌==◌, if◌then◌else◌, codes, starts_with, contains_char,
  contains_text, bytes_eq, bytes_eq_iff, Bool-cases,
}
use greeg.Base.Binds.{Holds, refused, held, Holds-if, Holds-bind}
use greeg.Rewrite.Bracket.{
  braced, class_names, before_colon, class_member, member, bracket_loop, members, bracket,
}
use greeg.Rewrite.Scanned.{
  outside, inside, scan_open, scan_char, and_then, scan_regex, Takes, Takes-append, all_plain,
  Takes-plain,
}

-- A text that leaves the groups as they are, and one that begins a class.
abbrev pub IsClosed : Bytes → Type 0
IsClosed text = (n : ℕ) → Takes text (outside n) (outside n)

abbrev pub IsOpen : Bytes → Type 0
IsOpen text = (n : ℕ) → Takes text (outside n) (inside n)

abbrev pub IsMember : Bytes → Type 0
IsMember text = (n : ℕ) → Takes text (inside n) (inside n)

pub braced-IsClosed : (body : Bytes) → all_plain body ≡ true → IsClosed (braced body)
unfolding braced scan_regex scan_char scan_open and_then
braced-IsClosed body h n =
    let zero_bound = if starts_with body (codes ",") then codes "0" else [] in
    Takes-append (codes "{" ++ zero_bound ++ body) (codes "}") (outside n) (outside n) (outside n)
      (Takes-append (codes "{" ++ zero_bound) body (outside n) (outside n) (outside n)
        (Takes-append (codes "{") zero_bound (outside n) (outside n) (outside n) refl
          (elim (Bool-cases (starts_with body (codes ","))) [
            | inl e ↦ rw e refl
            | inr e ↦ rw e refl
          ]))
        (Takes-plain body n 0 h))
      refl

-- The texts of a table whose texts are plain are plain.
plain_texts : List Bytes → Bool
plain_texts [] = true
plain_texts (v ∷ vs) = all_plain v && plain_texts vs

contains_text-plain :
    (vs : List Bytes) (w : Bytes)
    → plain_texts vs ≡ true
    → contains_text vs w ≡ true
    → all_plain w ≡ true
unfolding plain_texts contains_text
contains_text-plain [] w h e = absurd (true≢false (sym e))
contains_text-plain (v ∷ vs) w h e = elim (Bool-cases (all_plain v)) [
  | inr f ↦ absurd (true≢false (sym (rw f at h)))
  | inl f ↦ elim (Bool-cases (bytes_eq v w)) [
    | inl g ↦ ap all_plain (sym ((bytes_eq_iff v w).0 g)) ∙ f
    | inr g ↦ contains_text-plain vs w (rw f at h) (rw g at e)
  ]
]

and-left : (a b : Bool) → a && b ≡ true → a ≡ true
and-left true b h = refl
and-left false b h = h

class_member-IsMember : (name cs : Bytes) → Holds (λ m. IsMember m.0) (class_member name cs)
unfolding class_member scan_regex scan_char scan_open and_then plain_texts all_plain contains_char
class_member-IsMember name cs =
    let closes = starts_with (drop (length name + 2) cs) (codes "]") in
    Holds-if (contains_text class_names name && closes)
      (λ e. held _ (λ n.
        let plain =
          contains_text-plain class_names name refl
            (and-left (contains_text class_names name) closes e) in
        Takes-append (codes "[:" ++ name) (codes ":]") (inside n)
          (record { groups = n; classes = 2; escaped = false }) (inside n)
          (Takes-append (codes "[:") name (inside n)
            (record { groups = n; classes = 2; escaped = false })
            (record { groups = n; classes = 2; escaped = false }) refl (Takes-plain name n 2 plain))
          refl))
      (λ _. refused _)

literal_member :
    (c n : ℕ)
    → (c == b']') ≡ false
    → contains_char (codes "[\\&~") c ≡ false
    → scan_char c (inside n) ≡ some (inside n)
unfolding scan_char scan_open contains_char
literal_member c n h e = ground arith

member-IsMember :
    (c : ℕ) (cs : Bytes) → (c == b']') ≡ false → Holds (λ m. IsMember m.0) (member c cs)
unfolding member scan_regex scan_char scan_open and_then
member-IsMember c cs h =
    Holds-if (c == b'[' && starts_with cs (codes ":"))
      (λ _. class_member-IsMember (before_colon (drop 1 cs)) cs)
      (λ _.
        Holds-if (c == b'[' && (starts_with cs (codes "=") || starts_with cs (codes ".")))
          (λ _. refused _)
          (λ _.
            Holds-if (contains_char (codes "[\\&~") c) (λ _. held _ (λ n. refl))
              (λ e.
                Holds-if (c == b'-' && starts_with cs (codes "-")) (λ _. refused _)
                  (λ _. held _ (λ n. rw (literal_member c n h e) refl)))))

bracket_loop-IsClosed :
    (cs : Bytes) (skip : ℕ) (out : Bytes) (read : ℕ)
    → IsOpen out
    → Holds (λ r. IsClosed r.0) (bracket_loop cs skip out read)
unfolding bracket_loop scan_regex scan_char scan_open and_then
bracket_loop-IsClosed [] skip out read h = refused _
bracket_loop-IsClosed (c ∷ cs) (suc skip) out read h =
    bracket_loop-IsClosed cs skip out (read + 1) h
bracket_loop-IsClosed (c ∷ cs) zero out read h =
    Holds-if (c == b']')
      (λ _.
        held _ (λ n. Takes-append out (codes "]") (outside n) (inside n) (outside n) (h n) refl))
      (λ e. Holds-bind (member-IsMember c cs e) (λ m k.
        bracket_loop-IsClosed cs m.1 (out ++ m.0) (read + 1)
          (λ n. Takes-append out m.0 (outside n) (inside n) (inside n) (h n) (k n))))

members-IsClosed :
    (cs out : Bytes) (read : ℕ) → IsOpen out → Holds (λ r. IsClosed r.0) (members cs out read)
unfolding members scan_regex scan_char scan_open and_then
members-IsClosed cs out read h =
    Holds-if (starts_with cs (codes "]"))
      (λ _.
        bracket_loop-IsClosed (drop 1 cs) 0 (out ++ codes "\\]") (read + 1)
          (λ n. Takes-append out (codes "\\]") (outside n) (inside n) (inside n) (h n) refl))
      (λ _. bracket_loop-IsClosed cs 0 out read h)

pub bracket-IsClosed : (cs : Bytes) → Holds (λ r. IsClosed r.0) (bracket cs)
unfolding bracket scan_regex scan_char scan_open and_then
bracket-IsClosed cs =
    Holds-if (starts_with cs (codes "^"))
      (λ _. members-IsClosed (drop 1 cs) (codes "[^") 1 (λ n. refl))
      (λ _. members-IsClosed cs (codes "[") 0 (λ n. refl))
