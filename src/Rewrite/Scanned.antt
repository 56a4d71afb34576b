-- ===== src/Rewrite/Scanned.antt =====
-- A Rust regex read for its groups, its classes, which nest, and its escapes: an independent
-- description of the expressions that `posix_regex` (crates/greeg/src/rewrite.rs) writes.
use mathlib.Core.Bool.{true≢false}
use mathlib.Core.Option.{some-injective, none-ne-some}
use greeg.Base.{
  ℕ, zero, suc, ◌+◌, ◌-◌, ◌≡◌, inl, inr, refl, sym, subst, arith, Bool, true, false, not, ◌&&◌,
  ◌||◌, Option, none, some, [], ◌∷◌, ◌++◌, Bytes, ◌==◌, if◌then◌else◌, codes, contains_char,
  is_ascii_digit, Bool-cases, Option-cases,
}
use greeg.Rewrite.Bracket.{take_bounds}

pub record RegexScan : Type 0 where
  pub groups : ℕ
  pub classes : ℕ
  pub escaped : Bool

abbrev pub outside : ℕ → RegexScan
outside n = record { groups = n; classes = 0; escaped = false }

abbrev pub inside : ℕ → RegexScan
inside n = record { groups = n; classes = 1; escaped = false }

-- A character that is not escaped: outside a class, and in `k + 1` classes.
unfoldable pub scan_open : ℕ → ℕ → ℕ → Option RegexScan
scan_open c n zero =
    if c == b'\\'
    then some (record { groups = n; classes = 0; escaped = true })
    else if c == b'['
    then some (inside n)
    else if c == b'('
    then some (outside (n + 1))
    else if c == b')'
    then if n == 0 then none else some (outside (n - 1))
    else some (outside n)
scan_open c n (suc k) =
    if c == b'\\'
    then some (record { groups = n; classes = suc k; escaped = true })
    else if c == b'['
    then some (record { groups = n; classes = suc (suc k); escaped = false })
    else if c == b']'
    then some (record { groups = n; classes = k; escaped = false })
    else some (record { groups = n; classes = suc k; escaped = false })

unfoldable pub scan_char : ℕ → RegexScan → Option RegexScan
unfolding scan_open
scan_char c s =
    if s.escaped then some (record s { escaped = false }) else scan_open c s.groups s.classes

unfoldable pub and_then : Option RegexScan → (RegexScan → Option RegexScan) → Option RegexScan
and_then none f = none
and_then (some s) f = f s

unfoldable pub scan_regex : Bytes → RegexScan → Option RegexScan
unfolding scan_char and_then
scan_regex [] s = some s
scan_regex (c ∷ cs) s = and_then (scan_char c s) (scan_regex cs)

-- A text takes the scan from one state to another.
abbrev pub Takes : Bytes → RegexScan → RegexScan → Type 0
Takes text s t = scan_regex text s ≡ some t

pub Takes-append :
    (a b : Bytes) (s t u : RegexScan) → Takes a s t → Takes b t u → Takes (a ++ b) s u
unfolding scan_regex and_then
Takes-append [] b s t u p q = subst (λ x. Takes b x u) (sym (some-injective _ _ p)) q
Takes-append (c ∷ a) b s t u p q = elim (Option-cases (scan_char c s)) [
  | inl e ↦ absurd (none-ne-some _ (rw e at p))
  | inr (r, e) ↦ rw e (Takes-append a b r t u (rw e at p) q)
]

-- A character that no scan reads apart.
abbrev pub is_plain : ℕ → Bool
is_plain c = not (contains_char (codes "\\[]()") c)

unfoldable pub all_plain : Bytes → Bool
all_plain [] = true
all_plain (c ∷ cs) = is_plain c && all_plain cs

pub scan_char-plain :
    (c : ℕ) (n k : ℕ)
    → is_plain c ≡ true
    → scan_char c (record { groups = n; classes = k; escaped = false })
      ≡ some (record { groups = n; classes = k; escaped = false })
unfolding scan_char scan_open contains_char
scan_char-plain c n zero h = ground arith
scan_char-plain c n (suc k) h = ground arith

pub Takes-plain :
    (text : Bytes) (n k : ℕ)
    → all_plain text ≡ true
    → Takes text
        (record { groups = n; classes = k; escaped = false })
        (record { groups = n; classes = k; escaped = false })
unfolding scan_regex and_then all_plain
Takes-plain [] n k h = refl
Takes-plain (c ∷ cs) n k h = elim (Bool-cases (is_plain c)) [
  | inl e ↦ rw (scan_char-plain c n k e) (Takes-plain cs n k (rw e at h))
  | inr e ↦ absurd (true≢false (sym (rw e at h)))
]

bound_plain : (c : ℕ) → (is_ascii_digit c || c == b',') ≡ true → is_plain c ≡ true
unfolding contains_char
bound_plain c h = ground arith

pub take_bounds-plain : (cs : Bytes) → all_plain (take_bounds cs) ≡ true
unfolding take_bounds all_plain
take_bounds-plain [] = refl
take_bounds-plain (c ∷ cs) = elim (Bool-cases (is_ascii_digit c || c == b',')) [
  | inr e ↦ rw e refl
  | inl e ↦ rw e (rw (bound_plain c e) (take_bounds-plain cs))
]
