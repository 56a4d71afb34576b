-- ===== src/Plan/Hir.antt =====
-- What plan.rs reads of regex-syntax's `Hir`: one constructor for each `HirKind` that it matches on,
-- an alternation with its first branch apart (regex-syntax builds none without a branch). And the
-- byte strings that an expression matches, as regex-syntax documents them; look-arounds are taken
-- to match the empty string anywhere, which only adds matches.
use greeg.Base.{
  ℕ, zero, suc, ◌+◌, ◌/◌, ◌%◌, ◌≤◌, ◌≡◌, ◌⊎◌, Bool, true, Option, none, some, List, [], ◌∷◌, ◌++◌,
  Bytes, ltb, leb, if◌then◌else◌, ◌&&◌, ◌||◌,
}

-- The assertions; `word_plan` tells the two kinds of word boundary from the others.
pub data Look : Type 0 where
  word_ascii word_unicode other_look : Look

pub record Range : Type 0 where
  pub first : ℕ
  pub last : ℕ

pub data Class : Type 0 where
  unicode : List Range → Class
  bytes : List Range → Class

mutual
  pub data Hir : Type 0 where
    empty : Hir
    look : Look → Hir
    literal : Bytes → Hir
    class : Class → Hir
    repetition : ℕ → Option ℕ → Hir → Hir
    capture : Hir → Hir
    concat : Hirs → Hir
    alternation : Hir → Hirs → Hir

  pub data Hirs : Type 0 where
    nil : Hirs
    cons : Hir → Hirs → Hirs

-- `char::from_u32` succeeds.
abbrev pub is_char : ℕ → Bool
is_char cp = ltb cp 0xD800 || (leb 0xE000 cp && ltb cp 0x110000)

-- `ch.to_string().into_bytes()`
unfoldable pub encode_utf8 : ℕ → Bytes
encode_utf8 cp =
    if ltb cp 0x80
    then cp ∷ []
    else if ltb cp 0x800
    then (0xC0 + cp / 64) ∷ (0x80 + cp % 64) ∷ []
    else if ltb cp 0x10000
    then (0xE0 + cp / 4096) ∷ (0x80 + cp / 64 % 64) ∷ (0x80 + cp % 64) ∷ []
    else (0xF0 + cp / 262144)
      ∷ (0x80 + cp / 4096 % 64)
      ∷ (0x80 + cp / 64 % 64)
      ∷ (0x80 + cp % 64)
      ∷ []

abbrev pub InRange : ℕ → Range → Type 0
InRange x r = (r.first ≤ x) × (x ≤ r.last)

-- A range of the list holds `x`.
abbrev pub InRanges : ℕ → List Range → Type 0
InRanges x [] = ⊥
InRanges x (r ∷ rs) = InRange x r ⊎ InRanges x rs

-- The texts of a class: a character's UTF-8, or a byte.
pub data ClassHas : Class → Bytes → Type 0 where
  unicode :
      {rs : List Range} (cp : ℕ)
      → is_char cp ≡ true
      → InRanges cp rs
      → ClassHas (Class.unicode rs) (encode_utf8 cp)
  bytes : {rs : List Range} (b : ℕ) → InRanges b rs → ClassHas (Class.bytes rs) (b ∷ [])

abbrev pub AtMost : ℕ → Option ℕ → Type 0
AtMost n none = Unit
AtMost n (some m) = n ≤ m

mutual
  pub data Matches : Hir → Bytes → Type 0 where
    empty : Matches Hir.empty []
    look : (l : Look) → Matches (Hir.look l) []
    literal : (bs : Bytes) → Matches (Hir.literal bs) bs
    class : {c : Class} {bs : Bytes} → ClassHas c bs → Matches (Hir.class c) bs
    repetition :
        {min : ℕ} {max : Option ℕ} {h : Hir} {bs : Bytes} (n : ℕ)
        → min ≤ n
        → AtMost n max
        → Copies h n bs
        → Matches (Hir.repetition min max h) bs
    capture : {h : Hir} {bs : Bytes} → Matches h bs → Matches (Hir.capture h) bs
    concat : {hs : Hirs} {bs : Bytes} → Sequence hs bs → Matches (Hir.concat hs) bs
    first : {h : Hir} {hs : Hirs} {bs : Bytes} → Matches h bs → Matches (Hir.alternation h hs) bs
    later : {h : Hir} {hs : Hirs} {bs : Bytes} → Branch hs bs → Matches (Hir.alternation h hs) bs

  -- `n` matches of one expression, one after the other.
  pub data Copies : Hir → ℕ → Bytes → Type 0 where
    stop : {h : Hir} → Copies h zero []
    copy :
        {h : Hir} {n : ℕ} {xs ys : Bytes}
        → Matches h xs
        → Copies h n ys
        → Copies h (suc n) (xs ++ ys)

  -- Matches of the expressions in order.
  pub data Sequence : Hirs → Bytes → Type 0 where
    end : Sequence Hirs.nil []
    step :
        {h : Hir} {hs : Hirs} {xs ys : Bytes}
        → Matches h xs
        → Sequence hs ys
        → Sequence (Hirs.cons h hs) (xs ++ ys)

  -- A match of one of the expressions.
  pub data Branch : Hirs → Bytes → Type 0 where
    this : {h : Hir} {hs : Hirs} {bs : Bytes} → Matches h bs → Branch (Hirs.cons h hs) bs
    next : {h : Hir} {hs : Hirs} {bs : Bytes} → Branch hs bs → Branch (Hirs.cons h hs) bs
