-- ===== src/Lexer.antt =====
-- crates/greeg-lang/src/lexer.rs: comment and string spans. `Lexed` and what the lexers share; each
-- of them is a child module. The crate memchr is an interface with its documented results.
pub mod Generic
pub mod Python
pub mod Strings
pub mod CLike
pub mod Lex
pub mod Kept
pub mod Push
pub mod Reads
pub mod Rounds
pub mod Literals
pub mod PythonOrder
pub mod GenericOrder
pub mod Disjoint
pub mod SpanAt
mod Tests
use greeg.Base.{
  ℕ, zero, suc, ◌+◌, ◌%◌, ◌≤◌, ◌<◌, ◌≡◌, Bool, true, false, ◌&&◌, ◌||◌, Option, none, some, List,
  [], ◌∷◌, ◌++◌, Bytes, length, take, drop, ltb, leb, ◌==◌, if◌then◌else◌, is_ascii_uppercase,
  is_ascii_lowercase, is_ascii_alphanumeric, contains_char,
}

pub data SpanKind : Type 0 where
  comment string docstring : SpanKind

pub record Span : Type 0 where
  pub start : ℕ
  pub end : ℕ
  pub kind : SpanKind

pub record Brace : Type 0 where
  pub off : ℕ
  pub open_brace : Bool

pub record Lexed : Type 0 where
  pub spans : List Span
  pub braces : List Brace

abbrev pub no_lexed : Lexed
no_lexed = record { spans = []; braces = [] }

-- `src[i]`; past the end, where the code does not read, a number that is no byte.
unfoldable pub byte : Bytes → ℕ → ℕ
byte [] i = 256
byte (b ∷ src) zero = b
byte (b ∷ src) (suc i) = byte src i

-- `memchr::memchr` and `memchr::memmem::find`.
pub record Memchr : Type 0 where
  pub memchr : ℕ → Bytes → Option ℕ
  pub find : Bytes → Bytes → Option ℕ
  pub memchr-byte :
      (b : ℕ) (src : Bytes) (k : ℕ) → memchr b src ≡ some k → (k < length src) × (byte src k ≡ b)
  pub find-lt :
      (src needle : Bytes) (k : ℕ) → find src needle ≡ some k → k + length needle ≤ length src

-- `x as u32`
abbrev pub as_u32 : ℕ → ℕ
as_u32 x = x % 4294967296

unfoldable pub push_span : List Span → ℕ → ℕ → SpanKind → List Span
push_span out start end kind =
    if ltb start end
    then out ++ record { start = as_u32 start; end = as_u32 end; kind = kind } ∷ []
    else out

abbrev pub spanned : Lexed → ℕ → ℕ → SpanKind → Lexed
spanned out start end kind = record out { spans = push_span out.spans start end kind }

unfoldable pub push_brace : ℕ → Bool → Lexed → Lexed
push_brace i open_brace out = record out {
  braces = out.braces ++ record { off = as_u32 i; open_brace = open_brace } ∷ [];
}

-- `partition_point`: how many elements stand before the first that fails the test.
unfoldable pub partition_point : (Span → Bool) → List Span → ℕ
partition_point test [] = 0
partition_point test (s ∷ spans) =
    let rest = suc (partition_point test spans) in if test s then rest else 0

unfoldable pub get_span : List Span → ℕ → Option Span
get_span [] i = none
get_span (s ∷ spans) zero = some s
get_span (s ∷ spans) (suc i) = get_span spans i

-- `.filter(|s| s.start <= off && off < s.end)`
unfoldable pub holding : ℕ → Option Span → Option Span
holding off none = none
holding off (some s) = if leb s.start off && ltb off s.end then some s else none

unfoldable pub span_at : Lexed → ℕ → Option Span
unfolding partition_point get_span holding
span_at l off = holding off (get_span l.spans (partition_point (λ s. leb s.end off) l.spans))

unfoldable pub is_ident_byte : ℕ → Bool
is_ident_byte b = is_ascii_alphanumeric b || b == b'_'

unfoldable pub is_ascii_alphabetic : ℕ → Bool
is_ascii_alphabetic b = is_ascii_uppercase b || is_ascii_lowercase b

module _ (m : Memchr) where
  -- `memchr(b'\n', &src[i..]).map(|k| i + k).unwrap_or(n)`
  unfoldable pub line_end : Bytes → ℕ → ℕ
  line_end src i = elim (m.memchr b'\n' (drop i src)) [ some k ↦ i + k | none ↦ length src ]

-- The outer loop: one round gives the next index and the output so far.
unfoldable pub lex_loop : (ℕ → Lexed → ℕ × Lexed) → ℕ → ℕ → ℕ → Lexed → ℕ × Lexed
lex_loop body n zero i out = (i, out)
lex_loop body n (suc fuel) i out = elim (ltb i n) [
  | false ↦ (i, out)
  | true ↦ lex_loop body n fuel (body i out).0 (body i out).1
]
