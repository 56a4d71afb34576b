-- ===== src/Rewrite/Flags.antt =====
-- crates/greeg/src/rewrite.rs: the tables of flags, and `Parsed::apply`.
use Prim.Native.Nat.{min}
use greeg.Base.{
  ℕ, ◌+◌, ◌-◌, ◌*◌, Bool, true, false, ◌&&◌, Option, none, some, List, [], ◌∷◌, ◌++◌, Bytes, leb,
  ltb, ◌==◌, if◌then◌else◌, codes, starts_with, contains_char, contains_text, bytes_eq, Result, ok,
  err,
}

pub data Flag : Type 0 where
  keep drop color value fixed unrestricted unsupported : Flag

-- The `Err`s, with the name of the flag.
pub data RgError : Type 0 where
  unknown_color unsupported_flag needs_value needs_number given_twice takes_no_value :
      Bytes → RgError
  several_patterns no_pattern binary_files stdin_search : RgError

abbrev pub keep_short : Bytes
keep_short = codes "iwxlcSsU"

abbrev pub drop_short : Bytes
drop_short = codes "nNHp"

abbrev pub value_short : Bytes
value_short = codes "ABCegtTjM"

unfoldable pub short_flag : ℕ → Flag
unfolding contains_char
short_flag c =
    if contains_char keep_short c
    then Flag.keep
    else if contains_char drop_short c
    then Flag.drop
    else if c == b'F'
    then Flag.fixed
    else if c == b'u'
    then Flag.unrestricted
    else if contains_char value_short c
    then Flag.value
    else Flag.unsupported

abbrev pub keep_long : List Bytes
keep_long =
    codes "--ignore-case"
    ∷ codes "--word-regexp"
    ∷ codes "--line-regexp"
    ∷ codes "--files-with-matches"
    ∷ codes "--count"
    ∷ codes "--smart-case"
    ∷ codes "--case-sensitive"
    ∷ codes "--multiline"
    ∷ codes "--no-ignore"
    ∷ codes "--hidden"
    ∷ []

abbrev pub drop_long : List Bytes
drop_long =
    codes "--line-number"
    ∷ codes "--with-filename"
    ∷ codes "--no-filename"
    ∷ codes "--line-buffered"
    ∷ codes "--no-line-number"
    ∷ codes "--heading"
    ∷ codes "--no-heading"
    ∷ codes "--column"
    ∷ codes "--no-column"
    ∷ codes "--pretty"
    ∷ codes "--trim"
    ∷ codes "--block-buffered"
    ∷ codes "--no-config"
    ∷ codes "--mmap"
    ∷ codes "--no-mmap"
    ∷ []

abbrev pub value_long : List Bytes
value_long =
    codes "--after-context"
    ∷ codes "--before-context"
    ∷ codes "--context"
    ∷ codes "--regexp"
    ∷ codes "--glob"
    ∷ codes "--type"
    ∷ codes "--type-not"
    ∷ codes "--threads"
    ∷ codes "--max-columns"
    ∷ codes "--max-filesize"
    ∷ []

unfoldable pub long_flag : Bytes → Flag
unfolding contains_text
long_flag name =
    if contains_text keep_long name
    then Flag.keep
    else if bytes_eq name (codes "--fixed-strings")
    then Flag.fixed
    else if bytes_eq name (codes "--unrestricted")
    then Flag.unrestricted
    else if contains_text drop_long name
    then Flag.drop
    else if bytes_eq name (codes "--color")
    then Flag.color
    else if contains_text value_long name
    then Flag.value
    else Flag.unsupported

pub record Parsed : Type 0 where
  pub flags : List Bytes
  pub patterns : List Bytes
  pub positional : List (Bytes × Bool)
  pub fixed : Bool
  pub unrestricted : ℕ
  pub max_filesize : Option Bytes

abbrev pub no_words : Parsed
no_words = record {
  flags = [];
  patterns = [];
  positional = [];
  fixed = false;
  unrestricted = 0;
  max_filesize = none;
}

-- `v.parse::<u64>().is_ok()`: digits after an optional plus sign, below 2^64.
unfoldable pub digits_fit : Bytes → ℕ → Bool
digits_fit [] n = ltb n 18446744073709551616
digits_fit (c ∷ cs) n = leb b'0' c && leb c b'9' && digits_fit cs (10 * n + (c - b'0'))

unfoldable pub is_u64 : Bytes → Bool
unfolding digits_fit
is_u64 [] = false
is_u64 (c ∷ []) = digits_fit (c ∷ []) 0
is_u64 (c ∷ d ∷ cs) = if c == b'+' then digits_fit (d ∷ cs) 0 else digits_fit (c ∷ d ∷ cs) 0

abbrev pub regexp_names : List Bytes
regexp_names = codes "-e" ∷ codes "--regexp" ∷ []

abbrev pub number_names : List Bytes
number_names =
    codes "-A"
    ∷ codes "-B"
    ∷ codes "-C"
    ∷ codes "-j"
    ∷ codes "--after-context"
    ∷ codes "--before-context"
    ∷ codes "--context"
    ∷ codes "--threads"
    ∷ codes "--max-columns"
    ∷ []

abbrev pub color_values : List Bytes
color_values = codes "never" ∷ codes "always" ∷ codes "auto" ∷ codes "ansi" ∷ []

-- `self.flags.push(..)` for each word.
abbrev pub add_flags : List Bytes → Parsed → Parsed
add_flags words p = record p { flags = p.flags ++ words }

-- `self.max_filesize.replace(v)`, which fails where one was given.
unfoldable pub set_max_filesize : Bytes → Bytes → Parsed → Result RgError Parsed
set_max_filesize name v p = elim p.max_filesize [
  | none ↦ ok (record p { max_filesize = some v })
  | some before ↦ err (given_twice name)
]

-- The arm `Flag::Value`, on the name.
unfoldable pub apply_value : Bytes → Bytes → Parsed → Result RgError Parsed
unfolding contains_text is_u64 starts_with set_max_filesize
apply_value name v p =
    if contains_text regexp_names name
    then ok (record p { patterns = p.patterns ++ v ∷ [] })
    else if bytes_eq name (codes "--max-filesize")
    then if is_u64 v then set_max_filesize name v p else err (needs_number name)
    else if contains_text number_names name
    then if is_u64 v then ok (add_flags (name ∷ v ∷ []) p) else err (needs_number name)
    else if bytes_eq name (codes "-M")
    then if is_u64 v
      then ok (add_flags (codes "--max-columns" ∷ v ∷ []) p)
      else err (needs_number name)
    else if starts_with v (codes "-")
    then ok (add_flags ((name ++ b'=' ∷ v) ∷ []) p)
    else ok (add_flags (name ∷ v ∷ []) p)

-- `matches!(value.as_deref(), Some("never" | ..))`
unfoldable pub is_color : Option Bytes → Bool
unfolding contains_text
is_color none = false
is_color (some v) = contains_text color_values v

-- `unrestricted` is a `u8` that saturates.
unfoldable pub apply : Flag → Bytes → Option Bytes → Parsed → Result RgError Parsed
unfolding apply_value is_color
apply Flag.keep name v p = ok (add_flags (name ∷ []) p)
apply Flag.drop name v p = ok p
apply Flag.color name v p = if is_color v then ok p else err (unknown_color name)
apply Flag.fixed name v p = ok (record p { fixed = true })
apply Flag.unrestricted name v p = ok (record p { unrestricted = min (p.unrestricted + 1) 255 })
apply Flag.unsupported name v p = err (unsupported_flag name)
apply Flag.value name none p = err (needs_value name)
apply Flag.value name (some v) p = apply_value name v p
