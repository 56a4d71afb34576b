-- ===== src/Rewrite/Parse.antt =====
-- crates/greeg/src/rewrite.rs: `parse`. The index over the words is the list of those left; a step
-- takes one word, and says whether the next one was its value.
use greeg.Base.{
  Bool, true, false, not, ◌||◌, Option, none, some, List, [], ◌∷◌, ◌++◌, Bytes, drop, ◌==◌,
  if◌then◌else◌, codes, starts_with, strip_prefix, bytes_eq, Result, ok, err, ◌>>=◌,
}
use greeg.Rewrite.Flags.{
  Flag, RgError, unsupported_flag, takes_no_value, needs_value, short_flag, long_flag, Parsed,
  no_words, apply,
}

pub record Stepped : Type 0 where
  pub parsed : Parsed
  pub after_dd : Bool
  pub took : Bool

abbrev pub stepped : Result RgError Parsed → Bool → Bool → Result RgError Stepped
stepped applied dd took = applied >>= λ p. ok (record { parsed = p; after_dd = dd; took = took })

-- `rest.split_once('=')`, with the name's dashes put back.
unfoldable pub split_once : Bytes → Bytes × Option Bytes
split_once [] = ([], none)
split_once (c ∷ cs) =
    let (name, inline) = split_once cs in if c == b'=' then ([], some cs) else (c ∷ name, inline)

-- `missing_value`: the word after a flag.
unfoldable pub missing_value : Option Bytes → Bytes → Result RgError Bytes
missing_value none name = err (needs_value name)
missing_value (some v) name = ok v

unfoldable pub takes_value : Flag → Bool
takes_value Flag.value = true
takes_value Flag.color = true
takes_value _ = false

unfoldable pub is_unsupported : Flag → Bool
is_unsupported Flag.unsupported = true
is_unsupported _ = false

-- A supported flag with its value after `=`, or with none there.
unfoldable pub long_value :
    Flag → Bytes → Option Bytes → Option Bytes → Bool → Parsed → Result RgError Stepped
unfolding apply missing_value takes_value
long_value kind name (some v) next dd p =
    if takes_value kind
    then stepped (apply kind name (some v) p) dd false
    else err (takes_no_value name)
long_value kind name none next dd p =
    if takes_value kind
    then missing_value next name >>= (λ v. stepped (apply kind name (some v) p) dd true)
    else stepped (apply kind name none p) dd false

-- `--name` or `--name=value`, of a flag of kind `kind`.
unfoldable pub long_kind :
    Flag → Bytes → Option Bytes → Option Bytes → Bool → Parsed → Result RgError Stepped
unfolding is_unsupported long_value
long_kind kind name inline next dd p =
    if is_unsupported kind
    then err (unsupported_flag name)
    else long_value kind name inline next dd p

unfoldable pub is_value : Flag → Bool
is_value Flag.value = true
is_value _ = false

-- The value of a short flag: what is left of its group, or the next word.
unfoldable pub group_value : Bytes → Bytes → Option Bytes → Bool → Parsed → Result RgError Stepped
unfolding apply missing_value
group_value name [] next dd p =
    missing_value next name >>= λ v. stepped (apply Flag.value name (some v) p) dd true
group_value name (c ∷ rest) next dd p = stepped (apply Flag.value name (some (c ∷ rest)) p) dd false

-- A group of short flags, up to the first that takes a value.
unfoldable pub short_group : Bytes → Option Bytes → Bool → Parsed → Result RgError Stepped
unfolding apply short_flag is_value group_value
short_group [] next dd p = ok (record { parsed = p; after_dd = dd; took = false })
short_group (c ∷ cs) next dd p = elim (is_value (short_flag c)) [
  | true ↦ group_value (b'-' ∷ c ∷ []) cs next dd p
  | false ↦ apply (short_flag c) (b'-' ∷ c ∷ []) none p >>= λ q. short_group cs next dd q
]

abbrev pub is_positional : Bytes → Bool → Bool
is_positional w dd = dd || not (starts_with w (codes "-")) || bytes_eq w (codes "-")

-- `w.strip_prefix("--")`, and what is left of the dash of a short group.
unfoldable pub flag_step : Bytes → Option Bytes → Bool → Parsed → Result RgError Stepped
unfolding long_kind long_flag split_once short_group strip_prefix
flag_step w next dd p = elim (strip_prefix (codes "--") w) [
  | some rest ↦
      let (n, inline) = split_once rest in
      let name = codes "--" ++ n in long_kind (long_flag name) name inline next dd p
  | none ↦ short_group (drop 1 w) next dd p
]

-- The body of the loop, for the word `w` with the next one after it.
unfoldable pub word_step : Bytes → Option Bytes → Bool → Parsed → Result RgError Stepped
unfolding flag_step starts_with bytes_eq
word_step w next dd p =
    if is_positional w dd
    then ok (record {
      parsed = record p { positional = p.positional ++ (w, dd) ∷ [] };
      after_dd = dd;
      took = false;
    })
    else if bytes_eq w (codes "--")
    then ok (record { parsed = p; after_dd = true; took = false })
    else flag_step w next dd p

unfoldable pub parse_loop : List Bytes → Bool → Parsed → Result RgError Parsed
unfolding word_step
parse_loop [] dd p = ok p
parse_loop (w ∷ []) dd p = word_step w none dd p >>= λ s. ok s.parsed
parse_loop (w ∷ v ∷ rest) dd p = word_step w (some v) dd p >>= λ s. elim s.took [
  | true ↦ parse_loop rest s.after_dd s.parsed
  | false ↦ parse_loop (v ∷ rest) s.after_dd s.parsed
]

-- From the word after the program's name.
unfoldable pub parse : List Bytes → Result RgError Parsed
unfolding parse_loop
parse words = parse_loop (drop 1 words) false no_words
