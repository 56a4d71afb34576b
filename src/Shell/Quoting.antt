-- ===== src/Shell/Quoting.antt =====
-- A command line built by `command_of` splits into the words that it was built from.
use greeg.Base.{
  ℕ, ◌<◌, ◌≡◌, inl, inr, refl, sym, ap, ◌∙◌, arith, Bool, true, false, ◌&&◌, ◌||◌, List, [], ◌∷◌,
  ◌++◌, append_assoc, append-nil, Bytes, ◌==◌, ==_iff, if◌then◌else◌, Bool-cases, contains_char, ok,
  ◌>>=◌, All,
}
use greeg.Base.Table.{in_range, in_range_lem}
use greeg.Shell.{
  Words, Mode, Kind, classify, end_word, parts, scan, start, split_words, is_safe, all_safe,
  escape_quotes, quote, command_of,
}

is_ordinary : Kind → Bool
is_ordinary Kind.ordinary = true
is_ordinary _ = false

is_ordinary-eq : (k : Kind) → is_ordinary k ≡ true → k ≡ Kind.ordinary
unfolding is_ordinary
is_ordinary-eq Kind.ordinary h = refl
is_ordinary-eq _ h = cc

is_safe-lt : (c : ℕ) → is_safe c ≡ true → c < 128
unfolding is_safe contains_char
is_safe-lt c h = ground arith

safe_table : in_range (λ c. if is_safe c then is_ordinary (classify c) else true) 0 128 ≡ true
unfolding in_range is_safe contains_char classify is_ordinary
safe_table = refl

is_safe-classify : (c : ℕ) → is_safe c ≡ true → classify c ≡ Kind.ordinary
is_safe-classify c h = is_ordinary-eq (classify c) (
    rw h at (
      in_range_lem (λ c. if is_safe c then is_ordinary (classify c) else true) 128 0 safe_table c
        (omega arith) (let low = is_safe-lt c h in omega arith)))

-- The state inside a word.
abbrev inside : List Bytes → Bytes → Bool → Words
inside out cur glob = record { out = out; cur = cur; in_word = true; glob = glob }

abbrev outside : List Bytes → Bool → Words
outside out glob = record { out = out; cur = []; in_word = false; glob = glob }

and_parts : (x y : Bool) → (x && y) ≡ true → (x ≡ true) × (y ≡ true)
and_parts x y h = ground arith

snoc_assoc : (cur : Bytes) (c : ℕ) (w : Bytes) → (cur ++ c ∷ []) ++ w ≡ cur ++ c ∷ w
snoc_assoc cur c w = append_assoc cur (c ∷ []) w

scan_safe :
    (w rest : Bytes) (out : List Bytes) (cur : Bytes) (glob : Bool)
    → all_safe w ≡ true
    → scan (w ++ rest) Mode.plain (inside out cur glob)
      ≡ scan rest Mode.plain (inside out (cur ++ w) glob)
unfolding scan all_safe
scan_safe [] rest out cur glob h = rw append-nil
scan_safe (c ∷ w) rest out cur glob h =
    let (a, b) = and_parts (is_safe c) (all_safe w) h in
    rw (is_safe-classify c a)
      (rw (← snoc_assoc cur c w) (scan_safe w rest out (cur ++ c ∷ []) glob b))

scan_single :
    (w rest : Bytes) (out : List Bytes) (cur : Bytes) (glob : Bool)
    → scan (escape_quotes w ++ b'\'' ∷ rest) Mode.single (inside out cur glob)
      ≡ scan rest Mode.plain (inside out (cur ++ w) glob)
unfolding scan escape_quotes
scan_single [] rest out cur glob = rw append-nil
scan_single (c ∷ w) rest out cur glob = elim (Bool-cases (c == b'\'')) [
  | inl e ↦ rw e (
      rw ((==_iff c b'\'').0 e)
        (scan_single w rest out (cur ++ b'\'' ∷ []) glob ∙ rw (snoc_assoc cur b'\'' w)))
  | inr e ↦ rw (e, e) (scan_single w rest out (cur ++ c ∷ []) glob ∙ rw (snoc_assoc cur c w))
]

-- From between two words, `quote` is read as one word.
scan-quote :
    (w rest : Bytes) (out : List Bytes) (glob : Bool)
    → scan (quote w ++ rest) Mode.plain (outside out glob)
      ≡ scan rest Mode.plain (inside out w glob)
unfolding scan quote
scan-quote [] rest out glob = refl
scan-quote (c ∷ w) rest out glob = elim (Bool-cases (all_safe (c ∷ w))) [
  | inl e ↦
      let (a, b) = and_parts (is_safe c) (all_safe w) (unfold all_safe in e) in
      rw e (rw (is_safe-classify c a) (scan_safe w rest out (c ∷ []) glob b))
  | inr e ↦ rw e (
      rw (append_assoc (escape_quotes (c ∷ w)) (b'\'' ∷ []) rest)
        (scan_single (c ∷ w) rest out [] glob))
]

scan-command_of :
    (w : Bytes) (ws out : List Bytes) (glob : Bool)
    → scan (command_of (w ∷ ws)) Mode.plain (outside out glob) ≡ ok (outside (out ++ w ∷ ws) glob)
unfolding command_of scan end_word
scan-command_of w [] out glob =
    ap (λ t. scan t Mode.plain (outside out glob)) (sym (append-nil (quote w)))
    ∙ scan-quote w [] out glob
scan-command_of w (v ∷ ws) out glob =
    scan-quote w (b' ' ∷ command_of (v ∷ ws)) out glob
    ∙ scan-command_of v ws (out ++ w ∷ []) glob
    ∙ ap (λ t. ok (outside t glob)) (append_assoc out (w ∷ []) (v ∷ ws))

contains_char-append :
    (xs ys : Bytes) (c : ℕ)
    → contains_char (xs ++ ys) c ≡ (contains_char xs c || contains_char ys c)
unfolding contains_char
contains_char-append [] ys c = refl
contains_char-append (x ∷ xs) ys c = ground (arith, contains_char-append xs ys c)

-- No word has a NUL.
abbrev pub IsNulFree : Bytes → Type 0
IsNulFree w = contains_char w 0 ≡ false

escape_quotes-IsNulFree : (w : Bytes) → IsNulFree w → IsNulFree (escape_quotes w)
unfolding escape_quotes contains_char
escape_quotes-IsNulFree [] h = refl
escape_quotes-IsNulFree (c ∷ w) h = ground (arith, escape_quotes-IsNulFree w)

quote-IsNulFree : (w : Bytes) → IsNulFree w → IsNulFree (quote w)
unfolding quote contains_char
quote-IsNulFree [] h = refl
quote-IsNulFree (c ∷ w) h = elim (Bool-cases (all_safe (c ∷ w))) [
  | inl e ↦ rw e h
  | inr e ↦ rw e (
      rw (contains_char-append (escape_quotes (c ∷ w)) (b'\'' ∷ []) 0)
        (rw (escape_quotes-IsNulFree (c ∷ w) h)))
]

command_of-IsNulFree : (ws : List Bytes) → All IsNulFree ws → IsNulFree (command_of ws)
unfolding command_of contains_char
command_of-IsNulFree [] h = refl
command_of-IsNulFree (w ∷ []) h = quote-IsNulFree w h.0
command_of-IsNulFree (w ∷ v ∷ ws) h =
    rw (contains_char-append (quote w) (b' ' ∷ command_of (v ∷ ws)) 0)
      (rw (quote-IsNulFree w h.0) (command_of-IsNulFree (v ∷ ws) h.1))

-- Splitting what `command_of` writes gives back the words, whatever characters but NUL they hold,
-- and reports no glob.
pub split_words-command_of :
    (ws : List Bytes) → All IsNulFree ws → split_words (command_of ws) ≡ ok (ws, false)
unfolding split_words
split_words-command_of ws h = rw (command_of-IsNulFree ws h) (go ws)
  where
    go : (ws : List Bytes) → (scan (command_of ws) Mode.plain start >>= parts) ≡ ok (ws, false)
    go [] = unfold scan command_of end_word in refl
    go (w ∷ ws) = rw (scan-command_of w ws [] false)
