-- ===== src/Gram.antt =====
-- crates/greeg-index/src/gram.rs: trigram extraction. A `u8` is a number below 256, a `u32` key
-- `(a << 16) | (b << 8) | c` is written as a sum, and the bitset is a function from word index to
-- `u64` whose bits are read and set by `test_bit` and `set_bit`.
pub mod Windows
pub mod Extract
pub mod Literal
mod Tests
use greeg.Base.{ℕ, ◌+◌, ◌*◌, ◌/◌, ◌%◌, Bool, true, false, List, [], ◌∷◌, map}
use greeg.Base.{Bytes, length, ltb, ◌==◌, if◌then◌else◌, is_ascii_uppercase, sort_unstable, dedup}
use greeg.Base.Bits.{test_bit, set_bit}

unfoldable pub key3 : ℕ → ℕ → ℕ → ℕ
key3 a b c = a * 65536 + b * 256 + c

-- `b | 0x20` on an upper-case letter sets a bit that is clear.
unfoldable pub fold : ℕ → ℕ
fold b = if is_ascii_uppercase b then b + 32 else b

unfoldable pub fold_buf : Bytes → Bytes
unfolding fold
fold_buf = map fold

-- `Dedup`: `bits` maps a word index to its `u64`.
pub record Dedup : Type 0 where
  pub bits : ℕ → ℕ
  pub touched : List ℕ

-- `Dedup::new`
abbrev pub new : Dedup
new = record { bits = λ _. 0; touched = [] }

-- `self.bits[w] = v`
unfoldable pub store : (ℕ → ℕ) → ℕ → ℕ → ℕ → ℕ
store bits w v i = if i == w then v else bits i

-- The state of `extract`'s loop: the deduplicator and the keys pushed so far (latest first).
pub record Scan : Type 0 where
  pub dedup : Dedup
  pub out : List ℕ

-- A key whose bit is clear: its word is noted if it was zero, the bit set and the key pushed.
unfoldable pub push_key : ℕ → Scan → Scan
unfolding store
push_key key s =
    let w = key / 64 in
    let word = s.dedup.bits w in
    record {
      dedup = record {
        bits = store s.dedup.bits w (set_bit word (key % 64));
        touched = if word == 0 then w ∷ s.dedup.touched else s.dedup.touched;
      };
      out = key ∷ s.out;
    }

-- One window's key: skipped if its bit is set.
unfoldable pub visit : ℕ → Scan → Scan
unfolding push_key
visit key s = if test_bit (s.dedup.bits (key / 64)) (key % 64) then s else push_key key s

-- The `while i + 2 < n` loop over what is left of the buffer from `i` on.
unfoldable pub extract_loop : Bytes → Scan → Scan
unfolding visit
extract_loop (a ∷ b ∷ c ∷ rest) s =
    let past_c = extract_loop rest s in
    let past_b = extract_loop (c ∷ rest) s in
    let past_a = extract_loop (b ∷ c ∷ rest) s in
    let next = extract_loop (b ∷ c ∷ rest) (visit (key3 a b c) s) in
    if c == b'\n'
    then past_c
    else if b == b'\n'
    then past_b
    else if a == b'\n'
    then past_a
    else next
extract_loop _ s = s

-- `for &w in &self.touched { self.bits[w] = 0 }`
unfoldable pub clear_touched : List ℕ → (ℕ → ℕ) → ℕ → ℕ
unfolding store
clear_touched [] bits = bits
clear_touched (w ∷ ws) bits = clear_touched ws (store bits w 0)

-- `extract` returns the deduplicator as it leaves it, and the sorted keys. A buffer of fewer than
-- three bytes leaves the loop at once, which is the early return.
unfoldable pub extract : Dedup → Bytes → Dedup × List ℕ
unfolding extract_loop clear_touched
extract d buf =
    let s = extract_loop buf (record { dedup = d; out = [] }) in
    if ltb (length buf) 3 then (d, []) else (
      record { bits = clear_touched s.dedup.touched s.dedup.bits; touched = [] },
      sort_unstable s.out,
    )

-- `piece.windows(3)` mapped to the keys of the folded bytes.
unfoldable pub window_keys : Bytes → List ℕ
unfolding fold key3
window_keys (a ∷ b ∷ c ∷ rest) = key3 (fold a) (fold b) (fold c) ∷ window_keys (b ∷ c ∷ rest)
window_keys _ = []

-- `lit.split(|&b| b == b'\n')`: the first piece, and the pieces after it.
unfoldable pub split_lines : Bytes → Bytes × List Bytes
split_lines [] = ([], [])
split_lines (b ∷ bs) =
    let (piece, pieces) = split_lines bs in
    if b == b'\n' then ([], piece ∷ pieces) else (b ∷ piece, pieces)

unfoldable pub piece_groups : List Bytes → List (List ℕ)
unfolding window_keys
piece_groups [] = []
piece_groups (piece ∷ pieces) =
    let groups = piece_groups pieces in
    if ltb (length piece) 3 then groups else dedup (sort_unstable (window_keys piece)) ∷ groups

unfoldable pub literal_keys : Bytes → List (List ℕ)
unfolding split_lines piece_groups
literal_keys lit = let (piece, pieces) = split_lines lit in piece_groups (piece ∷ pieces)
