-- ===== src/Spill/RecordLaws.antt =====
-- A record that a spill writes is read back by `advance`, with what stands behind it.
use greeg.Base.{
  ℕ, ◌+◌, ◌-◌, ◌%◌, ◌<◌, ◌≡◌, refl, arith, true, false, some, List, [], ◌∷◌, ◌++◌, append_assoc,
  Bytes, length, All, Above, IsAscending, ok,
}
use greeg.Spill.Varint.{put_varint, no_count, short_of_ids}
use greeg.Spill.VarintLaws.{varint-put_varint}
use greeg.Spill.Segment.{Record, put_deltas, put_ids, record_bytes}
use greeg.Spill.Records.{take_bytes, varint_or, read_ids, read_record, advance}

abbrev pub IsU32 : ℕ → Type 0
IsU32 n = n < 4294967296

-- What a spill writes: ascending `u32` files, and a key that fits in memory.
abbrev pub IsRecord : Record → Type 0
IsRecord (key, files) = (length key < 18446744073709551616) × IsAscending files × All IsU32 files

take_bytes-append : (key rest : Bytes) → take_bytes (length key) (key ++ rest) ≡ ok (key, rest)
unfolding take_bytes
take_bytes-append [] rest = refl
take_bytes-append (b ∷ key) rest = rw (take_bytes-append key rest) refl

varint_or-put :
    (reason : _) (v : ℕ) (rest : Bytes)
    → v < 18446744073709551616
    → varint_or reason (put_varint v ++ rest) ≡ ok (v, rest)
unfolding varint_or
varint_or-put reason v rest h = rw (varint-put_varint v rest h) refl

delta_back :
    (prev id : ℕ)
    → prev < id
    → IsU32 id
    → (prev + (id + 4294967296 - prev) % 4294967296 % 4294967296) % 4294967296 ≡ id
delta_back prev id h b = omega arith

-- Files above `prev` are fewer than there are numbers.
length-Above :
    (prev : ℕ) (ids : List ℕ)
    → IsU32 prev
    → Above prev ids
    → All IsU32 ids
    → length ids + prev < 4294967296
length-Above prev [] p a u = omega arith
length-Above prev (id ∷ ids) p (h, a) (b, u) = omega (arith, length-Above id ids b a u)

read_ids-put :
    (prev : ℕ) (ids : List ℕ) (rest : Bytes)
    → Above prev ids
    → All IsU32 ids
    → read_ids (length ids) false prev (put_deltas prev ids ++ rest) ≡ ok (ids, rest)
unfolding read_ids put_deltas
read_ids-put prev [] rest a u = refl
read_ids-put prev (id ∷ ids) rest (h, a) (b, u) =
    let delta = (id + 4294967296 - prev) % 4294967296 in
    rw
      (
        append_assoc (put_varint delta) (put_deltas id ids) rest,
        varint_or-put short_of_ids delta (put_deltas id ids ++ rest) (omega arith),
        delta_back prev id h b,
        read_ids-put id ids rest a u,
      )
      refl

first_back : (id : ℕ) → IsU32 id → id % 4294967296 ≡ id
first_back id b = omega arith

put_ids-read :
    (ids : List ℕ) (rest : Bytes)
    → IsAscending ids
    → All IsU32 ids
    → read_ids (length ids) true 0 (put_ids ids ++ rest) ≡ ok (ids, rest)
unfolding read_ids put_ids
put_ids-read [] rest a u = refl
put_ids-read (id ∷ ids) rest a (b, u) =
    rw
      (
        append_assoc (put_varint id) (put_deltas id ids) rest,
        varint_or-put short_of_ids id (put_deltas id ids ++ rest) (omega arith),
        first_back id b,
        read_ids-put id ids rest a u,
      )
      refl

length-IsRecord :
    (ids : List ℕ) → IsAscending ids → All IsU32 ids → length ids < 18446744073709551616
length-IsRecord [] a u = omega arith
length-IsRecord (id ∷ ids) a (b, u) = omega (arith, length-Above id ids b a u)

-- Where the key is shorter than 2^64 bytes and the files are ascending numbers below 2^32, the bytes of a
-- record are read back as it, whatever stands behind them.
pub advance-record_bytes :
    (r : Record) (rest : Bytes)
    → IsRecord r
    → advance (record_bytes r ++ rest) ≡ ok (some (r, rest))
unfolding advance read_record record_bytes
advance-record_bytes (key, ids) rest (k, a, u) =
    let count = put_varint (length ids) in
    rw
      (
        append_assoc (put_varint (length key)) (key ++ (count ++ put_ids ids)) rest,
        varint-put_varint (length key) ((key ++ (count ++ put_ids ids)) ++ rest) k,
        append_assoc key (count ++ put_ids ids) rest,
        take_bytes-append key ((count ++ put_ids ids) ++ rest),
        append_assoc count (put_ids ids) rest,
        varint_or-put no_count (length ids) (put_ids ids ++ rest) (length-IsRecord ids a u),
        put_ids-read ids rest a u,
      )
      refl
