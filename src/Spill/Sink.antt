-- ===== src/Spill/Sink.antt =====
-- crates/greeg-index/src/external.rs: `Sink`, one worker's accumulator, `Part` and `collect`. The map is
-- a list of slots; what a key costs on the heap (`key_heap_bytes`) is a parameter.
use Prim.Native.Nat.{max}
use greeg.Base.{
  ℕ, ◌+◌, ◌*◌, Bool, true, false, List, [], ◌∷◌, ◌++◌, map, Bytes, length, leb, ◌==◌, if◌then◌else◌,
  bytes_eq, sort_unstable, dedup,
}
use greeg.Base.Order.{less}
use greeg.Spill.Segment.{Record, segment_bytes}

-- A key with its `Vec` of files and the vector's capacity.
abbrev pub Slot : Type 0
Slot = Bytes × List ℕ × ℕ

pub record Sink : Type 0 where
  pub slots : List Slot
  pub bytes : ℕ
  pub budget : ℕ
  pub segments : List Bytes

unfoldable pub new_sink : ℕ → Sink
new_sink budget = record { slots = []; bytes = 0; budget = budget; segments = [] }

-- `v.last() == Some(&file)`
unfoldable pub last_is : List ℕ → ℕ → Bool
last_is [] file = false
last_is (x ∷ []) file = x == file
last_is (x ∷ y ∷ v) file = last_is (y ∷ v) file

-- `v.push(file)`, which doubles a full vector, and what that is charged.
unfoldable pub push_file : List ℕ → ℕ → ℕ → List ℕ × ℕ × ℕ
push_file v capacity file =
    if length v == capacity
    then (v ++ file ∷ [], 2 * capacity, 4 * max capacity 1)
    else (v ++ file ∷ [], capacity, 0)

module _ (key_heap_bytes : Bytes → ℕ) where
  -- The map after a push, and `delta`.
  unfoldable pub push_slot : Bytes → ℕ → List Slot → List Slot × ℕ
  unfolding last_is push_file bytes_eq
  push_slot key file [] = ((key, file ∷ [], 4) ∷ [], key_heap_bytes key + 4 * 4)
  push_slot key file ((k, v, capacity) ∷ slots) =
      let (rest, delta) = push_slot key file slots in
      if bytes_eq k key
      then if last_is v file
        then ((k, v, capacity) ∷ slots, 0)
        else (let (files, grown, charge) = push_file v capacity file in
            ((k, files, grown) ∷ slots, charge))
      else ((k, v, capacity) ∷ rest, delta)

  unfoldable pub push : Bytes → ℕ → Sink → Sink
  unfolding push_slot
  push key file s =
      let (slots, delta) = push_slot key file s.slots in
      record s { slots = slots; bytes = s.bytes + delta }

-- `keys.sort_unstable()`, on the slots.
unfoldable pub insert_slot : Slot → List Slot → List Slot
unfolding less
insert_slot slot [] = slot ∷ []
insert_slot slot (s ∷ slots) =
    if less slot.0 s.0 then slot ∷ s ∷ slots else s ∷ insert_slot slot slots

unfoldable pub sort_slots : List Slot → List Slot
unfolding insert_slot
sort_slots [] = []
sort_slots (s ∷ slots) = insert_slot s (sort_slots slots)

-- `v.sort_unstable(); v.dedup();`
unfoldable pub record_of : Slot → Record
unfolding sort_unstable dedup
record_of (key, v, capacity) = (key, dedup (sort_unstable v))

unfoldable pub records_of : List Slot → List Record
unfolding sort_slots record_of
records_of slots = map record_of (sort_slots slots)

unfoldable pub is_empty_map : List Slot → Bool
is_empty_map [] = true
is_empty_map (s ∷ slots) = false

unfoldable pub spill : Sink → Sink
unfolding records_of segment_bytes is_empty_map
spill s = if is_empty_map s.slots then s else record {
  slots = [];
  bytes = 0;
  budget = s.budget;
  segments = s.segments ++ segment_bytes (records_of s.slots) ∷ [];
}

unfoldable pub spill_if_full : Sink → Sink
unfolding spill
spill_if_full s = if leb s.budget s.bytes then spill s else s

pub data Part : Type 0 where
  memory : List Slot → Part
  segments : List Bytes → Part

unfoldable pub finish : Sink → Part
unfolding spill
finish s = elim s.segments [
  | [] ↦ Part.memory s.slots
  | segment ∷ more ↦ Part.segments (spill s).segments
]

pub data Postings : Type 0 where
  memory : List (List Slot) → Postings
  segments : List Bytes → Postings

unfoldable pub all_memory : List Part → Bool
all_memory [] = true
all_memory (Part.memory slots ∷ parts) = all_memory parts
all_memory (Part.segments files ∷ parts) = false

unfoldable pub maps_of : List Part → List (List Slot)
maps_of [] = []
maps_of (Part.memory slots ∷ parts) = slots ∷ maps_of parts
maps_of (Part.segments files ∷ parts) = maps_of parts

-- A map that did not spill is written out by a sink of its own.
unfoldable pub segments_of : List Part → List Bytes
unfolding spill
segments_of [] = []
segments_of (Part.memory slots ∷ parts) =
    (spill (record {
      slots = slots;
      bytes = 18446744073709551615;
      budget = 18446744073709551615;
      segments = [];
    })).segments
    ++ segments_of parts
segments_of (Part.segments files ∷ parts) = files ++ segments_of parts

unfoldable pub collect : List Part → Postings
unfolding all_memory maps_of segments_of
collect parts =
    if all_memory parts
    then Postings.memory (maps_of parts)
    else Postings.segments (segments_of parts)
