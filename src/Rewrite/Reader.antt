-- ===== src/Rewrite/Reader.antt =====
-- crates/greeg/src/rewrite.rs: whether the lines of a recursive grep can go to another reader
-- (`reader` in `rewrite_grep`), and `printed_as_written`.
use greeg.Base.{
  Bool, not, ◌&&◌, ◌||◌, Option, none, some, List, [], ◌∷◌, Bytes, if◌then◌else◌, codes,
  starts_with, contains_text, bytes_eq, Result, ok, err,
}
use greeg.Rewrite.Emit.{Operand}

pub data ReaderRefusal : Type 0 where
  not_numbered colors_lines no_path : ReaderRefusal
  not_as_written : Bytes → ReaderRefusal

-- `s.contains(p)` and `s.ends_with(p)`
unfoldable pub contains_part : Bytes → Bytes → Bool
unfolding starts_with
contains_part [] p = starts_with [] p
contains_part (c ∷ s) p = starts_with (c ∷ s) p || contains_part s p

unfoldable pub ends_with : Bytes → Bytes → Bool
unfolding bytes_eq
ends_with [] p = bytes_eq [] p
ends_with (c ∷ s) p = bytes_eq (c ∷ s) p || ends_with s p

unfoldable pub printed_as_written : Bytes → Bool
unfolding bytes_eq starts_with ends_with contains_part
printed_as_written operand =
    not (bytes_eq operand (codes "."))
    && not (starts_with operand (codes "./"))
    && not (ends_with operand (codes "/."))
    && not (contains_part operand (codes "/./"))
    && not (contains_part operand (codes "//"))

-- `positional.iter().find(|(w, _)| !printed_as_written(w))`
unfoldable pub first_unlike : List Operand → Option Bytes
unfolding printed_as_written
first_unlike [] = none
first_unlike ((w, dd) ∷ operands) = if printed_as_written w then first_unlike operands else some w

-- `(positional.len() == 1).then(|| positional[0].0.clone())`
unfoldable pub lone_operand : List Operand → Option Bytes
lone_operand ((w, dd) ∷ []) = some w
lone_operand _ = none

unfoldable pub paths_reader : List Operand → Result ReaderRefusal (Option Bytes)
unfolding first_unlike lone_operand
paths_reader [] = err no_path
paths_reader (o ∷ operands) = elim (first_unlike (o ∷ operands)) [
  | some w ↦ err (not_as_written w)
  | none ↦ ok (lone_operand (o ∷ operands))
]

unfoldable pub reader_of :
    Bool → Bool → List Bytes → List Operand → Result ReaderRefusal (Option Bytes)
unfolding paths_reader contains_text
reader_of numbered colored flags positional =
    if not numbered && not (contains_text flags (codes "-l"))
    then err not_numbered
    else if colored
    then err colors_lines
    else paths_reader positional
