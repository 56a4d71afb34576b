-- ===== src/Words/Lookup.antt =====
-- crates/greeg-index/src/words.rs: the words of a serialized section are found in it.
use greeg.Base.{
  ℕ, zero, suc, ◌%◌, ◌<◌, ◌≡◌, ◌≢◌, refl, sym, ◌∙◌, arith, true, Option, none, some, List, [], ◌∷◌,
  Bytes, length, length-map, All, ok,
}
use mathlib.Core.Option.{none-ne-some}
use greeg.Base.Order.{less}
use greeg.Base.Slices.{get_elem?}
use greeg.Integrity.{Checked}
use greeg.Words.Section.{Entry, counts_in, serialize}
use greeg.Words.View.{WordsView, parse_view, find}
use greeg.Words.ReadsBack.{FitsSection, view_of, parse_view-serialize, word-view_of}
use greeg.Words.Search.{IsDictionary, Found, find-Found}

-- Entries sorted by word, each word once.
abbrev pub AreSorted : List Entry → Type 0
AreSorted [] = Unit
AreSorted (e ∷ entries) = All (λ (f : Entry). less e.0 f.0 ≡ true) entries × AreSorted entries

unfoldable nth_word : List Entry → ℕ → Bytes
nth_word [] i = []
nth_word (e ∷ entries) zero = e.0
nth_word (e ∷ entries) (suc i) = nth_word entries i

entry_at :
    (entries : List Entry) (i : ℕ)
    → i < length entries
    → (e : Entry) × (get_elem? entries i ≡ some e) × (nth_word entries i ≡ e.0)
unfolding nth_word
entry_at [] i h = absurd (omega arith)
entry_at (e ∷ entries) zero h = (e, refl, refl)
entry_at (e ∷ entries) (suc i) h = entry_at entries i (omega arith)

nth_word-get :
    (entries : List Entry) (i : ℕ) (e : Entry)
    → get_elem? entries i ≡ some e
    → (i < length entries) × (nth_word entries i ≡ e.0)
unfolding nth_word
nth_word-get [] i e h = absurd (none-ne-some _ h)
nth_word-get (x ∷ entries) zero e h = (omega arith, cc)
nth_word-get (x ∷ entries) (suc i) e h = let (l, s) = nth_word-get entries i e h in (omega arith, s)

over_all :
    (w : Bytes) (entries : List Entry) (j : ℕ)
    → All (λ (f : Entry). less w f.0 ≡ true) entries
    → j < length entries
    → less w (nth_word entries j) ≡ true
unfolding nth_word
over_all w [] j a h = absurd (omega arith)
over_all w (f ∷ entries) zero (p, a) h = p
over_all w (f ∷ entries) (suc j) (p, a) h = over_all w entries j a (omega arith)

nth_word-ordered :
    (entries : List Entry) (i j : ℕ)
    → AreSorted entries
    → i < j
    → j < length entries
    → less (nth_word entries i) (nth_word entries j) ≡ true
unfolding nth_word
nth_word-ordered [] i j s l h = absurd (omega arith)
nth_word-ordered (e ∷ entries) i zero s l h = absurd (omega arith)
nth_word-ordered (e ∷ entries) zero (suc j) (a, s) l h = over_all e.0 entries j a (omega arith)
nth_word-ordered (e ∷ entries) (suc i) (suc j) (a, s) l h =
    nth_word-ordered entries i j s (omega arith) (omega arith)

view_of-IsDictionary :
    (digest : Bytes → Bytes) (entries : List Entry)
    → AreSorted entries
    → IsDictionary digest (view_of entries) (nth_word entries)
view_of-IsDictionary digest entries s =
    let n = length-map (λ (e : Entry). e.1) entries in
    record {
      reads = (λ i c l.
          let (e, here, same) = entry_at entries i (omega arith) in
          rw same (word-view_of digest entries i e here c));
      sorted = (λ i j l h. nth_word-ordered entries i j s l (omega arith));
    }

-- The place of an entry with the word, or that no entry has it.
abbrev pub Answers : List Entry → Bytes → Option ℕ → Type 0
Answers entries w none = (i : ℕ) (e : Entry) → get_elem? entries i ≡ some e → e.0 ≢ w
Answers entries w (some i) = (e : Entry) × (get_elem? entries i ≡ some e) × (e.0 ≡ w)

Found-Answers :
    (entries : List Entry) (w : Bytes) (o : Option ℕ)
    → Found (nth_word entries) w 0 (length (counts_in entries)) o
    → Answers entries w o
Found-Answers entries w none f = λ i e here same.
    let (l, s) = nth_word-get entries i e here in
    let n = length-map (λ (x : Entry). x.1) entries in f i (omega arith) (omega arith) (s ∙ same)
Found-Answers entries w (some i) (p, q, same) =
    let n = length-map (λ (x : Entry). x.1) entries in
    let (e, here, s) = entry_at entries i (omega arith) in (e, here, sym s ∙ same)

-- A section of entries sorted by word, each once, whose numbers fit its format, parses at an aligned
-- address without blocks to verify, and for every word `find` gives the place of the entry that has it,
-- or nothing where no entry has it.
pub find-serialize :
    (digest : Bytes → Bytes) (entries : List Entry) (address : ℕ) (c : Checked)
    → address % 8 ≡ 0
    → FitsSection entries
    → AreSorted entries
    → (v : WordsView) × (parse_view digest address (serialize entries) none c ≡ (ok v, c))
      × ((w : Bytes) → (o : Option ℕ) × (find digest none v w c ≡ (ok o, c)) × Answers entries w o)
find-serialize digest entries address c aligned fits sorted = (
  view_of entries,
  parse_view-serialize entries address aligned fits digest c,
  λ w.
      let (o, e, f) =
        find-Found digest (view_of entries) (nth_word entries)
          (view_of-IsDictionary digest entries sorted) w c in
      (o, e, Found-Answers entries w o f),
)
