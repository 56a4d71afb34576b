-- ===== src/Plan/ByWord.antt =====
-- `word_plan` of crates/greeg-index/src/plan.rs: the words that a pattern's whole-word matches are.
-- regex-syntax's parser is a parameter, as for `plan`.
pub mod Laws
pub mod Sound
mod Tests
use greeg.Base.{
  ℕ, Bool, true, false, ◌&&◌, ◌||◌, Option, none, some, List, [], ◌∷◌, ◌++◌, map, Bytes, length,
  ltb, bytes_eq, if◌then◌else◌,
}
use greeg.Words.{is_query_word}
use greeg.Plan.Hir.{Hir, Hirs, Look}

pub data Tok : Type 0 where
  bound : Tok
  lit : Bytes → Tok

abbrev pub max_seqs : ℕ
max_seqs = 64

abbrev pub Seqs : Type 0
Seqs = List (List Tok)

-- `?` on an option.
infixl 5 ◌>>=◌
abbrev pub ◌>>=◌ : Option Seqs → (Seqs → Option Seqs) → Option Seqs
none >>= go_on = none
some v >>= go_on = go_on v

-- `if out.len() > MAX_SEQS { return None; }`
unfoldable pub limited : Seqs → Option Seqs
limited out = if ltb max_seqs (length out) then none else some out

-- `out.extend(seqs(a)?)`
unfoldable pub extend : Seqs → Option Seqs → Option Seqs
unfolding limited
extend out none = none
extend out (some v) = limited (out ++ v)

-- The sequences of `acc`, each followed by each of `ps`.
unfoldable pub followed : Seqs → Seqs → Seqs
followed [] ps = []
followed (a ∷ acc) ps = map (λ s. a ++ s) ps ++ followed acc ps

unfoldable pub append_each : Seqs → Option Seqs → Option Seqs
unfolding limited followed
append_each acc none = none
append_each acc (some ps) = limited (followed acc ps)

unfoldable mutual
  unfolding extend append_each

  pub seqs : Hir → Option Seqs
  seqs Hir.empty = some ([] ∷ [])
  seqs (Hir.look Look.word_ascii) = some ((bound ∷ []) ∷ [])
  seqs (Hir.look Look.word_unicode) = some ((bound ∷ []) ∷ [])
  seqs (Hir.look Look.other_look) = none
  seqs (Hir.literal l) = some ((lit l ∷ []) ∷ [])
  seqs (Hir.class c) = none
  seqs (Hir.repetition min max h) = none
  seqs (Hir.capture h) = seqs h
  seqs (Hir.concat parts) = seqs_concat parts ([] ∷ [])
  seqs (Hir.alternation a alts) = extend [] (seqs a) >>= seqs_alternation alts

  pub seqs_concat : Hirs → Seqs → Option Seqs
  seqs_concat Hirs.nil acc = some acc
  seqs_concat (Hirs.cons p parts) acc = append_each acc (seqs p) >>= seqs_concat parts

  pub seqs_alternation : Hirs → Seqs → Option Seqs
  seqs_alternation Hirs.nil out = some out
  seqs_alternation (Hirs.cons a alts) out = extend out (seqs a) >>= seqs_alternation alts

-- The literal of a sequence; `-w` supplies the boundaries.
unfoldable pub word_of : Bool → List Tok → Option Bytes
word_of true (lit l ∷ []) = some l
word_of _ (bound ∷ lit l ∷ bound ∷ []) = some l
word_of _ _ = none

-- `out.contains(lit)`
unfoldable pub contains : List Bytes → Bytes → Bool
unfolding bytes_eq
contains [] l = false
contains (w ∷ out) l = bytes_eq w l || contains out l

abbrev pub push_new : List Bytes → Bytes → List Bytes
push_new out l = if contains out l then out else out ++ l ∷ []

-- The loop over the sequences.
unfoldable pub words_of : Bool → Seqs → List Bytes → Option (List Bytes)
words_of word [] out = some out
words_of word (s ∷ ss) out = elim (word_of word s) [
  | none ↦ none
  | some l ↦ elim (is_query_word l) [ false ↦ none | true ↦ words_of word ss (push_new out l) ]
]

-- `(!out.is_empty()).then_some(out)`
abbrev pub if_any : Option (List Bytes) → Option (List Bytes)
if_any none = none
if_any (some []) = none
if_any (some (w ∷ out)) = some (w ∷ out)

-- What `word_plan` does with the parsed expression.
unfoldable pub word_plan_hir : Bool → Hir → Option (List Bytes)
unfolding seqs words_of
word_plan_hir word h = elim (seqs h) [ none ↦ none | some ss ↦ if_any (words_of word ss []) ]

module _ (parse : Bool → Bytes → Option Hir) where
  unfoldable pub word_plan : Bytes → Bool → Bool → Bool → Bool → Option (List Bytes)
  unfolding word_plan_hir is_query_word
  word_plan pattern fixed casei word identifier =
      if casei
      then none
      else if identifier && is_query_word pattern
      then some (pattern ∷ [])
      else if fixed
      then (if word && is_query_word pattern then some (pattern ∷ []) else none)
      else elim (parse false pattern) [ none ↦ none | some h ↦ word_plan_hir word h ]
