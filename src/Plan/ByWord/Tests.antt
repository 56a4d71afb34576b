-- ===== src/Plan/ByWord/Tests.antt =====
-- A run of the word plan, and its theorem at concrete inputs.
use greeg.Base.{◌≡◌, refl, Bool, false, Option, some, [], ◌∷◌, ◌++◌, Bytes, In}
use greeg.Words.{is_query_word, is_word_byte, for_each_word}
use greeg.Words.Maximal.{Before}
use greeg.Plan.Hir.{Hir, Hirs, Look, Matches, Sequence}
use greeg.Plan.ByWord.{seqs, words_of, word_of, contains, word_plan_hir, word_plan}
use greeg.Plan.ByWord.Sound.{word_plan_sound}

abbrev name : Bytes
name = b'f' ∷ b'n' ∷ []

-- `\bfn\b`
abbrev bounded : Hir
bounded = Hir.concat (
    Hirs.cons (Hir.look Look.word_unicode)
      (Hirs.cons (Hir.literal name) (Hirs.cons (Hir.look Look.word_unicode) Hirs.nil)))

abbrev parse_bounded : Bool → Bytes → Option Hir
parse_bounded casei pattern = some bounded

word_plan-bounded : word_plan parse_bounded [] false false false false ≡ some (name ∷ [])
unfolding word_plan word_plan_hir seqs words_of word_of contains is_query_word is_word_byte
word_plan-bounded = refl

bounded-Matches : Matches bounded name
bounded-Matches = Matches.concat (
    Sequence.step (Matches.look Look.word_unicode) (
      Sequence.step (Matches.literal name)
        (Sequence.step (Matches.look Look.word_unicode) Sequence.end)))

space-Before : Before (b' ' ∷ [])
unfolding Before is_word_byte
space-Before = refl

word_plan_sound_example :
    In name (name ∷ []) × In name (for_each_word ((b' ' ∷ []) ++ (name ++ [])))
word_plan_sound_example =
    word_plan_sound parse_bounded [] false (name ∷ []) bounded (b' ' ∷ []) name [] word_plan-bounded
      refl bounded-Matches space-Before tt
