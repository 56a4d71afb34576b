-- ===== src/Plan/Tests.antt =====
-- Runs of the planner, and its theorems at concrete inputs.
use greeg.Base.{
  sort_unstable, dedup, ℕ, ◌≡◌, ◌↔◌, refl, false, Bool, Option, some, [], ◌∷◌, ◌++◌, Bytes, In,
}
use greeg.Plan.Sets.{one, union, cross, trigrams_of}
use greeg.Plan.Analyze.{analyze}
use greeg.Gram.{fold, literal_keys, fold_buf, new, extract}
use greeg.Gram.Extract.{IsClean}
use greeg.Plan.Query.{Q, Qs, Holds, both}
use greeg.Plan.Hir.{Hir, Hirs, literal}
use greeg.Plan.Flatten.{flatten}
use greeg.Plan.Flatten.Laws.{flatten_iff}
use greeg.Plan.Planner.{plan, plan_hir, plan_sound}

abbrev word : Bytes
word = b'a' ∷ b'B' ∷ b'c' ∷ b'd' ∷ []

abbrev parse_word : Bool → Bytes → Option Hir
parse_word casei pattern = some (Hir.literal pattern)

-- `aBcd` asks for `abc` and `bcd`.
abbrev word_query : Q
word_query = Q.and (Qs.cons (Q.gram 6382179) (Qs.cons (Q.gram 6447972) Qs.nil))

plan-word : plan (λ p. p) parse_word word false false ≡ some word_query
unfolding plan flatten analyze one both trigrams_of literal_keys dedup sort_unstable
plan-word = refl

-- `(ab|ax)cd`: either way the text holds one of two pairs of trigrams.
plan_hir-concat :
    plan_hir (
      Hir.concat (
        Hirs.cons
          (Hir.alternation
            (Hir.literal (b'a' ∷ b'b' ∷ []))
            (Hirs.cons (Hir.literal (b'a' ∷ b'x' ∷ [])) Hirs.nil))
          (Hirs.cons (Hir.literal (b'c' ∷ b'd' ∷ [])) Hirs.nil)))
    ≡ Q.or (
        Qs.cons word_query
          (Qs.cons (Q.and (Qs.cons (Q.gram 6387811) (Qs.cons (Q.gram 7889764) Qs.nil))) Qs.nil))
unfolding plan_hir flatten analyze one union fold cross both trigrams_of literal_keys dedup
    sort_unstable
plan_hir-concat = refl

new-IsClean : IsClean new
new-IsClean = record { zeroed = λ w. refl; untouched = refl }

abbrev GramOf : Bytes → ℕ → Type 0
GramOf content k = In k (extract new (fold_buf content)).1

plan_sound_example : Holds (GramOf ((b'x' ∷ []) ++ (word ++ (b'\n' ∷ [])))) word_query
plan_sound_example =
    plan_sound (λ p. p) parse_word word false false word_query (Hir.literal word) new (b'x' ∷ [])
      word (b'\n' ∷ []) plan-word refl (literal word) new-IsClean

flatten_iff_example :
    Holds (GramOf word) (flatten (Q.and (Qs.cons Q.all (Qs.cons word_query Qs.nil))))
    ↔ Holds (GramOf word) (Q.and (Qs.cons Q.all (Qs.cons word_query Qs.nil)))
flatten_iff_example = flatten_iff (GramOf word) (Q.and (Qs.cons Q.all (Qs.cons word_query Qs.nil)))
