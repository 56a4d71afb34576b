-- ===== src/Candidates.antt =====
-- crates/greeg-index/src/index.rs: `Segment::posting`, `Segment::eval` and `Segment::eval_words`,
-- the files that may answer a query. Roaring bitmaps are an interface with the laws that roaring
-- documents. `corrupt`, which the methods store through a shared reference, is passed along.
pub mod Superset
pub mod ByWord
mod Tests
use greeg.Base.{
  ℕ, zero, suc, ◌+◌, ◌*◌, Bool, true, false, ◌&&◌, ◌||◌, Option, none, some, List, [], ◌∷◌, ◌≡◌,
  Bytes, ltb, leb, ◌==◌, if◌then◌else◌,
}
use Prim.Native.Nat.{max}
use greeg.Plan.Query.{Q, Qs}

-- `RoaringBitmap`: membership, `new`, `&=`, `|=`, `is_empty` and `deserialize_from`.
pub record Bitmaps : Type 1 where
  pub Bitmap : Type 0
  pub has : Bitmap → ℕ → Bool
  pub new : Bitmap
  pub meet : Bitmap → Bitmap → Bitmap
  pub join : Bitmap → Bitmap → Bitmap
  pub is_empty : Bitmap → Bool
  pub deserialize : Bytes → Option Bitmap
  pub has-new : (n : ℕ) → has new n ≡ false
  pub has-meet : (a b : Bitmap) (n : ℕ) → has (meet a b) n ≡ (has a n && has b n)
  pub has-join : (a b : Bitmap) (n : ℕ) → has (join a b) n ≡ (has a n || has b n)

-- Insertion into the ascending list of `(count, key)` pairs.
insert_pair : ℕ × ℕ → List (ℕ × ℕ) → List (ℕ × ℕ)
insert_pair p [] = p ∷ []
insert_pair p (r ∷ rs) =
    if ltb p.0 r.0 || (p.0 == r.0 && leb p.1 r.1) then p ∷ r ∷ rs else r ∷ insert_pair p rs

-- `lists.sort_unstable()`
unfoldable pub sort_pairs : List (ℕ × ℕ) → List (ℕ × ℕ)
unfolding insert_pair
sort_pairs [] = []
sort_pairs (p ∷ ps) = insert_pair p (sort_pairs ps)

abbrev is_gram : Q → Bool
is_gram (Q.gram g) = true
is_gram _ = false

module _ (bitmaps : Bitmaps) where
  open bitmaps use {Bitmap, new, meet, join, is_empty, deserialize}

  -- What `eval` reads of a segment: the gram table (`find`, `count`, `posting_bytes`), the word
  -- table, which may be missing, and all its files.
  pub record Segment : Type 0 where
    pub find : ℕ → Option ℕ
    pub count : ℕ → ℕ
    pub posting_bytes : ℕ → Bytes
    pub find_word : Option (Bytes → Option ℕ)
    pub word_bytes : ℕ → Bytes
    pub n_files : ℕ
    pub all : Bitmap

  -- The loop of `Or` and of `eval_words` ends early, or goes on with `acc`.
  abbrev pub Evaluated : Type 0
  Evaluated = Option Bitmap × Bool

  module _ (seg : Segment) where
    -- The bitmap read at position `i`: a list that fails to deserialize reads as every file.
    unfoldable pub posting_at : ℕ → Bool → (ℕ × Bitmap) × Bool
    posting_at i corrupt = elim (deserialize (seg.posting_bytes i)) [
      | some bm ↦ ((seg.count i, bm), corrupt)
      | none ↦ ((seg.n_files, seg.all), true)
    ]

    unfoldable pub posting : ℕ → Bool → Option (ℕ × Bitmap) × Bool
    unfolding posting_at
    posting key corrupt = elim (seg.find key) [
      | none ↦ (none, corrupt)
      | some i ↦ (some (posting_at i corrupt).0, (posting_at i corrupt).1)
    ]

    -- `match acc { None => acc = Some(bm), Some(a) => *a &= bm }`
    unfoldable pub narrow : Option Bitmap → Bitmap → Bitmap
    narrow none bm = bm
    narrow (some a) bm = meet a bm

    -- The first loop of `And`: the trigrams' counts; `none` if one is absent.
    unfoldable pub gram_lists : Qs → Option (List (ℕ × ℕ))
    gram_lists Qs.nil = some []
    gram_lists (Qs.cons (Q.gram g) v) = elim (seg.find g) [
      | none ↦ none
      | some i ↦ elim (gram_lists v) [ none ↦ none | some l ↦ some ((seg.count i, g) ∷ l) ]
    ]
    gram_lists (Qs.cons _ v) = gram_lists v

    -- The second loop: rarest first, at most six, leaving out those that prune nothing. The Boolean
    -- says that `eval` returns.
    unfoldable pub meet_lists : List (ℕ × ℕ) → ℕ → Option Bitmap → Bool → Bool × Evaluated
    unfolding posting narrow
    meet_lists [] n acc corrupt = (false, (acc, corrupt))
    meet_lists ((count, key) ∷ rest) n acc corrupt =
        if leb 6 n || (ltb 0 n && ltb (max seg.n_files 1) (count * 2))
        then (false, (acc, corrupt))
        else elim (posting key corrupt).0 [
          | none ↦ (true, (none, (posting key corrupt).1))
          | some (_, bm) ↦ elim (is_empty (narrow acc bm)) [
            | true ↦ (true, (some (narrow acc bm), (posting key corrupt).1))
            | false ↦ meet_lists rest (n + 1) (some (narrow acc bm)) (posting key corrupt).1
          ]
        ]

    abbrev narrow_by : Option Bitmap → Option Bitmap → Option Bitmap
    narrow_by acc none = acc
    narrow_by acc (some bm) = some (narrow acc bm)

    -- After the second loop: return, or go on to the third, `subs`.
    abbrev pub Subs : Type 0
    Subs = Option Bitmap → Bool → Evaluated

    unfoldable pub after_lists : Bool × Evaluated → Subs → Evaluated
    after_lists (true, r) subs = r
    after_lists (false, (acc, corrupt)) subs = subs acc corrupt

    -- `And` after its first loop, which returns no file if a trigram is absent.
    unfoldable pub and_result : Option (List (ℕ × ℕ)) → Subs → Bool → Evaluated
    unfolding meet_lists sort_pairs after_lists
    and_result none subs corrupt = (some new, corrupt)
    and_result (some lists) subs corrupt =
        after_lists (meet_lists (sort_pairs lists) 0 none corrupt) subs

    unfoldable mutual
      unfolding and_result narrow gram_lists meet_lists sort_pairs

      -- `None` is every file.
      pub eval : Q → Bool → Evaluated
      eval Q.all corrupt = (none, corrupt)
      eval Q.none corrupt = (some new, corrupt)
      eval (Q.gram g) corrupt = (
        some (elim (posting g corrupt).0 [ none ↦ new | some (_, b) ↦ b ]),
        (posting g corrupt).1,
      )
      eval (Q.and v) corrupt = and_result (gram_lists v) (eval_subs v) corrupt
      eval (Q.or v) corrupt = eval_or v new corrupt

      -- The third loop of `And`, over what is no trigram.
      eval_subs : Qs → Option Bitmap → Bool → Evaluated
      eval_subs Qs.nil acc corrupt = (acc, corrupt)
      eval_subs (Qs.cons q v) acc corrupt = elim (is_gram q) [
        | true ↦ eval_subs v acc corrupt
        | false ↦ eval_subs v (narrow_by acc (eval q corrupt).0) (eval q corrupt).1
      ]

      eval_or : Qs → Bitmap → Bool → Evaluated
      eval_or Qs.nil acc corrupt = (some acc, corrupt)
      eval_or (Qs.cons q v) acc corrupt = elim (eval q corrupt).0 [
        | none ↦ (none, (eval q corrupt).1)
        | some bm ↦ eval_or v (join acc bm) (eval q corrupt).1
      ]

    -- `eval_words` over the alternatives left, in a segment with a word section.
    unfoldable pub eval_words_loop : (Bytes → Option ℕ) → List Bytes → Bitmap → Bool → Bitmap × Bool
    eval_words_loop find [] acc corrupt = (acc, corrupt)
    eval_words_loop find (w ∷ ws) acc corrupt = elim (find w) [
      | none ↦ eval_words_loop find ws acc corrupt
      | some i ↦ elim (deserialize (seg.word_bytes i)) [
        | some bm ↦ eval_words_loop find ws (join acc bm) corrupt
        | none ↦ (seg.all, true)
      ]
    ]

    unfoldable pub eval_words : List Bytes → Bool → Evaluated
    unfolding eval_words_loop
    eval_words alts corrupt = elim seg.find_word [
      | none ↦ (none, corrupt)
      | some find ↦ (
        some (eval_words_loop find alts new corrupt).0,
        (eval_words_loop find alts new corrupt).1,
      )
    ]
