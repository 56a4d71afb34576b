-- ===== src/Candidates/Tests.antt =====
-- Runs of the evaluation, and its theorem at concrete inputs, with bitmaps as lists of numbers. The
-- byte `0` of a posting list is one that cannot be read.
use greeg.Base.{
  ℕ, ◌≡◌, ◌∙◌, inl, inr, refl, Bool, true, false, ◌&&◌, ◌||◌, Bool-cases, Option, none, some, List,
  [], ◌∷◌, ◌++◌, Bytes, ◌==◌, if◌then◌else◌, In, arith, sym, ap, suc, zero, ==_iff,
}
use mathlib.Core.Option.{some-injective}
use greeg.Plan.Query.{Q, Qs, Holds}
use greeg.Candidates.{Bitmaps, Segment, eval}
use greeg.Base.{bytes_eq, subst}
use greeg.Candidates.{eval_words}
use greeg.Candidates.ByWord.{IsListedUnder, eval_words_superset}
use greeg.Candidates.Superset.{IsListed, IsCandidate, eval_superset}

elem : List ℕ → ℕ → Bool
elem [] n = false
elem (m ∷ b) n = (m == n) || elem b n

filter : (ℕ → Bool) → List ℕ → List ℕ
filter f [] = []
filter f (m ∷ b) = if f m then m ∷ filter f b else filter f b

elem-nil : (n : ℕ) → elem [] n ≡ false
unfolding elem
elem-nil n = refl

elem-append : (a b : List ℕ) (n : ℕ) → elem (a ++ b) n ≡ (elem a n || elem b n)
unfolding elem
elem-append [] b n = refl
elem-append (m ∷ a) b n = let e = elem-append a b n in ground arith

and_absorb : (b c : Bool) → c ≡ false → (b && c) ≡ c
and_absorb b c e = ground arith

elem-filter : (f : ℕ → Bool) (b : List ℕ) (n : ℕ) → elem (filter f b) n ≡ (elem b n && f n)
unfolding elem filter
elem-filter f [] n = refl
elem-filter f (m ∷ b) n =
    let e = elem-filter f b n in
    elim (Bool-cases (f m)) [
      | inl t ↦ elim (Bool-cases (m == n)) [
        | inl k ↦ rw t (rw (k, sym (ap f ((==_iff m n).0 k)) ∙ t) refl)
        | inr k ↦ rw t (rw k e)
      ]
      | inr t ↦ elim (Bool-cases (m == n)) [
        | inl k ↦ rw t (rw k (e ∙ and_absorb (elem b n) (f n) (sym (ap f ((==_iff m n).0 k)) ∙ t)))
        | inr k ↦ rw t (rw k e)
      ]
    ]

is_nil : List ℕ → Bool
is_nil [] = true
is_nil (m ∷ b) = false

read : Bytes → Option (List ℕ)
read [] = some []
read (zero ∷ l) = none
read (suc n ∷ l) = some (suc n ∷ l)

abbrev lists : Bitmaps
lists = record {
  Bitmap = List ℕ;
  has = elem;
  new = [];
  meet = λ a b. filter (elem b) a;
  join = (λ a b. a ++ b);
  is_empty = is_nil;
  deserialize = read;
  has-new = elem-nil;
  has-meet = (λ a b n. elem-filter (elem b) a n);
  has-join = elem-append;
}

-- Files 1, 2 and 3; gram 7 is in 2 and 3, gram 8 in 2, and gram 9's list cannot be read.
find_gram : ℕ → Option ℕ
find_gram g = if g == 7 then some 0 else if g == 8 then some 1 else if g == 9 then some 2 else none

list_at : ℕ → Bytes
list_at zero = 2 ∷ 3 ∷ []
list_at (suc zero) = 2 ∷ []
list_at (suc (suc n)) = 0 ∷ []

abbrev three_files : Segment lists
three_files = record {
  find = find_gram;
  count = (λ i. if i == 0 then 2 else 1);
  posting_bytes = list_at;
  find_word = none;
  word_bytes = (λ i. []);
  n_files = 3;
  all = 1 ∷ 2 ∷ 3 ∷ [];
}

abbrev grams : Q
grams =
    Q.and
      (Qs.cons (Q.gram 7) (Qs.cons (Q.or (Qs.cons (Q.gram 8) (Qs.cons (Q.gram 9) Qs.nil))) Qs.nil))

-- The unreadable list marks the segment corrupt and leaves every file of the others.
eval-corrupt : eval lists three_files grams false ≡ (some (2 ∷ 3 ∷ []), true)
unfolding eval find_gram is_nil read list_at filter elem
eval-corrupt = refl

eval-absent : eval lists three_files (Q.and (Qs.cons (Q.gram 6) Qs.nil)) false ≡ (some [], false)
unfolding eval find_gram
eval-absent = refl

-- File 2 has the grams 7 and 8.
abbrev GramOf : ℕ → Type 0
GramOf k = In k (7 ∷ 8 ∷ [])

second :
    (k : ℕ)
    → GramOf k
    → (i : ℕ) × (find_gram k ≡ some i)
      × ((bm : List ℕ) → read (list_at i) ≡ some bm → elem bm 2 ≡ true)
unfolding find_gram read elem list_at
second k (inl e) = (0, rw e refl, λ bm h. rw (sym (some-injective _ _ h)) refl)
second k (inr (inl e)) = (1, rw e refl, λ bm h. rw (sym (some-injective _ _ h)) refl)
second k (inr (inr e)) = absurd e

in_all : elem (1 ∷ 2 ∷ 3 ∷ []) 2 ≡ true
unfolding elem
in_all = refl

second-IsListed : IsListed lists three_files GramOf 2
second-IsListed = record { listed = second; everywhere = in_all }

eval_superset_example : IsCandidate lists 2 (eval lists three_files grams false).0
unfolding Holds
eval_superset_example =
    eval_superset lists three_files GramOf 2 second-IsListed grams false
      (inl refl, (inl (inr (inl refl)), tt))

-- The word section holds `ab`, in file 2.
abbrev word_ab : Bytes
word_ab = b'a' ∷ b'b' ∷ []

find_ab : Bytes → Option ℕ
find_ab w = if bytes_eq w word_ab then some 0 else none

abbrev worded : Segment lists
worded = record three_files { find_word = some find_ab; word_bytes = λ i. 2 ∷ [] }

ab-IsListedUnder : IsListedUnder lists worded 2 find_ab word_ab
unfolding find_ab bytes_eq read elem
ab-IsListedUnder = record {
  position = 0;
  found = refl;
  listed = λ bm h. rw (sym (some-injective _ _ h)) refl;
  everywhere = refl;
}

eval_words_superset_example :
    IsCandidate lists 2 (eval_words lists worded ((b'x' ∷ []) ∷ word_ab ∷ []) false).0
eval_words_superset_example =
    eval_words_superset lists worded 2 ((b'x' ∷ []) ∷ word_ab ∷ []) word_ab false (inr (inl refl))
      (λ find e.
        subst (λ f. IsListedUnder lists worded 2 f word_ab) (some-injective _ _ e) ab-IsListedUnder)
