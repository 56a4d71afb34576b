-- ===== src/Plan/Sets.antt =====
-- `type Set = BTreeSet<Vec<u8>>`: byte strings in ascending order, each once; and the functions of
-- plan.rs over sets. `from_list` is `collect`.
pub mod Laws
use Prim.Native.Nat.{compare, Ordering}
use greeg.Base.{
  ℕ, zero, suc, ◌+◌, ◌-◌, ◌<◌, ◌≡◌, ◌↔◌, ◌⊎◌, inl, inr, refl, sym, ap, ◌∙◌, arith, Bool, true,
  false, List, [], ◌∷◌, ◌++◌, map, Bytes, length, take, drop, take-append-drop, In, In-map,
  In-append_left, In-append_right, ltb, if◌then◌else◌, Bool-cases, Option, none, some, dedup,
  In-dedup,
}
use greeg.Gram.{literal_keys, fold}
use greeg.Gram.Literal.{InGroups, literal_keys_lem}
use greeg.Gram.Windows.{HasGram}
use greeg.Plan.Query.{Q, Qs, Holds, HoldsAll, HoldsAny}

abbrev pub max_set : ℕ
max_set = 32

abbrev pub max_str : ℕ
max_str = 24

-- The order of `Vec<u8>`.
unfoldable pub cmp : Bytes → Bytes → Ordering
cmp [] [] = Ordering.eq
cmp [] (y ∷ ys) = Ordering.lt
cmp (x ∷ xs) [] = Ordering.gt
cmp (x ∷ xs) (y ∷ ys) = elim (compare x y) [
  | Ordering.lt ↦ Ordering.lt
  | Ordering.eq ↦ cmp xs ys
  | Ordering.gt ↦ Ordering.gt
]

pub cmp-eq : (xs ys : Bytes) → cmp xs ys ≡ Ordering.eq → xs ≡ ys
unfolding cmp
cmp-eq [] [] h = refl
cmp-eq [] (y ∷ ys) h = cc
cmp-eq (x ∷ xs) [] h = cc
cmp-eq (x ∷ xs) (y ∷ ys) h = ground (arith, cmp-eq xs ys)

abbrev pub Set : Type 0
Set = List Bytes

-- `set.insert(s)`
unfoldable pub insert : Bytes → Set → Set
unfolding cmp
insert s [] = s ∷ []
insert s (t ∷ ts) = elim (cmp s t) [
  | Ordering.lt ↦ s ∷ t ∷ ts
  | Ordering.eq ↦ t ∷ ts
  | Ordering.gt ↦ t ∷ insert s ts
]

unfoldable pub from_list : List Bytes → Set
unfolding insert
from_list [] = []
from_list (s ∷ l) = insert s (from_list l)

unfoldable pub union : Set → Set → Set
unfolding from_list
union x y = from_list (x ++ y)

unfoldable pub one : Bytes → Set
unfolding insert
one s = insert s []

abbrev pub empty_str : Set
empty_str = [] ∷ []

-- The inner and the outer loop of `cross`, which insert every `x ++ y`.
cross_with : Bytes → Set → Set → Set
cross_with x [] out = out
cross_with x (y ∷ ys) out = cross_with x ys (insert (x ++ y) out)

cross_onto : Set → Set → Set → Set
cross_onto [] b out = out
cross_onto (x ∷ xs) b out = cross_onto xs b (cross_with x b out)

unfoldable pub cross : Set → Set → Set
unfolding cross_with cross_onto insert
cross a b = cross_onto a b []

-- `s[s.len().saturating_sub(n)..]`
abbrev pub last_bytes : ℕ → Bytes → Bytes
last_bytes n s = drop (length s - n) s

unfoldable pub trim_prefixes : Set → Set
unfolding from_list
trim_prefixes set = from_list (map (take max_str) set)

unfoldable pub trim_suffixes : Set → Set
unfolding from_list
trim_suffixes set = from_list (map (last_bytes max_str) set)

-- `groups.into_iter().flat_map(|g| g.into_iter())`
unfoldable pub flat : List (List ℕ) → List ℕ
flat [] = []
flat (g ∷ gs) = g ++ flat gs

unfoldable pub gram_queries : List ℕ → Qs
gram_queries [] = Qs.nil
gram_queries (k ∷ ks) = Qs.cons (Q.gram k) (gram_queries ks)

-- One query alone stands for itself.
unfoldable pub and_of : Qs → Q
and_of (Qs.cons q Qs.nil) = q
and_of v = Q.and v

-- What one string adds to the alternatives of those after it.
unfoldable pub alternative : List (List ℕ) → Option Qs → Option Qs
unfolding flat gram_queries and_of
alternative [] rest = none
alternative (g ∷ gs) none = none
alternative (g ∷ gs) (some v) = some (Qs.cons (and_of (gram_queries (dedup (flat (g ∷ gs))))) v)

-- The last lines of `trigrams_of`.
unfoldable pub or_of : Qs → Q
or_of Qs.nil = Q.all
or_of (Qs.cons q Qs.nil) = q
or_of v = Q.or v

-- The alternatives of `trigrams_of`'s loop; `none` is its early return of `Q::All`.
unfoldable pub alternatives : Set → Option Qs
unfolding alternative
alternatives [] = some Qs.nil
alternatives (s ∷ ss) = alternative (literal_keys s) (alternatives ss)

unfoldable pub trigrams_of : Set → Q
unfolding alternatives or_of
trigrams_of set = elim (alternatives set) [ none ↦ Q.all | some v ↦ or_of v ]
