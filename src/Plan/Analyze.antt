-- ===== src/Plan/Analyze.antt =====
-- `Info` and the functions that compute it: `simplify`, `concat`, `alternate`, `class_members` and
-- `analyze` of crates/greeg-index/src/plan.rs.
pub mod Edges
pub mod Facts
pub mod Classes
pub mod Sound
use greeg.Base.{
  ℕ, zero, suc, ◌+◌, ◌-◌, Bool, true, false, not, ◌&&◌, ◌||◌, Option, none, some, List, [], ◌∷◌,
  map, Bytes, length, take, ltb, leb, ◌==◌, if◌then◌else◌,
}
use greeg.Gram.{fold}
use greeg.Plan.Query.{Q, both, either}
use greeg.Plan.Sets.{
  max_set, max_str, Set, insert, from_list, union, one, empty_str, cross, last_bytes, trim_prefixes,
  trim_suffixes, trigrams_of,
}
use greeg.Plan.Hir.{Range, Class, Hir, Hirs, is_char, encode_utf8}

pub record Info : Type 0 where
  pub emptyable : Bool
  pub exact : Option Set
  pub prefix : Set
  pub suffix : Set
  pub q : Q

-- `ex.iter().any(|s| s.len() > MAX_STR)`
unfoldable pub any_long : Set → Bool
any_long [] = false
any_long (s ∷ ss) = ltb max_str (length s) || any_long ss

unfoldable pub too_big : Set → Bool
unfolding any_long
too_big ex = ltb max_set (length ex) || any_long ex

-- The three `if`s of `simplify`: an oversized exact set goes into the query,
unfoldable pub fold_exact : Option Set → Info → Info
unfolding too_big
fold_exact none i = i
fold_exact (some ex) i =
    if too_big ex
    then record {
      emptyable = i.emptyable;
      exact = none;
      prefix = from_list (map (take 3) (trim_prefixes ex));
      suffix = from_list (map (last_bytes 3) (trim_suffixes ex));
      q = both i.q (trigrams_of ex);
    }
    else i

-- an oversized prefix or suffix set is cut to strings of two bytes, or given up.
unfoldable pub shrink : (Bytes → Bytes) → Set → Set
shrink cut set =
    let short = from_list (map cut set) in
    if ltb max_set (length set)
    then (if ltb max_set (length short) then empty_str else short)
    else set

unfoldable pub simplify : Info → Info
unfolding fold_exact shrink
simplify i =
    let j = fold_exact i.exact i in
    record j { prefix = shrink (take 2) j.prefix; suffix = shrink (last_bytes 2) j.suffix }

-- `cross(x, y)` if both sets are exact.
unfoldable pub cross_exact : Option Set → Option Set → Option Set
cross_exact (some x) (some y) = some (cross x y)
cross_exact (some x) none = none
cross_exact none _ = none

unfoldable pub is_none : Option Set → Bool
is_none none = true
is_none (some x) = false

-- The value of `out` in `concat`.
unfoldable pub concat_info : Info → Info → Info
unfolding cross_exact is_none
concat_info a b =
    let q = both a.q b.q in
    let exact = cross_exact a.exact b.exact in
    record {
      emptyable = a.emptyable && b.emptyable;
      exact = exact;
      prefix = elim a.exact [ none ↦ a.prefix | some x ↦ cross x b.prefix ];
      suffix = elim b.exact [ none ↦ b.suffix | some y ↦ cross a.suffix y ];
      q = if is_none exact then both q (trigrams_of (cross a.suffix b.prefix)) else q;
    }

-- `out = simplify(out)` when the exact set is oversized, then `simplify(out)`.
unfoldable pub concat : Info → Info → Info
unfolding concat_info simplify
concat a b =
    let out = concat_info a b in
    elim out.exact [
      | none ↦ simplify out
      | some ex ↦ if ltb max_set (length ex) then simplify (simplify out) else simplify out
    ]

-- `with_exact`
unfoldable pub with_exact : Info → Q
with_exact i = both i.q (elim i.exact [ none ↦ Q.all | some x ↦ trigrams_of x ])

unfoldable pub union_exact : Option Set → Option Set → Option Set
union_exact (some x) (some y) = some (union x y)
union_exact (some x) none = none
union_exact none _ = none

unfoldable pub alternate : Info → Info → Info
unfolding with_exact union_exact is_none simplify
alternate a b = simplify (record {
  emptyable = a.emptyable || b.emptyable;
  exact = union_exact a.exact b.exact;
  prefix = union a.prefix b.prefix;
  suffix = union a.suffix b.suffix;
  q = if is_none (union_exact a.exact b.exact) then either (with_exact a) (with_exact b) else Q.all;
})

-- What is inserted for a character: an ASCII one is case-folded.
abbrev pub char_text : ℕ → Bytes
char_text cp = if ltb cp 0x80 then fold cp ∷ [] else encode_utf8 cp

-- `for cp in s..=e` over the rounds left; `none` is `return None`.
unfoldable pub chars_onto : ℕ → ℕ → Set → Option Set
chars_onto zero cp out = some out
chars_onto (suc n) cp out =
    let rest = chars_onto n (cp + 1) (insert (char_text cp) out) in
    if is_char cp then rest else none

unfoldable pub bytes_onto : ℕ → ℕ → Set → Option Set
bytes_onto zero x out = some out
bytes_onto (suc n) x out =
    let rest = bytes_onto n (x + 1) (insert (fold x ∷ []) out) in if leb 0x80 x then none else rest

-- The loop over the ranges, with the inner loop of its kind. A range that ends before it starts,
-- which regex-syntax does not build, has no round.
unfoldable pub ranges_onto : (ℕ → ℕ → Set → Option Set) → List Range → Set → Option Set
ranges_onto inner [] out = some out
ranges_onto inner (r ∷ rs) out =
    if ltb 16 (r.last - r.first) then none else elim (inner (r.last + 1 - r.first) r.first out) [
      | none ↦ none
      | some out' ↦ ranges_onto inner rs out'
    ]

unfoldable pub class_members : Class → Option Set
unfolding chars_onto bytes_onto ranges_onto
class_members (Class.unicode rs) = ranges_onto chars_onto rs []
class_members (Class.bytes rs) = ranges_onto bytes_onto rs []

-- The `Info` of a node with nothing known.
abbrev pub unknown : Bool → Info
unknown emptyable = record {
  emptyable = emptyable;
  exact = none;
  prefix = empty_str;
  suffix = empty_str;
  q = Q.all;
}

abbrev pub exactly : Bool → Set → Info
exactly emptyable set = record {
  emptyable = emptyable;
  exact = some set;
  prefix = set;
  suffix = set;
  q = Q.all;
}

unfoldable pub is_nil : Bytes → Bool
is_nil [] = true
is_nil (x ∷ xs) = false

unfoldable pub class_info : Option Set → Info
class_info none = unknown false
class_info (some []) = unknown false
class_info (some (m ∷ ms)) =
    if leb (length (m ∷ ms)) 8 then exactly false (from_list (m ∷ ms)) else unknown false

-- The repetition arm, given `analyze(&r.sub)`.
unfoldable pub repeat_info : ℕ → Option ℕ → Info → Info
repeat_info zero max sub = unknown true
repeat_info (suc zero) (some m) sub = if m == 1 then sub else record sub { exact = none }
repeat_info (suc _) _ sub = record sub { exact = none }

unfoldable mutual
  unfolding simplify concat alternate class_members class_info repeat_info

  pub analyze : Hir → Info
  analyze Hir.empty = simplify (exactly true empty_str)
  analyze (Hir.look l) = simplify (exactly true empty_str)
  analyze (Hir.literal l) = let b = map fold l in simplify (exactly (is_nil b) (one b))
  analyze (Hir.class c) = simplify (class_info (class_members c))
  analyze (Hir.repetition min max h) = simplify (repeat_info min max (analyze h))
  analyze (Hir.capture h) = simplify (analyze h)
  analyze (Hir.concat hs) = simplify (analyze_concat hs (exactly true empty_str))
  analyze (Hir.alternation h hs) = simplify (analyze_alternation hs (analyze h))

  -- `for p in parts { acc = concat(acc, analyze(p)) }`
  pub analyze_concat : Hirs → Info → Info
  analyze_concat Hirs.nil acc = acc
  analyze_concat (Hirs.cons h hs) acc = analyze_concat hs (concat acc (analyze h))

  -- `for a in it { acc = alternate(acc, analyze(a)) }`
  pub analyze_alternation : Hirs → Info → Info
  analyze_alternation Hirs.nil acc = acc
  analyze_alternation (Hirs.cons h hs) acc = analyze_alternation hs (alternate acc (analyze h))
