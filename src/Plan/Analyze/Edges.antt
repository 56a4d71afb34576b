-- ===== src/Plan/Analyze/Edges.antt =====
-- Sets of strings that start or end a text, and what `shrink` keeps of them (plan.rs of
-- crates/greeg-index).
use greeg.Base.{
  ℕ, ◌-◌, ◌≡◌, inl, inr, refl, sym, ap, ◌∙◌, Option, none, some, [], ◌++◌, map, append_assoc,
  append-nil, Bytes, length, take, drop, take-append-drop, In, Bool-cases, ltb,
}
use greeg.Plan.Sets.{max_set, Set, from_list, empty_str, last_bytes}
use greeg.Plan.Sets.Laws.{In-map_set}
use greeg.Plan.Analyze.{shrink}

-- A string of the set starts (ends) the text.
abbrev pub Starts : Set → Bytes → Type 0
Starts set m = (p : Bytes) × In p set × ((r : Bytes) × (m ≡ p ++ r))

abbrev pub Ends : Set → Bytes → Type 0
Ends set m = (s : Bytes) × In s set × ((r : Bytes) × (m ≡ r ++ s))

abbrev pub Exactly : Option Set → Bytes → Type 0
Exactly none m = Unit
Exactly (some x) m = In m x

-- Shortening the strings of a set keeps that one of them starts (ends) the text.
pub Starts-map :
    (n : ℕ) (set : Set) (m : Bytes) → Starts set m → Starts (from_list (map (take n) set)) m
Starts-map n set m (p, i, (r, e)) = (
  take n p,
  In-map_set (take n) p set i,
  (
    drop n p ++ r,
    e ∙ ap (λ t. t ++ r) (sym (take-append-drop n p)) ∙ append_assoc (take n p) (drop n p) r,
  ),
)

pub Ends-map :
    (n : ℕ) (set : Set) (m : Bytes) → Ends set m → Ends (from_list (map (last_bytes n) set)) m
Ends-map n set m (s, i, (r, e)) =
    let k = length s - n in
    (
      drop k s,
      In-map_set (last_bytes n) s set i,
      (
        r ++ take k s,
        e
            ∙ ap (λ t. r ++ t) (sym (take-append-drop k s))
            ∙ sym (append_assoc r (take k s) (drop k s)),
      ),
    )

pub Starts-empty : (m : Bytes) → Starts empty_str m
Starts-empty m = ([], inl refl, (m, refl))

pub Ends-empty : (m : Bytes) → Ends empty_str m
Ends-empty m = ([], inl refl, (m, sym (append-nil m)))

pub Starts-shrink : (n : ℕ) (set : Set) (m : Bytes) → Starts set m → Starts (shrink (take n) set) m
unfolding shrink
Starts-shrink n set m h = elim (Bool-cases (ltb max_set (length set))) [
  | inl e ↦ rw e (elim (Bool-cases (ltb max_set (length (from_list (map (take n) set))))) [
    | inl f ↦ rw f (Starts-empty m)
    | inr f ↦ rw f (Starts-map n set m h)
  ])
  | inr e ↦ rw e h
]

pub Ends-shrink : (n : ℕ) (set : Set) (m : Bytes) → Ends set m → Ends (shrink (last_bytes n) set) m
unfolding shrink
Ends-shrink n set m h = elim (Bool-cases (ltb max_set (length set))) [
  | inl e ↦ rw e (elim (Bool-cases (ltb max_set (length (from_list (map (last_bytes n) set))))) [
    | inl f ↦ rw f (Ends-empty m)
    | inr f ↦ rw f (Ends-map n set m h)
  ])
  | inr e ↦ rw e h
]
