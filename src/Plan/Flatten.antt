-- ===== src/Plan/Flatten.antt =====
-- `flatten`: redundant structure removed from a query, and the query's meaning kept.
pub mod Laws
use greeg.Base.{ℕ, ◌^◌, ◌-◌, Bool, true, false, ◌&&◌, Option, none, some, leb, ◌==◌, if◌then◌else◌}
use greeg.Plan.Query.{Q, Qs, append}

-- The key of `sort_by_key`: a trigram's number, `u64::MAX` for anything else.
sort_key : Q → ℕ
sort_key (Q.gram g) = g
sort_key _ = 2 ^ 64 - 1

insert_by_key : Q → Qs → Qs
insert_by_key x Qs.nil = Qs.cons x Qs.nil
insert_by_key x (Qs.cons y v) =
    if leb (sort_key x) (sort_key y) then Qs.cons x (Qs.cons y v) else Qs.cons y (insert_by_key x v)

-- The sort is stable.
sort_by_key : Qs → Qs
sort_by_key Qs.nil = Qs.nil
sort_by_key (Qs.cons x v) = insert_by_key x (sort_by_key v)

-- The derived `==` on `Q`.
mutual
  q_eq : Q → Q → Bool
  q_eq Q.all Q.all = true
  q_eq Q.none Q.none = true
  q_eq (Q.gram a) (Q.gram b) = a == b
  q_eq (Q.and v) (Q.and w) = qs_eq v w
  q_eq (Q.or v) (Q.or w) = qs_eq v w
  q_eq _ _ = false

  qs_eq : Qs → Qs → Bool
  qs_eq Qs.nil Qs.nil = true
  qs_eq (Qs.cons a v) (Qs.cons b w) = q_eq a b && qs_eq v w
  qs_eq _ _ = false

dedup_after : Q → Qs → Qs
dedup_after x Qs.nil = Qs.nil
dedup_after x (Qs.cons y v) =
    let rest = dedup_after y v in if q_eq x y then rest else Qs.cons y rest

-- `out.dedup()`
dedup : Qs → Qs
dedup Qs.nil = Qs.nil
dedup (Qs.cons x v) = Qs.cons x (dedup_after x v)

-- One round of the loop over a conjunction; `none` is `return Q::None`.
and_round : Q → Option Qs → Option Qs
and_round Q.all rest = rest
and_round Q.none rest = none
and_round (Q.and inner) none = none
and_round (Q.and inner) (some v) = some (append inner v)
and_round (Q.gram g) none = none
and_round (Q.gram g) (some v) = some (Qs.cons (Q.gram g) v)
and_round (Q.or w) none = none
and_round (Q.or w) (some v) = some (Qs.cons (Q.or w) v)

-- One round of the loop over a disjunction; `none` is `return Q::All`.
or_round : Q → Option Qs → Option Qs
or_round Q.all rest = none
or_round Q.none rest = rest
or_round (Q.or inner) none = none
or_round (Q.or inner) (some v) = some (append inner v)
or_round (Q.gram g) none = none
or_round (Q.gram g) (some v) = some (Qs.cons (Q.gram g) v)
or_round (Q.and w) none = none
or_round (Q.and w) (some v) = some (Qs.cons (Q.and w) v)

-- `match out.len()`
and_of_len : Qs → Q
and_of_len Qs.nil = Q.all
and_of_len (Qs.cons q Qs.nil) = q
and_of_len v = Q.and v

or_of_len : Qs → Q
or_of_len Qs.nil = Q.none
or_of_len (Qs.cons q Qs.nil) = q
or_of_len v = Q.or v

and_end : Option Qs → Q
and_end none = Q.none
and_end (some v) = and_of_len (dedup (sort_by_key v))

or_end : Option Qs → Q
or_end none = Q.all
or_end (some v) = or_of_len v

unfoldable mutual
  unfolding and_round or_round and_end or_end and_of_len or_of_len dedup dedup_after sort_by_key
      insert_by_key sort_key q_eq qs_eq append

  pub flatten : Q → Q
  flatten (Q.and v) = and_end (flatten_and v)
  flatten (Q.or v) = or_end (flatten_or v)
  flatten Q.all = Q.all
  flatten Q.none = Q.none
  flatten (Q.gram g) = Q.gram g

  flatten_and : Qs → Option Qs
  flatten_and Qs.nil = some Qs.nil
  flatten_and (Qs.cons x v) = and_round (flatten x) (flatten_and v)

  flatten_or : Qs → Option Qs
  flatten_or Qs.nil = some Qs.nil
  flatten_or (Qs.cons x v) = or_round (flatten x) (flatten_or v)
