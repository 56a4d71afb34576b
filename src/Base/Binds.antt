-- ===== src/Base/Binds.antt =====
-- What holds of the value of a result, if it has one.
use mathlib.Core.Option.{Option, none, some, some-injective, none-ne-some}
use greeg.Base.{◌≡◌, refl, ap, subst, Bool, true, false, Result, ok, err, ◌>>=◌, if◌then◌else◌}

pub data Holds {E A : Type 0} (P : A → Type 0) : Result E A → Type 0 where
  refused : (reason : E) → Holds P (err reason)
  held : (a : A) → P a → Holds P (ok a)

abbrev value_of : {E A : Type 0} → Result E A → Option A
value_of (err reason) = none
value_of (ok value) = some value

pub Holds-if :
    {E A : Type 0} {P : A → Type 0} {x y : Result E A} (b : Bool)
    → (b ≡ true → Holds P x)
    → (b ≡ false → Holds P y)
    → Holds P (if b then x else y)
Holds-if true f g = f refl
Holds-if false f g = g refl

pub Holds-bind :
    {E A B : Type 0} {P : A → Type 0} {Q : B → Type 0} {r : Result E A} {f : A → Result E B}
    → Holds P r
    → ((a : A) → P a → Holds Q (f a))
    → Holds Q (r >>= f)
Holds-bind (Holds.refused reason) k = Holds.refused reason
Holds-bind (Holds.held a h) k = k a h

pub Holds-ok : {E A : Type 0} {P : A → Type 0} {r : Result E A} (a : A) → Holds P r → r ≡ ok a → P a
Holds-ok a (Holds.refused reason) e = absurd (none-ne-some a (ap value_of e))
Holds-ok {P = P} a (Holds.held b h) e = subst P (some-injective b a (ap value_of e)) h

-- With the equation that gives the value.
pub Holds-self :
    {E A : Type 0} {P : A → Type 0} {r : Result E A} → Holds P r → Holds (λ a. (r ≡ ok a) × P a) r
Holds-self (Holds.refused reason) = Holds.refused reason
Holds-self (Holds.held a h) = Holds.held a (refl, h)

pub Holds-map :
    {E A : Type 0} {P Q : A → Type 0} {r : Result E A}
    → ((a : A) → P a → Q a)
    → Holds P r
    → Holds Q r
Holds-map f (Holds.refused reason) = Holds.refused reason
Holds-map f (Holds.held a h) = Holds.held a (f a h)
