-- ===== src/Base/Holds.antt =====
-- What holds of the result of a computation, if it has one.
use mathlib.Core.Path.{◌≡◌, subst}
use mathlib.Core.Bool.{Bool, true, false}
use mathlib.Core.Option.{Option, none, some}
use cdnalizerd.Base.Tests.{if◌then◌else◌, ◌>>=◌}

-- `P` of a result, where there is one.
pub data Holds {A : Type 0} (P : A → Type 0) : Option A → Type 0 where
  nothing : Holds P none
  result : {a : A} → P a → Holds P (some a)

pub Holds-some : {A : Type 0} {P : A → Type 0} {o : Option A} {a : A} → o ≡ some a → Holds P o → P a
Holds-some {P} {a} e h = at (subst (Holds P) e h)
  where
    at : Holds P (some a) → P a
    at (result p) = p

pub Holds-both :
    {A : Type 0} {P Q : A → Type 0} {o : Option A}
    → Holds P o
    → Holds Q o
    → Holds (λ a. P a × Q a) o
Holds-both nothing k = nothing
Holds-both (result p) (result q) = result (p, q)

pub Holds-imp :
    {A : Type 0} {P Q : A → Type 0} {o : Option A} → ((a : A) → P a → Q a) → Holds P o → Holds Q o
Holds-imp f nothing = nothing
Holds-imp f (result p) = result (f _ p)

pub Holds-if :
    {A : Type 0} (P : A → Type 0) (b : Bool) (x y : Option A)
    → Holds P x
    → Holds P y
    → Holds P (if b then x else y)
Holds-if P true x y h k = h
Holds-if P false x y h k = k

pub Holds-then :
    {A B : Type 0} {Q : B → Type 0} (o : Option A) (f : A → Option B)
    → ((a : A) → Holds Q (f a))
    → Holds Q (o >>= f)
Holds-then none f h = nothing
Holds-then (some a) f h = h a

pub Holds-chain :
    {A B : Type 0} {P : A → Type 0} {Q : B → Type 0} {o : Option A} {f : A → Option B}
    → Holds P o
    → ((a : A) → P a → Holds Q (f a))
    → Holds Q (o >>= f)
Holds-chain nothing h = nothing
Holds-chain (result p) h = h _ p
