-- ===== src/Base/Fault.antt =====
-- What ends a run of the program before its end: a failed ASSERT, or an access outside an array.
use mathlib.Core.Path.{◌≡◌, refl}
use mathlib.Core.Logic.{◌⊎◌, inl, inr}
use mathlib.Core.Bool.{Bool, true, false}
use mathlib.Core.Option.{Option, none, some}
use mathlib.Core.List.{List}
use nachos_lab.Base.Tests.{ltb, if◌then◌else◌, lt→ltb}
use nachos_lab.Base.Lists.{length, set, get_elem?}
use Prim.Native.Nat.{ℕ, ◌<◌}

-- `assert` is a failed ASSERT, `wild` an array access out of bounds, which C++ leaves undefined,
-- and `hang` a loop that does not end; `halted` is the machine's Halt, `finished` the end of the
-- running thread, and `trap` what the host ends the program for: a division that it cannot do, or a file that it
-- cannot read.
pub data Error : Type 0 where
  assert wild hang : Error
  halted finished trap : Error

pub data Result {κ} (X : Type κ) : Type κ where
  err : Error → Result X
  ok : X → Result X

abbrev pub check : Bool → Result (Unit {0})
check false = err assert
check true = ok tt

abbrev pub or_wild {κ} : {X : Type κ} → Option X → Result X
or_wild (some x) = ok x
or_wild none = err wild

-- The first failure ends the run.
infixl 5 ◌>>=◌
abbrev pub ◌>>=◌ {κ μ} : {X : Type κ} {Y : Type μ} → Result X → (X → Result Y) → Result Y
err e >>= next = err e
ok x >>= next = next x

infixl 5 ◌>>◌
abbrev pub ◌>>◌ {κ} : {Y : Type κ} → Result (Unit {0}) → Result Y → Result Y
first >> second = first >>= λ _. second

pub Result-cases {ℓ} :
    {A : Type ℓ} (r : Result A) → ((a : A) × (r ≡ ok a)) ⊎ ((e : Error) × (r ≡ err e))
Result-cases (ok a) = inl (a, refl)
Result-cases (err e) = inr (e, refl)

-- A run that succeeds has succeeded in its first part.
pub >>=-eq-ok {κ μ} :
    {X : Type κ} {Y : Type μ} (first : Result X) (next : X → Result Y) {y : Y}
    → (first >>= next) ≡ ok y
    → (x : X) × (first ≡ ok x) × (next x ≡ ok y)
>>=-eq-ok (err e) next done = cc
>>=-eq-ok (ok x) next done = (x, refl, done)

-- `a[i] = v` and `a[i]` of an array that is as long as the list.
abbrev pub put {ℓ} : {A : Type ℓ} → List A → ℕ → A → Result (List A)
put xs i v = if ltb i (length xs) then ok (set xs i v) else err wild

abbrev pub fetch {ℓ} : {A : Type ℓ} → List A → ℕ → Result A
fetch xs i = or_wild (get_elem? xs i)

pub put-ok {ℓ} :
    {A : Type ℓ} (xs : List A) (i : ℕ) (v : A) → i < length xs → put xs i v ≡ ok (set xs i v)
put-ok xs i v h = rw (lt→ltb i (length xs) h)
