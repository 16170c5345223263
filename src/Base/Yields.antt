-- ===== src/Base/Yields.antt =====
-- Runs that stay inside their arrays: what is shown of a run one part at a time.
use mathlib.Core.Path.{◌≡◌, refl}
use mathlib.Core.List.{List}
use mathlib.Core.Bool.{Bool, true, false}
use Prim.Native.Nat.{ℕ, ◌<◌}
use nachos_lab.Base.Tests.{if◌then◌else◌}
use nachos_lab.Base.Lists.{length, get_or, set, get_elem?-eq-get_or}
use nachos_lab.Base.Fault.{
  Error, assert, wild, hang, halted, finished, trap, Result, ok, err, ◌>>=◌, ◌>>◌, check, put,
  fetch, put-ok,
}

abbrev pub IsInside : Error → Type 0
IsInside wild = ◌≡◌ {A = ℕ} 0 1
IsInside assert = Unit
IsInside hang = Unit
IsInside halted = Unit
IsInside finished = Unit
IsInside trap = Unit

-- The run makes no access outside an array, and where it succeeds, `P` holds of its result.
pub data Yields {X : Type 0} (P : X → Type 0) : Result X → Type 0 where
  yields : {x : X} → P x → Yields P (ok x)
  fails : {e : Error} → IsInside e → Yields P (err e)

pub Yields->>= :
    {X Y : Type 0} {P : X → Type 0} {Q : Y → Type 0} {first : Result X} {rest : X → Result Y}
    → Yields P first
    → ((x : X) → P x → Yields Q (rest x))
    → Yields Q (first >>= rest)
Yields->>= (yields {x} p) q = q x p
Yields->>= (fails e) q = fails e

pub Yields-imp :
    {X : Type 0} {P Q : X → Type 0} {r : Result X} → Yields P r → ((x : X) → P x → Q x) → Yields Q r
Yields-imp (yields {x} p) q = yields (q x p)
Yields-imp (fails e) q = fails e

pub Yields-if :
    {X : Type 0} {P : X → Type 0} {r s : Result X} (b : Bool)
    → (b ≡ true → Yields P r)
    → (b ≡ false → Yields P s)
    → Yields P (if b then r else s)
Yields-if true p q = p refl
Yields-if false p q = q refl

pub Yields-check :
    {X : Type 0} {P : X → Type 0} {r : Result X} (b : Bool) → Yields P r → Yields P (check b >> r)
Yields-check true p = p
Yields-check false p = fails tt

module _ {A : Type 0} (xs : List A) (i : ℕ) (h : i < length xs) where
  pub fetch-get_or : (d : A) → fetch xs i ≡ ok (get_or xs i d)
  fetch-get_or d = rw (get_elem?-eq-get_or xs i d h) refl

  pub put-Yields : {P : List A → Type 0} (v : A) → P (set xs i v) → Yields P (put xs i v)
  put-Yields v p = rw (put-ok xs i v h) (yields p)
