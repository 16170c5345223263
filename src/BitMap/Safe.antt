-- ===== src/BitMap/Safe.antt =====
-- Find of code/userprog/bitmap.cc, whether a bit is free or not.
use nachos_lab.Base.{ℕ, zero, suc, ◌+◌, ◌≤◌, ◌<◌, ◌≡◌, refl, arith, Bool-cases, inl, inr}
use nachos_lab.Base.Yields.{Yields, yields}
use nachos_lab.Base.Int.{ℤ, pos, negsuc}
use nachos_lab.BitMap.{BitMap, find, find_loop}
use nachos_lab.BitMap.Valid.{IsValid, is_set, test-ok, mark-ok, marked-IsValid, num_bits-marked}

-- -1, or the number of a bit.
abbrev pub IsPlace : ℕ → ℤ → Type 0
IsPlace n (pos k) = k < n
IsPlace n (negsuc k) = k ≡ 0

abbrev pub IsFound : ℕ → ℤ × BitMap → Type 0
IsFound n (place, b) = IsPlace n place × IsValid b × (b.num_bits ≡ n)

find_loop-IsFound :
    (n i : ℕ) (b : BitMap)
    → IsValid b
    → i + n ≤ b.num_bits
    → Yields (IsFound b.num_bits) (find_loop n i b)
unfolding find_loop
find_loop-IsFound zero i b v h = yields (refl, v, refl)
find_loop-IsFound (suc n) i b v h = elim (Bool-cases (is_set b i)) [
  | inl e ↦ rw (test-ok i v (omega arith)) (rw e (find_loop-IsFound n (i + 1) b v (omega arith)))
  | inr e ↦ rw (test-ok i v (omega arith)) (
      rw e (
        rw (mark-ok i v (omega arith))
          (yields (omega arith, marked-IsValid i v, num_bits-marked b i))))
]

pub find-IsFound : (b : BitMap) → IsValid b → Yields (IsFound b.num_bits) (find b)
unfolding find
find-IsFound b v = find_loop-IsFound b.num_bits 0 b v (omega arith)
