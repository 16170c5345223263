-- ===== src/BitMap/Find.antt =====
-- `Find` of code/userprog/bitmap.cc.
use nachos_lab.Base.{
  ℕ, zero, suc, ◌+◌, ◌≤◌, ◌<◌, ◌≡◌, refl, ◌⊎◌, inl, inr, Bool, true, false, arith, Bool-cases, ok,
  dec_lt,
}
use nachos_lab.Base.Int.{pos, negsuc}
use nachos_lab.BitMap.{BitMap, find_loop, find}
use nachos_lab.BitMap.Valid.{IsValid, is_set, marked, test-ok, mark-ok}

-- Every place from `i` up to `k` is set.
abbrev pub SetBetween : (ℕ → Bool) → ℕ → ℕ → Type 0
SetBetween f i k = (m : ℕ) → i ≤ m → m < k → f m ≡ true

SetBetween-cons : (f : ℕ → Bool) (i k : ℕ) → f i ≡ true → SetBetween f (i + 1) k → SetBetween f i k
SetBetween-cons f i k e rest m h l = elim (dec_lt i m) [
  | yes p ↦ rest m (omega arith) l
  | no p ↦ let q : m ≡ i = omega arith in rw q e
]

find_loop-first :
    (n i : ℕ) (b : BitMap)
    → IsValid b
    → i + n ≤ b.num_bits
    → ((k : ℕ) × (k < i + n)
        × (is_set b k ≡ false)
        × SetBetween (is_set b) i k
        × (find_loop n i b ≡ ok (pos k, marked b k)))
      ⊎ (SetBetween (is_set b) i (i + n) × (find_loop n i b ≡ ok (negsuc 0, b)))
unfolding find_loop
find_loop-first zero i b v h = inr (λ m p q. absurd (omega arith), refl)
find_loop-first (suc n) i b v h = elim (Bool-cases (is_set b i)) [
  | inl on ↦
      rw (test-ok i v (omega arith), on)
        (elim (find_loop-first n (i + 1) b v (omega arith)) [
          | inl (k, l, off, below, e) ↦
              inl (k, omega arith, off, SetBetween-cons (is_set b) i k on below, e)
          | inr (all, e) ↦
              inr (λ m p q. SetBetween-cons (is_set b) i (i + 1 + n) on all m p (omega arith), e)
        ])
  | inr off ↦
      rw (test-ok i v (omega arith), off)
        (rw (mark-ok i v (omega arith))
          (inl (i, omega arith, off, λ m p q. absurd (omega arith), refl)))
]

-- `Find` returns and marks the first bit that is clear, and changes no other; where every bit is
-- set it returns -1 and changes nothing.
pub find-first :
    {b : BitMap}
    → IsValid b
    → ((k : ℕ) × (k < b.num_bits)
        × (is_set b k ≡ false)
        × ((m : ℕ) → m < k → is_set b m ≡ true)
        × (find b ≡ ok (pos k, marked b k)))
      ⊎ (((m : ℕ) → m < b.num_bits → is_set b m ≡ true) × (find b ≡ ok (negsuc 0, b)))
unfolding find
find-first {b} v = elim (find_loop-first b.num_bits 0 b v (omega arith)) [
  | inl (k, l, off, below, e) ↦ inl (k, omega arith, off, λ m q. below m (omega arith) q, e)
  | inr (all, e) ↦ inr (λ m q. all m (omega arith) (omega arith), e)
]
