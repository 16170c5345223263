-- ===== src/BitMap/Marks.antt =====
-- `Mark` and `Clear` of code/userprog/bitmap.cc, as `Test` sees them afterwards.
use nachos_lab.Base.{ℕ, ◌<◌, ◌≡◌, true, false, arith, ◌==◌, if◌then◌else◌, ok}
use nachos_lab.Base.Int.{pos}
use nachos_lab.BitMap.{BitMap, mark, clear, test}
use nachos_lab.BitMap.Valid.{
  IsValid, marked, cleared, test-ok, mark-ok, clear-ok, marked-IsValid, cleared-IsValid,
  is_set-marked, is_set-cleared, num_bits-marked, num_bits-cleared,
}

-- Inside a valid bitmap `Mark` succeeds and keeps it valid. Of the bits that `Test` reads, the marked
-- one is on, and every other is as it was.
pub test-mark :
    {b : BitMap} (n : ℕ)
    → IsValid b
    → n < b.num_bits
    → (b' : BitMap) × (mark b (pos n) ≡ ok b')
      × IsValid b'
      × (b'.num_bits ≡ b.num_bits)
      × ((m : ℕ) → m < b.num_bits → test b' (pos m) ≡ (if n == m then ok true else test b (pos m)))
test-mark {b} n v h = (
  marked b n,
  mark-ok n v h,
  marked-IsValid n v,
  num_bits-marked b n,
  λ m k. ground (
    arith,
    test-ok m (marked-IsValid n v) (omega (arith, num_bits-marked b n)),
    test-ok m v k,
    is_set-marked n m v h,
  ),
)

-- Inside a valid bitmap `Clear` succeeds and keeps it valid. Of the bits that `Test` reads, the
-- cleared one is off, and every other is as it was.
pub test-clear :
    {b : BitMap} (n : ℕ)
    → IsValid b
    → n < b.num_bits
    → (b' : BitMap) × (clear b (pos n) ≡ ok b')
      × IsValid b'
      × (b'.num_bits ≡ b.num_bits)
      × ((m : ℕ) → m < b.num_bits → test b' (pos m) ≡ (if n == m then ok false else test b (pos m)))
test-clear {b} n v h = (
  cleared b n,
  clear-ok n v h,
  cleared-IsValid n v,
  num_bits-cleared b n,
  λ m k. ground (
    arith,
    test-ok m (cleared-IsValid n v) (omega (arith, num_bits-cleared b n)),
    test-ok m v k,
    is_set-cleared n m v h,
  ),
)
