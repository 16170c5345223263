-- ===== src/BitMap/FirstFind.antt =====
-- `FirstFind` of code/userprog/bitmap.cc.
use nachos_lab.Base.{
  ℕ, zero, suc, ◌+◌, ◌≤◌, ◌<◌, ◌≡◌, refl, ◌∙◌, ap, subst, Bool, true, false, not, ◌&&◌, arith, leb,
  ltb, le→ltb, dec_lt, ok, err, assert, if◌then◌else◌,
}
use nachos_lab.Base.Int.{pos}
use nachos_lab.BitMap.{BitMap, test, run_is_clear, mark_run, first_find_loop, first_find}
use nachos_lab.BitMap.Valid.{
  IsValid, is_set, marked, test-ok, mark-ok, marked-IsValid, is_set-marked, num_bits-marked,
}

-- Are the `n` bits from `i` on all clear?
unfoldable pub all_clear : BitMap → ℕ → ℕ → Bool
all_clear b i zero = true
all_clear b i (suc n) = not (is_set b i) && all_clear b (i + 1) n

test_outside : (b : BitMap) (n : ℕ) → b.num_bits ≤ n → test b (pos n) ≡ err assert
unfolding test
test_outside b n h = rw (le→ltb n b.num_bits h)

run_is_clear-inside :
    (n i j : ℕ) (flag : Bool) (b : BitMap)
    → IsValid b
    → i + j + n ≤ b.num_bits
    → run_is_clear n i j flag b ≡ ok (flag && all_clear b (i + j) n)
unfolding run_is_clear all_clear
run_is_clear-inside zero i j flag b v h = ap ok (ground arith)
run_is_clear-inside (suc n) i j flag b v h =
    let e : i + (j + 1) ≡ i + j + 1 = omega arith in
    rw (test-ok (i + j) v (omega arith)) (
      run_is_clear-inside n i (j + 1) (if is_set b (i + j) then false else flag) b v (omega arith)
      ∙ rw e (ap ok (ground arith)))

-- The scan has no `break`, so that it reaches the end of the bitmap whatever it has seen.
run_is_clear-outside :
    (n i j : ℕ) (flag : Bool) (b : BitMap)
    → IsValid b
    → i + j ≤ b.num_bits
    → b.num_bits < i + j + n
    → run_is_clear n i j flag b ≡ err assert
unfolding run_is_clear
run_is_clear-outside zero i j flag b v h l = absurd (omega arith)
run_is_clear-outside (suc n) i j flag b v h l = elim (dec_lt (i + j) b.num_bits) [
  | yes p ↦
      rw (test-ok (i + j) v p) (run_is_clear-outside n i (j + 1) _ b v (omega arith) (omega arith))
  | no p ↦ rw (test_outside b (i + j) (omega arith))
]

-- `g` is `f` with the `n` bits from `i` on set.
pub record Sets (b : BitMap) (i n : ℕ) (b' : BitMap) : Type 0 where
  pub valid : IsValid b'
  pub size : b'.num_bits ≡ b.num_bits
  pub bits : (m : ℕ) → is_set b' m ≡ (if leb i m && ltb m (i + n) then true else is_set b m)

mark_run-Sets :
    (n i j : ℕ) (b : BitMap)
    → IsValid b
    → i + j + n ≤ b.num_bits
    → (b' : BitMap) × (mark_run n i j b ≡ ok b') × Sets b (i + j) n b'
unfolding mark_run
mark_run-Sets zero i j b v h =
    (b, refl, record { valid = v; size = refl; bits = λ m. ground arith })
mark_run-Sets (suc n) i j b v h =
    let same = num_bits-marked b (i + j) in
    let (b', e, s) =
      mark_run-Sets n i (j + 1) (marked b (i + j)) (marked-IsValid (i + j) v) (omega arith) in
    (
      b',
      rw (mark-ok (i + j) v (omega arith)) e,
      record {
        valid = s.valid;
        size = s.size ∙ same;
        bits = λ m. ground (arith, s.bits m, is_set-marked (i + j) m v);
      },
    )

first_find_loop-run :
    (n i size k : ℕ) (b : BitMap) {b' : BitMap}
    → IsValid b
    → i + n ≡ b.num_bits
    → i ≤ k
    → k < b.num_bits
    → k + size ≤ b.num_bits
    → all_clear b k size ≡ true
    → ((m : ℕ) → i ≤ m → m < k → all_clear b m size ≡ false)
    → mark_run size k 0 b ≡ ok b'
    → first_find_loop n i size b ≡ ok (pos k, b')
unfolding first_find_loop
first_find_loop-run zero i size k b v h l q r clear least done = absurd (omega arith)
first_find_loop-run (suc n) i size k b {b'} v h l q r clear least done =
    let z : i + 0 ≡ i = omega arith in
    let scan : run_is_clear size i 0 true b ≡ ok (all_clear b i size) =
      run_is_clear-inside size i 0 true b v (omega arith) ∙ rw z in
    elim (dec_lt i k) [
      | yes p ↦
          rw (scan, least i (omega arith) p)
            (first_find_loop-run n (i + 1) size k b v (omega arith) (omega arith) q r clear
              (λ m a c. least m (omega arith) c) done)
      | no p ↦
          let e : i ≡ k = omega arith in
          rw (scan, ap (λ x. all_clear b x size) e ∙ clear)
            (rw (ap (λ x. mark_run size x 0 b) e ∙ done) (ap (λ x. ok (pos x, b')) e))
    ]

-- The scan stops at the first clear run, which the second loop marks.
pub first_find-run :
    {b b' : BitMap} (size k : ℕ)
    → IsValid b
    → k < b.num_bits
    → k + size ≤ b.num_bits
    → all_clear b k size ≡ true
    → ((m : ℕ) → m < k → all_clear b m size ≡ false)
    → mark_run size k 0 b ≡ ok b'
    → first_find b size ≡ ok (pos k, b')
unfolding first_find
first_find-run {b} size k v h l clear least done =
    first_find_loop-run b.num_bits 0 size k b v (omega arith) (omega arith) h l clear
      (λ m a. least m) done

first_find_loop-aborts :
    (n i size : ℕ) (b : BitMap)
    → IsValid b
    → i + n ≡ b.num_bits
    → 0 < n
    → 1 < size
    → ((m : ℕ) → i ≤ m → m + size ≤ b.num_bits → all_clear b m size ≡ false)
    → first_find_loop n i size b ≡ err assert
unfolding first_find_loop
first_find_loop-aborts zero i size b v h l r no_run = absurd (omega arith)
first_find_loop-aborts (suc n) i size b v h l r no_run =
    let z : i + 0 ≡ i = omega arith in
    elim (dec_lt b.num_bits (i + size)) [
      | yes p ↦ rw (run_is_clear-outside size i 0 true b v (omega arith) (omega arith))
      | no p ↦
          rw
            (
              run_is_clear-inside size i 0 true b v (omega arith),
              z,
              no_run i (omega arith) (omega arith),
            )
            (first_find_loop-aborts n (i + 1) size b v (omega arith) (omega arith) r
              (λ m a c. no_run m (omega arith) c))
    ]

-- Where a run of `size` clear bits begins at `k` and none begins below it, `FirstFind` returns `k`,
-- sets exactly the bits of that run, and leaves the bitmap well-formed.
pub first_find-first :
    {b : BitMap} (size k : ℕ)
    → IsValid b
    → k < b.num_bits
    → k + size ≤ b.num_bits
    → all_clear b k size ≡ true
    → ((m : ℕ) → m < k → all_clear b m size ≡ false)
    → (b' : BitMap) × (first_find b size ≡ ok (pos k, b')) × Sets b k size b'
first_find-first {b} size k v h l clear least =
    let z : k + 0 ≡ k = omega arith in
    let (b', done, s) = mark_run-Sets size k 0 b v (omega arith) in
    (b', first_find-run size k v h l clear least done, subst (λ x. Sets b x size b') z s)

-- Where no run of `size` clear bits is left, for a size above 1, `FirstFind` does not return -1: a
-- `Test` past the last bit fails its ASSERT.
pub first_find-aborts :
    {b : BitMap} (size : ℕ)
    → IsValid b
    → 0 < b.num_bits
    → 1 < size
    → ((m : ℕ) → m + size ≤ b.num_bits → all_clear b m size ≡ false)
    → first_find b size ≡ err assert
unfolding first_find
first_find-aborts {b} size v h l no_run =
    first_find_loop-aborts b.num_bits 0 size b v (omega arith) h l (λ m a. no_run m)
