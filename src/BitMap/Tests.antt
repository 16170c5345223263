-- ===== src/BitMap/Tests.antt =====
-- Runs of the bitmap, and its theorems at a map of 40 sectors.
use nachos_lab.Base.{
  ℕ, zero, suc, ◌+◌, ◌^◌, ◌≤◌, ◌<◌, ◌≡◌, refl, true, false, [], ◌∷◌, arith, ◌==◌, if◌then◌else◌,
  ◌⊎◌, ok, err, assert, div_round_up,
}
use nachos_lab.Base.Int.{pos, negsuc}
use nachos_lab.BitMap.{
  BitMap, test, mark, clear, find, first_find, num_clear, first_find_loop, run_is_clear, mark_run,
}
use nachos_lab.BitMap.Valid.{IsValid, is_set, marked}
use nachos_lab.BitMap.Marks.{test-mark, test-clear}
use nachos_lab.Base.Bits.{digit}
use nachos_lab.BitMap.Count.{free, num_clear-free}
use nachos_lab.BitMap.Find.{find-first}
use nachos_lab.BitMap.FirstFind.{all_clear, Sets, first_find-first, first_find-aborts}

-- 40 bits: bits 0, 2 and 33 are on, and a stray bit 60 stands past the end.
abbrev sectors : BitMap
sectors = record { num_bits = 40; num_words = 2; map = 5 ∷ (2 + 2 ^ 28) ∷ [] }

-- Every other bit of six is on.
abbrev striped : BitMap
striped = record { num_bits = 6; num_words = 1; map = 0x2a ∷ [] }

sectors-IsValid : IsValid sectors
unfolding div_round_up
sectors-IsValid = record { words = refl; size = refl; unsigned = omega arith }

striped-IsValid : IsValid striped
unfolding div_round_up
striped-IsValid = record { words = refl; size = refl; unsigned = omega arith }

tests_read :
    (test sectors (pos 2) ≡ ok true)
    × (test sectors (pos 3) ≡ ok false)
    × (test sectors (pos 40) ≡ err assert)
    × (test sectors (negsuc 0) ≡ err assert)
unfolding test
tests_read = (refl, refl, refl, refl)

first_find_runs :
    first_find sectors 3 ≡ ok (pos 3, record sectors { map = 0x3d ∷ (2 + 2 ^ 28) ∷ [] })
unfolding first_find first_find_loop run_is_clear mark_run test mark
first_find_runs = refl

tests_test-mark :
    (b' : BitMap) × (mark sectors (pos 35) ≡ ok b')
    × IsValid b'
    × (b'.num_bits ≡ 40)
    × ((m : ℕ) → m < 40 → test b' (pos m) ≡ (if 35 == m then ok true else test sectors (pos m)))
tests_test-mark = test-mark 35 sectors-IsValid (omega arith)

tests_test_clear :
    (b' : BitMap) × (clear sectors (pos 33) ≡ ok b')
    × IsValid b'
    × (b'.num_bits ≡ 40)
    × ((m : ℕ) → m < 40 → test b' (pos m) ≡ (if 33 == m then ok false else test sectors (pos m)))
tests_test_clear = test-clear 33 sectors-IsValid (omega arith)

tests_num_clear_free : num_clear sectors ≡ ok (free sectors)
tests_num_clear_free = num_clear-free sectors-IsValid

tests_find_first :
    ((k : ℕ) × (k < 40)
      × (is_set sectors k ≡ false)
      × ((m : ℕ) → m < k → is_set sectors m ≡ true)
      × (find sectors ≡ ok (pos k, marked sectors k)))
    ⊎ (((m : ℕ) → m < 40 → is_set sectors m ≡ true) × (find sectors ≡ ok (negsuc 0, sectors)))
tests_find_first = find-first sectors-IsValid

run_at_3 : all_clear sectors 3 3 ≡ true
unfolding all_clear is_set digit
run_at_3 = refl

no_run_below_3 : (m : ℕ) → m < 3 → all_clear sectors m 3 ≡ false
unfolding all_clear is_set digit
no_run_below_3 zero h = refl
no_run_below_3 (suc zero) h = refl
no_run_below_3 (suc (suc zero)) h = refl
no_run_below_3 (suc (suc (suc m))) h = absurd (omega arith)

no_pair : (m : ℕ) → m + 2 ≤ 6 → all_clear striped m 2 ≡ false
unfolding all_clear is_set digit
no_pair zero h = refl
no_pair (suc zero) h = refl
no_pair (suc (suc zero)) h = refl
no_pair (suc (suc (suc zero))) h = refl
no_pair (suc (suc (suc (suc zero)))) h = refl
no_pair (suc (suc (suc (suc (suc m))))) h = absurd (omega arith)

first_find-first_example :
    (b' : BitMap) × (first_find sectors 3 ≡ ok (pos 3, b')) × Sets sectors 3 3 b'
first_find-first_example =
    first_find-first 3 3 sectors-IsValid (omega arith) (omega arith) run_at_3 no_run_below_3

tests_first_find_aborts : first_find striped 2 ≡ err assert
tests_first_find_aborts = first_find-aborts 2 striped-IsValid (omega arith) (omega arith) no_pair
