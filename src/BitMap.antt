-- ===== src/BitMap.antt =====
-- code/userprog/bitmap.cc and bitmap.h: the bitmap of disk sectors and of memory pages, as the
-- array of 32-bit words that the class keeps. An `int` index is a ℤ; a failed ASSERT is
-- `err assert`, an access outside `map` is `err wild`.
pub mod Valid
pub mod Marks
pub mod Count
pub mod Find
pub mod FirstFind
pub mod Taken
pub mod Taking
pub mod Given
pub mod Safe
mod Tests
use Prim.Native.Nat.{bit_and, bit_or}
use nachos_lab.Base.{
  ℕ, zero, suc, ◌+◌, ◌-◌, ◌/◌, ◌%◌, ◌^◌, Bool, true, false, not, List, ltb, ◌==◌, if◌then◌else◌,
  get_elem?, set, div_round_up, Result, ok, err, Error, assert, ◌>>=◌, ◌>>◌, check, or_wild,
}
use nachos_lab.Base.Int.{ℤ, pos, negsuc, index}

abbrev pub bits_in_word : ℕ
bits_in_word = 32

pub record BitMap : Type 0 where
  pub num_bits : ℕ
  pub num_words : ℕ
  pub map : List ℕ

-- `ASSERT(which >= 0 && which < numBits)`
abbrev pub in_range : BitMap → ℤ → Bool
in_range b (pos n) = ltb n b.num_bits
in_range b (negsuc n) = false

-- `map[which / BitsInWord]` and its update.
abbrev pub word : BitMap → ℕ → Result ℕ
word b which = or_wild (get_elem? b.map (which / bits_in_word))

abbrev pub with_word : BitMap → ℕ → ℕ → BitMap
with_word b which w = record b { map = set b.map (which / bits_in_word) w }

-- `1 << (which % BitsInWord)` and its complement, as unsigned words.
abbrev pub mask : ℕ → ℕ
mask which = 2 ^ (which % bits_in_word)

abbrev pub complement : ℕ → ℕ
complement w = 2 ^ 32 - 1 - w

unfoldable pub mark : BitMap → ℤ → Result BitMap
mark b which = do
  check (in_range b which)
  w ← word b (index which)
  ok (with_word b (index which) (bit_or w (mask (index which))))

unfoldable pub clear : BitMap → ℤ → Result BitMap
clear b which = do
  check (in_range b which)
  w ← word b (index which)
  ok (with_word b (index which) (bit_and w (complement (mask (index which)))))

unfoldable pub test : BitMap → ℤ → Result Bool
test b which = do
  check (in_range b which)
  w ← word b (index which)
  ok (not (bit_and w (mask (index which)) == 0))

-- The constructor's loop from bit `i`, with `n` rounds left.
clear_loop : ℕ → ℕ → BitMap → Result BitMap
clear_loop zero i b = ok b
clear_loop (suc n) i b = do b' ← clear b (pos i); clear_loop n (i + 1) b'

-- `raw` is what `new unsigned int[numWords]` returns, which nothing initialises.
pub init : ℕ → List ℕ → Result BitMap
unfolding clear_loop
init nitems raw =
    clear_loop nitems 0
      (record { num_bits = nitems; num_words = div_round_up nitems bits_in_word; map = raw })

unfoldable pub find_loop : ℕ → ℕ → BitMap → Result (ℤ × BitMap)
find_loop zero i b = ok (negsuc 0, b)
find_loop (suc n) i b =
    let rest = find_loop n (i + 1) b in
    do t ← test b (pos i); if t then rest else (do b' ← mark b (pos i); ok (pos i, b'))

unfoldable pub find : BitMap → Result (ℤ × BitMap)
unfolding find_loop
find b = find_loop b.num_bits 0 b

-- The first inner loop of FirstFind, at `j` with `n` rounds left. It has no `break`.
unfoldable pub run_is_clear : ℕ → ℕ → ℕ → Bool → BitMap → Result Bool
run_is_clear zero i j flag b = ok flag
run_is_clear (suc n) i j flag b = do
  t ← test b (pos (i + j))
  run_is_clear n i (j + 1) (if t then false else flag) b

-- The second inner loop.
unfoldable pub mark_run : ℕ → ℕ → ℕ → BitMap → Result BitMap
mark_run zero i j b = ok b
mark_run (suc n) i j b = do b' ← mark b (pos (i + j)); mark_run n i (j + 1) b'

unfoldable pub first_find_loop : ℕ → ℕ → ℕ → BitMap → Result (ℤ × BitMap)
first_find_loop zero i size b = ok (negsuc 0, b)
first_find_loop (suc n) i size b =
    let rest = first_find_loop n (i + 1) size b in
    do
      flag ← run_is_clear size i 0 true b
      if flag then (do b' ← mark_run size i 0 b; ok (pos i, b')) else rest

unfoldable pub first_find : BitMap → ℕ → Result (ℤ × BitMap)
unfolding first_find_loop
first_find b size = first_find_loop b.num_bits 0 size b

unfoldable pub num_clear_loop : ℕ → ℕ → ℕ → BitMap → Result ℕ
num_clear_loop zero i count b = ok count
num_clear_loop (suc n) i count b = do
  t ← test b (pos i)
  num_clear_loop n (i + 1) (if t then count else count + 1) b

unfoldable pub num_clear : BitMap → Result ℕ
unfolding num_clear_loop
num_clear b = num_clear_loop b.num_bits 0 0 b
