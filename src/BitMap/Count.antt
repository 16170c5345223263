-- ===== src/BitMap/Count.antt =====
-- The constructor and `NumClear` of code/userprog/bitmap.cc.
use nachos_lab.Base.{
  ℕ, zero, suc, ◌+◌, ◌≤◌, ◌<◌, ◌≡◌, refl, ◌∙◌, sym, ap, Bool, true, false, List, arith, ◌==◌, ltb,
  leb, ◌&&◌, inl, inr, Bool-cases, ==_iff, ==_refl, if◌then◌else◌, length, All, div_round_up, ok,
  ◌^◌,
}
use nachos_lab.BitMap.{BitMap, bits_in_word, clear_loop, init, num_clear, num_clear_loop}
use nachos_lab.BitMap.Valid.{
  IsValid, is_set, marked, cleared, test-ok, clear-ok, cleared-IsValid, is_set-marked,
  is_set-cleared, num_bits-marked, num_bits-cleared,
}

-- How many of the `n` places from `i` on are clear.
unfoldable pub clear_places : (ℕ → Bool) → ℕ → ℕ → ℕ
clear_places f i zero = 0
clear_places f i (suc n) = (if f i then 0 else 1) + clear_places f (i + 1) n

unfoldable pub free : BitMap → ℕ
unfolding clear_places
free b = clear_places (is_set b) 0 b.num_bits

clear_places-same :
    (f g : ℕ → Bool) (i n : ℕ)
    → ((m : ℕ) → i ≤ m → g m ≡ f m)
    → clear_places g i n ≡ clear_places f i n
unfolding clear_places
clear_places-same f g i zero same = refl
clear_places-same f g i (suc n) same = rw (same i (omega arith)) (
    ap (λ (t : ℕ). (if f i then 0 else 1) + t)
      (clear_places-same f g (i + 1) n (λ m h. same m (omega arith))))

-- Setting one clear place takes one off the count, and clearing one puts it back.
clear_places-set :
    (f g : ℕ → Bool) (k i n : ℕ)
    → i ≤ k
    → k < i + n
    → f k ≡ false
    → ((m : ℕ) → g m ≡ (if k == m then true else f m))
    → clear_places g i n + 1 ≡ clear_places f i n
unfolding clear_places
clear_places-set f g k i zero h l e same = absurd (omega arith)
clear_places-set f g k i (suc n) h l e same = elim (Bool-cases (k == i)) [
  | inl here ↦
      let q : k ≡ i = (==_iff k i).0 here in
      ground
        (arith, same i, ap f q, clear_places-same f g (i + 1) n (λ m p. ground (arith, same m)))
  | inr later ↦
      ground (arith, same i, clear_places-set f g k (i + 1) n (ground arith) (omega arith) e same)
]

pub free-marked :
    {b : BitMap} (k : ℕ)
    → IsValid b
    → k < b.num_bits
    → is_set b k ≡ false
    → free (marked b k) + 1 ≡ free b
unfolding free
free-marked {b} k v h e = simp (num_bits-marked b k) (
    clear_places-set (is_set b) (is_set (marked b k)) k 0 b.num_bits (omega arith) (omega arith) e
      (λ m. is_set-marked k m v h))

is_set-uncleared :
    {b : BitMap} (k m : ℕ)
    → IsValid b
    → k < b.num_bits
    → is_set b k ≡ true
    → is_set b m ≡ (if k == m then true else is_set (cleared b k) m)
is_set-uncleared {b} k m v h e = elim (Bool-cases (k == m)) [
  | inl here ↦ rw here (ap (is_set b) (sym ((==_iff k m).0 here)) ∙ e)
  | inr other ↦ rw other (sym (is_set-cleared k m v h ∙ rw other))
]

pub free-cleared :
    {b : BitMap} (k : ℕ)
    → IsValid b
    → k < b.num_bits
    → is_set b k ≡ true
    → free (cleared b k) ≡ free b + 1
unfolding free
free-cleared {b} k v h e = simp (num_bits-cleared b k) (
    sym (
      clear_places-set (is_set (cleared b k)) (is_set b) k 0 b.num_bits (omega arith) (omega arith)
        (is_set-cleared k k v h ∙ rw (==_refl k)) (λ m. is_set-uncleared k m v h e)))

num_clear_loop-count :
    (n i c : ℕ) (b : BitMap)
    → IsValid b
    → i + n ≤ b.num_bits
    → num_clear_loop n i c b ≡ ok (c + clear_places (is_set b) i n)
unfolding num_clear_loop clear_places
num_clear_loop-count zero i c b v h = ap ok (omega arith)
num_clear_loop-count (suc n) i c b v h =
    rw (test-ok i v (omega arith))
      (num_clear_loop-count n (i + 1) _ b v (omega arith) ∙ ap ok (ground arith))

-- `NumClear` returns the number of bits that are clear, and never fails.
pub num_clear-free : {b : BitMap} → IsValid b → num_clear b ≡ ok (free b)
unfolding num_clear free
num_clear-free {b} v = num_clear_loop-count b.num_bits 0 0 b v (omega arith) ∙ ap ok (omega arith)

-- The constructor's loop, with the bits that it clears.
clear_loop-clears :
    (n i : ℕ) (b : BitMap)
    → IsValid b
    → i + n ≤ b.num_bits
    → (b' : BitMap) × (clear_loop n i b ≡ ok b')
      × IsValid b'
      × (b'.num_bits ≡ b.num_bits)
      × ((m : ℕ) → is_set b' m ≡ (if leb i m && ltb m (i + n) then false else is_set b m))
unfolding clear_loop
clear_loop-clears zero i b v h = (b, refl, v, refl, λ m. ground arith)
clear_loop-clears (suc n) i b v h =
    let same = num_bits-cleared b i in
    let (b', e, v', s, bits) =
      clear_loop-clears n (i + 1) (cleared b i) (cleared-IsValid i v) (omega arith) in
    (
      b',
      rw (clear-ok i v (omega arith)) e,
      v',
      s ∙ same,
      λ m. ground (arith, bits m, is_set-cleared i m v),
    )

-- The constructor gives a well-formed bitmap with every bit clear, whatever `new` returned.
pub init-clear :
    (n : ℕ) (raw : List ℕ)
    → length raw ≡ div_round_up n bits_in_word
    → All (λ w. w < 2 ^ 32) raw
    → (b : BitMap) × (init n raw ≡ ok b)
      × IsValid b
      × (b.num_bits ≡ n)
      × ((m : ℕ) → m < n → is_set b m ≡ false)
unfolding init
init-clear n raw size unsigned =
    let (b, e, v, s, bits) =
      clear_loop-clears n 0
        (record { num_bits = n; num_words = div_round_up n bits_in_word; map = raw })
        (record { words = size; size = refl; unsigned = unsigned }) (omega arith) in
    (b, e, v, s, λ m h. ground (arith, bits m))
