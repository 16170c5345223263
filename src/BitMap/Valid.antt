-- ===== src/BitMap/Valid.antt =====
-- The well-formed bitmap, and what one call of `Mark`, `Clear` and `Test` does to its bits.
use Prim.Native.Nat.{bit_and, bit_or}
use nachos_lab.Base.{
  ℕ, ◌/◌, ◌%◌, ◌^◌, ◌≤◌, ◌<◌, ◌≡◌, refl, ap, ◌∙◌, ◌≢◌, Bool, true, false, not, arith, ◌==◌,
  if◌then◌else◌, inl, inr, ==_iff, ==_refl, Bool-cases, get_or, length, length-set,
  get_elem?-eq-get_or, get_or-set_self, get_or-set_ne, All, All-set, All-get_or, div_round_up, ok,
  lt→ltb, err, assert,
}
use nachos_lab.Base.Int.{pos, negsuc}
use nachos_lab.Base.Bits.{
  digit, digit-le, digit-bit_or, digit-bit_and, digit-pow_self, digit-pow_ne, digit-complement,
  bit_and-pow, pow-lt, bit_or-lt, bit_and-lt,
}
use native.Mathlib.Nat.{one-le-pow}
use nachos_lab.BitMap.{BitMap, bits_in_word, mask, complement, with_word, mark, clear, test}

-- Every word is an unsigned 32-bit number, and there are as many as `divRoundUp` says.
pub record IsValid (b : BitMap) : Type 0 where
  pub words : length b.map ≡ b.num_words
  pub size : b.num_words ≡ div_round_up b.num_bits bits_in_word
  pub unsigned : All (λ w. w < 2 ^ 32) b.map

-- The bit that the class comment calls the "nth": is it on?
unfoldable pub bit : BitMap → ℕ → ℕ
bit b n = digit (get_or b.map (n / bits_in_word) 0) (n % bits_in_word)

unfoldable pub is_set : BitMap → ℕ → Bool
unfolding bit
is_set b n = bit b n == 1

unfoldable pub marked : BitMap → ℕ → BitMap
marked b n = with_word b n (bit_or (get_or b.map (n / bits_in_word) 0) (mask n))

unfoldable pub cleared : BitMap → ℕ → BitMap
cleared b n = with_word b n (bit_and (get_or b.map (n / bits_in_word) 0) (complement (mask n)))

word_in : {b : BitMap} (n : ℕ) → IsValid b → n < b.num_bits → n / 32 < length b.map
unfolding div_round_up
word_in n v h = ground arith

mask-lt : (n : ℕ) → mask n < 2 ^ 32
mask-lt n = pow-lt (n % 32) 32 (omega arith)

-- `map[w] & (1 << k)` is not zero exactly when the bit is 1.
test_reads : (w k : ℕ) → not (bit_and w (2 ^ k) == 0) ≡ (digit w k == 1)
test_reads w k =
    let d : digit w k ≤ 1 = digit-le w k in
    let p : 1 ≤ 2 ^ k = one-le-pow k 2 (omega arith) in
    rw (bit_and-pow w k) (elim (Bool-cases (digit w k == 1)) [
      | inl e ↦ let q : digit w k ≡ 1 = (==_iff _ _).0 e in rw q (ground arith)
      | inr e ↦ let q : digit w k ≡ 0 = ground arith in rw q (ground arith)
    ])

-- `Test` reads the bit, and does not fail inside the bitmap.
pub test-ok : {b : BitMap} (n : ℕ) → IsValid b → n < b.num_bits → test b (pos n) ≡ ok (is_set b n)
unfolding test is_set bit
test-ok {b} n v h =
    rw (lt→ltb n b.num_bits h, get_elem?-eq-get_or b.map (n / 32) 0 (word_in n v h))
      (ap ok (test_reads (get_or b.map (n / 32) 0) (n % 32)))

pub mark-ok : {b : BitMap} (n : ℕ) → IsValid b → n < b.num_bits → mark b (pos n) ≡ ok (marked b n)
unfolding mark marked
mark-ok {b} n v h = rw (lt→ltb n b.num_bits h, get_elem?-eq-get_or b.map (n / 32) 0 (word_in n v h))

pub clear-ok :
    {b : BitMap} (n : ℕ) → IsValid b → n < b.num_bits → clear b (pos n) ≡ ok (cleared b n)
unfolding clear cleared
clear-ok {b} n v h =
    rw (lt→ltb n b.num_bits h, get_elem?-eq-get_or b.map (n / 32) 0 (word_in n v h))

-- A negative index fails the ASSERT.
pub clear_negative : (b : BitMap) (n : ℕ) → clear b (negsuc n) ≡ err assert
unfolding clear
clear_negative b n = refl

pub marked-IsValid : {b : BitMap} (n : ℕ) → IsValid b → IsValid (marked b n)
unfolding marked
marked-IsValid {b} n v = record {
  words = length-set b.map _ _ ∙ v.words;
  size = v.size;
  unsigned =
      All-set _ b.map _ _ v.unsigned
        (bit_or-lt 32 _ _ (All-get_or _ b.map (n / 32) 0 v.unsigned (omega arith)) (mask-lt n));
}

pub cleared-IsValid : {b : BitMap} (n : ℕ) → IsValid b → IsValid (cleared b n)
unfolding cleared
cleared-IsValid {b} n v = record {
  words = length-set b.map _ _ ∙ v.words;
  size = v.size;
  unsigned =
      All-set _ b.map _ _ v.unsigned
        (bit_and-lt 32 _ _ (All-get_or _ b.map (n / 32) 0 v.unsigned (omega arith)));
}

pub num_bits-marked : (b : BitMap) (n : ℕ) → (marked b n).num_bits ≡ b.num_bits
unfolding marked
num_bits-marked b n = refl

pub num_bits-cleared : (b : BitMap) (n : ℕ) → (cleared b n).num_bits ≡ b.num_bits
unfolding cleared
num_bits-cleared b n = refl

-- What a write of one word does to the bits.
bit-with_word :
    (b : BitMap) (n m w : ℕ)
    → n / 32 < length b.map
    → bit (with_word b n w) m ≡ (if (n / 32) == (m / 32) then digit w (m % 32) else bit b m)
unfolding bit
bit-with_word b n m w h = elim (Bool-cases ((n / 32) == (m / 32))) [
  | inl e ↦
      let q : n / 32 ≡ m / 32 = (==_iff _ _).0 e in
      rw e (rw (← q) (ap (λ x. digit x (m % 32)) (get_or-set_self b.map (n / 32) w 0 h)))
  | inr e ↦
      rw e (ap (λ x. digit x (m % 32)) (get_or-set_ne b.map (n / 32) (m / 32) w 0 (ground arith)))
]

module _ {b : BitMap} (n : ℕ) (v : IsValid b) (h : n < b.num_bits) where
  bit-marked_self : bit (marked b n) n ≡ 1
  unfolding marked
  bit-marked_self =
      rw (bit-with_word b n n _ (word_in n v h), ==_refl (n / 32))
        (omega (
          arith,
          digit-bit_or (get_or b.map (n / 32) 0) (mask n) (n % 32),
          digit-pow_self (n % 32),
          digit-le (get_or b.map (n / 32) 0) (n % 32),
        ))

  bit-cleared_self : bit (cleared b n) n ≡ 0
  unfolding cleared
  bit-cleared_self =
      rw (bit-with_word b n n _ (word_in n v h), ==_refl (n / 32))
        (omega (
          arith,
          digit-bit_and (get_or b.map (n / 32) 0) (complement (mask n)) (n % 32),
          digit-complement 32 (mask n) (n % 32) (mask-lt n) (omega arith),
          digit-pow_self (n % 32),
        ))

  apart : (m : ℕ) → n ≢ m → n / 32 ≡ m / 32 → n % 32 ≢ m % 32
  apart m ne q = omega arith

  -- The words that are written agree with the old ones on every other digit.
  bit-marked_ne : (m : ℕ) → n ≢ m → bit (marked b n) m ≡ bit b m
  unfolding marked bit
  bit-marked_ne m ne =
      rw (bit-with_word b n m _ (word_in n v h)) (elim (Bool-cases ((n / 32) == (m / 32))) [
        | inl e ↦
            let q : n / 32 ≡ m / 32 = (==_iff _ _).0 e in
            rw e (
              omega (
                arith,
                digit-bit_or (get_or b.map (n / 32) 0) (mask n) (m % 32),
                digit-pow_ne (n % 32) (m % 32) (apart m ne q),
                ap (λ x. digit (get_or b.map x 0) (m % 32)) q,
              ))
        | inr e ↦ rw e
      ])

  bit-cleared_ne : (m : ℕ) → n ≢ m → bit (cleared b n) m ≡ bit b m
  unfolding cleared bit
  bit-cleared_ne m ne =
      rw (bit-with_word b n m _ (word_in n v h)) (elim (Bool-cases ((n / 32) == (m / 32))) [
        | inl e ↦
            let q : n / 32 ≡ m / 32 = (==_iff _ _).0 e in
            rw e (
              omega (
                arith,
                digit-bit_and (get_or b.map (n / 32) 0) (complement (mask n)) (m % 32),
                digit-complement 32 (mask n) (m % 32) (mask-lt n) (omega arith),
                digit-pow_ne (n % 32) (m % 32) (apart m ne q),
                digit-le (get_or b.map (n / 32) 0) (m % 32),
                ap (λ x. digit (get_or b.map x 0) (m % 32)) q,
              ))
        | inr e ↦ rw e
      ])

-- `Mark` sets the bit that it is given, and leaves every other bit as it was.
pub is_set-marked :
    {b : BitMap} (n m : ℕ)
    → IsValid b
    → n < b.num_bits
    → is_set (marked b n) m ≡ (if n == m then true else is_set b m)
unfolding is_set
is_set-marked {b} n m v h = elim (Bool-cases (n == m)) [
  | inl e ↦ let q : n ≡ m = (==_iff _ _).0 e in rw e (rw (← q) (rw (bit-marked_self n v h)))
  | inr e ↦ rw e (rw (bit-marked_ne n v h m (ground arith)))
]

-- `Clear` clears the bit that it is given, and leaves every other bit as it was.
pub is_set-cleared :
    {b : BitMap} (n m : ℕ)
    → IsValid b
    → n < b.num_bits
    → is_set (cleared b n) m ≡ (if n == m then false else is_set b m)
unfolding is_set
is_set-cleared {b} n m v h = elim (Bool-cases (n == m)) [
  | inl e ↦ let q : n ≡ m = (==_iff _ _).0 e in rw e (rw (← q) (rw (bit-cleared_self n v h)))
  | inr e ↦ rw e (rw (bit-cleared_ne n v h m (ground arith)))
]
