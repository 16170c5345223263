-- ===== src/BitMap/Given.antt =====
-- Bits given back to a bitmap of code/userprog/bitmap.cc by `Clear`.
use nachos_lab.Base.{
  ℕ, ◌+◌, ◌<◌, ◌≡◌, refl, ◌∙◌, true, false, not, ◌&&◌, List, [], ◌∷◌, arith, ◌==◌, ==_iff, ==_refl,
  Bool-cases, inl, inr, length, All,
}
use nachos_lab.BitMap.{BitMap}
use nachos_lab.BitMap.Valid.{IsValid, is_set, cleared, is_set-cleared, num_bits-cleared}
use nachos_lab.BitMap.Count.{free, free-cleared}
use nachos_lab.BitMap.Taken.{elem, IsClear, Taken}

-- From `b` the bits `ks`, which were set, have been cleared, and no other bit has changed.
pub record Given (b : BitMap) (ks : List ℕ) (b' : BitMap) : Type 0 where
  pub valid : IsValid b'
  pub size : b'.num_bits ≡ b.num_bits
  pub bits : (m : ℕ) → is_set b' m ≡ (not (elem m ks) && is_set b m)
  pub count : free b' ≡ free b + length ks

-- A set bit of the map.
pub record IsTaken (b : BitMap) (k : ℕ) : Type 0 where
  pub inside : k < b.num_bits
  pub on : is_set b k ≡ true

pub Given-nil : {b : BitMap} → IsValid b → Given b [] b
Given-nil v = record { valid = v; size = refl; bits = λ m. refl; count = omega arith }

pub Given-cons :
    {b b' : BitMap} (k : ℕ) (ks : List ℕ)
    → IsValid b
    → IsTaken b k
    → Given (cleared b k) ks b'
    → Given b (k ∷ ks) b'
Given-cons {b} k ks v t g = record {
  valid = g.valid;
  size = g.size ∙ num_bits-cleared b k;
  bits = λ m. ground (arith, g.bits m, is_set-cleared k m v t.inside);
  count = omega (arith, g.count, free-cleared k v t.inside t.on);
}

-- The other bits stay set.
pub IsTaken-cleared :
    {b : BitMap} (k : ℕ) (ks : List ℕ)
    → IsValid b
    → k < b.num_bits
    → elem k ks ≡ false
    → All (IsTaken b) ks
    → All (IsTaken (cleared b k)) ks
IsTaken-cleared k [] v h out all = tt
IsTaken-cleared {b} k (j ∷ js) v h out all =
    let same = num_bits-cleared b k in
    (
      record {
        inside = omega (arith, all.0.inside, same);
        on = ground (arith, is_set-cleared k j v h, all.0.on);
      },
      IsTaken-cleared k js v h (ground arith) all.1,
    )

elem-clear :
    (b : BitMap) (m : ℕ) (ks : List ℕ) → All (IsClear b) ks → elem m ks ≡ true → is_set b m ≡ false
elem-clear b m [] h e = cc
elem-clear b m (k ∷ ks) h e = elim (Bool-cases (m == k)) [
  | inl here ↦ rw ((==_iff m k).0 here) h.0.off
  | inr other ↦ elem-clear b m ks h.1 (rw other at e)
]

all_elem :
    (xs ys : List ℕ)
    → ((m : ℕ) → elem m ys ≡ true → elem m xs ≡ true)
    → All (λ k. elem k xs ≡ true) ys
all_elem xs [] sub = tt
all_elem xs (y ∷ ys) sub =
    (sub y (ground (arith, ==_refl y)), all_elem xs ys (λ m h. sub m (ground arith)))

-- What has been taken is set.
pub Taken-IsTaken : {b b' : BitMap} (ks : List ℕ) → Taken b ks b' → All (IsTaken b') ks
Taken-IsTaken {b} {b'} ks t = on ks t.clear (all_elem ks ks (λ m h. h))
  where
    on : (js : List ℕ) → All (IsClear b) js → All (λ k. elem k ks ≡ true) js → All (IsTaken b') js
    on [] c e = tt
    on (j ∷ js) c e =
        let size = t.size in
        (
          record { inside = omega (arith, c.0.inside, size); on = ground (arith, t.bits j, e.0) },
          on js c.1 e.1,
        )

-- To take bits and to give them back leaves every bit as it was.
pub Given-Taken :
    {b b' b'' : BitMap} (ks : List ℕ)
    → Taken b ks b'
    → Given b' ks b''
    → ((m : ℕ) → is_set b'' m ≡ is_set b m) × (free b'' ≡ free b)
Given-Taken {b} {b''} ks t g = (same, omega (arith, t.count, g.count))
  where
    same : (m : ℕ) → is_set b'' m ≡ is_set b m
    same m = elim (Bool-cases (elem m ks)) [
      | inl e ↦ ground (arith, g.bits m, e, elem-clear b m ks t.clear e)
      | inr e ↦ ground (arith, g.bits m, t.bits m, e)
    ]
