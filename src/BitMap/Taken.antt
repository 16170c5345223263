-- ===== src/BitMap/Taken.antt =====
-- What it is to take some clear bits out of a bitmap of code/userprog/bitmap.cc and to give them
-- back: the view of the free map that its clients have.
use nachos_lab.Base.{
  ℕ, ◌+◌, ◌<◌, ◌≡◌, refl, ◌∙◌, Bool, false, ◌||◌, List, [], ◌∷◌, ◌++◌, length-append, arith, ◌==◌,
  length, All,
}
use nachos_lab.BitMap.{BitMap}
use nachos_lab.BitMap.Valid.{IsValid, is_set, marked, is_set-marked, num_bits-marked}
use nachos_lab.BitMap.Count.{free, free-marked}

abbrev pub elem : ℕ → List ℕ → Bool
elem m [] = false
elem m (k ∷ ks) = m == k || elem m ks

-- No number stands twice.
abbrev pub Distinct : List ℕ → Type 0
Distinct [] = Unit {0}
Distinct (k ∷ ks) = (elem k ks ≡ false) × Distinct ks

-- A clear bit of the map.
pub record IsClear (b : BitMap) (k : ℕ) : Type 0 where
  pub inside : k < b.num_bits
  pub off : is_set b k ≡ false

-- From `b` the bits `ks`, which were clear, have been set, and no other bit has changed.
pub record Taken (b : BitMap) (ks : List ℕ) (b' : BitMap) : Type 0 where
  pub valid : IsValid b'
  pub size : b'.num_bits ≡ b.num_bits
  pub clear : All (IsClear b) ks
  pub distinct : Distinct ks
  pub bits : (m : ℕ) → is_set b' m ≡ (elem m ks || is_set b m)
  pub count : free b' + length ks ≡ free b

pub Taken-nil : {b : BitMap} → IsValid b → Taken b [] b
Taken-nil v = record {
  valid = v;
  size = refl;
  clear = tt;
  distinct = tt;
  bits = λ m. refl;
  count = omega arith;
}

clear_before :
    {b : BitMap} (k : ℕ) (ks : List ℕ)
    → IsValid b
    → k < b.num_bits
    → All (IsClear (marked b k)) ks
    → All (IsClear b) ks × (elem k ks ≡ false)
clear_before k [] v h clear = (tt, refl)
clear_before {b} k (j ∷ js) v h clear =
    let (rest, out) = clear_before k js v h clear.1 in
    let same = num_bits-marked b k in
    let j_out : (k == j) ≡ false = ground (arith, is_set-marked k j v h, clear.0.off) in
    let j_off : is_set b j ≡ false = ground (arith, is_set-marked k j v h, clear.0.off) in
    let j_in : j < b.num_bits = omega (arith, clear.0.inside, same) in
    ((record { inside = j_in; off = j_off }, rest), rw j_out out)

-- One more bit, taken first.
pub Taken-cons :
    {b b' : BitMap} (k : ℕ) (ks : List ℕ)
    → IsValid b
    → k < b.num_bits
    → is_set b k ≡ false
    → Taken (marked b k) ks b'
    → Taken b (k ∷ ks) b'
Taken-cons {b} k ks v h off t =
    let (rest, out) = clear_before k ks v h t.clear in
    record {
      valid = t.valid;
      size = t.size ∙ num_bits-marked b k;
      clear = (record { inside = h; off = off }, rest);
      distinct = (out, t.distinct);
      bits = λ m. ground (arith, t.bits m, is_set-marked k m v h);
      count = omega (arith, t.count, free-marked k v h off);
    }

pub elem-append : (m : ℕ) (xs ys : List ℕ) → elem m (xs ++ ys) ≡ (elem m xs || elem m ys)
elem-append m [] ys = refl
elem-append m (x ∷ xs) ys = ground (arith, elem-append m xs ys)

-- The numbers `ys` are none of the numbers `xs`.
abbrev Apart : List ℕ → List ℕ → Type 0
Apart xs = All (λ y. elem y xs ≡ false)

Apart-cons : (x : ℕ) (xs ys : List ℕ) → Apart (x ∷ xs) ys → (elem x ys ≡ false) × Apart xs ys
Apart-cons x xs [] h = (refl, tt)
Apart-cons x xs (y ∷ ys) h =
    let (out, rest) = Apart-cons x xs ys h.1 in (ground (arith, h.0), (ground (arith, h.0), rest))

Distinct-append : (xs ys : List ℕ) → Distinct xs → Distinct ys → Apart xs ys → Distinct (xs ++ ys)
Distinct-append [] ys hx hy apart = hy
Distinct-append (x ∷ xs) ys hx hy apart =
    let (out, rest) = Apart-cons x xs ys apart in
    (rw (elem-append x xs ys, hx.0) out, Distinct-append xs ys hx.1 hy rest)

clear_later :
    {b b' : BitMap} (xs ys : List ℕ)
    → Taken b xs b'
    → All (IsClear b') ys
    → All (IsClear b) ys × Apart xs ys
clear_later xs [] t h = (tt, tt)
clear_later {b} {b'} xs (y ∷ ys) t h =
    let (rest, apart) = clear_later xs ys t h.1 in
    let size = t.size in
    let inside : y < b.num_bits = omega (arith, h.0.inside, size) in
    let off : is_set b y ≡ false = ground (arith, t.bits y, h.0.off) in
    let out : elem y xs ≡ false = ground (arith, t.bits y, h.0.off) in
    ((record { inside = inside; off = off }, rest), (out, apart))

All-append {ℓ κ} :
    {A : Type ℓ} (P : A → Type κ) (xs ys : List A) → All P xs → All P ys → All P (xs ++ ys)
All-append P [] ys hx hy = hy
All-append P (x ∷ xs) ys hx hy = (hx.0, All-append P xs ys hx.1 hy)

-- Two takings in a row are one.
pub Taken-append :
    {b b' b'' : BitMap} (xs ys : List ℕ) → Taken b xs b' → Taken b' ys b'' → Taken b (xs ++ ys) b''
Taken-append {b} xs ys t u =
    let (clear, apart) = clear_later xs ys t u.clear in
    record {
      valid = u.valid;
      size = u.size ∙ t.size;
      clear = All-append (IsClear b) xs ys t.clear clear;
      distinct = Distinct-append xs ys t.distinct u.distinct apart;
      bits = λ m. ground (arith, elem-append m xs ys, t.bits m, u.bits m);
      count = omega (arith, length-append xs ys, t.count, u.count);
    }
