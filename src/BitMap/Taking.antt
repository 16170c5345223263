-- ===== src/BitMap/Taking.antt =====
-- `Find` and `FirstFind` of code/userprog/bitmap.cc take bits out of the map.
use nachos_lab.Base.{
  ℕ, zero, suc, ◌+◌, ◌≤◌, ◌<◌, ◌≡◌, refl, ◌∙◌, ap, subst, Bool, true, false, List, [], ◌∷◌, arith,
  inl, inr, length, ok,
}
use nachos_lab.Base.Int.{pos}
use nachos_lab.BitMap.{BitMap, find, mark_run, first_find}
use nachos_lab.BitMap.Valid.{
  IsValid, is_set, marked, mark-ok, marked-IsValid, is_set-marked, num_bits-marked,
}
use nachos_lab.BitMap.Count.{free, clear_places}
use nachos_lab.BitMap.Find.{find-first}
use nachos_lab.BitMap.FirstFind.{all_clear, first_find-run}
use nachos_lab.BitMap.Taken.{Taken, Taken-nil, Taken-cons}

all_set-no_place :
    (f : ℕ → Bool) (i n : ℕ) → ((m : ℕ) → i ≤ m → m < i + n → f m ≡ true) → clear_places f i n ≡ 0
unfolding clear_places
all_set-no_place f i zero all = refl
all_set-no_place f i (suc n) all =
    rw (all i (omega arith) (omega arith))
      (omega (arith, all_set-no_place f (i + 1) n (λ m p q. all m (omega arith) (omega arith))))

-- While a bit is clear, `Find` takes one.
pub find-takes :
    {b : BitMap}
    → IsValid b
    → 0 < free b
    → (k : ℕ) × (find b ≡ ok (pos k, marked b k)) × (k < b.num_bits) × (is_set b k ≡ false)
unfolding free
find-takes {b} v h = elim (find-first v) [
  | inl (k, l, off, below, e) ↦ (k, e, l, off)
  | inr (all, e) ↦ absurd (omega (arith, no_bit all))
]
  where
    no_bit : ((m : ℕ) → m < b.num_bits → is_set b m ≡ true) → free b ≡ 0
    no_bit all = all_set-no_place (is_set b) 0 b.num_bits (λ m p q. all m (omega arith))

-- The numbers `k`, `k + 1`, …, `n` of them.
abbrev pub run_from : ℕ → ℕ → List ℕ
run_from k zero = []
run_from k (suc n) = k ∷ run_from (k + 1) n

pub length-run_from : (k n : ℕ) → length (run_from k n) ≡ n
length-run_from k zero = refl
length-run_from k (suc n) = ap suc (length-run_from (k + 1) n)

all_clear-marked :
    {b : BitMap} (k i n : ℕ)
    → IsValid b
    → k < b.num_bits
    → k < i
    → all_clear (marked b k) i n ≡ all_clear b i n
unfolding all_clear
all_clear-marked k i zero v h l = refl
all_clear-marked {b} k i (suc n) v h l =
    ground (arith, is_set-marked k i v h, all_clear-marked k (i + 1) n v h (omega arith))

-- The second inner loop of `FirstFind` takes the run, if it is clear.
pub mark_run-Taken :
    (n i j : ℕ) (b : BitMap)
    → IsValid b
    → i + j + n ≤ b.num_bits
    → all_clear b (i + j) n ≡ true
    → (b' : BitMap) × (mark_run n i j b ≡ ok b') × Taken b (run_from (i + j) n) b'
unfolding mark_run all_clear
mark_run-Taken zero i j b v h clear = (b, refl, Taken-nil v)
mark_run-Taken (suc n) i j b v h clear =
    let same = num_bits-marked b (i + j) in
    let k_in : i + j < b.num_bits = omega arith in
    let e : i + (j + 1) ≡ i + j + 1 = omega arith in
    let off : is_set b (i + j) ≡ false = ground arith in
    let rest : all_clear b (i + j + 1) n ≡ true = ground arith in
    let (b', done, t) =
      mark_run-Taken n i (j + 1) (marked b (i + j)) (marked-IsValid (i + j) v) (omega arith)
        (rw e (all_clear-marked (i + j) (i + j + 1) n v k_in (omega arith) ∙ rest)) in
    (
      b',
      rw (mark-ok (i + j) v k_in) done,
      Taken-cons (i + j) (run_from (i + j + 1) n) v k_in off
          (subst (λ x. Taken (marked b (i + j)) (run_from x n) b') e t),
    )

-- Where a run of clear bits first begins at `k`, `FirstFind` takes exactly that run.
pub first_find-Taken :
    {b : BitMap} (size k : ℕ)
    → IsValid b
    → k < b.num_bits
    → k + size ≤ b.num_bits
    → all_clear b k size ≡ true
    → ((m : ℕ) → m < k → all_clear b m size ≡ false)
    → (b' : BitMap) × (first_find b size ≡ ok (pos k, b')) × Taken b (run_from k size) b'
first_find-Taken {b} size k v h l clear least =
    let z : k + 0 ≡ k = omega arith in
    let (b', done, t) = mark_run-Taken size k 0 b v (omega arith) (rw z clear) in
    (
      b',
      first_find-run size k v h l clear least done,
      subst (λ x. Taken b (run_from x size) b') z t,
    )
