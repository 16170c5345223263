-- ===== src/FileHeader/Table.antt =====
-- The table of data sectors of code/filesys/filehdr.cc, and the loops that fill it in.
use nachos_lab.Base.{
  ℕ, zero, suc, ◌+◌, ◌≤◌, ◌<◌, ◌≡◌, ◌≢◌, refl, ◌∙◌, ap, List, [], ◌∷◌, arith, some, get_elem?, set,
  length, length-set, put-ok, ok,
}
use nachos_lab.Base.Int.{ℤ, pos}
use nachos_lab.BitMap.{BitMap}
use nachos_lab.BitMap.Valid.{IsValid, marked, marked-IsValid}
use nachos_lab.BitMap.Count.{free, free-marked}
use nachos_lab.BitMap.Taken.{Taken, Taken-nil, Taken-cons}
use nachos_lab.BitMap.Taking.{find-takes, run_from}
use nachos_lab.FileHeader.{store_run, find_each}

-- From place `i` on the table holds the sectors `ks`.
abbrev pub Holds : List ℤ → ℕ → List ℕ → Type 0
Holds table i [] = Unit {0}
Holds table i (k ∷ ks) = (get_elem? table i ≡ some (pos k)) × Holds table (i + 1) ks

-- The table with the sectors `ks` stored from place `i` on.
pub store_all : List ℤ → ℕ → List ℕ → List ℤ
store_all table i [] = table
store_all table i (k ∷ ks) = store_all (set table i (pos k)) (i + 1) ks

pub length-store_all :
    (table : List ℤ) (i : ℕ) (ks : List ℕ) → length (store_all table i ks) ≡ length table
unfolding store_all
length-store_all table i [] = refl
length-store_all table i (k ∷ ks) =
    length-store_all (set table i (pos k)) (i + 1) ks ∙ length-set table i (pos k)

pub get_elem?-set_self :
    (xs : List ℤ) (i : ℕ) (v : ℤ) → i < length xs → get_elem? (set xs i v) i ≡ some v
get_elem?-set_self [] i v h = absurd (omega arith)
get_elem?-set_self (x ∷ xs) zero v h = refl
get_elem?-set_self (x ∷ xs) (suc i) v h = get_elem?-set_self xs i v (omega arith)

get_elem?-set_ne :
    (xs : List ℤ) (i j : ℕ) (v : ℤ) → i ≢ j → get_elem? (set xs i v) j ≡ get_elem? xs j
get_elem?-set_ne [] i j v h = refl
get_elem?-set_ne (x ∷ xs) zero zero v h = absurd (h refl)
get_elem?-set_ne (x ∷ xs) zero (suc j) v h = refl
get_elem?-set_ne (x ∷ xs) (suc i) zero v h = refl
get_elem?-set_ne (x ∷ xs) (suc i) (suc j) v h = get_elem?-set_ne xs i j v (λ e. h (ap suc e))

-- A write at a later place leaves the sectors where they are.
pub Holds-set :
    (table : List ℤ) (j : ℕ) (v : ℤ) (i : ℕ) (ks : List ℕ)
    → i + length ks ≤ j
    → Holds table i ks
    → Holds (set table j v) i ks
Holds-set table j v i [] l h = tt
Holds-set table j v i (k ∷ ks) l h = (
  get_elem?-set_ne table j i v (omega arith) ∙ h.0,
  Holds-set table j v (i + 1) ks (omega arith) h.1,
)

-- The places below are left alone.
pub store_all-below :
    (table : List ℤ) (i j : ℕ) (ks : List ℕ)
    → j < i
    → get_elem? (store_all table i ks) j ≡ get_elem? table j
unfolding store_all
store_all-below table i j [] h = refl
store_all-below table i j (k ∷ ks) h =
    store_all-below (set table i (pos k)) (i + 1) j ks (omega arith)
    ∙ get_elem?-set_ne table i j (pos k) (omega arith)

pub store_all-Holds :
    (table : List ℤ) (i : ℕ) (ks : List ℕ)
    → i + length ks ≤ length table
    → Holds (store_all table i ks) i ks
unfolding store_all
store_all-Holds table i [] h = tt
store_all-Holds table i (k ∷ ks) h = (
  store_all-below (set table i (pos k)) (i + 1) i ks (omega arith)
      ∙ get_elem?-set_self table i (pos k) (omega arith),
  store_all-Holds (set table i (pos k)) (i + 1) ks (omega (arith, length-set table i (pos k))),
)

pub store_run-ok :
    (n i first : ℕ) (table : List ℤ)
    → i + n ≤ length table
    → store_run n i first table ≡ ok (store_all table i (run_from (first + i) n))
unfolding store_run store_all
store_run-ok zero i first table h = refl
store_run-ok (suc n) i first table h =
    let e : first + (i + 1) ≡ first + i + 1 = omega arith in
    rw (put-ok table i (pos (first + i)) (omega arith)) (
      store_run-ok n (i + 1) first (set table i (pos (first + i)))
        (omega (arith, length-set table i (pos (first + i))))
      ∙ rw e)

-- While enough bits are clear, the loop of `Find` takes one for each place.
pub find_each-takes :
    (n i : ℕ) (table : List ℤ) (b : BitMap)
    → IsValid b
    → n ≤ free b
    → i + n ≤ length table
    → (ks : List ℕ) × (b' : BitMap) × (find_each n i table b ≡ ok (store_all table i ks, b'))
      × (length ks ≡ n)
      × Taken b ks b'
unfolding find_each store_all
find_each-takes zero i table b v h l = ([], b, refl, refl, Taken-nil v)
find_each-takes (suc n) i table b v h l =
    let (k, found, inside, off) = find-takes v (omega arith) in
    let (ks, b', done, size, t) =
      find_each-takes n (i + 1) (set table i (pos k)) (marked b k) (marked-IsValid k v)
        (omega (arith, free-marked k v inside off)) (omega (arith, length-set table i (pos k))) in
    (
      k ∷ ks,
      b',
      rw found (rw (put-ok table i (pos k) (omega arith)) done),
      omega arith,
      Taken-cons k ks v inside off t,
    )
