-- ===== src/LinkedList/Chain.antt =====
-- The elements of a list of code/threads/list.h, in order, and what a step on the heap does to them.
use nachos_lab.Base.{
  ℕ, ◌+◌, ◌<◌, ◌≤◌, ◌≡◌, ◌≢◌, refl, ◌∙◌, sym, ap, subst, false, List, [], ◌∷◌, ◌++◌, arith, ◌==◌,
  ==_refl, Option, none, some, All, length,
}
use nachos_lab.Base.Int.{ℤ}
use nachos_lab.LinkedList.{ListElement, LinkedList, store}

module _ (A : Type 0) where
  -- One element: its address and what it holds.
  pub record Cell : Type 0 where
    pub at_ : ℕ
    pub key : ℤ
    pub item : A

module _ {A : Type 0} where
  -- The pointer `p` leads through exactly these elements, up to the pointer `q`.
  abbrev pub Chain : (ℕ → ListElement A) → Option ℕ → List (Cell A) → Option ℕ → Type 0
  Chain h p [] q = p ≡ q
  Chain h p (c ∷ cs) q =
      (p ≡ some c.at_)
      × (((h c.at_).key ≡ c.key) × ((h c.at_).item ≡ c.item))
      × Chain h (h c.at_).next cs q

  abbrev pub Apart : ℕ → List (Cell A) → Type 0
  Apart a = All (λ c. a ≢ c.at_)

  abbrev pub Distinct : List (Cell A) → Type 0
  Distinct [] = Unit {0}
  Distinct (c ∷ cs) = Apart c.at_ cs × Distinct cs

  abbrev pub Below : ℕ → List (Cell A) → Type 0
  Below n = All (λ c. c.at_ < n)

  -- The address of the last element.
  abbrev pub last_of : Cell A → List (Cell A) → ℕ
  last_of c [] = c.at_
  last_of c (d ∷ cs) = last_of d cs

  abbrev pub last_pointer : List (Cell A) → Option ℕ
  last_pointer [] = none
  last_pointer (c ∷ cs) = some (last_of c cs)

  -- The list holds these elements, at different addresses that are in use, and so at most as many as
  -- were ever made.
  pub record Represents (s : LinkedList A) (cs : List (Cell A)) : Type 0 where
    pub chain : Chain s.heap s.first cs none
    pub last : s.last ≡ last_pointer cs
    pub distinct : Distinct cs
    pub below : Below s.fresh cs
    pub short : length cs ≤ s.fresh

  -- A write elsewhere leaves the chain.
  pub Chain-store :
      (h : ℕ → ListElement A) (a : ℕ) (e : ListElement A) (p q : Option ℕ) (cs : List (Cell A))
      → Apart a cs
      → Chain h p cs q
      → Chain (store h a e) p cs q
  Chain-store h a e p q [] out c = c
  Chain-store h a e p q (d ∷ cs) (ne, out) (at_d, held, rest) =
      let differ : (a == d.at_) ≡ false = ground arith in
      rw differ (at_d, held, Chain-store h a e (h d.at_).next q cs out rest)

  -- One element in front of a chain.
  pub Chain-cons :
      (h : ℕ → ListElement A) (c : Cell A) (e : ListElement A) (q : Option ℕ) (cs : List (Cell A))
      → h c.at_ ≡ e
      → (e.key ≡ c.key) × (e.item ≡ c.item)
      → Chain h e.next cs q
      → Chain h (some c.at_) (c ∷ cs) q
  Chain-cons h c e q cs at_c (k, i) rest = (
    refl,
    (ap (λ (x : ListElement A). x.key) at_c ∙ k, ap (λ (x : ListElement A). x.item) at_c ∙ i),
    subst (λ (x : ListElement A). Chain h x.next cs q) (sym at_c) rest,
  )

  pub Apart-Below : (n : ℕ) (cs : List (Cell A)) → Below n cs → Apart n cs
  Apart-Below n [] b = tt
  Apart-Below n (c ∷ cs) (l, b) = (omega arith, Apart-Below n cs b)

  pub Below-suc : (n : ℕ) (cs : List (Cell A)) → Below n cs → Below (n + 1) cs
  Below-suc n [] b = tt
  Below-suc n (c ∷ cs) (l, b) = (omega arith, Below-suc n cs b)

  pub Chain-append :
      (h : ℕ → ListElement A) (p q r : Option ℕ) (cs ds : List (Cell A))
      → Chain h p cs q
      → Chain h q ds r
      → Chain h p (cs ++ ds) r
  Chain-append h p q r [] ds c d = rw c d
  Chain-append h p q r (e ∷ cs) ds (at_e, held, rest) d =
      (at_e, held, Chain-append h (h e.at_).next q r cs ds rest d)

  pub All-append :
      (P : Cell A → Type 0) (cs ds : List (Cell A)) → All P cs → All P ds → All P (cs ++ ds)
  All-append P [] ds a b = b
  All-append P (c ∷ cs) ds (p, a) b = (p, All-append P cs ds a b)

  -- The address of the last element of a list that ends in `d`.
  pub last_of-append :
      (c : Cell A) (cs : List (Cell A)) (d : Cell A) → last_of c (cs ++ d ∷ []) ≡ d.at_
  last_of-append c [] d = refl
  last_of-append c (e ∷ cs) d = last_of-append e cs d

  -- The last element is one of them.
  pub last_of-All :
      (P : ℕ → Type 0) (c : Cell A) (cs : List (Cell A))
      → All (λ d. P d.at_) (c ∷ cs)
      → P (last_of c cs)
  last_of-All P c [] (p, _) = p
  last_of-All P c (d ∷ cs) (_, ps) = last_of-All P d cs ps

  -- The last element gets a new successor.
  pub Chain-link :
      (h : ℕ → ListElement A) (p q r : Option ℕ) (c : Cell A) (cs : List (Cell A))
      → Distinct (c ∷ cs)
      → Chain h p (c ∷ cs) q
      → Chain (store h (last_of c cs) (record (h (last_of c cs)) { next = r })) p (c ∷ cs) r
  Chain-link h p q r c [] d (at_c, held, rest) = rw (==_refl c.at_) (at_c, held, refl)
  Chain-link h p q r c (e ∷ cs) ((ne, out), d) (at_c, held, rest) =
      let differ : (last_of e cs == c.at_) ≡ false =
        ground (arith, last_of-All (λ a. c.at_ ≢ a) e cs (ne, out)) in
      rw differ (at_c, held, Chain-link h (h c.at_).next q r e cs d rest)

  pub Distinct-append :
      (cs : List (Cell A)) (d : Cell A) → Distinct cs → Apart d.at_ cs → Distinct (cs ++ d ∷ [])
  Distinct-append [] d u out = (tt, tt)
  Distinct-append (c ∷ cs) d (a, u) (ne, out) = (
    All-append (λ e. c.at_ ≢ e.at_) cs (d ∷ []) a ((λ e. ne (sym e)), tt),
    Distinct-append cs d u out,
  )
