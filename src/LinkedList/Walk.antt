-- ===== src/LinkedList/Walk.antt =====
-- The loops of code/threads/list.cc and list.h over a whole list: ~List, Mapcar and GetListLength.
use nachos_lab.Base.{
  ℕ, zero, suc, ◌+◌, ◌<◌, ◌≤◌, ◌≡◌, ◌≢◌, refl, ◌∙◌, ap, false, List, [], ◌∷◌, arith, ◌==◌, Option,
  none, some, ok, err, hang, length,
}
use nachos_lab.LinkedList.{
  LinkedList, same_pointer, is_empty, remove, destroy, mapcar, length_loop, get_list_length,
}
use nachos_lab.LinkedList.Chain.{Cell, Chain, last_of, last_of-All, Represents}
use nachos_lab.LinkedList.Queue.{sorted_remove-nil, sorted_remove-cons}

length_loop-hangs :
    (n i : ℕ) (p q : Option ℕ) → same_pointer p q ≡ false → length_loop n p q i ≡ err hang
unfolding length_loop
length_loop-hangs zero i p q ne = rw ne
length_loop-hangs (suc n) i p q ne = rw ne (length_loop-hangs n (i + 1) p q ne)

module _ {A : Type 0} where
  -- Remove of an empty list is NULL; otherwise it is the first item, and the others stay.
  pub remove-nil : (s : LinkedList A) → Represents s [] → remove s ≡ ok (none, s)
  unfolding remove
  remove-nil s r = rw (sorted_remove-nil s r)

  pub remove-cons :
      (s : LinkedList A) (c : Cell A) (cs : List (Cell A))
      → Represents s (c ∷ cs)
      → (s' : LinkedList A) × (remove s ≡ ok (some c.item, s')) × Represents s' cs
  unfolding remove
  remove-cons s c cs r = let (s', e, r') = sorted_remove-cons s c cs r in (s', rw e, r')

  -- The destructor's loop ends with an empty list, after one round more than there are elements.
  pub destroy-Represents :
      (n : ℕ) (s : LinkedList A) (cs : List (Cell A))
      → Represents s cs
      → length cs < n
      → (s' : LinkedList A) × (destroy n s ≡ ok s') × Represents s' []
  unfolding destroy
  destroy-Represents zero s cs r h = absurd (omega arith)
  destroy-Represents (suc n) s [] r h = (s, rw (remove-nil s r), r)
  destroy-Represents (suc n) s (c ∷ cs) r h =
      let (s1, e, r1) = remove-cons s c cs r in
      let (s2, e2, r2) = destroy-Represents n s1 cs r1 (omega arith) in (s2, rw e e2, r2)

  -- The function applied to every item, from the first to the last.
  abbrev pub fold_items : {S : Type 0} → (S → A → S) → S → List (Cell A) → S
  fold_items func t [] = t
  fold_items func t (c ∷ cs) = fold_items func (func t c.item) cs

  mapcar-Chain :
      {S : Type 0} (n : ℕ) (func : S → A → S) (t : S) (s : LinkedList A) (p : Option ℕ)
      (cs : List (Cell A))
      → Chain s.heap p cs none
      → length cs ≤ n
      → mapcar n func t s p ≡ ok (fold_items func t cs)
  unfolding mapcar
  mapcar-Chain zero func t s p [] ch h = rw ch refl
  mapcar-Chain (suc n) func t s p [] ch h = rw ch refl
  mapcar-Chain zero func t s p (c ∷ cs) ch h = absurd (omega arith)
  mapcar-Chain (suc n) func t s p (c ∷ cs) ch h = rw ch.0 (
      mapcar-Chain n func (func t (s.heap c.at_).item) s (s.heap c.at_).next cs ch.2 (omega arith)
      ∙ ap (λ x. ok (fold_items func (func t x) cs)) ch.1.1)

  -- Mapcar calls the function on every item, in order; as many rounds as elements were ever made are
  -- enough.
  pub mapcar-fold_items :
      {S : Type 0} (func : S → A → S) (t : S) (s : LinkedList A) (cs : List (Cell A))
      → Represents s cs
      → mapcar s.fresh func t s s.first ≡ ok (fold_items func t cs)
  mapcar-fold_items func t s cs r = mapcar-Chain s.fresh func t s s.first cs r.chain r.short

  -- A defect: GetListLength does not end on a list of two or more elements, however many rounds its
  -- loop is given.
  pub get_list_length-hangs :
      (n : ℕ) (s : LinkedList A) (c d : Cell A) (cs : List (Cell A))
      → Represents s (c ∷ d ∷ cs)
      → get_list_length n s ≡ err hang
  unfolding get_list_length is_empty
  get_list_length-hangs n s c d cs r =
      let differ : (c.at_ == last_of d cs) ≡ false =
        ground (arith, last_of-All (λ a. c.at_ ≢ a) d cs r.distinct.0) in
      rw (r.chain.0, r.last) (length_loop-hangs n 1 (some c.at_) (some (last_of d cs)) differ)
