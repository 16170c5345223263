-- ===== src/LinkedList/Queue.antt =====
-- Append, Prepend and SortedRemove of code/threads/list.cc on the sequence of elements.
use nachos_lab.Base.{
  ℕ, ◌+◌, ◌<◌, ◌≡◌, ◌≢◌, refl, sym, ap, false, List, [], ◌∷◌, ◌++◌, arith, ◌==◌, ==_refl,
  length-append, none, some, ok,
}
use nachos_lab.Base.Int.{ℤ, pos}
use nachos_lab.LinkedList.{
  ListElement, LinkedList, store, is_empty, init, new_element, append, prepend, sorted_remove,
}
use nachos_lab.LinkedList.Chain.{
  Cell, Chain, last_of, Represents, Chain-store, Apart-Below, Below-suc, All-append, last_of-append,
  Chain-link, last_of-All, Distinct-append, Chain-append, Chain-cons,
}

module _ {A : Type 0} where
  pub init-Represents : (heap : ℕ → ListElement A) (fresh : ℕ) → Represents (init heap fresh) []
  unfolding init
  init-Represents heap fresh = record {
    chain = refl;
    last = refl;
    distinct = tt;
    below = tt;
    short = omega arith;
  }

  -- The element that `new` makes.
  abbrev pub new_cell : LinkedList A → A → ℤ → Cell A
  new_cell s item key = record { at_ = s.fresh; key = key; item = item }

  -- Append puts the item at the end of the sequence, and leaves the list well formed.
  pub append-Represents :
      (s : LinkedList A) (cs : List (Cell A)) (item : A)
      → Represents s cs
      → (s' : LinkedList A) × (append s item ≡ ok s')
        × Represents s' (cs ++ new_cell s item (pos 0) ∷ [])
  unfolding append new_element is_empty
  append-Represents s [] item r = rw r.chain (
    record (new_element s item (pos 0)).1 { first = some s.fresh; last = some s.fresh },
    refl,
    record {
      chain = rw (==_refl s.fresh) (refl, (refl, refl), refl);
      last = refl;
      distinct = (tt, tt);
      below = (omega arith, tt);
      short = omega arith;
    },
  )
  append-Represents s (c ∷ cs) item r =
      let new : ListElement A = record { next = none; key = pos 0; item = item } in
      let h1 = store s.heap s.fresh new in
      let last = last_of c cs in
      let new_out = Apart-Below s.fresh (c ∷ cs) r.below in
      let old = Chain-store s.heap s.fresh new s.first none (c ∷ cs) new_out r.chain in
      let linked = Chain-link h1 s.first none (some s.fresh) c cs r.distinct old in
      let h2 = store h1 last (record (h1 last) { next = some s.fresh }) in
      let differ : (last == s.fresh) ≡ false =
        ground (arith, last_of-All (λ a. a < s.fresh) c cs r.below) in
      let tail : Chain h2 (some s.fresh) (new_cell s item (pos 0) ∷ []) none =
        rw (differ, ==_refl s.fresh) (refl, (refl, refl), refl) in
      let new_last = last_of-append c cs (new_cell s item (pos 0)) in
      (
        record { first = s.first; last = some s.fresh; heap = h2; fresh = s.fresh + 1 },
        rw (r.chain.0, r.last) refl,
        record {
          chain = Chain-append h2 s.first (some s.fresh) none (c ∷ cs) _ linked tail;
          last = ap some (sym new_last);
          distinct = Distinct-append (c ∷ cs) _ r.distinct new_out;
          below =
              All-append (λ d. d.at_ < s.fresh + 1) (c ∷ cs) _ (Below-suc s.fresh (c ∷ cs) r.below)
                (omega arith, tt);
          short = omega (arith, length-append cs (new_cell s item (pos 0) ∷ []), r.short);
        },
      )

  -- Prepend puts the item in front of the sequence, and leaves the list well formed.
  pub prepend-Represents :
      (s : LinkedList A) (cs : List (Cell A)) (item : A)
      → Represents s cs
      → (s' : LinkedList A) × (prepend s item ≡ ok s')
        × Represents s' (new_cell s item (pos 0) ∷ cs)
  unfolding prepend new_element is_empty
  prepend-Represents s [] item r = rw r.chain (
    record (new_element s item (pos 0)).1 { first = some s.fresh; last = some s.fresh },
    refl,
    record {
      chain = rw (==_refl s.fresh) (refl, (refl, refl), refl);
      last = refl;
      distinct = (tt, tt);
      below = (omega arith, tt);
      short = omega arith;
    },
  )
  prepend-Represents s (c ∷ cs) item r =
      let new : ListElement A = record { next = none; key = pos 0; item = item } in
      let h1 = store s.heap s.fresh new in
      let h2 = store h1 s.fresh (record (h1 s.fresh) { next = s.first }) in
      let new_out = Apart-Below s.fresh (c ∷ cs) r.below in
      let old1 = Chain-store s.heap s.fresh new s.first none (c ∷ cs) new_out r.chain in
      let old2 = Chain-store h1 s.fresh _ s.first none (c ∷ cs) new_out old1 in
      let at_new : h2 s.fresh ≡ record new { next = s.first } = rw (==_refl s.fresh) refl in
      (
        record { first = some s.fresh; last = s.last; heap = h2; fresh = s.fresh + 1 },
        rw r.chain.0 refl,
        record {
          chain =
              Chain-cons h2 (new_cell s item (pos 0)) (record new { next = s.first }) none (c ∷ cs)
                at_new (refl, refl) old2;
          last = r.last;
          distinct = (new_out, r.distinct);
          below = (omega arith, Below-suc s.fresh (c ∷ cs) r.below);
          short = omega (arith, r.short);
        },
      )

  -- SortedRemove of an empty list answers NULL, and the list stays.
  pub sorted_remove-nil : (s : LinkedList A) → Represents s [] → sorted_remove s ≡ ok (none, s)
  unfolding sorted_remove is_empty
  sorted_remove-nil s r = rw r.chain refl

  -- SortedRemove takes the first item off the sequence, and answers with it and its key.
  pub sorted_remove-cons :
      (s : LinkedList A) (c : Cell A) (cs : List (Cell A))
      → Represents s (c ∷ cs)
      → (s' : LinkedList A) × (sorted_remove s ≡ ok (some (c.item, c.key), s')) × Represents s' cs
  unfolding sorted_remove is_empty
  sorted_remove-cons s c [] r = (
    record s { first = none; last = none },
    rw (r.chain.0, r.last, ==_refl c.at_, r.chain.1.0, r.chain.1.1) refl,
    record { chain = refl; last = refl; distinct = tt; below = tt; short = omega arith },
  )
  sorted_remove-cons s c (d ∷ cs) r =
      let differ : (c.at_ == last_of d cs) ≡ false =
        ground (arith, last_of-All (λ a. c.at_ ≢ a) d cs r.distinct.0) in
      (
        record s { first = (s.heap c.at_).next },
        rw (r.chain.0, r.last, differ, r.chain.1.0, r.chain.1.1) refl,
        record {
          chain = r.chain.2;
          last = r.last;
          distinct = r.distinct.1;
          below = r.below.1;
          short = omega (arith, r.short);
        },
      )
