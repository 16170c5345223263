-- ===== src/LinkedList/Sorted.antt =====
-- SortedInsert of code/threads/list.cc: a stable insertion that keeps the keys in order.
use nachos_lab.Base.{
  ℕ, zero, suc, ◌+◌, ◌<◌, ◌≡◌, ◌≢◌, refl, ◌∙◌, sym, ap, subst, true, false, List, [], ◌∷◌, arith,
  ◌==◌, ==_refl, none, some, All, ok, inl, inr, Bool-cases, if◌then◌else◌, length,
}
use mathlib.Core.List.{Perm}
use mathlib.Core.List.Perm
use nachos_lab.Base.Int.{ℤ, int_ltb, int_ltb-flip}
use nachos_lab.LinkedList.{
  ListElement, LinkedList, store, is_empty, new_element, insert_loop, sorted_insert,
}
use nachos_lab.LinkedList.Chain.{
  Cell, Chain, Distinct, Apart, Below, last_of, Represents, Chain-store, Apart-Below, Below-suc,
  Chain-cons,
}
use nachos_lab.LinkedList.Queue.{new_cell}

module _ {A : Type 0} where
  -- Insertion in front of the first element with a larger key.
  abbrev pub insert : Cell A → List (Cell A) → List (Cell A)
  insert n [] = n ∷ []
  insert n (c ∷ cs) = if int_ltb n.key c.key then n ∷ c ∷ cs else c ∷ insert n cs

  -- No key is smaller than the one before it.
  abbrev pub IsSorted : List (Cell A) → Type 0
  IsSorted [] = Unit {0}
  IsSorted (c ∷ []) = Unit {0}
  IsSorted (c ∷ d ∷ cs) = (int_ltb d.key c.key ≡ false) × IsSorted (d ∷ cs)

  -- Insertion behind `c` keeps the order.
  insert-IsSorted_behind :
      (n c : Cell A) (cs : List (Cell A))
      → int_ltb n.key c.key ≡ false
      → IsSorted (c ∷ cs)
      → IsSorted (c ∷ insert n cs)
  insert-IsSorted_behind n c [] ge s = (ge, tt)
  insert-IsSorted_behind n c (d ∷ cs) ge (le, s) = elim (Bool-cases (int_ltb n.key d.key)) [
    | inl lt ↦ rw lt (ge, (int_ltb-flip n.key d.key lt, s))
    | inr ge' ↦ rw ge' (le, insert-IsSorted_behind n d cs ge' s)
  ]

  pub insert-IsSorted : (n : Cell A) (cs : List (Cell A)) → IsSorted cs → IsSorted (insert n cs)
  insert-IsSorted n [] s = tt
  insert-IsSorted n (c ∷ cs) s = elim (Bool-cases (int_ltb n.key c.key)) [
    | inl lt ↦ rw lt (int_ltb-flip n.key c.key lt, s)
    | inr ge ↦ rw ge (insert-IsSorted_behind n c cs ge s)
  ]

  All-insert :
      (P : Cell A → Type 0) (n : Cell A) (cs : List (Cell A)) → P n → All P cs → All P (insert n cs)
  All-insert P n [] p a = (p, tt)
  All-insert P n (c ∷ cs) p (q, a) = elim (Bool-cases (int_ltb n.key c.key)) [
    | inl lt ↦ rw lt (p, (q, a))
    | inr ge ↦ rw ge (q, All-insert P n cs p a)
  ]

  Distinct-insert :
      (n : Cell A) (cs : List (Cell A)) → Apart n.at_ cs → Distinct cs → Distinct (insert n cs)
  Distinct-insert n [] out d = (tt, tt)
  Distinct-insert n (c ∷ cs) (ne, out) (a, d) = elim (Bool-cases (int_ltb n.key c.key)) [
    | inl lt ↦ rw lt ((ne, out), (a, d))
    | inr ge ↦
        rw ge (All-insert (λ e. c.at_ ≢ e.at_) n cs (λ e. ne (sym e)) a, Distinct-insert n cs out d)
  ]

  insert-Perm : (n : Cell A) (cs : List (Cell A)) → Perm (insert n cs) (n ∷ cs)
  insert-Perm n [] = Perm.refl (n ∷ [])
  insert-Perm n (c ∷ cs) = elim (Bool-cases (int_ltb n.key c.key)) [
    | inl lt ↦ rw lt (Perm.refl (n ∷ c ∷ cs))
    | inr ge ↦ rw ge (Perm.trans (Perm.cons c (insert-Perm n cs)) (Perm.swap n c cs))
  ]

  -- What the loop leaves: from the element `c` on the chain has the new element in its place, and
  -- the elements before `c` are as they were.
  record Inserted (s : LinkedList A) (n c : Cell A) (cs : List (Cell A)) (s' : LinkedList A)
      : Type 0 where
    chain : Chain s'.heap (some c.at_) (c ∷ insert n cs) none
    last : s'.last ≡ some (last_of c (insert n cs))
    first : s'.first ≡ s.first
    fresh : s'.fresh ≡ s.fresh
    frame : (a : ℕ) → n.at_ ≢ a → Apart a (c ∷ cs) → s'.heap a ≡ s.heap a

  insert_loop-Inserted :
      (k : ℕ) (s : LinkedList A) (n c : Cell A) (cs : List (Cell A))
      → length cs < k
      → Chain s.heap (some c.at_) (c ∷ cs) none
      → s.last ≡ some (last_of c cs)
      → Distinct (c ∷ cs)
      → Apart n.at_ (c ∷ cs)
      → (s.heap n.at_ ≡ record { next = none; key = n.key; item = n.item })
      → (s' : LinkedList A) × (insert_loop k s n.at_ n.key (some c.at_) ≡ ok s')
        × Inserted s n c cs s'
  unfolding insert_loop
  insert_loop-Inserted zero s n c cs h ch l d out new = absurd (omega arith)
  insert_loop-Inserted (suc k) s n c [] h ch l d (ne, out) new =
      let differ : (c.at_ == n.at_) ≡ false = ground arith in
      (
        record s {
          heap = store s.heap c.at_ (record (s.heap c.at_) { next = some n.at_ });
          last = some n.at_;
        },
        rw (ch.2, l) refl,
        record {
          chain = rw (==_refl c.at_, differ, new) (refl, ch.1, (refl, (refl, refl), refl));
          last = refl;
          first = refl;
          fresh = refl;
          frame = λ a p (q, _). ground arith;
        },
      )
  insert_loop-Inserted (suc k) s n c (e ∷ cs) h ch l d (ne, out) new =
      let rest : Chain s.heap (some e.at_) (e ∷ cs) none = (refl, ch.2.1, ch.2.2) in
      elim (Bool-cases (int_ltb n.key e.key)) [
        | inl lt ↦
            let g1 = store s.heap n.at_ (record (s.heap n.at_) { next = some e.at_ }) in
            let g2 = store g1 c.at_ (record (g1 c.at_) { next = some n.at_ }) in
            let differ : (c.at_ == n.at_) ≡ false = ground arith in
            let differ' : (n.at_ == c.at_) ≡ false = ground arith in
            let at_c : g2 c.at_ ≡ record (s.heap c.at_) { next = some n.at_ } =
              rw (==_refl c.at_, differ') refl in
            let at_n : g2 n.at_ ≡ record { next = some e.at_; key = n.key; item = n.item } =
              rw (differ, ==_refl n.at_, new) refl in
            let old1 = Chain-store s.heap n.at_ _ (some e.at_) none (e ∷ cs) out rest in
            let old2 = Chain-store g1 c.at_ _ (some e.at_) none (e ∷ cs) d.0 old1 in
            let behind = Chain-cons g2 n _ none (e ∷ cs) at_n (refl, refl) old2 in
            (
              record s { heap = g2 },
              simp ch.2.0 (rw (ch.2.1.0, lt) refl),
              record {
                chain = rw lt (Chain-cons g2 c _ none (n ∷ e ∷ cs) at_c ch.1 behind);
                last = rw lt l;
                first = refl;
                fresh = refl;
                frame = λ a p (q, _). ground arith;
              },
            )
        | inr ge ↦
            let (s', run, ins) = insert_loop-Inserted k s n e cs (omega arith) rest l d.1 out new in
            let at_c : s'.heap c.at_ ≡ s.heap c.at_ = ins.frame c.at_ ne d.0 in
            let next = subst (λ p. Chain s'.heap p (e ∷ insert n cs) none) (sym ch.2.0) ins.chain in
            (
              s',
              rw (ch.2.0, ch.2.1.0, ge) run,
              record {
                chain = rw ge (Chain-cons s'.heap c _ none (e ∷ insert n cs) at_c ch.1 next);
                last = rw ge ins.last;
                first = ins.first;
                fresh = ins.fresh;
                frame = λ a p (_, q). ins.frame a p q;
              },
            )
      ]

  length-insert : (n : Cell A) (cs : List (Cell A)) → length (insert n cs) ≡ length cs + 1
  length-insert n [] = refl
  length-insert n (c ∷ cs) = ground (arith, length-insert n cs)

  -- SortedInsert on a list that is not empty: the heap with the new element, and the two branches.
  abbrev with_new : LinkedList A → A → ℤ → LinkedList A
  with_new s item key = (new_element s item key).1

  sorted_insert-front :
      (s : LinkedList A) (item : A) (key : ℤ) (p : ℕ)
      → s.first ≡ some p
      → int_ltb key (((with_new s item key).heap p).key) ≡ true
      → sorted_insert s item key
        ≡ ok (record s {
          first = some s.fresh;
          heap =
              store
                (with_new s item key).heap
                s.fresh
                (record ((with_new s item key).heap s.fresh) { next = s.first });
          fresh = s.fresh + 1;
        })
  unfolding sorted_insert new_element is_empty
  sorted_insert-front s item key p first lt = rw first (rw lt refl)

  sorted_insert-loop :
      (s : LinkedList A) (item : A) (key : ℤ) (p : ℕ)
      → s.first ≡ some p
      → int_ltb key (((with_new s item key).heap p).key) ≡ false
      → sorted_insert s item key
        ≡ insert_loop (s.fresh + 1) (with_new s item key) s.fresh key (some p)
  unfolding sorted_insert new_element is_empty
  sorted_insert-loop s item key p first ge = rw first (rw ge refl)

  -- SortedInsert puts the item in front of the first element with a larger key, and leaves the list
  -- well formed.
  pub sorted_insert-Represents :
      (s : LinkedList A) (cs : List (Cell A)) (item : A) (key : ℤ)
      → Represents s cs
      → (s' : LinkedList A) × (sorted_insert s item key ≡ ok s')
        × Represents s' (insert (new_cell s item key) cs)
  unfolding sorted_insert new_element is_empty
  sorted_insert-Represents s [] item key r = rw r.chain (
    record (new_element s item key).1 { first = some s.fresh; last = some s.fresh },
    refl,
    record {
      chain = rw (==_refl s.fresh) (refl, (refl, refl), refl);
      last = refl;
      distinct = (tt, tt);
      below = (omega arith, tt);
      short = omega arith;
    },
  )
  sorted_insert-Represents s (c ∷ cs) item key r =
      let new = new_cell s item key in
      let e : ListElement A = record { next = none; key = key; item = item } in
      let h1 = store s.heap s.fresh e in
      let out = Apart-Below s.fresh (c ∷ cs) r.below in
      let old1 : Chain h1 (some c.at_) (c ∷ cs) none =
        subst (λ p. Chain h1 p (c ∷ cs) none) r.chain.0
          (Chain-store s.heap s.fresh e s.first none (c ∷ cs) out r.chain) in
      let key_c = ap (int_ltb key) old1.1.0 in
      elim (Bool-cases (int_ltb key c.key)) [
        | inl lt ↦
            let h2 = store h1 s.fresh (record (h1 s.fresh) { next = s.first }) in
            let at_new : h2 s.fresh ≡ record e { next = s.first } = rw (==_refl s.fresh) refl in
            let old2 =
              Chain-store h1 s.fresh (record (h1 s.fresh) { next = s.first }) (some c.at_) none
                (c ∷ cs) out old1 in
            let old3 = subst (λ p. Chain h2 p (c ∷ cs) none) (sym r.chain.0) old2 in
            (
              record s { first = some s.fresh; heap = h2; fresh = s.fresh + 1 },
              sorted_insert-front s item key c.at_ r.chain.0 (key_c ∙ lt),
              rw lt (record {
                chain =
                    Chain-cons h2 new (record e { next = s.first }) none (c ∷ cs) at_new
                      (refl, refl) old3;
                last = r.last;
                distinct = (out, r.distinct);
                below = (omega arith, Below-suc s.fresh (c ∷ cs) r.below);
                short = omega (arith, r.short);
              }),
            )
        | inr ge ↦
            let at_new : h1 s.fresh ≡ e = rw (==_refl s.fresh) refl in
            let (s', run, ins) =
              insert_loop-Inserted (s.fresh + 1) (with_new s item key) new c cs
                (omega (arith, r.short)) old1 r.last r.distinct out at_new in
            let size = length-insert new cs in
            (
              s',
              sorted_insert-loop s item key c.at_ r.chain.0 (key_c ∙ ge) ∙ run,
              rw ge (record {
                chain = rw (ins.first ∙ r.chain.0) ins.chain;
                last = ins.last;
                distinct = (
                  All-insert (λ d. c.at_ ≢ d.at_) new cs (λ q. out.0 (sym q)) r.distinct.0,
                  Distinct-insert new cs out.1 r.distinct.1,
                );
                below =
                    subst (λ n. Below n (c ∷ insert new cs)) (sym ins.fresh)
                      (
                        omega (arith, r.below.0),
                        All-insert (λ d. d.at_ < s.fresh + 1) new cs (omega arith)
                            (Below-suc s.fresh cs r.below.1),
                      );
                short = omega (arith, r.short, size, ins.fresh);
              }),
            )
      ]

  -- SortedInsert into a list in the order of the keys leaves it in order, with the new item added and
  -- every other kept.
  pub sorted_insert-IsSorted :
      (s : LinkedList A) (cs : List (Cell A)) (item : A) (key : ℤ)
      → Represents s cs
      → IsSorted cs
      → (s' : LinkedList A) × (ds : List (Cell A)) × (sorted_insert s item key ≡ ok s')
        × Represents s' ds
        × IsSorted ds
        × Perm ds (new_cell s item key ∷ cs)
  sorted_insert-IsSorted s cs item key r sorted =
      let (s', run, r') = sorted_insert-Represents s cs item key r in
      let new = new_cell s item key in
      (s', insert new cs, run, r', insert-IsSorted new cs sorted, insert-Perm new cs)
