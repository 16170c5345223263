-- ===== src/SynchList/Order.antt =====
-- The items of code/threads/synchlist.cc: what is appended is removed once, in its order.
use nachos_lab.Base.{
  ℕ, ◌≤◌, List, [], ◌∷◌, ◌++◌, ◌≡◌, refl, sym, ◌∙◌, ap, arith, subst, Result, ok, length, zero, suc,
  inl, inr, ◌⊎◌, err, assert,
}
use mathlib.Core.List.{append_assoc}
use nachos_lab.SynchList.{
  Place, free, appending, signalling, leaving, testing, taking, SynchList, init, signal_waiter,
  test_empty, remove_item, run_at, run_holder, Step, append, remove, wakes, runs, Reachable, begin,
  later,
}

-- A thread that is past the loop of Remove has an item to take.
abbrev pub HasItem : Place → List ℕ → Type 0
HasItem (taking thread) list = 1 ≤ length list
HasItem free list = Unit {0}
HasItem (appending item) list = Unit {0}
HasItem signalling list = Unit {0}
HasItem leaving list = Unit {0}
HasItem (testing thread) list = Unit {0}

pub record InOrder (s : SynchList) : Type 0 where
  pub kept : s.appended ≡ s.removed ++ s.list
  pub item : HasItem s.place s.list

-- The step is made, or it is the ASSERT of Remove, on an item that is NULL.
abbrev Goes : SynchList → Result SynchList → Type 0
Goes s r =
    ((s' : SynchList) × (r ≡ ok s') × InOrder s')
    ⊎ ((thread : ℕ) × (rest : List ℕ) × (s.place ≡ taking thread)
        × (s.list ≡ 0 ∷ rest)
        × (r ≡ err assert))

signal_waiter-InOrder : (s : SynchList) (ws : List ℕ) → InOrder s → InOrder (signal_waiter ws s)
unfolding signal_waiter
signal_waiter-InOrder s [] i = record { kept = i.kept; item = tt }
signal_waiter-InOrder s (w ∷ ws) i = record { kept = i.kept; item = tt }

test_empty-InOrder :
    (s : SynchList) (thread : ℕ) (xs : List ℕ)
    → s.list ≡ xs
    → InOrder s
    → InOrder (test_empty thread xs s)
unfolding test_empty
test_empty-InOrder s thread [] e i = record { kept = i.kept; item = tt }
test_empty-InOrder s thread (x ∷ xs) e i = record {
  kept = i.kept;
  item = omega (arith, ap length e);
}

remove_item-InOrder :
    (s : SynchList) (thread : ℕ) (xs : List ℕ)
    → s.place ≡ taking thread
    → s.list ≡ xs
    → 1 ≤ length xs
    → InOrder s
    → Goes s (remove_item xs s)
unfolding remove_item
remove_item-InOrder s thread [] p e h i = absurd (omega arith)
remove_item-InOrder s thread (zero ∷ xs) p e h i = inr (thread, xs, p, e, refl)
remove_item-InOrder s thread (suc k ∷ xs) p e h i = inl (
  _,
  refl,
  record {
    kept =
        i.kept
        ∙ ap (λ (l : List ℕ). s.removed ++ l) e
        ∙ sym (append_assoc s.removed (suc k ∷ []) xs);
    item = tt;
  },
)

run_at-InOrder :
    (p : Place) (s : SynchList) → s.place ≡ p → HasItem p s.list → InOrder s → Goes s (run_at p s)
unfolding run_at
run_at-InOrder free s p h i = inl (s, refl, i)
run_at-InOrder (appending item) s p h i = inl (
  _,
  refl,
  record {
    kept = ap (λ (l : List ℕ). l ++ item ∷ []) i.kept ∙ append_assoc s.removed s.list (item ∷ []);
    item = tt;
  },
)
run_at-InOrder signalling s p h i = inl (_, refl, signal_waiter-InOrder s s.waiting i)
run_at-InOrder leaving s p h i = inl (_, refl, record { kept = i.kept; item = tt })
run_at-InOrder (testing thread) s p h i = inl (_, refl, test_empty-InOrder s thread s.list refl i)
run_at-InOrder (taking thread) s p h i = remove_item-InOrder s thread s.list p refl h i

run_holder-InOrder : (s : SynchList) → InOrder s → Goes s (run_holder s)
unfolding run_holder
run_holder-InOrder s i = run_at-InOrder s.place s refl i.item i

Step-InOrder : {s s' : SynchList} → Step s s' → InOrder s → InOrder s'
Step-InOrder (append item f) i = record { kept = i.kept; item = tt }
Step-InOrder (remove thread f) i = record { kept = i.kept; item = tt }
Step-InOrder (wakes before after thread f e) i = record { kept = i.kept; item = tt }
Step-InOrder {s} (runs s' e) i = elim (run_holder-InOrder s i) [
  | inl (t, r, j) ↦ let q : t ≡ s' = cc in subst InOrder q j
  | inr (thread, rest, p, l, r) ↦
      let no : ◌≡◌ {A = Result SynchList} (err assert) (ok s') = sym r ∙ e in absurd (cc)
]

Reachable-InOrder : {s : SynchList} → Reachable s → InOrder s
unfolding init
Reachable-InOrder begin = record { kept = refl; item = tt }
Reachable-InOrder (later r step) = Step-InOrder step (Reachable-InOrder r)

-- In every state that threads can reach by any sequence of calls of Append and Remove: the items
-- removed so far, and then those in the list, are the items appended so far, in their order; and the
-- next statement of the thread that holds the lock does not fail, but for the ASSERT of Remove, and that
-- only where the first item of the list is NULL.
pub first_in_first_out :
    {s : SynchList}
    → Reachable s
    → (s.appended ≡ s.removed ++ s.list)
      × (((s' : SynchList) × (run_holder s ≡ ok s'))
          ⊎ ((thread : ℕ) × (rest : List ℕ) × (s.place ≡ taking thread)
              × (s.list ≡ 0 ∷ rest)
              × (run_holder s ≡ err assert)))
first_in_first_out {s} r =
    let i = Reachable-InOrder r in
    (
      i.kept,
      elim (run_holder-InOrder s i) [ inl (s', e, _) ↦ inl (s', e) | inr failed ↦ inr failed ],
    )
