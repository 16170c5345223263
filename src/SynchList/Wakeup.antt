-- ===== src/SynchList/Wakeup.antt =====
-- The waiters of code/threads/synchlist.cc: Signal wakes one thread for each item.
use nachos_lab.Base.{
  ℕ, ◌+◌, ◌≤◌, ◌⊎◌, inl, inr, List, [], ◌∷◌, ◌++◌, ◌≡◌, refl, ap, arith, subst, ok, length,
  length-append, zero, suc,
}
use nachos_lab.SynchList.{
  Place, free, appending, signalling, leaving, testing, taking, SynchList, init, append_item,
  signal_waiter, test_empty, remove_item, run_at, run_holder, Step, append, remove, wakes, runs,
  Reachable, begin, later,
}

-- The thread with the lock, where it is about to wake a thread or to look for an item.
abbrev pub on_the_way : Place → ℕ
on_the_way free = 0
on_the_way (appending item) = 0
on_the_way signalling = 1
on_the_way leaving = 0
on_the_way (testing thread) = 1
on_the_way (taking thread) = 1

abbrev pub IsAwake : SynchList → Type 0
IsAwake s = (s.waiting ≡ []) ⊎ (length s.list ≤ length s.woken + on_the_way s.place)

-- The same with the lists apart.
abbrev Enough : List ℕ → List ℕ → ℕ → Type 0
Enough waiting list awake = (waiting ≡ []) ⊎ (length list ≤ awake)

signal_waiter-IsAwake :
    (s : SynchList) (ws : List ℕ)
    → s.waiting ≡ ws
    → Enough ws s.list (length s.woken + 1)
    → IsAwake (signal_waiter ws s)
unfolding signal_waiter
signal_waiter-IsAwake s [] e i = inl e
signal_waiter-IsAwake s (w ∷ ws) e (inl n) = absurd (omega (arith, ap length n))
signal_waiter-IsAwake s (w ∷ ws) e (inr h) = inr (omega (arith, length-append s.woken (w ∷ [])))

test_empty-IsAwake :
    (s : SynchList) (thread : ℕ) (xs : List ℕ)
    → s.list ≡ xs
    → Enough s.waiting xs (length s.woken + 1)
    → IsAwake (test_empty thread xs s)
unfolding test_empty
test_empty-IsAwake s thread [] e i = inr (omega (arith, ap length e))
test_empty-IsAwake s thread (x ∷ xs) e (inl n) = inl n
test_empty-IsAwake s thread (x ∷ xs) e (inr h) = inr (omega (arith, ap length e))

remove_item-IsAwake :
    (s s' : SynchList) (xs : List ℕ)
    → Enough s.waiting xs (length s.woken + 1)
    → remove_item xs s ≡ ok s'
    → IsAwake s'
unfolding remove_item
remove_item-IsAwake s s' [] i h = cc
remove_item-IsAwake s s' (zero ∷ xs) i h = cc
remove_item-IsAwake s s' (suc k ∷ xs) (inl n) h =
    let q : record s { list = xs; place = leaving; removed = s.removed ++ suc k ∷ [] } ≡ s' = cc in
    subst IsAwake q (inl n)
remove_item-IsAwake s s' (suc k ∷ xs) (inr l) h =
    let q : record s { list = xs; place = leaving; removed = s.removed ++ suc k ∷ [] } ≡ s' = cc in
    subst IsAwake q (inr (omega arith))

same : {s t : SynchList} → IsAwake s → ok s ≡ ok t → IsAwake t
same {s} {t} i h = let q : s ≡ t = cc in subst IsAwake q i

more :
    (waiting list : List ℕ) (item k : ℕ)
    → Enough waiting list (k + 0)
    → Enough waiting (list ++ item ∷ []) (k + 1)
more waiting list item k (inl n) = inl n
more waiting list item k (inr h) = inr (omega (arith, length-append list (item ∷ [])))

run_at-IsAwake :
    (p : Place) (s s' : SynchList)
    → Enough s.waiting s.list (length s.woken + on_the_way p)
    → s.place ≡ p
    → run_at p s ≡ ok s'
    → IsAwake s'
unfolding run_at append_item
run_at-IsAwake free s s' i e h = same (rw e i) h
run_at-IsAwake (appending item) s s' i e h = same (more s.waiting s.list item (length s.woken) i) h
run_at-IsAwake signalling s s' i e h = same (signal_waiter-IsAwake s s.waiting refl i) h
run_at-IsAwake leaving s s' i e h = same i h
run_at-IsAwake (testing thread) s s' i e h = same (test_empty-IsAwake s thread s.list refl i) h
run_at-IsAwake (taking thread) s s' i e h = remove_item-IsAwake s s' s.list i h

-- A thread that takes the free lock, `gone` of those that were woken.
enters :
    (waiting list : List ℕ) (k k' : ℕ) → k ≤ k' → Enough waiting list k → Enough waiting list k'
enters waiting list k k' h (inl n) = inl n
enters waiting list k k' h (inr l) = inr (omega arith)

Step-IsAwake : {s s' : SynchList} → Step s s' → IsAwake s → IsAwake s'
unfolding run_holder
Step-IsAwake {s} (append item f) i = enters s.waiting s.list _ _ (omega (arith, ap on_the_way f)) i
Step-IsAwake {s} (remove thread f) i =
    enters s.waiting s.list _ _ (omega (arith, ap on_the_way f)) i
Step-IsAwake {s} (wakes before after thread f e) i =
    enters s.waiting s.list _ _
      (omega (
        arith,
        ap on_the_way f,
        ap length e,
        length-append before (thread ∷ after),
        length-append before after,
      ))
      i
Step-IsAwake {s} (runs s' e) i = run_at-IsAwake s.place s s' i refl e

-- In every state that threads can reach by any sequence of calls of Append and Remove: where a thread
-- sleeps in Remove, there are no more items in the list than threads that were woken and have not
-- tested the list since, with the one that holds the lock and is about to wake a thread or to look
-- for an item. No item lies in the list while all who want it sleep.
pub no_item_left :
    {s : SynchList}
    → Reachable s
    → (s.waiting ≡ []) ⊎ (length s.list ≤ length s.woken + on_the_way s.place)
unfolding init
no_item_left begin = inl refl
no_item_left (later r step) = Step-IsAwake step (no_item_left r)
