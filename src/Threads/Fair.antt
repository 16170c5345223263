-- ===== src/Threads/Fair.antt =====
-- Round robin: Thread::Yield and the ready list of code/threads/thread.cc and scheduler.cc.
use nachos_lab.Base.{
  ℕ, zero, suc, ◌≡◌, refl, true, none, some, List, [], ◌∷◌, ◌++◌, Result, ok, get_elem?, ◌>>=◌,
  Bool-cases, inl, inr,
}
use nachos_lab.Threads.{
  Threads, yield, run, ready_to_run, set_status, find_next_to_run, after_switch, delete_thread,
  update,
}

-- `n` calls of Yield, each by the thread that then runs.
unfoldable pub yield_times : ℕ → Threads → Result Threads
unfolding yield
yield_times zero s = ok s
yield_times (suc n) s = do s1 ← yield s; yield_times n s1

-- The threads that are runnable, in the order in which they will run.
abbrev pub line : Threads → List ℕ
line s = s.current_thread ∷ s.ready_list

get_elem?-append_left :
    (k t : ℕ) (xs ys : List ℕ) → get_elem? xs k ≡ some t → get_elem? (xs ++ ys) k ≡ some t
get_elem?-append_left k t [] ys h = cc
get_elem?-append_left zero t (x ∷ xs) ys h = h
get_elem?-append_left (suc k) t (x ∷ xs) ys h = get_elem?-append_left k t xs ys h

-- The first of a list, and what stands at place `k` after it.
abbrev At : ℕ → ℕ → ℕ → List ℕ → Type 0
At zero t x xs = x ≡ t
At (suc k) t x xs = get_elem? xs k ≡ some t

split-get_elem? :
    (rs : List ℕ) (k t : ℕ)
    → get_elem? rs k ≡ some t
    → (x : ℕ) × (xs : List ℕ) × (rs ≡ x ∷ xs) × At k t x xs
split-get_elem? [] k t h = cc
split-get_elem? (x ∷ xs) zero t h = (x, xs, refl, cc)
split-get_elem? (x ∷ xs) (suc k) t h = (x, xs, refl, h)

after_switch-none : (s : Threads) → s.thread_to_be_destroyed ≡ none → after_switch s ≡ ok s
unfolding after_switch
after_switch-none s quiet = rw quiet refl

module _ (s : Threads) (next : ℕ) (rest : List ℕ) (quiet : s.thread_to_be_destroyed ≡ none) where
  unfoldable after : Threads
  after = record s {
    in_run = update s.in_run s.current_thread true;
    current_thread = next;
    ready_list = rest ++ s.current_thread ∷ [];
    status =
        update (update s.status s.current_thread nachos_lab.Threads.ready) next
          nachos_lab.Threads.running;
  }

  yield-cons : s.ready_list ≡ next ∷ rest → yield s ≡ ok after
  unfolding yield after
  yield-cons e = rw e (elim (Bool-cases (update s.in_run s.current_thread true next)) [
    | inl old ↦ rw old (after_switch-none _ quiet)
    | inr new ↦ rw new refl
  ])

-- A thread at place `k` of the ready list runs after `k + 1` calls of Yield, where no thread that has
-- finished is left to be destroyed.
pub yield_times-reaches :
    (k : ℕ) (s : Threads) (t : ℕ)
    → s.thread_to_be_destroyed ≡ none
    → get_elem? s.ready_list k ≡ some t
    → (s' : Threads) × (yield_times (suc k) s ≡ ok s') × (s'.current_thread ≡ t)
unfolding yield_times after
yield_times-reaches zero s t quiet h =
    let (x, xs, e, here) = split-get_elem? s.ready_list 0 t h in
    (after s x xs quiet, rw (yield-cons s x xs quiet e) refl, here)
yield_times-reaches (suc k) s t quiet h =
    let (x, xs, e, later) = split-get_elem? s.ready_list (suc k) t h in
    let s1 = after s x xs quiet in
    let place : get_elem? s1.ready_list k ≡ some t =
      get_elem?-append_left k t xs (s.current_thread ∷ []) later in
    let (s', reached, now) = yield_times-reaches k s1 t quiet place in
    (s', rw (yield-cons s x xs quiet e) reached, now)
