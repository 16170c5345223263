-- ===== src/Threads/Census.antt =====
-- The list of all threads of code/threads/scheduler.cc: where AddNewThreadtoList and
-- RemoveThreadFromList leave each thread.
use nachos_lab.Base.{
  ℕ, zero, suc, ◌+◌, ◌<◌, ◌≡◌, refl, ◌∙◌, sym, ap, arith, true, false, Option, none, some, List, [],
  ◌∷◌, get_elem?, set, ==_refl, All,
}
use nachos_lab.Threads.{
  Threads, add_loop, remove_loop, add_new_thread_to_list, remove_thread_from_list, is_slot_of,
  update, placed,
}

-- How many slots are free.
unfoldable pub free_slots : List (Option ℕ) → ℕ
free_slots [] = 0
free_slots (none ∷ slots) = suc (free_slots slots)
free_slots (some t ∷ slots) = free_slots slots

-- The first free slot from `i` on is taken, and no other slot changes; a full list is refused.
pub add_loop-takes :
    (slots : List (Option ℕ)) (i thread : ℕ)
    → 0 < free_slots slots
    → (k : ℕ) × (rest : List (Option ℕ)) × (add_loop slots i thread ≡ (some (i + k), rest))
      × (get_elem? slots k ≡ some none)
      × (rest ≡ set slots k (some thread))
      × (free_slots rest + 1 ≡ free_slots slots)
unfolding add_loop free_slots
add_loop-takes [] i thread h = absurd (omega arith)
add_loop-takes (none ∷ slots) i thread h =
    let z : i ≡ i + 0 = omega arith in
    (
      0,
      some thread ∷ slots,
      ap (λ (n : ℕ). (some n, some thread ∷ slots)) z,
      refl,
      refl,
      omega arith,
    )
add_loop-takes (some t ∷ slots) i thread h =
    let (k, rest, done, empty, same, fewer) = add_loop-takes slots (i + 1) thread h in
    let z : i + 1 + k ≡ i + suc k = omega arith in
    (
      suc k,
      some t ∷ rest,
      rw done (ap (λ (n : ℕ). (some n, some t ∷ rest)) z),
      empty,
      ap (λ (r : List (Option ℕ)). some t ∷ r) same,
      fewer,
    )

-- A new thread gets the first free slot as its pid, and a full list is refused.
pub add_new_thread_to_list-takes :
    (s : Threads) (thread : ℕ)
    → 0 < free_slots s.global_thread_list
    → (k : ℕ) × (s' : Threads) × (add_new_thread_to_list s thread ≡ (true, s'))
      × (get_elem? s.global_thread_list k ≡ some none)
      × (s'.global_thread_list ≡ set s.global_thread_list k (some thread))
      × (s'.pids thread ≡ k)
      × (free_slots s'.global_thread_list + 1 ≡ free_slots s.global_thread_list)
unfolding add_new_thread_to_list
add_new_thread_to_list-takes s thread room =
    let (k, rest, done, empty, same, fewer) = add_loop-takes s.global_thread_list 0 thread room in
    let z : 0 + k ≡ k = omega arith in
    (
      k,
      record s { global_thread_list = rest; pids = update s.pids thread k },
      ap (placed s thread) (done ∙ ap (λ (n : ℕ). (some n, rest)) z),
      empty,
      same,
      rw (==_refl thread) refl,
      fewer,
    )

add_loop_full :
    (slots : List (Option ℕ)) (i thread : ℕ)
    → free_slots slots ≡ 0
    → (add_loop slots i thread).0 ≡ none
unfolding add_loop free_slots
add_loop_full [] i thread h = refl
add_loop_full (none ∷ slots) i thread h = absurd (omega arith)
add_loop_full (some t ∷ slots) i thread h = add_loop_full slots (i + 1) thread h

remove_loop_undo :
    (slots : List (Option ℕ)) (k thread : ℕ)
    → get_elem? slots k ≡ some none
    → All (λ slot. is_slot_of thread slot ≡ false) slots
    → remove_loop (set slots k (some thread)) thread ≡ (true, slots)
unfolding remove_loop
remove_loop_undo [] k thread h out = cc
remove_loop_undo (slot ∷ slots) zero thread h out =
    let q : slot ≡ none = cc in
    rw (==_refl thread) (ap (λ (x : Option ℕ). (true, x ∷ slots)) (sym q))
remove_loop_undo (slot ∷ slots) (suc k) thread h (o, out) =
    rw (remove_loop_undo slots k thread h out) (rw o refl)

-- What follows AddNewThreadtoList with RemoveThreadFromList: the list is as before, for a thread that was
-- not in it.
pub remove-add_new :
    (s : Threads) (thread : ℕ)
    → 0 < free_slots s.global_thread_list
    → All (λ slot. is_slot_of thread slot ≡ false) s.global_thread_list
    → (s' : Threads) × (add_new_thread_to_list s thread ≡ (true, s'))
      × ((remove_thread_from_list s' thread).0 ≡ true)
      × ((remove_thread_from_list s' thread).1.global_thread_list ≡ s.global_thread_list)
unfolding remove_thread_from_list
remove-add_new s thread room out =
    let (k, s', done, empty, same, pid, fewer) = add_new_thread_to_list-takes s thread room in
    let undone = remove_loop_undo s.global_thread_list k thread empty out in
    (s', done, rw same (rw undone refl), rw same (rw undone refl))
