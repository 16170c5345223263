-- ===== src/Synch/Broadcast.antt =====
-- Broadcast of code/threads/synch.cc.
use nachos_lab.Base.{ℕ, zero, suc, ◌≤◌, ◌≡◌, refl, ◌∙◌, sym, arith, List, [], ◌∷◌, ◌++◌, length}
use mathlib.Core.List.{append_assoc, append-nil}
use nachos_lab.Threads.{Threads, ready_to_run, set_status}
use nachos_lab.Synch.{signal, wake, broadcast_loop}

-- All the threads that wait become ready, in the order in which they wait, and the loop ends: as many
-- rounds as there are threads are enough.
pub broadcast_loop-wakes :
    (waiting : List ℕ) (n : ℕ) (t : Threads)
    → length waiting ≤ n
    → ((broadcast_loop n (record { waiting_list = waiting }) t).0.waiting_list ≡ [])
      × ((broadcast_loop n (record { waiting_list = waiting }) t).1.ready_list
          ≡ t.ready_list ++ waiting)
      × ((broadcast_loop n (record { waiting_list = waiting }) t).1.current_thread
          ≡ t.current_thread)
unfolding broadcast_loop signal wake ready_to_run set_status
broadcast_loop-wakes [] zero t h = (refl, sym (append-nil t.ready_list), refl)
broadcast_loop-wakes [] (suc n) t h = (refl, sym (append-nil t.ready_list), refl)
broadcast_loop-wakes (x ∷ xs) zero t h = absurd (omega arith)
broadcast_loop-wakes (x ∷ xs) (suc n) t h =
    let (empty, line, current) = broadcast_loop-wakes xs n (ready_to_run t x) (omega arith) in
    (empty, line ∙ append_assoc t.ready_list (x ∷ []) xs, current)
