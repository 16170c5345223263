-- ===== src/ThreadTest/Stuck.antt =====
-- Producers and consumers of code/threads/threadtest.cc of which none can go on.
use nachos_lab.Base.{
  ℕ, ◌+◌, ◌<◌, ◌≡◌, refl, ◌∙◌, ap, arith, Bool, List, [], ◌∷◌, none, some, if◌then◌else◌, inl, inr,
  All, leb, true, false, Bool-cases,
}
use nachos_lab.Base.Int.{pos}
use nachos_lab.ThreadTest.{
  Shared, claims, enters, changes, leaves, signals, Worker, producer, consumer, produce, consume,
  run_worker, Reachable,
}
use nachos_lab.ThreadTest.Buffer.{
  claimed, inside, uncounted, total, total-le, uncounted-le, Reachable-Counts,
}

-- The loop of the thread has ended, or it waits for a place in a buffer of ten items, or for an item in
-- one that has none.
pub data IsResting (s : Shared) : Worker → Type 0 where
  produced : (loop : ℕ) → 5 < loop → IsResting s (producer claims loop)
  consumed : (loop : ℕ) → 10 < loop → IsResting s (consumer claims loop)
  no_place : (loop : ℕ) → s.itemnum ≡ pos 10 → IsResting s (producer claims loop)
  no_item : (loop : ℕ) → s.itemnum ≡ pos 0 → IsResting s (consumer claims loop)

abbrev pub IsStuck : Shared → Worker → Type 0
IsStuck s w = run_worker w s ≡ none

blocked : {b : Bool} (x : Worker × Shared) → (if b then some x else none) ≡ none → b ≡ false
blocked {b = true} x e = absurd (cc)
blocked {b = false} x e = refl

IsStuck-inside : (s : Shared) (w : Worker) → IsStuck s w → inside w ≡ 0
unfolding run_worker produce consume
IsStuck-inside s (producer claims loop) e = refl
IsStuck-inside s (producer enters loop) e = refl
IsStuck-inside s (producer changes loop) e = absurd (cc)
IsStuck-inside s (producer leaves loop) e = absurd (cc)
IsStuck-inside s (producer signals loop) e = refl
IsStuck-inside s (consumer claims loop) e = refl
IsStuck-inside s (consumer enters loop) e = refl
IsStuck-inside s (consumer changes loop) e = absurd (cc)
IsStuck-inside s (consumer leaves loop) e = absurd (cc)
IsStuck-inside s (consumer signals loop) e = refl

-- With `mutex` free.
IsStuck-claimed : (s : Shared) (w : Worker) → s.mutex ≡ 1 → IsStuck s w → claimed w ≡ 0
unfolding run_worker produce consume
IsStuck-claimed s (producer claims loop) m e = refl
IsStuck-claimed s (producer enters loop) m e = absurd (ground (arith, blocked _ e))
IsStuck-claimed s (producer changes loop) m e = absurd (cc)
IsStuck-claimed s (producer leaves loop) m e = absurd (cc)
IsStuck-claimed s (producer signals loop) m e = absurd (cc)
IsStuck-claimed s (consumer claims loop) m e = refl
IsStuck-claimed s (consumer enters loop) m e = absurd (ground (arith, blocked _ e))
IsStuck-claimed s (consumer changes loop) m e = absurd (cc)
IsStuck-claimed s (consumer leaves loop) m e = absurd (cc)
IsStuck-claimed s (consumer signals loop) m e = absurd (cc)

total-zero :
    (s : Shared) (f : Worker → ℕ) (ws : List Worker)
    → ((w : Worker) → IsStuck s w → f w ≡ 0)
    → All (IsStuck s) ws
    → total f ws ≡ 0
unfolding total
total-zero s f [] z h = refl
total-zero s f (w ∷ ws) z (e, h) = omega (arith, z w e, total-zero s f ws z h)

IsStuck-IsResting :
    (s : Shared) (w : Worker)
    → s.empty + s.full ≡ 10
    → s.itemnum ≡ pos s.full
    → claimed w ≡ 0
    → IsStuck s w
    → IsResting s w
unfolding run_worker produce consume
IsStuck-IsResting s (producer claims loop) t n c e =
    let shut = blocked _ e in
    elim (Bool-cases (leb loop 5)) [
      | inl more ↦ no_place loop (n ∙ ap pos (ground arith))
      | inr ended ↦ produced loop (ground arith)
    ]
IsStuck-IsResting s (consumer claims loop) t n c e =
    let shut = blocked _ e in
    elim (Bool-cases (leb loop 10)) [
      | inl more ↦ no_item loop (n ∙ ap pos (ground arith))
      | inr ended ↦ consumed loop (ground arith)
    ]
IsStuck-IsResting s (producer enters loop) t n c e = absurd (omega arith)
IsStuck-IsResting s (producer changes loop) t n c e = absurd (omega arith)
IsStuck-IsResting s (producer leaves loop) t n c e = absurd (omega arith)
IsStuck-IsResting s (producer signals loop) t n c e = absurd (omega arith)
IsStuck-IsResting s (consumer enters loop) t n c e = absurd (omega arith)
IsStuck-IsResting s (consumer changes loop) t n c e = absurd (omega arith)
IsStuck-IsResting s (consumer leaves loop) t n c e = absurd (omega arith)
IsStuck-IsResting s (consumer signals loop) t n c e = absurd (omega arith)

All-IsResting :
    (s : Shared) (ws : List Worker)
    → ((w : Worker) → IsStuck s w → IsResting s w)
    → All (IsStuck s) ws
    → All (IsResting s) ws
All-IsResting s [] f h = tt
All-IsResting s (w ∷ ws) f (e, h) = (f w e, All-IsResting s ws f h)

-- There is no deadlock: in a state that producers and consumers can reach, and where none of them can go
-- on, each has ended its loop, or is a producer that waits and the buffer has ten items, or is a consumer
-- that waits and the buffer has none. So a producer and a consumer never wait at the same time.
pub no_deadlock :
    {ws : List Worker} {s : Shared} → Reachable ws s → All (IsStuck s) ws → All (IsResting s) ws
no_deadlock {ws} {s} r h =
    let k = Reachable-Counts r in
    let free : s.mutex ≡ 1 = omega (arith, k.one, total-zero s inside ws (IsStuck-inside s) h) in
    let none_claimed = total-zero s claimed ws (λ w e. IsStuck-claimed s w free e) h in
    let none_uncounted : total uncounted ws ≡ 0 =
      omega (arith, none_claimed, total-le uncounted claimed ws uncounted-le) in
    let items : s.itemnum ≡ pos s.full = k.items ∙ ap pos (omega (arith, none_uncounted)) in
    All-IsResting s ws
      (λ w e.
        IsStuck-IsResting s w (omega (arith, k.places, none_claimed)) items
          (IsStuck-claimed s w free e) e)
      h
