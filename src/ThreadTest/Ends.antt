-- ===== src/ThreadTest/Ends.antt =====
-- The loops of the producers and consumers of code/threads/threadtest.cc end.
use nachos_lab.Base.{
  ℕ, zero, suc, ◌-◌, ◌*◌, ◌≤◌, ◌≡◌, sym, arith, subst, List, [], ◌∷◌, ◌++◌, some, inl, inr, All,
}
use nachos_lab.ThreadTest.{
  Shared, claims, enters, changes, leaves, signals, Worker, producer, consumer, produce, consume,
  run_worker, IsNew, Reachable, begin, later,
}
use nachos_lab.ThreadTest.Buffer.{total, total-insert, guarded}

-- The statements that a thread has before it, with five in a round of its loop.
abbrev pub left_of : ℕ → ℕ → ℕ
left_of rounds done = 5 * rounds - done

abbrev pub statements_left : Worker → ℕ
statements_left (producer claims loop) = left_of (6 - loop) 0
statements_left (producer enters loop) = left_of (6 - loop) 1
statements_left (producer changes loop) = left_of (6 - loop) 2
statements_left (producer leaves loop) = left_of (6 - loop) 3
statements_left (producer signals loop) = left_of (6 - loop) 4
statements_left (consumer claims loop) = left_of (11 - loop) 0
statements_left (consumer enters loop) = left_of (11 - loop) 1
statements_left (consumer changes loop) = left_of (11 - loop) 2
statements_left (consumer leaves loop) = left_of (11 - loop) 3
statements_left (consumer signals loop) = left_of (11 - loop) 4

-- A thread within a round has tested its loop.
abbrev IsInRound : Worker → Type 0
IsInRound (producer claims loop) = zero ≤ loop
IsInRound (producer enters loop) = loop ≤ 5
IsInRound (producer changes loop) = loop ≤ 5
IsInRound (producer leaves loop) = loop ≤ 5
IsInRound (producer signals loop) = loop ≤ 5
IsInRound (consumer claims loop) = zero ≤ loop
IsInRound (consumer enters loop) = loop ≤ 10
IsInRound (consumer changes loop) = loop ≤ 10
IsInRound (consumer leaves loop) = loop ≤ 10
IsInRound (consumer signals loop) = loop ≤ 10

-- A statement that is run is one less to run.
abbrev Advances : Worker → Worker → Type 0
Advances w w' = IsInRound w' × (statements_left w ≡ suc (statements_left w'))

advanced : {x y : Worker × Shared} (w : Worker) → Advances w x.0 → some x ≡ some y → Advances w y.0
advanced {x} {y} w a e = let q : x ≡ y = cc in subst (λ (p : Worker × Shared). Advances w p.0) q a

run_worker-Advances :
    (w w' : Worker) (s s' : Shared) → IsInRound w → run_worker w s ≡ some (w', s') → Advances w w'
unfolding run_worker produce consume
run_worker-Advances (producer claims loop) w' s s' h e =
    let (go, q) = guarded e in
    advanced (producer claims loop) (ground (arith, go), ground (arith, go)) q
run_worker-Advances (producer enters loop) w' s s' h e =
    advanced (producer enters loop) (h, omega (arith, h)) (guarded e).1
run_worker-Advances (producer changes loop) w' s s' h e =
    advanced (producer changes loop) (h, omega (arith, h)) e
run_worker-Advances (producer leaves loop) w' s s' h e =
    advanced (producer leaves loop) (h, omega (arith, h)) e
run_worker-Advances (producer signals loop) w' s s' h e =
    advanced (producer signals loop) (omega arith, omega (arith, h)) e
run_worker-Advances (consumer claims loop) w' s s' h e =
    let (go, q) = guarded e in
    advanced (consumer claims loop) (ground (arith, go), ground (arith, go)) q
run_worker-Advances (consumer enters loop) w' s s' h e =
    advanced (consumer enters loop) (h, omega (arith, h)) (guarded e).1
run_worker-Advances (consumer changes loop) w' s s' h e =
    advanced (consumer changes loop) (h, omega (arith, h)) e
run_worker-Advances (consumer leaves loop) w' s s' h e =
    advanced (consumer leaves loop) (h, omega (arith, h)) e
run_worker-Advances (consumer signals loop) w' s s' h e =
    advanced (consumer signals loop) (omega arith, omega (arith, h)) e

at_place :
    (before after : List Worker) (w : Worker) → All IsInRound (before ++ w ∷ after) → IsInRound w
at_place [] after w h = h.0
at_place (x ∷ before) after w h = at_place before after w h.1

replaced :
    (before after : List Worker) (w w' : Worker)
    → All IsInRound (before ++ w ∷ after)
    → IsInRound w'
    → All IsInRound (before ++ w' ∷ after)
replaced [] after w w' h p = (p, h.1)
replaced (x ∷ before) after w w' h p = (h.0, replaced before after w w' h.1 p)

new-IsInRound : (ws : List Worker) → All IsNew ws → All IsInRound ws
new-IsInRound [] h = tt
new-IsInRound (w ∷ ws) (inl e, h) = (subst IsInRound (sym e) (omega arith), new-IsInRound ws h)
new-IsInRound (w ∷ ws) (inr e, h) = (subst IsInRound (sym e) (omega arith), new-IsInRound ws h)

Reachable-IsInRound : {ws : List Worker} {s : Shared} → Reachable ws s → All IsInRound ws
Reachable-IsInRound (begin ws h) = new-IsInRound ws h
Reachable-IsInRound (later {s} {s'} before after w w' r e) =
    let h = Reachable-IsInRound r in
    replaced before after w w' h (run_worker-Advances w w' s s' (at_place before after w h) e).0

-- A run of a number of statements, of any of the threads.
pub data Runs : ℕ → List Worker → Shared → Type 0 where
  stays : (ws : List Worker) (s : Shared) → Runs zero ws s
  goes :
      {n : ℕ} {s s' : Shared} (before after : List Worker) (w w' : Worker)
      → run_worker w s ≡ some (w', s')
      → Runs n (before ++ w' ∷ after) s'
      → Runs (suc n) (before ++ w ∷ after) s

-- Every run ends: from a state that producers and consumers can reach, the statements of all threads
-- together are no more than the sum of those that each has before it, which is 25 for a new producer and
-- 50 for a new consumer.
pub runs_end :
    {n : ℕ} {ws : List Worker} {s : Shared}
    → Reachable ws s
    → Runs n ws s
    → n ≤ total statements_left ws
runs_end r (stays ws s) = omega arith
runs_end r (goes {n} {s} {s'} before after w w' e run) =
    let (_, less) =
      run_worker-Advances w w' s s' (at_place before after w (Reachable-IsInRound r)) e in
    omega (
      arith,
      less,
      runs_end (later before after w w' r e) run,
      total-insert statements_left before after w,
      total-insert statements_left before after w',
    )
