-- ===== src/ThreadTest/Buffer.antt =====
-- The buffer of the producers and consumers of code/threads/threadtest.cc: what the semaphores count.
use nachos_lab.Base.{
  ℕ, suc, ◌+◌, ◌≤◌, ◌≡◌, refl, sym, ◌∙◌, ap, arith, subst, List, [], ◌∷◌, ◌++◌, Bool, none, some,
  if◌then◌else◌, inl, inr, All, true, false,
}
use nachos_lab.Base.Int.{pos}
use nachos_lab.ThreadTest.{
  Shared, increment, decrement, claims, enters, changes, leaves, signals, Worker, producer,
  consumer, produce, consume, run_worker, IsNew, Reachable, begin, later,
}

-- The sum over the threads.
unfoldable pub total : (Worker → ℕ) → List Worker → ℕ
total f [] = 0
total f (w ∷ ws) = f w + total f ws

pub total-insert :
    (f : Worker → ℕ) (before after : List Worker) (w : Worker)
    → total f (before ++ w ∷ after) ≡ f w + total f (before ++ after)
unfolding total
total-insert f [] after w = refl
total-insert f (x ∷ before) after w = omega (arith, total-insert f before after w)

pub total-le :
    (f g : Worker → ℕ) (ws : List Worker) → ((w : Worker) → f w ≤ g w) → total f ws ≤ total g ws
unfolding total
total-le f g [] h = omega arith
total-le f g (w ∷ ws) h = omega (arith, h w, total-le f g ws h)

-- One for a thread that has come through its first P and not to its last V.
abbrev pub claimed : Worker → ℕ
claimed (producer claims loop) = 0
claimed (producer enters loop) = 1
claimed (producer changes loop) = 1
claimed (producer leaves loop) = 1
claimed (producer signals loop) = 1
claimed (consumer claims loop) = 0
claimed (consumer enters loop) = 1
claimed (consumer changes loop) = 1
claimed (consumer leaves loop) = 1
claimed (consumer signals loop) = 1

-- One for a thread that has `mutex`.
abbrev pub inside : Worker → ℕ
inside (producer claims loop) = 0
inside (producer enters loop) = 0
inside (producer changes loop) = 1
inside (producer leaves loop) = 1
inside (producer signals loop) = 0
inside (consumer claims loop) = 0
inside (consumer enters loop) = 0
inside (consumer changes loop) = 1
inside (consumer leaves loop) = 1
inside (consumer signals loop) = 0

-- One for an item that `full` does not count: it is there and not signalled, or claimed and still there.
abbrev pub uncounted : Worker → ℕ
uncounted (producer claims loop) = 0
uncounted (producer enters loop) = 0
uncounted (producer changes loop) = 0
uncounted (producer leaves loop) = 1
uncounted (producer signals loop) = 1
uncounted (consumer claims loop) = 0
uncounted (consumer enters loop) = 1
uncounted (consumer changes loop) = 1
uncounted (consumer leaves loop) = 0
uncounted (consumer signals loop) = 0

-- What the semaphores and `itemnum` count, where the sums over the threads are given.
pub record Counts (claimed_ inside_ uncounted_ : ℕ) (s : Shared) : Type 0 where
  pub places : s.empty + s.full + claimed_ ≡ 10
  pub one : s.mutex + inside_ ≡ 1
  pub items : s.itemnum ≡ pos (s.full + uncounted_)

moved :
    {x y : Worker × Shared} (c i u : ℕ)
    → Counts (claimed x.0 + c) (inside x.0 + i) (uncounted x.0 + u) x.1
    → some x ≡ some y
    → Counts (claimed y.0 + c) (inside y.0 + i) (uncounted y.0 + u) y.1
moved {x} {y} c i u k e =
    let q : x ≡ y = cc in
    subst
      (λ (p : Worker × Shared). Counts (claimed p.0 + c) (inside p.0 + i) (uncounted p.0 + u) p.1) q
      k

-- What a test lets through.
pub guarded :
    {b : Bool} {x y : Worker × Shared}
    → (if b then some x else none) ≡ some y
    → (b ≡ true) × (some x ≡ some y)
guarded {b = true} e = (refl, e)
guarded {b = false} e = absurd (cc)

-- A statement of a thread, where the sums over the other threads are given.
run_worker-Counts :
    (w w' : Worker) (s s' : Shared) (c i u : ℕ)
    → Counts (claimed w + c) (inside w + i) (uncounted w + u) s
    → run_worker w s ≡ some (w', s')
    → Counts (claimed w' + c) (inside w' + i) (uncounted w' + u) s'
unfolding run_worker produce consume
run_worker-Counts (producer claims loop) w' s s' c i u k e =
    let (go, q) = guarded e in
    moved c i u record { places = ground (arith, go, k.places); one = k.one; items = k.items } q
run_worker-Counts (producer enters loop) w' s s' c i u k e =
    let (go, q) = guarded e in
    moved c i u record { places = k.places; one = ground (arith, go, k.one); items = k.items } q
run_worker-Counts (producer changes loop) w' s s' c i u k e =
    moved c i u
      record { places = k.places; one = k.one; items = ap increment k.items ∙ ap pos (omega arith) }
      e
run_worker-Counts (producer leaves loop) w' s s' c i u k e =
    moved c i u record { places = k.places; one = omega (arith, k.one); items = k.items } e
run_worker-Counts (producer signals loop) w' s s' c i u k e =
    moved c i u
      record {
        places = omega (arith, k.places);
        one = k.one;
        items = k.items ∙ ap pos (omega arith);
      }
      e
run_worker-Counts (consumer claims loop) w' s s' c i u k e =
    let (go, q) = guarded e in
    moved c i u
      record {
        places = ground (arith, go, k.places);
        one = k.one;
        items = k.items ∙ ap pos (ground (arith, go));
      }
      q
run_worker-Counts (consumer enters loop) w' s s' c i u k e =
    let (go, q) = guarded e in
    moved c i u record { places = k.places; one = ground (arith, go, k.one); items = k.items } q
run_worker-Counts (consumer changes loop) w' s s' c i u k e =
    let one_more : s.full + (1 + u) ≡ suc (s.full + u) = omega arith in
    let same : s.full + u ≡ s.full + (0 + u) = omega arith in
    moved c i u
      record {
        places = k.places;
        one = k.one;
        items = ap decrement (k.items ∙ ap pos one_more) ∙ ap pos same;
      }
      e
run_worker-Counts (consumer leaves loop) w' s s' c i u k e =
    moved c i u record { places = k.places; one = omega (arith, k.one); items = k.items } e
run_worker-Counts (consumer signals loop) w' s s' c i u k e =
    moved c i u record { places = omega (arith, k.places); one = k.one; items = k.items } e

-- The sums over the threads, where one of them is apart.
apart :
    (before after : List Worker) (w : Worker) (s : Shared)
    → Counts
        (total claimed (before ++ w ∷ after))
        (total inside (before ++ w ∷ after))
        (total uncounted (before ++ w ∷ after))
        s
      ≡ Counts
          (claimed w + total claimed (before ++ after))
          (inside w + total inside (before ++ after))
          (uncounted w + total uncounted (before ++ after))
          s
apart before after w s =
    rw
      (
        total-insert claimed before after w,
        total-insert inside before after w,
        total-insert uncounted before after w,
      )
      refl

new-total :
    (f : Worker → ℕ) (ws : List Worker)
    → f (producer claims 1) ≡ 0
    → f (consumer claims 1) ≡ 0
    → All IsNew ws
    → total f ws ≡ 0
unfolding total
new-total f [] p c h = refl
new-total f (w ∷ ws) p c (inl e, h) = omega (arith, ap f e, p, new-total f ws p c h)
new-total f (w ∷ ws) p c (inr e, h) = omega (arith, ap f e, c, new-total f ws p c h)

pub Reachable-Counts :
    {ws : List Worker} {s : Shared}
    → Reachable ws s
    → Counts (total claimed ws) (total inside ws) (total uncounted ws) s
Reachable-Counts (begin ws h) =
    let none_claimed = new-total claimed ws refl refl h in
    let none_inside = new-total inside ws refl refl h in
    let none_uncounted = new-total uncounted ws refl refl h in
    record {
      places = omega (arith, none_claimed);
      one = omega (arith, none_inside);
      items = ap pos (omega (arith, none_uncounted));
    }
Reachable-Counts (later {s} {s'} before after w w' r e) =
    subst (λ (A : Type 0). A) (sym (apart before after w' s'))
      (run_worker-Counts w w' s s' (total claimed (before ++ after))
        (total inside (before ++ after)) (total uncounted (before ++ after))
        (subst (λ (A : Type 0). A) (apart before after w s) (Reachable-Counts r)) e)

-- What is uncounted is claimed.
pub uncounted-le : (w : Worker) → uncounted w ≤ claimed w
uncounted-le (producer claims loop) = omega arith
uncounted-le (producer enters loop) = omega arith
uncounted-le (producer changes loop) = omega arith
uncounted-le (producer leaves loop) = omega arith
uncounted-le (producer signals loop) = omega arith
uncounted-le (consumer claims loop) = omega arith
uncounted-le (consumer enters loop) = omega arith
uncounted-le (consumer changes loop) = omega arith
uncounted-le (consumer leaves loop) = omega arith
uncounted-le (consumer signals loop) = omega arith

-- In every state that any number of producers and consumers can reach, in any order of their
-- statements: `itemnum` is between 0 and 10, and at most one thread is between the P and the V of
-- `mutex`.
pub buffer_bounded :
    {ws : List Worker} {s : Shared}
    → Reachable ws s
    → ((n : ℕ) × (s.itemnum ≡ pos n) × (n ≤ 10)) × (total inside ws ≤ 1)
buffer_bounded {ws} {s} r =
    let k = Reachable-Counts r in
    (
      (
        s.full + total uncounted ws,
        k.items,
        omega (arith, k.places, total-le uncounted claimed ws uncounted-le),
      ),
      omega (arith, k.one),
    )
