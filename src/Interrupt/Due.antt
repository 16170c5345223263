-- ===== src/Interrupt/Due.antt =====
-- The loop of OneTick in code/machine/interrupt.cc: it ends, and no interrupt that is due is left.
use nachos_lab.Base.{
  ℕ, zero, suc, ◌+◌, ◌≤◌, ◌<◌, ◌≡◌, ◌≢◌, refl, ◌∙◌, sym, subst, arith, Bool, true, false, List, [],
  ◌∷◌, ltb, leb, All, Bool-cases, inl, inr, Error, hang, Result, ok, err, ◌>>=◌, if◌then◌else◌,
}
use nachos_lab.Interrupt.{
  PendingInterrupt, Interrupt, system_mode, sorted_insert, fire, fire_unless_done, check_first,
  check_if_due, due_loop, is_idle, is_off,
}
use nachos_lab.Interrupt.Time.{IsSorted, All-sorted_insert, All-imp}

-- The run comes to an end, and where it succeeds, `P` holds of its result.
pub data Ends {X : Type 0} (P : X → Type 0) : Result X → Type 0 where
  ends : {x : X} → P x → Ends P (ok x)
  stops : {e : Error} → e ≢ hang → Ends P (err e)

pub Ends->>= :
    {X Y : Type 0} {P : X → Type 0} {Q : Y → Type 0} {first : Result X} {rest : X → Result Y}
    → Ends P first
    → ((x : X) → P x → Ends Q (rest x))
    → Ends Q (first >>= rest)
Ends->>= (ends {x} p) q = q x p
Ends->>= (stops e) q = stops e

-- How many interrupts are due at a time.
unfoldable pub due : ℕ → List PendingInterrupt → ℕ
due now [] = 0
due now (p ∷ ps) = (if leb p.when now then 1 else 0) + due now ps

-- What a handler may do: it changes neither the clock nor the level, and any interrupt that it adds is
-- for a later time.
pub record IsHandled (s s' : Interrupt) : Type 0 where
  pub level : is_off s'.level ≡ is_off s.level
  pub clock : s'.total_ticks ≡ s.total_ticks
  pub sorted : IsSorted s'.pending
  pub fewer : due s'.total_ticks s'.pending ≤ due s.total_ticks s.pending

pub due-sorted_insert :
    (now : ℕ) (n : PendingInterrupt) (ps : List PendingInterrupt)
    → now < n.when
    → due now (sorted_insert n ps) ≡ due now ps
unfolding due
due-sorted_insert now n [] h = ground arith
due-sorted_insert now n (p ∷ ps) h = elim (Bool-cases (ltb n.when p.when)) [
  | inl e ↦ rw e (ground arith)
  | inr e ↦ rw e (omega (arith, due-sorted_insert now n ps h))
]

-- The loop's state: interrupts are off, the machine does not idle, and the list is in order.
pub record IsLooping (s : Interrupt) : Type 0 where
  pub level : is_off s.level ≡ true
  pub busy : is_idle s.status ≡ false
  pub sorted : IsSorted s.pending

abbrev pub AllLater : Interrupt → Type 0
AllLater s = All (λ q. s.total_ticks < q.when) s.pending

-- After one call of CheckIfDue.
abbrev Checked : {World : Type 0} → Interrupt → Bool × Interrupt × World → Type 0
Checked s (true, s1, w) =
    IsLooping s1
    × (s1.total_ticks ≡ s.total_ticks)
    × (due s1.total_ticks s1.pending + 1 ≤ due s.total_ticks s.pending)
Checked s (false, s1, w) = (s1.total_ticks ≡ s.total_ticks) × AllLater s1

module _ {World : Type 0} (call : PendingInterrupt → Interrupt → World → Result (Interrupt × World))
    (yield : Interrupt → World → Result (Interrupt × World))
    (call-IsHandled : (p : PendingInterrupt) (s : Interrupt) (w : World)
      → IsSorted s.pending
      → Ends (λ r. IsHandled s r.0) (call p s w)) where
  fire-Checked :
      (p : PendingInterrupt) (ps : List PendingInterrupt) (s : Interrupt) (w : World)
      → IsLooping s
      → s.pending ≡ p ∷ ps
      → p.when ≤ s.total_ticks
      → Ends (Checked s) (fire call yield p (record s { pending = ps }) w)
  unfolding fire due
  fire-Checked p ps s w l e now =
      let (later, sorted) = subst IsSorted e l.sorted in
      let here : leb p.when s.total_ticks ≡ true = ground arith in
      Ends->>=
        (call-IsHandled p (record s { pending = ps; in_handler = true; status = system_mode }) w
          sorted)
        (λ r h. ends (
          record { level = h.level ∙ l.level; busy = l.busy; sorted = h.sorted },
          h.clock,
          subst (λ qs. due r.0.total_ticks r.0.pending + 1 ≤ due s.total_ticks qs) (sym e)
              (ground (arith, h.fewer)),
        ))

  fire_unless_done-Checked :
      (p : PendingInterrupt) (ps : List PendingInterrupt) (s : Interrupt) (w : World)
      → IsLooping s
      → s.pending ≡ p ∷ ps
      → p.when ≤ s.total_ticks
      → Ends (Checked s) (fire_unless_done call yield p ps s w)
  unfolding fire_unless_done
  fire_unless_done-Checked p ps s w l e now = rw l.busy (fire-Checked p ps s w l e now)

  -- The first interrupt is due, or none is.
  check_first-Checked :
      (p : PendingInterrupt) (ps : List PendingInterrupt) (s : Interrupt) (w : World)
      → IsLooping s
      → s.pending ≡ p ∷ ps
      → Ends (Checked s) (check_first call yield false p ps s w)
  unfolding check_first
  check_first-Checked p ps s w l e = elim (Bool-cases (ltb s.total_ticks p.when)) [
    | inl future ↦
        let (later, sorted) = subst IsSorted e l.sorted in
        let h : s.total_ticks < p.when = ground arith in
        rw future (
          ends (
            refl,
            All-sorted_insert (λ q. s.total_ticks < q.when) p ps h
                (All-imp (λ q. p.when ≤ q.when) (λ q. s.total_ticks < q.when) ps
                  (λ q g. omega arith) later),
          ))
    | inr now ↦ rw now (fire_unless_done-Checked p ps s w l e (ground arith))
  ]

  check_if_due-Checked :
      (s : Interrupt) (w : World)
      → IsLooping s
      → Ends (Checked s) (check_if_due call yield false s w)
  unfolding check_if_due
  check_if_due-Checked s w l = rw l.level (first s.pending refl)
    where
      first :
          (ps : List PendingInterrupt)
          → s.pending ≡ ps
          → Ends {X = Bool × Interrupt × World} (Checked s) (elim ps [
            | [] ↦ ok (false, s, w)
            | p ∷ rest ↦ check_first call yield false p rest s w
          ])
      first [] e = ends (refl, rw e tt)
      first (p ∷ rest) e = check_first-Checked p rest s w l e

  -- The loop of a machine that does not idle, with interrupts off and the pending list in order, and where
  -- every handler comes to an end, keeps the clock and adds interrupts for later times only: it ends,
  -- with as many rounds as interrupts are due and one more, and leaves no interrupt that is due.
  pub due_loop-AllLater :
      (n : ℕ) (s : Interrupt) (w : World)
      → IsLooping s
      → due s.total_ticks s.pending < n
      → Ends (λ r. (r.0.total_ticks ≡ s.total_ticks) × AllLater r.0) (due_loop call yield n s w)
  unfolding due_loop
  due_loop-AllLater zero s w l h = absurd (omega arith)
  due_loop-AllLater (suc n) s w l h =
      Ends->>= (check_if_due-Checked s w l)
        (λ (fired, s1, w1) c. next fired s1 w1 c (λ l1 fewer. due_loop-AllLater n s1 w1 l1 fewer))
    where
      next :
          (fired : Bool) (s1 : Interrupt) (w1 : World)
          → Checked s (fired, s1, w1)
          → (IsLooping s1
              → due s1.total_ticks s1.pending < n
              → Ends
                  (λ r. (r.0.total_ticks ≡ s1.total_ticks) × AllLater r.0)
                  (due_loop call yield n s1 w1))
          → Ends
              (λ r. (r.0.total_ticks ≡ s.total_ticks) × AllLater r.0)
              (if fired then due_loop call yield n s1 w1 else ok (s1, w1))
      next true s1 w1 (l1, same, fewer) again = rw (← same) (again l1 (omega (arith, fewer, h)))
      next false s1 w1 (same, later) again = ends (same, later)
