-- ===== src/Machine/Tlb/Oldest.antt =====
-- What `tlbflag` of code/machine/machine.cc counts: how long ago an entry was last used or filled.
use nachos_lab.Base.{
  ℕ, zero, suc, ◌+◌, ◌-◌, ◌≤◌, ◌<◌, ◌≡◌, ◌≢◌, refl, arith, List, [], ◌∷◌, length, get_or, set, ltb,
  ◌==◌, if◌then◌else◌, ok, Bool-cases, inl, inr, get_or-set_self, get_or-set_ne, length-set, put-ok,
}
use nachos_lab.Machine.Tlb.{tlb_size, init_flags, swap_tlb, hit_tlb}

-- At time `now`, with the times of the last uses.
pub record IsAge (now : ℕ) (used : ℕ → ℕ) (flags : List ℕ) : Type 0 where
  pub size : length flags ≡ tlb_size
  pub age : (i : ℕ) → i < tlb_size → get_or flags i 0 + used i ≡ now

-- One entry is used at a time.
abbrev pub use_at : (ℕ → ℕ) → ℕ → ℕ → ℕ → ℕ
use_at used entry now i = if i == entry then now else used i

-- The place of the greatest of four flags, the first of them.
greatest : ℕ → ℕ → ℕ → ℕ → ℕ
greatest a b c d =
    if ltb a b
    then (if ltb b c then (if ltb c d then 3 else 2) else (if ltb b d then 3 else 1))
    else (if ltb a c then (if ltb c d then 3 else 2) else (if ltb a d then 3 else 0))

swap-greatest :
    (a b c d : ℕ)
    → swap_tlb (a ∷ b ∷ c ∷ d ∷ [])
      ≡ ok (greatest a b c d, set ((a + 1) ∷ (b + 1) ∷ (c + 1) ∷ (d + 1) ∷ []) (greatest a b c d) 0)
unfolding swap_tlb greatest
swap-greatest a b c d = ground arith

greatest-le :
    (a b c d j : ℕ)
    → get_or (a ∷ b ∷ c ∷ d ∷ []) j 0 ≤ get_or (a ∷ b ∷ c ∷ d ∷ []) (greatest a b c d) 0
unfolding greatest
greatest-le a b c d zero = ground arith
greatest-le a b c d (suc zero) = ground arith
greatest-le a b c d (suc (suc zero)) = ground arith
greatest-le a b c d (suc (suc (suc zero))) = ground arith
greatest-le a b c d (suc (suc (suc (suc j)))) = omega arith

greatest-lt : (a b c d : ℕ) → greatest a b c d < tlb_size
unfolding greatest
greatest-lt a b c d = ground arith

-- The flags after the loop of either call.
abbrev older : ℕ → ℕ → ℕ → ℕ → List ℕ
older a b c d = (a + 1) ∷ (b + 1) ∷ (c + 1) ∷ (d + 1) ∷ []

older-age :
    (a b c d j now : ℕ) (used : ℕ → ℕ)
    → j < tlb_size
    → get_or (a ∷ b ∷ c ∷ d ∷ []) j 0 + used j ≡ now
    → get_or (older a b c d) j 0 + used j ≡ now + 1
older-age a b c d zero now used h e = omega arith
older-age a b c d (suc zero) now used h e = omega arith
older-age a b c d (suc (suc zero)) now used h e = omega arith
older-age a b c d (suc (suc (suc zero))) now used h e = omega arith
older-age a b c d (suc (suc (suc (suc j)))) now used h e = absurd (omega arith)

module _ (a b c d now : ℕ) (used : ℕ → ℕ) (i : IsAge now used (a ∷ b ∷ c ∷ d ∷ [])) where
  -- An entry is used, at the next time.
  set-IsAge :
      (entry : ℕ)
      → entry < tlb_size
      → IsAge (now + 1) (use_at used entry (now + 1)) (set (older a b c d) entry 0)
  set-IsAge entry h = record {
    size = length-set (older a b c d) entry 0;
    age = λ j l. elim (Bool-cases (j == entry)) [
      | inl e ↦
          let q : j ≡ entry = ground arith in
          rw (e, q, get_or-set_self (older a b c d) entry 0 0 h) (omega arith)
      | inr n ↦
          let q : entry ≢ j = λ r. ground arith in
          rw (n, get_or-set_ne (older a b c d) entry j 0 0 q)
            (older-age a b c d j now used l (i.age j l))
    ];
  }

  four-oldest :
      (victim : ℕ) × (flags' : List ℕ) × (swap_tlb (a ∷ b ∷ c ∷ d ∷ []) ≡ ok (victim, flags'))
      × (victim < tlb_size)
      × ((j : ℕ) → j < tlb_size → used victim ≤ used j)
      × IsAge (now + 1) (use_at used victim (now + 1)) flags'
  four-oldest =
      let victim = greatest a b c d in
      let inside = greatest-lt a b c d in
      (
        victim,
        set (older a b c d) victim 0,
        swap-greatest a b c d,
        inside,
        λ j l. omega (arith, i.age victim inside, i.age j l, greatest-le a b c d j),
        set-IsAge victim inside,
      )

four-hit :
    (a b c d entry : ℕ)
    → entry < tlb_size
    → hit_tlb (a ∷ b ∷ c ∷ d ∷ []) entry ≡ ok (set (older a b c d) entry 0)
unfolding hit_tlb
four-hit a b c d entry h = put-ok (older a b c d) entry 0 h

-- Swaptlb, where the flags count the time since each entry was last used: it gives the entry whose last
-- use is the longest ago, and the flags count the time again, with that entry used now.
pub swap_tlb-oldest :
    (now : ℕ) (used : ℕ → ℕ) (flags : List ℕ)
    → IsAge now used flags
    → (victim : ℕ) × (flags' : List ℕ) × (swap_tlb flags ≡ ok (victim, flags'))
      × (victim < tlb_size)
      × ((j : ℕ) → j < tlb_size → used victim ≤ used j)
      × IsAge (now + 1) (use_at used victim (now + 1)) flags'
swap_tlb-oldest now used (a ∷ b ∷ c ∷ d ∷ []) i = four-oldest a b c d now used i
swap_tlb-oldest now used [] i = absurd (omega (arith, i.size))
swap_tlb-oldest now used (a ∷ []) i = absurd (omega (arith, i.size))
swap_tlb-oldest now used (a ∷ b ∷ []) i = absurd (omega (arith, i.size))
swap_tlb-oldest now used (a ∷ b ∷ c ∷ []) i = absurd (omega (arith, i.size))
swap_tlb-oldest now used (a ∷ b ∷ c ∷ d ∷ e ∷ r) i = absurd (omega (arith, i.size))

-- Hittlb: the flags count the time, with the entry used now.
pub hit_tlb-IsAge :
    (now : ℕ) (used : ℕ → ℕ) (flags : List ℕ) (entry : ℕ)
    → entry < tlb_size
    → IsAge now used flags
    → (flags' : List ℕ) × (hit_tlb flags entry ≡ ok flags')
      × IsAge (now + 1) (use_at used entry (now + 1)) flags'
hit_tlb-IsAge now used (a ∷ b ∷ c ∷ d ∷ []) entry h i =
    (set (older a b c d) entry 0, four-hit a b c d entry h, set-IsAge a b c d now used i entry h)
hit_tlb-IsAge now used [] entry h i = absurd (omega (arith, i.size))
hit_tlb-IsAge now used (a ∷ []) entry h i = absurd (omega (arith, i.size))
hit_tlb-IsAge now used (a ∷ b ∷ []) entry h i = absurd (omega (arith, i.size))
hit_tlb-IsAge now used (a ∷ b ∷ c ∷ []) entry h i = absurd (omega (arith, i.size))
hit_tlb-IsAge now used (a ∷ b ∷ c ∷ d ∷ e ∷ r) entry h i = absurd (omega (arith, i.size))

-- At the start, entry 0 counts as the one used last.
pub init_flags-IsAge : IsAge 3 (λ i. 3 - i) (init_flags tlb_size 0)
unfolding init_flags
init_flags-IsAge = record { size = refl; age = start }
  where
    start : (i : ℕ) → i < 4 → get_or (0 ∷ 1 ∷ 2 ∷ 3 ∷ []) i 0 + (3 - i) ≡ 3
    start zero h = omega arith
    start (suc zero) h = omega arith
    start (suc (suc zero)) h = omega arith
    start (suc (suc (suc zero))) h = omega arith
    start (suc (suc (suc (suc i)))) h = absurd (omega arith)
