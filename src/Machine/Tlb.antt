-- ===== src/Machine/Tlb.antt =====
-- The replacement in the translation buffer: Swaptlb and Hittlb of code/machine/machine.cc, over
-- `tlbflag`.
pub mod Oldest
mod Tests
use nachos_lab.Base.{
  ℕ, zero, suc, ◌+◌, List, [], ◌∷◌, ltb, if◌then◌else◌, Result, ok, ◌>>=◌, fetch, put,
}

abbrev pub tlb_size : ℕ
tlb_size = 4

-- The constructor of Machine: `tlbflag[i] = i`, from `i` with `n` rounds left.
unfoldable pub init_flags : ℕ → ℕ → List ℕ
init_flags zero i = []
init_flags (suc n) i = i ∷ init_flags n (i + 1)

-- The loop of Swaptlb, from `i` with `n` rounds left.
unfoldable pub swap_loop : ℕ → ℕ → ℕ → List ℕ → Result (ℕ × List ℕ)
swap_loop zero i max flags = ok (max, flags)
swap_loop (suc n) i max flags = do
  old ← fetch flags i
  flags' ← put flags i (old + 1)
  here ← fetch flags' i
  most ← fetch flags' max
  swap_loop n (i + 1) (if ltb most here then i else max) flags'

-- The entry to use, with the flags after the call.
unfoldable pub swap_tlb : List ℕ → Result (ℕ × List ℕ)
unfolding swap_loop
swap_tlb flags = do
  (max, flags') ← swap_loop tlb_size 0 0 flags
  flags'' ← put flags' max 0
  ok (max, flags'')

-- The loop of Hittlb.
unfoldable pub hit_loop : ℕ → ℕ → List ℕ → Result (List ℕ)
hit_loop zero i flags = ok flags
hit_loop (suc n) i flags = do
  old ← fetch flags i
  flags' ← put flags i (old + 1)
  hit_loop n (i + 1) flags'

unfoldable pub hit_tlb : List ℕ → ℕ → Result (List ℕ)
unfolding hit_loop
hit_tlb flags hit = do flags' ← hit_loop tlb_size 0 flags; put flags' hit 0
