-- ===== src/AddrSpace/State.antt =====
-- A switch of threads keeps the registers of a user program: SaveUserState and RestoreUserState of
-- code/threads/thread.cc.
use nachos_lab.Base.{
  ℕ, ◌+◌, ◌<◌, ◌≡◌, refl, sym, ◌∙◌, ap, subst, arith, List, [], ◌∷◌, ◌++◌, length, length-append,
  set, get_elem?, some, ok, put-ok,
}
use mathlib.Core.List.{append_assoc}
use nachos_lab.Machine.{Machine, read_register, write_register}
use nachos_lab.AddrSpace.{save_from, restore_from, save_user_state, restore_user_state}

set-middle :
    (before after : List ℕ) (x v : ℕ)
    → set (before ++ x ∷ after) (length before) v ≡ before ++ v ∷ after
set-middle [] after x v = refl
set-middle (b ∷ before) after x v = ap (λ (r : List ℕ). b ∷ r) (set-middle before after x v)

get_elem?-middle :
    (before after : List ℕ) (x : ℕ) → get_elem? (before ++ x ∷ after) (length before) ≡ some x
get_elem?-middle [] after x = refl
get_elem?-middle (b ∷ before) after x = get_elem?-middle before after x

length-snoc : (before : List ℕ) (x : ℕ) → length (before ++ x ∷ []) ≡ length before + 1
length-snoc before x = length-append before (x ∷ [])

-- The loop saves the registers from `i` on.
save_from-suffix :
    (before after : List ℕ) (m : Machine)
    → save_from (length after) (length before) (record m { registers = before ++ after }) ≡ ok after
unfolding save_from read_register
save_from-suffix before [] m = refl
save_from-suffix before (x ∷ after) m =
    let next = before ++ x ∷ [] in
    let split : next ++ after ≡ before ++ x ∷ after = append_assoc before (x ∷ []) after in
    let rest : save_from (length after) (length before + 1)
          (record m { registers = before ++ x ∷ after })
        ≡ ok after =
      subst
        (λ (n : ℕ).
          save_from (length after) n (record m { registers = before ++ x ∷ after }) ≡ ok after)
        (length-snoc before x)
        (subst
          (λ (r : List ℕ).
            save_from (length after) (length next) (record m { registers = r }) ≡ ok after)
          split (save_from-suffix next after m)) in
    rw (get_elem?-middle before after x) (rw rest refl)

-- The loop writes over the registers from `i` on.
restore_from-suffix :
    (before old new : List ℕ) (m : Machine)
    → length old ≡ length new
    → restore_from (length before) new (record m { registers = before ++ old })
      ≡ ok (record m { registers = before ++ new })
unfolding restore_from write_register
restore_from-suffix before [] [] m l = refl
restore_from-suffix before (x ∷ old) [] m l = absurd (omega arith)
restore_from-suffix before [] (y ∷ new) m l = absurd (omega arith)
restore_from-suffix before (x ∷ old) (y ∷ new) m l =
    let inside : length before < length (before ++ x ∷ old) =
      omega (arith, length-append before (x ∷ old)) in
    let next = before ++ y ∷ [] in
    let rest : restore_from (length before + 1) new (record m { registers = before ++ y ∷ old })
        ≡ ok (record m { registers = before ++ y ∷ new }) =
      subst
        (λ (n : ℕ).
          restore_from n new (record m { registers = before ++ y ∷ old })
          ≡ ok (record m { registers = before ++ y ∷ new }))
        (length-snoc before y)
        (subst
          (λ (r : List ℕ).
            restore_from (length next) new (record m { registers = r })
            ≡ ok (record m { registers = before ++ y ∷ new }))
          (append_assoc before (y ∷ []) old)
          (subst
            (λ (r : List ℕ).
              restore_from (length next) new (record m { registers = next ++ old })
              ≡ ok (record m { registers = r }))
            (append_assoc before (y ∷ []) new)
            (restore_from-suffix next old new m (omega arith)))) in
    rw (put-ok (before ++ x ∷ old) (length before) y inside) (rw (set-middle before old x y) rest)

-- What SaveUserState keeps, RestoreUserState puts back, whatever the machine has done in between: all
-- forty registers are as they were, and nothing else changes.
pub restore-save_user_state :
    (m m' : Machine)
    → length m.registers ≡ 40
    → length m'.registers ≡ 40
    → (save_user_state m ≡ ok m.registers)
      × (restore_user_state m.registers m' ≡ ok (record m' { registers = m.registers }))
unfolding save_user_state restore_user_state
restore-save_user_state m m' h h' = (
  subst (λ (n : ℕ). save_from n 0 m ≡ ok m.registers) h (save_from-suffix [] m.registers m),
  restore_from-suffix [] m'.registers m.registers m' (h' ∙ sym h),
)
