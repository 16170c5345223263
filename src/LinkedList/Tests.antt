-- ===== src/LinkedList/Tests.antt =====
-- Runs of the linked list, and its theorems at a list of two elements.
use nachos_lab.Base.{
  ℕ, ◌+◌, ◌≡◌, refl, List, [], ◌∷◌, ◌++◌, ◌==◌, if◌then◌else◌, arith, none, some, ok, err, hang,
}
use mathlib.Core.List.{Perm}
use nachos_lab.Base.Int.{pos}
use nachos_lab.LinkedList.{
  LinkedList, append, prepend, sorted_insert, sorted_remove, destroy, mapcar, get_list_length,
}
use nachos_lab.LinkedList.Chain.{Cell, Represents}
use nachos_lab.LinkedList.Queue.{
  new_cell, append-Represents, prepend-Represents, sorted_remove-cons,
}
use nachos_lab.LinkedList.Sorted.{
  insert, IsSorted, sorted_insert-Represents, sorted_insert-IsSorted,
}
use nachos_lab.LinkedList.Walk.{
  fold_items, destroy-Represents, mapcar-fold_items, get_list_length-hangs,
}

-- The items 10 and 11 with the keys 3 and 5, at the addresses 0 and 1.
abbrev two : LinkedList ℕ
two = record {
  first = some 0;
  last = some 1;
  heap = λ p.
      if p == 0
      then record { next = some 1; key = pos 3; item = 10 }
      else record { next = none; key = pos 5; item = 11 };
  fresh = 2;
}

abbrev ten : Cell ℕ
ten = record { at_ = 0; key = pos 3; item = 10 }

abbrev eleven : Cell ℕ
eleven = record { at_ = 1; key = pos 5; item = 11 }

two-Represents : Represents two (ten ∷ eleven ∷ [])
two-Represents = record {
  chain = (refl, (refl, refl), (refl, (refl, refl), refl));
  last = refl;
  distinct = ((omega arith, tt), (tt, tt));
  below = (omega arith, (omega arith, tt));
  short = omega arith;
}

tests_append-Represents :
    (s' : LinkedList ℕ) × (append two 12 ≡ ok s')
    × Represents s' ((ten ∷ eleven ∷ []) ++ new_cell two 12 (pos 0) ∷ [])
tests_append-Represents = append-Represents two (ten ∷ eleven ∷ []) 12 two-Represents

tests_prepend-Represents :
    (s' : LinkedList ℕ) × (prepend two 12 ≡ ok s')
    × Represents s' (new_cell two 12 (pos 0) ∷ ten ∷ eleven ∷ [])
tests_prepend-Represents = prepend-Represents two (ten ∷ eleven ∷ []) 12 two-Represents

tests_sorted_remove_cons :
    (s' : LinkedList ℕ) × (sorted_remove two ≡ ok (some (10, pos 3), s'))
    × Represents s' (eleven ∷ [])
tests_sorted_remove_cons = sorted_remove-cons two ten (eleven ∷ []) two-Represents

sorted_insert-Represents_example :
    (s' : LinkedList ℕ) × (sorted_insert two 12 (pos 4) ≡ ok s')
    × Represents s' (insert (new_cell two 12 (pos 4)) (ten ∷ eleven ∷ []))
sorted_insert-Represents_example =
    sorted_insert-Represents two (ten ∷ eleven ∷ []) 12 (pos 4) two-Represents

tests_sorted_insert-IsSorted :
    (s' : LinkedList ℕ) × (ds : List (Cell ℕ)) × (sorted_insert two 12 (pos 4) ≡ ok s')
    × Represents s' ds
    × IsSorted ds
    × Perm ds (new_cell two 12 (pos 4) ∷ ten ∷ eleven ∷ [])
tests_sorted_insert-IsSorted =
    sorted_insert-IsSorted two (ten ∷ eleven ∷ []) 12 (pos 4) two-Represents (refl, tt)

tests_destroy-Represents : (s' : LinkedList ℕ) × (destroy 3 two ≡ ok s') × Represents s' []
tests_destroy-Represents = destroy-Represents 3 two (ten ∷ eleven ∷ []) two-Represents (omega arith)

tests_mapcar-fold_items :
    mapcar 2 (λ t n. t + n) 0 two (some 0) ≡ ok (fold_items (λ t n. t + n) 0 (ten ∷ eleven ∷ []))
tests_mapcar-fold_items = mapcar-fold_items (λ t n. t + n) 0 two (ten ∷ eleven ∷ []) two-Represents

tests_get_list_length_hangs : get_list_length 100 two ≡ err hang
tests_get_list_length_hangs = get_list_length-hangs 100 two ten eleven [] two-Represents
