-- ===== src/LinkedList.antt =====
-- code/threads/list.cc and list.h: the singly linked list, over a heap of ListElements. A pointer is
-- an Option: `none` is NULL, and a dereference of it is `err wild`. `fresh` is the address that the
-- next `new ListElement` gets; `delete` leaves an element that nothing points to.
pub mod Chain
pub mod Queue
pub mod Sorted
pub mod Walk
mod Tests
use nachos_lab.Base.{
  ℕ, zero, suc, ◌+◌, ◌==◌, Bool, true, false, Option, none, some, Result, ok, err, hang, ◌>>=◌,
  ◌>>◌, or_wild, if◌then◌else◌,
}
use nachos_lab.Base.Int.{ℤ, pos, int_ltb}

module _ (A : Type 0) where
  pub record ListElement : Type 0 where
    pub next : Option ℕ
    pub key : ℤ
    pub item : A

  pub record LinkedList : Type 0 where
    pub first : Option ℕ
    pub last : Option ℕ
    pub heap : ℕ → ListElement
    pub fresh : ℕ

abbrev pub same_pointer : Option ℕ → Option ℕ → Bool
same_pointer none none = true
same_pointer (some p) (some q) = p == q
same_pointer none (some q) = false
same_pointer (some p) none = false

-- The loop of GetListLength, which does not move `p`: at most `n` rounds.
pub length_loop : ℕ → Option ℕ → Option ℕ → ℕ → Result ℕ
length_loop zero p last i = if same_pointer p last then ok i else err hang
length_loop (suc n) p last i =
    let rest = length_loop n p last (i + 1) in if same_pointer p last then ok i else rest

module _ {A : Type 0} where
  abbrev pub store : (ℕ → ListElement A) → ℕ → ListElement A → ℕ → ListElement A
  store h p e q = if p == q then e else h q

  -- `*p = e` for a member of the element, `p->...`.
  abbrev pub load : LinkedList A → Option ℕ → Result (ListElement A)
  load s p = do a ← or_wild p; ok (s.heap a)

  abbrev pub set_next : LinkedList A → Option ℕ → Option ℕ → Result (LinkedList A)
  set_next s p next = do
    a ← or_wild p
    ok (record s { heap = store s.heap a (record (s.heap a) { next = next }) })

  -- List::List; the heap holds whatever it held before.
  pub init : (ℕ → ListElement A) → ℕ → LinkedList A
  init heap fresh = record { first = none; last = none; heap = heap; fresh = fresh }

  -- `new ListElement(item, key)`
  pub new_element : LinkedList A → A → ℤ → ℕ × LinkedList A
  new_element s item key = (
    s.fresh,
    record s {
      heap = store s.heap s.fresh (record { next = none; key = key; item = item });
      fresh = s.fresh + 1;
    },
  )

  pub is_empty : LinkedList A → Bool
  is_empty s = same_pointer s.first none

  pub append : LinkedList A → A → Result (LinkedList A)
  unfolding new_element is_empty
  append s item =
      let (element, s') = new_element s item (pos 0) in
      if is_empty s'
      then ok (record s' { first = some element; last = some element })
      else (do s'' ← set_next s' s'.last (some element); ok (record s'' { last = some element }))

  pub prepend : LinkedList A → A → Result (LinkedList A)
  unfolding new_element is_empty
  prepend s item =
      let (element, s') = new_element s item (pos 0) in
      if is_empty s'
      then ok (record s' { first = some element; last = some element })
      else (do s'' ← set_next s' (some element) s'.first; ok (record s'' { first = some element }))

  -- The loop of SortedInsert from `ptr` on, and the two lines behind it.
  pub insert_loop : ℕ → LinkedList A → ℕ → ℤ → Option ℕ → Result (LinkedList A)
  insert_loop zero s element key ptr = err hang
  insert_loop (suc n) s element key ptr = do
    e ← load s ptr
    elim e.next [
      | none ↦ do s' ← set_next s s.last (some element); ok (record s' { last = some element })
      | some next ↦
          let rest = insert_loop n s element key (some next) in
          if int_ltb key ((s.heap next).key)
          then (do s' ← set_next s (some element) (some next); set_next s' ptr (some element))
          else rest
    ]

  -- The list has at most `fresh` elements.
  pub sorted_insert : LinkedList A → A → ℤ → Result (LinkedList A)
  unfolding new_element is_empty insert_loop
  sorted_insert s item key =
      let (element, s') = new_element s item key in
      if is_empty s' then ok (record s' { first = some element; last = some element }) else (do
        e ← load s' s'.first
        if int_ltb key e.key
            then (do
              s'' ← set_next s' (some element) s'.first
              ok (record s'' { first = some element }))
            else insert_loop s'.fresh s' element key s'.first)

  -- The item and its key, where `keyPtr` is not NULL.
  pub sorted_remove : LinkedList A → Result (Option (A × ℤ) × LinkedList A)
  unfolding is_empty
  sorted_remove s = if is_empty s then ok (none, s) else (do
    e ← load s s.first
    if same_pointer s.first s.last
        then ok (some (e.item, e.key), record s { first = none; last = none })
        else ok (some (e.item, e.key), record s { first = e.next }))

  pub remove : LinkedList A → Result (Option A × LinkedList A)
  unfolding sorted_remove
  remove s = do
    (found, s') ← sorted_remove s
    elim found [ none ↦ ok (none, s') | some (item, _) ↦ ok (some item, s') ]

  -- List::~List: at most `n` rounds.
  pub destroy : ℕ → LinkedList A → Result (LinkedList A)
  unfolding remove
  destroy zero s = err hang
  destroy (suc n) s = do (found, s') ← remove s; elim found [ none ↦ ok s' | some _ ↦ destroy n s' ]

  -- List::Mapcar for a function that changes a state of its own: at most `n` rounds.
  pub mapcar : {S : Type 0} → ℕ → (S → A → S) → S → LinkedList A → Option ℕ → Result S
  mapcar n func t s none = ok t
  mapcar zero func t s (some p) = err hang
  mapcar (suc n) func t s (some p) = mapcar n func (func t (s.heap p).item) s (s.heap p).next

  pub get_list_length : ℕ → LinkedList A → Result ℕ
  unfolding length_loop is_empty
  get_list_length n s = if is_empty s then ok 0 else length_loop n s.first s.last 1
