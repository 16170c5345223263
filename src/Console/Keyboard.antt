-- ===== src/Console/Keyboard.antt =====
-- What is typed and what SynchConsole::GetChar of code/machine/console.cc returns.
use nachos_lab.Base.{
  ℕ, zero, suc, ◌+◌, ◌-◌, ◌<◌, ◌≤◌, ◌≡◌, refl, sym, ◌∙◌, arith, subst, Bool, true, false, List, [],
  ◌∷◌, ◌++◌, map, ◌==◌, if◌then◌else◌, All, ok, Bool-cases, inl, inr,
}
use mathlib.Core.List.{append_assoc, map-append}
use nachos_lab.Base.Int.{ℤ, int_eq, int_of_char}
use nachos_lab.Interrupt.{Interrupt}
use nachos_lab.Console.{Console, eof, check_char_avail, get_char, take_char}

-- `available` is the value of the semaphore of ReadAvail; `keys` are typed and not read by the device,
-- `typed` are all characters so far, and `got` is what GetChar has returned.
pub record Keyboard : Type 0 where
  pub console : Console
  pub interrupt : Interrupt
  pub available : ℕ
  pub keys : List ℕ
  pub typed : List ℕ
  pub got : List ℤ

-- A console with nothing typed.
abbrev pub initial : Console → Interrupt → Keyboard
initial c s = record {
  console = record c { incoming = eof };
  interrupt = s;
  available = 0;
  keys = [];
  typed = [];
  got = [];
}

-- The V of ReadAvail.
abbrev pub raised : Bool → ℕ → ℕ
raised called n = if called then n + 1 else n

module _ (poll done this : ℕ) where
  -- A key is typed, other than the character that is EOF as a `char`; the device looks at the keyboard; or a thread gets through P and takes the character.
  pub data Step (k : Keyboard) : Keyboard → Type 0 where
    types :
        (key : ℕ)
        → key < 255
        → Step k (record k { keys = k.keys ++ key ∷ []; typed = k.typed ++ key ∷ [] })
    polls :
        (called : Bool) (keys : List ℕ) (c : Console) (s : Interrupt)
        → check_char_avail poll done this k.keys k.console k.interrupt ≡ ok ((called, keys, c), s)
        → Step k (record k {
          console = c;
          interrupt = s;
          keys = keys;
          available = raised called k.available;
        })
    gets :
        0 < k.available
        → Step k (record k {
          console = (get_char k.console).1;
          available = k.available - 1;
          got = k.got ++ (get_char k.console).0 ∷ [];
        })

  pub data Reachable (c : Console) (s : Interrupt) : Keyboard → Type 0 where
    begin : Reachable c s (initial c s)
    later : {k k' : Keyboard} → Reachable c s k → Step k k' → Reachable c s k'

-- The character that the device holds, where ReadAvail has been called for one.
abbrev pub held : ℕ → ℤ → List ℤ
held n c = if n == 0 then [] else c ∷ []

record IsKept (k : Keyboard) : Type 0 where
  small : All (λ key. key < 255) k.keys
  one : k.available ≤ 1
  empty : k.available ≡ 0 → k.console.incoming ≡ eof
  full : 0 < k.available → int_eq k.console.incoming eof ≡ false
  order :
      map int_of_char k.typed
      ≡ k.got ++ (held k.available k.console.incoming ++ map int_of_char k.keys)

char-ne-eof : (key : ℕ) → key < 255 → int_eq (int_of_char key) eof ≡ false
char-ne-eof key h = ground arith

All-snoc :
    (keys : List ℕ) (key : ℕ)
    → All (λ x. x < 255) keys
    → key < 255
    → All (λ x. x < 255) (keys ++ key ∷ [])
All-snoc [] key h p = (p, tt)
All-snoc (x ∷ xs) key h p = (h.0, All-snoc xs key h.1 p)

types-IsKept :
    (k : Keyboard) (key : ℕ)
    → key < 255
    → IsKept k
    → IsKept (record k { keys = k.keys ++ key ∷ []; typed = k.typed ++ key ∷ [] })
types-IsKept k key h i = record {
  small = All-snoc k.keys key i.small h;
  one = i.one;
  empty = i.empty;
  full = i.full;
  order =
      rw
        (
          map-append int_of_char k.typed (key ∷ []),
          i.order,
          map-append int_of_char k.keys (key ∷ []),
        )
        (simp append_assoc);
}

gets-IsKept :
    (k : Keyboard)
    → 0 < k.available
    → IsKept k
    → IsKept (record k {
      console = (get_char k.console).1;
      available = k.available - 1;
      got = k.got ++ (get_char k.console).0 ∷ [];
    })
unfolding get_char
gets-IsKept k h i =
    let e : k.available ≡ 1 = omega (arith, i.one) in
    let was : map int_of_char k.typed ≡ k.got ++ (k.console.incoming ∷ map int_of_char k.keys) =
      subst
        (λ (n : ℕ).
          map int_of_char k.typed ≡ k.got ++ (held n k.console.incoming ++ map int_of_char k.keys))
        e i.order in
    let none_left : k.available - 1 ≡ 0 = omega arith in
    record {
      small = i.small;
      one = omega arith;
      empty = λ z. refl;
      full = λ z. absurd (omega arith);
      order =
          subst
            (λ (n : ℕ).
              map int_of_char k.typed
              ≡ (k.got ++ k.console.incoming ∷ []) ++ (held n eof ++ map int_of_char k.keys))
            (sym none_left)
            (was ∙ sym (append_assoc k.got (k.console.incoming ∷ []) (map int_of_char k.keys)));
    }

-- The state after a look at the keyboard.
abbrev after : Keyboard → Interrupt → Bool × List ℕ × Console → Keyboard
after k s (called, keys, c) = record k {
  console = c;
  interrupt = s;
  keys = keys;
  available = raised called k.available;
}

take_char-IsKept :
    (k : Keyboard) (s : Interrupt) (keys : List ℕ)
    → k.keys ≡ keys
    → k.available ≡ 0
    → All (λ key. key < 255) keys
    → IsKept k
    → IsKept (after k s (take_char keys k.console))
unfolding take_char
take_char-IsKept k s [] e z small i = record {
  small = tt;
  one = i.one;
  empty = i.empty;
  full = i.full;
  order =
      subst
        (λ (l : List ℕ).
          map int_of_char k.typed
          ≡ k.got ++ (held k.available k.console.incoming ++ map int_of_char l))
        e i.order;
}
take_char-IsKept k s (key ∷ keys) e z (h, small) i =
    let was : map int_of_char k.typed ≡ k.got ++ (int_of_char key ∷ map int_of_char keys) =
      subst
        (λ (n : ℕ).
          map int_of_char k.typed
          ≡ k.got ++ (held n k.console.incoming ++ (int_of_char key ∷ map int_of_char keys)))
        z
        (subst
          (λ (l : List ℕ).
            map int_of_char k.typed
            ≡ k.got ++ (held k.available k.console.incoming ++ map int_of_char l))
          e i.order) in
    let up : k.available + 1 ≡ 1 = omega arith in
    record {
      small = small;
      one = omega arith;
      empty = λ q. absurd (omega arith);
      full = λ q. char-ne-eof key h;
      order =
          subst
            (λ (n : ℕ).
              map int_of_char k.typed ≡ k.got ++ (held n (int_of_char key) ++ map int_of_char keys))
            (sym up) was;
    }

none_held : (n : ℕ) (b : Bool) → (0 < n → b ≡ false) → b ≡ true → n ≡ 0
none_held zero b f h = refl
none_held (suc n) b f h = let no = f (omega arith) in cc

module _ (poll done this : ℕ) where
  polls-IsKept :
      (k : Keyboard) (r : Bool × List ℕ × Console) (s : Interrupt)
      → check_char_avail poll done this k.keys k.console k.interrupt ≡ ok (r, s)
      → IsKept k
      → IsKept (after k s r)
  unfolding check_char_avail
  polls-IsKept k r s h i = elim (Bool-cases (int_eq k.console.incoming eof)) [
    | inl e ↦
        let z = none_held k.available (int_eq k.console.incoming eof) i.full e in
        let h' = rw e at h in
        let q : take_char k.keys k.console ≡ r = cc in
        subst (λ x. IsKept (after k s x)) q (take_char-IsKept k s k.keys refl z i.small i)
    | inr e ↦
        let h' = rw e at h in
        let q : (false, k.keys, k.console) ≡ r = cc in
        subst (λ x. IsKept (after k s x)) q
          (record { small = i.small; one = i.one; empty = i.empty; full = i.full; order = i.order })
  ]

  Step-IsKept : {k k' : Keyboard} → Step poll done this k k' → IsKept k → IsKept k'
  Step-IsKept {k} (types key h) i = types-IsKept k key h i
  Step-IsKept {k} (polls called keys c s e) i = polls-IsKept k (called, keys, c) s e i
  Step-IsKept {k} (gets h) i = gets-IsKept k h i

  Reachable-IsKept :
      {c : Console} {s : Interrupt} {k : Keyboard} → Reachable poll done this c s k → IsKept k
  Reachable-IsKept begin = record {
    small = tt;
    one = omega arith;
    empty = λ z. refl;
    full = λ z. absurd (omega arith);
    order = refl;
  }
  Reachable-IsKept (later r step) = Step-IsKept step (Reachable-IsKept r)

  -- Whenever the device looks at the keyboard and whenever threads take characters: what GetChar has
  -- returned, then the character that the device holds, if ReadAvail was called for one, and then the
  -- keys that it has not read, are the keys typed, in their order, where 255 is not typed. No character
  -- is lost or returned twice, and the semaphore never has more than 1.
  pub typed_order :
      {c : Console} {s : Interrupt} {k : Keyboard}
      → Reachable poll done this c s k
      → (map int_of_char k.typed
          ≡ k.got ++ (held k.available k.console.incoming ++ map int_of_char k.keys))
        × (k.available ≤ 1)
  typed_order r = let i = Reachable-IsKept r in (i.order, i.one)
