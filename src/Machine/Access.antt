-- ===== src/Machine/Access.antt =====
-- ReadMem and WriteMem of code/machine/translate.cc: demand paging is not seen by the program, and a
-- word that is written is read back.
use nachos_lab.Base.{
  ℕ, zero, suc, ◌+◌, ◌*◌, ◌/◌, ◌%◌, ◌^◌, ◌<◌, ◌≤◌, ◌≡◌, refl, ◌∙◌, sym, ap, subst, Bool, true,
  false, ◌&&◌, ◌||◌, List, [], ◌∷◌, arith, none, some, length, set, get_elem?, length-set, Result,
  ok, ◌>>=◌, ◌⊎◌, inl, inr, ltb, leb, ◌==◌, ==_refl, ==_iff, get_or, lt→ltb, ◌-◌,
}
use nachos_lab.Base.Int.{ℤ, pos, int_eq_refl, word_of_int}
use nachos_lab.BitMap.Count.{free}
use nachos_lab.Machine.{
  TranslationEntry, Machine, page_fault_exception, maps, find_entry, misaligned, translate,
  load_page, code_pos, locate, read_bytes, write_bytes, read_mem, write_mem, num_phys_pages,
  page_size,
}
use nachos_lab.Machine.Translation.{find_entry-set, translate-ok}
use nachos_lab.Machine.Paging.{IsMachine, raise_exception-Paged}

-- The sizes that the machine reads and writes.
abbrev pub IsSize : ℕ → Type 0
IsSize size = (size ≡ 1) ⊎ ((size ≡ 2) ⊎ (size ≡ 4))

-- An aligned access stays within its page.
aligned_two : (addr : ℕ) → misaligned addr 2 ≡ false → addr % 128 + 2 ≤ 128
aligned_two addr a = ground arith

pub aligned_four : (addr : ℕ) → misaligned addr 4 ≡ false → addr % 128 + 4 ≤ 128
aligned_four addr a = ground arith

inside_page :
    (addr size : ℕ)
    → IsSize size
    → misaligned addr size ≡ false
    → addr % page_size + size ≤ page_size
inside_page addr size (inl one) a = omega arith
inside_page addr size (inr (inl two)) a =
    subst (λ n. addr % 128 + n ≤ 128) (sym two) (aligned_two addr (rw two at a))
inside_page addr size (inr (inr four)) a =
    subst (λ n. addr % 128 + n ≤ 128) (sym four) (aligned_four addr (rw four at a))

-- A byte of the frame is the byte that was read from the file at the same place of the page.
load_page-at :
    (m : Machine) (k addr i : ℕ) (bytes : List ℕ)
    → addr % page_size + i < page_size
    → addr % page_size + i < length bytes
    → load_page m (k * page_size) bytes (k * page_size + addr % page_size + i)
      ≡ get_or bytes (addr % page_size + i) 0
load_page-at m k addr i bytes h l =
    let lower : leb (k * 128) (k * 128 + addr % 128 + i) ≡ true = ground arith in
    let upper : ltb (k * 128 + addr % 128 + i) (k * 128 + 128) ≡ true = ground arith in
    let place : k * 128 + addr % 128 + i - k * 128 ≡ addr % 128 + i = omega arith in
    let there : ltb (addr % 128 + i) (length bytes) ≡ true =
      lt→ltb (addr % 128 + i) (length bytes) l in
    rw (lower, upper, place, there) refl

and-false : (b : Bool) → (b && false) ≡ false
and-false true = refl
and-false false = refl

-- Memories that agree on the bytes of an access have the same value there.
read_bytes-same :
    (f g : ℕ → ℕ) (a b size : ℕ)
    → IsSize size
    → ((i : ℕ) → i < size → f (a + i) ≡ g (b + i))
    → read_bytes f a size ≡ read_bytes g b size
read_bytes-same f g a b size (inl one) same =
    let x : a + 0 ≡ a = omega arith in
    let y : b + 0 ≡ b = omega arith in
    let e : f a ≡ g b = ap f (sym x) ∙ same 0 (omega arith) ∙ ap g y in rw (one, e) refl
read_bytes-same f g a b size (inr (inl two)) same =
    let x : a + 0 ≡ a = omega arith in
    let y : b + 0 ≡ b = omega arith in
    let e : f a ≡ g b = ap f (sym x) ∙ same 0 (omega arith) ∙ ap g y in
    rw (two, e, same 1 (omega arith)) refl
read_bytes-same f g a b size (inr (inr four)) same =
    let x : a + 0 ≡ a = omega arith in
    let y : b + 0 ≡ b = omega arith in
    let e : f a ≡ g b = ap f (sym x) ∙ same 0 (omega arith) ∙ ap g y in
    rw (four, e, same 1 (omega arith), same 2 (omega arith), same 3 (omega arith)) refl

translate-fault :
    (m : Machine) (addr size : ℕ) (writing : Bool)
    → misaligned addr size ≡ false
    → find_entry m.page_table 0 m.pid (addr / page_size) ≡ none
    → translate m addr size writing ≡ ok (page_fault_exception, 0, m)
unfolding translate
translate-fault m addr size writing a f = rw (a, f) refl

get_elem?-set_self :
    (es : List TranslationEntry) (k : ℕ) (e : TranslationEntry)
    → k < length es
    → get_elem? (set es k e) k ≡ some e
get_elem?-set_self [] k e h = absurd (omega arith)
get_elem?-set_self (x ∷ es) zero e h = refl
get_elem?-set_self (x ∷ es) (suc k) e h = get_elem?-set_self es k e (omega arith)

-- Where no entry maps the page and a frame is free, the second try finds the frame.
locate-Paged :
    {m : Machine} (addr size : ℕ) (bytes : List ℕ)
    → IsMachine m
    → addr < 2 ^ 32
    → IsSize size
    → misaligned addr size ≡ false
    → find_entry m.page_table 0 m.pid (addr / page_size) ≡ none
    → 0 < free m.memory_map
    → m.swap (code_pos addr) ≡ some bytes
    → (k : ℕ) × (m' : Machine) × (locate m addr size false
        ≡ ok (some (k * page_size + addr % page_size), m'))
      × (m'.main_memory ≡ load_page m (k * page_size) bytes)
unfolding locate
locate-Paged {m} addr size bytes i word s a f room paged =
    let (k, m1, raised, p) = raise_exception-Paged addr bytes i room paged in
    let (e, got, table) = p.entry in
    let e' : TranslationEntry = record e {
      virtual_page = pos (addr / page_size);
      physical_page = pos k;
      valid = true;
      thread = m.pid;
    } in
    let w : (word_of_int (pos (addr / 128)) == (addr / 128)) ≡ true =
      (==_iff _ _).1 (omega arith) in
    let mapped : maps m.pid (addr / 128) e' ≡ true = rw (w, int_eq_refl m.pid) refl in
    let long : k < length m.page_table = omega (arith, p.small, i.table) in
    let z : 0 + k ≡ k = omega arith in
    let found : find_entry m1.page_table 0 m1.pid (addr / 128) ≡ some k =
      rw (table, p.same_thread)
        (find_entry-set m.page_table 0 k e' m.pid (addr / 128) f mapped long ∙ ap some z) in
    let held : get_elem? m1.page_table k ≡ some e' =
      rw table (get_elem?-set_self m.page_table k e' long) in
    let long1 : k < length m1.page_table = rw table (omega (arith, length-set m.page_table k e')) in
    let again =
      translate-ok m1 addr size k false e' a found held (and-false e.read_only) refl p.small long1
        (inside_page addr size s a) in
    (
      k,
      record m1 {
        page_table = set m1.page_table k (record e' { use_ = true; dirty = e'.dirty || false });
      },
      rw (translate-fault m addr size false a f) (rw raised (rw again refl)),
      p.memory,
    )

-- A read of a page that is not in memory, with a frame free, where ReadAt of the file at the position of
-- the page gives bytes that reach to the end of the access: it does not fail, and the value is that of
-- these bytes, from the offset in the page on.
pub read_mem-swap :
    {m : Machine} (addr size v : ℕ) (bytes : List ℕ)
    → IsMachine m
    → addr < 2 ^ 32
    → IsSize size
    → misaligned addr size ≡ false
    → find_entry m.page_table 0 m.pid (addr / page_size) ≡ none
    → 0 < free m.memory_map
    → m.swap (code_pos addr) ≡ some bytes
    → addr % page_size + size ≤ length bytes
    → read_bytes (λ j. get_or bytes j 0) (addr % page_size) size ≡ ok v
    → (m' : Machine) × (read_mem m addr size ≡ ok (some v, m'))
unfolding read_mem
read_mem-swap {m} addr size v bytes i word s a f room paged long r =
    let (k, m', located, memory) = locate-Paged addr size bytes i word s a f room paged in
    let same =
      read_bytes-same m'.main_memory (λ j. get_or bytes j 0) (k * page_size + addr % page_size)
        (addr % page_size) size s
        (λ j h.
          ap (λ (f : ℕ → ℕ). f (k * page_size + addr % page_size + j)) memory
          ∙ load_page-at m k addr j bytes (omega (arith, inside_page addr size s a))
              (omega (arith, long))) in
    (m', rw located (rw (same ∙ r) refl))

-- The page of the address is mapped to frame `k` by entry `e`, for the running thread.
pub record Mapped (m : Machine) (addr k : ℕ) (e : TranslationEntry) : Type 0 where
  pub found : find_entry m.page_table 0 m.pid (addr / page_size) ≡ some k
  pub held : get_elem? m.page_table k ≡ some e
  pub frame : e.physical_page ≡ pos k
  pub small : k < num_phys_pages
  pub table : length m.page_table ≡ num_phys_pages

-- The bits that an access sets do not change which entry is found.
find_entry-touch :
    (es : List TranslationEntry) (j k : ℕ) (e : TranslationEntry) (u d : Bool) (pid : ℤ) (vpn : ℕ)
    → get_elem? es k ≡ some e
    → find_entry (set es k (record e { use_ = u; dirty = d })) j pid vpn ≡ find_entry es j pid vpn
unfolding find_entry
find_entry-touch [] j k e u d pid vpn h = refl
find_entry-touch (x ∷ es) j zero e u d pid vpn h =
    let same : e ≡ x = cc in ap (λ (y : TranslationEntry). find_entry (y ∷ es) j pid vpn) same
find_entry-touch (x ∷ es) j (suc k) e u d pid vpn h =
    rw (find_entry-touch es (j + 1) k e u d pid vpn h) refl

-- An access sets the use bit, and a write the dirty bit too; the page stays mapped.
abbrev touched : Machine → ℕ → TranslationEntry → Bool → Machine
touched m k e writing = record m {
  page_table = set m.page_table k (record e { use_ = true; dirty = e.dirty || writing });
}

locate-Mapped :
    (m : Machine) (addr k : ℕ) (e : TranslationEntry) (writing : Bool)
    → Mapped m addr k e
    → addr % 4 ≡ 0
    → (e.read_only && writing) ≡ false
    → locate m addr 4 writing ≡ ok (some (k * page_size + addr % page_size), touched m k e writing)
unfolding locate
locate-Mapped m addr k e writing h a w =
    let aligned : misaligned addr 4 ≡ false = rw a refl in
    let one =
      translate-ok m addr 4 k writing e aligned h.found h.held w h.frame h.small
        (omega (arith, h.table, h.small)) (omega arith) in
    rw one refl

-- The four bytes of a word that is written, read again.
read_bytes-write_bytes :
    (mem : ℕ → ℕ) (a v : ℕ)
    → v < 2 ^ 32
    → (mem' : ℕ → ℕ) × (write_bytes mem a 4 v ≡ ok mem') × (read_bytes mem' a 4 ≡ ok v)
read_bytes-write_bytes mem a v h =
    let t01 : ((a + 1) == a) ≡ false = ground arith in
    let t02 : ((a + 2) == a) ≡ false = ground arith in
    let t03 : ((a + 3) == a) ≡ false = ground arith in
    let t12 : ((a + 2) == (a + 1)) ≡ false = ground arith in
    let t13 : ((a + 3) == (a + 1)) ≡ false = ground arith in
    let t23 : ((a + 3) == (a + 2)) ≡ false = ground arith in
    (
      _,
      refl,
      rw
          (
            t01,
            t02,
            t03,
            t12,
            t13,
            t23,
            ==_refl a,
            ==_refl (a + 1),
            ==_refl (a + 2),
            ==_refl (a + 3),
          )
          (ap ok (omega arith)),
    )

-- A word that is written to a mapped page that is not read-only is read back from the address.
pub read_mem-write_mem :
    (m : Machine) (addr k v : ℕ) (e : TranslationEntry)
    → Mapped m addr k e
    → addr % 4 ≡ 0
    → e.read_only ≡ false
    → v < 2 ^ 32
    → (m' m'' : Machine) × (write_mem m addr 4 v ≡ ok (true, m'))
      × (read_mem m' addr 4 ≡ ok (some v, m''))
unfolding read_mem write_mem
read_mem-write_mem m addr k v e h a ro w =
    let e1 : TranslationEntry = record e { use_ = true; dirty = e.dirty || true } in
    let one = locate-Mapped m addr k e true h a (rw ro refl) in
    let (memory, wrote, back) =
      read_bytes-write_bytes m.main_memory (k * page_size + addr % page_size) v w in
    let m1 : Machine = record (touched m k e true) { main_memory = memory } in
    let long : k < length m.page_table = omega (arith, h.small, h.table) in
    let h1 : Mapped m1 addr k e1 = record {
      found =
          find_entry-touch m.page_table 0 k e true (e.dirty || true) m.pid (addr / page_size) h.held
          ∙ h.found;
      held = get_elem?-set_self m.page_table k e1 long;
      frame = h.frame;
      small = h.small;
      table = length-set m.page_table k e1 ∙ h.table;
    } in
    let two = locate-Mapped m1 addr k e1 false h1 a (and-false e.read_only) in
    (
      m1,
      touched m1 k e1 false,
      rw one (
          ap
            (λ (r : Result (ℕ → ℕ)).
              r >>= λ mem. ok (true, record (touched m k e true) { main_memory = mem }))
            wrote),
      rw two (ap (λ (r : Result ℕ). r >>= λ value. ok (some value, touched m1 k e1 false)) back),
    )
