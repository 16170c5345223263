-- ===== src/Machine/Translation.antt =====
-- The page table of code/machine/translate.cc: which entry the loop of Translate finds.
use nachos_lab.Base.{
  ℕ, zero, suc, ◌+◌, ◌*◌, ◌/◌, ◌%◌, ◌<◌, ◌≤◌, ◌≡◌, refl, ◌∙◌, ap, Bool, true, false, ◌&&◌, ◌||◌,
  List, [], ◌∷◌, arith, none, some, length, set, get_elem?, Option-cases, inl, inr, ok, lt→ltb, ltb,
  leb,
}
use nachos_lab.Base.Int.{ℤ, pos, word_of_int}
use nachos_lab.Machine.{
  TranslationEntry, Machine, no_exception, maps, find_entry, translate, misaligned, num_phys_pages,
  page_size,
}

find_entry-none :
    (e : TranslationEntry) (es : List TranslationEntry) (j : ℕ) (pid : ℤ) (vpn : ℕ)
    → find_entry (e ∷ es) j pid vpn ≡ none
    → (find_entry es (j + 1) pid vpn ≡ none) × (maps pid vpn e ≡ false)
unfolding find_entry
find_entry-none e es j pid vpn absent = elim (Option-cases (find_entry es (j + 1) pid vpn)) [
  | inr (i, found) ↦ cc (rw found at absent)
  | inl missing ↦ (missing, ground (arith, rw missing at absent))
]

-- Where no entry maps the page, an entry that is made to map it is the one found.
pub find_entry-set :
    (es : List TranslationEntry) (j k : ℕ) (e' : TranslationEntry) (pid : ℤ) (vpn : ℕ)
    → find_entry es j pid vpn ≡ none
    → maps pid vpn e' ≡ true
    → k < length es
    → find_entry (set es k e') j pid vpn ≡ some (j + k)
unfolding find_entry
find_entry-set [] j k e' pid vpn absent m h = absurd (omega arith)
find_entry-set (e ∷ es) j zero e' pid vpn absent m h =
    rw ((find_entry-none e es j pid vpn absent).0) (rw m (ap some (omega arith)))
find_entry-set (e ∷ es) j (suc k) e' pid vpn absent m h =
    rw
      (find_entry-set es (j + 1) k e' pid vpn (find_entry-none e es j pid vpn absent).0 m
        (omega arith))
      (ap some (omega arith))

-- The entry for a frame below 32 that a fault has filled in.
pub translate-ok :
    (m : Machine) (addr size k : ℕ) (writing : Bool) (e : TranslationEntry)
    → misaligned addr size ≡ false
    → find_entry m.page_table 0 m.pid (addr / page_size) ≡ some k
    → get_elem? m.page_table k ≡ some e
    → (e.read_only && writing) ≡ false
    → e.physical_page ≡ pos k
    → k < num_phys_pages
    → k < length m.page_table
    → addr % page_size + size ≤ page_size
    → translate m addr size writing
      ≡ ok (
        no_exception,
        k * page_size + addr % page_size,
        record m {
          page_table = set m.page_table k (record e { use_ = true; dirty = e.dirty || writing });
        },
      )
unfolding translate
translate-ok m addr size k writing e aligned found got allowed frame small long inside =
    let f : word_of_int e.physical_page ≡ k = ap word_of_int frame ∙ omega arith in
    let below : leb 32 k ≡ false = ground arith in
    let fits : leb (k * 128 + addr % 128 + size) 4096 ≡ true = ground arith in
    let room : ltb k (length m.page_table) ≡ true = lt→ltb k (length m.page_table) long in
    rw (aligned, found) (rw got (rw (f, allowed) (rw below (rw room (rw fits refl)))))
