-- ===== src/AddrSpace/Loading.antt =====
-- The loading of a program in code/userprog/addrspace.cc, and what the machine then fetches.
use nachos_lab.Base.Int.{ℤ, pos}
use nachos_lab.Base.{
  ℕ, zero, suc, ◌+◌, ◌*◌, ◌^◌, ◌≤◌, ◌<◌, ◌≡◌, ◌⊎◌, inl, inr, refl, ◌∙◌, ap, arith, true, List, [],
  ◌∷◌, ◌++◌, length, get_or, take, drop, take-append, length-take, length-append, ltb, leb, lt→ltb,
  ok, Bool-cases, Option, some, get_elem?, ◌%◌,
}
use mathlib.Core.List.{append_assoc}
use nachos_lab.OpenFile.{overwrite}
use nachos_lab.Machine.{page_size}
use nachos_lab.AddrSpace.{Segment, load_segment, zeros, Calls, file_position}

pub length-zeros : (n : ℕ) → length (zeros n) ≡ n
unfolding zeros
length-zeros zero = refl
length-zeros (suc n) = ap suc (length-zeros n)

length-drop : (n : ℕ) (xs : List ℕ) → n ≤ length xs → length (drop n xs) + n ≡ length xs
length-drop zero xs h = omega arith
length-drop (suc n) [] h = absurd (omega arith)
length-drop (suc n) (x ∷ xs) h = omega (arith, length-drop n xs (omega arith))

get_or-take : (n i : ℕ) (xs : List ℕ) → i < n → get_or (take n xs) i 0 ≡ get_or xs i 0
get_or-take zero i xs h = absurd (omega arith)
get_or-take (suc n) i [] h = refl
get_or-take (suc n) zero (x ∷ xs) h = refl
get_or-take (suc n) (suc i) (x ∷ xs) h = get_or-take n i xs (omega arith)

get_or-drop : (n i : ℕ) (xs : List ℕ) → get_or (drop n xs) i 0 ≡ get_or xs (n + i) 0
get_or-drop zero i xs = ap (λ (k : ℕ). get_or xs k 0) (omega arith)
get_or-drop (suc n) i [] = refl
get_or-drop (suc n) i (x ∷ xs) =
    let e : suc n + i ≡ suc (n + i) = omega arith in rw e (get_or-drop n i xs)

drop-append : (n : ℕ) (xs ys : List ℕ) → length xs ≡ n → drop n (xs ++ ys) ≡ ys
drop-append zero [] ys h = refl
drop-append zero (x ∷ xs) ys h = absurd (omega (arith, h))
drop-append (suc n) [] ys h = absurd (omega (arith, h))
drop-append (suc n) (x ∷ xs) ys h = drop-append n xs ys (omega (arith, h))

-- The bytes of a segment.
abbrev pub bytes_of : List ℕ → Segment → List ℕ
bytes_of executable s = take s.size (drop s.in_file_addr executable)

-- The segment lies in the file and in the address space of a size.
pub record IsInside (executable : List ℕ) (size : ℕ) (s : Segment) : Type 0 where
  pub in_file : s.in_file_addr + s.size ≤ length executable
  pub in_space : s.virtual_addr + s.size ≤ size
  pub not_negative : s.size < 2 ^ 31
  pub from : s.in_file_addr < 2 ^ 31
  pub to : s.virtual_addr * page_size + s.size ≤ 2 ^ 31

length-bytes_of :
    (executable : List ℕ) (size : ℕ) (s : Segment)
    → IsInside executable size s
    → length (bytes_of executable s) ≡ s.size
length-bytes_of executable size s i =
    length-take s.size (drop s.in_file_addr executable)
      (omega (arith, length-drop s.in_file_addr executable (omega (arith, i.in_file)), i.in_file))

-- What is written to the array is what is then written to the file.
take-overwrite_at :
    (temp bytes : List ℕ) (at_ n : ℕ)
    → at_ ≤ length temp
    → length bytes ≡ n
    → take n (drop at_ (overwrite temp at_ bytes)) ≡ bytes
take-overwrite_at temp bytes at_ n h l =
    rw (append_assoc (take at_ temp) bytes (drop (at_ + length bytes) temp)) (
      rw
        (drop-append at_ (take at_ temp) (bytes ++ drop (at_ + length bytes) temp)
          (length-take at_ temp h))
        (take-append n bytes (drop (at_ + length bytes) temp) l))

length-overwrite :
    (temp bytes : List ℕ) (at_ : ℕ)
    → at_ + length bytes ≤ length temp
    → length (overwrite temp at_ bytes) ≡ length temp
length-overwrite temp bytes at_ h = omega (
  arith,
  length-append (take at_ temp ++ bytes) (drop (at_ + length bytes) temp),
  length-append (take at_ temp) bytes,
  length-take at_ temp (omega arith),
  length-drop (at_ + length bytes) temp h,
)

-- What the host does with a file, where no position is past the greatest `int`: `byte` is the byte at a
-- position, unless the file ends before it. A write puts its bytes at their positions and leaves the
-- others, and a read of a page gives the bytes that the file has there.
pub record IsHost {File : Type 0} (calls : Calls File) (read : File → ℤ → Option (List ℕ))
    (byte : File → ℕ → Option ℕ) : Type 0 where
  pub writes :
      (f : File) (p : ℕ) (bytes : List ℕ)
      → p + length bytes ≤ 2 ^ 31
      → (f' : File) × (calls.write_at f (pos p) bytes ≡ some f')
        × ((j : ℕ) → j < length bytes → byte f' (p + j) ≡ some (get_or bytes j 0))
        × ((a v : ℕ) → (a < p) ⊎ (p + length bytes ≤ a) → byte f a ≡ some v → byte f' a ≡ some v)
  pub reads :
      (f : File) (p : ℕ)
      → p < 2 ^ 31
      → (bytes : List ℕ) × (read f (pos p) ≡ some bytes)
        × ((j v : ℕ) → j < page_size → byte f (p + j) ≡ some v → get_elem? bytes j ≡ some v)

module _ {File : Type 0} {calls : Calls File} {read : File → ℤ → Option (List ℕ)}
    {byte : File → ℕ → Option ℕ} (host : IsHost calls read byte) where
  -- From the file `vm` the segment is written to `vm'`, at its address times the size of a page; the other
  -- bytes are as before.
  pub record IsLoaded (executable : List ℕ) (s : Segment) (vm vm' : File) : Type 0 where
    pub written :
        (j : ℕ)
        → j < s.size
        → byte vm' (s.virtual_addr * page_size + j)
          ≡ some (get_or executable (s.in_file_addr + j) 0)
    pub kept :
        (a v : ℕ)
        → (a < s.virtual_addr * page_size) ⊎ (s.virtual_addr * page_size + s.size ≤ a)
        → byte vm a ≡ some v
        → byte vm' a ≡ some v

  -- Either segment is loaded, and the array keeps its size.
  pub load_segment-IsLoaded :
      (executable : List ℕ) (size : ℕ) (s : Segment) (temp : List ℕ) (vm : File)
      → length temp ≡ size
      → IsInside executable size s
      → (temp' : List ℕ) × (vm' : File) × (load_segment calls executable s (temp, some vm)
          ≡ ok (temp', some vm'))
        × (length temp' ≡ size)
        × IsLoaded executable s vm vm'
  unfolding load_segment
  load_segment-IsLoaded executable size s temp vm e i =
      let l = length-bytes_of executable size s i in
      let bytes = bytes_of executable s in
      elim (Bool-cases (ltb 0 s.size)) [
        | inl some_ ↦
            let short : ltb s.size (2 ^ 31) ≡ true = lt→ltb s.size (2 ^ 31) i.not_negative in
            let near : ltb s.in_file_addr (2 ^ 31) ≡ true = lt→ltb s.in_file_addr (2 ^ 31) i.from in
            let room : leb (s.virtual_addr + s.size) (length temp) ≡ true =
              ground (arith, e, i.in_space) in
            let positive : 0 < s.size = ground arith in
            let whole : (s.virtual_addr * page_size) % 2 ^ 32 ≡ s.virtual_addr * page_size =
              omega (arith, i.to) in
            let below : ltb (s.virtual_addr * page_size) (2 ^ 31) ≡ true =
              lt→ltb (s.virtual_addr * page_size) (2 ^ 31) (omega (arith, i.to)) in
            let at_ : file_position s.virtual_addr ≡ pos (s.virtual_addr * page_size) =
              rw whole (rw below refl) in
            let (vm', wrote, written, kept) =
              host.writes vm (s.virtual_addr * page_size) bytes (omega (arith, l, i.to)) in
            (
              overwrite temp s.virtual_addr bytes,
              vm',
              rw
                  (
                    some_,
                    short,
                    room,
                    near,
                    take-overwrite_at temp bytes s.virtual_addr s.size
                        (omega (arith, e, i.in_space)) l,
                  )
                  (rw at_ (rw wrote refl)),
              length-overwrite temp bytes s.virtual_addr (omega (arith, e, i.in_space, l)) ∙ e,
              record {
                written = λ j h.
                    written j (omega (arith, l))
                    ∙ ap some (
                        get_or-take s.size j (drop s.in_file_addr executable) h
                        ∙ get_or-drop s.in_file_addr j executable);
                kept = λ a v out b. kept a v (outside a out) b;
              },
            )
        | inr none_ ↦ (
          temp,
          vm,
          rw none_ refl,
          e,
          record { written = λ j h. absurd (ground arith); kept = λ a v h b. b },
        )
      ]
    where
      outside :
          (a : ℕ)
          → (a < s.virtual_addr * page_size) ⊎ (s.virtual_addr * page_size + s.size ≤ a)
          → (a < s.virtual_addr * page_size)
            ⊎ (s.virtual_addr * page_size + length (bytes_of executable s) ≤ a)
      outside a (inl h) = inl h
      outside a (inr h) = inr (omega (arith, length-bytes_of executable size s i))
