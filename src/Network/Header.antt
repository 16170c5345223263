-- ===== src/Network/Header.antt =====
-- The header of a packet as its bytes: code/machine/network.h.
use nachos_lab.Base.{ℕ, ◌+◌, ◌*◌, ◌^◌, ◌<◌, ◌≡◌, refl, arith, List, ◌++◌, ok}
use nachos_lab.Base.Int.{word_of_int, IsInt, word_of_int-lt, int-word}
use nachos_lab.FileHeader.Words.{byte}
use nachos_lab.Network.{PacketHeader, header_bytes, header_of_bytes}

-- The four bytes of a word, put together.
pub bytes-word :
    (w : ℕ) → w < 2 ^ 32 → byte w 0 + 256 * (byte w 1 + 256 * (byte w 2 + 256 * byte w 3)) ≡ w
bytes-word w h = omega arith

-- A header and anything behind it: the header is read back.
pub header_of_bytes-header_bytes :
    (h : PacketHeader) (rest : List ℕ)
    → IsInt h.to
    → IsInt h.from
    → h.length < 2 ^ 32
    → header_of_bytes (header_bytes h ++ rest) ≡ ok h
unfolding header_of_bytes header_bytes
header_of_bytes-header_bytes h rest t f l =
    rw
      (
        bytes-word (word_of_int h.to) (word_of_int-lt h.to),
        bytes-word (word_of_int h.from) (word_of_int-lt h.from),
        bytes-word h.length l,
        int-word h.to t,
        int-word h.from f,
      )
      refl
