-- ===== src/Network.antt =====
-- code/machine/network.cc and network.h: the network device of one machine. The socket is the host's:
-- what it has for the machine, and what it is given, are arguments and results. An `int` of a header
-- takes four bytes, least significant byte first.
pub mod Header
pub mod Transit
mod Tests
use nachos_lab.Base.{
  ℕ, zero, ◌+◌, ◌-◌, ◌*◌, ◌%◌, Bool, true, false, not, ◌&&◌, Option, none, some, List, [], ◌∷◌,
  ◌++◌, take, drop, length, ltb, leb, ◌==◌, if◌then◌else◌, Result, ok, err, wild, ◌>>=◌, ◌>>◌,
  check,
}
use nachos_lab.Base.Int.{ℤ, int_eq, word_of_int, int_of_word}
use nachos_lab.FileHeader.Words.{bytes_of_words, words_of_bytes}
use nachos_lab.OpenFile.{overwrite}
use nachos_lab.Interrupt.{Interrupt, network_send_int, network_recv_int, schedule}

pub record PacketHeader : Type 0 where
  pub to : ℤ
  pub from : ℤ
  pub length : ℕ

abbrev pub header_size : ℕ
header_size = 12

abbrev pub max_wire_size : ℕ
max_wire_size = 64

abbrev pub max_packet_size : ℕ
max_packet_size = max_wire_size - header_size

abbrev pub network_time : ℕ
network_time = 100

-- `chance` is 100 times chanceToWork, rounded up, and the last two are counters of `stats`.
pub record Network : Type 0 where
  pub ident : ℤ
  pub chance : ℕ
  pub send_busy : Bool
  pub in_hdr : PacketHeader
  pub inbox : List ℕ
  pub packets_sent : ℕ
  pub packets_recvd : ℕ

-- `*(PacketHeader *)buffer = hdr` and `inHdr = *(PacketHeader *)buffer`
unfoldable pub header_bytes : PacketHeader → List ℕ
unfolding bytes_of_words
header_bytes h = bytes_of_words (word_of_int h.to ∷ word_of_int h.from ∷ h.length ∷ [])

unfoldable pub header_of_words : List ℕ → Result PacketHeader
header_of_words (a ∷ b ∷ c ∷ _) =
    ok (record { to = int_of_word a; from = int_of_word b; length = c })
header_of_words _ = err wild

unfoldable pub header_of_bytes : List ℕ → Result PacketHeader
unfolding header_of_words words_of_bytes
header_of_bytes bytes = header_of_words (words_of_bytes bytes)

-- CheckPktAvail with a packet that the socket has, where there is room for it.
unfoldable pub take_in : List ℕ → Network → Interrupt → Result (Bool × Network × Interrupt)
unfolding header_of_bytes
take_in buffer n s = do
  hdr ← header_of_bytes buffer
  check (int_eq hdr.to n.ident && leb hdr.length max_packet_size)
  ok (
    true,
    record n {
      in_hdr = hdr;
      inbox = overwrite n.inbox 0 (take hdr.length (drop header_size buffer));
      packets_recvd = n.packets_recvd + 1;
    },
    s,
  )

-- Up to the call of `writeHandler`.
unfoldable pub send_done : Network → Network
send_done n = record n { send_busy = false; packets_sent = n.packets_sent + 1 }

-- `poll` and `done` are the numbers of NetworkReadPoll and NetworkSendDone, and `this` their argument.
module _ (poll done this : ℕ) where
  -- The constructor: `percent` is 100 times the reliability, rounded up, and the other two are what the
  -- new object holds.
  unfoldable pub init : ℤ → ℕ → PacketHeader → List ℕ → Interrupt → Result (Network × Interrupt)
  unfolding schedule
  init addr percent raw inbox s = do
    s' ← schedule s poll this network_time network_recv_int
    ok (
      record {
        ident = addr;
        chance = if ltb 100 percent then 100 else percent;
        send_busy = false;
        in_hdr = record raw { length = 0 };
        inbox = inbox;
        packets_sent = 0;
        packets_recvd = 0;
      },
      s',
    )

  -- True where `readHandler` is called. `packet` is what the socket has, if it has one.
  unfoldable pub check_pkt_avail :
      Option (List ℕ) → Network → Interrupt → Result (Bool × Network × Interrupt)
  unfolding schedule take_in
  check_pkt_avail packet n s = do
    s' ← schedule s poll this network_time network_recv_int
    if not (n.in_hdr.length == 0)
        then ok (false, n, s')
        else elim packet [ none ↦ ok (false, n, s') | some buffer ↦ take_in buffer n s' ]

  -- The machine that the packet goes to, with the bytes on the wire, unless it is lost. `random` is the
  -- next value of Random(), and `raw` what the new buffer holds.
  unfoldable pub send :
      ℕ
      → List ℕ
      → Network
      → Interrupt
      → PacketHeader
      → List ℕ
      → Result (Option (ℤ × List ℕ) × Network × Interrupt)
  unfolding schedule header_bytes
  send random raw n s hdr bytes = do
    check (
        not n.send_busy
        && ltb 0 hdr.length
        && leb hdr.length max_packet_size
        && int_eq hdr.from n.ident)
    s' ← schedule s done this network_time network_send_int
    if leb n.chance (random % 100)
        then ok (none, n, s')
        else ok (
          some (
            hdr.to,
            header_bytes hdr ++ (take hdr.length bytes ++ drop (header_size + hdr.length) raw),
          ),
          n,
          s',
        )

-- The header, `data` with the packet copied to it, and the device.
unfoldable pub receive : List ℕ → Network → PacketHeader × List ℕ × Network
receive buffer n =
    let n' : Network = record n { in_hdr = record n.in_hdr { length = 0 } } in
    if n.in_hdr.length == 0
    then (n.in_hdr, buffer, n')
    else (n.in_hdr, overwrite buffer 0 (take n.in_hdr.length n.inbox), n')
