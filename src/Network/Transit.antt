-- ===== src/Network/Transit.antt =====
-- A packet from one machine to another: Send and CheckPktAvail of code/machine/network.cc, and Receive.
use nachos_lab.Base.{
  ℕ, ◌+◌, ◌%◌, ◌<◌, ◌≤◌, ◌≡◌, refl, arith, true, false, some, List, ◌++◌, take, drop, length,
  take-append, length-take, ltb, leb, lt→ltb, ◌==◌, ok,
}
use nachos_lab.Base.Int.{int_eq, int_eq_refl, IsInt}
use nachos_lab.OpenFile.{overwrite}
use nachos_lab.Interrupt.{Interrupt, network_send_int, network_recv_int, scheduled, schedule}
use nachos_lab.Network.{
  PacketHeader, Network, header_bytes, header_of_bytes, header_size, network_time, take_in,
  check_pkt_avail, send, receive, max_packet_size,
}
use nachos_lab.Network.Header.{header_of_bytes-header_bytes}

-- What is read at the front of a buffer after a copy to it.
take-overwrite :
    (buf from : List ℕ) (n : ℕ) → length from ≡ n → take n (overwrite buf 0 from) ≡ from
take-overwrite buf from n h = take-append n from (drop (0 + length from) buf) h

drop-header : (h : PacketHeader) (rest : List ℕ) → drop header_size (header_bytes h ++ rest) ≡ rest
unfolding header_bytes
drop-header h rest = refl

-- A packet that Send takes.
pub record IsSendable (n : Network) (hdr : PacketHeader) (bytes : List ℕ) : Type 0 where
  pub idle : n.send_busy ≡ false
  pub positive : 0 < hdr.length
  pub fits : hdr.length ≤ max_packet_size
  pub ours : hdr.from ≡ n.ident
  pub whole : hdr.length ≤ length bytes
  pub to_int : IsInt hdr.to
  pub from_int : IsInt hdr.from

unfoldable pub wire_of : List ℕ → PacketHeader → List ℕ → List ℕ
wire_of raw hdr bytes =
    header_bytes hdr ++ (take hdr.length bytes ++ drop (header_size + hdr.length) raw)

take_in-wire :
    (raw : List ℕ) (n : Network) (s : Interrupt) (hdr : PacketHeader) (bytes : List ℕ)
    → hdr.length ≤ max_packet_size
    → hdr.length ≤ length bytes
    → IsInt hdr.to
    → IsInt hdr.from
    → hdr.to ≡ n.ident
    → take_in (wire_of raw hdr bytes) n s
      ≡ ok (
        true,
        record n {
          in_hdr = hdr;
          inbox = overwrite n.inbox 0 (take hdr.length bytes);
          packets_recvd = n.packets_recvd + 1;
        },
        s,
      )
unfolding take_in wire_of
take_in-wire raw n s hdr bytes fits whole t f ours =
    let rest = take hdr.length bytes ++ drop (header_size + hdr.length) raw in
    let same : int_eq hdr.to n.ident ≡ true = rw ours (int_eq_refl n.ident) in
    let short : leb hdr.length max_packet_size ≡ true = ground arith in
    let e : header_of_bytes (header_bytes hdr ++ rest) ≡ ok hdr =
      header_of_bytes-header_bytes hdr rest t f (omega arith) in
    rw
      (
        e,
        same,
        short,
        drop-header hdr rest,
        take-append hdr.length (take hdr.length bytes) (drop (header_size + hdr.length) raw)
            (length-take hdr.length bytes whole),
      )
      refl

-- The device with a packet in its inbox.
unfoldable pub taken : Network → PacketHeader → List ℕ → Network
taken n hdr bytes = record n {
  in_hdr = hdr;
  inbox = overwrite n.inbox 0 (take hdr.length bytes);
  packets_recvd = n.packets_recvd + 1;
}

pub receive-taken :
    (buffer : List ℕ) (n : Network) (hdr : PacketHeader) (bytes : List ℕ)
    → 0 < hdr.length
    → hdr.length ≤ length bytes
    → receive buffer (taken n hdr bytes) ≡ (
      hdr,
      overwrite buffer 0 (take hdr.length bytes),
      record (taken n hdr bytes) { in_hdr = record hdr { length = 0 } },
    )
unfolding receive taken
receive-taken buffer n hdr bytes positive whole =
    let full : (hdr.length == 0) ≡ false = ground arith in
    rw
      (
        full,
        take-overwrite n.inbox (take hdr.length bytes) hdr.length
            (length-take hdr.length bytes whole),
      )
      refl

module _ (poll done this : ℕ) where
  pub send-wire :
      (random : ℕ) (raw : List ℕ) (n : Network) (s : Interrupt) (hdr : PacketHeader)
      (bytes : List ℕ)
      → IsSendable n hdr bytes
      → random % 100 < n.chance
      → send poll done this random raw n s hdr bytes
        ≡ ok (
          some (hdr.to, wire_of raw hdr bytes),
          n,
          scheduled s done this network_time network_send_int,
        )
  unfolding send wire_of schedule
  send-wire random raw n s hdr bytes i luck =
      let same : int_eq hdr.from n.ident ≡ true = rw i.ours (int_eq_refl n.ident) in
      let sent : leb n.chance (random % 100) ≡ false = ground arith in
      let some_ : ltb 0 hdr.length ≡ true = lt→ltb 0 hdr.length i.positive in
      let short : leb hdr.length max_packet_size ≡ true = ground (arith, i.fits) in
      rw (i.idle, some_, short, same, sent) refl

  pub check_pkt_avail-wire :
      (raw : List ℕ) (n : Network) (s : Interrupt) (hdr : PacketHeader) (bytes : List ℕ)
      → n.in_hdr.length ≡ 0
      → hdr.length ≤ max_packet_size
      → hdr.length ≤ length bytes
      → IsInt hdr.to
      → IsInt hdr.from
      → hdr.to ≡ n.ident
      → check_pkt_avail poll done this (some (wire_of raw hdr bytes)) n s
        ≡ ok (true, taken n hdr bytes, scheduled s poll this network_time network_recv_int)
  unfolding check_pkt_avail schedule taken
  check_pkt_avail-wire raw n s hdr bytes empty fits whole t f ours =
      let free : (n.in_hdr.length == 0) ≡ true = ground arith in
      rw
        (
          free,
          take_in-wire raw n (scheduled s poll this network_time network_recv_int) hdr bytes fits
              whole t f ours,
        )
        refl

  -- What Send puts on the wire, and CheckPktAvail of the machine that it is for takes in, Receive gives:
  -- the same header, and its bytes at the front of the buffer; and there is room for the next packet.
  pub receive-send :
      (random : ℕ) (raw : List ℕ) (a b : Network) (s t : Interrupt) (hdr : PacketHeader)
      (bytes buffer : List ℕ)
      → IsSendable a hdr bytes
      → random % 100 < a.chance
      → hdr.to ≡ b.ident
      → b.in_hdr.length ≡ 0
      → (wire : List ℕ) × (s' t' : Interrupt) × (b' b'' : Network) × (send poll done this random raw
            a s hdr bytes
          ≡ ok (some (b.ident, wire), a, s'))
        × (check_pkt_avail poll done this (some wire) b t ≡ ok (true, b', t'))
        × (receive buffer b' ≡ (hdr, overwrite buffer 0 (take hdr.length bytes), b''))
        × (b''.in_hdr.length ≡ 0)
  receive-send random raw a b s t hdr bytes buffer i luck there free = (
    wire_of raw hdr bytes,
    scheduled s done this network_time network_send_int,
    scheduled t poll this network_time network_recv_int,
    taken b hdr bytes,
    record (taken b hdr bytes) { in_hdr = record hdr { length = 0 } },
    rw (← there) (send-wire random raw a s hdr bytes i luck),
    check_pkt_avail-wire raw b t hdr bytes free i.fits i.whole i.to_int i.from_int there,
    receive-taken buffer b hdr bytes i.positive i.whole,
    refl,
  )
