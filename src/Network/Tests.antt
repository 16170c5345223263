-- ===== src/Network/Tests.antt =====
-- Two machines on the network: code/machine/network.cc.
use nachos_lab.Base.{
  ℕ, ◌≡◌, refl, arith, true, false, none, some, List, [], ◌∷◌, take, Option, Result, ok, err,
  assert,
}
use nachos_lab.Base.Int.{ℤ, pos}
use nachos_lab.OpenFile.{overwrite}
use nachos_lab.Interrupt
use nachos_lab.Interrupt.{Interrupt}
use nachos_lab.Network.{PacketHeader, Network, check_pkt_avail, send, receive}
use nachos_lab.Network.Transit.{receive-send}

abbrev clock : Interrupt
clock = record {
  level = Interrupt.int_off;
  pending = [];
  in_handler = false;
  yield_on_return = false;
  status = Interrupt.system_mode;
  total_ticks = 0;
  idle_ticks = 0;
  system_ticks = 0;
  user_ticks = 0;
}

-- A machine with no packet.
abbrev machine : ℕ → Network
machine ident = record {
  ident = pos ident;
  chance = 90;
  send_busy = false;
  in_hdr = record { to = pos 0; from = pos 0; length = 0 };
  inbox = [];
  packets_sent = 0;
  packets_recvd = 0;
}

abbrev header : PacketHeader
header = record { to = pos 2; from = pos 1; length = 3 }

-- What goes out on the wire, where the packet is not lost.
abbrev wire : Result (Option (ℤ × List ℕ) × Network × Interrupt) → List ℕ
wire (ok (some (to, bytes), n, s)) = bytes
wire (ok (none, n, s)) = []
wire (err e) = []

-- A header of twelve bytes and three bytes; the chance is 90 of 100; a packet with the address of another
-- machine fails the ASSERT.
tests_send :
    (wire (send 5 6 0 7 [] (machine 1) clock header (11 ∷ 12 ∷ 13 ∷ 14 ∷ []))
      ≡ 2 ∷ 0 ∷ 0 ∷ 0 ∷ 1 ∷ 0 ∷ 0 ∷ 0 ∷ 3 ∷ 0 ∷ 0 ∷ 0 ∷ 11 ∷ 12 ∷ 13 ∷ [])
    × (wire (send 5 6 0 190 [] (machine 1) clock header (11 ∷ 12 ∷ 13 ∷ 14 ∷ [])) ≡ [])
    × (send 5 6 0 7 [] (machine 3) clock header (11 ∷ 12 ∷ 13 ∷ 14 ∷ []) ≡ err assert)
unfolding send
tests_send = (refl, refl, refl)

tests_receive-send :
    (wire : List ℕ) × (s' t' : Interrupt) × (b' b'' : Network) × (send 5 6 0 7 []
        (machine 1)
        clock
        header
        (11 ∷ 12 ∷ 13 ∷ 14 ∷ [])
      ≡ ok (some (pos 2, wire), machine 1, s'))
    × (check_pkt_avail 5 6 0 (some wire) (machine 2) clock ≡ ok (true, b', t'))
    × (receive [] b' ≡ (header, overwrite [] 0 (take 3 (11 ∷ 12 ∷ 13 ∷ 14 ∷ [])), b''))
    × (b''.in_hdr.length ≡ 0)
tests_receive-send =
    receive-send 5 6 0 7 [] (machine 1) (machine 2) clock clock header (11 ∷ 12 ∷ 13 ∷ 14 ∷ []) []
      (record {
        idle = refl;
        positive = omega arith;
        fits = omega arith;
        ours = refl;
        whole = omega arith;
        to_int = omega arith;
        from_int = omega arith;
      })
      (omega arith) refl refl
