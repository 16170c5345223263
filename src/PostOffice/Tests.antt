-- ===== src/PostOffice/Tests.antt =====
-- A mail between two post offices: code/network/post.cc.
use nachos_lab.Base.{ℕ, ◌≡◌, refl, arith, true, false, none, some, List, [], ◌∷◌, ok, err, assert}
use nachos_lab.Base.Int.{pos}
use nachos_lab.Interrupt
use nachos_lab.Interrupt.{Interrupt}
use nachos_lab.Network.{PacketHeader, Network, check_pkt_avail}
use nachos_lab.PostOffice.{MailHeader, Mail, PostOffice, init, send, postal_delivery, receive}
use nachos_lab.PostOffice.Delivery.{with_mail, delivery-send}

abbrev clock : Interrupt
clock = record {
  level = Interrupt.int_off;
  pending = [];
  in_handler = false;
  yield_on_return = false;
  status = Interrupt.system_mode;
  total_ticks = 0;
  idle_ticks = 0;
  system_ticks = 0;
  user_ticks = 0;
}

-- The office of a machine, with two boxes.
abbrev office : ℕ → PostOffice
unfolding init
office ident =
    init
      (record {
        ident = pos ident;
        chance = 100;
        send_busy = false;
        in_hdr = record { to = pos 0; from = pos 0; length = 0 };
        inbox = [];
        packets_sent = 0;
        packets_recvd = 0;
      })
      (pos ident) 2

abbrev header : PacketHeader
header = record { to = pos 2; from = pos 0; length = 0 }

abbrev mail_header : MailHeader
mail_header = record { to = pos 1; from = pos 0; length = 2 }

abbrev mail : Mail
mail = record {
  pkt_hdr = record { to = pos 2; from = pos 1; length = 14 };
  mail_hdr = mail_header;
  data_ = 8 ∷ 9 ∷ [];
}

-- A box with the mail gives it once; an empty box makes the thread wait, and there is no third box.
tests_receive :
    (receive (pos 1) (record (office 2) { boxes = [] ∷ (mail ∷ []) ∷ [] })
      ≡ ok (some mail, record (office 2) { boxes = [] ∷ [] ∷ [] }))
    × (receive (pos 0) (office 2) ≡ ok (none, office 2))
    × (receive (pos 2) (office 2) ≡ err assert)
unfolding receive init
tests_receive = (refl, refl, refl)

delivery-send_example :
    (wire : List ℕ) × (s' t' : Interrupt) × (n n' : Network) × (buffer' : List ℕ) × (send 5 6 0 7 []
        []
        (office 1)
        clock
        header
        mail_header
        (8 ∷ 9 ∷ [])
      ≡ ok (some (pos 2, wire), office 1, s'))
    × (check_pkt_avail 5 6 0 (some wire) (office 2).network clock ≡ ok (true, n, t'))
    × (postal_delivery [] (record (office 2) { network = n })
        ≡ ok (
          buffer',
          record (office 2) { network = n'; boxes = with_mail (office 2).boxes 1 mail },
        ))
unfolding init
delivery-send_example =
    delivery-send 5 6 0 7 [] [] (office 1) (office 2) clock clock header mail_header (8 ∷ 9 ∷ []) []
      (record {
        idle = refl;
        address = refl;
        short = omega arith;
        whole = omega arith;
        box = refl;
        to_int = omega arith;
        from_int = omega arith;
        machine_int = omega arith;
        address_int = omega arith;
      })
      (omega arith) refl refl refl
