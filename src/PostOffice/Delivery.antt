-- ===== src/PostOffice/Delivery.antt =====
-- A mail from one machine to a box of another: Send and PostalDelivery of code/network/post.cc over the
-- devices of code/machine/network.cc.
use nachos_lab.Base.{
  ℕ, ◌+◌, ◌%◌, ◌^◌, ◌<◌, ◌≤◌, ◌≡◌, refl, sym, arith, true, false, some, List, [], ◌∷◌, ◌++◌, take,
  drop, length, set, get_or, take-append, length-take, length-append, leb, ok, lt→ltb, ltb→lt,
}
use mathlib.Core.List.{append_assoc}
use nachos_lab.Base.Int.{
  ℤ, pos, negsuc, between, index, word_of_int, IsInt, word_of_int-lt, int-word,
}
use nachos_lab.Base.Yields.{fetch-get_or}
use nachos_lab.OpenFile.{overwrite}
use nachos_lab.Interrupt.{Interrupt, network_send_int, network_recv_int, scheduled}
use nachos_lab.Network.{PacketHeader, Network, check_pkt_avail, network_time}
use nachos_lab.Network.Header.{bytes-word}
use nachos_lab.Network.Transit.{
  IsSendable, wire_of, taken, receive-taken, send-wire, check_pkt_avail-wire,
}
use nachos_lab.PostOffice.{
  MailHeader, Mail, PostOffice, header_size, max_mail_size, mail_header_bytes, mail_header_of_bytes,
  packet_header, packet_bytes, postal_delivery, send,
}

mail_header_of_bytes-mail_header_bytes :
    (h : MailHeader) (rest : List ℕ)
    → IsInt h.to
    → IsInt h.from
    → h.length < 2 ^ 32
    → mail_header_of_bytes (mail_header_bytes h ++ rest) ≡ ok h
unfolding mail_header_of_bytes mail_header_bytes
mail_header_of_bytes-mail_header_bytes h rest t f l =
    rw
      (
        bytes-word (word_of_int h.to) (word_of_int-lt h.to),
        bytes-word (word_of_int h.from) (word_of_int-lt h.from),
        bytes-word h.length l,
        int-word h.to t,
        int-word h.from f,
      )
      refl

drop-mail_header :
    (h : MailHeader) (rest : List ℕ) → drop header_size (mail_header_bytes h ++ rest) ≡ rest
unfolding mail_header_bytes
drop-mail_header h rest = refl

length-mail_header_bytes : (h : MailHeader) → length (mail_header_bytes h) ≡ 12
unfolding mail_header_bytes
length-mail_header_bytes h = refl

-- A mail that Send takes, from the office `a`.
pub record IsMailable (a : PostOffice) (pkt : PacketHeader) (mail : MailHeader) (bytes : List ℕ)
    : Type 0 where
  pub idle : a.network.send_busy ≡ false
  pub address : a.network.ident ≡ a.net_addr
  pub short : mail.length ≤ max_mail_size
  pub whole : mail.length ≤ length bytes
  pub box : between mail.to (length a.boxes) ≡ true
  pub to_int : IsInt mail.to
  pub from_int : IsInt mail.from
  pub machine_int : IsInt pkt.to
  pub address_int : IsInt a.net_addr

-- What a packet holds of the mail.
abbrev front : MailHeader → List ℕ → List ℕ
front mail bytes = mail_header_bytes mail ++ take mail.length bytes

length-front :
    (mail : MailHeader) (bytes : List ℕ)
    → mail.length ≤ length bytes
    → length (front mail bytes) ≡ mail.length + 12
length-front mail bytes w = omega (
  arith,
  length-append (mail_header_bytes mail) (take mail.length bytes),
  length-mail_header_bytes mail,
  length-take mail.length bytes w,
)

packet-front :
    (raw : List ℕ) (mail : MailHeader) (bytes : List ℕ)
    → packet_bytes raw mail bytes ≡ front mail bytes ++ drop (12 + mail.length) raw
unfolding packet_bytes
packet-front raw mail bytes =
    sym
      (append_assoc (mail_header_bytes mail) (take mail.length bytes) (drop (12 + mail.length) raw))

take-packet :
    (raw : List ℕ) (mail : MailHeader) (bytes : List ℕ)
    → mail.length ≤ length bytes
    → take (mail.length + 12) (packet_bytes raw mail bytes) ≡ front mail bytes
take-packet raw mail bytes w = rw (packet-front raw mail bytes) (
    take-append (mail.length + 12) (front mail bytes) (drop (12 + mail.length) raw)
      (length-front mail bytes w))

length-packet :
    (raw : List ℕ) (mail : MailHeader) (bytes : List ℕ)
    → mail.length ≤ length bytes
    → mail.length + 12 ≤ length (packet_bytes raw mail bytes)
length-packet raw mail bytes w = rw (packet-front raw mail bytes) (
    omega (
      arith,
      length-append (front mail bytes) (drop (12 + mail.length) raw),
      length-front mail bytes w,
    ))

sendable :
    (raw : List ℕ) (a : PostOffice) (pkt : PacketHeader) (mail : MailHeader) (bytes : List ℕ)
    → IsMailable a pkt mail bytes
    → IsSendable a.network (packet_header a pkt mail) (packet_bytes raw mail bytes)
sendable raw a pkt mail bytes i = record {
  idle = i.idle;
  positive = omega arith;
  fits = omega (arith, i.short);
  ours = sym i.address;
  whole = length-packet raw mail bytes i.whole;
  to_int = i.machine_int;
  from_int = i.address_int;
}

between-lt : (z : ℤ) (n : ℕ) → between z n ≡ true → index z < n
between-lt (pos k) n h = ltb→lt k n h
between-lt (negsuc k) n h = cc

-- The last mail of a box.
abbrev pub with_mail : List (List Mail) → ℕ → Mail → List (List Mail)
with_mail boxes box mail = set boxes box (get_or boxes box [] ++ mail ∷ [])

postal_delivery-taken :
    (raw buffer : List ℕ) (b : PostOffice) (hdr : PacketHeader) (mail : MailHeader) (bytes : List ℕ)
    → hdr.length ≡ mail.length + 12
    → mail.length ≤ max_mail_size
    → mail.length ≤ length bytes
    → IsInt mail.to
    → IsInt mail.from
    → between mail.to (length b.boxes) ≡ true
    → (buffer' : List ℕ) × (n : Network) × (postal_delivery buffer
          (record b { network = taken b.network hdr (packet_bytes raw mail bytes) })
        ≡ ok (
          buffer',
          record b {
            network = n;
            boxes =
                with_mail b.boxes
                  (index mail.to)
                  (record { pkt_hdr = hdr; mail_hdr = mail; data_ = take mail.length bytes });
          },
        ))
unfolding postal_delivery
postal_delivery-taken raw buffer b hdr mail bytes size short w t f inside =
    let p = packet_bytes raw mail bytes in
    let s : leb mail.length max_mail_size ≡ true = ground arith in
    let there = between-lt mail.to (length b.boxes) inside in
    let got =
      receive-taken buffer b.network hdr p (omega arith)
        (omega (arith, length-packet raw mail bytes w)) in
    let part : take hdr.length p ≡ front mail bytes = rw size (take-packet raw mail bytes w) in
    let rest : List ℕ = drop (0 + length (front mail bytes)) buffer in
    let whole : overwrite buffer 0 (take hdr.length p)
        ≡ mail_header_bytes mail ++ (take mail.length bytes ++ rest) =
      rw part (append_assoc (mail_header_bytes mail) (take mail.length bytes) rest) in
    (
      mail_header_bytes mail ++ (take mail.length bytes ++ rest),
      record (taken b.network hdr p) { in_hdr = record hdr { length = 0 } },
      rw
          (
            got,
            whole,
            mail_header_of_bytes-mail_header_bytes mail (take mail.length bytes ++ rest) t f
                (omega arith),
            inside,
            s,
            drop-mail_header mail (take mail.length bytes ++ rest),
            fetch-get_or b.boxes (index mail.to) there [],
            take-append mail.length (take mail.length bytes) rest (length-take mail.length bytes w),
            lt→ltb (index mail.to) (length b.boxes) there,
          )
          refl,
    )

module _ (poll done this : ℕ) where
  -- From the office `a` to a box of the office `b`, over devices that are free, where the packet is not
  -- lost: Send puts a packet on the wire; the device of `b` takes it in; and the round of PostalDelivery
  -- that follows puts, as the last mail of the box that the mail names, its header and its bytes, with the
  -- address of `a` as the sender. Nothing fails, and no other box changes.
  pub delivery-send :
      (random : ℕ) (raw raw_wire : List ℕ) (a b : PostOffice) (s t : Interrupt) (pkt : PacketHeader)
      (mail : MailHeader) (bytes buffer : List ℕ)
      → IsMailable a pkt mail bytes
      → random % 100 < a.network.chance
      → pkt.to ≡ b.network.ident
      → b.network.in_hdr.length ≡ 0
      → between mail.to (length b.boxes) ≡ true
      → (wire : List ℕ) × (s' t' : Interrupt) × (n n' : Network) × (buffer' : List ℕ) × (send poll
            done this random raw raw_wire a s pkt mail bytes
          ≡ ok (some (b.network.ident, wire), a, s'))
        × (check_pkt_avail poll done this (some wire) b.network t ≡ ok (true, n, t'))
        × (postal_delivery buffer (record b { network = n })
            ≡ ok (
              buffer',
              record b {
                network = n';
                boxes = with_mail b.boxes (index mail.to) (record {
                  pkt_hdr = packet_header a pkt mail;
                  mail_hdr = mail;
                  data_ = take mail.length bytes;
                });
              },
            ))
  unfolding send
  delivery-send random raw raw_wire a b s t pkt mail bytes buffer i luck there free inside =
      let hdr = packet_header a pkt mail in
      let p = packet_bytes raw mail bytes in
      let can = sendable raw a pkt mail bytes i in
      let short : leb mail.length max_mail_size ≡ true = ground (arith, i.short) in
      let (buffer', n', put_) =
        postal_delivery-taken raw buffer b hdr mail bytes refl i.short i.whole i.to_int i.from_int
          inside in
      (
        wire_of raw_wire hdr p,
        scheduled s done this network_time network_send_int,
        scheduled t poll this network_time network_recv_int,
        taken b.network hdr p,
        n',
        buffer',
        rw (short, i.box, send-wire poll done this random raw_wire a.network s hdr p can luck)
            (rw there refl),
        check_pkt_avail-wire poll done this raw_wire b.network t hdr p free can.fits can.whole
            can.to_int can.from_int there,
        put_,
      )
