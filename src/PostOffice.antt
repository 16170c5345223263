-- ===== src/PostOffice.antt =====
-- code/network/post.cc and post.h: mail boxes over the network device. The messages of a box, a
-- SynchList of code/threads/synchlist.cc, are the sequence of its items, and the waits of Send and of
-- the postal worker on their semaphores end a call of the model: what comes before the wait, and what
-- comes after it, are calls of their own.
pub mod Delivery
mod Tests
use nachos_lab.Base.{
  ℕ, zero, suc, ◌+◌, ◌-◌, Bool, true, Option, none, some, List, [], ◌∷◌, ◌++◌, take, drop, length,
  leb, Result, ok, err, wild, ◌>>=◌, ◌>>◌, check, fetch, put,
}
use nachos_lab.Base.Int.{ℤ, between, index, word_of_int, int_of_word}
use nachos_lab.FileHeader.Words.{bytes_of_words, words_of_bytes}
use nachos_lab.Interrupt.{Interrupt}
use nachos_lab.Threads.{Threads}
use nachos_lab.Synch.{Semaphore, Lock, new_lock, v}
use nachos_lab.Network
use nachos_lab.Network.{Network, PacketHeader, max_packet_size}

pub record MailHeader : Type 0 where
  pub to : ℤ
  pub from : ℤ
  pub length : ℕ

abbrev pub header_size : ℕ
header_size = 12

abbrev pub max_mail_size : ℕ
max_mail_size = max_packet_size - header_size

pub record Mail : Type 0 where
  pub pkt_hdr : PacketHeader
  pub mail_hdr : MailHeader
  pub data_ : List ℕ

-- `numBoxes` is the number of boxes.
pub record PostOffice : Type 0 where
  pub network : Network
  pub net_addr : ℤ
  pub boxes : List (List Mail)
  pub message_available : Semaphore
  pub message_sent : Semaphore
  pub send_lock : Lock

unfoldable pub empty_boxes : ℕ → List (List Mail)
empty_boxes zero = []
empty_boxes (suc n) = [] ∷ empty_boxes n

-- The constructor, once `network` is there and before the postal worker is made.
unfoldable pub init : Network → ℤ → ℕ → PostOffice
unfolding empty_boxes new_lock
init network addr n_boxes = record {
  network = network;
  net_addr = addr;
  boxes = empty_boxes n_boxes;
  message_available = record { value = 0; queue = [] };
  message_sent = record { value = 0; queue = [] };
  send_lock = new_lock;
}

-- The constructor of Mail: the characters are those of the array that are in use.
unfoldable pub new_mail : PacketHeader → MailHeader → List ℕ → Result Mail
new_mail pkt_h mail_h msg_data = do
  check (leb mail_h.length max_mail_size)
  ok (record { pkt_hdr = pkt_h; mail_hdr = mail_h; data_ = take mail_h.length msg_data })

-- MailBox::Put and Get, of the box with a number; Get gives none where the thread has to wait.
unfoldable pub put_mail :
    List (List Mail) → ℕ → PacketHeader → MailHeader → List ℕ → Result (List (List Mail))
unfolding new_mail
put_mail boxes box pkt_h mail_h msg = do
  mail ← new_mail pkt_h mail_h msg
  mails ← fetch boxes box
  put boxes box (mails ++ mail ∷ [])

unfoldable pub first_mail :
    List (List Mail) → ℕ → List Mail → Result (Option Mail × List (List Mail))
first_mail boxes box [] = ok (none, boxes)
first_mail boxes box (mail ∷ rest) = do boxes' ← put boxes box rest; ok (some mail, boxes')

unfoldable pub get_mail : List (List Mail) → ℕ → Result (Option Mail × List (List Mail))
unfolding first_mail
get_mail boxes box = do mails ← fetch boxes box; first_mail boxes box mails

-- `bcopy(&mailHdr, buffer, sizeof(MailHeader))` and `mailHdr = *(MailHeader *)buffer`
unfoldable pub mail_header_bytes : MailHeader → List ℕ
unfolding bytes_of_words
mail_header_bytes h = bytes_of_words (word_of_int h.to ∷ word_of_int h.from ∷ h.length ∷ [])

unfoldable pub mail_header_of_words : List ℕ → Result MailHeader
mail_header_of_words (a ∷ b ∷ c ∷ _) =
    ok (record { to = int_of_word a; from = int_of_word b; length = c })
mail_header_of_words _ = err wild

unfoldable pub mail_header_of_bytes : List ℕ → Result MailHeader
unfolding mail_header_of_words words_of_bytes
mail_header_of_bytes bytes = mail_header_of_words (words_of_bytes bytes)

-- A round of PostalDelivery after its P: `buffer` is what its buffer holds, and the first result what
-- it then holds.
unfoldable pub postal_delivery : List ℕ → PostOffice → Result (List ℕ × PostOffice)
unfolding Network.receive mail_header_of_bytes put_mail
postal_delivery buffer po = do
  let (pkt_hdr, buffer', network) = Network.receive buffer po.network
  mail_hdr ← mail_header_of_bytes buffer'
  check (between mail_hdr.to (length po.boxes))
  check (leb mail_hdr.length max_mail_size)
  boxes ← put_mail po.boxes (index mail_hdr.to) pkt_hdr mail_hdr (drop header_size buffer')
  ok (buffer', record po { network = network; boxes = boxes })

-- The packet that Send makes: `raw` is what the new buffer holds.
abbrev pub packet_header : PostOffice → PacketHeader → MailHeader → PacketHeader
packet_header po pkt_hdr mail_hdr = record pkt_hdr {
  from = po.net_addr;
  length = mail_hdr.length + header_size;
}

unfoldable pub packet_bytes : List ℕ → MailHeader → List ℕ → List ℕ
unfolding mail_header_bytes
packet_bytes raw mail_hdr bytes =
    mail_header_bytes mail_hdr
    ++ (take mail_hdr.length bytes ++ drop (header_size + mail_hdr.length) raw)

-- Send with the lock, up to its P. `poll`, `done` and `this` are those of the device, and `raw_wire`
-- what its buffer holds.
module _ (poll done this : ℕ) where
  unfoldable pub send :
      ℕ
      → List ℕ
      → List ℕ
      → PostOffice
      → Interrupt
      → PacketHeader
      → MailHeader
      → List ℕ
      → Result (Option (ℤ × List ℕ) × PostOffice × Interrupt)
  unfolding Network.send packet_bytes
  send random raw raw_wire po s pkt_hdr mail_hdr bytes = do
    check (leb mail_hdr.length max_mail_size)
    check (between mail_hdr.to (length po.boxes))
    (sent, network, s') ←
        Network.send poll done this random raw_wire po.network s (packet_header po pkt_hdr mail_hdr)
          (packet_bytes raw mail_hdr bytes)
    ok (sent, record po { network = network }, s')

abbrev pub is_short : Option Mail → Bool
is_short none = true
is_short (some mail) = leb mail.mail_hdr.length max_mail_size

-- Receive, with none where the thread has to wait for mail.
unfoldable pub receive : ℤ → PostOffice → Result (Option Mail × PostOffice)
unfolding get_mail
receive box po = do
  check (between box (length po.boxes))
  (mail, boxes) ← get_mail po.boxes (index box)
  check (is_short mail)
  ok (mail, record po { boxes = boxes })

-- The interrupt handlers.
unfoldable pub incoming_packet : PostOffice → Threads → PostOffice × Threads
unfolding v
incoming_packet po t =
    let (sem, t') = v po.message_available t in (record po { message_available = sem }, t')

unfoldable pub packet_sent : PostOffice → Threads → PostOffice × Threads
unfolding v
packet_sent po t = let (sem, t') = v po.message_sent t in (record po { message_sent = sem }, t')
