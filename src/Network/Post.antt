-- ===== src/Network/Post.antt =====
-- network/post.cc: the post office of a machine. A mailbox is a list of messages; the locks,
-- semaphores and conditions around it are left out: `Send` goes up to its wait for the interrupt, and
-- a `Receive` from an empty mailbox waits. A mail's header has the fields of a packet's.
use csci350_project.Base.{
  ℕ, ◌+◌, ◌-◌, ◌%◌, ◌^◌, List, [], ◌∷◌, ◌++◌, Bool, ◌&&◌, Option, none, some, ◌>>=◌, if◌then◌else◌,
  ltb, leb, get_elem?, set,
}
use csci350_project.Network.{
  PacketHeader, header_size, max_packet_size, copy, fill, header_bytes, take_header,
}
use csci350_project.Network.Device.{Network, send, receive}

abbrev pub MailHeader : Type 0
MailHeader = PacketHeader

abbrev pub max_mail_size : ℕ
max_mail_size = max_packet_size - header_size

-- Of `data` only the message's bytes, which are all that is read of it.
pub record Mail : Type 0 where
  pub pkt_hdr : PacketHeader
  pub mail_hdr : MailHeader
  pub text : List ℕ

pub record PostOffice : Type 0 where
  pub network : Network
  pub net_addr : ℕ
  pub boxes : List (List Mail)
  pub num_boxes : ℕ

-- The constructor `Mail`.
unfoldable pub new_mail : PacketHeader → MailHeader → List ℕ → Option Mail
new_mail pkt_hdr mail_hdr text =
    if leb mail_hdr.length max_mail_size
    then (copy mail_hdr.length text >>= λ bytes.
        some (record { pkt_hdr = pkt_hdr; mail_hdr = mail_hdr; text = bytes }))
    else none

-- `0 <= to && to < numBoxes`, with `to` an `int`.
abbrev pub is_box : PostOffice → ℕ → Bool
is_box po to = ltb to (2 ^ 31) && ltb to po.num_boxes

-- `MailBox::Put`
unfoldable pub put : List Mail → PacketHeader → MailHeader → List ℕ → Option (List Mail)
put messages pkt_hdr mail_hdr text =
    new_mail pkt_hdr mail_hdr text >>= λ mail. some (messages ++ (mail ∷ []))

-- `PostOffice::Send`: what goes into the socket. `array` and `wire` are what `new char` hands out here
-- and in the device.
unfoldable pub post_send :
    Bool
    → List ℕ
    → List ℕ
    → PostOffice
    → PacketHeader
    → MailHeader
    → List ℕ
    → Option (Option (List ℕ))
post_send lost array wire po pkt_hdr mail_hdr text =
    if leb mail_hdr.length max_mail_size && is_box po mail_hdr.to
    then (copy mail_hdr.length text >>= λ bytes.
        fill array (header_bytes mail_hdr bytes) >>= λ buffer.
        send lost wire po.network
          (record pkt_hdr { from = po.net_addr; length = (mail_hdr.length + header_size) % 2 ^ 32 })
          buffer)
    else none

-- A round of `PostOffice::PostalDelivery`, from the end of its wait for a message to the next.
unfoldable pub postal_delivery : List ℕ → PostOffice → Option PostOffice
postal_delivery buffer po = do
  (pkt_hdr, filled, network) ← receive po.network buffer
  (mail_hdr, text) ← take_header filled
  if is_box po mail_hdr.to && leb mail_hdr.length max_mail_size
      then (get_elem? po.boxes mail_hdr.to >>= λ box. put box pkt_hdr mail_hdr text >>= λ box'.
          some (record po { network = network; boxes = set po.boxes mail_hdr.to box' }))
      else none

-- The end of `PostOffice::Receive`, or its wait.
pub data Got : Type 0 where
  waits : Got
  got : PacketHeader → MailHeader → List ℕ → PostOffice → Got

-- `MailBox::Get`, where the mailbox holds `messages`, into the caller's array, and the check of the
-- length after it.
unfoldable pub get_mail : ℕ → List ℕ → PostOffice → List Mail → Option Got
get_mail box array po [] = some waits
get_mail box array po (mail ∷ rest) = copy mail.mail_hdr.length mail.text >>= λ bytes.
    fill array bytes >>= λ filled.
    if leb mail.mail_hdr.length max_mail_size
    then some (got mail.pkt_hdr mail.mail_hdr filled (record po { boxes = set po.boxes box rest }))
    else none

-- `PostOffice::Receive`
unfoldable pub post_receive : ℕ → List ℕ → PostOffice → Option Got
post_receive box array po =
    if is_box po box
    then (get_elem? po.boxes box >>= λ messages. get_mail box array po messages)
    else none
