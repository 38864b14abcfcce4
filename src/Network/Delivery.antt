-- ===== src/Network/Delivery.antt =====
-- machine/network.cc and network/post.cc: a message on its way from one machine's post office to a
-- mailbox of another's.
use csci350_project.Base.{
  ℕ, ◌+◌, ◌%◌, ◌^◌, ◌≤◌, ◌<◌, ◌≡◌, refl, sym, ap, ◌∙◌, arith, List, [], ◌∷◌, ◌++◌, true, false,
  Option, some, ◌>>=◌, leb, length, length-take, take, drop, get_elem?, set, get_elem?-set-some,
  lt→ltb, le→leb,
}
use csci350_project.Network.{
  PacketHeader, header_size, max_packet_size, max_wire_size, copy, fill, header_bytes, take_header,
}
use csci350_project.Network.Device.{check_pkt_avail}
use csci350_project.Network.Post.{
  Mail, MailHeader, PostOffice, got, new_mail, put, post_send, postal_delivery, post_receive,
  get_mail,
}
use csci350_project.Network.Packets.{
  copy-prefix, fill_lem, copy_lem, IsWords, take_header-header_bytes, length-header_bytes,
  header_bytes-append, on_wire, send_lem, check_lem, receive_lem,
}

-- A message that `a` sends, that is not lost, comes into the device of `b`, and `b` delivers it. The
-- arrays are those that `new char` hands out.
unfoldable pub transmit :
    List ℕ
    → List ℕ
    → List ℕ
    → PostOffice
    → PostOffice
    → PacketHeader
    → MailHeader
    → List ℕ
    → Option PostOffice
transmit array wire buffer a b pkt_hdr mail_hdr text = do
  socket ← post_send false array wire a pkt_hdr mail_hdr text
  (network, told) ← check_pkt_avail b.network socket
  postal_delivery buffer (record b { network = network })

-- The header that the packet has on its way.
abbrev pub sent_header : PostOffice → PacketHeader → MailHeader → PacketHeader
sent_header a pkt_hdr mail_hdr = record pkt_hdr {
  from = a.net_addr;
  length = (mail_hdr.length + header_size) % 2 ^ 32;
}

-- The message fits and is for a mailbox that both post offices have, `a` can send, and `b` is the
-- machine that it is for and has no packet waiting in its device.
pub record IsReady (a b : PostOffice) (pkt_hdr : PacketHeader) (mail_hdr : MailHeader)
    (text array wire buffer : List ℕ) (box : List Mail) : Type 0 where
  pub short : mail_hdr.length ≤ 40
  pub given : mail_hdr.length ≤ length text
  pub to_box : mail_hdr.to < 2 ^ 31
  pub box_here : mail_hdr.to < a.num_boxes
  pub box_there : mail_hdr.to < b.num_boxes
  pub holds : get_elem? b.boxes mail_hdr.to ≡ some box
  pub idle : a.network.send_busy ≡ false
  pub own : a.network.ident ≡ a.net_addr
  pub for_b : b.network.ident ≡ pkt_hdr.to
  pub no_packet : b.network.in_hdr.length ≡ 0
  pub mail_words : mail_hdr.from < 2 ^ 32
  pub packet_words : (pkt_hdr.to < 2 ^ 32) × (a.net_addr < 2 ^ 32)
  pub inbox_size : length b.network.inbox ≡ max_packet_size
  pub array_size : length array ≡ max_packet_size
  pub wire_size : length wire ≡ max_wire_size
  pub buffer_size : length buffer ≡ max_packet_size

module _ (a b : PostOffice) (pkt_hdr : PacketHeader) (mail_hdr : MailHeader)
    (text array wire buffer : List ℕ) (box : List Mail)
    (ready : IsReady a b pkt_hdr mail_hdr text array wire buffer box) where
  abbrev hdr : PacketHeader
  hdr = sent_header a pkt_hdr mail_hdr

  abbrev bytes : List ℕ
  bytes = take mail_hdr.length text

  abbrev payload : List ℕ
  payload = header_bytes mail_hdr bytes

  length-bytes : mail_hdr.length ≡ length bytes
  length-bytes = ground (arith, length-take mail_hdr.length text, ready.given)

  length-payload : length payload ≡ 12 + mail_hdr.length
  length-payload = omega (arith, length-header_bytes mail_hdr bytes, length-bytes)

  size : hdr.length ≡ length payload
  size = omega (arith, length-payload, ready.short)

  words : IsWords hdr
  words = (ready.packet_words.0, ready.packet_words.1, omega (arith, ready.short))

  mail-IsWords : IsWords mail_hdr
  mail-IsWords = (omega (arith, ready.to_box), ready.mail_words, omega (arith, ready.short))

  some_payload : 0 < length payload
  some_payload = omega (arith, length-payload)

  small_payload : length payload ≤ max_packet_size
  small_payload = omega (arith, length-payload, ready.short)

  is_short : leb mail_hdr.length 40 ≡ true
  is_short = le→leb mail_hdr.length 40 ready.short

  post_send_lem :
      post_send false array wire a pkt_hdr mail_hdr text
      ≡ some (some (on_wire hdr payload words some_payload size small_payload wire))
  unfolding post_send
  post_send_lem =
      let in_range = lt→ltb mail_hdr.to (2 ^ 31) ready.to_box in
      let here = lt→ltb mail_hdr.to a.num_boxes ready.box_here in
      let copied : copy mail_hdr.length text ≡ some bytes =
        copy_lem mail_hdr.length text ready.given in
      let filled = fill_lem array payload (omega (arith, small_payload, ready.array_size)) in
      rw (is_short, in_range, here, copied, filled)
        (send_lem hdr payload words some_payload size small_payload wire _ a.network ready.idle
          ready.own ready.wire_size)

  -- The device of `b` once the packet is read out of it, and its post office with the message in the
  -- mailbox.
  abbrev inbox : List ℕ
  inbox = payload ++ drop (length payload) b.network.inbox

  abbrev pub delivered : PostOffice
  delivered = record b {
    network = record b.network { in_hdr = record hdr { length = 0 }; inbox = inbox };
    boxes =
        set b.boxes mail_hdr.to
          (box ++ (record { pkt_hdr = hdr; mail_hdr = mail_hdr; text = bytes } ∷ []));
  }

  put_lem :
      (rest : List ℕ)
      → put box hdr mail_hdr (bytes ++ rest)
        ≡ some (box ++ (record { pkt_hdr = hdr; mail_hdr = mail_hdr; text = bytes } ∷ []))
  unfolding put new_mail
  put_lem rest =
      let copied = copy-prefix mail_hdr.length bytes rest length-bytes in rw (is_short, copied) refl

  postal_delivery_lem :
      postal_delivery buffer
        (record b { network = record b.network { in_hdr = hdr; inbox = inbox } })
      ≡ some delivered
  unfolding postal_delivery
  postal_delivery_lem =
      let in_range = lt→ltb mail_hdr.to (2 ^ 31) ready.to_box in
      let there = lt→ltb mail_hdr.to b.num_boxes ready.box_there in
      let left : List ℕ = drop (length payload) buffer in
      let read =
        receive_lem hdr payload words some_payload size small_payload
          (drop (length payload) b.network.inbox) buffer b.network ready.buffer_size in
      let parsed : take_header (payload ++ left) ≡ some (mail_hdr, bytes ++ left) =
        ap take_header (header_bytes-append mail_hdr bytes left)
        ∙ take_header-header_bytes mail_hdr (bytes ++ left) mail-IsWords in
      rw (read, parsed, in_range, there, is_short, ready.holds, put_lem left) refl

  -- A message of at most 40 bytes, for a mailbox that both post offices have, that `a` sends and the
  -- network does not lose, passes every ASSERT on its way and stands last in that mailbox of `b`, with
  -- the sender's address and the first bytes of the text, as many as the mail's header says; the other
  -- mailboxes of `b` stay as they are, and its device is free for the next packet.
  pub transmit_lem : transmit array wire buffer a b pkt_hdr mail_hdr text ≡ some delivered
  unfolding transmit
  transmit_lem =
      let arrives =
        check_lem hdr payload words some_payload size small_payload
          (drop (length (header_bytes hdr payload)) wire) b.network ready.for_b ready.no_packet
          ready.inbox_size in
      rw (post_send_lem, arrives) postal_delivery_lem

append-nil : (xs : List ℕ) → xs ++ [] ≡ xs
append-nil [] = refl
append-nil (x ∷ xs) = ap (λ ys. x ∷ ys) (append-nil xs)

-- For a message that `a` and `b` are ready for, as above, and an empty mailbox: after it was sent, not
-- lost, and delivered, Receive into an array with room for it gives the packet's header with the sender's address, the mail's header as it was sent, and at the start of the
-- array the first bytes of the text, as many as the mail's header says, and leaves the mailbox empty.
pub post_receive-transmit :
    (a b : PostOffice) (pkt_hdr : PacketHeader) (mail_hdr : MailHeader)
    (text array wire buffer out : List ℕ)
    (ready : IsReady a b pkt_hdr mail_hdr text array wire buffer [])
    → mail_hdr.length ≤ length out
    → (transmit array wire buffer a b pkt_hdr mail_hdr text >>= λ b'.
        post_receive mail_hdr.to out b')
      ≡ some (
          got
            (sent_header a pkt_hdr mail_hdr)
            mail_hdr
            (take mail_hdr.length text ++ drop mail_hdr.length out)
            (let b' = delivered a b pkt_hdr mail_hdr text array wire buffer [] ready in
              record b' { boxes = set b'.boxes mail_hdr.to [] }))
unfolding post_receive get_mail
post_receive-transmit a b pkt_hdr mail_hdr text array wire buffer out ready room =
    let in_range = lt→ltb mail_hdr.to (2 ^ 31) ready.to_box in
    let there = lt→ltb mail_hdr.to b.num_boxes ready.box_there in
    let short = le→leb mail_hdr.length 40 ready.short in
    let bytes : List ℕ = take mail_hdr.length text in
    let size : mail_hdr.length ≡ length bytes =
      ground (arith, length-take mail_hdr.length text, ready.given) in
    let stored =
      get_elem?-set-some b.boxes mail_hdr.to []
        (record { pkt_hdr = sent_header a pkt_hdr mail_hdr; mail_hdr = mail_hdr; text = bytes }
          ∷ [])
        ready.holds in
    let copied : copy mail_hdr.length bytes ≡ some bytes =
      ap (copy mail_hdr.length) (sym (append-nil bytes))
      ∙ copy-prefix mail_hdr.length bytes [] size in
    let filled : fill out bytes ≡ some (bytes ++ drop mail_hdr.length out) =
      fill_lem out bytes (omega (arith, size, room))
      ∙ ap (λ n. some (bytes ++ drop n out)) (sym size) in
    rw
      (
        transmit_lem a b pkt_hdr mail_hdr text array wire buffer [] ready,
        in_range,
        there,
        stored,
        copied,
        filled,
        short,
      )
      refl
