-- ===== src/Network/Packets.antt =====
-- machine/network.cc: a packet on its way from one machine's device to another's.
use csci350_project.Base.{
  ℕ, ◌+◌, ◌*◌, ◌/◌, ◌%◌, ◌^◌, ◌≤◌, ◌<◌, ◌≡◌, refl, ap, ◌∙◌, arith, List, [], ◌∷◌, ◌++◌, true, false,
  some, ltb, leb, ◌==◌, length, length-append, take, drop, ==_self, ==_false, lt→ltb, le→leb,
}
use csci350_project.Network.{
  PacketHeader, header_size, max_packet_size, max_wire_size, copy, fill, header_bytes, take_header,
}
use csci350_project.Network.Device.{Network, send, check_pkt_avail, receive}

take-prefix : (xs ys : List ℕ) → take (length xs) (xs ++ ys) ≡ xs
take-prefix [] ys = refl
take-prefix (x ∷ xs) ys = ap (λ zs. x ∷ zs) (take-prefix xs ys)

pub copy-prefix : (n : ℕ) (xs ys : List ℕ) → n ≡ length xs → copy n (xs ++ ys) ≡ some xs
unfolding copy
copy-prefix n xs ys e =
    let fits : leb n (length (xs ++ ys)) ≡ true =
      le→leb n (length (xs ++ ys)) (omega (arith, e, length-append xs ys)) in
    rw fits (ap some (ap (λ k. take k (xs ++ ys)) e ∙ take-prefix xs ys))

pub copy_lem : (n : ℕ) (xs : List ℕ) → n ≤ length xs → copy n xs ≡ some (take n xs)
unfolding copy
copy_lem n xs h = let fits = le→leb n (length xs) h in rw fits refl

pub fill_lem :
    (array bytes : List ℕ)
    → length bytes ≤ length array
    → fill array bytes ≡ some (bytes ++ drop (length bytes) array)
unfolding fill
fill_lem array bytes h = let fits = le→leb (length bytes) (length array) h in rw fits refl

word_lem :
    (n : ℕ)
    → n < 2 ^ 32
    → n % 256 + 256 * (n / 256 % 256) + 65536 * (n / 65536 % 256) + 16777216 * (n / 16777216 % 256)
      ≡ n
word_lem n h = omega (arith, h)

-- Every field of the header is a word.
abbrev pub IsWords : PacketHeader → Type 0
IsWords h = (h.to < 2 ^ 32) × (h.from < 2 ^ 32) × (h.length < 2 ^ 32)

pub take_header-header_bytes :
    (h : PacketHeader) (rest : List ℕ)
    → IsWords h
    → take_header (header_bytes h rest) ≡ some (h, rest)
unfolding take_header header_bytes
take_header-header_bytes h rest (t, f, l) =
    rw (word_lem h.to t, word_lem h.from f, word_lem h.length l) refl

pub length-header_bytes :
    (h : PacketHeader) (rest : List ℕ) → length (header_bytes h rest) ≡ header_size + length rest
unfolding header_bytes
length-header_bytes h rest = omega arith

pub header_bytes-append :
    (h : PacketHeader) (xs ys : List ℕ) → header_bytes h xs ++ ys ≡ header_bytes h (xs ++ ys)
unfolding header_bytes
header_bytes-append h xs ys = refl

-- The device: a packet of `text` with the header `hdr` goes out, comes in and is read.
module _ (hdr : PacketHeader) (text : List ℕ) (words : IsWords hdr) (some_text : 0 < length text)
    (size : hdr.length ≡ length text) (small : length text ≤ max_packet_size) where
  abbrev pub on_wire : List ℕ → List ℕ
  on_wire wire = header_bytes hdr (text ++ drop (length (header_bytes hdr text)) wire)

  positive : ltb 0 hdr.length ≡ true
  positive = lt→ltb 0 hdr.length (omega (arith, size, some_text))

  fits : leb hdr.length max_packet_size ≡ true
  fits = le→leb hdr.length max_packet_size (omega (arith, size, small))

  not_zero : (hdr.length == 0) ≡ false
  not_zero = ==_false hdr.length 0 (λ e. omega (arith, e, size, some_text))

  pub send_lem :
      (wire rest : List ℕ) (n : Network)
      → n.send_busy ≡ false
      → n.ident ≡ hdr.from
      → length wire ≡ max_wire_size
      → send false wire n hdr (text ++ rest) ≡ some (some (on_wire wire))
  unfolding send
  send_lem wire rest n idle own room =
      let from_here : (hdr.from == n.ident) ≡ true =
        ap (λ i. hdr.from == i) own ∙ ==_self hdr.from in
      let copied = copy-prefix hdr.length text rest size in
      let filled =
        fill_lem wire (header_bytes hdr text)
          (omega (arith, small, room, length-header_bytes hdr text))
        ∙ ap some (header_bytes-append hdr text _) in
      rw (idle, positive, fits, from_here, copied, filled) refl

  pub check_lem :
      (rest : List ℕ) (n : Network)
      → n.ident ≡ hdr.to
      → n.in_hdr.length ≡ 0
      → length n.inbox ≡ max_packet_size
      → check_pkt_avail n (some (header_bytes hdr (text ++ rest)))
        ≡ some (record n { in_hdr = hdr; inbox = text ++ drop (length text) n.inbox }, true)
  unfolding check_pkt_avail
  check_lem rest n own empty room =
      let free : (n.in_hdr.length == 0) ≡ true = ap (λ k. k == 0) empty in
      let for_us : (hdr.to == n.ident) ≡ true = ap (λ i. hdr.to == i) own ∙ ==_self hdr.to in
      let parsed = take_header-header_bytes hdr (text ++ rest) words in
      let copied = copy-prefix hdr.length text rest size in
      let filled = fill_lem n.inbox text (omega (arith, small, room)) in
      rw (free, parsed, for_us, fits, copied, filled) refl

  pub receive_lem :
      (rest array : List ℕ) (n : Network)
      → length array ≡ max_packet_size
      → receive (record n { in_hdr = hdr; inbox = text ++ rest }) array
        ≡ some (
          hdr,
          text ++ drop (length text) array,
          record n { in_hdr = record hdr { length = 0 }; inbox = text ++ rest },
        )
  unfolding receive
  receive_lem rest array n room =
      let copied = copy-prefix hdr.length text rest size in
      let filled = fill_lem array text (omega (arith, small, room)) in
      rw (not_zero, copied, filled) refl
