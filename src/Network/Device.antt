-- ===== src/Network/Device.antt =====
-- machine/network.cc: the network device of a machine. The socket is the host's: what goes into it is a
-- result, and what is read from it an argument.
use csci350_project.Base.{
  ℕ, List, Bool, true, false, not, ◌&&◌, Option, none, some, ◌>>=◌, if◌then◌else◌, ltb, leb, ◌==◌,
}
use csci350_project.Network.{PacketHeader, max_packet_size, copy, fill, header_bytes, take_header}

pub record Network : Type 0 where
  pub ident : ℕ
  pub send_busy : Bool
  pub in_hdr : PacketHeader
  pub inbox : List ℕ

-- `Network::Send`: what goes into the socket, nothing where the packet is lost, which `lost` says;
-- `array` is what `new char` hands out.
unfoldable pub send : Bool → List ℕ → Network → PacketHeader → List ℕ → Option (Option (List ℕ))
send lost array n hdr text =
    if not n.send_busy && ltb 0 hdr.length && leb hdr.length max_packet_size && hdr.from == n.ident
    then (if lost
        then some none
        else (copy hdr.length text >>= λ bytes.
            fill array (header_bytes hdr bytes) >>= λ packet. some (some packet)))
    else none

-- `Network::SendDone`, up to the call of the handler.
unfoldable pub send_done : Network → Network
send_done n = record n { send_busy = false }

-- `Network::CheckPktAvail`: `socket` is the packet that waits there, if one does. The result is the
-- device, and whether the handler is told and the packet is out of the socket.
unfoldable pub check_pkt_avail : Network → Option (List ℕ) → Option (Network × Bool)
check_pkt_avail n none = some (n, false)
check_pkt_avail n (some packet) =
    if n.in_hdr.length == 0
    then (take_header packet >>= λ (hdr, rest).
        if hdr.to == n.ident && leb hdr.length max_packet_size
        then (copy hdr.length rest >>= λ bytes.
            fill n.inbox bytes >>= λ inbox. some (record n { in_hdr = hdr; inbox = inbox }, true))
        else none)
    else some (n, false)

-- `Network::Receive` into the caller's array.
unfoldable pub receive : Network → List ℕ → Option (PacketHeader × List ℕ × Network)
receive n array =
    let n' = record n { in_hdr = record n.in_hdr { length = 0 } } in
    if n.in_hdr.length == 0
    then some (n.in_hdr, array, n')
    else (copy n.in_hdr.length n.inbox >>= λ bytes.
        fill array bytes >>= λ filled. some (n.in_hdr, filled, n'))
