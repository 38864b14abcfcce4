-- ===== src/Tests/Mail.antt =====
-- network/post.cc: a message from machine 0 to machine 1.
use csci350_project.Base.{ℕ, ◌≡◌, refl, arith, List, [], ◌∷◌, false, some, ◌>>=◌, replicate}
use csci350_project.Network.{PacketHeader}
use csci350_project.Network.Post.{MailHeader, PostOffice, got, post_receive}
use csci350_project.Network.Delivery.{transmit, IsReady, delivered, post_receive-transmit}

abbrev office : ℕ → PostOffice
office addr = record {
  network = record {
    ident = addr;
    send_busy = false;
    in_hdr = record { to = 0; from = 0; length = 0 };
    inbox = replicate 52 7;
  };
  net_addr = addr;
  boxes = [] ∷ [] ∷ [];
  num_boxes = 2;
}

abbrev to_one : PacketHeader
to_one = record { to = 1; from = 0; length = 0 }

abbrev to_box : MailHeader
to_box = record { to = 1; from = 0; length = 3 }

abbrev greeting : List ℕ
greeting = b'H' ∷ b'i' ∷ 0 ∷ 9 ∷ []

greeting-IsReady :
    IsReady
      (office 0)
      (office 1)
      to_one
      to_box
      greeting
      (replicate 52 5)
      (replicate 64 5)
      (replicate 52 6)
      []
greeting-IsReady = record {
  short = omega arith;
  given = omega arith;
  to_box = omega arith;
  box_here = omega arith;
  box_there = omega arith;
  holds = refl;
  idle = refl;
  own = refl;
  for_b = refl;
  no_packet = refl;
  mail_words = omega arith;
  packet_words = (omega arith, omega arith);
  inbox_size = refl;
  array_size = refl;
  wire_size = refl;
  buffer_size = refl;
}

post_receive-transmit_example :
    (transmit
        (replicate 52 5)
        (replicate 64 5)
        (replicate 52 6)
        (office 0)
        (office 1)
        to_one
        to_box
        greeting
      >>= λ b'. post_receive 1 (replicate 4 0) b')
    ≡ some (
        got
          (record { to = 1; from = 0; length = 15 })
          to_box
          (b'H' ∷ b'i' ∷ 0 ∷ 0 ∷ [])
          (let b' =
              delivered
                (office 0)
                (office 1)
                to_one
                to_box
                greeting
                (replicate 52 5)
                (replicate 64 5)
                (replicate 52 6)
                []
                greeting-IsReady in
            record b' { boxes = [] ∷ [] ∷ [] }))
post_receive-transmit_example =
    post_receive-transmit (office 0) (office 1) to_one to_box greeting (replicate 52 5)
      (replicate 64 5) (replicate 52 6) (replicate 4 0) greeting-IsReady (omega arith)
