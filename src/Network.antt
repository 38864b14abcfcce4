-- ===== src/Network.antt =====
-- machine/network.h: the headers of packets, and bytes as `bcopy` moves them. Integers are words of
-- 32 bits, below 2 ^ 32, and the host is little-endian. `none` is an access outside of an array.
pub mod Device
pub mod Post
pub mod Packets
pub mod Delivery
use csci350_project.Base.{
  ℕ, zero, suc, ◌+◌, ◌*◌, ◌/◌, ◌%◌, ◌-◌, ◌^◌, List, [], ◌∷◌, ◌++◌, Bool, Option, none, some, ◌>>=◌,
  if◌then◌else◌, leb, length, take, drop,
}

abbrev pub max_wire_size : ℕ
max_wire_size = 64

pub record PacketHeader : Type 0 where
  pub to : ℕ
  pub from : ℕ
  pub length : ℕ

-- `sizeof` of a header: three words.
abbrev pub header_size : ℕ
header_size = 12

abbrev pub max_packet_size : ℕ
max_packet_size = max_wire_size - header_size

-- `n` bytes from the start of an array.
unfoldable pub copy {ℓ} : {A : Type ℓ} → ℕ → List A → Option (List A)
copy n xs = if leb n (length xs) then some (take n xs) else none

-- Bytes written at the start of an array.
unfoldable pub fill {ℓ} : {A : Type ℓ} → List A → List A → Option (List A)
fill array bytes =
    if leb (length bytes) (length array) then some (bytes ++ drop (length bytes) array) else none

-- A word in memory, and a word read from it with what follows.
abbrev pub word_bytes : ℕ → List ℕ → List ℕ
word_bytes n rest = n % 256 ∷ n / 256 % 256 ∷ n / 65536 % 256 ∷ n / 16777216 % 256 ∷ rest

abbrev pub take_word : List ℕ → Option (ℕ × List ℕ)
take_word (a ∷ b ∷ c ∷ d ∷ rest) = some (a + 256 * b + 65536 * c + 16777216 * d, rest)
take_word _ = none

-- A header in memory, and a cast of the start of an array to a header.
unfoldable pub header_bytes : PacketHeader → List ℕ → List ℕ
header_bytes h rest = word_bytes h.to (word_bytes h.from (word_bytes h.length rest))

unfoldable pub take_header : List ℕ → Option (PacketHeader × List ℕ)
take_header xs = do
  (to, xs1) ← take_word xs
  (from, xs2) ← take_word xs1
  (length, xs3) ← take_word xs2
  some (record { to = to; from = from; length = length }, xs3)
