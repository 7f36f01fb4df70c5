-- ===== src/Audio/Wire.antt =====
-- src/audio/AudioPacket.h and AudioPacket.cpp: the datagram of the audio stream. A datagram is the
-- list of its bytes, and a packet's time stamp is the 64-bit pattern that `memcpy` moves.
pub mod Words
pub mod RoundTrip
use nexus_firmware.Prelude.{
  ℕ, zero, suc, ◌+◌, ◌*◌, ◌/◌, ◌%◌, ◌^◌, Bool, Option, none, some, List, [], ◌∷◌, ◌++◌, length,
  take, drop, ltb, u32, u64, if◌then◌else◌,
}
use Prim.Native.Nat.{bit_and}
use nexus_firmware.Audio.Float.{Double}

abbrev pub header_size : ℕ
header_size = 24

abbrev pub flag_last : ℕ
flag_last = 1

-- `p[i]` of a byte array; the code reads inside the datagram only.
abbrev pub byte_at : List ℕ → ℕ → ℕ
byte_at [] i = 0
byte_at (b ∷ bs) zero = b
byte_at (b ∷ bs) (suc i) = byte_at bs i

-- The shifted bytes have no bit in common, so their `|` is their sum.
unfoldable pub read_be32 : List ℕ → ℕ
read_be32 p = byte_at p 0 * 2 ^ 24 + byte_at p 1 * 2 ^ 16 + byte_at p 2 * 2 ^ 8 + byte_at p 3

-- `v = (v << 8) | p[i]`, for the first `n` bytes.
unfoldable pub read_loop : ℕ → List ℕ → ℕ → ℕ
read_loop zero p v = v
read_loop (suc n) [] v = v
read_loop (suc n) (b ∷ p) v = read_loop n p (u64 (v * 256) + b)

unfoldable pub read_be64 : List ℕ → ℕ
read_be64 p = read_loop 8 p 0

unfoldable pub write_be32 : ℕ → List ℕ
write_be32 v = v / 2 ^ 24 % 256 ∷ v / 2 ^ 16 % 256 ∷ v / 2 ^ 8 % 256 ∷ v % 256 ∷ []

-- The loop writes from the last byte to the first: `tail` is what has been written.
unfoldable pub write_loop : ℕ → ℕ → List ℕ → List ℕ
write_loop zero v tail = tail
write_loop (suc n) v tail = write_loop n (v / 256) ((v % 256) ∷ tail)

unfoldable pub write_be64 : ℕ → List ℕ
write_be64 v = write_loop 8 v []

pub record AudioHeader : Type 0 where
  pub timestamp : Double
  pub sequence : ℕ  -- std::uint64_t
  pub frame_count : ℕ  -- std::uint32_t
  pub flags : ℕ  -- std::uint32_t

-- A sample is the 16-bit pattern of a std::int16_t.
pub record AudioPacket : Type 0 where
  pub header : AudioHeader
  pub samples : List ℕ

unfoldable pub is_last : AudioPacket → Bool
is_last p = ltb 0 (bit_and p.header.flags flag_last)

-- The payload is little-endian, as the target is: `memcpy` of `n` samples.
unfoldable pub read_samples : ℕ → List ℕ → List ℕ
read_samples zero bs = []
read_samples (suc n) bs = (byte_at bs 0 + byte_at bs 1 * 256) ∷ read_samples n (drop 2 bs)

unfoldable pub write_samples : List ℕ → List ℕ
write_samples [] = []
write_samples (s ∷ ss) = s % 256 ∷ s / 256 % 256 ∷ write_samples ss

-- A std::size_t has 64 bits, so the products wrap.
unfoldable pub unpack_packet : List ℕ → ℕ → Option AudioPacket
unpack_packet buf channels =
    if ltb (length buf) header_size
    then none
    else let header : AudioHeader = record {
      timestamp = read_be64 buf;
      sequence = read_be64 (drop 8 buf);
      frame_count = read_be32 (drop 16 buf);
      flags = read_be32 (drop 20 buf);
    } in
      let sample_count = u64 (header.frame_count * channels) in
      let need = u64 (header_size + u64 (sample_count * 2)) in
      if ltb (length buf) need
      then none
      else some
          (record { header = header; samples = read_samples sample_count (drop header_size buf) })

unfoldable pub pack_packet : AudioPacket → List ℕ
pack_packet p =
    write_be64 p.header.timestamp
    ++ (write_be64 p.header.sequence
        ++ (write_be32 p.header.frame_count
            ++ (write_be32 p.header.flags ++ write_samples p.samples)))
