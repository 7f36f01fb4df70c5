-- ===== src/Audio/Wire/RoundTrip.antt =====
-- `packPacket` and `unpackPacket` of src/audio/AudioPacket.cpp.
use nexus_firmware.Prelude.{
  ℕ, zero, suc, ◌+◌, ◌*◌, ◌^◌, ◌<◌, ◌≤◌, ◌≡◌, refl, ap, ◌∙◌, some, List, [], ◌∷◌, ◌++◌, arith,
  length, drop, All, IsU32, IsU64, u64, ltb, false, IsByte,
}
use nexus_firmware.Audio.Wire.{
  AudioHeader, AudioPacket, header_size, byte_at, read_be32, read_be64, write_be32, write_be64,
  read_samples, write_samples, write_loop, unpack_packet, pack_packet,
}
use nexus_firmware.Audio.Wire.Words.{
  read-write_be32, read-write_be64, read-write_samples, length-write_samples, length-read_samples,
}

-- The fields fit their types.
pub record IsWide (h : AudioHeader) : Type 0 where
  pub timestamp : IsU64 h.timestamp
  pub sequence : IsU64 h.sequence
  pub frame_count : IsU32 h.frame_count
  pub flags : IsU32 h.flags

-- The packet holds `frame_count` frames of `channels` samples of 16 bits.
pub record IsWellFormed (channels : ℕ) (p : AudioPacket) : Type 0 where
  pub header : IsWide p.header
  pub sized : length p.samples ≡ p.header.frame_count * channels
  pub samples : All (λ (s : ℕ). s < 65536) p.samples

length-pack_packet : (p : AudioPacket) → length (pack_packet p) ≡ header_size + length p.samples * 2
unfolding pack_packet write_be64 write_loop write_be32
length-pack_packet p = omega (arith, length-write_samples p.samples)

-- Where the fields of the header stand in a packed datagram.
fields_at :
    (t s f g : ℕ) (rest : List ℕ)
    → let buf = write_be64 t ++ (write_be64 s ++ (write_be32 f ++ (write_be32 g ++ rest))) in
      (drop 8 buf ≡ write_be64 s ++ (write_be32 f ++ (write_be32 g ++ rest)))
      × (drop 16 buf ≡ write_be32 f ++ (write_be32 g ++ rest))
      × (drop 20 buf ≡ write_be32 g ++ rest)
      × (drop 24 buf ≡ rest)
unfolding write_be64 write_loop write_be32
fields_at t s f g rest = (refl, refl, refl, refl)

-- `unpackPacket` on a datagram whose fields are known.
unpack_fields :
    (channels : ℕ) (p : AudioPacket) (buf : List ℕ)
    → read_be64 buf ≡ p.header.timestamp
    → read_be64 (drop 8 buf) ≡ p.header.sequence
    → read_be32 (drop 16 buf) ≡ p.header.frame_count
    → read_be32 (drop 20 buf) ≡ p.header.flags
    → read_samples (length p.samples) (drop 24 buf) ≡ p.samples
    → length buf ≡ header_size + length p.samples * 2
    → length p.samples ≡ p.header.frame_count * channels
    → header_size + length p.samples * 2 < 2 ^ 64
    → unpack_packet buf channels ≡ some p
unfolding unpack_packet
unpack_fields channels p buf t s f g d size count fits =
    rw (t, s, f, g, ← count, long_enough, same_count, whole)
      (ap some (ap (λ (ss : List ℕ). record p { samples = ss }) d))
  where
    long_enough : ltb (length buf) header_size ≡ false
    long_enough = ground arith

    same_count : u64 (length p.samples) ≡ length p.samples
    same_count = omega arith

    whole : ltb (length buf) (u64 (header_size + u64 (length p.samples * 2))) ≡ false
    whole = ground arith

-- What the sender packs the receiver unpacks unchanged, time stamp bits included, if the fields fit
-- their types, the packet has `frame_count * channels` samples, and its size fits a std::size_t.
pub unpack-pack_packet :
    (channels : ℕ) (p : AudioPacket)
    → IsWellFormed channels p
    → header_size + length p.samples * 2 < 2 ^ 64
    → unpack_packet (pack_packet p) channels ≡ some p
unfolding pack_packet
unpack-pack_packet channels p v fits =
    let h = p.header in
    let (at8, at16, at20, at24) =
      fields_at h.timestamp h.sequence h.frame_count h.flags (write_samples p.samples) in
    unpack_fields channels p (pack_packet p) (read-write_be64 h.timestamp _ v.header.timestamp)
      (ap read_be64 at8 ∙ read-write_be64 h.sequence _ v.header.sequence)
      (ap read_be32 at16 ∙ read-write_be32 h.frame_count _ v.header.frame_count)
      (ap read_be32 at20 ∙ read-write_be32 h.flags _ v.header.flags)
      (ap (read_samples (length p.samples)) at24 ∙ read-write_samples p.samples v.samples)
      (length-pack_packet p) v.sized fits

byte_at-lt : (bs : List ℕ) (i : ℕ) → All IsByte bs → byte_at bs i < 256
byte_at-lt [] i h = omega arith
byte_at-lt (b ∷ bs) zero h = h.0
byte_at-lt (b ∷ bs) (suc i) h = byte_at-lt bs i h.1

All-drop : (n : ℕ) (bs : List ℕ) → All IsByte bs → All IsByte (drop n bs)
All-drop zero bs h = h
All-drop (suc n) [] h = h
All-drop (suc n) (b ∷ bs) h = All-drop n bs h.1

read_be32-lt : (bs : List ℕ) → All IsByte bs → IsU32 (read_be32 bs)
unfolding read_be32
read_be32-lt bs h =
    omega (arith, byte_at-lt bs 0 h, byte_at-lt bs 1 h, byte_at-lt bs 2 h, byte_at-lt bs 3 h)

-- No product of the size check wraps.
sizes_fit :
    (f channels : ℕ)
    → IsU32 f
    → channels < 2 ^ 29
    → (u64 (f * channels) ≡ f * channels)
      × (u64 (header_size + u64 (u64 (f * channels) * 2)) ≡ header_size + f * channels * 2)
sizes_fit f channels hf hc = (omega (arith, product), omega (arith, product))
  where
    product : f * channels < 2 ^ 61
    product = grind arith

accepted :
    (buf : List ℕ) (channels : ℕ) {p : AudioPacket}
    → unpack_packet buf channels ≡ some p
    → (p.header.frame_count ≡ read_be32 (drop 16 buf))
      × (length p.samples ≡ u64 (p.header.frame_count * channels))
      × (u64 (header_size + u64 (u64 (p.header.frame_count * channels) * 2)) ≤ length buf)
unfolding unpack_packet
accepted buf channels e =
    ground (arith, length-read_samples (u64 (read_be32 (drop 16 buf) * channels)) (drop 24 buf))

-- A datagram that is accepted has room for all that is read of it, and gives as many samples as its
-- header announces: for fewer than 2 ^ 29 channels no product of the size check wraps.
pub unpack_packet_sound :
    (buf : List ℕ) (channels : ℕ) {p : AudioPacket}
    → All IsByte buf
    → channels < 2 ^ 29
    → unpack_packet buf channels ≡ some p
    → (length p.samples ≡ p.header.frame_count * channels)
      × (header_size + length p.samples * 2 ≤ length buf)
unpack_packet_sound buf channels {p} bytes small e =
    let (field, count, room) = accepted buf channels e in
    let wide = read_be32-lt (drop 16 buf) (All-drop 16 buf bytes) in
    let (one, two) = sizes_fit p.header.frame_count channels (omega arith) small in
    let exact : length p.samples ≡ p.header.frame_count * channels = count ∙ one in
    (exact, omega arith)
