-- ===== src/Dsp/Delay.antt =====
-- src/dsp/Delay.h. A sample is the pattern of a float; the number of samples that `setDelayMs`
-- computes from the milliseconds is an argument.
pub mod Line
use nexus_firmware.Prelude.{ℕ, zero, suc, ◌+◌, ◌*◌, ◌%◌, List, [], ◌∷◌, length, repeat, at, put}

pub record Delay : Type 0 where
  pub buffer : List ℕ
  pub pos : ℕ

unfoldable pub set_delay : ℕ → Delay
set_delay samples = record { buffer = repeat samples 0; pos = 0 }

unfoldable pub reset : Delay → Delay
reset d = record { buffer = repeat (length d.buffer) 0; pos = 0 }

-- One turn of the loop: the sample that comes out is the one at `pos`, and the new one replaces it.
unfoldable pub turn : ℕ → Delay → Delay
turn x d = record { buffer = put d.pos x d.buffer; pos = (d.pos + 1) % length d.buffer }

unfoldable pub loop : List ℕ → Delay → List ℕ × Delay
loop [] d = ([], d)
loop (x ∷ io) d = (at d.buffer d.pos ∷ (loop io (turn x d)).0, (loop io (turn x d)).1)

-- `frames * channels` samples, in place; nothing is done without a delay.
unfoldable pub process_with : List ℕ → List ℕ → Delay → List ℕ × Delay
process_with [] io d = (io, d)
process_with (b ∷ bs) io d = loop io d

unfoldable pub process : List ℕ → Delay → List ℕ × Delay
process io d = process_with d.buffer io d
