-- ===== src/Audio/Float.antt =====
-- A C++ double is known by its 64-bit pattern, a number below 2 ^ 64. The arithmetic of doubles is
-- the machine's and enters as this record of operations on patterns.
use nexus_firmware.Prelude.{ℕ, Bool}
use nexus_firmware.Prelude.Int.{ℤ}

abbrev pub Double : Type 0
Double = ℕ

-- `of_sample` widens the 16-bit pattern of a std::int16_t, and `to_sample` is the cast back.
pub record FloatOps : Type 0 where
  pub add : Double → Double → Double
  pub sub : Double → Double → Double
  pub mul : Double → Double → Double
  pub div : Double → Double → Double
  pub neg : Double → Double
  pub lt : Double → Double → Bool
  pub le : Double → Double → Bool
  pub of_int : ℤ → Double
  pub of_sample : ℕ → Double
  pub to_sample : Double → ℕ

-- The patterns of the constants 0.0, 0.1, 100.0, 1000.0, -32768.0 and 32767.0.
abbrev pub zero_f : Double
zero_f = 0

abbrev pub tenth : Double
tenth = 0x3fb9_9999_9999_999a

abbrev pub hundred : Double
hundred = 0x4059_0000_0000_0000

abbrev pub thousand : Double
thousand = 0x408f_4000_0000_0000

abbrev pub sample_min : Double
sample_min = 0xc0e0_0000_0000_0000

abbrev pub sample_max : Double
sample_max = 0x40df_ffc0_0000_0000
