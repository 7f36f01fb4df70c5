-- ===== src/Streamer/AutoPair/Allowed.antt =====
-- Whom streamer/src/provisioning/AutoPairWorker.cpp pairs with, and when.
use nexus_firmware.Prelude.{
  ℕ, suc, ◌+◌, ◌≤◌, ◌≡◌, refl, String, is_empty, Bool, true, false, not, ◌||◌, List, [], ◌∷◌, All,
  length, if◌then◌else◌, Bool-cases, inl, inr, arith,
}
use nexus_firmware.Prelude.Int.{ℤ, pos, ◌+ℤ◌, ltb_ℤ, leb_ℤ, pos_part, neg_part, sub_ℕ}
use nexus_firmware.Core.Status.{Result, value, failed}
use nexus_firmware.Streamer.AutoPair.{
  ProvisioningWindow, clamp, open_window, is_open, derive_setup_code, DiscoveredSpeaker,
  PairAttempt, Sweep, attempt_of, skipped, sweep_from, sweep_once,
}

module _ (clock : ℕ → ℤ) (is_registered : String → Bool) (pair : PairAttempt → Bool)
    (w : ProvisioningWindow) where
  -- Made while the window was open, with a speaker that is not registered, by its own setup code.
  unfoldable pub IsAllowed : PairAttempt → Type 0
  IsAllowed a =
      (is_open w a.at ≡ true)
      × (is_registered a.device_id ≡ false)
      × (a.setup_code ≡ derive_setup_code a.device_id)
      × (is_empty a.setup_code ≡ false)

  unfoldable pub IsAllowedSweep : Sweep → Type 0
  IsAllowedSweep s = All IsAllowed s.attempts × (s.paired ≤ length s.attempts)

  counted : (b : Bool) {m n : ℕ} → m ≤ n → (if b then m + 1 else m) ≤ suc n
  counted b l = ground arith

  none_made : IsAllowedSweep (record { attempts = []; paired = 0 })
  unfolding IsAllowedSweep
  none_made = (tt, omega arith)

  parts : (a : Bool) {b c : Bool} → (not a || b || c) ≡ false → (b ≡ false) × (c ≡ false)
  parts a h = ground arith

  attempt-IsAllowed :
      (k : ℕ) (s : DiscoveredSpeaker)
      → skipped clock is_registered pair w s ≡ false
      → is_open w (clock k) ≡ true
      → IsAllowed (attempt_of clock is_registered pair w k s)
  unfolding IsAllowed attempt_of skipped
  attempt-IsAllowed k s e o = let (b, c) = parts s.setup_mode e in (o, b, refl, c)

  sweep_from-IsAllowed :
      (k : ℕ) (ss : List DiscoveredSpeaker)
      → IsAllowedSweep (sweep_from clock is_registered pair w k ss)
  unfolding sweep_from IsAllowedSweep
  sweep_from-IsAllowed k [] = (tt, omega arith)
  sweep_from-IsAllowed k (s ∷ ss) = elim (Bool-cases (skipped clock is_registered pair w s)) [
    | inl e ↦ rw e (sweep_from-IsAllowed k ss)
    | inr e ↦ elim (Bool-cases (is_open w (clock k))) [
      | inr o ↦ rw (e, o) (tt, omega arith)
      | inl o ↦
          rw (e, o)
            (let (all, few) = sweep_from-IsAllowed (suc k) ss in
              (
                (attempt-IsAllowed k s e o, all),
                counted (pair (attempt_of clock is_registered pair w k s)) few,
              ))
    ]
  ]

  -- Whatever is discovered, and however the clock goes on during the sweep: each attempt is made
  -- with the window open, to a speaker that is not registered, with the code derived from its id,
  -- and no more speakers are counted as paired than attempts were made.
  pub sweep_once-IsAllowed :
      (found : Result (List DiscoveredSpeaker))
      → IsAllowedSweep (sweep_once clock is_registered pair w found)
  unfolding sweep_once
  sweep_once-IsAllowed (failed c m) = none_made
  sweep_once-IsAllowed (value ss) = elim (Bool-cases (is_open w (clock 0))) [
    | inr o ↦ rw o none_made
    | inl o ↦ rw o (sweep_from-IsAllowed 1 ss)
  ]

sub_parts : (a b : ℕ) → pos_part (sub_ℕ a b) + b ≡ neg_part (sub_ℕ a b) + a
sub_parts a b = ground arith

clamp_bounded : (ttl : ℤ) → leb_ℤ (clamp ttl (pos 1) (pos 1800)) (pos 1800) ≡ true
unfolding clamp
clamp_bounded ttl = ground arith

later_sum :
    (now c later : ℤ)
    → leb_ℤ c (pos 1800) ≡ true
    → ltb_ℤ later (now +ℤ c) ≡ true
    → ltb_ℤ later (now +ℤ pos 1800) ≡ true
unfolding ◌+ℤ◌
later_sum now c later l h = ground (
  arith,
  sub_parts (pos_part now + pos_part c) (neg_part now + neg_part c),
  sub_parts (pos_part now + 1800) (neg_part now + 0),
)

-- A window that was opened at a time is closed 1800 seconds later at the latest, whatever was asked.
pub window_bounded :
    (now ttl later : ℤ)
    → is_open (open_window now ttl) later ≡ true
    → ltb_ℤ later (now +ℤ pos 1800) ≡ true
unfolding is_open open_window
window_bounded now ttl later h =
    later_sum now (clamp ttl (pos 1) (pos 1800)) later (clamp_bounded ttl) h
