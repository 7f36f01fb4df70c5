-- ===== src/Streamer/AutoPair.antt =====
-- streamer/src/provisioning/ProvisioningWindow.cpp and AutoPairWorker.cpp, with the speaker that
-- streamer/src/discovery/IStreamerDiscovery.h reports. Points of time are seconds.
pub mod Allowed
use nexus_firmware.Prelude.{
  ℕ, zero, suc, ◌+◌, String, str_append, str_eq, is_empty, Bool, true, false, not, ◌&&◌, ◌||◌, leb,
  List, [], ◌∷◌, if◌then◌else◌,
}
use nexus_firmware.Prelude.Int.{ℤ, pos, ◌+ℤ◌, ◌-ℤ◌, ltb_ℤ, leb_ℤ}
use nexus_firmware.Core.Status.{Result, value, failed}
use Prim.Native.String.{len, slice}

pub record ProvisioningWindow : Type 0 where
  pub opened : Bool
  pub expiry : ℤ

unfoldable pub clamp : ℤ → ℤ → ℤ → ℤ
clamp v lo hi = if ltb_ℤ v lo then lo else if ltb_ℤ hi v then hi else v

unfoldable pub open_window : ℤ → ℤ → ProvisioningWindow
open_window now_epoch ttl_seconds = record {
  opened = true;
  expiry = now_epoch +ℤ clamp ttl_seconds (pos 1) (pos 1800);
}

unfoldable pub close_window : ProvisioningWindow
close_window = record { opened = false; expiry = pos 0 }

unfoldable pub is_open : ProvisioningWindow → ℤ → Bool
is_open w now_epoch = w.opened && ltb_ℤ now_epoch w.expiry

unfoldable pub seconds_remaining : ProvisioningWindow → ℤ → ℤ
seconds_remaining w now_epoch =
    if not w.opened || leb_ℤ w.expiry now_epoch then pos 0 else w.expiry -ℤ now_epoch

-- The rest of the text from place 4 on. An id is ASCII, so that its characters are its bytes.
unfoldable pub derive_setup_code : String → String
derive_setup_code device_id =
    if leb (len device_id) 4 || not (str_eq (slice device_id 0 4) "SPK-")
    then ""
    else str_append "SETUP-" (slice device_id 4 (len device_id))

pub record DiscoveredSpeaker : Type 0 where
  pub device_id : String
  pub host : String
  pub box_public_key : String
  pub setup_mode : Bool

-- An attempt, with the time that the clock showed just before it.
pub record PairAttempt : Type 0 where
  pub device_id : String
  pub host : String
  pub box_public_key : String
  pub setup_code : String
  pub at : ℤ

pub record Sweep : Type 0 where
  pub attempts : List PairAttempt
  pub paired : ℕ

abbrev nothing : Sweep
nothing = record { attempts = []; paired = 0 }

abbrev attempted : PairAttempt → Bool → Sweep → Sweep
attempted a ok s = record {
  attempts = a ∷ s.attempts;
  paired = if ok then s.paired + 1 else s.paired;
}

-- `clock k` is the k-th reading of the clock, `pair` what an attempt comes to.
module _ (clock : ℕ → ℤ) (is_registered : String → Bool) (pair : PairAttempt → Bool)
    (w : ProvisioningWindow) where
  unfoldable pub attempt_of : ℕ → DiscoveredSpeaker → PairAttempt
  attempt_of k s = record {
    device_id = s.device_id;
    host = s.host;
    box_public_key = s.box_public_key;
    setup_code = derive_setup_code s.device_id;
    at = clock k;
  }

  unfoldable pub skipped : DiscoveredSpeaker → Bool
  skipped s =
      not s.setup_mode || is_registered s.device_id || is_empty (derive_setup_code s.device_id)

  -- The loop over the speakers; k readings of the clock have been taken.
  unfoldable pub sweep_from : ℕ → List DiscoveredSpeaker → Sweep
  sweep_from k [] = nothing
  sweep_from k (s ∷ ss) =
      let skip = sweep_from k ss in
      let rest = sweep_from (suc k) ss in
      if skipped s
      then skip
      else if not (is_open w (clock k))
      then nothing
      else attempted (attempt_of k s) (pair (attempt_of k s)) rest

  unfoldable pub sweep_once : Result (List DiscoveredSpeaker) → Sweep
  sweep_once (failed c m) = nothing
  sweep_once (value speakers) = if not (is_open w (clock 0)) then nothing else sweep_from 1 speakers
