-- ===== src/Control/Validator.antt =====
-- src/control/CommandValidator.h and CommandValidator.cpp. The signature check is libsodium's and the
-- canonical bytes need the JSON printer: `verify` stands for both, as the answer for a command, its
-- signature and the streamer's key.
use nexus_firmware.Prelude.{String, str_eq, is_empty, Bool, not, ◌&&◌, if◌then◌else◌}
use nexus_firmware.Prelude.Int.{ℤ, pos, ltb_ℤ}
use nexus_firmware.Core.Status.{
  Status, success, error, invalid_arg, permission_denied, timeout, crypto_error,
}
use nexus_firmware.Control.Command.{Command}

unfoldable pub is_zero : ℤ → Bool
is_zero n = not (ltb_ℤ n (pos 0)) && not (ltb_ℤ (pos 0) n)

module _ (verify : Command → String → Bool) where
  unfoldable pub validate : Command → String → String → ℤ → Status
  unfolding is_zero
  validate c device_id key now =
      if is_empty c.command_id
      then error invalid_arg "command missing command_id"
      else if is_empty c.command
      then error invalid_arg "command missing command name"
      else if not (is_empty c.target_id) && not (str_eq c.target_id device_id)
      then error permission_denied "command target mismatch"
      else if not (is_zero c.expires_at) && ltb_ℤ c.expires_at now
      then error timeout "command expired"
      else if is_empty key
      then error permission_denied "device not paired to a streamer"
      else if is_empty c.signature
      then error permission_denied "command not signed"
      else if not (verify c key)
      then error crypto_error "command signature invalid"
      else success
