-- ===== src/Pairing/Service/Persistence.antt =====
-- What storing a pairing comes to (src/pairing/PairingService.cpp).
use nexus_firmware.Prelude.{String, false, some, List, ◌≡◌, refl, inl, inr}
use nexus_firmware.Core.Status.{
  success, error, Status-cases, failure_of_is_ok, Result, value, failed, ErrorCode,
}
use nexus_firmware.Config.Manager.{Io, update, file_of}
use nexus_firmware.Config.Manager.Updates.{update_settles}
use nexus_firmware.Pairing.Service.{
  PairingResult, PairingIo, PairingService, post, fail, put_secrets, adopt, persist_pairing,
  complete,
}

-- The pairing is in the settings, the file is what is written for them, and setup mode has ended.
pub record IsPaired (s s' : PairingService) (r : PairingResult) : Type 0 where
  pub adopted : s'.config.config ≡ adopt r s.config.config
  pub stored : s'.config.disk.primary ≡ some (file_of (adopt r s.config.config))
  pub mode_over : s'.setup_mode ≡ false
  pub code_gone : s'.setup_code ≡ ""

-- The settings, their file and the setup mode are as before.
pub record IsUntouched (s s' : PairingService) : Type 0 where
  pub settings : s'.config.config ≡ s.config.config
  pub file : s'.config.disk.primary ≡ s.config.disk.primary
  pub mode : s'.setup_mode ≡ s.setup_mode
  pub code : s'.setup_code ≡ s.setup_code
  pub expiry : s'.code_expiry_epoch ≡ s.code_expiry_epoch

unfoldable pub Ends : PairingService → PairingService × Result PairingResult → Type 0
Ends s (s', value r) = IsPaired s s' r
Ends s (s', failed code msg) = IsUntouched s s'

pub fail-Ends :
    (s s' : PairingService) (code : ErrorCode) (msg : String)
    → IsUntouched s s'
    → Ends s (fail code msg s')
unfolding Ends fail post
fail-Ends s s' code msg h = record {
  settings = h.settings;
  file = h.file;
  mode = h.mode;
  code = h.code;
  expiry = h.expiry;
}

pub untouched : (s : PairingService) → IsUntouched s s
untouched s = record { settings = refl; file = refl; mode = refl; code = refl; expiry = refl }

complete_error :
    (s s' : PairingService) (r : PairingResult) (code : ErrorCode) (msg : String)
    → IsUntouched s s'
    → Ends s (complete r (s', error code msg))
unfolding complete
complete_error s s' r code msg h = fail-Ends s s' code msg h

complete_success :
    (s s' : PairingService) (r : PairingResult)
    → s'.config.config ≡ adopt r s.config.config
    → s'.config.disk.primary ≡ some (file_of (adopt r s.config.config))
    → Ends s (complete r (s', success))
unfolding complete Ends post
complete_success s s' r adopted stored = record {
  adopted = adopted;
  stored = stored;
  mode_over = refl;
  code_gone = refl;
}

updated :
    (io : Io) (r : PairingResult) (s : PairingService) (secrets : List (String × String))
    → Ends s (
        complete r (
          record s { secrets = secrets; config = (update io (adopt r) s.config).0 },
          (update io (adopt r) s.config).1,
        ))
updated io r s secrets = elim (update_settles io (adopt r) s.config) [
  | inl (done, good, same, stored, announced) ↦ rw done (
      complete_success s (record s { secrets = secrets; config = (update io (adopt r) s.config).0 })
        r same stored)
  | inr (refused, same, kept, silent) ↦
      let (code, msg, bad) = failure_of_is_ok _ refused in
      rw bad (
        complete_error s (record s { secrets = secrets; config = (update io (adopt r) s.config).0 })
          r code msg
          (record { settings = same; file = kept; mode = refl; code = refl; expiry = refl }))
]

pub complete-Ends :
    (io : PairingIo) (r : PairingResult) (s : PairingService)
    → Ends s (complete r (persist_pairing io r s))
unfolding persist_pairing
complete-Ends io r s = elim (Status-cases (put_secrets io r.wifi s.secrets).1) [
  | inl kept ↦
      rw (kept, persist_pairing) (updated io.config_io r s (put_secrets io r.wifi s.secrets).0)
  | inr (code, msg, lost) ↦
      rw (lost, persist_pairing)
        (complete_error s (record s { secrets = (put_secrets io r.wifi s.secrets).0 }) r code msg
          (record { settings = refl; file = refl; mode = refl; code = refl; expiry = refl }))
]
