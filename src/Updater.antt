-- ===== src/Updater.antt =====
-- src/updater: UpdatePackage.h, SignatureValidator.cpp, Installer.cpp, RollbackManager.cpp and
-- UpdateManager.cpp. What the file system and the cryptography answer are arguments; modes and log
-- lines are left out. A message that names a file or a cause is given without it.
pub mod Outcome
use nexus_firmware.Prelude.{
  ℕ, String, str_append, str_eq, is_empty, Bool, true, false, not, ◌&&◌, List, [], ◌∷◌, ◌++◌,
  Option, none, some, if◌then◌else◌,
}
use nexus_firmware.Prelude.Int.{ℤ}
use nexus_firmware.Core.Status.{
  ErrorCode, Status, success, error, is_ok, Result, value, failed, permission_denied, corrupt,
  crypto_error, invalid_arg, io_error, not_found, service_start_failed,
}
use nexus_firmware.Core.Event.{
  Event, text, event, update_started, update_failed, update_completed, rollback_triggered,
}
use nexus_firmware.Core.Bus.{Bus, notify}
use Prim.Native.String.{compare}
use Prim.Native.Nat.{Ordering}

abbrev pub Bytes : Type 0
Bytes = List ℕ

pub record UpdateManifest : Type 0 where
  pub version : String
  pub min_hardware_version : String
  pub payload_sha256 : String
  pub size_bytes : ℤ

pub record UpdatePackage : Type 0 where
  pub manifest : UpdateManifest
  pub payload : Bytes
  pub signature_b64 : String

-- src/identity: the digest, the signature's test, and the decimal digits of a number.
pub record Crypto : Type 0 where
  pub sha256_hex : Bytes → String
  pub verify_ed25519 : String → String → String → Bool
  pub decimal : ℤ → String

-- The program, its backup, and the file that an install writes first; none is a missing file.
pub record Files : Type 0 where
  pub target : Option Bytes
  pub backup : Option Bytes
  pub staged : Option Bytes

-- A copy is done, or breaks off and leaves something of the destination.
pub data Copy : Type 0 where
  copied : Copy
  broken : Option Bytes → Copy

pub record Io : Type 0 where
  pub opens : Bool
  pub writes : Bool
  pub renames : Bool
  pub backing_up : Copy
  pub restoring : Copy

pub record UpdateManager : Type 0 where
  pub bus : Bus
  pub vendor_key : String
  pub updates_allowed : Bool
  pub files : Files

unfoldable pub canonical_string : Crypto → UpdateManifest → String
canonical_string k m = str_append m.version (
    str_append "\n" (
      str_append m.min_hardware_version (
        str_append "\n"
          (str_append m.payload_sha256 (str_append "\n" (Crypto.decimal k m.size_bytes))))))

-- `verify_ed25519` is given the canonical string before its base64.
unfoldable pub verify : Crypto → String → UpdatePackage → Status
verify k vendor_key pkg =
    if is_empty vendor_key
    then error permission_denied "no vendor key configured"
    else if not (str_eq (Crypto.sha256_hex k pkg.payload) pkg.manifest.payload_sha256)
    then error ErrorCode.corrupt "payload hash mismatch"
    else if not
        (Crypto.verify_ed25519 k (canonical_string k pkg.manifest) pkg.signature_b64 vendor_key)
    then error crypto_error "manifest signature invalid"
    else success

abbrev pub is_nil : Bytes → Bool
is_nil [] = true
is_nil (x ∷ xs) = false

unfoldable pub install : Io → Bytes → Files → Status × Files
install io payload f =
    if is_nil payload
    then (error invalid_arg "empty payload", f)
    else if not io.opens
    then (error io_error "open failed", f)
    else if not io.writes
    then (error io_error "write failed", record f { staged = none })
    else if not io.renames
    then (error io_error "rename failed", record f { staged = none })
    else (success, record f { target = some payload; staged = none })

-- What a copy of `source` makes of a file.
unfoldable pub copy_to : Copy → Option Bytes → Option Bytes
copy_to copied source = source
copy_to (broken left) source = left

unfoldable pub copy_status : Copy → String → Status
copy_status copied msg = success
copy_status (broken left) msg = error io_error msg

-- RollbackManager::backup and restore, by what is there to copy.
unfoldable pub back_up : Option Bytes → Io → Files → Status × Files
back_up none io f = (error not_found "target missing", f)
back_up (some t) io f = (
  copy_status io.backing_up "backup failed",
  record f { backup = copy_to io.backing_up (some t) },
)

unfoldable pub backup : Io → Files → Status × Files
backup io f = back_up f.target io f

unfoldable pub put_back : Option Bytes → Io → Files → Status × Files
put_back none io f = (error not_found "no backup to restore", f)
put_back (some b) io f =
    (copy_status io.restoring "restore failed", record f { target = copy_to io.restoring (some b) })

unfoldable pub restore : Io → Files → Status × Files
restore io f = put_back f.backup io f

-- operator< of std::string.
unfoldable pub precedes : String → String → Bool
precedes a b = elim (compare a b) [ Ordering.lt ↦ true | _ ↦ false ]

abbrev pub with_files : UpdateManager → Files → UpdateManager
with_files s f = record s { files = f }

-- The lambda `fail`.
unfoldable pub fail : ErrorCode → String → UpdateManager → Status × UpdateManager
fail c m s = (
  error c m,
  record s { bus = notify s.bus (event update_failed "updater" (("error", text m) ∷ [])) },
)

unfoldable pub roll_back : Io → UpdateManager → Status × UpdateManager
roll_back io s =
    let told = record s { bus = notify s.bus (event rollback_triggered "updater" []) } in
    let done = restore io s.files in
    if is_ok done.0
    then fail service_start_failed "health check failed, rolled back" (with_files told done.1)
    else fail io_error "rollback failed" (with_files told done.1)

unfoldable pub complete : UpdateManifest → UpdateManager → Status × UpdateManager
complete m s = (
  success,
  record s {
    bus = notify s.bus (event update_completed "updater" (("version", text m.version) ∷ []));
  },
)

-- A step that may fail: its failure ends the update.
unfoldable pub or_fail : Status → UpdateManager → Status × UpdateManager → Status × UpdateManager
or_fail success s next = next
or_fail (error c m) s next = fail c m s

unfoldable pub compatible : String → UpdateManifest → Status
compatible hardware m =
    if not (is_empty m.min_hardware_version) && precedes hardware m.min_hardware_version
    then error invalid_arg "hardware is less than required"
    else success

-- From the backup on.
unfoldable pub replace : Io → Bool → UpdatePackage → UpdateManager → Status × UpdateManager
replace io healthy pkg s =
    let saved = backup io s.files in
    let installed = install io pkg.payload saved.1 in
    or_fail saved.0 (with_files s saved.1) (
      or_fail installed.0 (with_files s installed.1) (
        if healthy
        then complete pkg.manifest (with_files s installed.1)
        else roll_back io (with_files s installed.1)))

-- `fetched` is what the source delivers, and `healthy` what the health check tells of the new
-- program, true where there is none.
unfoldable pub run_update :
    Crypto → Io → Result UpdatePackage → Bool → String → UpdateManager → Status × UpdateManager
run_update k io fetched healthy hardware s =
    let started = record s { bus = notify s.bus (event update_started "updater" []) } in
    if not s.updates_allowed
    then (error permission_denied "updates not allowed right now", s)
    else elim fetched [
      | failed c m ↦ fail c m started
      | value pkg ↦
          or_fail (verify k s.vendor_key pkg) started
            (or_fail (compatible hardware pkg.manifest) started (replace io healthy pkg started))
    ]
