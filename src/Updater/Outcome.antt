-- ===== src/Updater/Outcome.antt =====
-- What an update leaves behind (src/updater/UpdateManager.cpp).
use text.Mathlib.TextEquality.{eq_iff}
use nexus_firmware.Prelude.{
  String, is_empty, arith, Bool, true, false, ◌≡◌, refl, sym, ap, subst, ◌∙◌, ◌⊎◌, inl, inr, Option,
  none, some, Bool-cases, if◌then◌else◌,
}
use nexus_firmware.Core.Status.{
  ErrorCode, Status, success, error, is_ok, value, Status-cases, permission_denied,
}
use nexus_firmware.Updater.{
  Bytes, UpdateManifest, UpdatePackage, Crypto, Files, Copy, copied, broken, Io, UpdateManager,
  verify, canonical_string, install, copy_to, copy_status, back_up, put_back, backup, restore, fail,
  roll_back, complete, or_fail, is_nil, compatible, replace, run_update, with_files,
}

abbrev target_of : Status × UpdateManager → Option Bytes
target_of r = r.1.files.target

-- A failure whose restore works leaves the program as it was, and a success leaves the payload.
unfoldable pub Leaves : Option Bytes → Bytes → Status × UpdateManager → Type 0
Leaves before payload r =
    ((r.0 ≡ success) × (target_of r ≡ some payload))
    ⊎ ((is_ok r.0 ≡ false) × (target_of r ≡ before))

fail-Leaves :
    (before : Option Bytes) (p : Bytes) (c : ErrorCode) (m : String) (s : UpdateManager)
    → s.files.target ≡ before
    → Leaves before p (fail c m s)
unfolding fail Leaves
fail-Leaves before p c m s h = inr (refl, h)

or_fail-Leaves :
    (before : Option Bytes) (p : Bytes) (st : Status) (s : UpdateManager)
    (next : Status × UpdateManager)
    → s.files.target ≡ before
    → (st ≡ success → Leaves before p next)
    → Leaves before p (or_fail st s next)
unfolding or_fail
or_fail-Leaves before p success s next h k = k refl
or_fail-Leaves before p (error c m) s next h k = fail-Leaves before p c m s h

-- A backup leaves the program alone, and, when it is done, is the program.
back_up-keeps :
    (o : Option Bytes) (io : Io) (f : Files) → Files.target ((back_up o io f).1) ≡ f.target
unfolding back_up
back_up-keeps none io f = refl
back_up-keeps (some t) io f = refl

back_up-done :
    (o : Option Bytes) (io : Io) (f : Files)
    → (back_up o io f).0 ≡ success
    → (t : Bytes) × (o ≡ some t) × (Files.backup ((back_up o io f).1) ≡ some t)
unfolding back_up copy_status copy_to
back_up-done none io f h = absurd (cc)
back_up-done (some t) io f h = (t, refl, go io.backing_up h)
  where
    go : (k : Copy) → copy_status k "backup failed" ≡ success → copy_to k (some t) ≡ some t
    go copied h = refl
    go (broken left) h = absurd (cc)

-- An install leaves the backup alone, and changes the program when it is done only.
Installs : Bytes → Files → Status × Files → Type 0
Installs p f r =
    (r.1.backup ≡ f.backup)
    × (((r.0 ≡ success) × (r.1.target ≡ some p)) ⊎ ((is_ok r.0 ≡ false) × (r.1.target ≡ f.target)))

refused-Installs :
    (p : Bytes) (f f' : Files) (c : ErrorCode) (m : String)
    → f'.backup ≡ f.backup
    → f'.target ≡ f.target
    → Installs p f (error c m, f')
unfolding Installs
refused-Installs p f f' c m b t = (b, inr (refl, t))

done-Installs :
    (p : Bytes) (f f' : Files)
    → f'.backup ≡ f.backup
    → f'.target ≡ some p
    → Installs p f (success, f')
unfolding Installs
done-Installs p f f' b t = (b, inl (refl, t))

install-Installs : (io : Io) (p : Bytes) (f : Files) → Installs p f (install io p f)
unfolding install
install-Installs io p f = elim (Bool-cases (is_nil p)) [
  | inl e ↦ rw e (refused-Installs p f _ _ _ refl refl)
  | inr e ↦ elim (Bool-cases io.opens) [
    | inr a ↦ rw (e, a) (refused-Installs p f _ _ _ refl refl)
    | inl a ↦ elim (Bool-cases io.writes) [
      | inr b ↦ rw (e, a, b) (refused-Installs p f _ _ _ refl refl)
      | inl b ↦ elim (Bool-cases io.renames) [
        | inr c ↦ rw (e, a, b, c) (refused-Installs p f _ _ _ refl refl)
        | inl c ↦ rw (e, a, b, c) (done-Installs p f _ refl refl)
      ]
    ]
  ]
]

put_back-copied :
    (o : Option Bytes) (t : Bytes) (io : Io) (f : Files)
    → io.restoring ≡ copied
    → o ≡ some t
    → Files.target ((put_back o io f).1) ≡ some t
unfolding put_back copy_to
put_back-copied none t io f k h = absurd (cc)
put_back-copied (some b) t io f k h = rw k h

roll_back-Leaves :
    (io : Io) (p t : Bytes) (s : UpdateManager)
    → io.restoring ≡ copied
    → s.files.backup ≡ some t
    → Leaves (some t) p (roll_back io s)
unfolding roll_back restore
roll_back-Leaves io p t s k h = elim (Bool-cases (is_ok (put_back s.files.backup io s.files).0)) [
  | inl e ↦ rw e (fail-Leaves (some t) p _ _ _ (put_back-copied s.files.backup t io s.files k h))
  | inr e ↦ rw e (fail-Leaves (some t) p _ _ _ (put_back-copied s.files.backup t io s.files k h))
]

complete-Leaves :
    (before : Option Bytes) (p : Bytes) (m : UpdateManifest) (s : UpdateManager)
    → s.files.target ≡ some p
    → Leaves before p (complete m s)
unfolding complete Leaves
complete-Leaves before p m s h = inl (refl, h)

checked-Leaves :
    (io : Io) (p t : Bytes) (healthy : Bool) (m : UpdateManifest) (s : UpdateManager)
    → io.restoring ≡ copied
    → s.files.backup ≡ some t
    → s.files.target ≡ some p
    → Leaves (some t) p (if healthy then complete m s else roll_back io s)
checked-Leaves io p t true m s k b h = complete-Leaves (some t) p m s h
checked-Leaves io p t false m s k b h = roll_back-Leaves io p t s k b

or_fail-success :
    (before : Option Bytes) (p : Bytes) (st : Status) (s : UpdateManager)
    (next : Status × UpdateManager)
    → st ≡ success
    → Leaves before p next
    → Leaves before p (or_fail st s next)
unfolding or_fail
or_fail-success before p success s next e h = h
or_fail-success before p (error c m) s next e h = absurd (cc)

replace-Leaves :
    (io : Io) (healthy : Bool) (pkg : UpdatePackage) (s : UpdateManager)
    → io.restoring ≡ copied
    → Leaves s.files.target pkg.payload (replace io healthy pkg s)
unfolding replace backup Installs
replace-Leaves io healthy pkg s k =
    let before = s.files.target in
    let p = pkg.payload in
    let saved = back_up before io s.files in
    let kept = back_up-keeps before io s.files in
    or_fail-Leaves before p saved.0 (with_files s saved.1) _ kept (λ ok.
      let (t, here, there) = back_up-done before io s.files ok in
      let (stays, was) = install-Installs io p saved.1 in
      let installed = install io p saved.1 in
      elim was [
        | inl (done, new) ↦ or_fail-success before p installed.0 (with_files s installed.1) _ done (
            subst
              (λ b. Leaves b p (
                if healthy
                then complete pkg.manifest (with_files s installed.1)
                else roll_back io (with_files s installed.1)))
              (sym here)
              (checked-Leaves io p t healthy pkg.manifest (with_files s installed.1) k
                (stays ∙ there) new))
        | inr (bad, same) ↦
            or_fail-Leaves before p installed.0 (with_files s installed.1) _ (same ∙ kept)
              (λ good. absurd (cc (ap is_ok good, bad)))
      ])

one_of :
    (before : Option Bytes) (p : Bytes) (b : Bool) (x y : Status × UpdateManager)
    → Leaves before p x
    → Leaves before p y
    → Leaves before p (if b then x else y)
one_of before p true x y h k = h
one_of before p false x y h k = k

refused-Leaves :
    (before : Option Bytes) (p : Bytes) (c : ErrorCode) (m : String) (s : UpdateManager)
    → s.files.target ≡ before
    → Leaves before p (error c m, s)
unfolding Leaves
refused-Leaves before p c m s h = inr (refl, h)

-- The program after an update, where a restore works: the new payload when the update succeeds, and
-- what it was before when it fails at any step.
pub run_update-Leaves :
    (k : Crypto) (io : Io) (pkg : UpdatePackage) (healthy : Bool) (hardware : String)
    (s : UpdateManager)
    → io.restoring ≡ copied
    → Leaves s.files.target pkg.payload (run_update k io (value pkg) healthy hardware s)
unfolding run_update
run_update-Leaves k io pkg healthy hardware s h =
    one_of s.files.target pkg.payload _ _ _ (refused s) (
      or_fail-Leaves s.files.target pkg.payload (verify k s.vendor_key pkg) _ _ refl (λ v.
        or_fail-Leaves s.files.target pkg.payload (compatible hardware pkg.manifest) _ _ refl
          (λ c. replace-Leaves io healthy pkg _ h)))
  where
    refused :
        (s : UpdateManager)
        → Leaves s.files.target pkg.payload
            (error permission_denied "updates not allowed right now", s)
    refused s =
        refused-Leaves s.files.target pkg.payload permission_denied "updates not allowed right now"
          s refl

or_fail_target :
    (st : Status) (s : UpdateManager) (next : Status × UpdateManager)
    → is_ok st ≡ false
    → target_of (or_fail st s next) ≡ s.files.target
unfolding or_fail fail
or_fail_target success s next h = absurd (cc)
or_fail_target (error c m) s next h = refl

either_target :
    (o : Option Bytes) (b : Bool) (x y : Status × UpdateManager)
    → target_of x ≡ o
    → target_of y ≡ o
    → target_of (if b then x else y) ≡ o
either_target o true x y h k = h
either_target o false x y h k = k

-- What a package that was verified has.
unfoldable pub IsGenuine : Crypto → String → UpdatePackage → Type 0
IsGenuine k vendor_key pkg =
    (is_empty vendor_key ≡ false)
    × (k.sha256_hex pkg.payload ≡ pkg.manifest.payload_sha256)
    × (k.verify_ed25519 (canonical_string k pkg.manifest) pkg.signature_b64 vendor_key ≡ true)

verify-IsGenuine :
    (k : Crypto) (vendor_key : String) (pkg : UpdatePackage)
    → verify k vendor_key pkg ≡ success
    → IsGenuine k vendor_key pkg
unfolding verify IsGenuine
verify-IsGenuine k vendor_key pkg h =
    ground (arith, eq_iff (k.sha256_hex pkg.payload) pkg.manifest.payload_sha256)

-- The program changes only for a package whose payload has the digest of its manifest and whose
-- manifest carries a signature that verifies against a vendor key that is set, whatever else fails.
pub only_verified :
    (k : Crypto) (io : Io) (pkg : UpdatePackage) (healthy : Bool) (hardware : String)
    (s : UpdateManager)
    → (target_of (run_update k io (value pkg) healthy hardware s) ≡ s.files.target)
      ⊎ IsGenuine k s.vendor_key pkg
unfolding run_update
only_verified k io pkg healthy hardware s = elim (Status-cases (verify k s.vendor_key pkg)) [
  | inl e ↦ inr (verify-IsGenuine k s.vendor_key pkg e)
  | inr (c, m, e) ↦ inl (
      either_target s.files.target _ _ _ refl
        (or_fail_target (verify k s.vendor_key pkg) _ _ (ap is_ok e)))
]
