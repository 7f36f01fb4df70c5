-- ===== src/Pairing/Service/Outcome.antt =====
-- What a pairing request comes to (src/pairing/PairingService.cpp).
use nexus_firmware.Prelude.{
  String, str_eq, is_empty, Bool, true, false, Option, none, some, if◌then◌else◌, ◌≡◌, refl, sym,
  ap, ◌∙◌, inl, inr, arith, Option-cases, Bool-cases,
}
use nexus_firmware.Prelude.Int.{ℤ, ltb_ℤ}
use nexus_firmware.Core.Status.{
  Status, success, error, is_ok, Status-cases, Result, value, failed, ErrorCode, permission_denied,
}
use nexus_firmware.Config.Speaker.{validate as config_valid}
use nexus_firmware.Config.Manager.Updates.{update_done}
use nexus_firmware.Pairing.Service.{
  WifiCredentials, PairingRequest, PairingResult, canonical_string, is_well_formed_streamer_id,
  PairingIo, PairingService, fail, put_secrets, adopt, persist_pairing, result_of, complete,
  validate, pair_with, process_request,
}
use nexus_firmware.Pairing.Service.Persistence.{Ends, fail-Ends, untouched, complete-Ends}

if_true {ℓ} : {A : Type ℓ} {x : A} (y : A) (b : Bool) → b ≡ true → (if b then x else y) ≡ x
if_true y true e = refl
if_true y false e = cc

if_false {ℓ} : {A : Type ℓ} {y : A} (x : A) (b : Bool) → b ≡ false → (if b then x else y) ≡ y
if_false x false e = refl
if_false x true e = cc

not_paired :
    {r : PairingResult} (s : PairingService) (code : ErrorCode) (msg : String)
    → (fail code msg s).1 ≡ value r
    → ⊥
unfolding fail
not_paired s code msg e = cc

mode_ended :
    (s : PairingService) (o : PairingService × Result PairingResult) (r : PairingResult)
    → o.1 ≡ value r
    → Ends s o
    → o.0.setup_mode ≡ false
unfolding Ends
mode_ended s (s', value q) r e h = h.mode_over
mode_ended s (s', failed code msg) r e h = cc

module _ (verify : String → String → String → Bool) (open_sealed : String → Option String)
    (read_wifi : String → Option WifiCredentials) where
  pair_with-Ends :
      (io : PairingIo) (req : PairingRequest) (o : Option String) (s : PairingService)
      → Ends s (pair_with verify open_sealed read_wifi io req o s)
  unfolding pair_with
  pair_with-Ends io req none s = fail-Ends s s _ _ (untouched s)
  pair_with-Ends io req (some opened) s = elim (Option-cases (read_wifi opened)) [
    | inl missing ↦ rw (missing, pair_with) (fail-Ends s s _ _ (untouched s))
    | inr (wifi, given) ↦ rw (given, pair_with) (complete-Ends io (result_of req wifi) s)
  ]

  checks :
      (req : PairingRequest) (expected : String) (now expiry : ℤ)
      → validate verify open_sealed read_wifi req expected now expiry ≡ success
      → (is_well_formed_streamer_id req.streamer_id ≡ true)
        × (is_empty expected ≡ false)
        × (str_eq req.setup_code expected ≡ true)
        × (ltb_ℤ expiry now ≡ false)
        × (verify (canonical_string req) req.signature_b64 req.streamer_public_key ≡ true)
  unfolding validate
  checks req expected now expiry good = ground arith

  refused_closed :
      (io : PairingIo) (req : PairingRequest) (now : ℤ) (s : PairingService)
      → s.setup_mode ≡ false
      → process_request verify open_sealed read_wifi io req now s
        ≡ fail permission_denied "not in setup mode" s
  unfolding process_request
  refused_closed io req now s closed = if_false _ s.setup_mode closed

  refused_invalid :
      (io : PairingIo) (req : PairingRequest) (now : ℤ) (s : PairingService) (code : ErrorCode)
      (msg : String)
      → s.setup_mode ≡ true
      → validate verify open_sealed read_wifi req s.setup_code now s.code_expiry_epoch
        ≡ error code msg
      → process_request verify open_sealed read_wifi io req now s ≡ fail code msg s
  unfolding process_request
  refused_invalid io req now s code msg opened bad =
      rw (bad, process_request) (if_true _ s.setup_mode opened)

  let_in :
      (io : PairingIo) (req : PairingRequest) (now : ℤ) (s : PairingService)
      → s.setup_mode ≡ true
      → validate verify open_sealed read_wifi req s.setup_code now s.code_expiry_epoch ≡ success
      → process_request verify open_sealed read_wifi io req now s
        ≡ pair_with verify open_sealed read_wifi io req (open_sealed req.sealed_wifi_b64) s
  unfolding process_request
  let_in io req now s opened good = rw (good, process_request) (if_true _ s.setup_mode opened)

  pub process_request-Ends :
      (io : PairingIo) (req : PairingRequest) (now : ℤ) (s : PairingService)
      → Ends s (process_request verify open_sealed read_wifi io req now s)
  process_request-Ends io req now s = elim (Bool-cases s.setup_mode) [
    | inr closed ↦ rw (refused_closed io req now s closed) (fail-Ends s s _ _ (untouched s))
    | inl opened ↦
        elim (Status-cases
          (validate verify open_sealed read_wifi req s.setup_code now s.code_expiry_epoch)) [
            | inl good ↦
                rw (let_in io req now s opened good)
                  (pair_with-Ends io req (open_sealed req.sealed_wifi_b64) s)
            | inr (code, msg, bad) ↦
                rw (refused_invalid io req now s code msg opened bad)
                  (fail-Ends s s code msg (untouched s))
          ]
  ]

  -- Only a request that is let in pairs: the speaker is in setup mode, the request carries the setup
  -- code in time, and its signature verifies against the key that is adopted.
  pub paired_checked :
      (io : PairingIo) (req : PairingRequest) (now : ℤ) (s : PairingService) (r : PairingResult)
      → (process_request verify open_sealed read_wifi io req now s).1 ≡ value r
      → (s.setup_mode ≡ true)
        × (is_well_formed_streamer_id req.streamer_id ≡ true)
        × (is_empty s.setup_code ≡ false)
        × (str_eq req.setup_code s.setup_code ≡ true)
        × (ltb_ℤ s.code_expiry_epoch now ≡ false)
        × (verify (canonical_string req) req.signature_b64 req.streamer_public_key ≡ true)
  paired_checked io req now s r done = elim (Bool-cases s.setup_mode) [
    | inr closed ↦
        elim (not_paired s _ _
          (sym (ap (λ z. z.1) (refused_closed io req now s closed)) ∙ done)) [ ]
    | inl opened ↦
        elim (Status-cases
          (validate verify open_sealed read_wifi req s.setup_code now s.code_expiry_epoch)) [
            | inl good ↦
                let c = checks req s.setup_code now s.code_expiry_epoch good in
                (opened, c.0, c.1, c.2, c.3, c.4)
            | inr (code, msg, bad) ↦
                elim (not_paired s code msg (
                  sym (ap (λ z. z.1) (refused_invalid io req now s code msg opened bad))
                  ∙ done)) [ ]
          ]
  ]

  -- Pairing is one-time: after a success every further request is refused and changes nothing, until
  -- setup mode is begun again.
  pub paired_once :
      (io later : PairingIo) (req again : PairingRequest) (now then' : ℤ) (s : PairingService)
      (r : PairingResult)
      → (process_request verify open_sealed read_wifi io req now s).1 ≡ value r
      → let s' = (process_request verify open_sealed read_wifi io req now s).0 in
        process_request verify open_sealed read_wifi later again then' s'
        ≡ fail permission_denied "not in setup mode" s'
  paired_once io later req again now then' s r done =
      refused_closed later again then' _ (mode_ended s _ r done (process_request-Ends io req now s))

  persisted :
      (io : PairingIo) (r : PairingResult) (s : PairingService)
      → io.put_ssid ≡ success
      → io.put_psk ≡ success
      → is_ok (config_valid (adopt r s.config.config)) ≡ true
      → is_ok io.config_io.write ≡ true
      → (persist_pairing io r s).1 ≡ success
  unfolding persist_pairing put_secrets
  persisted io r s one two good fine =
      rw (one, two, persist_pairing, put_secrets)
        (ap (λ z. z.1) (update_done io.config_io (adopt r) s.config good fine))

  completed :
      (r : PairingResult) (p : PairingService × Status) → p.1 ≡ success → (complete r p).1 ≡ value r
  unfolding complete
  completed r (s, success) e = refl
  completed r (s, error code msg) e = cc

  -- A request that is let in, whose credentials open and can be read, pairs the speaker where the
  -- secrets and the settings can be stored and the settings with the pairing are valid.
  pub pairing_succeeds :
      (io : PairingIo) (req : PairingRequest) (now : ℤ) (s : PairingService) (bytes : String)
      (wifi : WifiCredentials)
      → s.setup_mode ≡ true
      → validate verify open_sealed read_wifi req s.setup_code now s.code_expiry_epoch ≡ success
      → open_sealed req.sealed_wifi_b64 ≡ some bytes
      → read_wifi bytes ≡ some wifi
      → io.put_ssid ≡ success
      → io.put_psk ≡ success
      → is_ok (config_valid (adopt (result_of req wifi) s.config.config)) ≡ true
      → is_ok io.config_io.write ≡ true
      → (process_request verify open_sealed read_wifi io req now s).1 ≡ value (result_of req wifi)
  unfolding pair_with
  pairing_succeeds io req now s bytes wifi opened good box read one two valid fine =
      ap (λ z. z.1) (let_in io req now s opened good)
      ∙ rw (box, pair_with, read)
          (completed (result_of req wifi) _
            (persisted io (result_of req wifi) s one two valid fine))
