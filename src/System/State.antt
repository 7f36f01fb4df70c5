-- ===== src/System/State.antt =====
-- src/system/SystemState.h and the transition table of src/system/StateMachine.cpp.
-- `SystemState::Error` is `error_state` here.
use nexus_firmware.Prelude.{
  ℕ, zero, suc, ◌≡◌, refl, sym, ap, ◌∙◌, arith, String, Bool, true, false, ◌&&◌, not, List, [], ◌∷◌,
  ◌==◌, if◌then◌else◌,
}

pub data SystemState : Type 0 where
  booting unconfigured setup_mode connecting_network searching_streamer : SystemState
  authenticating online playing calibrating updating : SystemState
  degraded offline error_state shutting_down : SystemState

unfoldable pub to_string : SystemState → String
to_string booting = "BOOTING"
to_string unconfigured = "UNCONFIGURED"
to_string setup_mode = "SETUP_MODE"
to_string connecting_network = "CONNECTING_NETWORK"
to_string searching_streamer = "SEARCHING_STREAMER"
to_string authenticating = "AUTHENTICATING"
to_string online = "ONLINE"
to_string playing = "PLAYING"
to_string calibrating = "CALIBRATING"
to_string updating = "UPDATING"
to_string degraded = "DEGRADED"
to_string offline = "OFFLINE"
to_string error_state = "ERROR"
to_string shutting_down = "SHUTTING_DOWN"

-- The number of a state: its place in the enumeration.
unfoldable pub state_code : SystemState → ℕ
state_code booting = 0
state_code unconfigured = 1
state_code setup_mode = 2
state_code connecting_network = 3
state_code searching_streamer = 4
state_code authenticating = 5
state_code online = 6
state_code playing = 7
state_code calibrating = 8
state_code updating = 9
state_code degraded = 10
state_code offline = 11
state_code error_state = 12
state_code shutting_down = 13

unfoldable pub eq_state : SystemState → SystemState → Bool
unfolding state_code
eq_state a b = state_code a == state_code b

unfoldable pub contains : List SystemState → SystemState → Bool
unfolding eq_state
contains [] s = false
contains (x ∷ xs) s = if eq_state x s then true else contains xs s

-- The `switch` of `legalTransition`.
unfoldable pub table : SystemState → List SystemState
table booting = unconfigured ∷ connecting_network ∷ []
table unconfigured = setup_mode ∷ []
table setup_mode = connecting_network ∷ unconfigured ∷ []
table connecting_network = searching_streamer ∷ offline ∷ setup_mode ∷ []
table searching_streamer = authenticating ∷ online ∷ offline ∷ connecting_network ∷ []
table authenticating = online ∷ searching_streamer ∷ offline ∷ []
table online = playing ∷ calibrating ∷ updating ∷ degraded ∷ offline ∷ []
table playing = online ∷ calibrating ∷ degraded ∷ offline ∷ []
table calibrating = online ∷ playing ∷ degraded ∷ []
table updating = online ∷ []
table degraded = online ∷ offline ∷ []
table offline = connecting_network ∷ searching_streamer ∷ degraded ∷ []
table error_state = booting ∷ degraded ∷ []
table shutting_down = []

unfoldable pub legal_transition : SystemState → SystemState → Bool
unfolding eq_state contains table
legal_transition from to =
    if eq_state to shutting_down
    then true
    else if eq_state to error_state && not (eq_state from shutting_down)
    then true
    else if eq_state from to
    then true
    else contains (table from) to

-- The enumeration has no two states with one number.
state_of : ℕ → SystemState
state_of zero = booting
state_of (suc zero) = unconfigured
state_of (suc (suc zero)) = setup_mode
state_of (suc (suc (suc zero))) = connecting_network
state_of (suc (suc (suc (suc zero)))) = searching_streamer
state_of (suc (suc (suc (suc (suc zero))))) = authenticating
state_of (suc (suc (suc (suc (suc (suc zero)))))) = online
state_of (suc (suc (suc (suc (suc (suc (suc zero))))))) = playing
state_of (suc (suc (suc (suc (suc (suc (suc (suc zero)))))))) = calibrating
state_of (suc (suc (suc (suc (suc (suc (suc (suc (suc zero))))))))) = updating
state_of (suc (suc (suc (suc (suc (suc (suc (suc (suc (suc zero)))))))))) = degraded
state_of (suc (suc (suc (suc (suc (suc (suc (suc (suc (suc (suc zero))))))))))) = offline
state_of (suc (suc (suc (suc (suc (suc (suc (suc (suc (suc (suc (suc zero)))))))))))) = error_state
state_of _ = shutting_down

state_of-state_code : (s : SystemState) → state_of (state_code s) ≡ s
unfolding state_of state_code
state_of-state_code booting = refl
state_of-state_code unconfigured = refl
state_of-state_code setup_mode = refl
state_of-state_code connecting_network = refl
state_of-state_code searching_streamer = refl
state_of-state_code authenticating = refl
state_of-state_code online = refl
state_of-state_code playing = refl
state_of-state_code calibrating = refl
state_of-state_code updating = refl
state_of-state_code degraded = refl
state_of-state_code offline = refl
state_of-state_code error_state = refl
state_of-state_code shutting_down = refl

pub eq_of_eq_state : (a b : SystemState) → eq_state a b ≡ true → a ≡ b
unfolding eq_state
eq_of_eq_state a b h =
    sym (state_of-state_code a)
    ∙ ap state_of (codes_equal (state_code a) (state_code b) h)
    ∙ state_of-state_code b
  where
    codes_equal : (m n : ℕ) → (m == n) ≡ true → m ≡ n
    codes_equal m n e = ground arith

pub eq_state_refl : (a : SystemState) → eq_state a a ≡ true
unfolding eq_state
eq_state_refl a = ground arith

pub legal_self : (a b : SystemState) → eq_state a b ≡ true → legal_transition a b ≡ true
unfolding legal_transition
legal_self a b h = ground arith
