-- ===== src/Connectivity/Registration.antt =====
-- connectivity/registration.rs: the state of a registration, and the handlers that drive it.
--
-- The mutex of `reg_state` makes each handler one step. A handler returns the new state and what it
-- sets off, in order. A response is what rust_rcs_core reads out of it: `answered` says whether its
-- challenge is there and was answered, by the SIM or by the password. An `Instant` is a number of
-- seconds. The digest parameters, which only go into the text of a request, are left out.
pub mod Refresh
pub mod Final
use rust_rcs_client.Common.{
  ℕ, suc, ◌+◌, ◌%◌, ◌^◌, Bool, true, false, ◌&&◌, List, [], ◌∷◌, ◌++◌, Option, none, some, Bytes,
  codes, if◌then◌else◌, leb, ltb, ◌==◌,
}

pub data RegistrationState : Type 0 where
  idle : RegistrationState
  requesting : RegistrationState
  -- the un-barred identity, and the expiration
  registered : Bytes → ℕ → RegistrationState
  released : RegistrationState

-- `reg_state`: the sequence number, a `u32`, and the state
pub record Registration : Type 0 where
  pub seq : ℕ
  pub state : RegistrationState

pub data Effect : Type 0 where
  -- a request with its `failure_count` and its sequence number
  send_register : ℕ → ℕ → Effect
  send_deregister : ℕ → Effect
  -- `RegistrationEvent::Registered` and `RegistrationEvent::Released`
  registered_event : Bytes → Effect
  released_event : Effect
  -- `on_registration_authenticated`
  authenticated : Bytes → Effect
  -- a task that sleeps until the expiration
  sleep_until : ℕ → Effect

pub record Response : Type 0 where
  pub status_code : ℕ
  -- the URIs of `P-Associated-URI`
  pub associated_uris : List Bytes
  -- `get_contact_expires` and `get_sip_expires`
  pub contact_expires : Option ℕ
  pub sip_expires : Option ℕ
  pub answered : Bool

unfoldable pub new : Registration
new = record { seq = 0; state = idle }

-- the effect of `make_request` on the state
unfoldable pub next_seq : ℕ → ℕ
next_seq seq = (seq + 1) % 2 ^ 32

unfoldable pub start_register : Registration → Registration × List Effect
unfolding next_seq
start_register r = elim r.state [
  | idle ↦
      (record { seq = next_seq r.seq; state = requesting }, send_register 0 (next_seq r.seq) ∷ [])
  | _ ↦ (r, [])
]

unfoldable pub deregister : Registration → Registration × List Effect
unfolding next_seq
deregister r = elim r.state [
  | registered impu e ↦
      (record { seq = next_seq r.seq; state = released }, send_deregister (next_seq r.seq) ∷ [])
  | _ ↦ (r, [])
]

-- `guard.1 = RELEASED` with its event; also `on_transport_error`
unfoldable pub release : Registration → Registration × List Effect
release r = (record r { state = released }, released_event ∷ [])

-- the tasks that `schedule_refresh` spawns
unfoldable pub schedule_refresh : ℕ → RegistrationState → List Effect
schedule_refresh expiration (registered _ e) =
    if expiration == e then [] else sleep_until expiration ∷ []
schedule_refresh expiration _ = sleep_until expiration ∷ []

-- what the task does at its expiration
unfoldable pub refresh : ℕ → Registration → Registration × List Effect
unfolding next_seq
refresh expiration r = elim r.state [
  | registered impu e ↦
      if expiration == e
      then (record r { seq = next_seq r.seq }, send_register 0 (next_seq r.seq) ∷ [])
      else (r, [])
  | _ ↦ (r, [])
]

starts_with : Bytes → Bytes → Bool
starts_with [] s = true
starts_with (p ∷ ps) [] = false
starts_with (p ∷ ps) (x ∷ s) = p == x && starts_with ps s

-- the first un-barred identity with a `sip:` URI
unfoldable pub public_identity : Bytes → List Bytes → Bytes
unfolding starts_with
public_identity otherwise [] = otherwise
public_identity otherwise (uri ∷ uris) =
    if starts_with (codes "sip:") uri then uri else public_identity otherwise uris

abbrev expires_in : Option ℕ → Option ℕ → Option ℕ
expires_in (some e) _ = some e
expires_in none e = e

-- a success that expires at the given time
unfoldable pub on_success : Bytes → ℕ → Registration → Registration × List Effect
unfolding schedule_refresh
on_success impu expiration r = elim r.state [
  | requesting ↦ (
    record r { state = registered impu expiration },
    registered_event impu
        ∷ authenticated impu
        ∷ schedule_refresh expiration (registered impu expiration),
  )
  | _ ↦ (r, schedule_refresh expiration r.state)
]

-- a `2xx` with its expiry, if it has one
unfoldable pub on_accepted : Bytes → ℕ → Option ℕ → Registration → Registration × List Effect
unfolding on_success release
on_accepted impu now none r = release r
on_accepted impu now (some e) r = on_success impu (now + e) r

-- a `401` for the request with this `failure_count`
unfoldable pub on_challenge : ℕ → Bool → Registration → Registration × List Effect
unfolding release next_seq
on_challenge failure_count answered r =
    if ltb 0 failure_count
    then release r
    else if answered
    then (record r { seq = next_seq r.seq }, send_register 1 (next_seq r.seq) ∷ [])
    else release r

-- `tmpu` is `tmpu_from_impi` of the private identity.
unfoldable pub on_final_response :
    Bytes → ℕ → ℕ → Response → Registration → Registration × List Effect
unfolding on_accepted on_challenge release public_identity
on_final_response tmpu now failure_count m r =
    if leb 200 m.status_code && ltb m.status_code 300
    then on_accepted (public_identity tmpu m.associated_uris) now
        (expires_in m.contact_expires m.sip_expires) r
    else if m.status_code == 401
    then on_challenge failure_count m.answered r
    else release r
