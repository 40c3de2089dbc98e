-- ===== src/Connectivity/Flow.antt =====
-- connectivity/flow.rs: the flows that the registrar reports for this client, kept up to date by the
-- NOTIFYs of the reg-event subscription, and the registration that they belong to.
--
-- The mutex of `FlowManager` makes each handler one step on `ManagedFlow`. A handler returns the
-- new state and what it sets off, in order. A transport, a registration and a subscriber stand for
-- themselves by the address of their `Arc`, which is what `Arc::ptr_eq` compares. The heart-beat
-- task, the SUBSCRIBE request and `platform_log` are left out.
pub mod Membership
pub mod Removal
pub mod Invariant
pub mod Handlers
pub mod Notify
pub mod Reachable
use rust_rcs_client.Common.{
  ℕ, zero, suc, ◌+◌, Bool, true, false, not, ◌&&◌, ◌||◌, List, [], ◌∷◌, ◌++◌, Option, none, some,
  Bytes, codes, bytes_eq, eq_ignore_ascii_case, split_at, parse_unsigned, if◌then◌else◌, ◌==◌,
  ◌>>=◌, index_of, modify, swap_remove, get_elem?, has_key, remove_key,
}
use rust_rcs_client.Core.{EqualsBytes}
use rust_rcs_client.Xml.{Reader}
use rust_rcs_client.Connectivity.RegInfoXml.{ContactNode, RegistrationNode, RegInfoXml, parse_xml}

pub record AddressOfRecord : Type 0 where
  pub is_implicit_address : Bool
  pub record_id : Bytes
  pub public_user_id : Bytes

pub record FlowInfo : Type 0 where
  pub uri : Bytes
  pub flow_id : Bytes
  -- a `u32`
  pub expires : ℕ
  pub registerred_addresses : List AddressOfRecord

-- transport, transport address and registration
pub record Binding : Type 0 where
  pub transport : ℕ
  pub transport_address : Bytes
  pub registration : ℕ

-- what the mutex guards: `.0`, `.1` and `.2`
pub record ManagedFlow : Type 0 where
  pub binding : Option Binding
  -- the public user identity, and the subscriber
  pub subscription : Option (Bytes × ℕ)
  pub flows : List FlowInfo

pub data Effect : Type 0 where
  -- `(state_callback)(registered, transport, public identity, registration)`
  state_changed : Bool → ℕ → Option Bytes → ℕ → Effect
  -- `SubscriptionEvent::ExpirationRefreshed` at so many seconds from now
  expiration_refreshed : ℕ → Effect
  -- `subscriber.stop_subscribing(…, transport, …)`
  stop_subscribing : ℕ → ℕ → Effect
  -- the `oneshot` that ends the heart-beat of the binding
  stop_heartbeat : ℕ → Effect

abbrev pub has_record : Bytes → List AddressOfRecord → Bool
has_record id addresses = has_key (λ a. a.record_id) id addresses

unfoldable pub create_aor : List AddressOfRecord → RegistrationNode → Bool → List AddressOfRecord
unfolding bytes_eq
create_aor addresses node is_implicit =
    if has_record node.id addresses
    then addresses
    else addresses
      ++ (record {
        is_implicit_address = is_implicit;
        record_id = node.id;
        public_user_id = node.aor;
      }
          ∷ [])

-- `u32::from_str_radix(expires, 10)`, and 0 for an error or no attribute
unfoldable pub expires_of : ContactNode → ℕ
unfolding parse_unsigned
expires_of contact = elim contact.expires [
  | none ↦ 0
  | some text ↦ elim (parse_unsigned 32 text) [ none ↦ 0 | some n ↦ n ]
]

abbrev pub is_flow : ContactNode → FlowInfo → Bool
is_flow contact flow = bytes_eq flow.flow_id contact.id

abbrev pub is_created : ContactNode → Bool
is_created contact = bytes_eq contact.event (codes "created")

unfoldable pub create_aor_within_flow :
    ContactNode → RegistrationNode → List FlowInfo → List FlowInfo
unfolding create_aor expires_of bytes_eq
create_aor_within_flow contact node [] =
    record {
      uri = contact.uri;
      flow_id = contact.id;
      expires = expires_of contact;
      registerred_addresses = create_aor [] node (is_created contact);
    }
    ∷ []
create_aor_within_flow contact node (flow ∷ flows) =
    if is_flow contact flow
    then record flow {
      registerred_addresses = create_aor flow.registerred_addresses node (is_created contact);
    }
      ∷ flows
    else flow ∷ create_aor_within_flow contact node flows

-- `none` is `Err(())`
unfoldable pub update_aor_within_flow : ContactNode → List FlowInfo → Option (List FlowInfo)
unfolding expires_of bytes_eq
update_aor_within_flow contact flows = do
  i ← index_of (is_flow contact) flows
  some (modify (λ flow. record flow { expires = expires_of contact }) i flows)

abbrev pub is_empty {ℓ} : {A : Type ℓ} → List A → Bool
is_empty [] = true
is_empty (x ∷ xs) = false

-- the loop over the addresses of a flow, with its counter `j`
unfoldable pub remove_record : Bytes → List AddressOfRecord → List AddressOfRecord
unfolding remove_key
remove_record id addresses = remove_key (λ a. a.record_id) id addresses

abbrev pub is_empty_at : ℕ → List FlowInfo → Bool
is_empty_at i flows = elim (get_elem? flows i) [
  | none ↦ false
  | some flow ↦ is_empty flow.registerred_addresses
]

-- the loop over the flows, with its counter `i`
unfoldable pub remove_aor_within_flow :
    ContactNode → RegistrationNode → List FlowInfo → List FlowInfo
unfolding remove_record index_of modify swap_remove bytes_eq
remove_aor_within_flow contact node flows = elim (index_of (is_flow contact) flows) [
  | none ↦ flows
  | some i ↦
      let less =
        modify
          (λ flow. record flow {
            registerred_addresses = remove_record node.id flow.registerred_addresses;
          })
          i flows in
      if is_empty_at i less then swap_remove i less else less
]

abbrev pub any_of : Bytes → List Bytes → Bool
any_of event [] = false
any_of event (e ∷ es) = bytes_eq event e || any_of event es

-- the chain of `if`s over the state and event of a contact; `none` is the early return by `Err(())`
unfoldable pub apply_contact :
    RegistrationNode → ContactNode → List FlowInfo → Option (List FlowInfo)
apply_contact node contact flows =
    if bytes_eq contact.state (codes "terminated")
      && any_of contact.event (codes "unregistered" ∷ codes "rejected" ∷ codes "deactivated" ∷ [])
    then some (remove_aor_within_flow contact node flows)
    else if bytes_eq contact.state (codes "active")
    then (if any_of contact.event (codes "created" ∷ codes "registered" ∷ [])
        then some (create_aor_within_flow contact node flows)
        else if any_of contact.event (codes "shortened" ∷ codes "refreshed" ∷ [])
        then update_aor_within_flow contact flows
        else some flows)
    else some flows

unfoldable pub apply_contacts :
    RegistrationNode → List ContactNode → List FlowInfo → Option (List FlowInfo)
unfolding apply_contact
apply_contacts node [] flows = some flows
apply_contacts node (c ∷ cs) flows = do
  flows' ← apply_contact node c flows
  apply_contacts node cs flows'

unfoldable pub apply_registrations : List RegistrationNode → List FlowInfo → Option (List FlowInfo)
unfolding apply_contacts
apply_registrations [] flows = some flows
apply_registrations (node ∷ nodes) flows = do
  flows' ← apply_contacts node node.contact_nodes flows
  apply_registrations nodes flows'
