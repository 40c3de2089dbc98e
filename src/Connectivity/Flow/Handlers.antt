-- ===== src/Connectivity/Flow/Handlers.antt =====
-- connectivity/flow.rs: the handlers of `FlowManager`, and of the events of its subscriber.
use rust_rcs_client.Common.{
  ℕ, Bool, true, false, not, ◌||◌, List, [], ◌∷◌, ◌++◌, Option, none, some, Bytes, codes,
  eq_ignore_ascii_case, split_at, if◌then◌else◌, ◌==◌, ◌>>=◌,
}
use rust_rcs_client.Core.{EqualsBytes}
use rust_rcs_client.Xml.{Reader}
use rust_rcs_client.Connectivity.RegInfoXml.{RegInfoXml, parse_xml}
use rust_rcs_client.Connectivity.Flow.{
  FlowInfo, Binding, ManagedFlow, Effect, state_changed, expiration_refreshed, stop_subscribing,
  stop_heartbeat, apply_registrations,
}

unfoldable pub initial : ManagedFlow
initial = record { binding = none; subscription = none; flows = [] }

-- `guard.1.take(); guard.2.clear();`
abbrev pub reset : ManagedFlow → ManagedFlow
reset s = record s { subscription = none; flows = [] }

-- An assignment to `guard.0` drops the sender of the binding before, which ends its heart-beat.
abbrev dropped_heartbeat : Option Binding → List Effect
dropped_heartbeat none = []
dropped_heartbeat (some b) = stop_heartbeat b.transport ∷ []

abbrev stopped : Option (Bytes × ℕ) → ℕ → List Effect
stopped none transport = []
stopped (some (impu, subscriber)) transport = stop_subscribing subscriber transport ∷ []

abbrev pub without_subscription : Option (Bytes × ℕ) → ManagedFlow → ManagedFlow
without_subscription none s = s
without_subscription (some _) s = reset s

unfoldable pub observe_registration : ℕ → Bytes → ℕ → ManagedFlow → ManagedFlow × List Effect
observe_registration transport transport_address registration s = (
  without_subscription s.subscription (record s {
    binding = some (record {
      transport = transport;
      transport_address = transport_address;
      registration = registration;
    });
  }),
  dropped_heartbeat s.binding ++ stopped s.subscription transport,
)

-- the registration of the binding, where the transport is the binding's
unfoldable pub stop_binding :
    ℕ → Option Binding → ManagedFlow → ManagedFlow × Option ℕ × List Effect
stop_binding transport none s = (s, none, [])
stop_binding transport (some b) s =
    if transport == b.transport
    then (reset (record s { binding = none }), some b.registration, stop_heartbeat b.transport ∷ [])
    else (s, none, [])

unfoldable pub stop_observation : ℕ → ManagedFlow → ManagedFlow × Option ℕ × List Effect
unfolding stop_binding
stop_observation transport s = stop_binding transport s.binding s

abbrev pub is_for_other : ℕ → Option Binding → Bool
is_for_other registration none = false
is_for_other registration (some b) = not (registration == b.registration)

-- `subscriber` is the subscriber that the function makes and subscribes with.
unfoldable pub on_registration_authenticated : Bytes → ℕ → ℕ → ManagedFlow → ManagedFlow
on_registration_authenticated impu registration subscriber s =
    if is_for_other registration s.binding
    then s
    else record s { subscription = some (impu, subscriber) }

-- `(flow_manager_.state_callback)(false, transport, None, registration)` for the binding
abbrev pub lost : Option Binding → List Effect
lost none = []
lost (some b) = state_changed false b.transport none b.registration ∷ []

unfoldable pub lose_flow : ManagedFlow → ManagedFlow × List Effect
lose_flow s = (reset s, lost s.binding)

-- `format!("{}@{}", user, t_addr)` for the part of the identity before its first `@`
unfoldable pub bound_uri : Bytes → Bytes → Bytes
unfolding split_at
bound_uri impu transport_address = elim (split_at b'@' impu) [
  | none ↦ impu ++ (b'@' ∷ transport_address)
  | some (user, host) ↦ user ++ (b'@' ∷ transport_address)
]

-- a NOTIFY: its content type, and the events of its body if that is `Body::Raw`
pub record Notification : Type 0 where
  pub content_type : Bytes
  pub body : Option Reader

pub data SubscriberEvent : Type 0 where
  received_notify : Notification → SubscriberEvent
  -- `Terminated` and `SubscribeFailed` share an arm; `NearExpiration` is `todo!()`
  terminated : SubscriberEvent
  subscribe_failed : SubscriberEvent

-- `first_uri` is `as_name_addresses().first()` with the URI of its `uri_part`.
module _ (equals_bytes : EqualsBytes) (first_uri : Bytes → Option Bytes) where
  same_uri : Bytes → Option Bytes → Bool
  same_uri uri none = false
  same_uri uri (some found) = equals_bytes uri found true

  unfoldable pub is_current_registry : Bytes → FlowInfo → Bool
  unfolding eq_ignore_ascii_case same_uri
  is_current_registry uri flow =
      eq_ignore_ascii_case uri flow.uri || same_uri uri (first_uri flow.uri)

  -- the loop over the flows: the first that is bound at `uri`
  unfoldable pub find_current : Bytes → List FlowInfo → Option FlowInfo
  unfolding is_current_registry
  find_current uri [] = none
  find_current uri (flow ∷ flows) =
      if is_current_registry uri flow then some flow else find_current uri flows

  -- the flow at which the registration is bound, with the public identity
  unfoldable pub current_flow : ManagedFlow → Option (Bytes × FlowInfo)
  unfolding bound_uri find_current
  current_flow s = do
    b ← s.binding
    subscription ← s.subscription
    flow ← find_current (bound_uri subscription.0 b.transport_address) s.flows
    some (subscription.0, flow)

  -- `transport` and `registration` are those that the subscriber's closure has captured. The Boolean
  -- says whether the closure goes on to take the mutex again, for `lose_flow`.
  unfoldable pub refresh :
      ℕ → ℕ → ManagedFlow → Option (Bytes × FlowInfo) → ManagedFlow × List Effect × Bool
  refresh transport registration s none = (s, [], true)
  refresh transport registration s (some (impu, flow)) = (
    s,
    state_changed true transport (some impu) registration ∷ expiration_refreshed flow.expires ∷ [],
    false,
  )

  -- what follows the loops over the parsed document, while the mutex is held; `none` is their early
  -- return
  unfoldable pub settle :
      ℕ → ℕ → ManagedFlow → Option (List FlowInfo) → ManagedFlow × List Effect × Bool
  unfolding current_flow refresh
  settle transport registration s none = (reset s, lost s.binding, false)
  settle transport registration s (some flows) =
      let s' = record s { flows = flows } in refresh transport registration s' (current_flow s')

  -- the document of a NOTIFY with the right type and a raw body that parses
  unfoldable pub document_of : Notification → Option RegInfoXml
  unfolding parse_xml
  document_of n =
      if equals_bytes n.content_type (codes "application/reginfo+xml") true
      then (do body ← n.body; parse_xml body)
      else none

  -- the first time that the mutex is held for a NOTIFY, if it is held twice or has a document
  unfoldable pub hear : ℕ → ℕ → Notification → ManagedFlow → ManagedFlow × List Effect × Bool
  unfolding document_of settle
  hear transport registration n s = elim (document_of n) [
    | none ↦ (s, [], true)
    | some info ↦
        settle transport registration s (apply_registrations info.registration_nodes s.flows)
  ]

  -- `lose_flow`, where the closure goes on
  unfoldable pub go_on : ManagedFlow × List Effect × Bool → ManagedFlow × List Effect
  unfolding lose_flow
  go_on (s, effects, true) = let (s', effects') = lose_flow s in (s', effects ++ effects')
  go_on (s, effects, false) = (s, effects)

  -- an event, where no other thread takes the mutex while it is handled
  unfoldable pub on_subscriber_event :
      ℕ → ℕ → SubscriberEvent → ManagedFlow → ManagedFlow × List Effect
  unfolding hear go_on
  on_subscriber_event transport registration (received_notify n) s =
      go_on (hear transport registration n s)
  on_subscriber_event transport registration terminated s = lose_flow s
  on_subscriber_event transport registration subscribe_failed s = lose_flow s
