-- ===== src/Tests/Connectivity.antt =====
-- The registration information and the flows on concrete input: a document with one contact, created
-- and then terminated, and a run of `FlowManager` over a NOTIFY with it.
use rust_rcs_client.Common.{
  true, false, [], ◌∷◌, Option, none, some, ◌≡◌, refl, Bytes, codes, bytes_eq, eq_ignore_ascii_case,
  if◌then◌else◌,
}
use rust_rcs_client.Core.{EqualsBytes}
use rust_rcs_client.Xml.{BytesStart, Reader, start, end, eof, element_start}
use rust_rcs_client.Xml.Forest.{Forest, nil, element, text_node, events}
use rust_rcs_client.Connectivity.RegInfoXml.{ContactNode, RegistrationNode, parse_xml}
use rust_rcs_client.Connectivity.RegInfoXml.Document.{reg_info_over, parse_xml-events}
use rust_rcs_client.Connectivity.Flow.{
  FlowInfo, ManagedFlow, state_changed, expiration_refreshed, create_aor_within_flow,
  remove_aor_within_flow, apply_registrations,
}
use rust_rcs_client.Connectivity.Flow.Handlers.{
  initial, observe_registration, on_registration_authenticated, Notification, received_notify,
  on_subscriber_event, document_of, settle, hear,
}
use rust_rcs_client.Connectivity.Flow.Membership.{registered, AreFlows}
use rust_rcs_client.Connectivity.Flow.Notify.{
  Achieves, renews_any, registrations_effect, apply_registrations-Achieves,
}
use rust_rcs_client.Connectivity.Flow.Reachable.{
  IsManaged, after_hearing, run_at, observed, authenticated, heard, Reachable, new, step,
  Reachable-IsManaged,
}

abbrev equals : EqualsBytes
equals a b ignore_case = if ignore_case then eq_ignore_ascii_case a b else bytes_eq a b

abbrev reginfo : BytesStart
reginfo =
    element_start (codes "reginfo")
      ((codes "version", codes "0") ∷ (codes "state", codes "full") ∷ [])

-- a registration with one contact
abbrev registrations : Forest
registrations =
    element
      (element_start (codes "registration") (
        (codes "aor", codes "sip:u@h")
        ∷ (codes "id", codes "a")
        ∷ (codes "state", codes "active")
        ∷ []))
      (element
        (element_start (codes "contact") (
          (codes "state", codes "active")
          ∷ (codes "event", codes "registered")
          ∷ (codes "id", codes "f")
          ∷ (codes "expires", codes "600")
          ∷ []))
        (element (element_start (codes "uri") []) (text_node (some (codes "u@10.0.0.1")) nil) nil)
        nil)
      nil

abbrev contact : ContactNode
contact = record {
  state = codes "active";
  event = codes "registered";
  duration_registered = none;
  expires = some (codes "600");
  id = codes "f";
  uri = codes "u@10.0.0.1";
}

abbrev gone_contact : ContactNode
gone_contact = record contact { state = codes "terminated"; event = codes "unregistered" }

abbrev registration : RegistrationNode
registration = record {
  aor = codes "sip:u@h";
  id = codes "a";
  state = codes "active";
  contact_nodes = contact ∷ gone_contact ∷ [];
}

abbrev flow : FlowInfo
flow = record {
  uri = codes "u@10.0.0.1";
  flow_id = codes "f";
  expires = 600;
  registerred_addresses =
      record {
        is_implicit_address = false;
        record_id = codes "a";
        public_user_id = codes "sip:u@h";
      }
      ∷ [];
}

flow-AreFlows : AreFlows (flow ∷ [])
flow-AreFlows = record {
  ids = (refl, tt);
  each = (record { records = (refl, tt); inhabited = refl }, tt);
}

none-AreFlows : AreFlows []
none-AreFlows = record { ids = tt; each = tt }

abbrev document : Reader
document = start reginfo ∷ events registrations (end ∷ eof ∷ [])

abbrev notification : Notification
notification = record { content_type = codes "application/reginfo+xml"; body = some document }

-- a flow's URI is taken as it stands
abbrev first_uri : Bytes → Option Bytes
first_uri = some

abbrev bound : ManagedFlow
bound =
    on_registration_authenticated (codes "u@h") 1 5
      (observe_registration 3 (codes "10.0.0.1") 1 initial).0

parse_xml-events_example :
    parse_xml (start reginfo ∷ events registrations (end ∷ eof ∷ []))
    ≡ reg_info_over reginfo registrations
unfolding eq_ignore_ascii_case
parse_xml-events_example = parse_xml-events reginfo registrations (eof ∷ []) refl

apply_registrations-Achieves_example :
    Achieves
      (renews_any (registration ∷ []))
      (registrations_effect (registration ∷ []) (λ f a. registered f a []))
      (apply_registrations (registration ∷ []) [])
apply_registrations-Achieves_example =
    apply_registrations-Achieves (registration ∷ []) [] none-AreFlows

-- created, and terminated again
apply_registrations_test : apply_registrations (registration ∷ []) [] ≡ some []
unfolding apply_registrations create_aor_within_flow remove_aor_within_flow
apply_registrations_test = refl

on_notify_test : on_subscriber_event equals first_uri 3 1 (received_notify notification) bound ≡ (
  record {
    binding =
        some (record { transport = 3; transport_address = codes "10.0.0.1"; registration = 1 });
    subscription = some (codes "u@h", 5);
    flows = flow ∷ [];
  },
  state_changed true 3 (some (codes "u@h")) 1 ∷ expiration_refreshed 600 ∷ [],
)
unfolding on_subscriber_event on_registration_authenticated observe_registration initial document_of
    settle apply_registrations create_aor_within_flow
on_notify_test = refl

-- a run to a NOTIFY
abbrev run :
    Reachable equals first_uri
      (after_hearing equals first_uri 0 (hear equals first_uri 3 1 notification bound))
run =
    step (run_at bound 0) _
      (step _ (run_at bound 0)
        (step (run_at initial 0) _ new (observed 0 3 (codes "10.0.0.1") 1 initial))
        (authenticated 0 (codes "u@h") 1 5 (observe_registration 3 (codes "10.0.0.1") 1 initial).0))
      (heard 0 3 1 notification bound)

Reachable-IsManaged_example :
    IsManaged (after_hearing equals first_uri 0 (hear equals first_uri 3 1 notification bound))
Reachable-IsManaged_example = Reachable-IsManaged equals first_uri _ run
