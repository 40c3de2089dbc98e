-- ===== src/Tests/Cpm.antt =====
-- CPM sessions on concrete input: a negotiation in the wrong order, and an invitation.
use rust_rcs_client.Common.{
  length, inr, ◌≤◌, ℕ, arith, Bool, true, false, List, [], ◌∷◌, none, some, ◌≡◌, refl, Bytes, codes,
}
use rust_rcs_client.Messaging.Cpm.SessionInfo.{
  Sip, CpmSessionInfo, one_to_one, get_cpm_session_info_from_message,
}
use rust_rcs_client.Messaging.Cpm.LargeMode.{Parsers}
use rust_rcs_client.Messaging.Cpm.LargeMode.Once.{
  message_op, write_op, complete_op, deliveries_of, first_transfer, run-first_transfer,
}
use rust_rcs_client.Messaging.Cpm.LargeMode.Once
use rust_rcs_client.Messaging.Cpm.Pager
use rust_rcs_client.Messaging.Cpm.Pager.Chatbots.{handle_message-chatbot}
use rust_rcs_client.Messaging.Cpm.Session.{
  Local, Remote, Op, local_op, remote_op, start_op, none_set, run, ConnectsOnce, run-ConnectsOnce,
  start,
}
use rust_rcs_client.Messaging.Cpm.Handler.{Application, Invite, send_receive, passes, handle_invite}
use rust_rcs_client.Messaging.Cpm.Handler.Declines.{Declines, handle_invite-Declines}
use rust_rcs_client.Messaging.Cpm.Invitation.{
  MsrpInfo, Allocated, allocated, try_accept_invitation, WaitsForAck,
  try_accept_invitation-WaitsForAck,
}

abbrev local_end : Local ℕ
local_end = record {
  l_sdp = codes "v=0";
  sock = some 7;
  tls = true;
  laddr = codes "10.0.0.1";
  lport = 2855;
  lpath = codes "msrps://10.0.0.1:2855/a;tcp";
}

abbrev remote_end : Remote ℕ
remote_end = record {
  r_sdp = codes "v=0";
  raddr = codes "10.0.0.2";
  rport = 2856;
  rpath = codes "msrps://10.0.0.2:2856/b;tcp";
}

-- a start too early, the descriptions, and two starts
abbrev ops : List (Op ℕ)
ops = start_op ∷ (remote_op remote_end ∷ (local_op local_end ∷ (start_op ∷ (start_op ∷ []))))

run-ConnectsOnce_example : ConnectsOnce ℕ (some local_end) (some remote_end) (run ℕ ops none_set).0
run-ConnectsOnce_example = run-ConnectsOnce ℕ ops

connected :
    (run ℕ ops none_set).0
    ≡ record { socket = 7; addr = codes "10.0.0.2"; port = 2856; tls = true } ∷ []
unfolding run start
connected = refl

-- addresses are their own URIs
abbrev sip : Sip
sip = record {
  first_uri_part = λ s. some (record { uri = s; parameters = [] });
  get_parameters = λ s. [];
  display_name = λ s. none;
  standard_uri = λ s. some s;
  query_contact = λ s. [];
  start_with = λ s prefix. false;
  is_utf8 = λ s. true;
}

abbrev headers : List (Bytes × Bytes)
headers =
    (codes "contact", codes "sip:a")
    ∷ ((codes "P-Asserted-Identity", codes "tel:1") ∷ ((codes "Subject", codes "hi") ∷ []))

abbrev info : CpmSessionInfo
info = record {
  cpm_contact = record {
    service_uri = codes "sip:a";
    service_type = one_to_one;
    service_support_message_revoke = false;
    service_support_network_fallback = false;
  };
  asserted_contact_uri = codes "tel:1";
  conversation_id = none;
  contribution_id = none;
  subject = some (codes "hi");
  referred_by = none;
  is_deferred_session = false;
  contact_alias = none;
  conversation_supports_anonymization = false;
  conversation_is_using_anonymization_token = false;
}

info_test : get_cpm_session_info_from_message sip headers false ≡ some info
unfolding get_cpm_session_info_from_message
info_test = refl

abbrev offer : MsrpInfo
offer = record {
  protocol = codes "TCP/TLS/MSRP";
  address = codes "10.0.0.2";
  is_ipv6 = false;
  port = 2856;
  path = codes "msrps://10.0.0.2:2856/b;tcp";
  accept_types = codes "message/cpim";
  is_active = false;
  accept_wrapped_types = codes "*";
}

abbrev socket : Allocated ℕ
socket = record {
  cs = 7;
  host = codes "10.0.0.1";
  port = 2855;
  tls = true;
  active_setup = true;
  ipv6 = false;
}

try_accept_invitation-WaitsForAck_example :
    WaitsForAck ℕ sip
      (λ i. codes "v=0")
      info
      (codes "v=0")
      offer
      socket
      (codes "r")
      (some (codes "sip:me", codes "urn"))
      (some (1800, true))
      (try_accept_invitation ℕ sip
        (λ i. codes "v=0")
        info
        (codes "v=0")
        offer
        (allocated socket)
        (codes "r")
        (some (codes "sip:me", codes "urn"))
        (some (1800, true)))
try_accept_invitation-WaitsForAck_example =
    try_accept_invitation-WaitsForAck ℕ sip (λ i. codes "v=0") info (codes "v=0") offer socket
      (codes "r") (some (codes "sip:me", codes "urn")) (some (1800, true))

-- every header has the parameter of a CPM session
abbrev session_sip : Sip
session_sip = record {
  first_uri_part = λ s. some (record { uri = s; parameters = [] });
  get_parameters = λ s. (codes "+g.3gpp.icsi-ref", some s) ∷ [];
  display_name = λ s. some s;
  standard_uri = λ s. some s;
  query_contact = λ s. [];
  start_with = λ s prefix. false;
  is_utf8 = λ s. true;
}

abbrev busy : Application
busy = record {
  conversation_invite = λ deferred contact contribution_id conversation_id. 486;
  group_invite = λ contact conversation_id contribution_id subject name uri. 603;
}

abbrev any_name : Bytes → Bytes → Bool
any_name v reference = true

abbrev any_type : Bytes → Bool
any_type v = true

abbrev invitation : Invite
invitation = record {
  headers =
      (codes "Accept-Contact", codes "*")
      ∷ ((codes "Content-Type", codes "application/sdp")
          ∷ ((codes "Contact", codes "sip:a")
              ∷ ((codes "P-Asserted-Identity", codes "tel:1")
                  ∷ ((codes "Conversation-ID", codes "c")
                      ∷ ((codes "Contribution-ID", codes "d") ∷ [])))));
  direction = some send_receive;
}

handle_invite-Declines_example :
    Declines session_sip any_name any_type
      (λ s. some s)
      busy
      (handle_invite session_sip any_name any_type (λ s. some s) busy invitation)
handle_invite-Declines_example =
    handle_invite-Declines session_sip any_name any_type (λ s. some s) busy
      (λ deferred contact contribution_id conversation_id. omega arith)
      (λ contact conversation_id contribution_id subject name uri. omega arith) invitation

declined : handle_invite session_sip any_name any_type (λ s. some s) busy invitation ≡ passes false
unfolding handle_invite
declined = refl

-- a message is its bytes, of the type text/plain
abbrev parsers : Parsers Bytes Bytes Bytes
parsers = record {
  construct_message = λ b. inr b;
  try_from = λ b. inr b;
  get_info = λ m. inr (codes "i");
  get_message_body = λ m. some (record { content_type = none; bytes = m; base64_encoded = false });
  decode = λ b. some b;
}

-- chunks before the completion and behind it, and a second message
abbrev calls : List (Once.Op Bytes Bytes Bytes parsers)
calls =
    message_op
    ∷ (write_op (codes "he")
        ∷ (write_op (codes "llo")
            ∷ (complete_op ∷ (write_op (codes "!") ∷ (message_op ∷ (complete_op ∷ []))))))

run-first_transfer_example :
    (Once.run Bytes Bytes Bytes parsers calls
        (record { contact_uri = codes "tel:1"; sip_cpim_body = none; listening = true })
        none
      ≡ deliveries_of Bytes Bytes Bytes parsers
          (codes "tel:1")
          none
          (first_transfer Bytes Bytes Bytes parsers calls))
    × (length (
          Once.run Bytes Bytes Bytes parsers calls
            (record { contact_uri = codes "tel:1"; sip_cpim_body = none; listening = true })
            none)
        ≤ 1)
run-first_transfer_example = run-first_transfer Bytes Bytes Bytes parsers calls (codes "tel:1") none

delivered :
    Once.run Bytes Bytes Bytes parsers calls
      (record { contact_uri = codes "tel:1"; sip_cpim_body = none; listening = true })
      none
    ≡ record {
      contact_uri = codes "tel:1";
      info = codes "i";
      content_type = codes "text/plain";
      body = codes "hello";
    }
      ∷ []
unfolding Once.run
delivered = refl

-- every text is its own address, and contains every other
abbrev pager : Pager.Parsers Bytes Bytes
pager = record {
  index_of = λ v reference. true;
  contains_imdn = λ m. false;
  get_info = λ m. some m;
  get_message_body = λ m. some (record { content_type = none; bytes = m; base64_encoded = false });
  from_uri = λ i. some i;
  payload_type = λ i. none;
  address_uri = λ v. some v;
  decode = λ b. some b;
}

abbrev chatbot_request : Pager.Request Bytes Bytes
chatbot_request = record {
  content_type = some true;
  cpim = some (codes "hi");
  parts = [];
  accept_contacts =
      ((codes "+g.3gpp.icsi-ref", some (codes "*"))
        ∷ ((codes "+g.3gpp.iari-ref", some (codes "*")) ∷ []))
      ∷ [];
  asserted_identity = some (codes "sip:bot");
}

handle_message-chatbot_example :
    (Pager.handle_message Bytes Bytes pager chatbot_request).deliveries ≡ []
unfolding Pager.is_chatbot_message Pager.is_imdn
handle_message-chatbot_example = handle_message-chatbot Bytes Bytes pager chatbot_request refl refl

refused : (Pager.handle_message Bytes Bytes pager chatbot_request).status ≡ some 606
unfolding Pager.handle_message
refused = refl

delivered_direct :
    (Pager.handle_message Bytes Bytes pager (record chatbot_request {
      accept_contacts = ((codes "+g.3gpp.icsi-ref", some (codes "*")) ∷ []) ∷ [];
    })).deliveries
    ≡ record {
      contact_uri = codes "sip:bot";
      info = codes "hi";
      content_type = codes "text/plain";
      body = codes "hi";
    }
      ∷ []
unfolding Pager.handle_message
delivered_direct = refl
