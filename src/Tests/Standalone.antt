-- ===== src/Tests/Standalone.antt =====
-- The INVITE of a message in large mode on concrete input.
use rust_rcs_client.Common.{
  ℕ, Bool, true, false, List, [], ◌∷◌, none, some, ◌≡◌, refl, Bytes, codes, Option,
}
use rust_rcs_client.Messaging.Cpm.SessionInfo.{Sip}
use rust_rcs_client.Messaging.Cpm.Invitation.{MsrpInfo, Allocation, allocated, refused}
use rust_rcs_client.Messaging.Cpm.LargeInvite.Answers.{Answers, handle_large_invite-Answers}
use rust_rcs_client.Messaging.Cpm.LargeInvite.{
  LargeInvite, mixed_content, sdp_part, cpim_part, responds, handle_large_invite,
}

abbrev sip : Sip
sip = record {
  first_uri_part = λ s. some (record { uri = s; parameters = [] });
  get_parameters = λ s. [];
  display_name = λ s. none;
  standard_uri = λ s. some s;
  query_contact = λ s. [];
  start_with = λ s prefix. false;
  is_utf8 = λ s. true;
}

abbrev remote : MsrpInfo
remote = record {
  protocol = codes "TCP/MSRP";
  address = codes "10.0.0.2";
  is_ipv6 = false;
  port = 2856;
  path = codes "msrp://10.0.0.2:2856/b;tcp";
  accept_types = codes "message/cpim";
  is_active = true;
  accept_wrapped_types = codes "*";
}

abbrev any_name : Bytes → Bytes → Bool
any_name v reference = true

abbrev describe : ℕ → Option MsrpInfo
describe sdp = some remote

abbrev busy : MsrpInfo → Allocation ℕ
busy info = refused 486 (codes "Busy Here")

abbrev invite : List (Bytes × Bytes) → LargeInvite ℕ ℕ Bytes
invite headers = record {
  accept_contacts = ((codes "+g.3gpp.icsi-ref", some (codes "*")) ∷ []) ∷ [];
  headers = headers;
  content = mixed_content (sdp_part (some 1) ∷ (cpim_part (codes "sip:a") ∷ []));
  asserted_identity = none;
  contact = none;
}

without_conversation :
    handle_large_invite ℕ ℕ Bytes sip any_name
      (λ v. some v)
      (λ b. some b)
      describe
      busy
      (codes "r")
      true
      none
      (invite ((codes "Contribution-ID", codes "d") ∷ []))
    ≡ responds 400 (codes "Bad Request")
unfolding handle_large_invite
without_conversation = refl

socket_refused :
    handle_large_invite ℕ ℕ Bytes sip any_name
      (λ v. some v)
      (λ b. some b)
      describe
      busy
      (codes "r")
      true
      none
      (invite ((codes "Contribution-ID", codes "d") ∷ ((codes "conversation-id", codes "c") ∷ [])))
    ≡ responds 486 (codes "Busy Here")
unfolding handle_large_invite
socket_refused = refl

abbrev with_ids : LargeInvite ℕ ℕ Bytes
with_ids =
    invite ((codes "Contribution-ID", codes "d") ∷ ((codes "Conversation-ID", codes "c") ∷ []))

abbrev socket_at : MsrpInfo → Allocation ℕ
socket_at info = allocated (record {
  cs = 7;
  host = codes "10.0.0.1";
  port = 2855;
  tls = true;
  active_setup = false;
  ipv6 = false;
})

handle_large_invite-Answers_example :
    Answers ℕ ℕ Bytes sip any_name
      (λ v. some v)
      (λ b. some b)
      describe
      socket_at
      (codes "r")
      true
      with_ids
      (handle_large_invite ℕ ℕ Bytes sip any_name
        (λ v. some v)
        (λ b. some b)
        describe
        socket_at
        (codes "r")
        true
        none
        with_ids)
handle_large_invite-Answers_example =
    handle_large_invite-Answers ℕ ℕ Bytes sip any_name (λ v. some v) (λ b. some b) describe
      socket_at (codes "r") true with_ids none
