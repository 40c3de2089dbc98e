-- ===== src/Messaging/Cpm/Handler.antt =====
-- messaging/cpm/session.rs and messaging/cpm/sip/cpm_accept_contact.rs: what the service makes of an
-- INVITE.
--
-- The application's handlers give a response code for an invitation; the parsers of SDP, content types
-- and refresh timers are libraries'. `Handled` is what `handle_transaction` sets off, with what it returns.
pub mod Declines
use rust_rcs_client.Common.{
  ℕ, ◌≤◌, ◌<◌, Bool, true, false, ◌&&◌, ◌||◌, List, [], ◌∷◌, ◌++◌, Option, none, some, ◌≡◌, refl,
  arith, Bytes, codes, bytes_eq, eq_ignore_ascii_case, ltb, leb, ◌>>=◌, ◌==◌, if◌then◌else◌,
  Option-cases, inl, inr, ◌⊎◌, Bool-cases,
}
use rust_rcs_client.Messaging.Cpm.SessionInfo.{
  CpmServiceType, one_to_one, group, chatbot, system, CpmSessionInfo, Sip, UriPart, Parameter, text,
  get_cpm_session_info_from_message,
}

-- `contains_icsi_ref` and `contains_iari_ref`, by the name of their parameter
unfoldable pub contains_ref : (Bytes → Bytes → Bool) → Bytes → Bytes → List Parameter → Bool
unfolding bytes_eq
contains_ref index_of name reference [] = false
contains_ref index_of name reference ((n, value) ∷ ps) =
    let rest = contains_ref index_of name reference ps in
    if bytes_eq n name
    then elim value [ some v ↦ index_of v reference || rest | none ↦ rest ]
    else rest

pub data Direction : Type 0 where
  send_receive : Direction
  send_only : Direction
  other_direction : Direction

-- the INVITE, as the parsers have it: `direction` is that of the MSRP description in the SDP
pub record Invite : Type 0 where
  pub headers : List (Bytes × Bytes)
  pub direction : Option Direction

pub data Handled : Type 0 where
  -- `false`, with the event of a group if there is one
  passes : (event : Bool) → Handled
  -- `true`: a response, or none where the transaction has no channels left
  answers : (status_code : ℕ) → Handled
  accepts : CpmSessionInfo → Handled
  rings : CpmSessionInfo → Handled

pub record Application : Type 0 where
  -- deferred, asserted contact, contribution and conversation
  pub conversation_invite : Bool → Bytes → Bytes → Bytes → ℕ
  -- asserted contact, conversation and contribution, subject, name and URI of the referrer
  pub group_invite : Bytes → Bytes → Bytes → Bytes → Bytes → Bytes → ℕ

-- what the application answers, or what is decided before it is asked
pub data Decision : Type 0 where
  code : ℕ → Decision
  decided : Handled → Decision

module _ (sip : Sip) (index_of : Bytes → Bytes → Bool) (is_sdp : Bytes → Bool)
    (decode : Bytes → Option Bytes) (app : Application) where
  -- a header `Accept-Contact` with the reference
  unfoldable pub accepts_contact : (name reference : Bytes) → List (Bytes × Bytes) → Bool
  unfolding contains_ref eq_ignore_ascii_case
  accepts_contact name reference [] = false
  accepts_contact name reference ((n, value) ∷ headers) =
      (eq_ignore_ascii_case n (codes "Accept-Contact")
        && contains_ref index_of name reference (sip.get_parameters value))
      || accepts_contact name reference headers

  unfoldable pub has_sdp : List (Bytes × Bytes) → Bool
  unfolding eq_ignore_ascii_case
  has_sdp [] = false
  has_sdp ((n, value) ∷ headers) =
      (eq_ignore_ascii_case n (codes "Content-Type") && is_sdp value) || has_sdp headers

  -- the application's answer to the invitation to a group, where everything is there to ask it
  unfoldable pub group_answer : CpmSessionInfo → Option ℕ
  unfolding text
  group_answer info = do
    conversation_id ← info.conversation_id
    contribution_id ← info.contribution_id
    encoded ← info.subject
    referred_by ← info.referred_by
    subject ← decode encoded
    name ← sip.display_name referred_by
    referred_by_name ← text sip name
    part ← sip.first_uri_part referred_by
    referred_by_uri ← text sip part.uri
    some (
        app.group_invite info.asserted_contact_uri conversation_id contribution_id subject
          referred_by_name referred_by_uri)

  -- It is asked only for a description that sends and receives.
  unfoldable pub group_decision : Direction → Option ℕ → Decision
  group_decision direction none = decided (passes false)
  group_decision send_receive (some answer) = code answer
  group_decision send_only (some answer) = decided (passes true)
  group_decision other_direction (some answer) = decided (passes true)

  unfoldable pub conversation_answer : Direction → CpmSessionInfo → Bytes → Bytes → Decision
  conversation_answer send_only info conversation_id contribution_id =
      if info.is_deferred_session
      then code
          (app.conversation_invite true info.asserted_contact_uri contribution_id conversation_id)
      else decided (passes false)
  conversation_answer send_receive info conversation_id contribution_id =
      code (app.conversation_invite false info.asserted_contact_uri contribution_id conversation_id)
  conversation_answer other_direction info conversation_id contribution_id = decided (passes false)

  unfoldable pub conversation_decision :
      Direction → CpmSessionInfo → Option Bytes → Option Bytes → Decision
  unfolding conversation_answer
  conversation_decision direction info (some conversation_id) (some contribution_id) =
      conversation_answer direction info conversation_id contribution_id
  conversation_decision direction info none contribution_id = decided (passes false)
  conversation_decision direction info (some conversation_id) none = decided (passes false)

  unfoldable pub is_chatbot : CpmServiceType → Bool
  is_chatbot one_to_one = false
  is_chatbot group = false
  is_chatbot chatbot = true
  is_chatbot system = false

  unfoldable pub direct_decision : Invite → Direction → CpmSessionInfo → Decision
  unfolding accepts_contact conversation_decision is_chatbot
  direct_decision invite direction info =
      if accepts_contact (codes "+g.3gpp.iari-ref")
        (codes "urn%3Aurn-7%3A3gpp-application.ims.iari.rcs.chatbot") invite.headers
      then (if is_chatbot info.cpm_contact.service_type
          then conversation_decision direction info info.conversation_id info.contribution_id
          else decided (answers 606))
      else conversation_decision direction info info.conversation_id info.contribution_id

  unfoldable pub decision_for : CpmServiceType → Invite → Direction → CpmSessionInfo → Decision
  unfolding group_answer group_decision direct_decision
  decision_for group invite direction info = group_decision direction (group_answer info)
  decision_for one_to_one invite direction info = direct_decision invite direction info
  decision_for chatbot invite direction info = direct_decision invite direction info
  decision_for system invite direction info = direct_decision invite direction info

  -- by the code that the application gave
  unfoldable pub on_code : CpmSessionInfo → Decision → Handled
  on_code info (decided handled) = handled
  on_code info (code answer) =
      if leb 200 answer && ltb answer 300
      then accepts info
      else if leb 100 answer && ltb answer 200
      then rings info
      else passes false

  unfoldable pub on_offer : Invite → Option Direction → Handled
  unfolding on_code decision_for get_cpm_session_info_from_message
  on_offer invite none = answers 400
  on_offer invite (some direction) =
      elim (get_cpm_session_info_from_message sip invite.headers false) [
        | none ↦ passes false
        | some info ↦
            on_code info (decision_for info.cpm_contact.service_type invite direction info)
      ]

  -- `handle_transaction` of an INVITE with headers and a body
  unfoldable pub handle_invite : Invite → Handled
  unfolding accepts_contact has_sdp on_offer
  handle_invite invite =
      if accepts_contact (codes "+g.3gpp.icsi-ref")
        (codes "urn%3Aurn-7%3A3gpp-service.ims.icsi.oma.cpm.session") invite.headers
      then (if has_sdp invite.headers then on_offer invite invite.direction else answers 400)
      else passes false
