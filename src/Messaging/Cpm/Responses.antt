-- ===== src/Messaging/Cpm/Responses.antt =====
-- messaging/cpm/session.rs: the responses to the INVITE and the UPDATE of the service.
use rust_rcs_client.Common.{
  ℕ, Bool, true, false, ◌&&◌, ◌||◌, Option, none, some, ltb, leb, ◌==◌, if◌then◌else◌,
}
use rust_rcs_client.Messaging.Cpm.SessionInfo.{
  CpmServiceType, one_to_one, group, chatbot, system, CpmSessionInfo,
}

-- `RecipientType::Chatbot` was addressed, and the response is from a contact of that type
unfoldable pub is_forbidden : Bool → CpmServiceType → Bool
is_forbidden false service_type = false
is_forbidden true one_to_one = true
is_forbidden true group = true
is_forbidden true chatbot = false
is_forbidden true system = true

-- what the final response to an own INVITE is passed on as: a session, or an error code
pub data Final : Type 0 where
  opened : CpmSessionInfo → Final
  failed : ℕ → Final

unfoldable pub on_answer : Bool → Bool → Option CpmSessionInfo → Final
unfolding is_forbidden
on_answer to_chatbot with_sdp none = failed 500
on_answer to_chatbot with_sdp (some info) =
    if is_forbidden to_chatbot info.cpm_contact.service_type
    then failed 606
    else if with_sdp
    then opened info
    else failed 500

-- `CPMSessionInviteCallbacks::on_final_response`; `with_sdp` is a body whose type is SDP
unfoldable pub on_final_response :
    (to_chatbot : Bool)
    → (status_code : ℕ) → (with_sdp : Bool) → (info : Option CpmSessionInfo) → Final
unfolding on_answer
on_final_response to_chatbot status_code with_sdp info =
    if leb 200 status_code && ltb status_code 300
    then on_answer to_chatbot with_sdp info
    else failed status_code

-- what the response to an UPDATE sets off: a refresh with its timeout, by this side or not, or the end
-- of the dialog
pub data Refreshed : Type 0 where
  refreshes : (timeout : ℕ) → (by_us : Bool) → Refreshed
  terminates : Refreshed
  unchanged : Refreshed

unfoldable pub is_final_failure : ℕ → Bool
is_final_failure status =
    status == 404
    || (status == 410
        || (status == 416
            || ((leb 482 status && leb status 485) || (status == 489 || status == 604))))

-- `UpdateMessageCallbacks::on_final_response`, with the timer chosen and whether the UAC refreshes
unfoldable pub on_update_response : ℕ → Option (ℕ × Bool) → Refreshed
unfolding is_final_failure
on_update_response status timer =
    if leb 200 status && ltb status 300
    then elim timer [ none ↦ unchanged | some (timeout, by_uac) ↦ refreshes timeout by_uac ]
    else if is_final_failure status
    then terminates
    else unchanged
