-- ===== src/Messaging/Cpm/LargeInvite/Answers.antt =====
-- What an INVITE of the large mode is answered with, and why.
use rust_rcs_client.Common.{
  ℕ, Bool, true, false, ◌||◌, Option, none, some, Bytes, codes, ◌≡◌, refl, inl, inr, Bool-cases,
}
use rust_rcs_client.Messaging.Cpm.SessionInfo.{Sip, last_header}
use rust_rcs_client.Messaging.Cpm.Invitation.{MsrpInfo, Allocated, Allocation, allocated, refused}
use rust_rcs_client.Messaging.Cpm.LargeInvite.{
  LargeInvite, Accepted, Outcome, passes, responds, accepts, is_large_mode, is_missing,
  note_content, contact_uri, on_allocation, on_dialog, answers_only, on_description, on_content,
  handle_large_invite,
}

module _ (Socket Sdp Body : Type 0) (sip : Sip) (index_of : Bytes → Bytes → Bool)
    (address_uri : Bytes → Option Bytes) (from_uri : Body → Option Bytes)
    (as_msrp_info : Sdp → Option MsrpInfo) (allocate : MsrpInfo → Allocation Socket)
    (path_random : Bytes) (makes_dialog : Bool) (invite : LargeInvite Socket Sdp Body) where
  abbrev pub lacks_ids : Bool
  lacks_ids =
      is_missing Socket Sdp Body sip index_of address_uri from_uri as_msrp_info allocate path_random
        makes_dialog (last_header (codes "Conversation-ID") invite.headers)
      || is_missing Socket Sdp Body sip index_of address_uri from_uri as_msrp_info allocate
          path_random makes_dialog (last_header (codes "Contribution-ID") invite.headers)

  abbrev pub large : Bool
  large =
      is_large_mode Socket Sdp Body sip index_of address_uri from_uri as_msrp_info allocate
        path_random makes_dialog invite.accept_contacts

  abbrev pub noted : Option Sdp × Option Body
  noted =
      note_content Socket Sdp Body sip index_of address_uri from_uri as_msrp_info allocate
        path_random makes_dialog invite.content

  abbrev pub sender : Option Bytes
  sender =
      contact_uri Socket Sdp Body sip index_of address_uri from_uri as_msrp_info allocate
        path_random makes_dialog invite.asserted_identity noted.1 invite.contact

  -- what is wrong with an INVITE of the large mode
  pub data Bad : Type 0 where
    no_ids : lacks_ids ≡ true → Bad
    no_sdp : noted.0 ≡ none → Bad
    no_sender : sender ≡ none → Bad
    no_msrp : (sdp : Sdp) → noted.0 ≡ some sdp → as_msrp_info sdp ≡ none → Bad
    no_text :
        (sdp : Sdp) (remote : MsrpInfo)
        → noted.0 ≡ some sdp
        → as_msrp_info sdp ≡ some remote
        → sip.is_utf8 remote.address ≡ false
        → Bad

  -- An INVITE that can be served: it is of the large mode, has its ids and SDP, a description in it whose
  -- address is text, and a socket that the application allocated for that description.
  pub record Served (contact : Bytes) (remote : MsrpInfo) (a : Allocated Socket) : Type 0 where
    pub sdp : Sdp
    pub is_large : large ≡ true
    pub has_ids : lacks_ids ≡ false
    pub described : noted.0 ≡ some sdp
    pub is_msrp : as_msrp_info sdp ≡ some remote
    pub is_text : sip.is_utf8 remote.address ≡ true
    pub is_allocated : allocate remote ≡ allocated a
    pub from : sender ≡ some contact

  pub data Answers : Outcome Socket Sdp Body → Type 0 where
    other_service : large ≡ false → Answers passes
    bad_request : large ≡ true → Bad → Answers (responds 400 (codes "Bad Request"))
    no_socket :
        (sdp : Sdp) (remote : MsrpInfo) (error_code : ℕ) (error_phrase : Bytes)
        → large ≡ true
        → lacks_ids ≡ false
        → noted.0 ≡ some sdp
        → as_msrp_info sdp ≡ some remote
        → allocate remote ≡ refused error_code error_phrase
        → Answers (responds error_code error_phrase)
    -- the session connects the allocated socket to the end that the INVITE describes
    accepted :
        (remote : MsrpInfo) (a : Allocated Socket) (acc : Accepted Socket Sdp Body)
        → Served acc.contact_uri remote a
        → makes_dialog ≡ true
        → acc.socket ≡ a.cs
        → acc.raddr ≡ remote.address
        → acc.rport ≡ remote.port
        → acc.local.accept_types ≡ remote.accept_types
        → Answers (accepts acc)
    -- 200, and no session
    without_session :
        (contact : Bytes) (remote : MsrpInfo) (a : Allocated Socket) (response : Option Bytes)
        → Served contact remote a
        → makes_dialog ≡ false
        → Answers (answers_only response)

  module _ (registered : Option (Bytes × Bytes)) (is_large : large ≡ true)
      (has_ids : lacks_ids ≡ false) where
    on_dialog-Answers :
        (made : Bool) (contact : Bytes) (remote : MsrpInfo) (a : Allocated Socket)
        → Served contact remote a
        → makes_dialog ≡ made
        → Answers (
            on_dialog Socket Sdp Body sip index_of address_uri from_uri as_msrp_info allocate
              path_random makes_dialog made registered contact noted.1 remote a)
    unfolding on_dialog
    on_dialog-Answers true contact remote a served made =
        accepted remote a _ served made refl refl refl refl
    on_dialog-Answers false contact remote a served failed =
        without_session contact remote a _ served failed

    on_allocation-Answers :
        (sdp : Sdp) (contact : Bytes) (remote : MsrpInfo) (o : Allocation Socket)
        → noted.0 ≡ some sdp
        → as_msrp_info sdp ≡ some remote
        → sender ≡ some contact
        → allocate remote ≡ o
        → Answers (
            on_allocation Socket Sdp Body sip index_of address_uri from_uri as_msrp_info allocate
              path_random makes_dialog registered contact noted.1 remote o)
    unfolding on_allocation
    on_allocation-Answers sdp contact remote (refused code phrase) described info from e =
        no_socket sdp remote code phrase is_large has_ids described info e
    on_allocation-Answers sdp contact remote (allocated a) described info from e =
        elim (Bool-cases (sip.is_utf8 remote.address)) [
          | inl text ↦
              rw (text, on_allocation)
                (on_dialog-Answers makes_dialog contact remote a
                  (record {
                    sdp = sdp;
                    is_large = is_large;
                    has_ids = has_ids;
                    described = described;
                    is_msrp = info;
                    is_text = text;
                    is_allocated = e;
                    from = from;
                  })
                  refl)
          | inr binary ↦
              rw (binary, on_allocation)
                (bad_request is_large (no_text sdp remote described info binary))
        ]

    on_description-Answers :
        (sdp : Sdp) (contact : Option Bytes) (remote : Option MsrpInfo)
        → noted.0 ≡ some sdp
        → as_msrp_info sdp ≡ remote
        → sender ≡ contact
        → Answers (
            on_description Socket Sdp Body sip index_of address_uri from_uri as_msrp_info allocate
              path_random makes_dialog registered noted.1 contact remote)
    unfolding on_description
    on_description-Answers sdp (some contact) (some remote) described info from =
        on_allocation-Answers sdp contact remote (allocate remote) described info from refl
    on_description-Answers sdp (some contact) none described info from =
        bad_request is_large (no_msrp sdp described info)
    on_description-Answers sdp none remote described info from =
        bad_request is_large (no_sender from)

    on_content-Answers :
        (o : Option Sdp)
        → noted.0 ≡ o
        → Answers (
            on_content Socket Sdp Body sip index_of address_uri from_uri as_msrp_info allocate
              path_random makes_dialog registered invite
              (o, noted.1))
    unfolding on_content
    on_content-Answers none described = bad_request is_large (no_sdp described)
    on_content-Answers (some sdp) described =
        on_description-Answers sdp sender (as_msrp_info sdp) described refl refl

  -- An INVITE that is not of the large mode is left to others. One that is, is answered: with 400, where
  -- the conversation, the contribution, the SDP, its MSRP description, the sender or an address in text
  -- is missing; with the application's error, where it has no socket for the description; else with
  -- 200, and with a session to the sender that is found, over the socket allocated for that
  -- description, to its address and port, with its types, if the dialog can be made, and without one
  -- if it cannot.
  pub handle_large_invite-Answers :
      (registered : Option (Bytes × Bytes))
      → Answers (
          handle_large_invite Socket Sdp Body sip index_of address_uri from_uri as_msrp_info
            allocate path_random makes_dialog registered invite)
  unfolding handle_large_invite
  handle_large_invite-Answers registered = elim (Bool-cases large) [
    | inr other ↦ rw (other, handle_large_invite) (other_service other)
    | inl is_large ↦ elim (Bool-cases lacks_ids) [
      | inl lacking ↦
          rw (is_large, lacking, handle_large_invite) (bad_request is_large (no_ids lacking))
      | inr has_ids ↦
          rw (is_large, has_ids, handle_large_invite)
            (on_content-Answers registered is_large has_ids noted.0 refl)
    ]
  ]
