-- ===== src/Messaging/Cpm/LargeInvite.antt =====
-- messaging/cpm/standalone_messaging.rs: the INVITE of a message in large mode.
--
-- The header search, SDP and CPIM are the core library's, the allocator of sockets the application's.
-- `Accepted` is what the response of 200 and the session are made of; the dialog is the core library's,
-- and `makes_dialog` says whether `SipDialog::try_new_as_uas` makes it.
pub mod Answers
use rust_rcs_client.Common.{
  ℕ, Bool, true, false, ◌||◌, List, [], ◌∷◌, ◌++◌, Option, none, some, Bytes, codes, ◌>>=◌,
  if◌then◌else◌,
}
use rust_rcs_client.Messaging.Cpm.SessionInfo.{Sip, Parameter, last_header, as_cpm_contact}
use rust_rcs_client.Messaging.Cpm.Handler.{contains_ref}
use rust_rcs_client.Messaging.Cpm.Invitation.{
  MsrpInfo, Allocated, Allocation, allocated, refused, local_path,
}

module _ (Socket Sdp Body : Type 0) where
  -- a part of a multipart body that is a message of one of the two types; others are left out
  pub data Part : Type 0 where
    sdp_part : (sdp : Option Sdp) → Part
    cpim_part : Body → Part

  pub data Content : Type 0 where
    sdp_content : (sdp : Option Sdp) → Content
    mixed_content : List Part → Content
    other_content : Content

  pub record LargeInvite : Type 0 where
    pub accept_contacts : List (List Parameter)
    pub headers : List (Bytes × Bytes)
    pub content : Content
    pub asserted_identity : Option Bytes
    pub contact : Option Bytes

  pub record Accepted : Type 0 where
    pub contact_uri : Bytes
    pub sip_cpim_body : Option Body
    pub socket : Socket
    -- the description of this side, which receives only
    pub local : MsrpInfo
    pub raddr : Bytes
    pub rport : ℕ
    pub rpath : Bytes
    -- `Contact` of the response, where an identity is registered
    pub response_contact : Option Bytes

  pub data Outcome : Type 0 where
    passes : Outcome
    responds : (status_code : ℕ) → (reason_phrase : Bytes) → Outcome
    accepts : Accepted → Outcome
    -- the response of 200 without a session, where its dialog cannot be made
    answers_only : (response_contact : Option Bytes) → Outcome

  module _ (sip : Sip) (index_of : Bytes → Bytes → Bool) (address_uri : Bytes → Option Bytes)
      (from_uri : Body → Option Bytes) (as_msrp_info : Sdp → Option MsrpInfo)
      (allocate : MsrpInfo → Allocation Socket) (path_random : Bytes) (makes_dialog : Bool) where
    unfoldable pub is_large_mode : List (List Parameter) → Bool
    unfolding contains_ref
    is_large_mode [] = false
    is_large_mode (ps ∷ headers) =
        (contains_ref index_of (codes "+g.3gpp.icsi-ref")
            (codes "urn%3Aurn-7%3A3gpp-service.ims.icsi.oma.cpm.largemsg") ps
          || contains_ref index_of (codes "+g.3gpp.icsi-ref")
              (codes "urn%3Aurn-7%3A3gpp-service.ims.icsi.oma.cpm.deferred") ps)
        || is_large_mode headers

    -- A missing header is as an empty one.
    unfoldable pub is_missing : Option Bytes → Bool
    is_missing none = true
    is_missing (some []) = true
    is_missing (some (b ∷ bs)) = false

    -- The last of each kind counts.
    unfoldable pub note_parts : Option Sdp → Option Body → List Part → Option Sdp × Option Body
    note_parts sdp cpim [] = (sdp, cpim)
    note_parts sdp cpim (sdp_part s ∷ parts) = note_parts s cpim parts
    note_parts sdp cpim (cpim_part b ∷ parts) = note_parts sdp (some b) parts

    unfoldable pub note_content : Content → Option Sdp × Option Body
    unfolding note_parts
    note_content (sdp_content sdp) = (sdp, none)
    note_content (mixed_content parts) = note_parts none none parts
    note_content other_content = (none, none)

    unfoldable pub or_else : Option Bytes → Option Bytes → Option Bytes
    or_else (some v) other = some v
    or_else none other = other

    unfoldable pub contact_service_uri : Bytes → Option Bytes
    unfolding as_cpm_contact
    contact_service_uri value = do contact ← as_cpm_contact sip value; some contact.service_uri

    -- the asserted identity, else the sender of the CPIM message, else the contact
    unfoldable pub contact_uri : Option Bytes → Option Body → Option Bytes → Option Bytes
    unfolding or_else contact_service_uri
    contact_uri asserted cpim contact =
        or_else (asserted >>= address_uri)
          (or_else (cpim >>= from_uri) (contact >>= contact_service_uri))

    unfoldable pub local_msrp_info : Allocated Socket → MsrpInfo → MsrpInfo
    unfolding local_path
    local_msrp_info a remote = record {
      protocol = if a.tls then codes "TCP/TLS/MSRP" else codes "TCP/MSRP";
      address = a.host;
      is_ipv6 = a.ipv6;
      port = a.port;
      path = local_path Socket a path_random;
      accept_types = remote.accept_types;
      is_active = a.active_setup;
      accept_wrapped_types = remote.accept_wrapped_types;
    }

    unfoldable pub response_contact : Bytes × Bytes → Bytes
    response_contact (identity, instance_id) =
        codes "<"
        ++ (identity
            ++ (codes ">;+sip.instance=\""
                ++ (instance_id
                    ++ (codes "\";+g.3gpp.icsi-ref=\"urn%3Aurn-7%3A3gpp-service.ims.icsi.oma.cpm."
                        ++ codes "largemsg\""))))

    unfoldable pub contact_of : Option (Bytes × Bytes) → Option Bytes
    unfolding response_contact
    contact_of none = none
    contact_of (some identity) = some (response_contact identity)

    -- The response is sent in both cases.
    unfoldable pub on_dialog :
        (made : Bool)
        → Option (Bytes × Bytes)
        → Bytes
        → Option Body
        → MsrpInfo
        → Allocated Socket
        → Outcome
    unfolding local_msrp_info contact_of
    on_dialog true registered contact cpim remote a = accepts (record {
      contact_uri = contact;
      sip_cpim_body = cpim;
      socket = a.cs;
      local = local_msrp_info a remote;
      raddr = remote.address;
      rport = remote.port;
      rpath = remote.path;
      response_contact = contact_of registered;
    })
    on_dialog false registered contact cpim remote a = answers_only (contact_of registered)

    unfoldable pub on_allocation :
        Option (Bytes × Bytes) → Bytes → Option Body → MsrpInfo → Allocation Socket → Outcome
    unfolding on_dialog
    on_allocation registered contact cpim remote (refused error_code error_phrase) =
        responds error_code error_phrase
    on_allocation registered contact cpim remote (allocated a) =
        if sip.is_utf8 remote.address
        then on_dialog makes_dialog registered contact cpim remote a
        else responds 400 (codes "Bad Request")

    unfoldable pub on_description :
        Option (Bytes × Bytes) → Option Body → Option Bytes → Option MsrpInfo → Outcome
    unfolding on_allocation
    on_description registered cpim (some contact) (some remote) =
        on_allocation registered contact cpim remote (allocate remote)
    on_description registered cpim (some contact) none = responds 400 (codes "Bad Request")
    on_description registered cpim none remote = responds 400 (codes "Bad Request")

    unfoldable pub on_content :
        Option (Bytes × Bytes) → LargeInvite → Option Sdp × Option Body → Outcome
    unfolding on_description contact_uri
    on_content registered invite (none, cpim) = responds 400 (codes "Bad Request")
    on_content registered invite (some sdp, cpim) =
        on_description registered cpim (contact_uri invite.asserted_identity cpim invite.contact)
          (as_msrp_info sdp)

    -- `handle_transaction` of an INVITE with headers and a body
    unfoldable pub handle_large_invite : Option (Bytes × Bytes) → LargeInvite → Outcome
    unfolding is_large_mode is_missing last_header on_content note_content
    handle_large_invite registered invite =
        if is_large_mode invite.accept_contacts
        then (if is_missing (last_header (codes "Conversation-ID") invite.headers)
              || is_missing (last_header (codes "Contribution-ID") invite.headers)
            then responds 400 (codes "Bad Request")
            else on_content registered invite (note_content invite.content))
        else passes
