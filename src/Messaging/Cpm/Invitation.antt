-- ===== src/Messaging/Cpm/Invitation.antt =====
-- messaging/cpm/session_invitation.rs: the acceptance of an invitation to a session.
--
-- The allocator of sockets is the application's; `as_msrp_info` is the SDP library's, and the dialog
-- and session objects are the core library's. What the acceptance makes of them is its `Outcome`: the
-- response that it sends, and the session that the service gets.
use rust_rcs_client.Common.{
  List, ◌∷◌, arith, eq_ignore_ascii_case_refl, ℕ, Bool, true, false, ◌++◌, Option, none, some, ◌≡◌,
  refl, inl, inr, Bytes, codes, print_ℕ, if◌then◌else◌, Bool-cases,
}
use rust_rcs_client.Contact
use rust_rcs_client.Contact.{ContactKnownIdentities, add_identity, eq-add_identity}
use rust_rcs_client.Messaging.Cpm.SessionInfo.{
  CpmServiceType, one_to_one, group, chatbot, system, CpmSessionInfo, Sip,
  get_contact_known_identities, is_direct, text,
}
use rust_rcs_client.Messaging.Cpm.Session.{
  CpmSessionState, none_set, set_local_sdp, set_remote_sdp, start, send_message, start_negotiated,
  Ongoing, send_to,
}

pub record MsrpInfo : Type 0 where
  pub protocol : Bytes
  pub address : Bytes
  pub is_ipv6 : Bool
  pub port : ℕ
  pub path : Bytes
  pub accept_types : Bytes
  pub is_active : Bool
  pub accept_wrapped_types : Bytes

unfoldable pub accept_types : CpmServiceType → Bytes
accept_types one_to_one = codes "message/cpim application/im-iscomposing+xm"
accept_types group = codes "message/cpim application/conference-info+xml"
accept_types chatbot = codes "message/cpim"
accept_types system = codes "message/cpim"

abbrev wrapped_types : Bytes
wrapped_types =
    codes "multipart/mixed text/plain application/vnd.gsma.rcs-ft-http+xml "
    ++ codes "application/vnd.gsma.rcspushlocation+xml message/imdn+xml"

unfoldable pub accept_wrapped_types : CpmServiceType → Bytes
accept_wrapped_types one_to_one = wrapped_types
accept_wrapped_types group = wrapped_types ++ codes " application/im-iscomposing+xml"
accept_wrapped_types chatbot =
    wrapped_types
    ++ (codes " application/vnd.gsma.botmessage.v1.0+json"
        ++ (codes " application/vnd.gsma.botsuggestion.v1.0+json"
            ++ codes " application/commontemplate+xml"))
accept_wrapped_types system = wrapped_types

module _ (Socket : Type 0) where
  -- what `msrp_socket_allocator_function` allocates
  pub record Allocated : Type 0 where
    pub cs : Socket
    pub host : Bytes
    pub port : ℕ
    pub tls : Bool
    pub active_setup : Bool
    pub ipv6 : Bool

  pub data Allocation : Type 0 where
    allocated : Allocated → Allocation
    refused : (error_code : ℕ) → (error_phrase : Bytes) → Allocation

  -- `timeout` and whether this side refreshes
  abbrev pub SessionTimer : Type 0
  SessionTimer = ℕ × Bool

  pub record Accepted : Type 0 where
    pub contact : Bytes
    pub session_expires : Option Bytes
    pub refresh : Option SessionTimer
    pub known_identities : ContactKnownIdentities
    pub state : CpmSessionState Socket

  -- `panics` is the code's `panic!`
  pub data Outcome : Type 0 where
    accepts : Accepted → Outcome
    responds : (status_code : ℕ) → (reason_phrase : Bytes) → Outcome
    panics : Outcome

  unfoldable pub local_path : Allocated → Bytes → Bytes
  unfolding print_ℕ
  local_path a path_random =
      (if a.tls then codes "msrps://" else codes "msrp://")
      ++ (a.host ++ (codes ":" ++ (print_ℕ a.port ++ (codes "/" ++ (path_random ++ codes ";tcp")))))

  unfoldable pub local_msrp_info : CpmServiceType → Allocated → Bytes → MsrpInfo
  unfolding accept_types accept_wrapped_types
  local_msrp_info service_type a path = record {
    protocol = if a.tls then codes "TCP/TLS/MSRP" else codes "TCP/MSRP";
    address = a.host;
    is_ipv6 = a.ipv6;
    port = a.port;
    path = path;
    accept_types = accept_types service_type;
    is_active = a.active_setup;
    accept_wrapped_types = accept_wrapped_types service_type;
  }

  unfoldable pub session_expires : SessionTimer → Bytes
  unfolding print_ℕ
  session_expires (timeout, true) = print_ℕ timeout ++ codes ";refresher=uas"
  session_expires (timeout, false) = print_ℕ timeout ++ codes ";refresher=uac"

  -- the `Contact` of the response
  unfoldable pub contact_value : CpmServiceType → Bytes → Bytes → Bytes
  contact_value service_type identity instance_id =
      let plain =
        codes "<"
        ++ (identity
            ++ (codes ">;+sip.instance=\""
                ++ (instance_id
                    ++ (codes "\";+g.3gpp.icsi-ref=\"urn%3Aurn-7%3A3gpp-service.ims.icsi."
                        ++ codes "oma.cpm.session\"")))) in
      elim service_type [
        | chatbot ↦
            plain
            ++ (codes ";+g.3gpp.iari-ref=\"urn%3Aurn-7%3A3gpp-application.ims.iari.rcs.chatbot\""
                ++ codes ";+g.gsma.rcs.botversion=\"#=1,#=2\"")
        | _ ↦ plain
      ]

  module _ (sip : Sip) (write_sdp : MsrpInfo → Bytes) (info : CpmSessionInfo) (r_sdp : Bytes)
      (remote : MsrpInfo) where
    -- With the registered identity, where it is registered over the transport of the INVITE, and the
    -- timer that was chosen.
    unfoldable pub accept :
        Option (Bytes × Bytes) → Option SessionTimer → CpmSessionState Socket → Outcome
    unfolding contact_value session_expires get_contact_known_identities
    accept none timer state = panics
    accept (some (identity, instance_id)) timer state = accepts (record {
      contact = contact_value info.cpm_contact.service_type identity instance_id;
      session_expires = elim timer [ none ↦ none | some t ↦ some (session_expires t) ];
      refresh = timer;
      known_identities = get_contact_known_identities sip info;
      state = state;
    })

    abbrev bad_request : Outcome
    bad_request = responds 400 (codes "Bad Request")

    unfoldable pub negotiate :
        Allocated → Bytes → Option (Bytes × Bytes) → Option SessionTimer → Outcome
    unfolding accept set_local_sdp set_remote_sdp local_msrp_info local_path
    negotiate a path_random registered timer =
        let path = local_path a path_random in
        let (bad_remote, s) =
          set_remote_sdp Socket
            (record {
              r_sdp = r_sdp;
              raddr = remote.address;
              rport = remote.port;
              rpath = remote.path;
            })
            none_set in
        let (bad_local, s') =
          set_local_sdp Socket
            (record {
              l_sdp = write_sdp (local_msrp_info info.cpm_contact.service_type a path);
              sock = some a.cs;
              tls = a.tls;
              laddr = a.host;
              lport = a.port;
              lpath = path;
            })
            s in
        elim bad_remote [
          | some e ↦ bad_request
          | none ↦ elim bad_local [ some e ↦ bad_request | none ↦ accept registered timer s' ]
        ]

    unfoldable pub try_accept_invitation :
        Allocation → Bytes → Option (Bytes × Bytes) → Option SessionTimer → Outcome
    unfolding negotiate
    try_accept_invitation (refused error_code error_phrase) path_random registered timer =
        responds error_code error_phrase
    try_accept_invitation (allocated a) path_random registered timer =
        if sip.is_utf8 remote.address then negotiate a path_random registered timer else bad_request

  -- an invitation that waited: its SDP is read again
  unfoldable pub try_accept_hanging_invitation :
      (sip : Sip) (write_sdp : MsrpInfo → Bytes) (as_msrp_info : Bytes → Option MsrpInfo)
      → CpmSessionInfo
      → Bytes
      → (MsrpInfo → Allocation)
      → Bytes
      → Option (Bytes × Bytes)
      → Option SessionTimer
      → Outcome
  unfolding try_accept_invitation
  try_accept_hanging_invitation sip write_sdp as_msrp_info info r_sdp allocate path_random
        registered timer =
      elim (as_msrp_info r_sdp) [
        | some remote ↦
            try_accept_invitation sip write_sdp info r_sdp remote (allocate remote) path_random
              registered timer
        | none ↦ responds 500 (codes "Server Internal Error")
      ]

  -- an identity more does not make a contact unknown
  maybe_identity-known :
      (known : ContactKnownIdentities) (o : Option Bytes) (other : Bytes)
      → Contact.eq known other ≡ true
      → Contact.eq (elim o [ some i ↦ add_identity known i | none ↦ known ]) other ≡ true
  maybe_identity-known known none other h = h
  maybe_identity-known known (some i) other h = rw (eq-add_identity known i other, h) refl

  get_contact_known_identities-asserted :
      (sip : Sip) (info : CpmSessionInfo)
      → Contact.eq (get_contact_known_identities sip info) info.asserted_contact_uri ≡ true
  unfolding get_contact_known_identities
  get_contact_known_identities-asserted sip info =
      let asserted = add_identity Contact.new info.asserted_contact_uri in
      let known : Contact.eq asserted info.asserted_contact_uri ≡ true =
        rw
          (
            eq-add_identity Contact.new info.asserted_contact_uri info.asserted_contact_uri,
            eq_ignore_ascii_case_refl info.asserted_contact_uri,
          )
          (ground arith) in
      maybe_identity-known _ info.contact_alias info.asserted_contact_uri
        (elim (Bool-cases (is_direct info.cpm_contact.service_type)) [
          | inl direct ↦ rw direct (
              maybe_identity-known asserted (text sip info.cpm_contact.service_uri)
                info.asserted_contact_uri known)
          | inr indirect ↦ rw indirect known
        ])

  module _ (sip : Sip) (write_sdp : MsrpInfo → Bytes) (info : CpmSessionInfo) (r_sdp : Bytes)
      (remote : MsrpInfo) (a : Allocated) (path_random : Bytes)
      (registered : Option (Bytes × Bytes)) (timer : Option SessionTimer) where
    -- what an acceptance leaves
    abbrev pub WaitsForAck : Outcome → Type 0
    WaitsForAck panics = Unit
    WaitsForAck (responds status_code reason_phrase) = Unit
    WaitsForAck (accepts accepted) =
        ((start Socket accepted.state).0
          ≡ some (record { socket = a.cs; addr = remote.address; port = remote.port; tls = a.tls }))
        × (send_message Socket accepted.state ≡ false)
        × ((id : ℕ) (sessions : List (Ongoing Socket))
            → send_to Socket info.asserted_contact_uri (
                record {
                  known_identities = accepted.known_identities;
                  id = id;
                  state = accepted.state;
                }
                ∷ sessions)
              ≡ some false)

    negotiate-WaitsForAck :
        (o : Option (Bytes × Bytes))
        → WaitsForAck (negotiate sip write_sdp info r_sdp remote a path_random o timer)
    unfolding negotiate accept set_local_sdp set_remote_sdp start start_negotiated send_message
        send_to
    negotiate-WaitsForAck none = tt
    negotiate-WaitsForAck (some (identity, instance_id)) =
        (refl, refl, λ id sessions. rw (get_contact_known_identities-asserted sip info) refl)

    -- An invitation that is accepted leaves a session that is negotiated and not started: the ACK
    -- connects the socket that was allocated to the address and port of the invitation, and until
    -- then the session takes no message. Where the service has it before its other sessions, a message
    -- to the contact that was asserted reaches this session all the same.
    pub try_accept_invitation-WaitsForAck : WaitsForAck (
        try_accept_invitation sip write_sdp info r_sdp remote
          (allocated a)
          path_random
          registered
          timer)
    unfolding try_accept_invitation
    try_accept_invitation-WaitsForAck = elim (Bool-cases (sip.is_utf8 remote.address)) [
      | inl good ↦ rw (good, try_accept_invitation) (negotiate-WaitsForAck registered)
      | inr bad ↦ rw (bad, try_accept_invitation) tt
    ]
