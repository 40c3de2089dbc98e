-- ===== src/Messaging/Cpm/SessionInfo.antt =====
-- messaging/cpm/sip/cpm_contact.rs, and `CPMSessionInfo` of messaging/cpm/session.rs: who a session is
-- with, as the headers of the INVITE have it. The parsers of header values are the core library's,
-- and parameters here.
use rust_rcs_client.Common.{
  Bool, true, false, ◌||◌, List, [], ◌∷◌, Option, none, some, Bytes, codes, bytes_eq,
  eq_ignore_ascii_case, if◌then◌else◌, ◌>>=◌,
}
use rust_rcs_client.Contact
use rust_rcs_client.Contact.{ContactKnownIdentities, add_identity}

pub data CpmServiceType : Type 0 where
  one_to_one : CpmServiceType
  group : CpmServiceType
  chatbot : CpmServiceType
  system : CpmServiceType

pub record CpmContact : Type 0 where
  pub service_uri : Bytes
  pub service_type : CpmServiceType
  pub service_support_message_revoke : Bool
  pub service_support_network_fallback : Bool

-- a parameter of a URI or of a header
abbrev pub Parameter : Type 0
Parameter = Bytes × Option Bytes

pub record UriPart : Type 0 where
  pub uri : Bytes
  pub parameters : List Parameter

pub record Sip : Type 0 where
  -- the `uri_part` of the first of `as_name_addresses`
  pub first_uri_part : Bytes → Option UriPart
  pub get_parameters : Bytes → List Parameter
  -- the `display_name` of the first of `as_from_to`
  pub display_name : Bytes → Option Bytes
  -- `as_standard_uri`, without query and fragment
  pub standard_uri : Bytes → Option Bytes
  -- the names of the parameters in the `contact` of the query, decoded
  pub query_contact : Bytes → List Bytes
  pub start_with : Bytes → Bytes → Bool
  pub is_utf8 : Bytes → Bool

unfoldable pub is_bot : List Bytes → Bool
unfolding eq_ignore_ascii_case
is_bot [] = false
is_bot (name ∷ names) = eq_ignore_ascii_case name (codes "+g.gsma.rcs.isbot") || is_bot names

-- one round of the loop over the parameters of the URI
unfoldable pub note_parameter : Bytes → CpmContact → CpmContact
unfolding eq_ignore_ascii_case
note_parameter name c =
    if eq_ignore_ascii_case name (codes "isfocus")
    then record c { service_type = group }
    else if eq_ignore_ascii_case name (codes "+g.gsma.rcs.msgrevoke")
    then record c { service_support_message_revoke = true }
    else if eq_ignore_ascii_case name (codes "+g.gsma.rcs.msgfallback")
    then record c { service_support_network_fallback = true }
    else c

unfoldable pub note_parameters : List Parameter → CpmContact → CpmContact
unfolding note_parameter
note_parameters [] c = c
note_parameters ((name, value) ∷ ps) c = note_parameters ps (note_parameter name c)

pub record CpmSessionInfo : Type 0 where
  pub cpm_contact : CpmContact
  pub asserted_contact_uri : Bytes
  pub conversation_id : Option Bytes
  pub contribution_id : Option Bytes
  pub subject : Option Bytes
  pub referred_by : Option Bytes
  pub is_deferred_session : Bool
  pub contact_alias : Option Bytes
  pub conversation_supports_anonymization : Bool
  pub conversation_is_using_anonymization_token : Bool

-- the last header of a name
unfoldable pub last_header : Bytes → List (Bytes × Bytes) → Option Bytes
unfolding eq_ignore_ascii_case
last_header name [] = none
last_header name ((n, value) ∷ headers) =
    let later = last_header name headers in
    elim later [ some v ↦ some v | none ↦ if eq_ignore_ascii_case n name then some value else none ]

-- what the identity says of the conversation
pub record Asserted : Type 0 where
  pub uri : Option Bytes
  pub is_deferred : Bool
  pub supports_anonymization : Bool
  pub is_using_token : Bool

abbrev unasserted : Asserted
unasserted = record {
  uri = none;
  is_deferred = false;
  supports_anonymization = false;
  is_using_token = false;
}

-- the first parameter `tk`, on or off
unfoldable pub note_token : List Parameter → Asserted → Asserted
unfolding bytes_eq
note_token [] a = a
note_token ((name, value) ∷ ps) a = elim (bytes_eq name (codes "tk")) [
  | true ↦ elim value [
    | none ↦ a
    | some v ↦
        if bytes_eq v (codes "on")
        then record a { supports_anonymization = true; is_using_token = true }
        else if bytes_eq v (codes "off")
        then record a { supports_anonymization = true }
        else a
  ]
  | false ↦ note_token ps a
]

unfoldable pub is_direct : CpmServiceType → Bool
is_direct one_to_one = true
is_direct chatbot = true
is_direct group = false
is_direct system = false

module _ (sip : Sip) where
  unfoldable pub as_cpm_contact : Bytes → Option CpmContact
  unfolding is_bot note_parameters
  as_cpm_contact value = do
    part ← sip.first_uri_part value
    service_uri ← sip.standard_uri part.uri
    some (
        note_parameters part.parameters (record {
          service_uri = service_uri;
          service_type = if is_bot (sip.query_contact part.uri) then chatbot else one_to_one;
          service_support_message_revoke = false;
          service_support_network_fallback = false;
        }))

  unfoldable pub text : Bytes → Option Bytes
  text value = if sip.is_utf8 value then some value else none

  unfoldable pub get_contact_known_identities : CpmSessionInfo → ContactKnownIdentities
  unfolding add_identity text is_direct
  get_contact_known_identities info =
      let asserted = add_identity Contact.new info.asserted_contact_uri in
      let direct : ContactKnownIdentities = elim (is_direct info.cpm_contact.service_type) [
        | true ↦ elim (text info.cpm_contact.service_uri) [
          | some uri ↦ add_identity asserted uri
          | none ↦ asserted
        ]
        | false ↦ asserted
      ] in
      elim info.contact_alias [ some alias ↦ add_identity direct alias | none ↦ direct ]

  -- a deferred session, whose sender stands in `Referred-By`
  unfoldable pub deferred : Option Bytes → Asserted
  unfolding note_token
  deferred referred_by = elim (referred_by >>= sip.first_uri_part) [
    | none ↦ record unasserted { is_deferred = true }
    | some part ↦ elim referred_by [
      | none ↦ record unasserted { is_deferred = true }
      | some value ↦
          note_token (sip.get_parameters value)
            (record unasserted { is_deferred = true; uri = some part.uri })
    ]
  ]

  unfoldable pub assert_direct : Option UriPart → Option Bytes → Asserted
  unfolding deferred note_token
  assert_direct none referred_by = unasserted
  assert_direct (some part) referred_by =
      if sip.start_with part.uri (codes "rcse-standfw@")
      then deferred referred_by
      else note_token part.parameters (record unasserted { uri = some part.uri })

  unfoldable pub assert_identity : CpmServiceType → Option Bytes → Option Bytes → Asserted
  unfolding is_direct assert_direct
  assert_identity service_type identity referred_by = elim (is_direct service_type) [
    | true ↦ assert_direct (identity >>= sip.first_uri_part) referred_by
    | false ↦ elim (identity >>= sip.first_uri_part) [
      | none ↦ unasserted
      | some part ↦ record unasserted { uri = some part.uri }
    ]
  ]

  unfoldable pub asserted_or : Bytes → Option Bytes → Bytes
  asserted_or service_uri none = service_uri
  asserted_or service_uri (some uri) = uri

  unfoldable pub get_cpm_session_info_from_message :
      List (Bytes × Bytes) → Bool → Option CpmSessionInfo
  unfolding last_header as_cpm_contact assert_identity asserted_or text
  get_cpm_session_info_from_message headers is_outgoing = do
    contact_header ← last_header (codes "Contact") headers
    cpm_contact ← as_cpm_contact contact_header
    let referred_by = last_header (codes "Referred-By") headers
    let asserted =
        assert_identity cpm_contact.service_type (last_header (codes "P-Asserted-Identity") headers)
          referred_by
    asserted_contact_uri ← text (asserted_or cpm_contact.service_uri asserted.uri)
    let peer = if is_outgoing then codes "To" else codes "From"
    some (record {
      cpm_contact = cpm_contact;
      asserted_contact_uri = asserted_contact_uri;
      conversation_id = last_header (codes "Conversation-ID") headers >>= text;
      contribution_id = last_header (codes "Contribution-ID") headers >>= text;
      subject = last_header (codes "Subject") headers >>= text;
      referred_by = referred_by >>= text;
      is_deferred_session = asserted.is_deferred;
      contact_alias = (last_header peer headers >>= sip.display_name) >>= text;
      conversation_supports_anonymization = asserted.supports_anonymization;
      conversation_is_using_anonymization_token = asserted.is_using_token;
    })
