-- ===== src/Messaging/Cpm/Pager.antt =====
-- messaging/cpm/standalone_messaging.rs and chat_bot/cpim.rs: what the service makes of a MESSAGE.
--
-- The parsers of headers, CPIM and base64 are libraries'. `Request` has the values that the core
-- library's header search finds, and what its parsers make of the body.
pub mod Chatbots
use rust_rcs_client.Common.{
  ℕ, Bool, true, false, not, ◌&&◌, ◌||◌, List, [], ◌∷◌, Option, none, some, Bytes, codes, bytes_eq,
  ◌>>=◌, ◌≡◌, refl, if◌then◌else◌, Bool-cases, Option-cases, inl, inr,
}
use rust_rcs_client.Messaging.Cpm.SessionInfo.{Parameter}
use rust_rcs_client.Messaging.Cpm.Handler.{contains_ref}
use rust_rcs_client.Messaging.Cpm.LargeMode.{Content}

module _ (Message Info : Type 0) where
  pub record Request : Type 0 where
    -- whether the type is message/cpim; `none` without a type
    pub content_type : Option Bool
    -- the whole body as a CPIM message
    pub cpim : Option Message
    -- of the parts of a multipart body, whether each is a message of the type message/cpim
    pub parts : List Bool
    pub accept_contacts : List (List Parameter)
    pub asserted_identity : Option Bytes

  pub record Parsers : Type 0 where
    pub index_of : Bytes → Bytes → Bool
    pub contains_imdn : Message → Bool
    pub get_info : Message → Option Info
    pub get_message_body : Message → Option Content
    pub from_uri : Info → Option Bytes
    pub payload_type : Info → Option Bytes
    -- the URI of the first address of a text
    pub address_uri : Bytes → Option Bytes
    pub decode : Bytes → Option Bytes

  pub record Delivery : Type 0 where
    pub contact_uri : Bytes
    pub info : Info
    pub content_type : Bytes
    pub body : Bytes

  -- what is delivered, and the status of the response; `none` where `handle_transaction` returns false
  pub record Outcome : Type 0 where
    pub deliveries : List Delivery
    pub status : Option ℕ

  unfoldable pub get_bot_related_info : Info → Option Bytes
  get_bot_related_info info = none

  module _ (parsers : Parsers) where
    unfoldable pub is_pager_value : (is_imdn : Bool) → Bytes → Bool
    is_pager_value is_imdn value =
        parsers.index_of value (codes "urn%3Aurn-7%3A3gpp-service.ims.icsi.oma.cpm.msg")
        || (parsers.index_of value (codes "urn%3Aurn-7%3A3gpp-service.ims.icsi.oma.cpm.deferred")
            || (is_imdn
                && (parsers.index_of value
                      (codes "urn%3Aurn-7%3A3gpp-service.ims.icsi.oma.cpm.largemsg")
                    || (parsers.index_of value
                          (codes "urn%3Aurn-7%3A3gpp-service.ims.icsi.oma.cpm.session")
                        || parsers.index_of value
                            (codes "urn%3Aurn-7%3A3gpp-service.ims.icsi.oma.cpm.filetransfer")))))

    unfoldable pub is_pager_parameter : (is_imdn : Bool) → Bytes → Option Bytes → Bool
    unfolding is_pager_value bytes_eq
    is_pager_parameter is_imdn name none = false
    is_pager_parameter is_imdn name (some value) =
        if bytes_eq name (codes "+g.3gpp.icsi-ref")
        then is_pager_value is_imdn value
        else bytes_eq name (codes "+g.3gpp.iari-ref")
          && parsers.index_of value (codes "urn%3Aurn-7%3A3gpp-application.ims.iari.rcs.fthttp")

    unfoldable pub is_pager_header : (is_imdn : Bool) → List Parameter → Bool
    unfolding is_pager_parameter
    is_pager_header is_imdn [] = false
    is_pager_header is_imdn ((name, value) ∷ ps) =
        is_pager_parameter is_imdn name value || is_pager_header is_imdn ps

    unfoldable pub is_pager_mode : (is_imdn : Bool) → List (List Parameter) → Bool
    unfolding is_pager_header
    is_pager_mode is_imdn [] = false
    is_pager_mode is_imdn (ps ∷ headers) =
        is_pager_header is_imdn ps || is_pager_mode is_imdn headers

    unfoldable pub is_chatbot_message : List (List Parameter) → Bool
    unfolding contains_ref
    is_chatbot_message [] = false
    is_chatbot_message (ps ∷ headers) =
        contains_ref parsers.index_of (codes "+g.3gpp.iari-ref")
          (codes "urn%3Aurn-7%3A3gpp-application.ims.iari.rcs.chatbot.sa") ps
        || is_chatbot_message headers

    -- by the type of the request itself
    unfoldable pub direct_cpim : Bool → Option Message → Option Message
    direct_cpim true cpim = cpim
    direct_cpim false cpim = none

    unfoldable pub is_imdn : Option Message → Bool
    is_imdn none = false
    is_imdn (some message) = parsers.contains_imdn message

    -- A part of the type makes the code parse the whole body again, not the part.
    unfoldable pub multipart_cpim : List Bool → Option Message → Option Message
    multipart_cpim [] cpim = none
    multipart_cpim (true ∷ parts) (some message) = some message
    multipart_cpim (true ∷ parts) none = multipart_cpim parts none
    multipart_cpim (false ∷ parts) cpim = multipart_cpim parts cpim

    unfoldable pub or_cpim : Option Message → Option Message → Option Message
    or_cpim (some message) other = some message
    or_cpim none other = other

    unfoldable pub content_type_of : Option Bytes → Option Bytes → Bytes
    content_type_of (some content_type) payload_type = content_type
    content_type_of none (some payload_type) = payload_type
    content_type_of none none = codes "text/plain"

    unfoldable pub body_of : Content → Option Bytes
    body_of c = if c.base64_encoded then parsers.decode c.bytes else some c.bytes

    unfoldable pub deliver : Bytes → Info → Option Content → List Delivery
    unfolding content_type_of body_of
    deliver contact info none = []
    deliver contact info (some c) = elim (body_of c) [
      | none ↦ []
      | some body ↦
          record {
            contact_uri = contact;
            info = info;
            content_type = content_type_of c.content_type (parsers.payload_type info);
            body = body;
          }
          ∷ []
    ]

    unfoldable pub asserted_contact : Option Bytes → Option Bytes
    asserted_contact asserted = asserted >>= (λ v. parsers.address_uri v)

    unfoldable pub contact_uri : Option Bytes → Option Info → Option Bytes
    contact_uri (some uri) info = some uri
    contact_uri none info = do i ← info; uri ← parsers.from_uri i; parsers.address_uri uri

    unfoldable pub respond : Option Bytes → Option Info → Option Content → Outcome
    unfolding deliver
    respond (some contact) (some info) c = record {
      deliveries = deliver contact info c;
      status = some 200;
    }
    respond (some contact) none c = record { deliveries = []; status = none }
    respond none info c = record { deliveries = []; status = none }

    -- a chatbot's message has to have the information on the chatbot
    unfoldable pub is_refused : (is_imdn chatbot : Bool) → Option Info → Bool
    unfolding get_bot_related_info
    is_refused is_imdn chatbot none = false
    is_refused is_imdn chatbot (some info) =
        not is_imdn
        && (chatbot && elim (get_bot_related_info info) [ none ↦ true | some bot ↦ false ])

    unfoldable pub on_info :
        (is_imdn chatbot : Bool)
        → (asserted_identity : Option Bytes) → Option Info
        → Option Content
        → Outcome
    unfolding is_refused respond contact_uri asserted_contact
    on_info is_imdn chatbot asserted info c =
        if is_refused is_imdn chatbot info
        then record { deliveries = []; status = some 606 }
        else respond (contact_uri (asserted_contact asserted) info) info c

    unfoldable pub on_cpim :
        (is_imdn chatbot : Bool) → (asserted_identity : Option Bytes) → Option Message → Outcome
    unfolding on_info
    on_cpim is_imdn chatbot asserted none = record { deliveries = []; status = none }
    on_cpim is_imdn chatbot asserted (some message) =
        on_info is_imdn chatbot asserted (parsers.get_info message)
          (parsers.get_message_body message)

    unfoldable pub handle_typed : Option Message → Request → Outcome
    unfolding on_cpim is_imdn is_pager_mode is_chatbot_message or_cpim multipart_cpim
    handle_typed direct request =
        if is_pager_mode (is_imdn direct) request.accept_contacts
        then on_cpim (is_imdn direct) (is_chatbot_message request.accept_contacts)
            request.asserted_identity (or_cpim direct (multipart_cpim request.parts request.cpim))
        else record { deliveries = []; status = none }

    unfoldable pub handle_for : Option Bool → Request → Outcome
    unfolding handle_typed direct_cpim
    handle_for none request = record { deliveries = []; status = some 400 }
    handle_for (some is_cpim) request = handle_typed (direct_cpim is_cpim request.cpim) request

    -- `handle_transaction` of a MESSAGE with headers and a body
    unfoldable pub handle_message : Request → Outcome
    unfolding handle_for
    handle_message request = handle_for request.content_type request
