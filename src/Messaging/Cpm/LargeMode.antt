-- ===== src/Messaging/Cpm/LargeMode.antt =====
-- messaging/cpm/standalone_messaging.rs: the receiver of a message in large mode, and its data writer.
--
-- The parsers of MIME messages and of CPIM are the core library's, the decoder of base64 is a
-- dependency's: `Parsers` has them. The listener for the message can be called once; `listening` says
-- that it has not been taken. What it is called with is a `Delivery`.
pub mod Once
use rust_rcs_client.Common.{
  ℕ, ◌≤◌, Bool, true, false, List, [], ◌∷◌, ◌++◌, Option, none, some, ◌≡◌, refl, arith, Bytes,
  codes, length, ◌⊎◌, inl, inr, if◌then◌else◌, Bool-cases, Option-cases,
}

pub record Content : Type 0 where
  pub content_type : Option Bytes
  pub bytes : Bytes
  pub base64_encoded : Bool

pub data Completed : Type 0 where
  done : Completed
  failed : (status_code : ℕ) → (reason : Bytes) → Completed

unfoldable pub content_type_or : Option Bytes → Bytes
content_type_or none = codes "text/plain"
content_type_or (some content_type) = content_type

module _ (Body Message Info : Type 0) where
  pub record Parsers : Type 0 where
    pub construct_message : Bytes → Bytes ⊎ Body
    pub try_from : Body → Bytes ⊎ Message
    pub get_info : Message → Bytes ⊎ Info
    pub get_message_body : Message → Option Content
    pub decode : Bytes → Option Bytes

  pub record Delivery : Type 0 where
    pub contact_uri : Bytes
    pub info : Info
    pub content_type : Bytes
    pub body : Bytes

  -- StandaloneLargeModeMessageDataWriter
  pub record Writer : Type 0 where
    pub data_written : Bytes
    pub contact_uri : Bytes
    pub sip_cpim_body : Option Body
    pub listening : Bool

  -- StandaloneLargeModeReceiver
  pub record Receiver : Type 0 where
    pub contact_uri : Bytes
    pub sip_cpim_body : Option Body
    pub listening : Bool

  unfoldable pub write : Bytes → Writer → ℕ × Writer
  write chunk w = (length chunk, record w { data_written = w.data_written ++ chunk })

  -- a new writer, or the error 500 with no phrase
  unfoldable pub on_message : Receiver → Receiver × Option Writer
  on_message r =
      if r.listening
      then (
        record r { listening = false },
        some (record {
          data_written = [];
          contact_uri = r.contact_uri;
          sip_cpim_body = r.sip_cpim_body;
          listening = true;
        }),
      )
      else (r, none)

  module _ (parsers : Parsers) where
    unfoldable pub content : Content → Option Bytes
    content c = if c.base64_encoded then parsers.decode c.bytes else some c.bytes

    unfoldable pub deliver_decoded :
        Bytes → Info → Content → Option Bytes → List Delivery × Completed
    unfolding content_type_or
    deliver_decoded contact info c none = ([], failed 400 (codes "failed to get content body"))
    deliver_decoded contact info c (some bytes) = (
      record {
        contact_uri = contact;
        info = info;
        content_type = content_type_or c.content_type;
        body = bytes;
      }
          ∷ [],
      done,
    )

    unfoldable pub deliver : Bytes → Bytes ⊎ Info → Option Content → List Delivery × Completed
    unfolding content deliver_decoded
    deliver contact (inl e) c = ([], failed 400 e)
    deliver contact (inr info) none = ([], failed 400 (codes "failed to get content body"))
    deliver contact (inr info) (some c) = deliver_decoded contact info c (content c)

    -- The information is that of the CPIM message in the INVITE where it had one.
    unfoldable pub info_of : Option Body → Message → Bytes ⊎ Info
    info_of none message = parsers.get_info message
    info_of (some body) message = elim (parsers.try_from body) [
      | inl e ↦ inl e
      | inr sip ↦ parsers.get_info sip
    ]

    unfoldable pub complete_message :
        Bytes → Option Body → Bytes ⊎ Message → List Delivery × Completed
    unfolding deliver info_of
    complete_message contact sip_cpim_body (inl e) = ([], failed 400 e)
    complete_message contact sip_cpim_body (inr message) =
        deliver contact (info_of sip_cpim_body message) (parsers.get_message_body message)

    unfoldable pub complete_body : Bytes → Option Body → Bytes ⊎ Body → List Delivery × Completed
    unfolding complete_message
    complete_body contact sip_cpim_body (inl e) = ([], failed 400 e)
    complete_body contact sip_cpim_body (inr body) =
        complete_message contact sip_cpim_body (parsers.try_from body)

    unfoldable pub complete : Writer → Writer × (List Delivery × Completed)
    unfolding complete_body
    complete w =
        if w.listening
        then (
          record w { listening = false },
          complete_body w.contact_uri w.sip_cpim_body (parsers.construct_message w.data_written),
        )
        else (w, ([], failed 500 (codes "message already received")))
