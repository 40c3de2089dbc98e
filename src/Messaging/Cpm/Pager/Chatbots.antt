-- ===== src/Messaging/Cpm/Pager/Chatbots.antt =====
-- The messages of chatbots in pager mode.
use rust_rcs_client.Common.{
  Bool, true, false, [], Option, none, some, Bytes, ◌≡◌, refl, if◌then◌else◌,
}
use rust_rcs_client.Messaging.Cpm.LargeMode.{Content}
use rust_rcs_client.Messaging.Cpm.Pager.{
  Request, Parsers, Outcome, is_chatbot_message, is_imdn, direct_cpim, respond, on_info, on_cpim,
  handle_typed, handle_for, handle_message,
}

module _ (Message Info : Type 0) (parsers : Parsers Message Info) where
  respond-unknown :
      (contact : Option Bytes) (c : Option Content)
      → (respond Message Info parsers contact none c).deliveries ≡ []
  unfolding respond
  respond-unknown none c = refl
  respond-unknown (some contact) c = refl

  on_info-chatbot :
      (asserted : Option Bytes) (info : Option Info) (c : Option Content)
      → (on_info Message Info parsers false true asserted info c).deliveries ≡ []
  unfolding on_info
  on_info-chatbot asserted none c = respond-unknown _ c
  on_info-chatbot asserted (some info) c = refl

  on_cpim-chatbot :
      (asserted : Option Bytes) (message : Option Message)
      → (on_cpim Message Info parsers false true asserted message).deliveries ≡ []
  unfolding on_cpim
  on_cpim-chatbot asserted none = refl
  on_cpim-chatbot asserted (some message) = on_info-chatbot asserted _ _

  if-silent :
      (b : Bool) (o : Outcome Message Info)
      → o.deliveries ≡ []
      → (if b then o else record { deliveries = []; status = none }).deliveries ≡ []
  if-silent true o h = h
  if-silent false o h = refl

  direct_cpim-imdn :
      (b : Bool) (cpim : Option Message)
      → is_imdn Message Info parsers cpim ≡ false
      → is_imdn Message Info parsers (direct_cpim Message Info parsers b cpim) ≡ false
  unfolding direct_cpim is_imdn
  direct_cpim-imdn true cpim h = h
  direct_cpim-imdn false cpim h = refl

  handle_typed-chatbot :
      (direct : Option Message) (request : Request Message Info)
      → is_chatbot_message Message Info parsers request.accept_contacts ≡ true
      → is_imdn Message Info parsers direct ≡ false
      → (handle_typed Message Info parsers direct request).deliveries ≡ []
  unfolding handle_typed
  handle_typed-chatbot direct request chatbot plain =
      rw (chatbot, plain) (if-silent _ _ (on_cpim-chatbot request.asserted_identity _))

  handle_for-chatbot :
      (type : Option Bool) (request : Request Message Info)
      → is_chatbot_message Message Info parsers request.accept_contacts ≡ true
      → is_imdn Message Info parsers request.cpim ≡ false
      → (handle_for Message Info parsers type request).deliveries ≡ []
  unfolding handle_for
  handle_for-chatbot none request chatbot plain = refl
  handle_for-chatbot (some is_cpim) request chatbot plain =
      handle_typed-chatbot _ request chatbot (direct_cpim-imdn is_cpim request.cpim plain)

  -- Whatever a MESSAGE with the reference of a chatbot's standalone messages has in its other headers
  -- and its body, none of it is delivered, unless the body itself is a CPIM message with an IMDN.
  pub handle_message-chatbot :
      (request : Request Message Info)
      → is_chatbot_message Message Info parsers request.accept_contacts ≡ true
      → is_imdn Message Info parsers request.cpim ≡ false
      → (handle_message Message Info parsers request).deliveries ≡ []
  unfolding handle_message
  handle_message-chatbot request chatbot plain =
      handle_for-chatbot request.content_type request chatbot plain
