-- ===== src/Messaging/Configs/Updates.antt =====
-- What an update of the messaging configuration keeps and what it replaces.
use rust_rcs_client.Common.{ℤ, some, ◌≡◌, refl, ap}
use rust_rcs_client.Provisioning.Characteristic.{Characteristic}
use rust_rcs_client.Provisioning.RcsApplication.{
  get_services_config, get_messaging_config, get_chat_config, get_standalone_config,
  get_chat_bot_config,
}
use rust_rcs_client.Messaging.Configs.{
  MessagingConfigs, update_services, update_recipients, update_chat, update_standalone,
  update_chatbot, update_messaging_section, update_messaging,
}

-- The sections that an update can read, all of them there.
pub record Complete (rcs_app : Characteristic) : Type 0 where
  pub services : Characteristic
  pub messaging : Characteristic
  pub chat : Characteristic
  pub standalone : Characteristic
  pub chatbot : Characteristic
  pub has_services : get_services_config rcs_app ≡ some services
  pub has_messaging : get_messaging_config rcs_app ≡ some messaging
  pub has_chat : get_chat_config messaging ≡ some chat
  pub has_standalone : get_standalone_config messaging ≡ some standalone
  pub has_chatbot : get_chat_bot_config messaging ≡ some chatbot

-- Where the management object has every section that an update reads, two messaging configurations
-- with the same idle timer are the same after it: nothing else survives. An update takes the timer
-- itself from nowhere, so it is kept whatever the object says of it.
pub update_messaging-fresh :
    (rcs_app : Characteristic) (all : Complete rcs_app) (s t : MessagingConfigs)
    → s.im_session_timer ≡ t.im_session_timer
    → (update_messaging rcs_app s ≡ update_messaging rcs_app t)
      × ((update_messaging rcs_app s).im_session_timer ≡ s.im_session_timer)
unfolding update_messaging update_messaging_section update_services update_recipients update_chat
    update_standalone update_chatbot
update_messaging-fresh rcs_app all s t same =
    rw (all.has_services, all.has_messaging, all.has_chat, all.has_standalone, all.has_chatbot)
      (
        ap
            (λ (timer : ℤ). update_chatbot all.chatbot (
              update_standalone all.standalone (
                update_chat all.chat (
                  update_recipients all.messaging
                    (record (update_services all.services s) { im_session_timer = timer })))))
            same,
        refl,
      )
