-- ===== src/Tests/Configs.antt =====
-- The configuration records on concrete input: a management object with a section for each of them.
use rust_rcs_client.Common.{ℕ, pos, [], ◌∷◌, Option, some, ◌≡◌, refl, arith, Bytes, codes, bytes_eq}
use rust_rcs_client.Provisioning.Characteristic.{Characteristic, characteristic, cons, nil}
use rust_rcs_client.Provisioning.RcsApplication.{
  get_services_config, get_messaging_config, get_chat_config, get_standalone_config,
  get_chat_bot_config,
}
use rust_rcs_client.Messaging.Configs.{MessagingConfigs, new_messaging, update_messaging}
use rust_rcs_client.Messaging.Configs.Updates.{Complete, update_messaging-fresh}
use rust_rcs_client.Provisioning.ImsApplication.{MediaProtocol}
use rust_rcs_client.Connection.PCscfConnectionConfig.{protocol_for}
use rust_rcs_client.Connection.MsrpConnectionConfig.{
  get_transport_config, is_tls, new, with_roaming, get_transport_config-cellular,
}

abbrev empty : Bytes → Characteristic
empty name = characteristic name [] nil

-- one number is out of the range of its type
abbrev chat : Characteristic
chat =
    characteristic (codes "Chat")
      (record { name = codes "AutAccept"; value = codes "4294967296" }
        ∷ (record { name = codes "TimerIdle"; value = codes "30" } ∷ []))
      nil

abbrev messaging : Characteristic
messaging =
    characteristic (codes "MESSAGING") []
      (cons chat (cons (empty (codes "StandaloneMsg")) (cons (empty (codes "Chatbot")) nil)))

abbrev rcs_app : Characteristic
rcs_app =
    characteristic (codes "APPLICATION") [] (cons (empty (codes "SERVICES")) (cons messaging nil))

complete : Complete rcs_app
unfolding get_services_config get_messaging_config get_chat_config get_standalone_config
    get_chat_bot_config bytes_eq
complete = record {
  services = empty (codes "SERVICES");
  messaging = messaging;
  chat = chat;
  standalone = empty (codes "StandaloneMsg");
  chatbot = empty (codes "Chatbot");
  has_services = refl;
  has_messaging = refl;
  has_chat = refl;
  has_standalone = refl;
  has_chatbot = refl;
}

abbrev earlier : MessagingConfigs
earlier = record (update_messaging rcs_app new_messaging) {
  im_session_timer = pos 7;
  chat_auth = pos 3;
}

abbrev fresh : MessagingConfigs
fresh = record new_messaging { im_session_timer = pos 7 }

update_messaging-fresh_example :
    (update_messaging rcs_app earlier ≡ update_messaging rcs_app fresh)
    × ((update_messaging rcs_app earlier).im_session_timer ≡ pos 7)
update_messaging-fresh_example = update_messaging-fresh rcs_app complete earlier fresh refl

-- a cellular network
abbrev network : ℕ → Option (ℕ × Option ℕ)
network k = some (2, some 53)

get_transport_config-cellular_example :
    ((j : ℕ) (p : MediaProtocol)
      → get_transport_config network j (with_roaming network p new)
        ≡ get_transport_config network j new)
    × (get_transport_config network 0 new ≡ some (53, is_tls new.transport_proto.wifi_media))
    × (protocol_for 2 new.transport_proto ≡ new.transport_proto.ps_signalling)
    × (protocol_for 3 new.transport_proto ≡ new.transport_proto.ps_signalling_roaming)
get_transport_config-cellular_example =
    get_transport_config-cellular network 0 2 53 new (ground arith) refl
