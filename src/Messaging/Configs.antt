-- ===== src/Messaging/Configs.antt =====
-- messaging/config.rs, messaging/ft_http/config.rs and chat_bot/chatbot_config.rs: what the services
-- keep of the RCS management object. An update writes the values of the sections that are there.
pub mod Updates
use rust_rcs_client.Common.{ℕ, ℤ, pos, Option, none, some, Bytes}
use rust_rcs_client.Provisioning.Characteristic.{Characteristic}
use rust_rcs_client.Provisioning.RcsApplication.{
  get_services_config, get_messaging_config, get_chat_auth, get_group_chat_auth,
  get_standalone_msg_auth, get_ft_auth, get_max_one_to_many_recipients,
  get_one_to_many_selected_technology, get_chat_config, get_standalone_config,
  get_file_transfer_config, get_chat_bot_config, get_max_ad_hoc_group_size, get_conf_fcty_uri,
  get_im_session_auto_accept, get_im_session_auto_accept_group_chat, get_max_size_im, get_max_size,
  get_switch_over_size, get_exploder_uri, get_ft_warn_size, get_max_size_file_tr, get_ft_aut_accept,
  get_ft_http_cs_uri, get_ft_http_dl_uri, get_ft_http_cs_user, get_ft_http_cs_pwd,
  get_ft_http_fallback, get_ft_max_1_to_many_recipients, get_chatbot_msg_tech,
  get_chatbot_directory, get_bot_info_fqdn, get_specific_chatbots_lists, usize_max,
}

-- `if let Some(c) = o { … }` on a state
abbrev pub for_some {ℓ κ} : {A : Type ℓ} {S : Type κ} → Option A → (A → S → S) → S → S
for_some none f s = s
for_some (some a) f s = f a s

pub record MessagingConfigs : Type 0 where
  pub chat_auth : ℤ
  pub group_chat_auth : ℤ
  pub standalone_msg_auth : ℤ
  pub max_ad_hoc_group_size : ℕ
  pub conf_fcty_uri : Option Bytes
  pub max_one_to_many_recipients : ℤ
  pub one_to_many_selected_technology : ℤ
  pub im_session_auto_accept : ℤ
  pub im_session_auto_accept_group_chat : ℤ
  pub im_session_timer : ℤ
  pub max_size_im : ℕ
  pub standalone_msg_max_size : ℕ
  pub standalone_msg_switch_over_size : ℕ
  pub exploder_uri : Option Bytes
  pub chatbot_msg_tech : ℤ

unfoldable pub new_messaging : MessagingConfigs
new_messaging = record {
  chat_auth = pos 0;
  group_chat_auth = pos 0;
  standalone_msg_auth = pos 0;
  max_ad_hoc_group_size = 0;
  conf_fcty_uri = none;
  max_one_to_many_recipients = pos 0;
  one_to_many_selected_technology = pos 0;
  im_session_auto_accept = pos 1;
  im_session_auto_accept_group_chat = pos 1;
  im_session_timer = pos 0;
  max_size_im = usize_max;
  standalone_msg_max_size = usize_max;
  standalone_msg_switch_over_size = 1300;
  exploder_uri = none;
  chatbot_msg_tech = pos 0;
}

-- the sections of `MessagingConfigs::update_configuration`
unfoldable pub update_services : Characteristic → MessagingConfigs → MessagingConfigs
update_services c s = record s {
  chat_auth = get_chat_auth c;
  group_chat_auth = get_group_chat_auth c;
  standalone_msg_auth = get_standalone_msg_auth c;
}

unfoldable pub update_recipients : Characteristic → MessagingConfigs → MessagingConfigs
update_recipients c s = record s {
  max_one_to_many_recipients = get_max_one_to_many_recipients c;
  one_to_many_selected_technology = get_one_to_many_selected_technology c;
}

unfoldable pub update_chat : Characteristic → MessagingConfigs → MessagingConfigs
update_chat c s = record s {
  max_ad_hoc_group_size = get_max_ad_hoc_group_size c;
  conf_fcty_uri = get_conf_fcty_uri c;
  im_session_auto_accept = get_im_session_auto_accept c;
  im_session_auto_accept_group_chat = get_im_session_auto_accept_group_chat c;
  max_size_im = get_max_size_im c;
}

unfoldable pub update_standalone : Characteristic → MessagingConfigs → MessagingConfigs
update_standalone c s = record s {
  standalone_msg_max_size = get_max_size c;
  standalone_msg_switch_over_size = get_switch_over_size c;
  exploder_uri = get_exploder_uri c;
}

unfoldable pub update_chatbot : Characteristic → MessagingConfigs → MessagingConfigs
update_chatbot c s = record s { chatbot_msg_tech = get_chatbot_msg_tech c }

unfoldable pub update_messaging_section : Characteristic → MessagingConfigs → MessagingConfigs
unfolding update_recipients update_chat update_standalone update_chatbot
update_messaging_section c s = for_some (get_chat_bot_config c) update_chatbot (
    for_some (get_standalone_config c) update_standalone
      (for_some (get_chat_config c) update_chat (update_recipients c s)))

unfoldable pub update_messaging : Characteristic → MessagingConfigs → MessagingConfigs
unfolding update_services update_messaging_section
update_messaging rcs_app s =
    for_some (get_messaging_config rcs_app) update_messaging_section
      (for_some (get_services_config rcs_app) update_services s)

pub record FileTransferOverHttpConfigs : Type 0 where
  pub ft_auth : ℕ
  pub ft_warn_size : ℕ
  pub max_size_file_tr : ℕ
  pub ft_aut_accept : ℕ
  pub ft_http_cs_uri : Option Bytes
  pub ft_http_dl_uri : Option Bytes
  pub ft_http_cs_user : Option Bytes
  pub ft_http_cs_pwd : Option Bytes
  pub ft_http_fallback : Option Bytes
  pub ft_max_1_to_many_recipients : ℕ

unfoldable pub new_ft_http : FileTransferOverHttpConfigs
new_ft_http = record {
  ft_auth = 0;
  ft_warn_size = 0;
  max_size_file_tr = 0;
  ft_aut_accept = 0;
  ft_http_cs_uri = none;
  ft_http_dl_uri = none;
  ft_http_cs_user = none;
  ft_http_cs_pwd = none;
  ft_http_fallback = none;
  ft_max_1_to_many_recipients = 0;
}

unfoldable pub update_file_transfer :
    Characteristic → FileTransferOverHttpConfigs → FileTransferOverHttpConfigs
update_file_transfer c s = record s {
  ft_warn_size = get_ft_warn_size c;
  max_size_file_tr = get_max_size_file_tr c;
  ft_aut_accept = get_ft_aut_accept c;
  ft_http_cs_uri = get_ft_http_cs_uri c;
  ft_http_dl_uri = get_ft_http_dl_uri c;
  ft_http_cs_user = get_ft_http_cs_user c;
  ft_http_cs_pwd = get_ft_http_cs_pwd c;
  ft_http_fallback = get_ft_http_fallback c;
  ft_max_1_to_many_recipients = get_ft_max_1_to_many_recipients c;
}

-- The services are looked at only where there is a messaging section.
unfoldable pub update_ft_http :
    Characteristic → FileTransferOverHttpConfigs → FileTransferOverHttpConfigs
unfolding update_file_transfer
update_ft_http rcs_app s =
    for_some (get_messaging_config rcs_app)
      (λ m s'.
        for_some (get_file_transfer_config m) update_file_transfer
          (for_some (get_services_config rcs_app) (λ c t. record t { ft_auth = get_ft_auth c }) s'))
      s

pub record ChatbotConfig : Type 0 where
  pub chatbot_directory : Option Bytes
  pub bot_info_fqdn : Option Bytes
  pub specific_chatbots_lists : Option Bytes

unfoldable pub new_chatbot : ChatbotConfig
new_chatbot = record {
  chatbot_directory = none;
  bot_info_fqdn = none;
  specific_chatbots_lists = none;
}

unfoldable pub update_chatbot_config : Characteristic → ChatbotConfig → ChatbotConfig
update_chatbot_config rcs_app s =
    for_some (get_messaging_config rcs_app)
      (λ m s'.
        for_some (get_chat_bot_config m)
          (λ c t. record {
            chatbot_directory = get_chatbot_directory c;
            bot_info_fqdn = get_bot_info_fqdn c;
            specific_chatbots_lists = get_specific_chatbots_lists c;
          })
          s')
      s
