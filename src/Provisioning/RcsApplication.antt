-- ===== src/Provisioning/RcsApplication.antt =====
-- provisioning/rcs_application.rs: the RCS management object, as the views that the program takes of
-- its characteristics. A view is the characteristic that it stands on; a `usize` has 64 bits.
use rust_rcs_client.Common.{
  ℕ, ◌-◌, ◌^◌, ℤ, pos, Option, none, some, Bytes, codes, parse_i32, parse_unsigned,
}
use rust_rcs_client.Provisioning.Characteristic.{
  Characteristic, get_child_characteristic, get_parameter,
}
use rust_rcs_client.Provisioning.WapProvisioningDoc.{
  WapProvisioningDoc, get_application_characteristic,
}

unfoldable pub get_rcs_application : WapProvisioningDoc → Option Characteristic
unfolding get_application_characteristic
get_rcs_application doc = get_application_characteristic doc (codes "ap2002")

-- `if let Some(p) = get_parameter(name) { if let Ok(i) = p.parse() { return i; } } otherwise`
unfoldable pub parsed {ℓ} : {A : Type ℓ} → (Bytes → Option A) → A → Option Bytes → A
parsed parse otherwise none = otherwise
parsed parse otherwise (some p) = elim (parse p) [ none ↦ otherwise | some i ↦ i ]

-- of an `i32`, a `u32` and a `usize`
unfoldable pub i32_parameter : Characteristic → Bytes → ℤ → ℤ
unfolding parsed
i32_parameter c name otherwise = parsed parse_i32 otherwise (get_parameter c name)

unfoldable pub u32_parameter : Characteristic → Bytes → ℕ → ℕ
unfolding parsed
u32_parameter c name otherwise = parsed (parse_unsigned 32) otherwise (get_parameter c name)

unfoldable pub usize_parameter : Characteristic → Bytes → ℕ → ℕ
unfolding parsed
usize_parameter c name otherwise = parsed (parse_unsigned 64) otherwise (get_parameter c name)

abbrev pub usize_max : ℕ
usize_max = 2 ^ 64 - 1

unfoldable pub get_to_app_ref : Characteristic → Bytes
unfolding get_parameter
get_to_app_ref c = elim (get_parameter c (codes "To-AppRef")) [
  | some app_ref ↦ app_ref
  | none ↦ codes "DEFAULT"
]

unfoldable pub get_services_config : Characteristic → Option Characteristic
unfolding get_child_characteristic
get_services_config c = get_child_characteristic c (codes "SERVICES")

unfoldable pub get_messaging_config : Characteristic → Option Characteristic
unfolding get_child_characteristic
get_messaging_config c = get_child_characteristic c (codes "MESSAGING")

unfoldable pub get_chat_auth : Characteristic → ℤ
unfolding i32_parameter
get_chat_auth c = i32_parameter c (codes "ChatAuth") (pos 0)

unfoldable pub get_group_chat_auth : Characteristic → ℤ
unfolding i32_parameter
get_group_chat_auth c = i32_parameter c (codes "GroupChatAuth") (pos 0)

unfoldable pub get_standalone_msg_auth : Characteristic → ℤ
unfolding i32_parameter
get_standalone_msg_auth c = i32_parameter c (codes "standaloneMsgAuth") (pos 0)

unfoldable pub get_ft_auth : Characteristic → ℕ
unfolding u32_parameter
get_ft_auth c = u32_parameter c (codes "ftAuth") 0

unfoldable pub get_max_one_to_many_recipients : Characteristic → ℤ
unfolding i32_parameter
get_max_one_to_many_recipients c = i32_parameter c (codes "max1ToManyRecipients") (pos 0)

unfoldable pub get_one_to_many_selected_technology : Characteristic → ℤ
unfolding i32_parameter
get_one_to_many_selected_technology c = i32_parameter c (codes "1toManySelectedTech") (pos 0)

unfoldable pub get_chat_config : Characteristic → Option Characteristic
unfolding get_child_characteristic
get_chat_config c = get_child_characteristic c (codes "Chat")

unfoldable pub get_standalone_config : Characteristic → Option Characteristic
unfolding get_child_characteristic
get_standalone_config c = get_child_characteristic c (codes "StandaloneMsg")

unfoldable pub get_file_transfer_config : Characteristic → Option Characteristic
unfolding get_child_characteristic
get_file_transfer_config c = get_child_characteristic c (codes "FileTransfer")

unfoldable pub get_chat_bot_config : Characteristic → Option Characteristic
unfolding get_child_characteristic
get_chat_bot_config c = get_child_characteristic c (codes "Chatbot")

unfoldable pub get_max_ad_hoc_group_size : Characteristic → ℕ
unfolding usize_parameter
get_max_ad_hoc_group_size c = usize_parameter c (codes "max_adhoc_group_size") 0

unfoldable pub get_conf_fcty_uri : Characteristic → Option Bytes
unfolding get_parameter
get_conf_fcty_uri c = get_parameter c (codes "conf-fcty-uri")

unfoldable pub get_im_session_auto_accept : Characteristic → ℤ
unfolding i32_parameter
get_im_session_auto_accept c = i32_parameter c (codes "AutAccept") (pos 1)

unfoldable pub get_im_session_auto_accept_group_chat : Characteristic → ℤ
unfolding i32_parameter
get_im_session_auto_accept_group_chat c = i32_parameter c (codes "AutAcceptGroupChat") (pos 1)

unfoldable pub get_im_session_timer : Characteristic → ℤ
unfolding i32_parameter
get_im_session_timer c = i32_parameter c (codes "TimerIdle") (pos 0)

unfoldable pub get_max_size_im : Characteristic → ℕ
unfolding usize_parameter
get_max_size_im c = usize_parameter c (codes "MaxSize") usize_max

unfoldable pub get_max_size : Characteristic → ℕ
unfolding usize_parameter
get_max_size c = usize_parameter c (codes "MaxSize") usize_max

unfoldable pub get_switch_over_size : Characteristic → ℕ
unfolding usize_parameter
get_switch_over_size c = usize_parameter c (codes "SwitchoverSize") 1300

unfoldable pub get_exploder_uri : Characteristic → Option Bytes
unfolding get_parameter
get_exploder_uri c = get_parameter c (codes "exploder-uri")

unfoldable pub get_ft_warn_size : Characteristic → ℕ
unfolding u32_parameter
get_ft_warn_size c = u32_parameter c (codes "ftWarnSize") 0

unfoldable pub get_max_size_file_tr : Characteristic → ℕ
unfolding u32_parameter
get_max_size_file_tr c = u32_parameter c (codes "MaxSizeFileTr") 0

unfoldable pub get_ft_aut_accept : Characteristic → ℕ
unfolding u32_parameter
get_ft_aut_accept c = u32_parameter c (codes "ftAutAccept") 0

unfoldable pub get_ft_http_cs_uri : Characteristic → Option Bytes
unfolding get_parameter
get_ft_http_cs_uri c = get_parameter c (codes "ftHTTPCSURI")

unfoldable pub get_ft_http_dl_uri : Characteristic → Option Bytes
unfolding get_parameter
get_ft_http_dl_uri c = get_parameter c (codes "ftHTTPDLURI")

unfoldable pub get_ft_http_cs_user : Characteristic → Option Bytes
unfolding get_parameter
get_ft_http_cs_user c = get_parameter c (codes "ftHTTPCSUser")

unfoldable pub get_ft_http_cs_pwd : Characteristic → Option Bytes
unfolding get_parameter
get_ft_http_cs_pwd c = get_parameter c (codes "ftHTTPCSPwd")

unfoldable pub get_ft_http_fallback : Characteristic → Option Bytes
unfolding get_parameter
get_ft_http_fallback c = get_parameter c (codes "ftHTTPFallback")

unfoldable pub get_ft_max_1_to_many_recipients : Characteristic → ℕ
unfolding u32_parameter
get_ft_max_1_to_many_recipients c = u32_parameter c (codes "ftMax1ToManyRecipients") 0

unfoldable pub get_chatbot_msg_tech : Characteristic → ℤ
unfolding i32_parameter
get_chatbot_msg_tech c = i32_parameter c (codes "ChatbotMsgTech") (pos 0)

unfoldable pub get_chatbot_directory : Characteristic → Option Bytes
unfolding get_parameter
get_chatbot_directory c = get_parameter c (codes "ChatbotDirectory")

unfoldable pub get_bot_info_fqdn : Characteristic → Option Bytes
unfolding get_parameter
get_bot_info_fqdn c = get_parameter c (codes "BotinfoFQDNRoot")

unfoldable pub get_specific_chatbots_lists : Characteristic → Option Bytes
unfolding get_parameter
get_specific_chatbots_lists c = get_parameter c (codes "SpecificChatbotsList")
