-- ===== src/Provisioning/WapProvisioningDoc.antt =====
-- provisioning/wap_provisioning_doc.rs: the document that a configuration server sends, a list of
-- characteristics, with its queries and updates, its reader and its writer.
pub mod Applications
pub mod RoundTrip
use rust_rcs_client.Common.{
  ℕ, zero, suc, ℤ, Bool, true, false, not, ◌&&◌, ◌||◌, List, [], ◌∷◌, ◌++◌, Option, none, some,
  Bytes, codes, bytes_eq, parse_i64, parse_unsigned, is_positive, if◌then◌else◌, length, push_some,
  retain, option_list, ◌==◌, ◌>>=◌,
}
use rust_rcs_client.Core.{EqualsBytes}
use rust_rcs_client.Xml.{
  Event, BytesStart, Reader, Handler, start, end, element_start, collect, walk, find_root,
}
use rust_rcs_client.Provisioning.Characteristic.{
  Parameter, Characteristic, characteristic, characteristic_type, characteristic_parameters,
  child_characteristics, of_list, find_characteristic, get_parameter, read_characteristic,
  write_characteristics,
}

pub record WapProvisioningDoc : Type 0 where
  pub root : List Characteristic

unfoldable pub get_child_characteristic : WapProvisioningDoc → Bytes → Option Characteristic
unfolding find_characteristic
get_child_characteristic doc name = find_characteristic name doc.root

-- `token_validity.parse::<i64>()`, if the parameter is there
token_validity : Characteristic → Option ℤ
unfolding get_parameter
token_validity token = do validity ← get_parameter token (codes "validity"); parse_i64 validity

token_of : WapProvisioningDoc → Option (Bytes × Option ℤ)
unfolding get_child_characteristic get_parameter token_validity
token_of doc = do
  token ← get_child_characteristic doc (codes "TOKEN")
  token_string ← get_parameter token (codes "token")
  some (token_string, token_validity token)

-- version and validity from `VERS`, and the token, with its validity if it has one
unfoldable pub get_vers_token : WapProvisioningDoc → Option (ℤ × ℤ × Option (Bytes × Option ℤ))
unfolding get_child_characteristic get_parameter token_of
get_vers_token doc = do
  vers ← get_child_characteristic doc (codes "VERS")
  version ← get_parameter vers (codes "version")
  version_validity ← get_parameter vers (codes "validity")
  v ← parse_i64 version
  w ← parse_i64 version_validity
  if (is_positive v && is_positive w) || not (is_positive v)
      then some (v, w, token_of doc)
      else none

unfoldable pub get_user_msisdn : WapProvisioningDoc → Option Bytes
unfolding get_child_characteristic get_parameter
get_user_msisdn doc = do
  user ← get_child_characteristic doc (codes "User")
  get_parameter user (codes "msisdn")

unfoldable pub get_msg : WapProvisioningDoc → Option Characteristic
unfolding get_child_characteristic
get_msg doc = get_child_characteristic doc (codes "MSG")

abbrev pub default_application_port : ℕ
default_application_port = 37273

sms_port : Characteristic → Option ℕ
unfolding get_parameter parse_unsigned
sms_port policy = do port ← get_parameter policy (codes "SMS_port"); parse_unsigned 16 port

-- the port of a document that is nothing but a `POLICY`
unfoldable pub get_sms_policy : WapProvisioningDoc → Option ℕ
unfolding get_child_characteristic sms_port
get_sms_policy doc =
    if length doc.root == 1
    then (do
      policy ← get_child_characteristic doc (codes "POLICY")
      elim (sms_port policy) [ some port ↦ some port | none ↦ some default_application_port ])
    else none

abbrev is_application : Characteristic → Bool
is_application c = bytes_eq (characteristic_type c) (codes "APPLICATION")

-- what the iterator `applications` yields
unfoldable pub applications : WapProvisioningDoc → List Characteristic
unfolding bytes_eq
applications doc = retain is_application doc.root

abbrev names : Bytes → Option Bytes → Bool
names app_id none = false
names app_id (some id) = bytes_eq id app_id

-- an `APPLICATION` whose `AppID` is the given one
unfoldable pub has_app_id : Bytes → Characteristic → Bool
unfolding get_parameter bytes_eq
has_app_id app_id c = is_application c && names app_id (get_parameter c (codes "AppID"))

unfoldable pub find_application : Bytes → List Characteristic → Option Characteristic
find_application app_id [] = none
find_application app_id (c ∷ cs) =
    if has_app_id app_id c then some c else find_application app_id cs

unfoldable pub get_application_characteristic : WapProvisioningDoc → Bytes → Option Characteristic
unfolding find_application
get_application_characteristic doc app_id = find_application app_id doc.root

-- The child keeps its type, and takes the parameters and children of `application`.
unfoldable pub replaced : Characteristic → Characteristic → Characteristic
replaced child application =
    characteristic (characteristic_type child) (characteristic_parameters application)
      (of_list (child_characteristics application))

-- the loop over `root.iter_mut()`; where it returns, the rest stays, and at its end it pushes
unfoldable pub update_root : Bytes → Characteristic → List Characteristic → List Characteristic
update_root app_id application [] = application ∷ []
update_root app_id application (c ∷ cs) =
    if has_app_id app_id c
    then replaced c application ∷ cs
    else c ∷ update_root app_id application cs

unfoldable pub update_application : WapProvisioningDoc → Bytes → Characteristic → WapProvisioningDoc
unfolding update_root
update_application doc app_id application = record {
  root = update_root app_id application doc.root;
}

unfoldable pub remove_non_application_characteristics : WapProvisioningDoc → WapProvisioningDoc
unfolding bytes_eq
remove_non_application_characteristics doc = record { root = retain is_application doc.root }

unfoldable pub add_non_application_characteristic :
    WapProvisioningDoc → Characteristic → WapProvisioningDoc
add_non_application_characteristic doc c = record { root = doc.root ++ c ∷ [] }

pub record AccessControlInfo : Type 0 where
  pub is_default_server : Bool
  pub fqdn : Bytes
  pub is_id_provider : Bool
  -- the parameters that `app_ids` iterates over
  pub root : List Parameter

abbrev is_one : Option Bytes → Bool
is_one none = false
is_one (some v) = bytes_eq v (codes "1")

-- what `AccessControl::next` returns for one child, or `none` where it passes it over
unfoldable pub access_control_info : Characteristic → Option AccessControlInfo
unfolding get_parameter bytes_eq
access_control_info c =
    let is_default = bytes_eq (characteristic_type c) (codes "DEFAULT") in
    if is_default || bytes_eq (characteristic_type c) (codes "SERVER")
    then (do
      fqdn ← get_parameter c (codes "fqdn")
      some (record {
        is_default_server = is_default;
        fqdn = fqdn;
        is_id_provider = is_one (get_parameter c (codes "id-provider"));
        root = characteristic_parameters c;
      }))
    else none

unfoldable pub access_control_infos : List Characteristic → List AccessControlInfo
unfolding access_control_info
access_control_infos [] = []
access_control_infos (c ∷ cs) = option_list (access_control_info c) ++ access_control_infos cs

-- `access_control`, with what its iterator yields
unfoldable pub access_control : WapProvisioningDoc → Option (List AccessControlInfo)
unfolding get_child_characteristic access_control_infos
access_control doc = do
  c ← get_child_characteristic doc (codes "ACCESS-CONTROL")
  some (access_control_infos (child_characteristics c))

-- what `app_ids` yields
unfoldable pub app_ids : List Parameter → List Bytes
unfolding bytes_eq
app_ids [] = []
app_ids (p ∷ ps) =
    let rest = app_ids ps in if bytes_eq p.name (codes "app-id") then p.value ∷ rest else rest

module _ (equals_bytes : EqualsBytes) where
  -- `handle_element` of `read_wap_provisioning_doc`
  unfoldable pub handle_root : Handler (List Characteristic)
  unfolding collect
  handle_root =
      collect (λ name. equals_bytes name (codes "characteristic") true) read_characteristic

  unfoldable pub read_wap_provisioning_doc : Reader → WapProvisioningDoc × Reader
  unfolding handle_root
  read_wap_provisioning_doc r =
      let w = walk handle_root (length r) 1 [] r in (record { root = w.state }, w.rest)

  -- `WapProvisioningDoc::from_str` on the events of the text; `none` is `Err("Bad XML")`
  unfoldable pub from_str : Reader → Option WapProvisioningDoc
  unfolding read_wap_provisioning_doc find_root
  from_str r = do
    found ← find_root (λ name. equals_bytes name (codes "wap-provisioningdoc") true) false r
    some (read_wap_provisioning_doc found.2).0

unfoldable pub write_wap_provisioning_doc : WapProvisioningDoc → List Event
unfolding write_characteristics
write_wap_provisioning_doc doc =
    start (element_start (codes "wap-provisioningdoc") [])
    ∷ (write_characteristics doc.root ++ end ∷ [])
