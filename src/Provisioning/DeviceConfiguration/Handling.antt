-- ===== src/Provisioning/DeviceConfiguration/Handling.antt =====
-- provisioning/device_configuration.rs: `handle_config_for_server`. The servers that the document of a
-- default server names are configured first, those that provide the identity before the others; then
-- the document is stored.
use rust_rcs_client.Common.{
  ℕ, ℤ, pos, negsuc, Bool, true, false, ◌&&◌, ◌||◌, List, [], ◌∷◌, Option, none, some, Bytes, codes,
  ltb, bytes_eq, is_positive, print_i64, retain, if◌then◌else◌,
}
use rust_rcs_client.Provisioning.Characteristic.{Characteristic, characteristic_type, get_parameter}
use rust_rcs_client.Provisioning.WapProvisioningDoc.{
  WapProvisioningDoc, AccessControlInfo, access_control, app_ids, applications, get_user_msisdn,
  get_vers_token,
}
use rust_rcs_client.Provisioning.LocalProvisioningDoc.{
  LocalProvisioningDoc, ProvisiongingInfo, days_365, unlink, update_application, update_token,
  update_vers_token, remove_non_application_characteristics_for_default_server,
  update_characteristics_for_default_server,
}
use rust_rcs_client.Provisioning.DeviceConfiguration.{
  ConfigurationServer, default_server, pre_configured_default, additional, identifier, is_default,
  Platform, World, Reply, ok, panics, Outcome, Starting, and_then, store,
}

abbrev pub or_else : Option Bytes → Option Bytes → Option Bytes
or_else none b = b
or_else (some a) b = some a

abbrev any : (Bytes → Bool) → List Bytes → Bool
any p [] = false
any p (x ∷ xs) = p x || any p xs

abbrev is_rcs_app_id : Bytes → Bool
is_rcs_app_id app_id =
    bytes_eq app_id (codes "ap2001")
    || (bytes_eq app_id (codes "ap2002")
        || bytes_eq app_id (codes "urn%3Aoma%3Amo%3Aext-3gpp-ims%3A1.0"))

unfoldable pub serves_rcs : AccessControlInfo → Bool
unfolding app_ids bytes_eq
serves_rcs info = any is_rcs_app_id (app_ids info.root)

module _ (self : Starting) (msisdn : Option Bytes) where
  -- the first loop: `provided_msisdn` is what the last of the servers provided
  unfoldable pub configure_id_providers : List AccessControlInfo → Option Bytes → World → Outcome
  unfolding serves_rcs and_then
  configure_id_providers [] provided w = some (ok provided, w)
  configure_id_providers (info ∷ infos) provided w = elim (info.is_id_provider && serves_rcs info) [
    | true ↦
        and_then (self (additional info.fqdn true) (some info) msisdn w)
          (λ user w'. configure_id_providers infos (or_else user provided) w')
    | false ↦ configure_id_providers infos provided w
  ]

  -- the second loop
  unfoldable pub configure_others : List AccessControlInfo → Option Bytes → World → Outcome
  unfolding serves_rcs and_then
  configure_others [] provided w = some (ok provided, w)
  configure_others (info ∷ infos) provided w = elim (info.is_id_provider) [
    | true ↦ configure_others infos provided w
    | false ↦ elim (serves_rcs info) [
      | true ↦
          and_then (self (additional info.fqdn false) (some info) (or_else provided msisdn) w)
            (λ user w'. configure_others infos provided w')
      | false ↦ configure_others infos provided w
    ]
  ]

  unfoldable pub configure_named : Option (List AccessControlInfo) → World → Outcome
  unfolding configure_id_providers configure_others and_then
  configure_named none w = some (ok none, w)
  configure_named (some infos) w =
      and_then (configure_id_providers infos none w)
        (λ provided w'. configure_others infos provided w')

  -- `provided_msisdn`, with the additional servers configured
  unfoldable pub provide_msisdn : ConfigurationServer → WapProvisioningDoc → World → Outcome
  unfolding configure_named access_control get_user_msisdn
  provide_msisdn (default_server mcc mnc) doc w = configure_named (access_control doc) w
  provide_msisdn (pre_configured_default id http https) doc w =
      configure_named (access_control doc) w
  provide_msisdn (additional fqdn true) doc w = some (ok (get_user_msisdn doc), w)
  provide_msisdn (additional fqdn false) doc w = some (ok none, w)

-- whether the access control that named this server lets it configure the application
unfoldable pub is_permitted : Option AccessControlInfo → Bytes → Bool
unfolding app_ids bytes_eq
is_permitted none app_id = true
is_permitted (some info) app_id = any (λ id. bytes_eq id app_id) (app_ids info.root)

unfoldable pub is_permitted_application : Option AccessControlInfo → Characteristic → Bool
unfolding is_permitted get_parameter
is_permitted_application access c = elim (get_parameter c (codes "AppID")) [
  | none ↦ false
  | some app_id ↦ is_permitted access app_id
]

unfoldable pub insert_application :
    ConfigurationServer
    → Option AccessControlInfo
    → Characteristic
    → LocalProvisioningDoc
    → LocalProvisioningDoc
unfolding is_permitted get_parameter is_default identifier update_application
insert_application server access c doc = elim (get_parameter c (codes "AppID")) [
  | none ↦ doc
  | some app_id ↦
      if is_permitted access app_id
      then update_application doc (is_default server) (identifier server) app_id c
      else doc
]

unfoldable pub insert_applications :
    ConfigurationServer
    → Option AccessControlInfo
    → List Characteristic
    → LocalProvisioningDoc
    → LocalProvisioningDoc
unfolding insert_application
insert_applications server access [] doc = doc
insert_applications server access (c ∷ cs) doc =
    insert_applications server access cs (insert_application server access c doc)

abbrev is_application : Characteristic → Bool
is_application c = bytes_eq (characteristic_type c) (codes "APPLICATION")

unfoldable pub insert_characteristics :
    List Characteristic → LocalProvisioningDoc → LocalProvisioningDoc
unfolding update_characteristics_for_default_server bytes_eq
insert_characteristics [] doc = doc
insert_characteristics (c ∷ cs) doc =
    insert_characteristics cs
      (if is_application c then doc else update_characteristics_for_default_server doc c)

-- what a new document keeps of a characteristic
unfoldable pub is_kept : ConfigurationServer → Option AccessControlInfo → Characteristic → Bool
unfolding is_permitted_application is_default bytes_eq
is_kept server access c =
    if is_application c then is_permitted_application access c else is_default server

unfoldable pub default_text : ConfigurationServer → Bytes
unfolding is_default
default_text server = if is_default server then codes "yes" else codes "no"

module _ {DateTime : Type 0} (platform : Platform DateTime) (server : ConfigurationServer)
    (access : Option AccessControlInfo) where
  abbrev seconds : ℕ → Bytes
  seconds n = platform.after (pos n)

  -- "update existing provisioning-doc"
  unfoldable pub updated :
      WapProvisioningDoc
      → ℤ
      → ℤ
      → Option (Bytes × Option ℤ)
      → LocalProvisioningDoc
      → LocalProvisioningDoc
  unfolding insert_applications insert_characteristics update_vers_token is_default identifier
      applications remove_non_application_characteristics_for_default_server
  updated doc vers validity token old =
      let dated =
        update_vers_token seconds old (is_default server) (identifier server) vers
          (platform.after validity) token in
      let inserted = insert_applications server access (applications doc) dated in
      if is_default server
      then insert_characteristics doc.root
          (remove_non_application_characteristics_for_default_server inserted)
      else inserted

  -- "creating new provisioning-doc"
  unfoldable pub created :
      WapProvisioningDoc → ℤ → ℤ → Option (Bytes × Option ℤ) → LocalProvisioningDoc
  unfolding is_kept default_text identifier update_token
  created doc vers validity token = record {
    root =
        update_token seconds token (record {
          default = default_text server;
          id = identifier server;
          vers_version = print_i64 vers;
          vers_validity_through = platform.after validity;
          token_token = none;
          token_validity_through = none;
          wap_doc = some (record { root = retain (is_kept server access) doc.root });
        })
        ∷ [];
  }

  -- the entry of a server that does not want the device to ask again
  unfoldable pub refusal : ℤ → ProvisiongingInfo
  unfolding default_text identifier
  refusal vers = record {
    default = default_text server;
    id = identifier server;
    vers_version = print_i64 vers;
    vers_validity_through = platform.after (pos days_365);
    token_token = none;
    token_validity_through = none;
    wap_doc = none;
  }

  -- what is stored where the version is 0 or below
  unfoldable pub withdrawn : ℤ → Option LocalProvisioningDoc → Option LocalProvisioningDoc
  unfolding refusal unlink is_default identifier
  withdrawn vers (some old) = some (unlink old (is_default server) (identifier server))
  withdrawn (pos n) none = none
  withdrawn (negsuc n) none = some (record { root = refusal (negsuc n) ∷ [] })

  -- the seconds for which a token holds, if it is one with a validity above 0
  unfoldable pub token_has_time : Option (Bytes × Option ℤ) → Bool
  token_has_time (some (token, some (pos n))) = if ltb 0 n then platform.has_time (pos n) else true
  token_has_time (some (token, some (negsuc n))) = true
  token_has_time (some (token, none)) = true
  token_has_time none = true

  -- The validities come from the network.
  unfoldable pub store_positive :
      Option Bytes → WapProvisioningDoc → ℤ → ℤ → Option (Bytes × Option ℤ) → World → Reply × World
  unfolding updated created store token_has_time
  store_positive provided doc vers validity token w =
      elim (platform.has_time validity && token_has_time token) [
        | false ↦ (panics, w)
        | true ↦ elim w.stored_doc [
          | some old ↦ store provided (updated doc vers validity token old) w
          | none ↦ store provided (created doc vers validity token) w
        ]
      ]

  unfoldable pub store_withdrawn :
      Option Bytes → Option LocalProvisioningDoc → World → Reply × World
  unfolding store
  store_withdrawn provided (some doc) w = store provided doc w
  store_withdrawn provided none w = (ok provided, w)

  -- behind the loops
  unfoldable pub store_config : Option Bytes → WapProvisioningDoc → World → Reply × World
  unfolding store_positive store_withdrawn withdrawn get_vers_token
  store_config provided doc w = elim (get_vers_token doc) [
    | none ↦ (ok provided, w)
    | some (vers, validity, token) ↦ elim (is_positive vers) [
      | true ↦ store_positive provided doc vers validity token w
      | false ↦ store_withdrawn provided (withdrawn vers w.stored_doc) w
    ]
  ]

  unfoldable pub handle_config_for_server :
      Starting → Option Bytes → WapProvisioningDoc → World → Outcome
  unfolding store_config provide_msisdn and_then
  handle_config_for_server self msisdn doc w =
      and_then (provide_msisdn self msisdn server doc w)
        (λ provided w'. some (store_config provided doc w'))
