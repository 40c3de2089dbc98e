-- ===== src/Provisioning/LocalProvisioningDoc.antt =====
-- provisioning/local_provisioning_doc.rs: the stored document, with an entry for each configuration
-- server: its updates, its reader and its writer.
--
-- chrono is a library: `parse_rfc3339` is `DateTime::parse_from_rfc3339`, `none` for its error, and
-- `after_seconds n` the text of `(Utc::now() + Duration::seconds(n)).to_rfc3339()`; a day has 86400
-- seconds. Both the duration and the sum panic where `n` is out of chrono's range: a text stands for the
-- `n` within it, and device_configuration.rs, which hands the network's numbers on, is modelled with the
-- panic. `platform_log` is left out.
pub mod Queries
pub mod Tokens
pub mod Storage
pub mod RoundTrip
use rust_rcs_client.Common.{
  ℕ, zero, suc, ◌*◌, ℤ, pos, negsuc, Bool, true, false, not, ◌&&◌, ◌||◌, List, [], ◌∷◌, ◌++◌, map,
  Option, none, some, Bytes, codes, bytes_eq, parse_i64, print_i64, ltb, if◌then◌else◌, length,
  push_some, retain, option_list, ◌>>=◌,
}
use rust_rcs_client.Core.{EqualsBytes}
use rust_rcs_client.Xml.{
  Event, BytesStart, Reader, Handler, start, end, element_start, attribute_value, walk, find_root,
}
use rust_rcs_client.Provisioning.Characteristic.{Characteristic}
use rust_rcs_client.Provisioning.WapProvisioningDoc
use rust_rcs_client.Provisioning.WapProvisioningDoc.{
  WapProvisioningDoc, read_wap_provisioning_doc, write_wap_provisioning_doc,
}

pub record ProvisiongingInfo : Type 0 where
  pub default : Bytes
  pub id : Bytes
  pub vers_version : Bytes
  pub vers_validity_through : Bytes
  pub token_token : Option Bytes
  pub token_validity_through : Option Bytes
  pub wap_doc : Option WapProvisioningDoc

pub record LocalProvisioningDoc : Type 0 where
  pub root : List ProvisiongingInfo

unfoldable pub is_default_info : ProvisiongingInfo → Bool
unfolding bytes_eq
is_default_info info = bytes_eq info.default (codes "yes")

-- `(is_default && info.default == "yes") || info.id == id`
unfoldable pub is_addressed : Bool → Bytes → ProvisiongingInfo → Bool
is_addressed is_default id info = (is_default && is_default_info info) || bytes_eq info.id id

abbrev pub drop_token : ProvisiongingInfo → ProvisiongingInfo
drop_token info = record info { token_token = none; token_validity_through = none }

module _ {DateTime : Type 0} (parse_rfc3339 : Bytes → Option DateTime) where
  -- `if let (Some(token_string), Some(token_validity_through)) = …` with its `else`
  unfoldable pub destructure_token :
      Option Bytes → Option Bytes → Option (Option (Bytes × DateTime))
  destructure_token (some token) (some through) = do
    t ← parse_rfc3339 through
    some (some (token, t))
  destructure_token _ _ = some none

  unfoldable pub destructure_provisioning_info :
      ProvisiongingInfo
      → Option (ℤ × DateTime × Option (Bytes × DateTime) × Option WapProvisioningDoc)
  unfolding destructure_token
  destructure_provisioning_info info = do
    version ← parse_i64 info.vers_version
    through ← parse_rfc3339 info.vers_validity_through
    token ← destructure_token info.token_token info.token_validity_through
    some (version, through, token, info.wap_doc)

  -- the loop of `get_provisioning_info`: the first entry addressed decides
  unfoldable pub find_info :
      Bool
      → Bytes
      → List ProvisiongingInfo
      → Option (ℤ × DateTime × Option (Bytes × DateTime) × Option WapProvisioningDoc)
  find_info get_default id [] = none
  find_info get_default id (info ∷ infos) =
      if is_addressed get_default id info
      then destructure_provisioning_info info
      else find_info get_default id infos

  unfoldable pub get_provisioning_info :
      LocalProvisioningDoc
      → Bool
      → Bytes
      → Option (ℤ × DateTime × Option (Bytes × DateTime) × Option WapProvisioningDoc)
  get_provisioning_info doc get_default id = find_info get_default id doc.root

unfoldable pub unlink : LocalProvisioningDoc → Bool → Bytes → LocalProvisioningDoc
unlink doc is_default id = record {
  root = retain (λ info. not (is_addressed is_default id info)) doc.root;
}

-- The tokens go only where the entry is the default server's.
unfoldable pub unlink_token_in : Bool → Bytes → ProvisiongingInfo → ProvisiongingInfo
unlink_token_in is_default id info =
    if is_addressed is_default id info
    then (if is_default_info info then drop_token info else info)
    else info

unfoldable pub unlink_token : LocalProvisioningDoc → Bool → Bytes → LocalProvisioningDoc
unlink_token doc is_default id = record { root = map (unlink_token_in is_default id) doc.root }

abbrev pub with_application :
    Bytes → Characteristic → Option WapProvisioningDoc → Option WapProvisioningDoc
with_application app_id application none = some (record { root = application ∷ [] })
with_application app_id application (some wap) =
    some (WapProvisioningDoc.update_application wap app_id application)

unfoldable pub update_application_in :
    Bool → Bytes → Bytes → Characteristic → ProvisiongingInfo → ProvisiongingInfo
update_application_in is_default id app_id application info =
    if is_addressed is_default id info
    then record info { wap_doc = with_application app_id application info.wap_doc }
    else info

unfoldable pub update_application :
    LocalProvisioningDoc → Bool → Bytes → Bytes → Characteristic → LocalProvisioningDoc
update_application doc is_default id app_id application = record {
  root = map (update_application_in is_default id app_id application) doc.root;
}

abbrev pub days_365 : ℕ
days_365 = 365 * 86400

module _ (after_seconds : ℕ → Bytes) where
  -- when a token of the given validity expires: a year from now, unless the validity is above 0
  unfoldable pub token_through : Option ℤ → Bytes
  token_through (some (pos n)) = if ltb 0 n then after_seconds n else after_seconds days_365
  token_through (some (negsuc n)) = after_seconds days_365
  token_through none = after_seconds days_365

  -- the closure `update_token`
  unfoldable pub update_token : Option (Bytes × Option ℤ) → ProvisiongingInfo → ProvisiongingInfo
  update_token none info = drop_token info
  update_token (some (token_string, validity)) info = record info {
    token_token = some token_string;
    token_validity_through = some (token_through validity);
  }

  module _ (is_default : Bool) (id : Bytes) (vers : ℤ) (vers_validity_through : Bytes)
      (token : Option (Bytes × Option ℤ)) where
    -- the entry that is pushed where none is addressed
    pub new_info : ProvisiongingInfo
    unfolding update_token
    new_info = update_token token (record {
      default = if is_default then codes "yes" else codes "no";
      id = id;
      vers_version = print_i64 vers;
      vers_validity_through = vers_validity_through;
      token_token = none;
      token_validity_through = none;
      wap_doc = none;
    })

    unfoldable pub update_vers_root : List ProvisiongingInfo → List ProvisiongingInfo
    unfolding new_info update_token
    update_vers_root [] = new_info ∷ []
    update_vers_root (info ∷ infos) =
        if is_addressed is_default id info
        then update_token token (record info {
          vers_version = print_i64 vers;
          vers_validity_through = vers_validity_through;
        })
          ∷ infos
        else info ∷ update_vers_root infos

  unfoldable pub update_vers_token :
      LocalProvisioningDoc
      → Bool
      → Bytes
      → ℤ
      → Bytes
      → Option (Bytes × Option ℤ)
      → LocalProvisioningDoc
  unfolding update_vers_root
  update_vers_token doc is_default id vers through token = record {
    root = update_vers_root is_default id vers through token doc.root;
  }

-- a loop that changes the first default entry, and breaks
at_default :
    (ProvisiongingInfo → ProvisiongingInfo) → List ProvisiongingInfo → List ProvisiongingInfo
at_default change [] = []
at_default change (info ∷ infos) =
    if is_default_info info then change info ∷ infos else info ∷ at_default change infos

abbrev without_others : Option WapProvisioningDoc → Option WapProvisioningDoc
without_others none = none
without_others (some wap) = some (WapProvisioningDoc.remove_non_application_characteristics wap)

unfoldable pub remove_non_application_characteristics_for_default_server :
    LocalProvisioningDoc → LocalProvisioningDoc
unfolding at_default
remove_non_application_characteristics_for_default_server doc = record {
  root = at_default (λ info. record info { wap_doc = without_others info.wap_doc }) doc.root;
}

abbrev with_characteristic : Characteristic → Option WapProvisioningDoc → Option WapProvisioningDoc
with_characteristic c none =
    some (WapProvisioningDoc.add_non_application_characteristic (record { root = [] }) c)
with_characteristic c (some wap) =
    some (WapProvisioningDoc.add_non_application_characteristic wap c)

unfoldable pub update_characteristics_for_default_server :
    LocalProvisioningDoc → Characteristic → LocalProvisioningDoc
unfolding at_default
update_characteristics_for_default_server doc c = record {
  root = at_default (λ info. record info { wap_doc = with_characteristic c info.wap_doc }) doc.root;
}

-- what the iterator `provisioning_files` yields
unfoldable pub provisioning_files : List ProvisiongingInfo → List WapProvisioningDoc
provisioning_files [] = []
provisioning_files (info ∷ infos) = option_list info.wap_doc ++ provisioning_files infos
