-- ===== src/Provisioning/LocalProvisioningDoc/Storage.antt =====
-- provisioning/local_provisioning_doc.rs: reading the stored document from XML events and writing
-- it. Opening and creating the file is left out, and so is a failing write: `load` has the events
-- of the file, and a writer returns the events written.
use rust_rcs_client.Common.{
  zero, suc, true, false, List, [], ◌∷◌, ◌++◌, Option, none, some, Bytes, codes, if◌then◌else◌,
  length, push_some, ◌>>=◌,
}
use rust_rcs_client.Core.{EqualsBytes}
use rust_rcs_client.Xml.{
  Event, BytesStart, Reader, Handler, Walked, start, end, element_start, attribute_value, walk,
  find_root,
}
use rust_rcs_client.Provisioning.WapProvisioningDoc.{
  WapProvisioningDoc, read_wap_provisioning_doc, write_wap_provisioning_doc,
}
use rust_rcs_client.Provisioning.LocalProvisioningDoc.{ProvisiongingInfo, LocalProvisioningDoc}

-- `if let (Some(default), Some(id), Some(VERS_version), Some(VERS_validity_through)) = …`
unfoldable pub info_of : BytesStart → Option WapProvisioningDoc → Option ProvisiongingInfo
unfolding attribute_value
info_of e wap_doc = do
  default ← attribute_value (codes "default") e
  id ← attribute_value (codes "id") e
  vers_version ← attribute_value (codes "VERS_version") e
  vers_validity_through ← attribute_value (codes "VERS_validity_through") e
  some (record {
    default = default;
    id = id;
    vers_version = vers_version;
    vers_validity_through = vers_validity_through;
    token_token = attribute_value (codes "TOKEN_token") e;
    token_validity_through = attribute_value (codes "TOKEN_validity_through") e;
    wap_doc = wap_doc;
  })

-- `return None` at `Eof` or an error
unfoldable pub info_at_end :
    BytesStart → Walked (Option WapProvisioningDoc) → Option ProvisiongingInfo
unfolding info_of
info_at_end e w = if w.closed then info_of e w.state else none

module _ (equals_bytes : EqualsBytes) where
  -- the `Start` arm of `read_provisionging_info`, whose loop has no `Empty` arm
  unfoldable pub handle_wap_doc : Handler (Option WapProvisioningDoc)
  handle_wap_doc e zero s r = none
  handle_wap_doc e (suc l) s r = elim (equals_bytes e.name (codes "wap-provisioningdoc") true) [
    | true ↦ let (wap, r') = read_wap_provisioning_doc equals_bytes r in some (some wap, r')
    | false ↦ none
  ]

  unfoldable pub read_provisionging_info : BytesStart → Reader → Option ProvisiongingInfo × Reader
  unfolding handle_wap_doc info_at_end
  read_provisionging_info e r =
      let w = walk handle_wap_doc (length r) 1 none r in (info_at_end e w, w.rest)

  -- the `Start` arm of `read_provisionging_doc`, whose loop has no `Empty` arm
  unfoldable pub handle_info : Handler (List ProvisiongingInfo)
  handle_info e zero s r = none
  handle_info e (suc l) s r = elim (equals_bytes e.name (codes "provisioning-info") true) [
    | true ↦ let (info, r') = read_provisionging_info e r in some (push_some s info, r')
    | false ↦ none
  ]

  unfoldable pub read_provisionging_doc : Reader → LocalProvisioningDoc × Reader
  unfolding handle_info
  read_provisionging_doc r =
      let w = walk handle_info (length r) 1 [] r in (record { root = w.state }, w.rest)

  -- `load_provisionging_doc`, on the events of the file
  unfoldable pub load_provisionging_doc : Reader → Option LocalProvisioningDoc
  load_provisionging_doc r = do
    found ← find_root (λ name. equals_bytes name (codes "provisioning-doc") true) false r
    some (read_provisionging_doc found.2).0

-- The token is written only with its validity.
token_pairs : Option Bytes → Option Bytes → List (Bytes × Bytes)
token_pairs (some token) (some through) =
    (codes "TOKEN_token", token) ∷ (codes "TOKEN_validity_through", through) ∷ []
token_pairs _ _ = []

unfoldable pub info_start : ProvisiongingInfo → BytesStart
unfolding token_pairs
info_start info = element_start (codes "provisioning-info") (
    (codes "default", info.default)
    ∷ (codes "id", info.id)
    ∷ (codes "VERS_version", info.vers_version)
    ∷ (codes "VERS_validity_through", info.vers_validity_through)
    ∷ token_pairs info.token_token info.token_validity_through)

unfoldable pub write_wap_doc : Option WapProvisioningDoc → List Event
write_wap_doc none = []
write_wap_doc (some wap) = write_wap_provisioning_doc wap

unfoldable pub write_provisioning_info : ProvisiongingInfo → List Event
write_provisioning_info info = start (info_start info) ∷ (write_wap_doc info.wap_doc ++ end ∷ [])

unfoldable pub write_infos : List ProvisiongingInfo → List Event
write_infos [] = []
write_infos (info ∷ infos) = write_provisioning_info info ++ write_infos infos

unfoldable pub write_provisionging_doc : LocalProvisioningDoc → List Event
write_provisionging_doc doc =
    start (element_start (codes "provisioning-doc") []) ∷ (write_infos doc.root ++ end ∷ [])
