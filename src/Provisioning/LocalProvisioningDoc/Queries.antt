-- ===== src/Provisioning/LocalProvisioningDoc/Queries.antt =====
-- What `get_provisioning_info` returns after entries were removed, or their applications updated.
use rust_rcs_client.Common.{
  ℤ, Bool, true, false, not, List, [], ◌∷◌, map, Option, none, some, ◌≡◌, ◌≢◌, refl, ap, ◌∙◌, inl,
  inr, arith, Bytes, bytes_eq_iff, if◌then◌else◌, retain, Bool-cases, ◌>>=◌, parse_i64,
}
use rust_rcs_client.Provisioning.Characteristic.{Characteristic}
use rust_rcs_client.Provisioning.WapProvisioningDoc.{WapProvisioningDoc}
use rust_rcs_client.Provisioning.LocalProvisioningDoc.{
  ProvisiongingInfo, LocalProvisioningDoc, is_default_info, is_addressed, find_info,
  destructure_token, destructure_provisioning_info, get_provisioning_info, unlink, with_application,
  update_application_in, update_application,
}

module _ {DateTime : Type 0} (parse_rfc3339 : Bytes → Option DateTime) where
  find_info-unlinked :
      (is_default : Bool) (id : Bytes) (infos : List ProvisiongingInfo)
      → find_info parse_rfc3339 is_default id
          (retain (λ info. not (is_addressed is_default id info)) infos)
        ≡ none
  unfolding find_info retain
  find_info-unlinked is_default id [] = refl
  find_info-unlinked is_default id (info ∷ infos) =
      elim (Bool-cases (is_addressed is_default id info)) [
        | inl gone ↦ rw gone (find_info-unlinked is_default id infos)
        | inr kept ↦ rw (kept, kept) (find_info-unlinked is_default id infos)
      ]

  -- Without a default flag two ids address different entries.
  addressed_once :
      (id other : Bytes) (info : ProvisiongingInfo)
      → other ≢ id
      → is_addressed false id info ≡ true
      → is_addressed false other info ≡ false
  unfolding is_addressed
  addressed_once id other info ne h =
      ground (arith, bytes_eq_iff info.id id, bytes_eq_iff info.id other)

  find_info-unlink_other :
      (id other : Bytes) (infos : List ProvisiongingInfo)
      → other ≢ id
      → find_info parse_rfc3339 false other
          (retain (λ info. not (is_addressed false id info)) infos)
        ≡ find_info parse_rfc3339 false other infos
  unfolding find_info retain
  find_info-unlink_other id other [] ne = refl
  find_info-unlink_other id other (info ∷ infos) ne =
      let rest = find_info-unlink_other id other infos ne in
      elim (Bool-cases (is_addressed false id info)) [
        | inl gone ↦ rw (gone, addressed_once id other info ne gone) rest
        | inr kept ↦ rw kept (
            ap
              (λ later.
                if is_addressed false other info
                then destructure_provisioning_info parse_rfc3339 info
                else later)
              rest)
      ]

  -- After `unlink` nothing is found under what was unlinked; where that was a plain id, every other
  -- plain id finds what it found before.
  pub get_provisioning_info-unlink :
      (doc : LocalProvisioningDoc) (is_default : Bool) (id : Bytes)
      → (get_provisioning_info parse_rfc3339 (unlink doc is_default id) is_default id ≡ none)
        × ((other : Bytes)
            → other ≢ id
            → get_provisioning_info parse_rfc3339 (unlink doc false id) false other
              ≡ get_provisioning_info parse_rfc3339 doc false other)
  unfolding get_provisioning_info unlink
  get_provisioning_info-unlink doc is_default id = (
    find_info-unlinked is_default id doc.root,
    λ other ne. find_info-unlink_other id other doc.root ne,
  )

  -- what the update makes of a result of the query
  abbrev pub with_wap :
      Bytes
      → Characteristic
      → Option (ℤ × DateTime × Option (Bytes × DateTime) × Option WapProvisioningDoc)
      → Option (ℤ × DateTime × Option (Bytes × DateTime) × Option WapProvisioningDoc)
  with_wap app_id application none = none
  with_wap app_id application (some (v, t, token, wap)) =
      some (v, t, token, with_application app_id application wap)

  -- the bind chain of `destructure_provisioning_info` over what its steps return
  abbrev destructured :
      Option ℤ
      → Option DateTime
      → Option (Option (Bytes × DateTime))
      → Option WapProvisioningDoc
      → Option (ℤ × DateTime × Option (Bytes × DateTime) × Option WapProvisioningDoc)
  destructured v t token wap = do
    version ← v
    through ← t
    token' ← token
    some (version, through, token', wap)

  destructured-with_wap :
      (app_id : Bytes) (application : Characteristic) (v : Option ℤ) (t : Option DateTime)
      (token : Option (Option (Bytes × DateTime))) (wap : Option WapProvisioningDoc)
      → destructured v t token (with_application app_id application wap)
        ≡ with_wap app_id application (destructured v t token wap)
  destructured-with_wap app_id application none t token wap = refl
  destructured-with_wap app_id application (some v) none token wap = refl
  destructured-with_wap app_id application (some v) (some t) none wap = refl
  destructured-with_wap app_id application (some v) (some t) (some token) wap = refl

  destructure-with_wap :
      (app_id : Bytes) (application : Characteristic) (info : ProvisiongingInfo)
      → destructure_provisioning_info parse_rfc3339
          (record info { wap_doc = with_application app_id application info.wap_doc })
        ≡ with_wap app_id application (destructure_provisioning_info parse_rfc3339 info)
  unfolding destructure_provisioning_info
  destructure-with_wap app_id application info =
      destructured-with_wap app_id application (parse_i64 info.vers_version)
        (parse_rfc3339 info.vers_validity_through)
        (destructure_token parse_rfc3339 info.token_token info.token_validity_through) info.wap_doc

  addressed-wap :
      (d : Bool) (id : Bytes) (info : ProvisiongingInfo) (wap : Option WapProvisioningDoc)
      → is_addressed d id (record info { wap_doc = wap }) ≡ is_addressed d id info
  unfolding is_addressed is_default_info
  addressed-wap d id info wap = refl

  find_info-update :
      (d : Bool) (id app_id : Bytes) (application : Characteristic) (infos : List ProvisiongingInfo)
      → find_info parse_rfc3339 d id (map (update_application_in d id app_id application) infos)
        ≡ with_wap app_id application (find_info parse_rfc3339 d id infos)
  unfolding find_info update_application_in
  find_info-update d id app_id application [] = refl
  find_info-update d id app_id application (info ∷ infos) =
      elim (Bool-cases (is_addressed d id info)) [
        | inl here ↦
            let wap = with_application app_id application info.wap_doc in
            rw here (
              rw (addressed-wap d id info wap ∙ here)
                (destructure-with_wap app_id application info))
        | inr later ↦ rw (later, later) (find_info-update d id app_id application infos)
      ]

  -- Updating an application changes what the same query finds in one place: the document, which has
  -- the update made, or holds just the application where there was none.
  pub get_provisioning_info-update_application :
      (doc : LocalProvisioningDoc) (d : Bool) (id app_id : Bytes) (application : Characteristic)
      → get_provisioning_info parse_rfc3339 (update_application doc d id app_id application) d id
        ≡ with_wap app_id application (get_provisioning_info parse_rfc3339 doc d id)
  unfolding get_provisioning_info update_application
  get_provisioning_info-update_application doc d id app_id application =
      find_info-update d id app_id application doc.root
