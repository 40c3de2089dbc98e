-- ===== src/Provisioning/ImsApplication/Lookup.antt =====
-- The IMS application that is found in a document after the document has been updated.
use rust_rcs_client.Common.{true, Option, ◌≡◌, ◌≢◌, sym, ap, ◌∙◌, Bytes, codes, ◌>>=◌}
use rust_rcs_client.Provisioning.Characteristic.{Characteristic, child_characteristics}
use rust_rcs_client.Provisioning.WapProvisioningDoc.{
  WapProvisioningDoc, has_app_id, update_application, get_application_characteristic,
}
use rust_rcs_client.Provisioning.WapProvisioningDoc.Applications.{
  get_application-update_application,
}
use rust_rcs_client.Provisioning.ImsApplication.{first_ims_application, get_ims_application}

abbrev pub ims_object : Bytes
ims_object = codes "urn:oma:mo:ext-3gpp-ims:1.0"

-- An update of the IMS management object decides what IMS applications are found, and an update of
-- any other application leaves them as they are.
pub get_ims_application-update_application :
    (doc : WapProvisioningDoc) (app_id app_ref : Bytes) (application : Characteristic)
    → has_app_id app_id application ≡ true
    → (app_id ≡ ims_object
        → get_ims_application (update_application doc app_id application) app_ref
          ≡ first_ims_application app_ref (child_characteristics application))
      × (ims_object ≢ app_id
          → get_ims_application (update_application doc app_id application) app_ref
            ≡ get_ims_application doc app_ref)
unfolding get_ims_application
get_ims_application-update_application doc app_id app_ref application h =
    let (found, others) = get_application-update_application doc app_id application h in
    let look : Option Characteristic → Option Characteristic =
      λ o. o >>= λ mo. first_ims_application app_ref (child_characteristics mo) in
    (
      λ same.
          ap
            (λ id.
              look (get_application_characteristic (update_application doc app_id application) id))
            (sym same)
          ∙ ap look found,
      λ other. ap look (others ims_object other),
    )
