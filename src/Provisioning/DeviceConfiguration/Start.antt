-- ===== src/Provisioning/DeviceConfiguration/Start.antt =====
-- provisioning/device_configuration.rs: `start_auto_config_for_server` and `start_auto_config`.
--
-- The configuration of a server starts that of the servers its document names, and starts again where
-- a token is refused; here it has fuel for so many nested starts.
use rust_rcs_client.Common.{
  ℕ, zero, suc, ℤ, pos, negsuc, Bool, true, false, ◌&&◌, List, [], ◌∷◌, Option, none, some, Bytes,
}
use rust_rcs_client.Provisioning.Characteristic.{Characteristic}
use rust_rcs_client.Provisioning.WapProvisioningDoc.{WapProvisioningDoc, AccessControlInfo}
use rust_rcs_client.Provisioning.ImsApplication.{get_ims_application}
use rust_rcs_client.Provisioning.RcsApplication.{get_rcs_application, get_to_app_ref}
use rust_rcs_client.Provisioning.LocalProvisioningDoc.{get_provisioning_info, provisioning_files}
use rust_rcs_client.Provisioning.DeviceConfiguration.{
  DeviceConfigurationStatus, invalid_argument, forbidden, ConfigurationServer, default_server,
  identifier, is_default, Platform, World, ok, err, panics, Outcome, Starting,
}
use rust_rcs_client.Provisioning.DeviceConfiguration.Handling.{handle_config_for_server}
use rust_rcs_client.Provisioning.DeviceConfiguration.Requests.{try_initial_http_request}

-- what `get_provisioning_info` returns
abbrev pub Found : Type 0 → Type 0
Found DateTime = ℤ × DateTime × Option (Bytes × DateTime) × Option WapProvisioningDoc

module _ {DateTime : Type 0} (platform : Platform DateTime) where
  -- the entry of the server in the stored document
  unfoldable pub stored_info : ConfigurationServer → World → Option (Found DateTime)
  unfolding get_provisioning_info is_default identifier
  stored_info server w = elim w.stored_doc [
    | none ↦ none
    | some doc ↦
        get_provisioning_info platform.parse_rfc3339 doc (is_default server) (identifier server)
  ]

  module _ (self : Starting) (server : ConfigurationServer) (access : Option AccessControlInfo)
      (msisdn : Option Bytes) where
    -- a version that is not below 0, whose validity is still ahead with a document, or not
    unfoldable pub start_with :
        Bool → Option (Bytes × DateTime) → Option WapProvisioningDoc → World → Outcome
    start_with true token (some doc) w =
        handle_config_for_server platform server access self msisdn doc w
    start_with true token none w =
        try_initial_http_request platform self server access msisdn (pos 0) token w
    start_with false token doc w =
        try_initial_http_request platform self server access msisdn (pos 0) token w

    unfoldable pub start_found : Option (Found DateTime) → World → Outcome
    unfolding start_with
    start_found none w = try_initial_http_request platform self server access msisdn (pos 0) none w
    start_found (some (pos n, through, token, doc)) w =
        start_with (platform.is_ahead through) token doc w
    start_found (some (negsuc n, through, token, doc)) w = some (err forbidden, w)

    unfoldable pub start_auto_config_for_server_inner : World → Outcome
    unfolding start_found stored_info
    start_auto_config_for_server_inner w = start_found (stored_info server w) w

  unfoldable pub start_auto_config_for_server : ℕ → Starting
  unfolding start_auto_config_for_server_inner
  start_auto_config_for_server zero server access msisdn w = none
  start_auto_config_for_server (suc f) server access msisdn w =
      start_auto_config_for_server_inner (start_auto_config_for_server f) server access msisdn w

  -- the first document that has the IMS application
  unfoldable pub find_ims_application : Bytes → List WapProvisioningDoc → Option Characteristic
  unfolding get_ims_application
  find_ims_application app_ref [] = none
  find_ims_application app_ref (doc ∷ docs) = elim (get_ims_application doc app_ref) [
    | some ims ↦ some ims
    | none ↦ find_ims_application app_ref docs
  ]

  -- the first RCS application whose IMS application is there
  unfoldable pub find_applications :
      List WapProvisioningDoc → List WapProvisioningDoc → Option (Characteristic × Characteristic)
  unfolding find_ims_application get_rcs_application get_to_app_ref
  find_applications docs [] = none
  find_applications docs (doc ∷ more) = elim (get_rcs_application doc) [
    | none ↦ find_applications docs more
    | some rcs ↦ elim (find_ims_application (get_to_app_ref rcs) docs) [
      | some ims ↦ some (rcs, ims)
      | none ↦ find_applications docs more
    ]
  ]

  unfoldable pub applications_in : World → Option (Characteristic × Characteristic)
  unfolding find_applications provisioning_files
  applications_in w = elim w.stored_doc [
    | none ↦ none
    | some doc ↦ find_applications (provisioning_files doc.root) (provisioning_files doc.root)
  ]

  -- what `start_auto_config` returns
  pub data Configured : Type 0 where
    configured : Option Bytes → (rcs_app ims_app : Characteristic) → Configured
    failed : DeviceConfigurationStatus → Configured
    panicked : Configured

  unfoldable pub on_configured : Outcome → Option (Configured × World)
  unfolding applications_in
  on_configured none = none
  on_configured (some (err e, w)) = some (failed e, w)
  on_configured (some (panics, w)) = some (panicked, w)
  on_configured (some (ok user, w)) = elim (applications_in w) [
    | none ↦ some (failed forbidden, w)
    | some (rcs, ims) ↦ some (configured user rcs ims, w)
  ]

  unfoldable pub start_auto_config :
      ℕ → Bytes → Bytes → Option Bytes → World → Option (Configured × World)
  unfolding start_auto_config_for_server on_configured
  start_auto_config f mcc mnc msisdn w =
      elim (platform.is_valid_three_digits mcc && platform.is_valid_three_digits mnc) [
        | true ↦
            on_configured (start_auto_config_for_server f (default_server mcc mnc) none msisdn w)
        | false ↦ some (failed invalid_argument, w)
      ]
