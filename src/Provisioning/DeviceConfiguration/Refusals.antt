-- ===== src/Provisioning/DeviceConfiguration/Refusals.antt =====
-- A configuration server that answers with a negative version does not want the device to ask again.
use rust_rcs_client.Common.{
  ℕ, suc, ◌<◌, ◌^◌, ℤ, pos, negsuc, Bool, true, List, [], ◌∷◌, map, Option, none, some, ◌≡◌, refl,
  ap, ◌∙◌, arith, Bytes, bytes_eq_refl, parse_i64-print_i64,
}
use rust_rcs_client.Provisioning.WapProvisioningDoc.{
  WapProvisioningDoc, AccessControlInfo, get_vers_token,
}
use rust_rcs_client.Provisioning.LocalProvisioningDoc.{
  ProvisiongingInfo, LocalProvisioningDoc, days_365, is_default_info, is_addressed, find_info,
  destructure_token, destructure_provisioning_info, get_provisioning_info, unlink,
}
use rust_rcs_client.Provisioning.LocalProvisioningDoc.Queries.{get_provisioning_info-unlink}
use rust_rcs_client.Provisioning.LocalProvisioningDoc.RoundTrip.{stored, both}
use rust_rcs_client.Provisioning.DeviceConfiguration.{
  ConfigurationServer, identifier, is_default, forbidden, Platform, World, ok, err, Starting,
  and_then, read_back, store,
}
use rust_rcs_client.Provisioning.DeviceConfiguration.Handling.{
  refusal, withdrawn, store_withdrawn, store_config, provide_msisdn, handle_config_for_server,
}
use rust_rcs_client.Provisioning.DeviceConfiguration.Start.{
  stored_info, start_found, start_auto_config_for_server_inner, start_auto_config_for_server,
}
use rust_rcs_client.Provisioning.DeviceConfiguration.Requests.{try_initial_http_request}

module _ {DateTime : Type 0} (parse_rfc3339 : Bytes → Option DateTime) where
  destructure_token-both :
      (token through : Option Bytes)
      → destructure_token parse_rfc3339 (both token through) (both through token)
        ≡ destructure_token parse_rfc3339 token through
  unfolding destructure_token
  destructure_token-both none none = refl
  destructure_token-both none (some through) = refl
  destructure_token-both (some token) none = refl
  destructure_token-both (some token) (some through) = refl

  find_info-stored :
      (d : Bool) (id : Bytes) (infos : List ProvisiongingInfo)
      → find_info parse_rfc3339 d id (map stored infos) ≡ find_info parse_rfc3339 d id infos
  unfolding find_info is_addressed is_default_info destructure_provisioning_info
  find_info-stored d id [] = refl
  find_info-stored d id (info ∷ infos) =
      rw
        (
          destructure_token-both info.token_token info.token_validity_through,
          find_info-stored d id infos,
        )
        refl

  -- What is found in a document does not change when it is stored and loaded.
  pub get_provisioning_info-read_back :
      (doc : LocalProvisioningDoc) (d : Bool) (id : Bytes)
      → get_provisioning_info parse_rfc3339 (read_back doc) d id
        ≡ get_provisioning_info parse_rfc3339 doc d id
  unfolding get_provisioning_info
  get_provisioning_info-read_back doc d id = find_info-stored d id doc.root

module _ {DateTime : Type 0} (platform : Platform DateTime) (server : ConfigurationServer)
    (access : Option AccessControlInfo) where
  -- The entry of a refusal is found again, as the negative version that it is.
  stored_refusal :
      (n : ℕ) (t : DateTime)
      → n < 2 ^ 63
      → platform.parse_rfc3339 (platform.after (pos days_365)) ≡ some t
      → get_provisioning_info platform.parse_rfc3339
          (read_back (record { root = refusal platform server access (negsuc n) ∷ [] }))
          (is_default server)
          (identifier server)
        ≡ some (negsuc n, t, none, none)
  unfolding get_provisioning_info find_info is_addressed is_default_info refusal
      destructure_provisioning_info destructure_token
  stored_refusal n t small reads =
      ground (arith, bytes_eq_refl (identifier server), parse_i64-print_i64 (negsuc n) small, reads)

module _ {DateTime : Type 0} (platform : Platform DateTime) (self : Starting)
    (server : ConfigurationServer) (access : Option AccessControlInfo) (msisdn user : Option Bytes)
    (doc : WapProvisioningDoc) (w w' : World)
    (provided : provide_msisdn self msisdn server doc w ≡ some (ok user, w')) (n : ℕ) (validity : ℤ)
    (token : Option (Bytes × Option ℤ))
    (negative : get_vers_token doc ≡ some (negsuc n, validity, token))
    (can_write : w'.writable ≡ true) where
  -- the world with the document that the refusal leaves
  refused : LocalProvisioningDoc → World
  refused left = record w' { stored_doc = some (read_back left) }

  handle_refusal :
      (left : LocalProvisioningDoc)
      → withdrawn platform server access (negsuc n) w'.stored_doc ≡ some left
      → handle_config_for_server platform server access self msisdn doc w
        ≡ some (ok user, refused left)
  unfolding handle_config_for_server and_then store_config store_withdrawn store refused
  handle_refusal left e =
      rw (provided, handle_config_for_server)
        (rw (negative, store_config)
          (rw (e, store_withdrawn)
            (rw (can_write, store)
              (ap
                (λ (b : Bool).
                  some (ok user, record w' { stored_doc = some (read_back left); writable = b }))
                can_write))))

  -- Where nothing is stored for the subscriber, a configuration of a negative version is remembered:
  -- every later start of the server is Forbidden at once, and no request is sent.
  pub start_auto_config_for_server-refused :
      (t : DateTime)
      → w'.stored_doc ≡ none
      → n < 2 ^ 63
      → platform.parse_rfc3339 (platform.after (pos days_365)) ≡ some t
      → (after : World) × (handle_config_for_server platform server access self msisdn doc w
          ≡ some (ok user, after))
        × ((f : ℕ) (access' : Option AccessControlInfo) (msisdn' : Option Bytes)
            → start_auto_config_for_server platform (suc f) server access' msisdn' after
              ≡ some (err forbidden, after))
  unfolding withdrawn refused start_auto_config_for_server start_auto_config_for_server_inner
      stored_info
  start_auto_config_for_server-refused t fresh small reads =
      let left : LocalProvisioningDoc = record {
        root = refusal platform server access (negsuc n) ∷ [];
      } in
      let found = stored_refusal platform server access n t small reads in
      (refused left, handle_refusal left (rw fresh refl), λ f access' msisdn'. rw found refl)

  -- Where a document is stored, the server's entry is dropped from it, and nothing of the refusal is
  -- kept: a later start of the server finds no entry, and is one of a server that was never asked.
  pub start_auto_config_for_server-forgotten :
      (old : LocalProvisioningDoc)
      → w'.stored_doc ≡ some old
      → (after : World) × (handle_config_for_server platform server access self msisdn doc w
          ≡ some (ok user, after))
        × ((f : ℕ) (access' : Option AccessControlInfo) (msisdn' : Option Bytes)
            → start_auto_config_for_server platform (suc f) server access' msisdn' after
              ≡ try_initial_http_request platform
                  (start_auto_config_for_server platform f)
                  server
                  access'
                  msisdn'
                  (pos 0)
                  none
                  after)
  unfolding withdrawn refused start_auto_config_for_server start_auto_config_for_server_inner
      stored_info start_found
  start_auto_config_for_server-forgotten old there =
      let left = unlink old (is_default server) (identifier server) in
      let found =
        get_provisioning_info-read_back platform.parse_rfc3339 left (is_default server)
          (identifier server)
        ∙ (get_provisioning_info-unlink platform.parse_rfc3339 old (is_default server)
            (identifier server)).0 in
      (refused left, handle_refusal left (rw there refl), λ f access' msisdn'. rw found refl)
