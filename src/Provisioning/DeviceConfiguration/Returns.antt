-- ===== src/Provisioning/DeviceConfiguration/Returns.antt =====
-- The configuration of a server against a network that fails after so many answers: the nested starts
-- that it takes.
pub mod Requests
pub mod Starts
use rust_rcs_client.Common.{
  ℕ, zero, suc, ◌+◌, ◌≤◌, ◌<◌, ℤ, pos, negsuc, Bool, true, false, ◌&&◌, List, [], ◌∷◌, Option, none,
  some, ◌≡◌, refl, ap, is_positive, inl, inr, arith, Bytes, length, Bool-cases, Option-cases, ◌==◌,
  ◌||◌,
}
use rust_rcs_client.Provisioning.WapProvisioningDoc.{
  WapProvisioningDoc, AccessControlInfo, access_control, get_sms_policy, get_user_msisdn,
  get_vers_token,
}
use rust_rcs_client.Provisioning.DeviceConfiguration.{
  ConfigurationServer, default_server, pre_configured_default, additional, is_default, Platform,
  Request, Response, World, Reply, ok, err, panics, Outcome, Starting, and_then, tail_answers, sent,
  store, next_answer,
}
use rust_rcs_client.Provisioning.DeviceConfiguration.Handling.{
  configure_id_providers, configure_others, configure_named, provide_msisdn, store_config,
  store_positive, token_has_time, store_withdrawn, withdrawn, handle_config_for_server, serves_rcs,
  updated, created, or_else,
}
use rust_rcs_client.Provisioning.LocalProvisioningDoc.{LocalProvisioningDoc}
use rust_rcs_client.Provisioning.DeviceConfiguration.Requests.{
  on_response, request, doc_of, on_doc, on_otp_response, try_otp_configuration_request, on_otp,
  on_cookies, report_port, on_success_doc, on_success, on_token_refused, on_unavailable,
  on_forbidden, on_https_response, try_https_with_answer, on_challenge,
  try_https_configuration_request, on_http_response, try_initial_http_request,
}
use rust_rcs_client.Provisioning.DeviceConfiguration.Start.{
  start_with, start_found, start_auto_config_for_server_inner, start_auto_config_for_server,
}

-- The call returns or panics, and leaves at most `n` answers.
pub data Returns (n : ℕ) : Outcome → Type 0 where
  returned : (r : Reply) (w : World) → length w.answers ≤ n → Returns n (some (r, w))

-- how many levels of servers are below
abbrev pub rank : ConfigurationServer → ℕ
rank (default_server mcc mnc) = 1
rank (pre_configured_default id http https) = 1
rank (additional fqdn is_id_provider) = 0

-- every start below the bound returns
abbrev pub AllReturn : Starting → ℕ → Type 0
AllReturn self n =
    (server : ConfigurationServer) (access : Option AccessControlInfo) (msisdn : Option Bytes)
    (w : World)
    → rank server + length w.answers < n
    → Returns (length w.answers) (self server access msisdn w)

and_then-Returns :
    (n : ℕ) (o : Outcome) (f : Option Bytes → World → Outcome)
    → Returns n o
    → ((user : Option Bytes) (w : World) → length w.answers ≤ n → Returns n (f user w))
    → Returns n (and_then o f)
unfolding and_then
and_then-Returns n o f (returned (ok user) w h) k = k user w h
and_then-Returns n o f (returned (err e) w h) k = returned (err e) w h
and_then-Returns n o f (returned panics w h) k = returned panics w h

pub weaken : (m n : ℕ) (o : Outcome) → m ≤ n → Returns m o → Returns n o
weaken m n o h (returned r w k) = returned r w (omega arith)

module _ (self : Starting) (n : ℕ) (all : AllReturn self n) (msisdn : Option Bytes) where
  configure_id_providers-Returns :
      (infos : List AccessControlInfo) (provided : Option Bytes) (w : World)
      → length w.answers < n
      → Returns (length w.answers) (configure_id_providers self msisdn infos provided w)
  unfolding configure_id_providers
  configure_id_providers-Returns [] provided w h = returned (ok provided) w (omega arith)
  configure_id_providers-Returns (info ∷ infos) provided w h =
      elim (Bool-cases (info.is_id_provider && serves_rcs info)) [
        | inl chosen ↦
            rw (chosen, configure_id_providers)
              (and_then-Returns (length w.answers) _ _
                (all (additional info.fqdn true) (some info) msisdn w (omega arith))
                (λ user w' k.
                  weaken (length w'.answers) (length w.answers) _ k (
                    configure_id_providers-Returns infos (or_else user provided) w' (omega arith))))
        | inr passed ↦
            rw (passed, configure_id_providers) (configure_id_providers-Returns infos provided w h)
      ]

  configure_others-Returns :
      (infos : List AccessControlInfo) (provided : Option Bytes) (w : World)
      → length w.answers < n
      → Returns (length w.answers) (configure_others self msisdn infos provided w)
  unfolding configure_others
  configure_others-Returns [] provided w h = returned (ok provided) w (omega arith)
  configure_others-Returns (info ∷ infos) provided w h = elim (Bool-cases info.is_id_provider) [
    | inl first ↦ rw (first, configure_others) (configure_others-Returns infos provided w h)
    | inr other ↦ elim (Bool-cases (serves_rcs info)) [
      | inl chosen ↦
          rw (other, chosen, configure_others)
            (and_then-Returns (length w.answers) _ _
              (all (additional info.fqdn false) (some info) (or_else provided msisdn) w
                (omega arith))
              (λ user w' k.
                weaken (length w'.answers) (length w.answers) _ k
                  (configure_others-Returns infos provided w' (omega arith))))
      | inr passed ↦
          rw (other, passed, configure_others) (configure_others-Returns infos provided w h)
    ]
  ]

  configure_named-Returns :
      (infos : Option (List AccessControlInfo)) (w : World)
      → length w.answers < n
      → Returns (length w.answers) (configure_named self msisdn infos w)
  unfolding configure_named
  configure_named-Returns none w h = returned (ok none) w (omega arith)
  configure_named-Returns (some infos) w h =
      and_then-Returns (length w.answers) _ _ (configure_id_providers-Returns infos none w h)
        (λ provided w' k.
          weaken (length w'.answers) (length w.answers) _ k
            (configure_others-Returns infos provided w' (omega arith)))

  provide_msisdn-Returns :
      (server : ConfigurationServer) (doc : WapProvisioningDoc) (w : World)
      → rank server + length w.answers ≤ n
      → Returns (length w.answers) (provide_msisdn self msisdn server doc w)
  unfolding provide_msisdn
  provide_msisdn-Returns (default_server mcc mnc) doc w h =
      configure_named-Returns (access_control doc) w (omega arith)
  provide_msisdn-Returns (pre_configured_default id http https) doc w h =
      configure_named-Returns (access_control doc) w (omega arith)
  provide_msisdn-Returns (additional fqdn true) doc w h =
      returned (ok (get_user_msisdn doc)) w (omega arith)
  provide_msisdn-Returns (additional fqdn false) doc w h = returned (ok none) w (omega arith)

-- Storing takes no answers.
store_answers :
    (provided : Option Bytes) (doc : LocalProvisioningDoc) (w : World)
    → (store provided doc w).1.answers ≡ w.answers
unfolding store
store_answers provided doc w = elim (Bool-cases w.writable) [
  | inl can ↦ rw (can, store) refl
  | inr cannot ↦ rw (cannot, store) refl
]

module _ {DateTime : Type 0} (platform : Platform DateTime) (server : ConfigurationServer)
    (access : Option AccessControlInfo) where
  store_positive_answers :
      (provided : Option Bytes) (doc : WapProvisioningDoc) (vers validity : ℤ)
      (token : Option (Bytes × Option ℤ)) (w : World)
      → (store_positive platform server access provided doc vers validity token w).1.answers
        ≡ w.answers
  unfolding store_positive
  store_positive_answers provided doc vers validity token w =
      elim (Bool-cases
        (platform.has_time validity && token_has_time platform server access token)) [
          | inr never ↦ rw (never, store_positive) refl
          | inl fits ↦ elim (Option-cases w.stored_doc) [
            | inl fresh ↦
                rw (fits, fresh, store_positive)
                  (store_answers provided (created platform server access doc vers validity token)
                    w)
            | inr (old, there) ↦
                rw (fits, there, store_positive)
                  (store_answers provided
                    (updated platform server access doc vers validity token old) w)
          ]
        ]

  store_withdrawn_answers :
      (provided : Option Bytes) (doc : Option LocalProvisioningDoc) (w : World)
      → (store_withdrawn platform server access provided doc w).1.answers ≡ w.answers
  unfolding store_withdrawn
  store_withdrawn_answers provided (some doc) w = store_answers provided doc w
  store_withdrawn_answers provided none w = refl

  store_config_answers :
      (provided : Option Bytes) (doc : WapProvisioningDoc) (w : World)
      → (store_config platform server access provided doc w).1.answers ≡ w.answers
  unfolding store_config
  store_config_answers provided doc w = elim (Option-cases (get_vers_token doc)) [
    | inl bare ↦ rw (bare, store_config) refl
    | inr ((vers, validity, token), there) ↦ elim (Bool-cases (is_positive vers)) [
      | inl above ↦
          rw (there, above, store_config)
            (store_positive_answers provided doc vers validity token w)
      | inr below ↦
          rw (there, below, store_config)
            (store_withdrawn_answers provided (withdrawn platform server access vers w.stored_doc)
              w)
    ]
  ]

  pub handle_config_for_server-Returns :
      (self : Starting) (n : ℕ)
      → AllReturn self n
      → (msisdn : Option Bytes) (doc : WapProvisioningDoc) (w : World)
      → rank server + length w.answers ≤ n
      → Returns
          (length w.answers)
          (handle_config_for_server platform server access self msisdn doc w)
  unfolding handle_config_for_server
  handle_config_for_server-Returns self n all msisdn doc w h =
      and_then-Returns (length w.answers) _ _
        (provide_msisdn-Returns self n all msisdn server doc w h)
        (λ provided w' k.
          let stored = store_config platform server access provided doc w' in
          let kept = ap length (store_config_answers provided doc w') in
          returned stored.0 stored.1 (omega arith))
