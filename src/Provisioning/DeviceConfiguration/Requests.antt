-- ===== src/Provisioning/DeviceConfiguration/Requests.antt =====
-- provisioning/device_configuration.rs: the three requests of a configuration. Each takes the answers
-- off the world; `self` is `start_auto_config_for_server`, which an answer 511 starts again.
use rust_rcs_client.Common.{
  ℕ, ℤ, Bool, true, false, ◌||◌, List, [], ◌∷◌, ◌++◌, Option, none, some, Bytes, codes, print_i64,
  print_ℕ, ◌==◌, if◌then◌else◌, ◌>>=◌,
}
use rust_rcs_client.Provisioning.WapProvisioningDoc.{
  WapProvisioningDoc, AccessControlInfo, default_application_port, from_str, get_sms_policy,
}
use rust_rcs_client.Provisioning.LocalProvisioningDoc.{unlink_token}
use rust_rcs_client.Provisioning.DeviceConfiguration.{
  require_cellular_network_or_msisdn, service_unavailable, io, forbidden, retry,
  ConfigurationServer, identifier, http_uri, https_uri, is_default, Platform, Request, Response,
  World, err, Outcome, Starting, network_failure, next_answer, sent, read_back,
}
use rust_rcs_client.Provisioning.DeviceConfiguration.Handling.{handle_config_for_server}

-- `if let Some(resp) = …` on the next answer, with the failure of the network in its `else`
unfoldable pub on_response : Option Response → (Response → World → Outcome) → World → Outcome
on_response none f w = network_failure w
on_response (some resp) f w = f resp w

-- `ShouldReceiveZeroPortSMS` where the port is 0
unfoldable pub report_port : ℕ → World → World
report_port port w = if port == 0 then record w { progress = w.progress ++ 1 ∷ [] } else w

-- the first `Retry-After` that is a number
unfoldable pub on_unavailable : List (Option ℕ) → World → Outcome
on_unavailable [] w = network_failure w
on_unavailable (some seconds ∷ more) w = some (err (retry service_unavailable seconds), w)
on_unavailable (none ∷ more) w = on_unavailable more w

unfoldable pub on_forbidden : Bool → World → Outcome
on_forbidden true w = some (err forbidden, w)
on_forbidden false w = some (err (retry require_cellular_network_or_msisdn 0), w)

module _ {DateTime : Type 0} (platform : Platform DateTime) where
  -- `Url::parse`, `connect` and `send`
  unfoldable pub request : Request → (Response → World → Outcome) → World → Outcome
  unfolding on_response sent next_answer
  request req f w = elim (platform.is_url req.uri) [
    | true ↦ on_response (next_answer w.answers) f (sent req w)
    | false ↦ network_failure w
  ]

  -- the document in the body of a response
  unfoldable pub doc_of : Response → Option WapProvisioningDoc
  unfolding from_str
  doc_of resp = do reader ← resp.body; from_str platform.equals_bytes reader

  abbrev pub uri_end : Bytes
  uri_end =
      codes "&Channel_ID=&rcs_version=11.0&rcs_profile=UP_2.4&provisioning_version=5.0"
      ++ codes "&app=ap2001&app=ap2002&app=urn%3Aoma%3Amo%3Aext-3gpp-ims%3A1.0"

  unfoldable pub token_part : Option Bytes → Bytes
  token_part (some token) = codes "&token=" ++ token
  token_part none = codes "&token=&SMS_port=" ++ print_ℕ default_application_port

  abbrev msisdn_part : Option Bytes → Bytes
  msisdn_part (some msisdn) = codes "&msisdn=" ++ msisdn
  msisdn_part none = codes "&msisdn="

  unfoldable pub https_configuration_uri :
      ConfigurationServer → Option Bytes → ℤ → Option Bytes → Bytes
  unfolding token_part https_uri
  https_configuration_uri server msisdn vers_version token =
      https_uri server
      ++ (codes "?vers="
          ++ (print_i64 vers_version
              ++ (codes "&IMSI="
                  ++ (platform.imsi
                      ++ (codes "&IMEI="
                          ++ (platform.imei
                              ++ (msisdn_part msisdn ++ (token_part token ++ uri_end))))))))

  module _ (self : Starting) (server : ConfigurationServer) (access : Option AccessControlInfo)
      (msisdn : Option Bytes) where
    unfoldable pub on_doc : Option WapProvisioningDoc → World → Outcome
    on_doc none w = network_failure w
    on_doc (some doc) w = handle_config_for_server platform server access self msisdn doc w

    unfoldable pub on_otp_response : Response → World → Outcome
    unfolding on_doc doc_of
    on_otp_response resp w = elim (resp.status_code == 200) [
      | true ↦ on_doc (doc_of resp) w
      | false ↦ network_failure w
    ]

    unfoldable pub try_otp_configuration_request : Bytes → List Bytes → World → Outcome
    unfolding request on_otp_response https_uri
    try_otp_configuration_request otp cookies w =
        request
          (record {
            uri = https_uri server ++ (codes "?otp=" ++ otp);
            intended_identity = msisdn;
            authorization = none;
            cookies = cookies;
          })
          on_otp_response w

    -- a one-time password that arrives in time
    unfoldable pub on_otp : Option Bytes → List Bytes → (World → Outcome) → World → Outcome
    on_otp none cookies otherwise w = otherwise w
    on_otp (some otp) cookies otherwise w = try_otp_configuration_request otp cookies w

    -- a response 200 whose document did not settle it: the cookies announce a password
    unfoldable pub on_cookies : Response → World → Outcome
    unfolding on_otp
    on_cookies resp w = elim resp.cookies [
      | [] ↦ network_failure w
      | c ∷ cs ↦ on_otp resp.cookie_otp (c ∷ cs) network_failure w
    ]

    unfoldable pub on_success_doc : Response → WapProvisioningDoc → World → Outcome
    unfolding on_cookies on_otp report_port get_sms_policy
    on_success_doc resp doc w = elim (get_sms_policy doc) [
      | some port ↦ on_otp resp.policy_otp resp.cookies (on_cookies resp) (report_port port w)
      | none ↦ handle_config_for_server platform server access self msisdn doc w
    ]

    unfoldable pub on_success : Response → World → Outcome
    unfolding on_success_doc on_cookies doc_of
    on_success resp w = elim (doc_of resp) [
      | some doc ↦ on_success_doc resp doc w
      | none ↦ on_cookies resp w
    ]

    -- 511: the token is dropped from the stored document, and the configuration starts again
    unfoldable pub on_token_refused : World → Outcome
    unfolding unlink_token is_default identifier
    on_token_refused w = elim w.stored_doc [
      | none ↦ network_failure w
      | some doc ↦
          let without = unlink_token doc (is_default server) (identifier server) in
          elim w.writable [
            | true ↦ self server access msisdn (record w { stored_doc = some (read_back without) })
            | false ↦ some (err (retry io 0), w)
          ]
    ]

    -- the response to the HTTPS request; `unauthorized` is what a 401 leads to
    unfoldable pub on_https_response :
        Bool → (Response → World → Outcome) → Response → World → Outcome
    unfolding on_success on_forbidden on_unavailable on_token_refused
    on_https_response is_over_cellular unauthorized resp w =
        if resp.status_code == 200
        then on_success resp w
        else if resp.status_code == 401
        then unauthorized resp w
        else if resp.status_code == 403
        then on_forbidden is_over_cellular w
        else if resp.status_code == 503
        then on_unavailable resp.retry_after w
        else if resp.status_code == 511
        then on_token_refused w
        else network_failure w

    module _ (vers_version : ℤ) (token : Option Bytes) (cookies : List Bytes)
        (is_over_cellular : Bool) where
      unfoldable pub https_request : Option Bytes → Request
      unfolding https_configuration_uri
      https_request authorization = record {
        uri = https_configuration_uri server msisdn vers_version token;
        intended_identity = msisdn;
        authorization = authorization;
        cookies = cookies;
      }

      -- with `digest_answer`, by the header value that it gives; a second 401 is not answered
      unfoldable pub try_https_with_answer : Option Bytes → World → Outcome
      unfolding request on_https_response https_request
      try_https_with_answer authorization w =
          request (https_request authorization)
            (on_https_response is_over_cellular (λ resp w'. network_failure w')) w

      unfoldable pub on_challenge : Response → World → Outcome
      unfolding try_https_with_answer
      on_challenge resp w = elim resp.answer [
        | none ↦ network_failure w
        | some authorization ↦ try_https_with_answer authorization w
      ]

      -- without `digest_answer`
      unfoldable pub try_https_configuration_request : World → Outcome
      unfolding request on_https_response https_request on_challenge
      try_https_configuration_request w =
          request (https_request none) (on_https_response is_over_cellular on_challenge) w

    -- a token that is still valid
    unfoldable pub current_token : Option (Bytes × DateTime) → Option Bytes
    current_token none = none
    current_token (some (token, through)) = if platform.is_ahead through then some token else none

    unfoldable pub on_http_response : ℤ → Option (Bytes × DateTime) → Response → World → Outcome
    unfolding try_https_configuration_request current_token
    on_http_response vers_version token resp w =
        if resp.status_code == 200
        then try_https_configuration_request vers_version (current_token token) resp.cookies
            (elim resp.cookies [ [] ↦ false | c ∷ cs ↦ true ]) w
        else if resp.status_code == 403
        then some (err forbidden, w)
        else if resp.status_code == 408 || resp.status_code == 511
        then try_https_configuration_request vers_version (current_token token) [] false w
        else network_failure w

    unfoldable pub try_initial_http_request : ℤ → Option (Bytes × DateTime) → World → Outcome
    unfolding request on_http_response http_uri
    try_initial_http_request vers_version token w =
        request
          (record {
            uri = http_uri server;
            intended_identity = none;
            authorization = none;
            cookies = [];
          })
          (on_http_response vers_version token) w
