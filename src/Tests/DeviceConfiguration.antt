-- ===== src/Tests/DeviceConfiguration.antt =====
-- The configuration of a device on concrete input: an operator's server that answers as it is told.
use rust_rcs_client.Common.{
  print_ℕ, ℕ, suc, pos, negsuc, true, false, List, [], ◌∷◌, ◌++◌, Option, none, some, ◌≡◌, refl,
  arith, Bytes, codes, bytes_eq, length, print_i64, print_ℕ, parse_signed, parse_magnitude, leb,
  ltb,
}
use rust_rcs_client.Provisioning.Characteristic.{characteristic, nil}
use rust_rcs_client.Provisioning.WapProvisioningDoc.{
  WapProvisioningDoc, AccessControlInfo, get_vers_token,
}
use rust_rcs_client.Provisioning.LocalProvisioningDoc.{
  LocalProvisioningDoc, days_365, find_info, is_addressed, destructure_provisioning_info,
  unlink_token_in, is_default_info,
}
use rust_rcs_client.Provisioning.DeviceConfiguration.{
  network_io, forbidden, retry, ConfigurationServer, default_server, additional, http_uri,
  https_uri, Platform, Request, Response, World, ok, err, Starting,
}
use rust_rcs_client.Provisioning.DeviceConfiguration.Handling.{
  provide_msisdn, handle_config_for_server,
}
use rust_rcs_client.Provisioning.DeviceConfiguration.Requests.{
  https_configuration_uri, try_https_configuration_request, try_initial_http_request, https_request,
  current_token,
}
use rust_rcs_client.Provisioning.DeviceConfiguration.Restarts
use rust_rcs_client.Provisioning.DeviceConfiguration.Restarts.{
  with_answers, start_auto_config_for_server-restarts,
}
use rust_rcs_client.Provisioning.DeviceConfiguration.Start.{start_auto_config_for_server}
use rust_rcs_client.Provisioning.DeviceConfiguration.Returns.{Returns}
use rust_rcs_client.Provisioning.DeviceConfiguration.Returns.Starts.{
  start_auto_config_for_server-Returns,
}
use rust_rcs_client.Provisioning.DeviceConfiguration.Refusals.{
  start_auto_config_for_server-refused, start_auto_config_for_server-forgotten,
}
use rust_rcs_client.Provisioning.DeviceConfiguration.Statuses.{
  answered, failure_of, plain, try_https_configuration_request-challenge,
  try_initial_http_request-failure,
}

-- instants are counted in characters
abbrev platform : Platform ℕ
platform = record {
  equals_bytes = λ a b ignore. bytes_eq a b;
  parse_rfc3339 = λ s. some (length s);
  is_ahead = λ t. ltb 3 t;
  after = print_i64;
  has_time = λ n. true;
  is_url = λ uri. ltb 3 (length uri);
  is_valid_three_digits = λ s. leb (length s) 3;
  imei = codes "350";
  imsi = codes "460";
}

abbrev operator : ConfigurationServer
operator = default_server (codes "460") (codes "001")

abbrev other : ConfigurationServer
other = additional (codes "b.example") false

abbrev response : ℕ → Option (Option Bytes) → List Bytes → Response
response status answer cookies = record {
  status_code = status;
  cookies = cookies;
  body = none;
  retry_after = none ∷ (some 30 ∷ []);
  answer = answer;
  policy_otp = none;
  cookie_otp = none;
}

abbrev world : Option LocalProvisioningDoc → List (Option Response) → World
world doc answers = record {
  stored_doc = doc;
  writable = true;
  answers = answers;
  requests = [];
  progress = [];
}

abbrev stored_doc : LocalProvisioningDoc
stored_doc = record {
  root =
      record {
        default = codes "no";
        id = codes "b.example";
        vers_version = codes "7";
        vers_validity_through = codes "2";
        token_token = some (codes "t");
        token_validity_through = some (codes "2027");
        wap_doc = none;
      }
      ∷ [];
}

-- a document that tells the device to stop asking
abbrev stop : WapProvisioningDoc
stop = record {
  root =
      characteristic (codes "VERS")
        (record { name = codes "version"; value = codes "-1" }
          ∷ (record { name = codes "validity"; value = codes "-1" } ∷ []))
        nil
      ∷ [];
}

-- the token is refused once, and then the network fails
abbrev refusing : World
refusing =
    world (some stored_doc) (some (response 200 none []) ∷ (some (response 511 none []) ∷ []))

start_auto_config_for_server-Returns_example :
    Returns 2 (start_auto_config_for_server platform 4 operator none none refusing)
start_auto_config_for_server-Returns_example =
    start_auto_config_for_server-Returns platform 4 operator none none refusing (omega arith)

-- The start after the refused token is the one that fails, with two requests sent in all.
restarted :
    (w : World) × (start_auto_config_for_server platform 3 other none none refusing
      ≡ some (err (retry network_io 0), w))
    × (length w.requests ≡ 2)
unfolding start_auto_config_for_server find_info is_addressed bytes_eq destructure_provisioning_info
    parse_signed parse_magnitude try_initial_http_request print_i64 print_ℕ unlink_token_in
    is_default_info
restarted = (_, refl, refl)

start_auto_config_for_server-restarts_example :
    start_auto_config_for_server platform 5 operator none none (
      with_answers platform operator none none
        (response 200 none [])
        (response 511 none [])
        (Restarts.refusing platform operator none none
          (response 200 none [])
          (response 511 none [])
          5)
        []
        [])
    ≡ none
unfolding http_uri https_configuration_uri print_i64 print_ℕ
start_auto_config_for_server-restarts_example =
    start_auto_config_for_server-restarts platform operator none none (response 200 none [])
      (response 511 none []) 5 [] [] refl refl refl refl

never : Starting
never server access msisdn w = none

start_auto_config_for_server-refused_example :
    (after : World) × (handle_config_for_server platform other none never none stop (world none [])
      ≡ some (ok none, after))
    × ((f : ℕ) (access : Option AccessControlInfo) (msisdn : Option Bytes)
        → start_auto_config_for_server platform (suc f) other access msisdn after
          ≡ some (err forbidden, after))
unfolding get_vers_token provide_msisdn parse_signed parse_magnitude
start_auto_config_for_server-refused_example =
    start_auto_config_for_server-refused platform never other none none none stop (world none [])
      (world none []) refl 0 (negsuc 0) none refl refl (length (print_i64 (pos days_365))) refl
      (omega arith) refl

start_auto_config_for_server-forgotten_example :
    (after : World) × (handle_config_for_server platform other none never none stop
        (world (some stored_doc) [])
      ≡ some (ok none, after))
    × ((f : ℕ) (access : Option AccessControlInfo) (msisdn : Option Bytes)
        → start_auto_config_for_server platform (suc f) other access msisdn after
          ≡ try_initial_http_request platform
              (start_auto_config_for_server platform f)
              other
              access
              msisdn
              (pos 0)
              none
              after)
unfolding get_vers_token provide_msisdn parse_signed parse_magnitude
start_auto_config_for_server-forgotten_example =
    start_auto_config_for_server-forgotten platform never other none none none stop
      (world (some stored_doc) []) (world (some stored_doc) []) refl 0 (negsuc 0) none refl refl
      stored_doc refl

abbrev challenged : List (Option Response)
challenged =
    some (response 401 (some (some (codes "Digest"))) []) ∷ (some (response 401 none []) ∷ [])

abbrev first_request : Request
first_request = plain platform never other none none (pos 0) none [] false

try_https_configuration_request-challenge_example :
    try_https_configuration_request platform never other none none
      (pos 0)
      none
      []
      false
      (world none challenged)
    ≡ some (
      err (retry network_io 0),
      answered (world none challenged) [] (
          ([] ++ first_request ∷ [])
          ++ record first_request { authorization = some (codes "Digest") } ∷ []),
    )
unfolding https_request https_uri print_i64 print_ℕ
try_https_configuration_request-challenge_example =
    try_https_configuration_request-challenge platform never other none none (pos 0) none [] false
      (world none challenged) (response 401 (some (some (codes "Digest"))) [])
      (response 401 none []) [] (some (codes "Digest")) refl refl refl refl refl

abbrev unavailable : List (Option Response)
unavailable = some (response 200 none []) ∷ (some (response 403 none []) ∷ [])

try_initial_http_request-failure_example :
    (requests : List Request) × (try_initial_http_request platform never other none none
        (pos 0)
        none
        (world none unavailable)
      ≡ some (err (failure_of false 403 (some 30)), answered (world none unavailable) [] requests))
unfolding https_request http_uri https_uri print_i64 print_ℕ current_token
try_initial_http_request-failure_example =
    try_initial_http_request-failure platform never other none none (pos 0) none
      (world none unavailable) (response 200 none []) (response 403 none []) [] refl refl refl refl
      (ground arith) (ground arith) (ground arith) false refl
