-- ===== src/Provisioning/DeviceConfiguration.antt =====
-- provisioning/device_configuration.rs: the configuration servers, and what a run of the
-- configuration reads and changes.
--
-- A run is a function of its `World`: the document that is stored for the subscriber, whether the
-- file can be written, and the answers that the network will give, in order. Only the default server
-- has a country and a network code, whose three digits stand for them here. The libraries are a
-- `Platform`: chrono, the URL parser, and the device's identities.
pub mod Handling
pub mod Requests
pub mod Start
pub mod Returns
pub mod Refusals
pub mod Statuses
pub mod Restarts
use rust_rcs_client.Common.{
  ℕ, ℤ, pos, Bool, true, false, List, [], ◌∷◌, ◌++◌, map, Option, none, some, Bytes, codes,
}
use rust_rcs_client.Core.{EqualsBytes}
use rust_rcs_client.Xml.{Reader}
use rust_rcs_client.Provisioning.WapProvisioningDoc.{AccessControlInfo}
use rust_rcs_client.Provisioning.LocalProvisioningDoc.{LocalProvisioningDoc}
use rust_rcs_client.Provisioning.LocalProvisioningDoc.RoundTrip.{stored}

pub data RetryReason : Type 0 where
  require_cellular_network_or_msisdn : RetryReason
  service_unavailable : RetryReason
  io : RetryReason
  network_io : RetryReason

pub data DeviceConfigurationStatus : Type 0 where
  invalid_argument : DeviceConfigurationStatus
  forbidden : DeviceConfigurationStatus
  retry : RetryReason → ℕ → DeviceConfigurationStatus

pub data ConfigurationServer : Type 0 where
  default_server : (mcc mnc : Bytes) → ConfigurationServer
  pre_configured_default : (id http https : Bytes) → ConfigurationServer
  additional : (fqdn : Bytes) → (is_id_provider : Bool) → ConfigurationServer

abbrev default_host : Bytes → Bytes → Bytes
default_host mcc mnc =
    codes "config.rcs.mnc" ++ mnc ++ codes ".mcc" ++ mcc ++ codes ".pub.3gppnetwork.org"

unfoldable pub identifier : ConfigurationServer → Bytes
identifier (default_server mcc mnc) = default_host mcc mnc
identifier (pre_configured_default id http https) = id
identifier (additional fqdn is_id_provider) = fqdn

unfoldable pub http_uri : ConfigurationServer → Bytes
http_uri (default_server mcc mnc) = codes "http://" ++ default_host mcc mnc
http_uri (pre_configured_default id http https) = http
http_uri (additional fqdn is_id_provider) = codes "http://" ++ fqdn

unfoldable pub https_uri : ConfigurationServer → Bytes
https_uri (default_server mcc mnc) = codes "https://" ++ default_host mcc mnc
https_uri (pre_configured_default id http https) = https
https_uri (additional fqdn is_id_provider) = codes "https://" ++ fqdn

-- the matches on the server that give "yes" or `true` to the default ones
unfoldable pub is_default : ConfigurationServer → Bool
is_default (default_server mcc mnc) = true
is_default (pre_configured_default id http https) = true
is_default (additional fqdn is_id_provider) = false

pub record Platform (DateTime : Type 0) : Type 0 where
  pub equals_bytes : EqualsBytes
  pub parse_rfc3339 : Bytes → Option DateTime
  -- `t > Utc::now()`
  pub is_ahead : DateTime → Bool
  -- `(Utc::now() + Duration::seconds(n)).to_rfc3339()`, where it does not panic
  pub after : ℤ → Bytes
  -- whether the duration and the sum are in chrono's range, outside of which they panic
  pub has_time : ℤ → Bool
  -- whether `Url::parse` takes it
  pub is_url : Bytes → Bool
  pub is_valid_three_digits : Bytes → Bool
  pub imei : Bytes
  pub imsi : Bytes

pub record Request : Type 0 where
  pub uri : Bytes
  -- the `X-3GPP-Intended-Identity`, without its `tel:`
  pub intended_identity : Option Bytes
  pub authorization : Option Bytes
  pub cookies : List Bytes

-- A response as the client reads it. `cookies` is what the jar makes of the `Set-Cookie` headers,
-- `body` the events of a body that can be read and is text, `retry_after` each such header as
-- `to_int` reads it, and `answer` what the GBA library makes of the challenge, with the header value
-- that the answer gives. The one-time passwords are those that arrive within 64 seconds, of the policy
-- of a document and of the cookies.
pub record Response : Type 0 where
  pub status_code : ℕ
  pub cookies : List Bytes
  pub body : Option Reader
  pub retry_after : List (Option ℕ)
  pub answer : Option (Option Bytes)
  pub policy_otp : Option Bytes
  pub cookie_otp : Option Bytes

-- `none` among the answers is a connection that fails; so is every one behind the last.
pub record World : Type 0 where
  pub stored_doc : Option LocalProvisioningDoc
  pub writable : Bool
  pub answers : List (Option Response)
  -- those sent so far
  pub requests : List Request
  -- the arguments of the progress callback
  pub progress : List ℕ

pub data Reply : Type 0 where
  ok : Option Bytes → Reply
  err : DeviceConfigurationStatus → Reply
  -- a time out of chrono's range
  panics : Reply

-- what a call returns, with the world it leaves; `none` where the fuel does not suffice
abbrev pub Outcome : Type 0
Outcome = Option (Reply × World)

-- `start_auto_config_for_server`
abbrev pub Starting : Type 0
Starting = ConfigurationServer → Option AccessControlInfo → Option Bytes → World → Outcome

-- `?` on a result
unfoldable pub and_then : Outcome → (Option Bytes → World → Outcome) → Outcome
and_then none f = none
and_then (some (ok user, w)) f = f user w
and_then (some (err e, w)) f = some (err e, w)
and_then (some (panics, w)) f = some (panics, w)

-- `Err(DeviceConfigurationStatus::Retry(RetryReason::NetworkIO, 0))`
abbrev pub network_failure : World → Outcome
network_failure w = some (err (retry network_io 0), w)

unfoldable pub tail_answers : List (Option Response) → List (Option Response)
tail_answers [] = []
tail_answers (a ∷ answers) = answers

unfoldable pub next_answer : List (Option Response) → Option Response
next_answer [] = none
next_answer (a ∷ answers) = a

-- a request goes out only over a connection
unfoldable pub recorded : Option Response → Request → List Request → List Request
recorded none req requests = requests
recorded (some resp) req requests = requests ++ req ∷ []

-- the world behind `connect` and `send`
unfoldable pub sent : Request → World → World
unfolding tail_answers next_answer recorded
sent req w = record w {
  answers = tail_answers w.answers;
  requests = recorded (next_answer w.answers) req w.requests;
}

-- what `load_provisionging_doc` reads of a file once `doc` is written to it
abbrev pub read_back : LocalProvisioningDoc → LocalProvisioningDoc
read_back doc = record { root = map stored doc.root }

-- `store_provisionging_doc`, with `Ok` of the number provided or the error of the file system
unfoldable pub store : Option Bytes → LocalProvisioningDoc → World → Reply × World
store provided doc w = elim w.writable [
  | true ↦ (ok provided, record w { stored_doc = some (read_back doc) })
  | false ↦ (err (retry io 0), w)
]
