-- ===== src/Provisioning/DeviceConfiguration/Statuses.antt =====
-- What the configuration makes of the status codes of its requests.
use rust_rcs_client.Common.{
  ℕ, ℤ, Bool, true, false, List, [], ◌∷◌, ◌++◌, Option, none, some, ◌≡◌, ◌≢◌, refl, sym, ◌∙◌, arith,
  Bytes, ◌==◌, if◌then◌else◌,
}
use rust_rcs_client.Provisioning.WapProvisioningDoc.{AccessControlInfo}
use rust_rcs_client.Provisioning.DeviceConfiguration.{
  require_cellular_network_or_msisdn, service_unavailable, network_io, DeviceConfigurationStatus,
  forbidden, retry, ConfigurationServer, http_uri, Platform, Request, Response, World, err, Outcome,
  Starting, network_failure, next_answer, tail_answers, sent,
}
use rust_rcs_client.Provisioning.DeviceConfiguration.Requests.{
  on_response, request, on_unavailable, on_forbidden, on_https_response, https_request,
  try_https_with_answer, on_challenge, try_https_configuration_request, on_http_response,
  try_initial_http_request, current_token,
}

-- the first number among the `Retry-After` headers
abbrev first_number : List (Option ℕ) → Option ℕ
first_number [] = none
first_number (some n ∷ more) = some n
first_number (none ∷ more) = first_number more

-- The failure that a status stands for: 403 is final where the HTTP request showed by its cookies that
-- the network knows the subscriber, and else asks for such a network; 503 is a later try, if it says
-- when; everything else is a fault of the network.
abbrev pub failure_of : Bool → ℕ → Option ℕ → DeviceConfigurationStatus
failure_of known status after =
    if status == 403
    then (if known then forbidden else retry require_cellular_network_or_msisdn 0)
    else if status == 503
    then elim after [ some seconds ↦ retry service_unavailable seconds | none ↦ retry network_io 0 ]
    else retry network_io 0

on_unavailable_first :
    (after : List (Option ℕ)) (w : World)
    → on_unavailable after w
      ≡ some (
        err (elim (first_number after) [
          | some seconds ↦ retry service_unavailable seconds
          | none ↦ retry network_io 0
        ]),
        w,
      )
unfolding on_unavailable
on_unavailable_first [] w = refl
on_unavailable_first (some seconds ∷ more) w = refl
on_unavailable_first (none ∷ more) w = on_unavailable_first more w

on_forbidden_known :
    (known : Bool) (w : World)
    → on_forbidden known w
      ≡ some (err (if known then forbidden else retry require_cellular_network_or_msisdn 0), w)
unfolding on_forbidden
on_forbidden_known true w = refl
on_forbidden_known false w = refl

-- the world behind a request that was answered
abbrev pub answered : World → List (Option Response) → List Request → World
answered w rest requests = record w { answers = rest; requests = requests }

module _ {DateTime : Type 0} (platform : Platform DateTime) where
  -- A request that can be sent and is answered.
  request_answered :
      (req : Request) (f : Response → World → Outcome) (w : World) (resp : Response)
      (rest : List (Option Response))
      → platform.is_url req.uri ≡ true
      → w.answers ≡ some resp ∷ rest
      → request platform req f w ≡ f resp (answered w rest (w.requests ++ req ∷ []))
  unfolding request on_response sent next_answer tail_answers
  request_answered req f w resp rest good e = rw (good, request) (rw (e, on_response) refl)

  module _ (self : Starting) (server : ConfigurationServer) (access : Option AccessControlInfo)
      (msisdn : Option Bytes) where
    on_https_response-failure :
        (known : Bool) (unauthorized : Response → World → Outcome) (resp : Response) (w : World)
        → resp.status_code ≢ 200
        → resp.status_code ≢ 401
        → resp.status_code ≢ 511
        → on_https_response platform self server access msisdn known unauthorized resp w
          ≡ some (err (failure_of known resp.status_code (first_number resp.retry_after)), w)
    unfolding on_https_response
    on_https_response-failure known unauthorized resp w a b c =
        rw (on_unavailable_first resp.retry_after w, on_forbidden_known known w)
          (ground (arith, a, b, c))

    module _ (vers : ℤ) (token : Option Bytes) (cookies : List Bytes) (known : Bool) where
      abbrev pub plain : Request
      plain = https_request platform self server access msisdn vers token cookies known none

      -- A challenge is answered once. A 401 whose challenge the GBA library answers is followed by the
      -- same request with the answer; if that is a 401 again, the configuration fails as for a fault
      -- of the network, with no third request.
      pub try_https_configuration_request-challenge :
          (w : World) (challenge again : Response) (rest : List (Option Response))
          (authorization : Option Bytes)
          → platform.is_url plain.uri ≡ true
          → w.answers ≡ some challenge ∷ (some again ∷ rest)
          → challenge.status_code ≡ 401
          → challenge.answer ≡ some authorization
          → again.status_code ≡ 401
          → try_https_configuration_request platform self server access msisdn vers token cookies
              known w
            ≡ some (
              err (retry network_io 0),
              answered w rest (
                  (w.requests ++ plain ∷ [])
                  ++ record plain { authorization = authorization } ∷ []),
            )
      unfolding try_https_configuration_request try_https_with_answer on_challenge on_https_response
          https_request
      try_https_configuration_request-challenge w challenge again rest authorization good e c a d =
          let first = answered w (some again ∷ rest) (w.requests ++ plain ∷ []) in
          request_answered plain
            (on_https_response platform self server access msisdn known
              (on_challenge platform self server access msisdn vers token cookies known))
            w challenge (some again ∷ rest) good e
          ∙ (rw (c, a)
              (request_answered (record plain { authorization = authorization })
                  (on_https_response platform self server access msisdn known
                    (λ resp w'. network_failure w'))
                  first again rest good refl
                ∙ rw d refl))

    -- Where the HTTP request succeeds and the HTTPS request fails, with a status that is neither a
    -- success, a challenge nor a refused token, the configuration fails as that status says. Whether
    -- 403 is final depends on the HTTP response: it is if that set cookies.
    pub try_initial_http_request-failure :
        (vers : ℤ) (token : Option (Bytes × DateTime)) (w : World) (initial final : Response)
        (rest : List (Option Response))
        → platform.is_url (http_uri server) ≡ true
        → platform.is_url
            (https_request platform self server access msisdn vers
              (current_token platform self server access msisdn token)
              initial.cookies
              false
              none).uri
          ≡ true
        → w.answers ≡ some initial ∷ (some final ∷ rest)
        → initial.status_code ≡ 200
        → final.status_code ≢ 200
        → final.status_code ≢ 401
        → final.status_code ≢ 511
        → (known : Bool) → known ≡ (elim initial.cookies [ [] ↦ false | c ∷ cs ↦ true ])
        → (requests : List Request) × (try_initial_http_request platform self server access msisdn
              vers token w
            ≡ some (
              err (failure_of known final.status_code (first_number final.retry_after)),
              answered w rest requests,
            ))
    unfolding try_initial_http_request on_http_response try_https_configuration_request
    try_initial_http_request-failure vers token w initial final rest http https e ok' a b c known
          k =
        let here : Request = record {
          uri = http_uri server;
          intended_identity = none;
          authorization = none;
          cookies = [];
        } in
        let there =
          https_request platform self server access msisdn vers
            (current_token platform self server access msisdn token) initial.cookies known none in
        let first = answered w (some final ∷ rest) (w.requests ++ here ∷ []) in
        (
          (w.requests ++ here ∷ []) ++ there ∷ [],
          request_answered here (on_http_response platform self server access msisdn vers token) w
                initial (some final ∷ rest) http e
              ∙ rw (ok', sym k)
                  (request_answered there
                      (on_https_response platform self server access msisdn known (
                        on_challenge platform self server access msisdn vers _ initial.cookies
                          known))
                      first final rest https refl
                    ∙ on_https_response-failure known
                        (on_challenge platform self server access msisdn vers
                          (current_token platform self server access msisdn token) initial.cookies
                          known)
                        final _ a b c),
        )
