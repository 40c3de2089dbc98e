-- ===== src/Provisioning/DeviceConfiguration/Returns/Requests.antt =====
-- The requests of a configuration return, if the starts below them do: each takes one answer of the
-- network before it can start anything again.
use rust_rcs_client.Common.{
  ℕ, suc, ◌+◌, ◌≤◌, ◌<◌, ℤ, Bool, true, false, ◌||◌, List, [], ◌∷◌, Option, none, some, ◌≡◌, refl,
  ap, inl, inr, arith, Bytes, length, Bool-cases, Option-cases, ◌==◌, if◌then◌else◌,
}
use rust_rcs_client.Provisioning.WapProvisioningDoc.{
  WapProvisioningDoc, AccessControlInfo, get_sms_policy,
}
use rust_rcs_client.Provisioning.LocalProvisioningDoc.{unlink_token}
use rust_rcs_client.Provisioning.DeviceConfiguration.{
  ConfigurationServer, is_default, identifier, Platform, Request, Response, World, err, retry,
  network_io, Outcome, Starting, network_failure, next_answer, tail_answers, sent, read_back,
}
use rust_rcs_client.Provisioning.DeviceConfiguration.Requests.{
  on_response, request, doc_of, on_doc, on_otp_response, try_otp_configuration_request, on_otp,
  on_cookies, report_port, on_success_doc, on_success, on_token_refused, on_unavailable,
  on_forbidden, on_https_response, try_https_with_answer, on_challenge,
  try_https_configuration_request, on_http_response, try_initial_http_request,
}
use rust_rcs_client.Provisioning.DeviceConfiguration.Returns.{
  Returns, returned, rank, AllReturn, weaken, handle_config_for_server-Returns,
}

abbrev fails : (w : World) → Returns (length w.answers) (network_failure w)
fails w = returned (err (retry network_io 0)) w (omega arith)

if-Returns :
    (n : ℕ) (b : Bool) (x y : Outcome) → Returns n x → Returns n y → Returns n (if b then x else y)
if-Returns n true x y h k = h
if-Returns n false x y h k = k

module _ (k n : ℕ) where
  -- a handler of a response, with an answer gone
  abbrev Handles : (Response → World → Outcome) → Type 0
  Handles f =
      (resp : Response) (w : World)
      → k + length w.answers < n
      → Returns (length w.answers) (f resp w)

  on_response-Returns :
      (req : Request) (f : Response → World → Outcome) (answers : List (Option Response))
      (w : World)
      → Handles f
      → answers ≡ w.answers
      → k + length answers ≤ n
      → Returns
          (length answers)
          (on_response (next_answer answers) f (sent req (record w { answers = answers })))
  unfolding on_response sent next_answer tail_answers
  on_response-Returns req f [] w handles e h = returned _ _ (omega arith)
  on_response-Returns req f (none ∷ answers) w handles e h = returned _ _ (omega arith)
  on_response-Returns req f (some resp ∷ answers) w handles e h =
      weaken (length answers) (suc (length answers)) _ (omega arith) (handles resp _ (omega arith))

  module _ {DateTime : Type 0} (platform : Platform DateTime) where
    request-Returns :
        (req : Request) (f : Response → World → Outcome) (w : World)
        → Handles f
        → k + length w.answers ≤ n
        → Returns (length w.answers) (request platform req f w)
    unfolding request
    request-Returns req f w handles h = elim (Bool-cases (platform.is_url req.uri)) [
      | inl good ↦ rw (good, request) (on_response-Returns req f w.answers w handles refl h)
      | inr bad ↦ rw (bad, request) (fails w)
    ]

on_unavailable-Returns :
    (after : List (Option ℕ)) (w : World) → Returns (length w.answers) (on_unavailable after w)
unfolding on_unavailable
on_unavailable-Returns [] w = fails w
on_unavailable-Returns (some seconds ∷ more) w = returned _ w (omega arith)
on_unavailable-Returns (none ∷ more) w = on_unavailable-Returns more w

on_forbidden-Returns :
    (cellular : Bool) (w : World) → Returns (length w.answers) (on_forbidden cellular w)
unfolding on_forbidden
on_forbidden-Returns true w = returned _ w (omega arith)
on_forbidden-Returns false w = returned _ w (omega arith)

report_port_answers : (port : ℕ) (w : World) → (report_port port w).answers ≡ w.answers
unfolding report_port
report_port_answers port w = elim (Bool-cases (port == 0)) [
  | inl zero ↦ rw (zero, report_port) refl
  | inr other ↦ rw (other, report_port) refl
]

module _ {DateTime : Type 0} (platform : Platform DateTime) (self : Starting) (n : ℕ)
    (all : AllReturn self n) (server : ConfigurationServer) (access : Option AccessControlInfo)
    (msisdn : Option Bytes) where
  -- the worlds from which a further start still returns
  abbrev Below : World → Type 0
  Below w = rank server + length w.answers < n

  on_doc-Returns :
      (doc : Option WapProvisioningDoc) (w : World)
      → Below w
      → Returns (length w.answers) (on_doc platform self server access msisdn doc w)
  unfolding on_doc
  on_doc-Returns none w h = fails w
  on_doc-Returns (some doc) w h =
      handle_config_for_server-Returns platform server access self n all msisdn doc w (omega arith)

  on_otp_response-Returns :
      Handles (rank server) n (on_otp_response platform self server access msisdn)
  unfolding on_otp_response
  on_otp_response-Returns resp w h = elim (Bool-cases (resp.status_code == 200)) [
    | inl good ↦ rw (good, on_otp_response) (on_doc-Returns (doc_of platform resp) w h)
    | inr bad ↦ rw (bad, on_otp_response) (fails w)
  ]

  on_otp-Returns :
      (otp : Option Bytes) (cookies : List Bytes) (otherwise : World → Outcome) (w : World)
      → Below w
      → Returns (length w.answers) (otherwise w)
      → Returns
          (length w.answers)
          (on_otp platform self server access msisdn otp cookies otherwise w)
  unfolding on_otp try_otp_configuration_request
  on_otp-Returns none cookies otherwise w h k = k
  on_otp-Returns (some otp) cookies otherwise w h k =
      request-Returns (rank server) n platform _ _ w on_otp_response-Returns (omega arith)

  on_cookies-Returns : Handles (rank server) n (on_cookies platform self server access msisdn)
  unfolding on_cookies
  on_cookies-Returns resp w h =
      elim resp.cookies
        as (λ (cookies : List Bytes). Returns (length w.answers) (elim cookies [
          | [] ↦ network_failure w
          | c ∷ cs ↦
              on_otp platform self server access msisdn resp.cookie_otp (c ∷ cs) network_failure w
        ])) [
          | [] ↦ fails w
          | c ∷ cs ↦ on_otp-Returns resp.cookie_otp (c ∷ cs) network_failure w h (fails w)
        ]

  on_success_doc-Returns :
      (resp : Response) (doc : WapProvisioningDoc) (w : World)
      → Below w
      → Returns (length w.answers) (on_success_doc platform self server access msisdn resp doc w)
  unfolding on_success_doc
  on_success_doc-Returns resp doc w h = elim (Option-cases (get_sms_policy doc)) [
    | inl plain ↦
        rw (plain, on_success_doc)
          (handle_config_for_server-Returns platform server access self n all msisdn doc w
            (omega arith))
    | inr (port, policy) ↦
        let w' = report_port port w in
        let kept = ap length (report_port_answers port w) in
        rw (policy, on_success_doc)
          (weaken (length w'.answers) (length w.answers) _ (omega arith) (
            on_otp-Returns resp.policy_otp resp.cookies _ w' (omega arith)
              (on_cookies-Returns resp w' (omega arith))))
  ]

  on_success-Returns : Handles (rank server) n (on_success platform self server access msisdn)
  unfolding on_success
  on_success-Returns resp w h = elim (Option-cases (doc_of platform resp)) [
    | inl bad ↦ rw (bad, on_success) (on_cookies-Returns resp w h)
    | inr (doc, good) ↦ rw (good, on_success) (on_success_doc-Returns resp doc w h)
  ]

  on_token_refused-Returns :
      (w : World)
      → Below w
      → Returns (length w.answers) (on_token_refused platform self server access msisdn w)
  unfolding on_token_refused
  on_token_refused-Returns w h = elim (Option-cases w.stored_doc) [
    | inl bare ↦ rw (bare, on_token_refused) (fails w)
    | inr (doc, there) ↦ elim (Bool-cases w.writable) [
      | inl can ↦
          rw (there, can, on_token_refused)
            (all server access msisdn
              (record w {
                stored_doc =
                    some (read_back (unlink_token doc (is_default server) (identifier server)));
              })
              h)
      | inr cannot ↦ rw (there, cannot, on_token_refused) (returned _ w (omega arith))
    ]
  ]

  on_https_response-Returns :
      (cellular : Bool) (unauthorized : Response → World → Outcome)
      → Handles (rank server) n unauthorized
      → Handles
          (rank server)
          n
          (on_https_response platform self server access msisdn cellular unauthorized)
  unfolding on_https_response
  on_https_response-Returns cellular unauthorized u resp w h =
      if-Returns _ (resp.status_code == 200) _ _ (on_success-Returns resp w h) (
        if-Returns _ (resp.status_code == 401) _ _ (u resp w h) (
          if-Returns _ (resp.status_code == 403) _ _ (on_forbidden-Returns cellular w) (
            if-Returns _ (resp.status_code == 503) _ _ (on_unavailable-Returns resp.retry_after w) (
              if-Returns _ (resp.status_code == 511) _ _ (on_token_refused-Returns w h)
                (fails w)))))

  module _ (vers : ℤ) (token : Option Bytes) (cookies : List Bytes) (cellular : Bool) where
    on_challenge-Returns :
        Handles
          (rank server)
          n
          (on_challenge platform self server access msisdn vers token cookies cellular)
    unfolding on_challenge try_https_with_answer
    on_challenge-Returns resp w h = elim (Option-cases resp.answer) [
      | inl bad ↦ rw (bad, on_challenge) (fails w)
      | inr (authorization, good) ↦
          rw (good, on_challenge)
            (request-Returns (rank server) n platform _ _ w
              (on_https_response-Returns cellular _ (λ r w' k. fails w')) (omega arith))
    ]

    try_https-Returns :
        (w : World)
        → rank server + length w.answers ≤ n
        → Returns (length w.answers) (
            try_https_configuration_request platform self server access msisdn vers token cookies
              cellular w)
    unfolding try_https_configuration_request
    try_https-Returns w h =
        request-Returns (rank server) n platform _ _ w
          (on_https_response-Returns cellular _ on_challenge-Returns) h

  on_http_response-Returns :
      (vers : ℤ) (token : Option (Bytes × DateTime))
      → Handles (rank server) n (on_http_response platform self server access msisdn vers token)
  unfolding on_http_response
  on_http_response-Returns vers token resp w h =
      if-Returns _ (resp.status_code == 200) _ _
        (try_https-Returns vers _ resp.cookies _ w (omega arith))
        (if-Returns _ (resp.status_code == 403) _ _ (returned _ w (omega arith)) (
          if-Returns _ (resp.status_code == 408 || resp.status_code == 511) _ _
            (try_https-Returns vers _ [] false w (omega arith)) (fails w)))

  pub try_initial_http_request-Returns :
      (vers : ℤ) (token : Option (Bytes × DateTime)) (w : World)
      → rank server + length w.answers ≤ n
      → Returns
          (length w.answers)
          (try_initial_http_request platform self server access msisdn vers token w)
  unfolding try_initial_http_request
  try_initial_http_request-Returns vers token w h =
      request-Returns (rank server) n platform _ _ w (on_http_response-Returns vers token) h
