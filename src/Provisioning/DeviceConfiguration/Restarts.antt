-- ===== src/Provisioning/DeviceConfiguration/Restarts.antt =====
-- A server that refuses every token: the configuration starts again each time.
use rust_rcs_client.Common.{
  ℕ, zero, suc, pos, Bool, true, false, List, [], ◌∷◌, ◌++◌, Option, none, some, Bytes, ◌≡◌, refl,
  ◌∙◌,
}
use rust_rcs_client.Provisioning.WapProvisioningDoc.{AccessControlInfo}
use rust_rcs_client.Provisioning.LocalProvisioningDoc.{
  find_info, get_provisioning_info, unlink_token,
}
use rust_rcs_client.Provisioning.DeviceConfiguration.{
  ConfigurationServer, http_uri, Platform, Request, Response, World, Outcome, Starting, sent,
  next_answer,
}
use rust_rcs_client.Provisioning.DeviceConfiguration.Requests.{
  https_configuration_uri, request, on_response, on_token_refused, on_https_response, on_challenge,
  try_https_configuration_request, on_http_response, try_initial_http_request, current_token,
  https_request,
}
use rust_rcs_client.Provisioning.DeviceConfiguration.Start.{
  start_auto_config_for_server, start_auto_config_for_server_inner, start_found, stored_info,
}

module _ {DateTime : Type 0} (platform : Platform DateTime) (server : ConfigurationServer)
    (access : Option AccessControlInfo) (msisdn : Option Bytes) (first refusal : Response) where
  -- the two answers of each start, for so many starts
  abbrev pub refusing : ℕ → List (Option Response)
  refusing zero = []
  refusing (suc f) = some first ∷ (some refusal ∷ refusing f)

  -- a document without entries is stored
  abbrev pub with_answers : List (Option Response) → List Request → List ℕ → World
  with_answers answers requests progress = record {
    stored_doc = some (record { root = [] });
    writable = true;
    answers = answers;
    requests = requests;
    progress = progress;
  }

  module _ (self : Starting) where
    request-answered :
        (req : Request) (r : Response) (f : Response → World → Outcome)
        (answers : List (Option Response)) (requests : List Request) (progress : List ℕ)
        → platform.is_url req.uri ≡ true
        → request platform req f (with_answers (some r ∷ answers) requests progress)
          ≡ f r (with_answers answers (requests ++ req ∷ []) progress)
    unfolding request on_response sent next_answer
    request-answered req r f answers requests progress url = rw (url, request) refl

    on_https_response-refusal :
        (cellular : Bool) (unauthorized : Response → World → Outcome) (w : World)
        → refusal.status_code ≡ 511
        → on_https_response platform self server access msisdn cellular unauthorized refusal w
          ≡ on_token_refused platform self server access msisdn w
    unfolding on_https_response
    on_https_response-refusal cellular unauthorized w refused = rw refused refl

    on_token_refused-restart :
        (answers : List (Option Response)) (requests : List Request) (progress : List ℕ)
        → on_token_refused platform self server access msisdn
            (with_answers answers requests progress)
          ≡ self server access msisdn (with_answers answers requests progress)
    unfolding on_token_refused unlink_token
    on_token_refused-restart answers requests progress = refl

    abbrev initial : Request
    initial = record {
      uri = http_uri server;
      intended_identity = none;
      authorization = none;
      cookies = [];
    }

    abbrev secure : Bool → Request
    secure cellular =
        https_request platform self server access msisdn (pos 0) none first.cookies cellular none

    https-restart :
        (cellular : Bool) (answers : List (Option Response)) (requests : List Request)
        (progress : List ℕ)
        → refusal.status_code ≡ 511
        → platform.is_url (https_configuration_uri platform server msisdn (pos 0) none) ≡ true
        → try_https_configuration_request platform self server access msisdn
            (pos 0)
            none
            first.cookies
            cellular
            (with_answers (some refusal ∷ answers) requests progress)
          ≡ self server access msisdn
              (with_answers answers (requests ++ secure cellular ∷ []) progress)
    unfolding try_https_configuration_request https_request
    https-restart cellular answers requests progress refused url =
        let challenged =
          on_challenge platform self server access msisdn (pos 0) none first.cookies cellular in
        request-answered (secure cellular) refusal
          (on_https_response platform self server access msisdn cellular challenged) answers
          requests progress url
        ∙ on_https_response-refusal cellular challenged
            (with_answers answers (requests ++ secure cellular ∷ []) progress) refused
        ∙ on_token_refused-restart answers (requests ++ secure cellular ∷ []) progress

    -- a start that goes through its two answers
    start-restart :
        (answers : List (Option Response)) (requests : List Request) (progress : List ℕ)
        → first.status_code ≡ 200
        → refusal.status_code ≡ 511
        → platform.is_url (http_uri server) ≡ true
        → platform.is_url (https_configuration_uri platform server msisdn (pos 0) none) ≡ true
        → start_auto_config_for_server_inner platform self server access msisdn
            (with_answers (some first ∷ (some refusal ∷ answers)) requests progress)
          ≡ self server access msisdn (
              with_answers answers
                ((requests ++ initial ∷ [])
                  ++ secure (elim first.cookies [ [] ↦ false | c ∷ cs ↦ true ]) ∷ [])
                progress)
    unfolding start_auto_config_for_server_inner start_found stored_info get_provisioning_info
        find_info try_initial_http_request on_http_response current_token
    start-restart answers requests progress found refused url url' =
        request-answered initial first
          (on_http_response platform self server access msisdn (pos 0) none)
          (some refusal ∷ answers) requests progress url
        ∙ rw found (https-restart _ answers (requests ++ initial ∷ []) progress refused url')

  -- Where a server, whose URIs can be parsed, answers 200 over HTTP and 511 over HTTPS, and a document
  -- without entries is stored in a file that can be written, each start starts another: no number of
  -- nested starts suffices for as many such answers.
  pub start_auto_config_for_server-restarts :
      (f : ℕ) (requests : List Request) (progress : List ℕ)
      → first.status_code ≡ 200
      → refusal.status_code ≡ 511
      → platform.is_url (http_uri server) ≡ true
      → platform.is_url (https_configuration_uri platform server msisdn (pos 0) none) ≡ true
      → start_auto_config_for_server platform f server access msisdn
          (with_answers (refusing f) requests progress)
        ≡ none
  unfolding start_auto_config_for_server
  start_auto_config_for_server-restarts zero requests progress found refused url url' = refl
  start_auto_config_for_server-restarts (suc f) requests progress found refused url url' =
      start-restart (start_auto_config_for_server platform f) (refusing f) requests progress found
        refused url url'
      ∙ start_auto_config_for_server-restarts f _ progress found refused url url'
