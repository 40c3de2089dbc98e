-- ===== src/ChatBot/Retrieval.antt =====
-- chat_bot/mod.rs: the list of the specific chatbots, the information on a chatbot, and the search of
-- the chatbot directory. `cache_control::parse` is the core library's, `encode` is urlencoding's.
use rust_rcs_client.Common.{
  ℕ, ◌*◌, Bool, false, [], ◌∷◌, ◌++◌, Option, none, some, ◌≡◌, ◌≢◌, refl, Bytes, codes, print_ℕ,
  ◌==◌, if◌then◌else◌, arith,
}
use rust_rcs_client.Http.{
  HttpError, http, io, malformed_url, network_io, DigestAnswer, Body, Response, get, no_content,
  Sent, World, effective, authorization_of, with_connection, send, http_failure,
}

-- `RetrieveSpecificChatbotsSuccess` and `RetrieveChatbotInfoSuccess`, with the errors of both
pub data Retrieved : Type 0 where
  ok : (text : Bytes) → (etag : Option Bytes) → (expiry : ℕ) → Retrieved
  not_modified : (etag : Option Bytes) → (expiry : ℕ) → Retrieved
  err : HttpError → Retrieved

-- the result of a search
pub data Found : Type 0 where
  found : Bytes → Found
  failed : HttpError → Found

unfoldable pub error_code : HttpError → ℕ
error_code (http status_code reason_phrase) = status_code
error_code io = 0
error_code malformed_url = 0
error_code network_io = 0

unfoldable pub error_string : HttpError → Bytes
error_string (http status_code reason_phrase) = reason_phrase
error_string io = codes "IO"
error_string malformed_url = codes "MalformedUrl"
error_string network_io = codes "NetworkIO"

pub record Platform : Type 0 where
  pub is_url : Bytes → Bool
  pub is_utf8 : Bytes → Bool
  pub encode : Bytes → Bytes

unfoldable pub week : ℕ
week = 7 * (24 * (60 * 60))

unfoldable pub max_age_or : ℕ → Option ℕ → ℕ
max_age_or otherwise none = otherwise
max_age_or otherwise (some max_age) = max_age

module _ (platform : Platform) where
  -- `resp_string`, of a body that is read to its end and is text
  unfoldable pub text_of : Option Body → Option Bytes
  text_of none = none
  text_of (some body) =
      if body.complete
      then (if platform.is_utf8 body.received then some body.received else none)
      else none

  abbrev request : Bytes → Option Bytes → Option Bytes → Option DigestAnswer → Sent
  request uri local_etag msisdn digest = record {
    method = get;
    uri = uri;
    intended_identity = msisdn;
    authorization = authorization_of digest;
    range = none;
    if_none_match = local_etag;
    content = no_content;
  }

  -- a 401 is answered by `again`, unless the request had an answer, given or preloaded
  unfoldable pub on_unauthorized {ℓ} :
      {R : Type ℓ}
      → R
      → Option DigestAnswer
      → (DigestAnswer → World → R × World)
      → Response
      → World
      → R × World
  on_unauthorized otherwise (some answer) again resp w = (otherwise, w)
  on_unauthorized otherwise none again resp w = elim resp.answer [
    | some answer ↦ again answer w
    | none ↦ (otherwise, w)
  ]

  module _ (uri : Bytes) (expiry : ℕ) (local_etag msisdn : Option Bytes) where
    unfoldable pub on_retrieved : Response → Retrieved
    unfolding text_of max_age_or
    on_retrieved resp = elim (text_of resp.body) [
      | some text ↦ ok text resp.etag (max_age_or expiry resp.max_age)
      | none ↦ err network_io
    ]

    unfoldable pub on_retrieve_response :
        Option DigestAnswer
        → (DigestAnswer → World → Retrieved × World)
        → Response
        → World
        → Retrieved × World
    unfolding on_retrieved max_age_or on_unauthorized http_failure
    on_retrieve_response used again resp w =
        if resp.status_code == 200
        then (on_retrieved resp, w)
        else if resp.status_code == 304
        then (not_modified resp.etag (max_age_or expiry resp.max_age), w)
        else if resp.status_code == 401
        then on_unauthorized (err network_io) used again resp w
        else http_failure err platform.is_url resp w

    unfoldable pub retrieve_with :
        Option DigestAnswer → (DigestAnswer → World → Retrieved × World) → World → Retrieved × World
    unfolding with_connection send effective authorization_of on_retrieve_response
    retrieve_with digest again w =
        with_connection err platform.is_url uri
          (λ x.
            send err platform.is_url network_io
              (request uri local_etag msisdn (effective digest x.preloaded)) x.response
              (on_retrieve_response (effective digest x.preloaded) again))
          w

    -- each calls itself once, with the answer to the challenge
    unfoldable pub retrieve : Option DigestAnswer → World → Retrieved × World
    unfolding retrieve_with
    retrieve none w =
        retrieve_with none (λ a. retrieve_with (some a) (λ b v. (err network_io, v))) w
    retrieve (some answer) w = retrieve_with (some answer) (λ b v. (err network_io, v)) w

  unfoldable pub retrieve_specific_chatbots :
      Bytes → Option Bytes → Option Bytes → Option DigestAnswer → World → Retrieved × World
  unfolding retrieve
  retrieve_specific_chatbots specific_chatbots_list_url local_etag msisdn =
      retrieve specific_chatbots_list_url 0 local_etag msisdn

  unfoldable pub chatbot_info_uri : (bot_domain bot_id home_operator home_language : Bytes) → Bytes
  chatbot_info_uri bot_domain bot_id home_operator home_language =
      codes "https://"
      ++ (bot_domain
          ++ (codes "/bot?id="
              ++ (platform.encode bot_id
                  ++ (codes "&hl="
                      ++ (home_language ++ (codes "&ho=" ++ (home_operator ++ codes "&v=3")))))))

  unfoldable pub retrieve_chatbot_info :
      (bot_domain bot_id : Bytes)
      → (local_etag : Option Bytes) → (home_operator home_language : Bytes)
      → (msisdn : Option Bytes) → Option DigestAnswer
      → World
      → Retrieved × World
  unfolding retrieve chatbot_info_uri week
  retrieve_chatbot_info bot_domain bot_id local_etag home_operator home_language msisdn =
      retrieve (chatbot_info_uri bot_domain bot_id home_operator home_language) week local_etag
        msisdn

  -- `&start=` is followed by the text of the query.
  unfoldable pub directory_uri :
      (chatbot_directory query : Bytes) → (start : ℕ) → (num : ℕ) → (home_operator : Bytes) → Bytes
  unfolding print_ℕ
  directory_uri chatbot_directory query start num home_operator =
      let queried : Bytes = elim query [
        | [] ↦ chatbot_directory
        | c ∷ cs ↦ chatbot_directory ++ (codes "?q=" ++ (c ∷ cs))
      ] in
      let mark : Bytes = elim query [ [] ↦ codes "?start=" | c ∷ cs ↦ codes "&start=" ] in
      let started = if start == 0 then queried else queried ++ (mark ++ query) in
      started
      ++ (codes "&num="
          ++ (print_ℕ num
              ++ (codes "&ho="
                  ++ (home_operator
                      ++ codes "&chatbot_version=1_2&client_vendor=Rusty&client_version=1.0.0"))))

  unfoldable pub on_search_response :
      Option DigestAnswer
      → (DigestAnswer → World → Found × World)
      → Response
      → World
      → Found × World
  unfolding text_of on_unauthorized http_failure
  on_search_response used again resp w =
      if resp.status_code == 200
      then (elim (text_of resp.body) [ some text ↦ found text | none ↦ failed network_io ], w)
      else if resp.status_code == 401
      then on_unauthorized (failed network_io) used again resp w
      else http_failure failed platform.is_url resp w

  unfoldable pub search_with :
      Bytes
      → Option Bytes
      → Option DigestAnswer
      → (DigestAnswer → World → Found × World)
      → World
      → Found × World
  unfolding with_connection send effective authorization_of on_search_response
  search_with uri msisdn digest again w =
      with_connection failed platform.is_url uri
        (λ x.
          send failed platform.is_url network_io
            (request uri none msisdn (effective digest x.preloaded)) x.response
            (on_search_response (effective digest x.preloaded) again))
        w

  unfoldable pub search_chatbot_directory :
      (chatbot_directory query : Bytes)
      → (start num : ℕ) → (home_operator : Bytes) → (msisdn : Option Bytes) → Option DigestAnswer
      → World
      → Found × World
  unfolding search_with directory_uri
  search_chatbot_directory chatbot_directory query start num home_operator msisdn none w =
      let uri = directory_uri chatbot_directory query start num home_operator in
      search_with uri msisdn none
        (λ a. search_with uri msisdn (some a) (λ b v. (failed network_io, v))) w
  search_chatbot_directory chatbot_directory query start num home_operator msisdn (some answer) w =
      search_with (directory_uri chatbot_directory query start num home_operator) msisdn
        (some answer) (λ b v. (failed network_io, v)) w

  directory_uri_start :
      (chatbot_directory query : Bytes) (start other num : ℕ) (home_operator : Bytes)
      → start ≢ 0
      → other ≢ 0
      → directory_uri chatbot_directory query start num home_operator
        ≡ directory_uri chatbot_directory query other num home_operator
  unfolding directory_uri
  directory_uri_start chatbot_directory query start other num home_operator h k =
      let a : (start == 0) ≡ false = ground (arith, h) in
      let b : (other == 0) ≡ false = ground (arith, k) in rw (a, b) refl

  -- A search of the directory does not tell the server where to start: any two starts behind the first
  -- entry ask for the same, and get the same.
  pub search_chatbot_directory-start :
      (chatbot_directory query : Bytes) (start other num : ℕ) (home_operator : Bytes)
      (msisdn : Option Bytes) (digest : Option DigestAnswer) (w : World)
      → start ≢ 0
      → other ≢ 0
      → search_chatbot_directory chatbot_directory query start num home_operator msisdn digest w
        ≡ search_chatbot_directory chatbot_directory query other num home_operator msisdn digest w
  unfolding search_chatbot_directory
  search_chatbot_directory-start chatbot_directory query start other num home_operator msisdn none w
        h k =
      let same = directory_uri_start chatbot_directory query start other num home_operator h k in
      rw same refl
  search_chatbot_directory-start chatbot_directory query start other num home_operator msisdn
        (some a) w h k =
      let same = directory_uri_start chatbot_directory query start other num home_operator h k in
      rw same refl
