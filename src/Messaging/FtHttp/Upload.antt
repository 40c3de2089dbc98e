-- ===== src/Messaging/FtHttp/Upload.antt =====
-- messaging/ft_http/upload.rs: the upload of a file, and its resumption.
--
-- The file system is `file_size`, the length of the file at a path, 0 where it cannot be opened or
-- measured. Arithmetic on `usize` wraps, as it does in a release build.
pub mod Ranges
pub mod Requests
pub mod Bounds
use rust_rcs_client.Common.{
  ℕ, ◌+◌, ◌-◌, ◌^◌, ◌%◌, Bool, true, false, ◌||◌, List, [], ◌∷◌, ◌++◌, Option, none, some, Bytes,
  codes, bytes_eq, leb, ◌==◌, if◌then◌else◌,
}
use rust_rcs_client.Messaging.ResumeInfoXml.{ResumeInfo, parse_xml}
use rust_rcs_client.Http.{
  HttpError, io, malformed_url, network_io, DigestAnswer, Body, Response, Exchange, Method, get,
  put, post, Stream, Part, tid_part, file_part, Content, no_content, streamed, multipart, Sent,
  World, effective, authorization_of, with_connection, send, http_failure,
}

-- `path`, `name` and `mime`; the hash is not used here
pub record FileInfo : Type 0 where
  pub path : Bytes
  pub name : Bytes
  pub mime : Bytes

pub data Reply : Type 0 where
  ok : Bytes → Reply
  err : HttpError → Reply

abbrev pub Outcome : Type 0
Outcome = Reply × World

-- the libraries and the file system
pub record Platform : Type 0 where
  pub is_url : Bytes → Bool
  pub is_utf8 : Bytes → Bool
  pub file_size : Bytes → ℕ

-- `usize` subtraction
unfoldable pub sub_usize : ℕ → ℕ → ℕ
sub_usize a b = (a + (2 ^ 64 - b)) % 2 ^ 64

-- the whole of a file
unfoldable pub whole : Bytes → ℕ → Stream
whole path size = record {
  path = path;
  start = 0;
  stream_size = size;
  first = 0;
  last = size - 1;
  total = size;
}

-- what is left of a file of the given size behind `range_end`
unfoldable pub rest_of : Bytes → ℕ → ℕ → Stream
unfolding sub_usize
rest_of path size range_end = record {
  path = path;
  start = range_end;
  stream_size = sub_usize size range_end;
  first = range_end;
  last = size - 1;
  total = size;
}

-- `none` where `resume_upload_put_inner` gives up with `IO`
unfoldable pub resumed_stream : Bytes → ℕ → ResumeInfo → Option Stream
unfolding rest_of
resumed_stream path size info =
    if size == 0
    then none
    else if leb size ((info.range_end + 1) % 2 ^ 64)
    then none
    else some (rest_of path size info.range_end)

-- the exchange behind the first, on the same connection
unfoldable pub second : List Exchange → Exchange
second [] = record { connects = true; preloaded = none; response = none }
second (x ∷ xs) = x

unfoldable pub without_second : List Exchange → List Exchange
without_second [] = []
without_second (x ∷ xs) = xs

module _ (platform : Platform) where
  -- the stream of a file that is not empty
  unfoldable pub stream_of : FileInfo → Option Stream
  unfolding whole
  stream_of file =
      if platform.file_size file.path == 0
      then none
      else some (whole file.path (platform.file_size file.path))

  -- `resp_string` of a response 200, `otherwise` where it cannot be had
  unfoldable pub on_text : HttpError → Bool → Option Body → World → Outcome
  on_text otherwise to_end none w = (err otherwise, w)
  on_text otherwise to_end (some body) w =
      if platform.is_utf8 body.received
      then (if to_end
          then (if body.complete then (ok body.received, w) else (err otherwise, w))
          else (ok body.received, w))
      else (err otherwise, w)

  module _ (ft_http_cs_uri : Bytes) (tid : Bytes) (msisdn : Option Bytes) where
    request : Method → Bytes → Option DigestAnswer → Content → Sent
    unfolding authorization_of
    request method uri digest content = record {
      method = method;
      uri = uri;
      intended_identity = msisdn;
      authorization = authorization_of digest;
      range = none;
      if_none_match = none;
      content = content;
    }

    unfoldable pub tid_uri : Bytes → Bytes
    tid_uri query = ft_http_cs_uri ++ (codes "?tid=" ++ (tid ++ query))

    unfoldable pub on_download_info : Response → World → Outcome
    unfolding on_text http_failure
    on_download_info resp w =
        if resp.status_code == 200
        then on_text network_io false resp.body w
        else http_failure err platform.is_url resp w

    -- called without a digest answer
    unfoldable pub get_download_info : World → Outcome
    unfolding with_connection send request effective tid_uri on_download_info
    get_download_info w =
        with_connection err platform.is_url (tid_uri (codes "&get_download_info"))
          (λ x.
            send err platform.is_url network_io
              (request get (tid_uri (codes "&get_download_info")) (effective none x.preloaded)
                no_content)
              x.response on_download_info)
          w

    -- a 401 is answered by `again`, unless the request had an answer, given or preloaded
    unfoldable pub on_unauthorized :
        Option DigestAnswer → (DigestAnswer → World → Outcome) → Response → World → Outcome
    on_unauthorized (some answer) again resp w = (err network_io, w)
    on_unauthorized none again resp w = elim resp.answer [
      | some answer ↦ again answer w
      | none ↦ (err network_io, w)
    ]

    abbrev never : DigestAnswer → World → Outcome
    never answer w = (err network_io, w)

    module _ (file : FileInfo) (resume_info : ResumeInfo) where
      unfoldable pub on_put_response :
          Option DigestAnswer → (DigestAnswer → World → Outcome) → Response → World → Outcome
      unfolding get_download_info on_unauthorized http_failure
      on_put_response used again resp w =
          if resp.status_code == 200
          then get_download_info w
          else if resp.status_code == 401
          then on_unauthorized used again resp w
          else http_failure err platform.is_url resp w

      unfoldable pub put_rest :
          Option DigestAnswer → (DigestAnswer → World → Outcome) → Exchange → World → Outcome
      unfolding resumed_stream send request on_put_response
      put_rest used again x w =
          elim (resumed_stream file.path (platform.file_size file.path) resume_info) [
            | none ↦ (err io, w)
            | some stream ↦
                send err platform.is_url network_io
                  (request put resume_info.data_url used (streamed stream)) x.response
                  (on_put_response used again) w
          ]

      unfoldable pub resume_upload_put_with :
          Option DigestAnswer → (DigestAnswer → World → Outcome) → World → Outcome
      unfolding with_connection put_rest effective
      resume_upload_put_with digest again w =
          with_connection err platform.is_url resume_info.data_url
            (λ x. put_rest (effective digest x.preloaded) again x) w

      -- called without a digest answer; it calls itself once, with the answer to the challenge
      unfoldable pub resume_upload_put : World → Outcome
      unfolding resume_upload_put_with
      resume_upload_put w =
          resume_upload_put_with none (λ answer. resume_upload_put_with (some answer) never) w

    unfoldable pub tid_parts : Option Part → Part → List Part
    tid_parts none file = tid_part tid ∷ (file ∷ [])
    tid_parts (some thumbnail) file = tid_part tid ∷ (thumbnail ∷ (file ∷ []))

    -- `none` where there is a thumbnail that cannot be sent
    unfoldable pub thumbnail_payload : Option FileInfo → Option (Option Part)
    unfolding stream_of
    thumbnail_payload none = some none
    thumbnail_payload (some thumbnail) = elim (stream_of thumbnail) [
      | none ↦ none
      | some stream ↦
          some (some (file_part (codes "Thumbnail") thumbnail.name thumbnail.mime stream))
    ]

    unfoldable pub payload : FileInfo → Option FileInfo → Option Content
    unfolding thumbnail_payload tid_parts stream_of
    payload file thumbnail = elim (thumbnail_payload thumbnail) [
      | none ↦ none
      | some part ↦ elim (stream_of file) [
        | none ↦ none
        | some stream ↦
            some (multipart (tid_parts part (file_part (codes "File") file.name file.mime stream)))
      ]
    ]

    unfoldable pub on_content_response : Response → World → Outcome
    unfolding on_text http_failure
    on_content_response resp w =
        if resp.status_code == 200
        then on_text malformed_url true resp.body w
        else http_failure err platform.is_url resp w

    module _ (file : FileInfo) (thumbnail : Option FileInfo) where
      unfoldable pub upload_file_actual_content_post :
          Option DigestAnswer → Exchange → World → Outcome
      unfolding payload send request effective on_content_response
      upload_file_actual_content_post digest x w = elim (payload file thumbnail) [
        | none ↦ (err io, w)
        | some content ↦
            send err platform.is_url malformed_url
              (request post ft_http_cs_uri (effective digest x.preloaded) content) x.response
              on_content_response w
      ]

      -- `x` is the second exchange on the connection
      unfoldable pub on_empty_response : Exchange → Response → World → Outcome
      unfolding upload_file_actual_content_post http_failure
      on_empty_response x resp w =
          if resp.status_code == 204
          then upload_file_actual_content_post none x w
          else if resp.status_code == 401
          then elim resp.answer [
            | some answer ↦ upload_file_actual_content_post (some answer) x w
            | none ↦ (err network_io, w)
          ]
          else http_failure err platform.is_url resp w

      -- The two requests go over one connection.
      unfoldable pub upload_file_initial_empty_post : Exchange → World → Outcome
      unfolding send request on_empty_response second without_second
      upload_file_initial_empty_post x w =
          send err platform.is_url network_io (request post ft_http_cs_uri none no_content)
            x.response (on_empty_response (second w.exchanges))
            (record w { exchanges = without_second w.exchanges })

      unfoldable pub upload_file_inner : World → Outcome
      unfolding with_connection upload_file_initial_empty_post
      upload_file_inner w =
          with_connection err platform.is_url ft_http_cs_uri upload_file_initial_empty_post w

      unfoldable pub on_resume_info : Option ResumeInfo → World → Outcome
      unfolding resume_upload_put
      on_resume_info none w = (err network_io, w)
      on_resume_info (some info) w = resume_upload_put file info w

      unfoldable pub on_upload_info : Option Body → World → Outcome
      unfolding on_resume_info parse_xml
      on_upload_info none w = (err network_io, w)
      on_upload_info (some body) w =
          if body.complete then on_resume_info (parse_xml body.events) w else (err network_io, w)

      unfoldable pub on_check_response :
          Option DigestAnswer → (DigestAnswer → World → Outcome) → Response → World → Outcome
      unfolding on_upload_info on_unauthorized upload_file_inner http_failure
      on_check_response used again resp w =
          if resp.status_code == 200
          then on_upload_info resp.body w
          else if resp.status_code == 401
          then on_unauthorized used again resp w
          else if resp.status_code == 404
          then upload_file_inner w
          else http_failure err platform.is_url resp w

      unfoldable pub resume_upload_check_with :
          Option DigestAnswer → (DigestAnswer → World → Outcome) → World → Outcome
      unfolding with_connection send request effective tid_uri on_check_response
      resume_upload_check_with digest again w =
          with_connection err platform.is_url (tid_uri (codes "&get_upload_info"))
            (λ x.
              send err platform.is_url network_io
                (request get (tid_uri (codes "&get_upload_info")) (effective digest x.preloaded)
                  no_content)
                x.response (on_check_response (effective digest x.preloaded) again))
            w

      -- `resume_upload_check` calls itself once
      unfoldable pub resume_upload : World → Outcome
      unfolding resume_upload_check_with
      resume_upload w =
          resume_upload_check_with none (λ answer. resume_upload_check_with (some answer) never) w

      -- `upload_file`, behind the lock
      unfoldable pub is_recorded : List Bytes → Bool
      unfolding bytes_eq
      is_recorded [] = false
      is_recorded (t ∷ ts) = bytes_eq tid t || is_recorded ts

      unfoldable pub upload_file : World → Outcome
      unfolding resume_upload upload_file_inner is_recorded
      upload_file w = elim (is_recorded w.recorded_tids) [
        | true ↦ resume_upload w
        | false ↦ upload_file_inner (record w { recorded_tids = w.recorded_tids ++ tid ∷ [] })
      ]
