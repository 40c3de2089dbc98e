-- ===== src/Messaging/FtHttp/Upload/Bounds.antt =====
-- How much an upload sends: the bounds of each of its steps, and of the whole.
use rust_rcs_client.Common.{
  Bool, ℕ, ◌+◌, ◌≤◌, ◌<◌, ◌^◌, true, false, List, [], ◌∷◌, ◌++◌, Option, none, some, ◌≡◌, refl, ap,
  ◌∙◌, inl, inr, arith, Bytes, ◌==◌, Bool-cases, Option-cases, bytes_eq_refl,
}
use rust_rcs_client.Messaging.ResumeInfoXml.{ResumeInfo, parse_xml}
use rust_rcs_client.Http.{
  network_io, malformed_url, DigestAnswer, Body, Response, Exchange, World, effective,
}
use rust_rcs_client.Messaging.FtHttp.Upload.{
  FileInfo, Platform, err, Outcome, on_download_info, get_download_info, on_unauthorized,
  resumed_stream, on_put_response, put_rest, resume_upload_put_with, resume_upload_put, payload,
  on_content_response, upload_file_actual_content_post, on_empty_response, second, without_second,
  upload_file_initial_empty_post, upload_file_inner, on_resume_info, on_upload_info,
  on_check_response, resume_upload_check_with, resume_upload, is_recorded, upload_file,
}
use rust_rcs_client.Messaging.FtHttp.Upload.Ranges.{resumed_stream-IsExact, payload-IsExact}
use rust_rcs_client.Messaging.FtHttp.Upload.Requests.{
  Within, Limited, idle, relax, if-Within, with_connection-Limited, send-Limited, on_text-Limited,
  failure-Limited,
}

module _ (platform : Platform) (sized : (path : Bytes) → platform.file_size path < 2 ^ 64)
    (cs_uri tid : Bytes) (msisdn : Option Bytes) where
  on_download_info-Limited :
      (r : Response) → Limited platform.file_size 0 (on_download_info platform cs_uri tid msisdn r)
  unfolding on_download_info
  on_download_info-Limited r w =
      if-Within platform.file_size 0 _ _ (r.status_code == 200) _ _
        (on_text-Limited platform 0 network_io false r.body w) (failure-Limited platform 0 r w)

  get_download_info-Limited :
      Limited platform.file_size 1 (get_download_info platform cs_uri tid msisdn)
  unfolding get_download_info
  get_download_info-Limited w =
      with_connection-Limited platform.file_size platform.is_url 1 _ _
        (λ x.
          send-Limited platform.file_size platform.is_url 0 network_io _ x.response _ tt
            on_download_info-Limited)
        w

  on_unauthorized-Limited :
      (k : ℕ) (used : Option DigestAnswer) (again : DigestAnswer → World → Outcome)
      → ((a : DigestAnswer) → Limited platform.file_size k (again a))
      → (r : Response)
      → Limited platform.file_size k (on_unauthorized platform cs_uri tid msisdn used again r)
  unfolding on_unauthorized
  on_unauthorized-Limited k (some answer) again h r w = idle platform.file_size k _ w
  on_unauthorized-Limited k none again h r w = elim (Option-cases r.answer) [
    | inl silent ↦ rw (silent, on_unauthorized) (idle platform.file_size k _ w)
    | inr (answer, there) ↦ rw (there, on_unauthorized) (h answer w)
  ]

  module _ (file : FileInfo) (info : ResumeInfo) where
    on_put_response-Limited :
        (k : ℕ) (used : Option DigestAnswer) (again : DigestAnswer → World → Outcome)
        → 1 ≤ k
        → ((a : DigestAnswer) → Limited platform.file_size k (again a))
        → (r : Response)
        → Limited platform.file_size k
            (on_put_response platform cs_uri tid msisdn file info used again r)
    unfolding on_put_response
    on_put_response-Limited k used again h l r w =
        if-Within platform.file_size k _ _ (r.status_code == 200) _ _
          (relax platform.file_size 1 k w.sent w.recorded_tids _ h (get_download_info-Limited w))
          (if-Within platform.file_size k _ _ (r.status_code == 401) _ _
            (on_unauthorized-Limited k used again l r w) (failure-Limited platform k r w))

    put_rest-Limited :
        (k : ℕ) (used : Option DigestAnswer) (again : DigestAnswer → World → Outcome)
        → 1 ≤ k
        → ((a : DigestAnswer) → Limited platform.file_size k (again a))
        → (x : Exchange)
        → Limited platform.file_size
            (k + 1)
            (put_rest platform cs_uri tid msisdn file info used again x)
    unfolding put_rest
    put_rest-Limited k used again h l x w =
        let size = platform.file_size file.path in
        elim (Option-cases (resumed_stream file.path size info)) [
          | inl past ↦ rw (past, put_rest) (idle platform.file_size (k + 1) _ w)
          | inr (s, there) ↦
              let exact =
                resumed_stream-IsExact platform.file_size file.path info s (sized file.path)
                  there in
              rw (there, put_rest)
                (send-Limited platform.file_size platform.is_url k network_io _ x.response _ exact
                  (on_put_response-Limited k used again h l) w)
        ]

    resume_upload_put_with-Limited :
        (k : ℕ) (digest : Option DigestAnswer) (again : DigestAnswer → World → Outcome)
        → 1 ≤ k
        → ((a : DigestAnswer) → Limited platform.file_size k (again a))
        → Limited platform.file_size
            (k + 1)
            (resume_upload_put_with platform cs_uri tid msisdn file info digest again)
    unfolding resume_upload_put_with
    resume_upload_put_with-Limited k digest again h l w =
        with_connection-Limited platform.file_size platform.is_url (k + 1) _ _
          (λ x. put_rest-Limited k (effective digest x.preloaded) again h l x) w

    resume_upload_put-Limited :
        Limited platform.file_size 3 (resume_upload_put platform cs_uri tid msisdn file info)
    unfolding resume_upload_put
    resume_upload_put-Limited w =
        resume_upload_put_with-Limited 2 none _ (omega arith)
          (λ a.
            resume_upload_put_with-Limited 1 (some a) _ (omega arith)
              (λ b v. idle platform.file_size 1 (err network_io) v))
          w

  module _ (file : FileInfo) (thumbnail : Option FileInfo) where
    is_recorded-last :
        (tids : List Bytes)
        → is_recorded platform cs_uri tid msisdn file thumbnail (tids ++ tid ∷ []) ≡ true
    unfolding is_recorded
    is_recorded-last [] = rw (bytes_eq_refl tid) refl
    is_recorded-last (t ∷ ts) = ground (arith, is_recorded-last ts)

    on_content_response-Limited :
        (r : Response)
        → Limited platform.file_size 0 (on_content_response platform cs_uri tid msisdn r)
    unfolding on_content_response
    on_content_response-Limited r w =
        if-Within platform.file_size 0 _ _ (r.status_code == 200) _ _
          (on_text-Limited platform 0 malformed_url true r.body w) (failure-Limited platform 0 r w)

    content_post-Limited :
        (digest : Option DigestAnswer) (x : Exchange)
        → Limited platform.file_size 1
            (upload_file_actual_content_post platform cs_uri tid msisdn file thumbnail digest x)
    unfolding upload_file_actual_content_post
    content_post-Limited digest x w =
        elim (Option-cases (payload platform cs_uri tid msisdn file thumbnail)) [
          | inl bad ↦ rw (bad, upload_file_actual_content_post) (idle platform.file_size 1 _ w)
          | inr (content, good) ↦
              let exact = payload-IsExact platform cs_uri tid msisdn file thumbnail content good in
              rw (good, upload_file_actual_content_post)
                (send-Limited platform.file_size platform.is_url 0 malformed_url _ x.response _
                  exact on_content_response-Limited w)
        ]

    on_empty_response-Limited :
        (x : Exchange) (r : Response)
        → Limited platform.file_size 1
            (on_empty_response platform cs_uri tid msisdn file thumbnail x r)
    unfolding on_empty_response
    on_empty_response-Limited x r w =
        if-Within platform.file_size 1 _ _ (r.status_code == 204) _ _
          (content_post-Limited none x w)
          (if-Within platform.file_size 1 _ _ (r.status_code == 401) _ _
            (elim (Option-cases r.answer) [
              | inl silent ↦ rw silent (idle platform.file_size 1 _ w)
              | inr (answer, there) ↦ rw there (content_post-Limited (some answer) x w)
            ])
            (failure-Limited platform 1 r w))

    initial_empty_post-Limited :
        (x : Exchange)
        → Limited platform.file_size 2
            (upload_file_initial_empty_post platform cs_uri tid msisdn file thumbnail x)
    unfolding upload_file_initial_empty_post
    initial_empty_post-Limited x w =
        send-Limited platform.file_size platform.is_url 1 network_io _ x.response _ tt
          (on_empty_response-Limited (second w.exchanges))
          (record w { exchanges = without_second w.exchanges })

    upload_file_inner-Limited :
        Limited platform.file_size 2 (upload_file_inner platform cs_uri tid msisdn file thumbnail)
    unfolding upload_file_inner
    upload_file_inner-Limited w =
        with_connection-Limited platform.file_size platform.is_url 2 cs_uri _
          initial_empty_post-Limited w

    on_resume_info-Limited :
        (info : Option ResumeInfo)
        → Limited platform.file_size 3
            (on_resume_info platform cs_uri tid msisdn file thumbnail info)
    unfolding on_resume_info
    on_resume_info-Limited none w = idle platform.file_size 3 _ w
    on_resume_info-Limited (some info) w = resume_upload_put-Limited file info w

    on_upload_info-Limited :
        (body : Option Body)
        → Limited platform.file_size 3
            (on_upload_info platform cs_uri tid msisdn file thumbnail body)
    unfolding on_upload_info
    on_upload_info-Limited none w = idle platform.file_size 3 _ w
    on_upload_info-Limited (some body) w =
        if-Within platform.file_size 3 _ _ body.complete _ _
          (on_resume_info-Limited (parse_xml body.events) w) (idle platform.file_size 3 _ w)

    on_check_response-Limited :
        (k : ℕ) (used : Option DigestAnswer) (again : DigestAnswer → World → Outcome)
        → 3 ≤ k
        → ((a : DigestAnswer) → Limited platform.file_size k (again a))
        → (r : Response)
        → Limited platform.file_size k
            (on_check_response platform cs_uri tid msisdn file thumbnail used again r)
    unfolding on_check_response
    on_check_response-Limited k used again h l r w =
        if-Within platform.file_size k _ _ (r.status_code == 200) _ _
          (relax platform.file_size 3 k w.sent w.recorded_tids _ h
            (on_upload_info-Limited r.body w))
          (if-Within platform.file_size k _ _ (r.status_code == 401) _ _
            (on_unauthorized-Limited k used again l r w)
            (if-Within platform.file_size k _ _ (r.status_code == 404) _ _
              (relax platform.file_size 2 k w.sent w.recorded_tids _ (omega arith)
                (upload_file_inner-Limited w))
              (failure-Limited platform k r w)))

    resume_upload_check_with-Limited :
        (k : ℕ) (digest : Option DigestAnswer) (again : DigestAnswer → World → Outcome)
        → 3 ≤ k
        → ((a : DigestAnswer) → Limited platform.file_size k (again a))
        → Limited platform.file_size
            (k + 1)
            (resume_upload_check_with platform cs_uri tid msisdn file thumbnail digest again)
    unfolding resume_upload_check_with
    resume_upload_check_with-Limited k digest again h l w =
        with_connection-Limited platform.file_size platform.is_url (k + 1) _ _
          (λ x.
            send-Limited platform.file_size platform.is_url k network_io _ x.response _ tt
              (on_check_response-Limited k (effective digest x.preloaded) again h l))
          w

    resume_upload-Limited :
        Limited platform.file_size 5 (resume_upload platform cs_uri tid msisdn file thumbnail)
    unfolding resume_upload
    resume_upload-Limited w =
        resume_upload_check_with-Limited 4 none _ (omega arith)
          (λ a.
            resume_upload_check_with-Limited 3 (some a) _ (omega arith)
              (λ b v. idle platform.file_size 3 (err network_io) v))
          w

    -- how many requests an upload sends at most, where the task is known and where it is new
    abbrev pub most : Bool → ℕ
    most true = 5
    most false = 2

    -- a task that is new is put behind the others
    abbrev pub recording : Bool → List Bytes → List Bytes
    recording true tids = tids
    recording false tids = tids ++ tid ∷ []

    abbrev pub is_known : World → Bool
    is_known w = is_recorded platform cs_uri tid msisdn file thumbnail w.recorded_tids

    -- Where files are shorter than 2 ^ 64 bytes, an upload of a new task sends at most two requests,
    -- and one of a known task at most five, whatever is answered. Every range in them has the size of
    -- its file as the total, begins where its stream does, ends with the last byte of the file and is
    -- as long as the stream, unless a server named the last 64-bit number as the end of what it has.
    -- The recorded tasks are then those of before, with the task behind them where it is new.
    pub upload_file-Within :
        (w : World)
        → Within platform.file_size
            (most (is_known w))
            w.sent
            (recording (is_known w) w.recorded_tids)
            (upload_file platform cs_uri tid msisdn file thumbnail w)
    unfolding upload_file
    upload_file-Within w = elim (Bool-cases (is_known w)) [
      | inl known ↦ rw (known, upload_file) (resume_upload-Limited w)
      | inr new ↦
          rw (new, upload_file)
            (upload_file_inner-Limited (record w { recorded_tids = w.recorded_tids ++ tid ∷ [] }))
    ]

    recording-IsRecorded :
        (w : World)
        → is_recorded platform cs_uri tid msisdn file thumbnail
            (recording (is_known w) w.recorded_tids)
          ≡ true
    recording-IsRecorded w = elim (Bool-cases (is_known w)) [
      | inl known ↦ rw known known
      | inr new ↦ rw new (is_recorded-last w.recorded_tids)
    ]

    known-resumed :
        (w : World)
        → is_recorded platform cs_uri tid msisdn file thumbnail w.recorded_tids ≡ true
        → upload_file platform cs_uri tid msisdn file thumbnail w
          ≡ resume_upload platform cs_uri tid msisdn file thumbnail w
    unfolding upload_file
    known-resumed w known = rw (known, upload_file) refl

    -- A task that was uploaded before, with whatever result, is resumed: the second call asks the
    -- server how far the file got.
    pub upload_file-again :
        (w : World)
        → upload_file platform cs_uri tid msisdn file thumbnail
            (upload_file platform cs_uri tid msisdn file thumbnail w).1
          ≡ resume_upload platform cs_uri tid msisdn file thumbnail
              (upload_file platform cs_uri tid msisdn file thumbnail w).1
    upload_file-again w =
        let within = upload_file-Within w in
        known-resumed (upload_file platform cs_uri tid msisdn file thumbnail w).1 (
          ap (is_recorded platform cs_uri tid msisdn file thumbnail) within.same
          ∙ recording-IsRecorded w)
