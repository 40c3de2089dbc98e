-- ===== src/Messaging/FtHttp/Download.antt =====
-- messaging/ft_http/download.rs: the download of a file, and the file that it leaves.
--
-- The file system is that of one path: what the file holds, whether it can be opened or made, and at
-- which position a file is that was just opened to append to it. A body is what the copy brings into
-- the file, `complete` if the copy ends without an error.
pub mod Contents
use rust_rcs_client.Common.{
  ℕ, suc, zero, ◌+◌, ◌-◌, ◌^◌, ◌%◌, ℤ, negsuc, Bool, true, false, List, [], ◌∷◌, ◌++◌, Option, none,
  some, Bytes, codes, length, ltb, ◌==◌, if◌then◌else◌, print_ℕ,
}
use rust_rcs_client.Http.{
  HttpError, io, network_io, DigestAnswer, Body, Response, Exchange, get, no_content, Sent, World,
  effective, authorization_of, with_connection, send, http_failure,
}
use rust_rcs_client.Messaging.FtHttp.{progress_total}

-- what a download returns, with what the file then holds, if it is there
pub data Reply : Type 0 where
  ok : Option Bytes → Reply
  err : HttpError → Option Bytes → Reply

abbrev pub Outcome : Type 0
Outcome = Reply × World

pub record Platform : Type 0 where
  pub is_url : Bytes → Bool
  -- whether the file can be opened for writing if it is there, and made if it is not
  pub opens : Bool
  pub creates : Bool
  -- where a file of that length is, opened to append to it
  pub append_position : ℕ → ℕ

unfoldable pub get_progress_total : Option ℕ → ℤ
unfolding progress_total
get_progress_total (some total) = progress_total total
get_progress_total none = negsuc 0

-- `u32` addition wraps
unfoldable pub get_progress_current : ℕ → ℕ → ℕ
get_progress_current start i =
    if ltb start (2 ^ 32) then (if ltb i (2 ^ 32) then (start + i) % 2 ^ 32 else 0) else 0

-- the header `Range`
unfoldable pub range_header : ℕ → Option ℕ → Option Bytes
unfolding print_ℕ
range_header start total =
    if ltb 0 start
    then elim total [
      | some total ↦
          if ltb start total
          then some (codes "bytes=" ++ (print_ℕ start ++ (codes "-" ++ print_ℕ (total - 1))))
          else none
      | none ↦ some (codes "bytes=" ++ (print_ℕ start ++ codes "-"))
    ]
    else none

-- an open file: what it holds, where it is, and whether it writes at the end only
pub record OpenFile : Type 0 where
  pub contents : Bytes
  pub position : ℕ
  pub appends : Bool

abbrev pub drop : ℕ → Bytes → Bytes
drop zero s = s
drop (suc n) [] = []
drop (suc n) (c ∷ s) = drop n s

-- what the file holds once the body was copied into it from its start on, or at its end
unfoldable pub copied : OpenFile → Bytes → Bytes
copied f received =
    if f.appends then f.contents ++ received else received ++ drop (length received) f.contents

-- A file stays below 2 ^ 64 bytes, so that the sum in `u64` does not wrap.
unfoldable pub size_verified : ℕ → Option ℕ → ℕ → Bool
size_verified start none n = true
size_verified start (some total) n = start + n == total

module _ (platform : Platform) where
  -- `write(true).create(true)`: what is there is kept
  unfoldable pub open_create : Option Bytes → Option OpenFile
  open_create none =
      if platform.creates
      then some (record { contents = []; position = 0; appends = false })
      else none
  open_create (some old) =
      if platform.opens
      then some (record { contents = old; position = 0; appends = false })
      else none

  -- `write(true).append(true)`, and `open_create` where that fails
  unfoldable pub open_append : Option Bytes → Option OpenFile
  unfolding open_create
  open_append none = open_create none
  open_append (some old) =
      if platform.opens
      then some (record {
        contents = old;
        position = platform.append_position (length old);
        appends = true;
      })
      else open_create (some old)

  module _ (file_uri : Bytes) (start : ℕ) (total : Option ℕ) (msisdn : Option Bytes)
      (file : Option Bytes) where
    unfoldable pub on_copied : Bytes → Body → World → Outcome
    unfolding size_verified
    on_copied contents body w =
        if body.complete
        then (if size_verified start total (length body.received)
            then (ok (some contents), w)
            else (err io (some contents), w))
        else (err io (some contents), w)

    unfoldable pub on_open : Option OpenFile → Body → World → Outcome
    unfolding on_copied copied
    on_open none body w = (err io file, w)
    on_open (some f) body w =
        if f.position == start
        then on_copied (copied f body.received) body w
        else (err io (some f.contents), w)

    unfoldable pub on_body : Option Body → World → Outcome
    unfolding on_open open_create open_append
    on_body none w = (err network_io file, w)
    on_body (some body) w =
        on_open (if start == 0 then open_create file else open_append file) body w

    unfoldable pub on_unauthorized :
        Option DigestAnswer → (DigestAnswer → World → Outcome) → Response → World → Outcome
    on_unauthorized (some answer) again resp w = (err network_io file, w)
    on_unauthorized none again resp w = elim resp.answer [
      | some answer ↦ again answer w
      | none ↦ (err network_io file, w)
    ]

    abbrev pub failed : HttpError → Reply
    failed e = err e file

    unfoldable pub on_response :
        Option DigestAnswer → (DigestAnswer → World → Outcome) → Response → World → Outcome
    unfolding on_body on_unauthorized http_failure
    on_response used again resp w =
        if resp.status_code == 200
        then on_body resp.body w
        else if resp.status_code == 401
        then on_unauthorized used again resp w
        else http_failure failed platform.is_url resp w

    unfoldable pub request : Option DigestAnswer → Sent
    unfolding authorization_of range_header
    request digest = record {
      method = get;
      uri = file_uri;
      intended_identity = msisdn;
      authorization = authorization_of digest;
      range = range_header start total;
      if_none_match = none;
      content = no_content;
    }

    unfoldable pub download_file_with :
        Option DigestAnswer → (DigestAnswer → World → Outcome) → World → Outcome
    unfolding with_connection send request effective on_response
    download_file_with digest again w =
        with_connection failed platform.is_url file_uri
          (λ x.
            send failed platform.is_url network_io (request (effective digest x.preloaded))
              x.response (on_response (effective digest x.preloaded) again))
          w

    abbrev pub never : DigestAnswer → World → Outcome
    never answer w = (err network_io file, w)

    -- it calls itself once, with the answer to the challenge
    unfoldable pub download_file : Option DigestAnswer → World → Outcome
    unfolding download_file_with
    download_file none w =
        download_file_with none (λ answer. download_file_with (some answer) never) w
    download_file (some answer) w = download_file_with (some answer) never w
