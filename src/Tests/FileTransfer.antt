-- ===== src/Tests/FileTransfer.antt =====
-- Transfers of files on concrete input: an interrupted upload, a download over an older file.
use rust_rcs_client.Common.{
  ℕ, true, List, [], ◌∷◌, ◌++◌, Option, none, some, ◌≡◌, ◌≢◌, ◌⊎◌, refl, arith, Bytes, codes,
  length, ltb,
}
use rust_rcs_client.Http.{Body, Exchange, World}
use rust_rcs_client.Messaging.FtHttp.Upload
use rust_rcs_client.Messaging.FtHttp.Upload.{FileInfo, upload_file, resume_upload, is_recorded}
use rust_rcs_client.Messaging.FtHttp.Upload.Requests.{Within}
use rust_rcs_client.Messaging.FtHttp.Upload.Bounds.{upload_file-Within, upload_file-again}
use rust_rcs_client.Messaging.FtHttp.Download
use rust_rcs_client.Messaging.FtHttp.Download.{ok, drop, download_file}
use rust_rcs_client.Messaging.FtHttp.Download.Contents.{
  Answered, held, download_file-contents, download_file-resumed,
}

abbrev body : Bytes → Body
body s = record { received = s; complete = true; events = [] }

abbrev exchange : ℕ → Option Body → Exchange
exchange status content = record {
  connects = true;
  preloaded = none;
  response = some (record {
    status_code = status;
    reason_phrase = some (codes "OK");
    body = content;
    etag = none;
    max_age = none;
    answer = some (some (codes "Digest"));
  });
}

abbrev world : List Exchange → World
world exchanges = record { exchanges = exchanges; sent = []; recorded_tids = [] }

-- files of ten bytes
abbrev uploads : Upload.Platform
uploads = record { is_url = λ s. ltb 3 (length s); is_utf8 = λ s. true; file_size = λ path. 10 }

abbrev picture : FileInfo
picture = record { path = codes "/p"; name = codes "p"; mime = codes "image/png" }

abbrev tid : Bytes
tid = codes "0001"

abbrev server : Bytes
server = codes "https://cs"

-- a challenge, and then the content is taken
abbrev uploading : World
uploading = world (exchange 401 none ∷ (exchange 200 (some (body (codes "done"))) ∷ []))

upload_file-Within_example :
    Within (λ path. 10) 2 [] (tid ∷ []) (upload_file uploads server tid none picture none uploading)
unfolding is_recorded
upload_file-Within_example =
    upload_file-Within uploads (λ path. omega arith) server tid none picture none uploading

upload_file-again_example :
    upload_file uploads server tid none picture none
      (upload_file uploads server tid none picture none uploading).1
    ≡ resume_upload uploads server tid none picture none
        (upload_file uploads server tid none picture none uploading).1
upload_file-again_example =
    upload_file-again uploads (λ path. omega arith) server tid none picture none uploading

abbrev downloads : Download.Platform
downloads = record {
  is_url = λ s. ltb 3 (length s);
  opens = true;
  creates = true;
  append_position = λ n. 0;
}

abbrev older : Option Bytes
older = some (codes "a longer file")

abbrev serving : World
serving = world (exchange 200 (some (body (codes "short"))) ∷ [])

abbrev announced : Option ℕ
announced = some 5

-- The older file shows behind the newer one.
downloaded :
    (w : World) × (download_file downloads server 0 (some 5) none older none serving
      ≡ (ok (some (codes "shortger file")), w))
unfolding download_file
downloaded = (_, refl)

download_file-contents_example :
    (b : Body) × Answered serving.exchanges b
    × (some (codes "shortger file") ≡ some (b.received ++ drop (length b.received) (held older)))
    × ((announced ≡ none) ⊎ (announced ≡ some (length b.received)))
download_file-contents_example =
    download_file-contents downloads server (some 5) none older none serving downloaded.0
      (some (codes "shortger file")) downloaded.1

download_file-resumed_example :
    download_file downloads server 2 none none older none serving ≢ (ok older, serving)
download_file-resumed_example =
    download_file-resumed downloads server 2 none none older none serving serving older
      (omega arith) (λ n. refl)
