-- ===== src/Messaging/FtHttp.antt =====
-- messaging/ft_http/mod.rs, and what upload.rs and download.rs share: the errors and the progress.
pub mod Upload
pub mod Download
use rust_rcs_client.Common.{ℕ, List, [], Bytes, codes, ltb, if◌then◌else◌, ℤ, pos, negsuc, ◌^◌}
use rust_rcs_client.Http.{HttpError, http, io, malformed_url, network_io}

unfoldable pub error_code : HttpError → ℕ
error_code (http status_code reason_phrase) = status_code
error_code io = 0
error_code malformed_url = 0
error_code network_io = 0

unfoldable pub error_string : HttpError → Bytes
error_string (http status_code reason_phrase) = reason_phrase
error_string io = codes "IO"
error_string malformed_url = codes "MalformedHost"
error_string network_io = codes "NetworkIO"

-- `i32::try_from(total)`, or -1
unfoldable pub progress_total : ℕ → ℤ
progress_total n = if ltb n (2 ^ 31) then pos n else negsuc 0

-- `FileTransferOverHTTPService::new`
unfoldable pub new_service : List Bytes
new_service = []
