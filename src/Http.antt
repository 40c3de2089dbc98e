-- ===== src/Http.antt =====
-- The HTTP exchanges of messaging/ft_http/upload.rs, messaging/ft_http/download.rs and
-- chat_bot/mod.rs: the steps that their functions share.
--
-- A run is a function of its `World`, which holds the connections that the network will give, in
-- order. The HTTP client and the GBA and security libraries are parameters of it: an `Exchange` says
-- whether the connection is made, what authorization the security context has stored for it, and
-- what is answered. What `update_auth_info` keeps for later connections is part of what they have
-- stored.
use rust_rcs_client.Common.{
  ℕ, Bool, true, false, List, [], ◌∷◌, ◌++◌, Option, none, some, Bytes, codes,
}
use rust_rcs_client.Xml.{Reader}

-- the errors of uploads, of downloads and of the chatbot directory, which have the same cases
pub data HttpError : Type 0 where
  http : (status_code : ℕ) → (reason_phrase : Bytes) → HttpError
  io : HttpError
  malformed_url : HttpError
  network_io : HttpError

-- a digest answer, by the `Authorization` that it gives, if it gives one
abbrev pub DigestAnswer : Type 0
DigestAnswer = Option Bytes

-- what is read of a body, whether it was read to its end, and its events as XML
pub record Body : Type 0 where
  pub received : Bytes
  pub complete : Bool
  pub events : Reader

-- `reason_phrase` is `none` where it is not text; `answer` is what the GBA library makes of the
-- challenge, if there is one
pub record Response : Type 0 where
  pub status_code : ℕ
  pub reason_phrase : Option Bytes
  pub body : Option Body
  pub etag : Option Bytes
  -- of the `Cache-Control`, if there is one
  pub max_age : Option ℕ
  pub answer : Option DigestAnswer

pub record Exchange : Type 0 where
  pub connects : Bool
  pub preloaded : Option DigestAnswer
  -- `none` where sending fails
  pub response : Option Response

pub data Method : Type 0 where
  get : Method
  put : Method
  post : Method

-- the bytes of a file from `start` on, with the `Content-Range` first-last/total
pub record Stream : Type 0 where
  pub path : Bytes
  pub start : ℕ
  pub stream_size : ℕ
  pub first : ℕ
  pub last : ℕ
  pub total : ℕ

-- the parts of a multipart body: their name, the name and type of the file
pub data Part : Type 0 where
  tid_part : Bytes → Part
  file_part : (disposition filename mime : Bytes) → Stream → Part

pub data Content : Type 0 where
  no_content : Content
  streamed : Stream → Content
  multipart : List Part → Content

pub record Sent : Type 0 where
  pub method : Method
  pub uri : Bytes
  pub intended_identity : Option Bytes
  pub authorization : Option Bytes
  pub range : Option Bytes
  pub if_none_match : Option Bytes
  pub content : Content

pub record World : Type 0 where
  pub exchanges : List Exchange
  pub sent : List Sent
  -- of the file transfer service
  pub recorded_tids : List Bytes

-- `digest_answer`, or else the one preloaded
unfoldable pub effective : Option DigestAnswer → Option DigestAnswer → Option DigestAnswer
effective (some answer) preloaded = some answer
effective none preloaded = preloaded

unfoldable pub authorization_of : Option DigestAnswer → Option Bytes
authorization_of none = none
authorization_of (some answer) = answer

module _ {ℓ} {R : Type ℓ} (failed : HttpError → R) (is_url : Bytes → Bool) where
  abbrev pub fails : HttpError → World → R × World
  fails e w = (failed e, w)

  unfoldable pub on_connection : List Exchange → (Exchange → World → R × World) → World → R × World
  on_connection [] f w = fails network_io w
  on_connection (x ∷ xs) f w = elim x.connects [
    | true ↦ f x (record w { exchanges = xs })
    | false ↦ fails network_io (record w { exchanges = xs })
  ]

  -- `Url::parse` and `connect`
  unfoldable pub with_connection : Bytes → (Exchange → World → R × World) → World → R × World
  unfolding on_connection
  with_connection uri f w = elim (is_url uri) [
    | true ↦ on_connection w.exchanges f w
    | false ↦ fails malformed_url w
  ]

  -- `conn.send`, with `otherwise` where it fails
  unfoldable pub send :
      HttpError → Sent → Option Response → (Response → World → R × World) → World → R × World
  send otherwise req none f w = fails otherwise (record w { sent = w.sent ++ req ∷ [] })
  send otherwise req (some resp) f w = f resp (record w { sent = w.sent ++ req ∷ [] })

  unfoldable pub http_failure : Response → World → R × World
  http_failure resp w =
      fails (http resp.status_code (elim resp.reason_phrase [ some r ↦ r | none ↦ codes "" ])) w
