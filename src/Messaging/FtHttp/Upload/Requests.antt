-- ===== src/Messaging/FtHttp/Upload/Requests.antt =====
-- What an upload sends, whatever the servers answer: so many requests at most, with ranges that hold.
use rust_rcs_client.Common.{
  ℕ, ◌+◌, ◌≤◌, Bool, true, false, List, [], ◌∷◌, ◌++◌, Option, none, some, ◌≡◌, refl, sym, ◌∙◌, inl,
  inr, arith, Bytes, length, append_assoc, append-nil, if◌then◌else◌, Bool-cases, All,
}
use rust_rcs_client.Http.{
  HttpError, Body, Response, Exchange, Sent, World, on_connection, with_connection, send,
  http_failure,
}
use rust_rcs_client.Messaging.FtHttp.Upload.{Platform, Reply, err, Outcome, on_text}
use rust_rcs_client.Messaging.FtHttp.Upload.Ranges.{RequestIsExact}

-- From `before` on, at most `k` requests were sent, each with ranges that hold, and the recorded tasks
-- are `tids`.
pub record Within (sizes : Bytes → ℕ) (k : ℕ) (before : List Sent) (tids : List Bytes) (o : Outcome)
    : Type 0 where
  pub extra : List Sent
  pub appended : o.1.sent ≡ before ++ extra
  pub few : length extra ≤ k
  pub exact : All (RequestIsExact sizes) extra
  pub same : o.1.recorded_tids ≡ tids

-- a step that sends at most `k` requests
abbrev pub Limited : (Bytes → ℕ) → ℕ → (World → Outcome) → Type 0
Limited sizes k f = (w : World) → Within sizes k w.sent w.recorded_tids (f w)

module _ (sizes : Bytes → ℕ) where
  pub idle : (k : ℕ) (r : Reply) (w : World) → Within sizes k w.sent w.recorded_tids (r, w)
  idle k r w = record {
    extra = [];
    appended = sym (append-nil w.sent);
    few = omega arith;
    exact = tt;
    same = refl;
  }

  pub relax :
      (k m : ℕ) (before : List Sent) (tids : List Bytes) (o : Outcome)
      → k ≤ m
      → Within sizes k before tids o
      → Within sizes m before tids o
  relax k m before tids o h within = record {
    extra = within.extra;
    appended = within.appended;
    few = let few = within.few in omega arith;
    exact = within.exact;
    same = within.same;
  }

  -- one request more before it
  after_request :
      (k : ℕ) (before : List Sent) (tids : List Bytes) (req : Sent) (o : Outcome)
      → RequestIsExact sizes req
      → Within sizes k (before ++ req ∷ []) tids o
      → Within sizes (k + 1) before tids o
  after_request k before tids req o h within = record {
    extra = req ∷ within.extra;
    appended = within.appended ∙ append_assoc before (req ∷ []) within.extra;
    few = let few = within.few in omega arith;
    exact = (h, within.exact);
    same = within.same;
  }

  pub if-Within :
      (k : ℕ) (before : List Sent) (tids : List Bytes) (b : Bool) (x y : Outcome)
      → Within sizes k before tids x
      → Within sizes k before tids y
      → Within sizes k before tids (if b then x else y)
  if-Within k before tids true x y h h' = h
  if-Within k before tids false x y h h' = h'

  module _ (is_url : Bytes → Bool) where
    on_connection-Limited :
        (k : ℕ) (f : Exchange → World → Outcome)
        → ((x : Exchange) → Limited sizes k (f x))
        → (exchanges : List Exchange) → Limited sizes k (on_connection err is_url exchanges f)
    unfolding on_connection
    on_connection-Limited k f h [] w = idle k _ w
    on_connection-Limited k f h (x ∷ xs) w = elim (Bool-cases x.connects) [
      | inl made ↦ rw (made, on_connection) (h x (record w { exchanges = xs }))
      | inr refused ↦ rw (refused, on_connection) (idle k _ (record w { exchanges = xs }))
    ]

    pub with_connection-Limited :
        (k : ℕ) (uri : Bytes) (f : Exchange → World → Outcome)
        → ((x : Exchange) → Limited sizes k (f x))
        → Limited sizes k (with_connection err is_url uri f)
    unfolding with_connection
    with_connection-Limited k uri f h w = elim (Bool-cases (is_url uri)) [
      | inl good ↦ rw (good, with_connection) (on_connection-Limited k f h w.exchanges w)
      | inr bad ↦ rw (bad, with_connection) (idle k _ w)
    ]

    pub send-Limited :
        (k : ℕ) (otherwise : HttpError) (req : Sent) (resp : Option Response)
        (f : Response → World → Outcome)
        → RequestIsExact sizes req
        → ((r : Response) → Limited sizes k (f r))
        → Limited sizes (k + 1) (send err is_url otherwise req resp f)
    unfolding send
    send-Limited k otherwise req none f exact h w =
        let w' = record w { sent = w.sent ++ req ∷ [] } in
        after_request k w.sent w.recorded_tids req _ exact (idle k _ w')
    send-Limited k otherwise req (some r) f exact h w =
        let w' = record w { sent = w.sent ++ req ∷ [] } in
        after_request k w.sent w.recorded_tids req (f r w') exact (h r w')

module _ (platform : Platform) where
  abbrev sizes : Bytes → ℕ
  sizes = platform.file_size

  pub on_text-Limited :
      (k : ℕ) (otherwise : HttpError) (to_end : Bool) (body : Option Body)
      → Limited sizes k (on_text platform otherwise to_end body)
  unfolding on_text
  on_text-Limited k otherwise to_end none w = idle sizes k _ w
  on_text-Limited k otherwise true (some body) w =
      if-Within sizes k _ _ (platform.is_utf8 body.received) _ _
        (if-Within sizes k _ _ body.complete _ _ (idle sizes k _ w) (idle sizes k _ w))
        (idle sizes k _ w)
  on_text-Limited k otherwise false (some body) w =
      if-Within sizes k _ _ (platform.is_utf8 body.received) _ _ (idle sizes k _ w)
        (idle sizes k _ w)

  pub failure-Limited :
      (k : ℕ) (r : Response) → Limited sizes k (http_failure err platform.is_url r)
  unfolding http_failure
  failure-Limited k r w = idle sizes k _ w
