-- ===== src/Messaging/FtHttp/Download/Contents.antt =====
-- What a download that succeeds leaves in the file, and which downloads cannot succeed.
use rust_rcs_client.Common.{
  ◌⊎◌, ℕ, ◌<◌, Bool, true, false, List, [], ◌∷◌, ◌++◌, Option, none, some, ◌≡◌, ◌≢◌, refl, sym, ap,
  ◌∙◌, inl, inr, arith, Bytes, length, ◌==◌, if◌then◌else◌, Bool-cases, Option-cases,
}
use rust_rcs_client.Http.{
  HttpError, network_io, DigestAnswer, Body, Response, Exchange, Sent, World, effective,
  on_connection, with_connection, send, http_failure,
}
use rust_rcs_client.Messaging.FtHttp.Download.{
  Reply, ok, err, Outcome, Platform, OpenFile, drop, copied, size_verified, open_create,
  open_append, request, failed, never, on_copied, on_open, on_body, on_unauthorized, on_response,
  download_file_with, download_file,
}

pub data Among (x : Exchange) : List Exchange → Type 0 where
  first : (xs : List Exchange) → Among x (x ∷ xs)
  later : (y : Exchange) (xs : List Exchange) → Among x xs → Among x (y ∷ xs)

-- the exchanges of a list are all among those that the network had from the start on
abbrev From : List Exchange → List Exchange → Type 0
From start xs = (x : Exchange) → Among x xs → Among x start

module _ (network : List Exchange) (P : Reply → Type 0) where
  -- A run that satisfies `P` from every world with what is left of the network.
  abbrev Always : (World → Outcome) → Type 0
  Always f = (w : World) → From network w.exchanges → P (f w).0

  if-Always : (b : Bool) (x y : Outcome) → P x.0 → P y.0 → P (if b then x else y).0
  if-Always true x y h k = h
  if-Always false x y h k = k

  module _ (failed : HttpError → Reply) (fine : (e : HttpError) → P (failed e))
      (is_url : Bytes → Bool) where
    on_connection-Always :
        (f : Exchange → World → Outcome) (exchanges : List Exchange)
        → From network exchanges
        → ((x : Exchange) → Among x network → Always (f x))
        → (w : World) → P (on_connection failed is_url exchanges f w).0
    unfolding on_connection
    on_connection-Always f [] from h w = fine network_io
    on_connection-Always f (x ∷ xs) from h w = elim (Bool-cases x.connects) [
      | inl made ↦
          rw (made, on_connection)
            (h x (from x (first xs)) (record w { exchanges = xs }) (λ y m. from y (later x xs m)))
      | inr refused ↦ rw (refused, on_connection) (fine network_io)
    ]

    with_connection-Always :
        (uri : Bytes) (f : Exchange → World → Outcome)
        → ((x : Exchange) → Among x network → Always (f x))
        → Always (with_connection failed is_url uri f)
    unfolding with_connection
    with_connection-Always uri f h w from = elim (Bool-cases (is_url uri)) [
      | inl good ↦ rw (good, with_connection) (on_connection-Always f w.exchanges from h w)
      | inr bad ↦ rw (bad, with_connection) (fine _)
    ]

    send-Always :
        (otherwise : HttpError) (req : Sent) (resp : Option Response)
        (f : Response → World → Outcome)
        → ((r : Response) → resp ≡ some r → Always (f r))
        → Always (send failed is_url otherwise req resp f)
    unfolding send
    send-Always otherwise req none f h w from = fine otherwise
    send-Always otherwise req (some r) f h w from =
        h r refl (record w { sent = w.sent ++ req ∷ [] }) from

abbrev pub held : Option Bytes → Bytes
held none = []
held (some old) = old

module _ (platform : Platform) where
  open_create-held :
      (file : Option Bytes) (f : OpenFile)
      → open_create platform file ≡ some f
      → f ≡ record { contents = held file; position = 0; appends = false }
  unfolding open_create
  open_create-held none f e = elim (Bool-cases platform.creates) [
    | inl can ↦ ground (arith, e, can)
    | inr cannot ↦ absurd (ground (arith, e, cannot))
  ]
  open_create-held (some old) f e = elim (Bool-cases platform.opens) [
    | inl can ↦ ground (arith, e, can)
    | inr cannot ↦ absurd (ground (arith, e, cannot))
  ]

  open_append_position :
      (file : Option Bytes) (f : OpenFile)
      → ((n : ℕ) → platform.append_position n ≡ 0)
      → open_append platform file ≡ some f
      → f.position ≡ 0
  unfolding open_append
  open_append_position none f posix e =
      ap (λ (g : OpenFile). g.position) (open_create-held none f e)
  open_append_position (some old) f posix e = elim (Bool-cases platform.opens) [
    | inl can ↦
        let opened : OpenFile = record {
          contents = old;
          position = platform.append_position (length old);
          appends = true;
        } in
        let same : opened ≡ f = ground (arith, e, can) in
        sym (ap (λ (g : OpenFile). g.position) same) ∙ posix (length old)
    | inr cannot ↦
        ap (λ (g : OpenFile). g.position)
          (open_create-held (some old) f (ground (arith, e, cannot)))
  ]

-- a body that the network answers a request with, under 200, and that is read to its end
pub record Answered (network : List Exchange) (body : Body) : Type 0 where
  pub exchange : Exchange
  pub resp : Response
  pub came : Among exchange network
  pub answered : exchange.response ≡ some resp
  pub success : (resp.status_code == 200) ≡ true
  pub has_body : resp.body ≡ some body
  pub whole : body.complete ≡ true

module _ (platform : Platform) (file_uri : Bytes) (start : ℕ) (total : Option ℕ)
    (msisdn file : Option Bytes) (network : List Exchange) where
  -- The file was opened at the start that was asked for, and the body of an answer was copied, so much
  -- as was announced.
  pub record Accepted (left : Option Bytes) : Type 0 where
    pub f : OpenFile
    pub body : Body
    pub answer : Answered network body
    pub opened :
        (if start == 0 then open_create platform file else open_append platform file) ≡ some f
    pub placed : f.position ≡ start
    pub sized : size_verified start total (length body.received) ≡ true
    pub holds : left ≡ some (copied f body.received)

  abbrev Sound : Reply → Type 0
  Sound (ok left) = Accepted left
  Sound (err e left) = Unit

  on_open-Sound :
      (o : Option OpenFile) (body : Body)
      → (if start == 0 then open_create platform file else open_append platform file) ≡ o
      → (body.complete ≡ true → Answered network body)
      → (w : World) → Sound (on_open platform file_uri start total msisdn file o body w).0
  unfolding on_open on_copied
  on_open-Sound none body e answer w = tt
  on_open-Sound (some f) body e answer w = elim (Bool-cases (f.position == start)) [
    | inr elsewhere ↦ rw (elsewhere, on_open) tt
    | inl here ↦ elim (Bool-cases body.complete) [
      | inr broken ↦ rw (here, on_open) (rw (broken, on_copied) tt)
      | inl whole ↦ elim (Bool-cases (size_verified start total (length body.received))) [
        | inr short ↦ rw (here, on_open) (rw (whole, short, on_copied) tt)
        | inl right ↦
            rw (here, on_open)
              (rw (whole, right, on_copied)
                (record {
                  f = f;
                  body = body;
                  answer = answer whole;
                  opened = e;
                  placed = ground (arith, here);
                  sized = right;
                  holds = refl;
                }))
      ]
    ]
  ]

  on_body-Sound :
      (body : Option Body)
      → ((b : Body) → body ≡ some b → b.complete ≡ true → Answered network b)
      → (w : World) → Sound (on_body platform file_uri start total msisdn file body w).0
  unfolding on_body
  on_body-Sound none answer w = tt
  on_body-Sound (some body) answer w = on_open-Sound _ body refl (answer body refl) w

  on_unauthorized-Sound :
      (used : Option DigestAnswer) (again : DigestAnswer → World → Outcome)
      → ((a : DigestAnswer) → Always network Sound (again a))
      → (r : Response)
      → Always network Sound
          (on_unauthorized platform file_uri start total msisdn file used again r)
  unfolding on_unauthorized
  on_unauthorized-Sound (some answer) again h r w from = tt
  on_unauthorized-Sound none again h r w from = elim (Option-cases r.answer) [
    | inl silent ↦ rw (silent, on_unauthorized) tt
    | inr (answer, there) ↦ rw (there, on_unauthorized) (h answer w from)
  ]

  on_response-Sound :
      (used : Option DigestAnswer) (again : DigestAnswer → World → Outcome)
      → ((a : DigestAnswer) → Always network Sound (again a))
      → (x : Exchange) → Among x network
      → (r : Response) → x.response ≡ some r
      → Always network Sound (on_response platform file_uri start total msisdn file used again r)
  unfolding on_response http_failure
  on_response-Sound used again h x came r answered w from =
      elim (Bool-cases (r.status_code == 200)) [
        | inl success ↦
            rw (success, on_response)
              (on_body-Sound r.body
                (λ b has_body whole. record {
                  exchange = x;
                  resp = r;
                  came = came;
                  answered = answered;
                  success = success;
                  has_body = has_body;
                  whole = whole;
                })
                w)
        | inr other ↦
            rw (other, on_response)
              (if-Always network Sound (r.status_code == 401) _ _
                (on_unauthorized-Sound used again h r w from) tt)
      ]

  download_file_with-Sound :
      (digest : Option DigestAnswer) (again : DigestAnswer → World → Outcome)
      → ((a : DigestAnswer) → Always network Sound (again a))
      → Always network Sound
          (download_file_with platform file_uri start total msisdn file digest again)
  unfolding download_file_with
  download_file_with-Sound digest again h w from =
      let failure = failed platform file_uri start total msisdn file in
      let fine : (e : HttpError) → Sound (failure e) = λ e. tt in
      let req = λ (x : Exchange).
        request platform file_uri start total msisdn file (effective digest x.preloaded) in
      let answer = λ (x : Exchange).
        on_response platform file_uri start total msisdn file (effective digest x.preloaded)
          again in
      with_connection-Always network Sound failure fine platform.is_url file_uri
        (λ x. send failure platform.is_url network_io (req x) x.response (answer x))
        (λ x came.
          send-Always network Sound failure fine platform.is_url network_io (req x) x.response
            (answer x) (on_response-Sound (effective digest x.preloaded) again h x came))
        w from

  download_file-Sound :
      (digest : Option DigestAnswer)
      → Always network Sound (download_file platform file_uri start total msisdn file digest)
  unfolding download_file
  download_file-Sound none w from =
      let stop = never platform file_uri start total msisdn file in
      download_file_with-Sound none _
        (λ a. download_file_with-Sound (some a) stop (λ b v from'. tt)) w from
  download_file-Sound (some answer) w from =
      let stop = never platform file_uri start total msisdn file in
      download_file_with-Sound (some answer) stop (λ b v from'. tt) w from

size_verified_total :
    (total : Option ℕ) (n : ℕ) → size_verified 0 total n ≡ true → (total ≡ none) ⊎ (total ≡ some n)
unfolding size_verified
size_verified_total none n e = inl refl
size_verified_total (some total) n e =
    let same : n ≡ total = ground (arith, e) in inr (ap some (sym same))

-- The first download of a file, or one that starts again: if it succeeds, the file begins with the
-- body of an answer of the network with the status 200, read to its end, which is as long as was
-- announced, if that was; behind it stands what an older and longer file had there.
pub download_file-contents :
    (platform : Platform) (file_uri : Bytes) (total : Option ℕ) (msisdn file : Option Bytes)
    (digest : Option DigestAnswer) (w after : World) (left : Option Bytes)
    → download_file platform file_uri 0 total msisdn file digest w ≡ (ok left, after)
    → (body : Body) × Answered w.exchanges body
      × (left ≡ some (body.received ++ drop (length body.received) (held file)))
      × ((total ≡ none) ⊎ (total ≡ some (length body.received)))
unfolding open_create copied
download_file-contents platform file_uri total msisdn file digest w after left e =
    let sound =
      download_file-Sound platform file_uri 0 total msisdn file w.exchanges digest w (λ x m. m) in
    let accepted : Accepted platform file_uri 0 total msisdn file w.exchanges left =
      rw e at sound in
    (
      accepted.body,
      accepted.answer,
      accepted.holds ∙ rw (open_create-held platform file accepted.f accepted.opened) refl,
      size_verified_total total (length accepted.body.received) accepted.sized,
    )

-- On a system where a file that was just opened is at its beginning, also to append to it, as POSIX
-- has it, no download that starts behind the beginning succeeds.
pub download_file-resumed :
    (platform : Platform) (file_uri : Bytes) (start : ℕ) (total : Option ℕ)
    (msisdn file : Option Bytes) (digest : Option DigestAnswer) (w after : World)
    (left : Option Bytes)
    → 0 < start
    → ((n : ℕ) → platform.append_position n ≡ 0)
    → download_file platform file_uri start total msisdn file digest w ≢ (ok left, after)
unfolding open_create open_append
download_file-resumed platform file_uri start total msisdn file digest w after left h posix e =
    let sound =
      download_file-Sound platform file_uri start total msisdn file w.exchanges digest w
        (λ x m. m) in
    let accepted : Accepted platform file_uri start total msisdn file w.exchanges left =
      rw e at sound in
    let other : (start == 0) ≡ false = ground (arith, h) in
    let opened : open_append platform file ≡ some accepted.f = rw other at accepted.opened in
    let at_start = open_append_position platform file accepted.f posix opened in
    let placed = accepted.placed in absurd (omega arith)
