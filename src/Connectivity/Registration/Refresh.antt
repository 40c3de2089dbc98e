-- ===== src/Connectivity/Registration/Refresh.antt =====
-- The tasks that refresh a registration, over every run of the handlers.
use rust_rcs_client.Common.{
  ℕ, ◌+◌, Bool, true, false, ◌&&◌, List, [], ◌∷◌, Option, none, some, ◌≡◌, refl, ap, inl, inr,
  arith, Bytes, leb, ltb, ◌==◌, Bool-cases, any, All,
}
use rust_rcs_client.Connectivity.Registration.{
  RegistrationState, idle, requesting, registered, released, Registration, Effect, send_register,
  authenticated, sleep_until, Response, start_register, deregister, release, schedule_refresh,
  refresh, on_success, on_accepted, on_challenge, on_final_response,
}

-- A registration, the expirations that tasks were spawned for, the failure counts of the requests
-- that were sent, and whether the flow manager has been given the registration.
pub record Client : Type 0 where
  pub registration : Registration
  pub tasks : List ℕ
  pub requests : List ℕ
  pub observed : Bool

-- what an effect leaves behind
abbrev perform : Effect → Client → Client
perform (send_register n seq) c = record c { requests = n ∷ c.requests }
perform (sleep_until e) c = record c { tasks = e ∷ c.tasks }
perform (authenticated impu) c = record c { observed = true }
perform _ c = c

abbrev pub perform_all : List Effect → Client → Client
perform_all [] c = c
perform_all (e ∷ es) c = perform_all es (perform e c)

-- a handler on the registration of the client, with its effects
abbrev pub after : Client → Registration × List Effect → Client
after c (r, effects) = perform_all effects (record c { registration = r })

abbrev pub member : ℕ → List ℕ → Bool
member x xs = any (λ y. y == x) xs

abbrev pub initial : Client
initial = record {
  registration = record { seq = 0; state = idle };
  tasks = [];
  requests = [];
  observed = false;
}

-- The steps of a client. A response and a transport error answer a request that was sent, a task
-- wakes that was spawned, and only a flow manager that has the registration reports an expiration.
pub data Step (tmpu : Bytes) : Client → Client → Type 0 where
  start : (c : Client) → Step tmpu c (after c (start_register c.registration))
  stop : (c : Client) → Step tmpu c (after c (deregister c.registration))
  response :
      (now n : ℕ) (m : Response) (c : Client)
      → member n c.requests ≡ true
      → Step tmpu c (after c (on_final_response tmpu now n m c.registration))
  transport_error :
      (n : ℕ) (c : Client)
      → member n c.requests ≡ true
      → Step tmpu c (after c (release c.registration))
  expiration_refreshed :
      (e : ℕ) (c : Client)
      → c.observed ≡ true
      → Step tmpu c (after c (c.registration, schedule_refresh e c.registration.state))
  wake :
      (e : ℕ) (c : Client)
      → member e c.tasks ≡ true
      → Step tmpu c (after c (refresh e c.registration))

pub data Reachable (tmpu : Bytes) : Client → Type 0 where
  begin : Reachable tmpu initial
  step : (c d : Client) → Reachable tmpu c → Step tmpu c d → Reachable tmpu d

-- No task waits for the expiration that the registration has.
abbrev Keeps : RegistrationState → Client → Type 0
Keeps idle c = (c.tasks ≡ []) × ((c.requests ≡ []) × (c.observed ≡ false))
Keeps requesting c = (c.tasks ≡ []) × (c.observed ≡ false)
Keeps (registered impu e) c = All (λ (x : ℕ). (x == e) ≡ false) c.tasks
Keeps released c = Unit

abbrev Inv : Client → Type 0
Inv c = Keeps c.registration.state c

All-any :
    (e x : ℕ) (xs : List ℕ)
    → All (λ (y : ℕ). (y == e) ≡ false) xs
    → member x xs ≡ true
    → (x == e) ≡ false
All-any e x [] h m = absurd (cc m)
All-any e x (y ∷ ys) h m = elim (Bool-cases (y == x)) [
  | inl same ↦ ground (arith, h.0, same)
  | inr other ↦ All-any e x ys h.1 (ground (arith, m, other))
]

abbrev client : ℕ → RegistrationState → List ℕ → List ℕ → Bool → Client
client seq state tasks requests observed = record {
  registration = record { seq = seq; state = state };
  tasks = tasks;
  requests = requests;
  observed = observed;
}

module _ (seq : ℕ) (tasks requests : List ℕ) (observed : Bool) where
  start-Inv :
      (st : RegistrationState)
      → Inv (client seq st tasks requests observed)
      → Inv (
          after
            (client seq st tasks requests observed)
            (start_register (record { seq = seq; state = st })))
  unfolding start_register
  start-Inv idle h = (h.0, h.1.1)
  start-Inv requesting h = h
  start-Inv (registered impu e) h = h
  start-Inv released h = h

  stop-Inv :
      (st : RegistrationState)
      → Inv (client seq st tasks requests observed)
      → Inv (
          after
            (client seq st tasks requests observed)
            (deregister (record { seq = seq; state = st })))
  unfolding deregister
  stop-Inv idle h = h
  stop-Inv requesting h = h
  stop-Inv (registered impu e) h = tt
  stop-Inv released h = h

  schedule-registered :
      (impu : Bytes) (e x : ℕ)
      → All (λ (y : ℕ). (y == e) ≡ false) tasks
      → Inv (
          after (client seq (registered impu e) tasks requests observed) (
            record { seq = seq; state = registered impu e },
            schedule_refresh x (registered impu e),
          ))
  unfolding schedule_refresh
  schedule-registered impu e x h = elim (Bool-cases (x == e)) [
    | inl same ↦ rw same h
    | inr other ↦ rw other (other, h)
  ]

  schedule-Inv :
      (x : ℕ) (st : RegistrationState)
      → observed ≡ true
      → Inv (client seq st tasks requests observed)
      → Inv (
          after
            (client seq st tasks requests observed)
            (record { seq = seq; state = st }, schedule_refresh x st))
  schedule-Inv x idle seen h = absurd (cc (seen, h.1.1))
  schedule-Inv x requesting seen h = absurd (cc (seen, h.1))
  schedule-Inv x (registered impu e) seen h = schedule-registered impu e x h
  schedule-Inv x released seen h = unfold schedule_refresh in tt

  wake-Inv :
      (x : ℕ) (st : RegistrationState)
      → Inv (client seq st tasks requests observed)
      → Inv (
          after
            (client seq st tasks requests observed)
            (refresh x (record { seq = seq; state = st })))
  unfolding refresh
  wake-Inv x idle h = h
  wake-Inv x requesting h = h
  wake-Inv x (registered impu e) h = elim (Bool-cases (x == e)) [
    | inl same ↦ rw same h
    | inr other ↦ rw other h
  ]
  wake-Inv x released h = h

  challenge-answered :
      (n : ℕ) (st : RegistrationState)
      → member n requests ≡ true
      → Inv (client seq st tasks requests observed)
      → (seq' k : ℕ) → Inv (client seq' st tasks (k ∷ requests) observed)
  challenge-answered n idle sent h seq' k = absurd (cc (sent, ap (member n) h.1.0))
  challenge-answered n requesting sent h seq' k = h
  challenge-answered n (registered impu e) sent h seq' k = h
  challenge-answered n released sent h seq' k = tt

  challenge-Inv :
      (n : ℕ) (answered : Bool) (st : RegistrationState)
      → member n requests ≡ true
      → Inv (client seq st tasks requests observed)
      → Inv (
          after
            (client seq st tasks requests observed)
            (on_challenge n answered (record { seq = seq; state = st })))
  unfolding on_challenge release
  challenge-Inv n answered st sent h = elim (Bool-cases (ltb 0 n)) [
    | inl again ↦ rw again tt
    | inr first ↦ elim (Bool-cases answered) [
      | inl read ↦ rw (first, read) (challenge-answered n st sent h _ 1)
      | inr unread ↦ rw (first, unread) tt
    ]
  ]

  success-Inv :
      (n : ℕ) (impu : Bytes) (expiration : ℕ) (st : RegistrationState)
      → member n requests ≡ true
      → Inv (client seq st tasks requests observed)
      → Inv (
          after
            (client seq st tasks requests observed)
            (on_success impu expiration (record { seq = seq; state = st })))
  unfolding on_success schedule_refresh
  success-Inv n impu expiration idle sent h = absurd (cc (sent, ap (member n) h.1.0))
  success-Inv n impu expiration requesting sent h =
      let same : (expiration == expiration) ≡ true = ground arith in rw same (rw h.0 tt)
  success-Inv n impu expiration (registered impu' e) sent h =
      schedule-registered impu' e expiration h
  success-Inv n impu expiration released sent h = tt

  accepted-Inv :
      (n : ℕ) (impu : Bytes) (now : ℕ) (expires : Option ℕ) (st : RegistrationState)
      → member n requests ≡ true
      → Inv (client seq st tasks requests observed)
      → Inv (
          after
            (client seq st tasks requests observed)
            (on_accepted impu now expires (record { seq = seq; state = st })))
  unfolding on_accepted release
  accepted-Inv n impu now none st sent h = tt
  accepted-Inv n impu now (some e) st sent h = success-Inv n impu (now + e) st sent h

  response-Inv :
      (tmpu : Bytes) (now n : ℕ) (m : Response) (st : RegistrationState)
      → member n requests ≡ true
      → Inv (client seq st tasks requests observed)
      → Inv (
          after
            (client seq st tasks requests observed)
            (on_final_response tmpu now n m (record { seq = seq; state = st })))
  unfolding on_final_response release
  response-Inv tmpu now n m st sent h =
      elim (Bool-cases (leb 200 m.status_code && ltb m.status_code 300)) [
        | inl success ↦ rw success (accepted-Inv n _ now _ st sent h)
        | inr failure ↦ elim (Bool-cases (m.status_code == 401)) [
          | inl challenge ↦ rw (failure, challenge) (challenge-Inv n m.answered st sent h)
          | inr other ↦ rw (failure, other) tt
        ]
      ]

Step-Inv : (tmpu : Bytes) (c d : Client) → Step tmpu c d → Inv c → Inv d
Step-Inv tmpu _ _ (start c) h =
    start-Inv c.registration.seq c.tasks c.requests c.observed c.registration.state h
Step-Inv tmpu _ _ (stop c) h =
    stop-Inv c.registration.seq c.tasks c.requests c.observed c.registration.state h
Step-Inv tmpu _ _ (response now n m c sent) h =
    response-Inv c.registration.seq c.tasks c.requests c.observed tmpu now n m c.registration.state
      sent h
Step-Inv tmpu _ _ (transport_error n c sent) h = unfold release in tt
Step-Inv tmpu _ _ (expiration_refreshed e c seen) h =
    schedule-Inv c.registration.seq c.tasks c.requests c.observed e c.registration.state seen h
Step-Inv tmpu _ _ (wake e c waits) h =
    wake-Inv c.registration.seq c.tasks c.requests c.observed e c.registration.state h

Reachable-Inv : (tmpu : Bytes) (c : Client) → Reachable tmpu c → Inv c
Reachable-Inv tmpu _ begin = (refl, (refl, refl))
Reachable-Inv tmpu _ (step c d r s) = Step-Inv tmpu c d s (Reachable-Inv tmpu c r)

refresh-idle :
    (e seq : ℕ) (state : RegistrationState) (c : Client)
    → Keeps state c
    → member e c.tasks ≡ true
    → refresh e (record { seq = seq; state = state }) ≡ (record { seq = seq; state = state }, [])
unfolding refresh
refresh-idle e seq idle c h waits = refl
refresh-idle e seq requesting c h waits = refl
refresh-idle e seq (registered impu x) c h waits = rw (All-any x e c.tasks h waits) refl
refresh-idle e seq released c h waits = refl

-- In every run, a task that wakes to refresh the registration does nothing: the registration stays as
-- it is, and no REGISTER is sent.
pub refresh-never :
    (tmpu : Bytes) (c : Client) (e : ℕ)
    → Reachable tmpu c
    → member e c.tasks ≡ true
    → refresh e c.registration ≡ (c.registration, [])
refresh-never tmpu c e r waits =
    refresh-idle e c.registration.seq c.registration.state c (Reachable-Inv tmpu c r) waits
