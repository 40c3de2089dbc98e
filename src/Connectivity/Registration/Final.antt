-- ===== src/Connectivity/Registration/Final.antt =====
-- The end of a registration: no step takes it out of `RELEASED`.
use rust_rcs_client.Common.{
  ℕ, Bool, ◌&&◌, List, [], ◌∷◌, Option, none, some, ◌≡◌, refl, ap, ◌∙◌, inl, inr, Bytes, leb, ltb,
  ◌==◌, Bool-cases,
}
use rust_rcs_client.Connectivity.Registration.{
  released, Registration, Effect, send_register, send_deregister, registered_event, released_event,
  authenticated, sleep_until, Response, start_register, deregister, release, schedule_refresh,
  refresh, on_success, on_accepted, on_challenge, on_final_response,
}
use rust_rcs_client.Connectivity.Registration.Refresh.{
  Client, after, perform_all, Step, start, stop, response, transport_error, expiration_refreshed,
  wake,
}

-- Effects leave the registration to the handler.
perform_all-registration :
    (effects : List Effect) (c : Client) → (perform_all effects c).registration ≡ c.registration
perform_all-registration [] c = refl
perform_all-registration (send_register n seq ∷ es) c = perform_all-registration es _
perform_all-registration (send_deregister seq ∷ es) c = perform_all-registration es c
perform_all-registration (registered_event impu ∷ es) c = perform_all-registration es c
perform_all-registration (released_event ∷ es) c = perform_all-registration es c
perform_all-registration (authenticated impu ∷ es) c = perform_all-registration es _
perform_all-registration (sleep_until e ∷ es) c = perform_all-registration es _

after-state :
    (c : Client) (outcome : Registration × List Effect)
    → outcome.0.state ≡ released
    → (after c outcome).registration.state ≡ released
after-state c outcome h =
    ap (λ (r : Registration). r.state)
      (perform_all-registration outcome.1 (record c { registration = outcome.0 }))
    ∙ h

accepted-released :
    (impu : Bytes) (now : ℕ) (expires : Option ℕ) (r : Registration)
    → r.state ≡ released
    → (on_accepted impu now expires r).0.state ≡ released
unfolding on_accepted on_success release
accepted-released impu now none r h = refl
accepted-released impu now (some e) r h = rw (h, on_success) h

challenge-released :
    (n : ℕ) (answered : Bool) (r : Registration)
    → r.state ≡ released
    → (on_challenge n answered r).0.state ≡ released
unfolding on_challenge release
challenge-released n answered r h = elim (Bool-cases (ltb 0 n)) [
  | inl again ↦ rw again refl
  | inr first ↦ elim (Bool-cases answered) [
    | inl read ↦ rw (first, read) h
    | inr unread ↦ rw (first, unread) refl
  ]
]

response-released :
    (tmpu : Bytes) (now n : ℕ) (m : Response) (r : Registration)
    → r.state ≡ released
    → (on_final_response tmpu now n m r).0.state ≡ released
unfolding on_final_response release
response-released tmpu now n m r h =
    elim (Bool-cases (leb 200 m.status_code && ltb m.status_code 300)) [
      | inl success ↦ rw success (accepted-released _ now _ r h)
      | inr failure ↦ elim (Bool-cases (m.status_code == 401)) [
        | inl challenge ↦ rw (failure, challenge) (challenge-released n m.answered r h)
        | inr other ↦ rw (failure, other) refl
      ]
    ]

-- A registration that is released stays so, whatever the client does and whatever is received.
pub Step-released :
    (tmpu : Bytes) (c d : Client)
    → Step tmpu c d
    → c.registration.state ≡ released
    → d.registration.state ≡ released
unfolding start_register deregister release refresh
Step-released tmpu _ _ (start c) h =
    after-state c (start_register c.registration) (rw (h, start_register) h)
Step-released tmpu _ _ (stop c) h = after-state c (deregister c.registration) (rw (h, deregister) h)
Step-released tmpu _ _ (response now n m c sent) h =
    after-state c (on_final_response tmpu now n m c.registration)
      (response-released tmpu now n m c.registration h)
Step-released tmpu _ _ (transport_error n c sent) h = after-state c (release c.registration) refl
Step-released tmpu _ _ (expiration_refreshed e c seen) h =
    after-state c (c.registration, schedule_refresh e c.registration.state) h
Step-released tmpu _ _ (wake e c waits) h =
    after-state c (refresh e c.registration) (rw (h, refresh) h)
