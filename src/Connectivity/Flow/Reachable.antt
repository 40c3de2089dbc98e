-- ===== src/Connectivity/Flow/Reachable.antt =====
-- What every run of the handlers of `FlowManager` keeps, in any order and with any arguments.
use rust_rcs_client.Common.{
  suc, ltb, ℕ, Bool, true, false, ◌&&◌, ◌||◌, List, [], ◌∷◌, Option, none, some, ◌≡◌, refl, inl,
  inr, arith, Bytes, if◌then◌else◌, ◌==◌, Bool-cases, Option-cases,
}
use rust_rcs_client.Core.{EqualsBytes}
use rust_rcs_client.Connectivity.Flow.{
  FlowInfo, Binding, ManagedFlow, Effect, stop_heartbeat, is_empty,
}
use rust_rcs_client.Connectivity.Flow.Handlers.{
  initial, observe_registration, stop_observation, stop_binding, on_registration_authenticated,
  lose_flow, current_flow, is_for_other, Notification, hear, settle, refresh, document_of,
}
use rust_rcs_client.Connectivity.Flow.Membership.{AreFlows}
use rust_rcs_client.Connectivity.Flow.Notify.{Achieves, apply_registrations-Achieves}

abbrev pub is_some {ℓ} : {A : Type ℓ} → Option A → Bool
is_some none = false
is_some (some x) = true

-- The guarded state, with how many closures are on their way to take the mutex again for `lose_flow`,
-- having let go of it after the loops over a document.
pub record Run : Type 0 where
  pub state : ManagedFlow
  pub losing : ℕ

-- The flows are well-formed, and there are some only while a transport is observed and a subscriber
-- is there to keep them up to date, or a closure is on its way to drop them.
pub record IsManaged (r : Run) : Type 0 where
  pub flows : AreFlows r.state.flows
  pub watched :
      (is_empty r.state.flows
        || ((is_some r.state.binding && is_some r.state.subscription) || ltb 0 r.losing))
      ≡ true

reset-IsManaged :
    (k : ℕ) (b : Option Binding)
    → IsManaged
        (record { state = record { binding = b; subscription = none; flows = [] }; losing = k })
reset-IsManaged k b = record { flows = record { ids = tt; each = tt }; watched = refl }

abbrev pub run_at : ManagedFlow → ℕ → Run
run_at s k = record { state = s; losing = k }

module _ (k : ℕ) where
  observe-IsManaged :
      (transport : ℕ) (address : Bytes) (registration : ℕ) (s : ManagedFlow)
      → IsManaged (run_at s k)
      → IsManaged (run_at (observe_registration transport address registration s).0 k)
  unfolding observe_registration
  observe-IsManaged transport address registration s m = elim (Option-cases s.subscription) [
    | inl e ↦ rw e (record { flows = m.flows; watched = ground (arith, m.watched, e) })
    | inr (x, e) ↦ rw e (reset-IsManaged k (some _))
  ]

  stop_binding-IsManaged :
      (transport : ℕ) (s : ManagedFlow) (b : Option Binding)
      → IsManaged (run_at s k)
      → IsManaged (run_at (stop_binding transport b s).0 k)
  unfolding stop_binding
  stop_binding-IsManaged transport s none m = m
  stop_binding-IsManaged transport s (some b) m = elim (Bool-cases (transport == b.transport)) [
    | inl e ↦ rw e (reset-IsManaged k none)
    | inr e ↦ rw e m
  ]

  authenticated-IsManaged :
      (impu : Bytes) (registration subscriber : ℕ) (s : ManagedFlow)
      → IsManaged (run_at s k)
      → IsManaged (run_at (on_registration_authenticated impu registration subscriber s) k)
  unfolding on_registration_authenticated
  authenticated-IsManaged impu registration subscriber s m =
      elim (Bool-cases (is_for_other registration s.binding)) [
        | inl e ↦ rw e m
        | inr e ↦ rw e (record { flows = m.flows; watched = ground (arith, m.watched) })
      ]

-- the closures on their way behind a step
abbrev pub then_losing : Bool → ℕ → ℕ
then_losing true k = suc k
then_losing false k = k

module _ (equals_bytes : EqualsBytes) (first_uri : Bytes → Option Bytes) where
  current-watched :
      (s : ManagedFlow) (found : Bytes × FlowInfo)
      → current_flow equals_bytes first_uri s ≡ some found
      → (is_some s.binding && is_some s.subscription) ≡ true
  unfolding current_flow
  current-watched s found e = elim (Option-cases s.binding) [
    | inl b ↦ ground (arith, e, b)
    | inr (x, b) ↦ elim (Option-cases s.subscription) [
      | inl u ↦ ground (arith, e, b, u)
      | inr (y, u) ↦ ground (arith, b, u)
    ]
  ]

  -- the state that a step leaves, with its closure on its way or not
  abbrev pub after_hearing : ℕ → ManagedFlow × List Effect × Bool → Run
  after_hearing k o = run_at o.0 (then_losing o.2 k)

  refresh-IsManaged :
      (k transport registration : ℕ) (s : ManagedFlow) (o : Option (Bytes × FlowInfo))
      → AreFlows s.flows
      → current_flow equals_bytes first_uri s ≡ o
      → IsManaged (after_hearing k (refresh equals_bytes first_uri transport registration s o))
  unfolding refresh
  refresh-IsManaged k transport registration s none d e = record {
    flows = d;
    watched = ground arith;
  }
  refresh-IsManaged k transport registration s (some found) d e = record {
    flows = d;
    watched = ground (arith, current-watched s found e);
  }

  settle-IsManaged :
      (k transport registration : ℕ) (s : ManagedFlow) (o : Option (List FlowInfo))
      (may_fail : Bool) (R : Bytes → Bytes → Bool)
      → Achieves may_fail R o
      → IsManaged (after_hearing k (settle equals_bytes first_uri transport registration s o))
  unfolding settle
  settle-IsManaged k transport registration s none may_fail R t = reset-IsManaged k s.binding
  settle-IsManaged k transport registration s (some flows) may_fail R (d, h) =
      refresh-IsManaged k transport registration (record s { flows = flows }) _ d refl

  hear-IsManaged :
      (k transport registration : ℕ) (n : Notification) (s : ManagedFlow)
      → IsManaged (run_at s k)
      → IsManaged (after_hearing k (hear equals_bytes first_uri transport registration n s))
  unfolding hear
  hear-IsManaged k transport registration n s m =
      elim (Option-cases (document_of equals_bytes first_uri n)) [
        | inl missing ↦
            rw (missing, hear) (record { flows = m.flows; watched = ground (arith, m.watched) })
        | inr (info, e) ↦
            rw (e, hear)
              (settle-IsManaged k transport registration s _ _ _
                (apply_registrations-Achieves info.registration_nodes s.flows m.flows))
      ]

  -- The mutex orders what is done while it is held, and each such stretch is one step. A NOTIFY takes it
  -- for its document, lets go of it, and may take it again to lose the flow: other steps can come
  -- between the two. A subscriber's closure keeps the transport and registration that it was made
  -- with, whatever is observed by then.
  pub data Step : Run → Run → Type 0 where
    observed :
        (k transport : ℕ) (address : Bytes) (registration : ℕ) (s : ManagedFlow)
        → Step (run_at s k) (run_at (observe_registration transport address registration s).0 k)
    stopped :
        (k transport : ℕ) (s : ManagedFlow)
        → Step (run_at s k) (run_at (stop_observation transport s).0 k)
    authenticated :
        (k : ℕ) (impu : Bytes) (registration subscriber : ℕ) (s : ManagedFlow)
        → Step
            (run_at s k)
            (run_at (on_registration_authenticated impu registration subscriber s) k)
    heard :
        (k transport registration : ℕ) (n : Notification) (s : ManagedFlow)
        → Step
            (run_at s k)
            (after_hearing k (hear equals_bytes first_uri transport registration n s))
    -- the second time for a NOTIFY
    lost_after : (k : ℕ) (s : ManagedFlow) → Step (run_at s (suc k)) (run_at (lose_flow s).0 k)
    -- `Terminated` and `SubscribeFailed`
    ended : (k : ℕ) (s : ManagedFlow) → Step (run_at s k) (run_at (lose_flow s).0 k)

  pub data Reachable : Run → Type 0 where
    new : Reachable (run_at initial 0)
    step : (r t : Run) → Reachable r → Step r t → Reachable t

  Step-IsManaged : (r t : Run) → Step r t → IsManaged r → IsManaged t
  unfolding stop_observation lose_flow
  Step-IsManaged _ _ (observed k transport address registration s) m =
      observe-IsManaged k transport address registration s m
  Step-IsManaged _ _ (stopped k transport s) m = stop_binding-IsManaged k transport s s.binding m
  Step-IsManaged _ _ (authenticated k impu registration subscriber s) m =
      authenticated-IsManaged k impu registration subscriber s m
  Step-IsManaged _ _ (heard k transport registration n s) m =
      hear-IsManaged k transport registration n s m
  Step-IsManaged _ _ (lost_after k s) m = reset-IsManaged k s.binding
  Step-IsManaged _ _ (ended k s) m = reset-IsManaged k s.binding

  -- In every state that the critical sections of the handlers reach from `FlowManager::new`, whatever
  -- their order, the ids of flows are distinct, and each flow has records, with distinct ids. Flows are
  -- kept only while there are both a binding and a subscription, or a handler that let go of the mutex
  -- is on its way to drop them.
  pub Reachable-IsManaged : (r : Run) → Reachable r → IsManaged r
  Reachable-IsManaged _ new = unfold initial in reset-IsManaged 0 none
  Reachable-IsManaged _ (step r t reached q) = Step-IsManaged r t q (Reachable-IsManaged r reached)

-- A transport that is observed is the one whose stop ends the observation: its stop gives the
-- registration back, ends the heart-beat and leaves the state of `FlowManager::new`, and the stop of
-- another changes nothing.
pub stop-observe :
    (transport other : ℕ) (address : Bytes) (registration : ℕ) (s : ManagedFlow)
    → stop_observation other (observe_registration transport address registration s).0 ≡ (
        if other == transport
        then (initial, some registration, stop_heartbeat transport ∷ [])
        else ((observe_registration transport address registration s).0, none, []))
unfolding stop_observation observe_registration stop_binding initial
stop-observe transport other address registration s = elim (Option-cases s.subscription) [
  | inl e ↦ rw e (elim (Bool-cases (other == transport)) [
    | inl same ↦ rw same refl
    | inr apart ↦ rw apart refl
  ])
  | inr (x, e) ↦ rw e (elim (Bool-cases (other == transport)) [
    | inl same ↦ rw same refl
    | inr apart ↦ rw apart refl
  ])
]
