-- ===== src/Connectivity/Flow/Notify.antt =====
-- A NOTIFY against its specification: what each contact does to the relation of flows and records.
use rust_rcs_client.Common.{
  ℕ, zero, suc, Bool, true, not, ◌&&◌, ◌||◌, List, [], ◌∷◌, Option, none, some, ◌≡◌, refl, sym, ap,
  ◌∙◌, inl, inr, arith, Bytes, bytes_eq, if◌then◌else◌, Bool-cases, Option-cases, index_of, modify,
  any, has_key, codes, ◌>>=◌,
}
use rust_rcs_client.Connectivity.RegInfoXml.{ContactNode, RegistrationNode}
use rust_rcs_client.Connectivity.Flow.{
  FlowInfo, is_flow, expires_of, update_aor_within_flow, any_of, apply_contact, apply_contacts,
  apply_registrations,
}
use rust_rcs_client.Connectivity.Flow.Membership.{
  holds, registered, AreFlows, registered-create_aor,
}
use rust_rcs_client.Connectivity.Flow.Removal.{registered-remove_aor}
use rust_rcs_client.Connectivity.Flow.Invariant.{create_aor-AreFlows, remove_aor-AreFlows}

-- An update of the expiry leaves ids and records as they are.
module _ (n : ℕ) where
  abbrev renew : FlowInfo → FlowInfo
  renew flow = record flow { expires = n }

  has_key-renew :
      (k : Bytes) (i : ℕ) (flows : List FlowInfo)
      → has_key (λ (x : FlowInfo). x.flow_id) k (modify renew i flows)
        ≡ has_key (λ (x : FlowInfo). x.flow_id) k flows
  unfolding modify
  has_key-renew k i [] = refl
  has_key-renew k zero (flow ∷ flows) = refl
  has_key-renew k (suc i) (flow ∷ flows) =
      ap (λ b. bytes_eq flow.flow_id k || b) (has_key-renew k i flows)

  registered-renew :
      (f a : Bytes) (i : ℕ) (flows : List FlowInfo)
      → registered f a (modify renew i flows) ≡ registered f a flows
  unfolding modify
  registered-renew f a i [] = refl
  registered-renew f a zero (flow ∷ flows) = refl
  registered-renew f a (suc i) (flow ∷ flows) =
      ap (λ b. holds f a flow || b) (registered-renew f a i flows)

  renew-AreFlows :
      (i : ℕ) (flows : List FlowInfo) → AreFlows flows → AreFlows (modify renew i flows)
  unfolding modify
  renew-AreFlows i [] d = d
  renew-AreFlows zero (flow ∷ flows) d = record {
    ids = d.ids;
    each = (record { records = d.each.0.records; inhabited = d.each.0.inhabited }, d.each.1);
  }
  renew-AreFlows (suc i) (flow ∷ flows) d =
      let rest = renew-AreFlows i flows (record { ids = d.ids.1; each = d.each.1 }) in
      record {
        ids = (has_key-renew flow.flow_id i flows ∙ d.ids.0, rest.ids);
        each = (d.each.0, rest.each);
      }

-- The abstract state, and what a contact does to it: `terminated` takes the pair of its flow and
-- record out, `active` with `created` or `registered` puts it in, all else leaves it.
abbrev pub Relation : Type 0
Relation = Bytes → Bytes → Bool

abbrev pub removes : ContactNode → Bool
removes contact =
    bytes_eq contact.state (codes "terminated")
    && any_of contact.event (codes "unregistered" ∷ codes "rejected" ∷ codes "deactivated" ∷ [])

abbrev pub creates : ContactNode → Bool
creates contact =
    bytes_eq contact.state (codes "active")
    && any_of contact.event (codes "created" ∷ codes "registered" ∷ [])

abbrev pub contact_effect : RegistrationNode → ContactNode → Relation → Relation
contact_effect node contact R f a =
    if removes contact
    then R f a && not (bytes_eq contact.id f && bytes_eq node.id a)
    else if creates contact
    then R f a || (bytes_eq contact.id f && bytes_eq node.id a)
    else R f a

-- a contact that extends or shortens a flow, which has to be there
abbrev pub renews : ContactNode → Bool
renews contact =
    bytes_eq contact.state (codes "active")
    && any_of contact.event (codes "shortened" ∷ codes "refreshed" ∷ [])

abbrev pub renews_any : List RegistrationNode → Bool
renews_any nodes = any (λ (node : RegistrationNode). any renews node.contact_nodes) nodes

-- What holds of the outcome of an update: the invariant, and the relation that is meant; it fails
-- only where it may.
abbrev pub Achieves : Bool → Relation → Option (List FlowInfo) → Type 0
Achieves may_fail R none = may_fail ≡ true
Achieves may_fail R (some flows) = AreFlows flows × ((f a : Bytes) → registered f a flows ≡ R f a)

Achieves-≡ :
    (b c : Bool) (R S : Relation) (outcome : Option (List FlowInfo))
    → (b ≡ true → c ≡ true)
    → ((f a : Bytes) → R f a ≡ S f a)
    → Achieves b R outcome
    → Achieves c S outcome
Achieves-≡ b c R S none i e t = i t
Achieves-≡ b c R S (some flows) i e (d, h) = (d, λ f a. h f a ∙ e f a)

update_aor-Achieves :
    (contact : ContactNode) (flows : List FlowInfo)
    → AreFlows flows
    → Achieves true (λ f a. registered f a flows) (update_aor_within_flow contact flows)
unfolding update_aor_within_flow
update_aor-Achieves contact flows d = elim (Option-cases (index_of (is_flow contact) flows)) [
  | inl e ↦ rw e refl
  | inr (i, e) ↦ rw e (
    renew-AreFlows (expires_of contact) i flows d,
    λ f a. registered-renew (expires_of contact) f a i flows,
  )
]

apply_contact-Achieves :
    (node : RegistrationNode) (contact : ContactNode) (flows : List FlowInfo)
    → AreFlows flows
    → Achieves
        (renews contact)
        (contact_effect node contact (λ f a. registered f a flows))
        (apply_contact node contact flows)
unfolding apply_contact
apply_contact-Achieves node contact flows d = elim (Bool-cases (removes contact)) [
  | inl gone ↦ rw gone (
    remove_aor-AreFlows contact node flows d,
    λ f a. rw gone (registered-remove_aor contact node f a flows d),
  )
  | inr stays ↦ rw stays (elim (Bool-cases (bytes_eq contact.state (codes "active"))) [
    | inr inactive ↦ rw inactive (d, λ f a. rw stays (rw inactive refl))
    | inl active ↦
        rw active
          (elim (Bool-cases (any_of contact.event (codes "created" ∷ codes "registered" ∷ []))) [
            | inl new ↦ rw new (
              create_aor-AreFlows contact node flows d,
              λ f a. rw stays (rw active (rw new (registered-create_aor contact node f a flows))),
            )
            | inr old ↦
                rw old
                  (elim (Bool-cases
                    (any_of contact.event (codes "shortened" ∷ codes "refreshed" ∷ []))) [
                      | inl renewed ↦ rw renewed (
                          Achieves-≡ true _ _ _ _ (λ h. h)
                            (λ f a. sym (rw stays (rw active (rw old refl))))
                            (update_aor-Achieves contact flows d))
                      | inr other ↦ rw other (d, λ f a. rw stays (rw active (rw old refl)))
                    ])
          ])
  ])
]

-- The effects of a document, one after the other.
abbrev pub contacts_effect : RegistrationNode → List ContactNode → Relation → Relation
contacts_effect node [] R = R
contacts_effect node (c ∷ cs) R = contacts_effect node cs (contact_effect node c R)

abbrev pub registrations_effect : List RegistrationNode → Relation → Relation
registrations_effect [] R = R
registrations_effect (node ∷ nodes) R =
    registrations_effect nodes (contacts_effect node node.contact_nodes R)

-- Effects read the relation at the point that they answer for.
contact_effect-pointwise :
    (node : RegistrationNode) (contact : ContactNode) (R S : Relation) (f a : Bytes)
    → R f a ≡ S f a
    → contact_effect node contact R f a ≡ contact_effect node contact S f a
contact_effect-pointwise node contact R S f a e = rw e refl

contacts_effect-pointwise :
    (node : RegistrationNode) (contacts : List ContactNode) (R S : Relation) (f a : Bytes)
    → R f a ≡ S f a
    → contacts_effect node contacts R f a ≡ contacts_effect node contacts S f a
contacts_effect-pointwise node [] R S f a e = e
contacts_effect-pointwise node (c ∷ cs) R S f a e =
    contacts_effect-pointwise node cs (contact_effect node c R) (contact_effect node c S) f a
      (contact_effect-pointwise node c R S f a e)

registrations_effect-pointwise :
    (nodes : List RegistrationNode) (R S : Relation) (f a : Bytes)
    → R f a ≡ S f a
    → registrations_effect nodes R f a ≡ registrations_effect nodes S f a
registrations_effect-pointwise [] R S f a e = e
registrations_effect-pointwise (node ∷ nodes) R S f a e =
    registrations_effect-pointwise nodes (contacts_effect node node.contact_nodes R)
      (contacts_effect node node.contact_nodes S) f a
      (contacts_effect-pointwise node node.contact_nodes R S f a e)

-- One update after another: the second is seen from what the first achieved.
Achieves-then :
    (b c : Bool) (R : Relation) (effect : Relation → Relation)
    (step : List FlowInfo → Option (List FlowInfo)) (outcome : Option (List FlowInfo))
    → ((Q : Relation) (f a : Bytes) → Q f a ≡ R f a → effect Q f a ≡ effect R f a)
    → ((flows : List FlowInfo)
        → AreFlows flows
        → Achieves c (effect (λ f a. registered f a flows)) (step flows))
    → Achieves b R outcome
    → Achieves (b || c) (effect R) (outcome >>= step)
Achieves-then b c R effect step none pointwise steps t = ground (arith, t)
Achieves-then b c R effect step (some flows) pointwise steps (d, e) =
    Achieves-≡ c (b || c) _ _ (step flows) (λ h. ground (arith, h))
      (λ f a. pointwise (λ f a. registered f a flows) f a (e f a)) (steps flows d)

apply_contacts-Achieves :
    (node : RegistrationNode) (contacts : List ContactNode) (flows : List FlowInfo)
    → AreFlows flows
    → Achieves
        (any renews contacts)
        (contacts_effect node contacts (λ f a. registered f a flows))
        (apply_contacts node contacts flows)
unfolding apply_contacts
apply_contacts-Achieves node [] flows d = (d, λ f a. refl)
apply_contacts-Achieves node (c ∷ cs) flows d =
    Achieves-then (renews c) (any renews cs) (contact_effect node c (λ f a. registered f a flows))
      (contacts_effect node cs) (apply_contacts node cs) (apply_contact node c flows)
      (λ Q f a. contacts_effect-pointwise node cs Q _ f a)
      (λ flows' d'. apply_contacts-Achieves node cs flows' d')
      (apply_contact-Achieves node c flows d)

-- A document brings about its effects, in its order, on which record is registered at which flow,
-- and leaves the flows well-formed. It fails only if a contact of it renews a flow.
pub apply_registrations-Achieves :
    (nodes : List RegistrationNode) (flows : List FlowInfo)
    → AreFlows flows
    → Achieves
        (renews_any nodes)
        (registrations_effect nodes (λ f a. registered f a flows))
        (apply_registrations nodes flows)
unfolding apply_registrations
apply_registrations-Achieves [] flows d = (d, λ f a. refl)
apply_registrations-Achieves (node ∷ nodes) flows d =
    Achieves-then (any renews node.contact_nodes) (renews_any nodes)
      (contacts_effect node node.contact_nodes (λ f a. registered f a flows))
      (registrations_effect nodes) (apply_registrations nodes)
      (apply_contacts node node.contact_nodes flows)
      (λ Q f a. registrations_effect-pointwise nodes Q _ f a)
      (λ flows' d'. apply_registrations-Achieves nodes flows' d')
      (apply_contacts-Achieves node node.contact_nodes flows d)
