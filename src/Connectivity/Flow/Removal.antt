-- ===== src/Connectivity/Flow/Removal.antt =====
-- `remove_aor_within_flow` on the relation of flows and records.
use rust_rcs_client.Common.{
  Bool, true, false, not, ◌&&◌, ◌||◌, List, [], ◌∷◌, ◌≡◌, refl, ap, ◌∙◌, inl, inr, arith, Bytes,
  bytes_eq, bytes_eq_iff, if◌then◌else◌, Bool-cases, Option-cases, index_of, swap_remove, any,
  has_key, any-last_to_front, has_key-remove_key, subst,
}
use rust_rcs_client.Connectivity.RegInfoXml.{ContactNode, RegistrationNode}
use rust_rcs_client.Connectivity.Flow.{
  AddressOfRecord, FlowInfo, has_record, is_flow, remove_record, remove_aor_within_flow, is_empty,
}
use rust_rcs_client.Connectivity.Flow.Membership.{holds, registered, IsFlow, AreFlows}

-- the flow with its record removed
abbrev pub less : RegistrationNode → FlowInfo → FlowInfo
less node flow = record flow {
  registerred_addresses = remove_record node.id flow.registerred_addresses;
}

-- the steps of `remove_aor_within_flow`
pub remove_aor_later :
    (contact : ContactNode) (node : RegistrationNode) (flow : FlowInfo) (flows : List FlowInfo)
    → is_flow contact flow ≡ false
    → remove_aor_within_flow contact node (flow ∷ flows)
      ≡ flow ∷ remove_aor_within_flow contact node flows
unfolding remove_aor_within_flow
remove_aor_later contact node flow flows h =
    elim (Option-cases (index_of (is_flow contact) flows)) [
      | inl e ↦ ground arith
      | inr (i, e) ↦ ground arith
    ]

pub remove_aor_here :
    (contact : ContactNode) (node : RegistrationNode) (flow : FlowInfo) (flows : List FlowInfo)
    → is_flow contact flow ≡ true
    → remove_aor_within_flow contact node (flow ∷ flows) ≡ (
        if is_empty (less node flow).registerred_addresses
        then swap_remove 0 (less node flow ∷ flows)
        else less node flow ∷ flows)
unfolding remove_aor_within_flow
remove_aor_here contact node flow flows h = ground arith

-- Dropping the first of the flows, as `swap_remove` does.
any-swap_remove_first :
    (p : FlowInfo → Bool) (flow : FlowInfo) (flows : List FlowInfo)
    → any p (swap_remove 0 (flow ∷ flows)) ≡ any p flows
unfolding swap_remove
any-swap_remove_first p flow [] = refl
any-swap_remove_first p flow (g ∷ gs) = any-last_to_front p g gs

has_record-is_empty :
    (a : Bytes) (xs : List AddressOfRecord) → is_empty xs ≡ true → has_record a xs ≡ false
has_record-is_empty a [] h = refl
has_record-is_empty a (x ∷ xs) h = cc

-- what the flow itself says after the removal, emptied or not
holds-less :
    (contact : ContactNode) (node : RegistrationNode) (f a : Bytes) (flow : FlowInfo)
    → IsFlow flow
    → is_flow contact flow ≡ true
    → holds f a (less node flow)
      ≡ (holds f a flow && not (bytes_eq contact.id f && bytes_eq node.id a))
unfolding remove_record
holds-less contact node f a flow d here = ground (
  arith,
  has_key-remove_key (λ (x : AddressOfRecord). x.record_id) node.id a flow.registerred_addresses
      d.records,
  ap (λ (id : Bytes). bytes_eq id f) ((bytes_eq_iff flow.flow_id contact.id).0 here),
)

-- no other flow has the id of one that is there
registered_elsewhere :
    (f a : Bytes) (flows : List FlowInfo)
    → has_key (λ (x : FlowInfo). x.flow_id) f flows ≡ false
    → registered f a flows ≡ false
registered_elsewhere f a [] h = refl
registered_elsewhere f a (flow ∷ flows) h = ground (arith, registered_elsewhere f a flows)

registered-removed :
    (contact : ContactNode) (node : RegistrationNode) (f a : Bytes) (flow : FlowInfo)
    (flows : List FlowInfo)
    → is_flow contact flow ≡ true
    → registered f a (remove_aor_within_flow contact node (flow ∷ flows))
      ≡ (holds f a (less node flow) || registered f a flows)
registered-removed contact node f a flow flows here =
    rw (remove_aor_here contact node flow flows here)
      (elim (Bool-cases (is_empty (less node flow).registerred_addresses)) [
        | inl emptied ↦ rw emptied (
            any-swap_remove_first (holds f a) (less node flow) flows
            ∙ ground (arith, has_record-is_empty a (less node flow).registerred_addresses emptied))
        | inr kept ↦ rw kept
      ])

-- the Boolean step: a pair at this flow's id stands in no other flow
first_of_two :
    (contact : ContactNode) (node : RegistrationNode) (f a : Bytes) (flow : FlowInfo)
    (flows : List FlowInfo)
    → is_flow contact flow ≡ true
    → has_key (λ (x : FlowInfo). x.flow_id) flow.flow_id flows ≡ false
    → ((holds f a flow && not (bytes_eq contact.id f && bytes_eq node.id a))
        || registered f a flows)
      ≡ (registered f a (flow ∷ flows) && not (bytes_eq contact.id f && bytes_eq node.id a))
first_of_two contact node f a flow flows here unique = elim (Bool-cases (bytes_eq contact.id f)) [
  | inl same ↦
      let e : flow.flow_id ≡ f =
        (bytes_eq_iff flow.flow_id contact.id).0 here ∙ (bytes_eq_iff contact.id f).0 same in
      let alone =
        registered_elsewhere f a flows
          (subst (λ id. has_key (λ (x : FlowInfo). x.flow_id) id flows ≡ false) e unique) in
      ground arith
  | inr apart ↦ ground arith
]

-- The relation after a removal: the pair is not in it, and nothing else has changed, whether or not
-- a flow lost its last record and went.
pub registered-remove_aor :
    (contact : ContactNode) (node : RegistrationNode) (f a : Bytes) (flows : List FlowInfo)
    → AreFlows flows
    → registered f a (remove_aor_within_flow contact node flows)
      ≡ (registered f a flows && not (bytes_eq contact.id f && bytes_eq node.id a))
registered-remove_aor contact node f a [] d = unfold remove_aor_within_flow in refl
registered-remove_aor contact node f a (flow ∷ flows) d = elim (Bool-cases (is_flow contact flow)) [
  | inl here ↦
      registered-removed contact node f a flow flows here
      ∙ rw (holds-less contact node f a flow d.each.0 here)
          (first_of_two contact node f a flow flows here d.ids.0)
  | inr later ↦ rw (remove_aor_later contact node flow flows later) (
      ground (
        arith,
        registered-remove_aor contact node f a flows (record { ids = d.ids.1; each = d.each.1 }),
        bytes_eq_iff flow.flow_id f,
        bytes_eq_iff flow.flow_id contact.id,
        bytes_eq_iff contact.id f,
      ))
]
