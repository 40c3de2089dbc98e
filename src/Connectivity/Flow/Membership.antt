-- ===== src/Connectivity/Flow/Membership.antt =====
-- What the flows say, order and representation forgotten: which record is registered at which flow.
-- Under the invariant that ids are distinct, each update changes this relation in one place.
use rust_rcs_client.Common.{
  Bool, true, false, ◌&&◌, ◌||◌, List, [], ◌∷◌, ◌++◌, ◌≡◌, ap, inl, inr, arith, Bytes, bytes_eq,
  bytes_eq_iff, Bool-cases, All, any, Distinct, subst,
}
use rust_rcs_client.Connectivity.RegInfoXml.{ContactNode, RegistrationNode}
use rust_rcs_client.Connectivity.Flow.{
  AddressOfRecord, FlowInfo, has_record, create_aor, is_flow, is_created, create_aor_within_flow,
  is_empty,
}

-- the flow `f` holds the record `a`
abbrev pub holds : Bytes → Bytes → FlowInfo → Bool
holds f a flow = bytes_eq flow.flow_id f && has_record a flow.registerred_addresses

-- The abstract view: record `a` is registered at flow `f`.
abbrev pub registered : Bytes → Bytes → List FlowInfo → Bool
registered f a flows = any (holds f a) flows

-- Ids occur once, and no flow stays without a record.
pub record IsFlow (flow : FlowInfo) : Type 0 where
  pub records : Distinct (λ (a : AddressOfRecord). a.record_id) flow.registerred_addresses
  pub inhabited : is_empty flow.registerred_addresses ≡ false

pub record AreFlows (flows : List FlowInfo) : Type 0 where
  pub ids : Distinct (λ (flow : FlowInfo). flow.flow_id) flows
  pub each : All IsFlow flows

pub has_record-append :
    (k : Bytes) (xs : List AddressOfRecord) (x : AddressOfRecord)
    → has_record k (xs ++ x ∷ []) ≡ (has_record k xs || bytes_eq x.record_id k)
has_record-append k [] x = ground arith
has_record-append k (y ∷ ys) x = ground (arith, has_record-append k ys x)

-- A record is there after `create_aor`, as is what was there before.
pub has_record-create_aor :
    (k : Bytes) (xs : List AddressOfRecord) (node : RegistrationNode) (implicit : Bool)
    → has_record k (create_aor xs node implicit) ≡ (has_record k xs || bytes_eq node.id k)
unfolding create_aor
has_record-create_aor k xs node implicit = elim (Bool-cases (has_record node.id xs)) [
  | inl old ↦ rw old (elim (Bool-cases (bytes_eq node.id k)) [
    | inl same ↦
        let here = subst (λ j. has_record j xs ≡ true) ((bytes_eq_iff node.id k).0 same) old in
        rw here
    | inr apart ↦ rw apart (ground arith)
  ])
  | inr new ↦ rw new (has_record-append k xs _)
]

-- The relation after a creation: the pair is in it, and nothing else has changed.
pub registered-create_aor :
    (contact : ContactNode) (node : RegistrationNode) (f a : Bytes) (flows : List FlowInfo)
    → registered f a (create_aor_within_flow contact node flows)
      ≡ (registered f a flows || (bytes_eq contact.id f && bytes_eq node.id a))
unfolding create_aor_within_flow
registered-create_aor contact node f a [] =
    ground (arith, has_record-create_aor a [] node (is_created contact))
registered-create_aor contact node f a (flow ∷ flows) = elim (Bool-cases (is_flow contact flow)) [
  | inl here ↦
      let e : flow.flow_id ≡ contact.id = (bytes_eq_iff flow.flow_id contact.id).0 here in
      rw here (
        ground (
          arith,
          ap (λ (id : Bytes). bytes_eq id f) e,
          has_record-create_aor a flow.registerred_addresses node (is_created contact),
        ))
  | inr later ↦ rw later (ground (arith, registered-create_aor contact node f a flows))
]
