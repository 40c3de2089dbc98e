-- ===== src/Connectivity/Flow/Invariant.antt =====
-- The flows stay well-formed: ids occur once, and a flow that loses its last record goes.
use rust_rcs_client.Common.{
  Bool, true, false, ◌||◌, List, [], ◌∷◌, ◌++◌, ◌≡◌, refl, ◌∙◌, inl, inr, arith, Bytes, bytes_eq,
  bytes_eq_iff, Bool-cases, last_to_front, insert_second, swap_remove, All, has_key, Distinct,
  has_key-last_to_front, Distinct-last_to_front, Distinct-remove_key,
}
use rust_rcs_client.Connectivity.RegInfoXml.{ContactNode, RegistrationNode}
use rust_rcs_client.Connectivity.Flow.{
  AddressOfRecord, FlowInfo, has_record, create_aor, is_flow, is_created, create_aor_within_flow,
  expires_of, remove_record, remove_aor_within_flow, is_empty,
}
use rust_rcs_client.Connectivity.Flow.Membership.{IsFlow, AreFlows, has_record-append}
use rust_rcs_client.Connectivity.Flow.Removal.{less, remove_aor_later, remove_aor_here}

-- keys are untouched by a change of the addresses
has_key-create_aor :
    (contact : ContactNode) (node : RegistrationNode) (k : Bytes) (flows : List FlowInfo)
    → has_key (λ (x : FlowInfo). x.flow_id) k (create_aor_within_flow contact node flows)
      ≡ (has_key (λ (x : FlowInfo). x.flow_id) k flows || bytes_eq contact.id k)
unfolding create_aor_within_flow
has_key-create_aor contact node k [] = ground arith
has_key-create_aor contact node k (flow ∷ flows) = ground (
  arith,
  has_key-create_aor contact node k flows,
  bytes_eq_iff flow.flow_id k,
  bytes_eq_iff contact.id k,
  bytes_eq_iff flow.flow_id contact.id,
)

Distinct-append :
    (xs : List AddressOfRecord) (x : AddressOfRecord)
    → has_record x.record_id xs ≡ false
    → Distinct (λ (a : AddressOfRecord). a.record_id) xs
    → Distinct (λ (a : AddressOfRecord). a.record_id) (xs ++ x ∷ [])
Distinct-append [] x h d = (refl, tt)
Distinct-append (y ∷ ys) x h d = (
  ground (
    arith,
    has_record-append y.record_id ys x,
    bytes_eq_iff y.record_id x.record_id,
    bytes_eq_iff x.record_id y.record_id,
  ),
  Distinct-append ys x (ground arith) d.1,
)

is_empty-append :
    (xs : List AddressOfRecord) (x : AddressOfRecord) → is_empty (xs ++ x ∷ []) ≡ false
is_empty-append [] x = refl
is_empty-append (y ∷ ys) x = refl

has_record-inhabited :
    (k : Bytes) (xs : List AddressOfRecord) → has_record k xs ≡ true → is_empty xs ≡ false
has_record-inhabited k [] h = cc
has_record-inhabited k (x ∷ xs) h = refl

create_aor-IsFlow :
    (flow : FlowInfo) (node : RegistrationNode) (implicit : Bool)
    → Distinct (λ (a : AddressOfRecord). a.record_id) flow.registerred_addresses
    → IsFlow (record flow {
      registerred_addresses = create_aor flow.registerred_addresses node implicit;
    })
unfolding create_aor
create_aor-IsFlow flow node implicit d =
    elim (Bool-cases (has_record node.id flow.registerred_addresses)) [
      | inl old ↦ rw old (record { records = d; inhabited = has_record-inhabited node.id _ old })
      | inr new ↦ rw new (record {
        records = Distinct-append flow.registerred_addresses _ new d;
        inhabited = is_empty-append flow.registerred_addresses _;
      })
    ]

pub create_aor-AreFlows :
    (contact : ContactNode) (node : RegistrationNode) (flows : List FlowInfo)
    → AreFlows flows
    → AreFlows (create_aor_within_flow contact node flows)
unfolding create_aor_within_flow
create_aor-AreFlows contact node [] d = record {
  ids = (refl, tt);
  each = (
    create_aor-IsFlow
        (record {
          uri = contact.uri;
          flow_id = contact.id;
          expires = expires_of contact;
          registerred_addresses = [];
        })
        node (is_created contact) tt,
    tt,
  );
}
create_aor-AreFlows contact node (flow ∷ flows) d = elim (Bool-cases (is_flow contact flow)) [
  | inl here ↦ rw here (record {
    ids = d.ids;
    each = (create_aor-IsFlow flow node (is_created contact) d.each.0.records, d.each.1);
  })
  | inr later ↦
      let rest =
        create_aor-AreFlows contact node flows (record { ids = d.ids.1; each = d.each.1 }) in
      rw later (record {
        ids = (
          ground (
            arith,
            has_key-create_aor contact node flow.flow_id flows,
            d.ids.0,
            bytes_eq_iff contact.id flow.flow_id,
            bytes_eq_iff flow.flow_id contact.id,
          ),
          rest.ids,
        );
        each = (d.each.0, rest.each);
      })
]

All-insert_second :
    (P : FlowInfo → Type 0) (x : FlowInfo) (xs : List FlowInfo)
    → P x
    → All P xs
    → All P (insert_second x xs)
All-insert_second P x [] p ps = (p, tt)
All-insert_second P x (y ∷ ys) p ps = (ps.0, (p, ps.1))

All-last_to_front :
    (P : FlowInfo → Type 0) (x : FlowInfo) (xs : List FlowInfo)
    → P x
    → All P xs
    → All P (last_to_front x xs)
unfolding last_to_front
All-last_to_front P x [] p ps = (p, tt)
All-last_to_front P x (y ∷ ys) p ps =
    All-insert_second P x (last_to_front y ys) p (All-last_to_front P y ys ps.0 ps.1)

swap_remove_first-AreFlows :
    (flow : FlowInfo) (flows : List FlowInfo)
    → AreFlows flows
    → AreFlows (swap_remove 0 (flow ∷ flows))
unfolding swap_remove
swap_remove_first-AreFlows flow [] d = record { ids = tt; each = tt }
swap_remove_first-AreFlows flow (g ∷ gs) d = record {
  ids = Distinct-last_to_front (λ (x : FlowInfo). x.flow_id) g gs d.ids.0 d.ids.1;
  each = All-last_to_front IsFlow g gs d.each.0 d.each.1;
}

-- a removal brings in no id
has_key-swap_remove_first :
    (k : Bytes) (flow : FlowInfo) (flows : List FlowInfo)
    → has_key (λ (x : FlowInfo). x.flow_id) k (swap_remove 0 (flow ∷ flows))
      ≡ has_key (λ (x : FlowInfo). x.flow_id) k flows
unfolding swap_remove
has_key-swap_remove_first k flow [] = refl
has_key-swap_remove_first k flow (g ∷ gs) =
    has_key-last_to_front (λ (x : FlowInfo). x.flow_id) k g gs

has_key-remove_aor :
    (contact : ContactNode) (node : RegistrationNode) (k : Bytes) (flows : List FlowInfo)
    → has_key (λ (x : FlowInfo). x.flow_id) k flows ≡ false
    → has_key (λ (x : FlowInfo). x.flow_id) k (remove_aor_within_flow contact node flows) ≡ false
has_key-remove_aor contact node k [] h = unfold remove_aor_within_flow in refl
has_key-remove_aor contact node k (flow ∷ flows) h = elim (Bool-cases (is_flow contact flow)) [
  | inl here ↦
      rw (remove_aor_here contact node flow flows here)
        (elim (Bool-cases (is_empty (less node flow).registerred_addresses)) [
          | inl emptied ↦
              rw emptied (has_key-swap_remove_first k (less node flow) flows ∙ ground arith)
          | inr kept ↦ rw kept h
        ])
  | inr later ↦
      rw (remove_aor_later contact node flow flows later)
        (ground (arith, has_key-remove_aor contact node k flows))
]

less_records :
    (node : RegistrationNode) (flow : FlowInfo)
    → Distinct (λ (a : AddressOfRecord). a.record_id) flow.registerred_addresses
    → Distinct (λ (a : AddressOfRecord). a.record_id) (less node flow).registerred_addresses
unfolding remove_record
less_records node flow d =
    Distinct-remove_key (λ (a : AddressOfRecord). a.record_id) node.id flow.registerred_addresses d

pub remove_aor-AreFlows :
    (contact : ContactNode) (node : RegistrationNode) (flows : List FlowInfo)
    → AreFlows flows
    → AreFlows (remove_aor_within_flow contact node flows)
remove_aor-AreFlows contact node [] d = unfold remove_aor_within_flow in d
remove_aor-AreFlows contact node (flow ∷ flows) d = elim (Bool-cases (is_flow contact flow)) [
  | inl here ↦
      rw (remove_aor_here contact node flow flows here)
        (elim (Bool-cases (is_empty (less node flow).registerred_addresses)) [
          | inl emptied ↦ rw emptied (
              swap_remove_first-AreFlows (less node flow) flows
                (record { ids = d.ids.1; each = d.each.1 }))
          | inr kept ↦ rw kept (record {
            ids = d.ids;
            each = (
              record { records = less_records node flow d.each.0.records; inhabited = kept },
              d.each.1,
            );
          })
        ])
  | inr later ↦
      let rest =
        remove_aor-AreFlows contact node flows (record { ids = d.ids.1; each = d.each.1 }) in
      rw (remove_aor_later contact node flow flows later) (record {
        ids = (has_key-remove_aor contact node flow.flow_id flows d.ids.0, rest.ids);
        each = (d.each.0, rest.each);
      })
]
