-- ===== src/Connectivity/RegInfoXml.antt =====
-- connectivity/reg_info_xml.rs: the registration information of a NOTIFY, read from XML events.
pub mod Denote
pub mod Document
use rust_rcs_client.Common.{
  ℕ, zero, suc, ◌+◌, ◌-◌, Bool, true, false, List, [], ◌∷◌, ◌++◌, Option, none, some, Bytes, codes,
  eq_ignore_ascii_case, if◌then◌else◌, length, push_some, ◌==◌, ◌>>=◌,
}
use rust_rcs_client.Xml.{
  Event, BytesStart, Reader, Handler, Walked, start, empty, end, text, other, eof, err,
  attribute_value, collect, walk_element, find_root,
}

pub record ContactNode : Type 0 where
  pub state : Bytes
  pub event : Bytes
  pub duration_registered : Option Bytes
  pub expires : Option Bytes
  pub id : Bytes
  pub uri : Bytes

pub record RegistrationNode : Type 0 where
  pub aor : Bytes
  pub id : Bytes
  pub state : Bytes
  pub contact_nodes : List ContactNode

pub record RegInfoXml : Type 0 where
  pub version : Bytes
  pub state : Bytes
  pub registration_nodes : List RegistrationNode

-- `replace` by a value that is there
abbrev pub replace_some {ℓ} : {A : Type ℓ} → Option A → Option A → Option A
replace_some found none = found
replace_some found (some v) = some v

-- the loop of `parse_contact_node_uri`, at `level` open elements with `uri` found so far
unfoldable pub uri_loop : ℕ → Option Bytes → Reader → Option Bytes × Reader
uri_loop level uri [] = (uri, [])
uri_loop level uri (start e ∷ r) = uri_loop (level + 1) uri r
uri_loop level uri (text t ∷ r) = uri_loop level (if level == 1 then replace_some uri t else uri) r
uri_loop level uri (end ∷ r) =
    let rest = uri_loop (level - 1) uri r in if level - 1 == 0 then (uri, r) else rest
uri_loop level uri (empty e ∷ r) = uri_loop level uri r
uri_loop level uri (other ∷ r) = uri_loop level uri r
uri_loop level uri (eof ∷ r) = (uri, r)
uri_loop level uri (err ∷ r) = (uri, r)

unfoldable pub parse_contact_node_uri : Reader → Option Bytes × Reader
unfolding uri_loop
parse_contact_node_uri r = uri_loop 1 none r

abbrev pub is_uri : Bytes → Bool
is_uri name = eq_ignore_ascii_case name (codes "uri")

-- the `Start` arm of the loop of `parse_contact_node`, which has no `Empty` arm
unfoldable pub handle_uri : Handler (Option Bytes)
unfolding parse_contact_node_uri eq_ignore_ascii_case
handle_uri e zero uri r = none
handle_uri e (suc l) uri r = elim (is_uri e.name) [
  | true ↦ let (found, r') = parse_contact_node_uri r in some (replace_some uri found, r')
  | false ↦ none
]

-- `if let (Some(state), Some(event), Some(id), Some(uri)) = …`
unfoldable pub make_contact : BytesStart → Option Bytes → Option ContactNode
unfolding attribute_value
make_contact e uri = do
  state ← attribute_value (codes "state") e
  event ← attribute_value (codes "event") e
  id ← attribute_value (codes "id") e
  uri' ← uri
  some (record {
    state = state;
    event = event;
    duration_registered = attribute_value (codes "duration-registered") e;
    expires = attribute_value (codes "expires") e;
    id = id;
    uri = uri';
  })

unfoldable pub parse_contact_node : BytesStart → ℕ → Reader → Option ContactNode × Reader
unfolding handle_uri make_contact walk_element
parse_contact_node e level r =
    let w = walk_element handle_uri level none r in (make_contact e w.state, w.rest)

abbrev pub is_contact : Bytes → Bool
is_contact name = eq_ignore_ascii_case name (codes "contact")

-- `handle_element` of `parse_registration_node`
unfoldable pub handle_contact : Handler (List ContactNode)
unfolding collect parse_contact_node eq_ignore_ascii_case
handle_contact = collect is_contact parse_contact_node

unfoldable pub make_registration : BytesStart → List ContactNode → Option RegistrationNode
unfolding attribute_value
make_registration e contact_nodes = do
  aor ← attribute_value (codes "aor") e
  id ← attribute_value (codes "id") e
  state ← attribute_value (codes "state") e
  some (record { aor = aor; id = id; state = state; contact_nodes = contact_nodes })

unfoldable pub parse_registration_node : BytesStart → ℕ → Reader → Option RegistrationNode × Reader
unfolding handle_contact make_registration walk_element
parse_registration_node e level r =
    let w = walk_element handle_contact level [] r in (make_registration e w.state, w.rest)

abbrev pub is_registration : Bytes → Bool
is_registration name = eq_ignore_ascii_case name (codes "registration")

-- `handle_element` of `parse_reg_info`
unfoldable pub handle_registration : Handler (List RegistrationNode)
unfolding collect parse_registration_node eq_ignore_ascii_case
handle_registration = collect is_registration parse_registration_node

unfoldable pub make_reg_info : BytesStart → List RegistrationNode → Option RegInfoXml
unfolding attribute_value
make_reg_info e registration_nodes = do
  version ← attribute_value (codes "version") e
  state ← attribute_value (codes "state") e
  some (record { version = version; state = state; registration_nodes = registration_nodes })

unfoldable pub parse_reg_info : BytesStart → ℕ → Reader → Option RegInfoXml
unfolding handle_registration make_reg_info walk_element
parse_reg_info e level r = make_reg_info e (walk_element handle_registration level [] r).state

abbrev pub is_reginfo : Bytes → Bool
is_reginfo name = eq_ignore_ascii_case name (codes "reginfo")

unfoldable pub parse_xml : Reader → Option RegInfoXml
unfolding parse_reg_info find_root eq_ignore_ascii_case
parse_xml r = do found ← find_root is_reginfo true r; parse_reg_info found.0 found.1 found.2
