-- ===== src/Provisioning/Characteristic.antt =====
-- provisioning/characteristic.rs: a characteristic of a provisioning document, with its parameters
-- and children; reading it from XML events and writing it to them.
pub mod Fuel
pub mod Denote
pub mod RoundTrip
use rust_rcs_client.Common.{
  ℕ, zero, suc, Bool, true, false, List, [], ◌∷◌, ◌++◌, Option, none, some, Bytes, codes, bytes_eq,
  eq_ignore_ascii_case, if◌then◌else◌, length, push_some,
}
use rust_rcs_client.Xml.{
  Event, BytesStart, Reader, Handler, start, empty, end, text, other, eof, err, element_start,
  attribute_value, skip_element, walk_element,
}

pub record Parameter : Type 0 where
  pub name : Bytes
  pub value : Bytes

-- `child_characteristics`, a list of the type itself, is the second type of the block.
mutual
  pub data Characteristic : Type 0 where
    -- `characteristic_type`, `characteristic_parameters`, `child_characteristics`
    characteristic : Bytes → List Parameter → Characteristics → Characteristic

  pub data Characteristics : Type 0 where
    nil : Characteristics
    cons : Characteristic → Characteristics → Characteristics

abbrev pub to_list : Characteristics → List Characteristic
to_list nil = []
to_list (cons c cs) = c ∷ to_list cs

abbrev pub of_list : List Characteristic → Characteristics
of_list [] = nil
of_list (c ∷ cs) = cons c (of_list cs)

abbrev pub characteristic_type : Characteristic → Bytes
characteristic_type (characteristic t ps cs) = t

abbrev pub characteristic_parameters : Characteristic → List Parameter
characteristic_parameters (characteristic t ps cs) = ps

abbrev pub child_characteristics : Characteristic → List Characteristic
child_characteristics (characteristic t ps cs) = to_list cs

-- the first of the list with the name, as `get_child_characteristic` looks it up
unfoldable pub find_characteristic : Bytes → List Characteristic → Option Characteristic
find_characteristic name [] = none
find_characteristic name (c ∷ cs) =
    if bytes_eq (characteristic_type c) name then some c else find_characteristic name cs

unfoldable pub get_child_characteristic : Characteristic → Bytes → Option Characteristic
unfolding find_characteristic
get_child_characteristic c name = find_characteristic name (child_characteristics c)

unfoldable pub find_parameter : Bytes → List Parameter → Option Bytes
find_parameter name [] = none
find_parameter name (p ∷ ps) = if bytes_eq p.name name then some p.value else find_parameter name ps

unfoldable pub get_parameter : Characteristic → Bytes → Option Bytes
unfolding find_parameter
get_parameter c name = find_parameter name (characteristic_parameters c)

-- what the iterator `get_runtime_characteristics` yields
unfoldable pub get_runtime_characteristics : List Characteristic → List Characteristic
unfolding bytes_eq
get_runtime_characteristics [] = []
get_runtime_characteristics (c ∷ cs) =
    let others = get_runtime_characteristics cs in
    if bytes_eq (characteristic_type c) (codes "NODE") then c ∷ others else others

-- `if let (Some(name), Some(value)) = (name, value)`
abbrev both_some : Option Bytes → Option Bytes → Option Parameter
both_some (some n) (some v) = some (record { name = n; value = v })
both_some _ _ = none

unfoldable pub parameter_of : BytesStart → Option Parameter
unfolding attribute_value
parameter_of e = both_some (attribute_value (codes "name") e) (attribute_value (codes "value") e)

unfoldable pub read_parm : BytesStart → ℕ → Reader → Option Parameter × Reader
unfolding parameter_of skip_element
read_parm e level r = (parameter_of e, skip_element level r)

-- the vectors that the closure `handle_element` of `read_characteristic` pushes to
pub record Content : Type 0 where
  pub parameters : List Parameter
  pub children : List Characteristic

abbrev pub no_content : Content
no_content = record { parameters = []; children = [] }

abbrev pub is_characteristic : Bytes → Bool
is_characteristic name = eq_ignore_ascii_case name (codes "characteristic")

abbrev pub is_parm : Bytes → Bool
is_parm name = eq_ignore_ascii_case name (codes "parm")

abbrev pub CharacteristicReader : Type 0
CharacteristicReader = BytesStart → ℕ → Reader → Option Characteristic × Reader

-- `handle_element`; `read` stands for its calls of `read_characteristic`
unfoldable pub handle_element : CharacteristicReader → Handler Content
unfolding read_parm eq_ignore_ascii_case
handle_element read e level s r = elim (is_characteristic e.name) [
  | true ↦ let (c, r') = read e level r in some (record s { children = push_some s.children c }, r')
  | false ↦ elim (is_parm e.name) [
    | true ↦
        let (p, r') = read_parm e level r in
        some (record s { parameters = push_some s.parameters p }, r')
    | false ↦ none
  ]
]

abbrev with_type : Option Bytes → Content → Option Characteristic
with_type none s = none
with_type (some t) s = some (characteristic t s.parameters (of_list s.children))

-- the characteristic that the tag `e` and the content make
unfoldable pub make_characteristic : BytesStart → Content → Option Characteristic
unfolding attribute_value
make_characteristic e s = with_type (attribute_value (codes "type") e) s

-- `read_characteristic`, nested as deep as the fuel says
unfoldable pub read_nested : ℕ → BytesStart → ℕ → Reader → Option Characteristic × Reader
unfolding handle_element walk_element make_characteristic
read_nested zero e level r = (none, r)
read_nested (suc f) e level r =
    let w = walk_element (handle_element (read_nested f)) level no_content r in
    (make_characteristic e w.state, w.rest)

-- Each level of nesting has read one event at least.
unfoldable pub read_characteristic : BytesStart → ℕ → Reader → Option Characteristic × Reader
unfolding read_nested
read_characteristic e level r = read_nested (suc (length r)) e level r

-- the loop of `from_str`, on fuel
unfoldable pub from_events : ℕ → Reader → Option Characteristic
unfolding read_characteristic eq_ignore_ascii_case
from_events zero r = none
from_events (suc f) [] = none
from_events (suc f) (start e ∷ r) = elim (is_characteristic e.name) [
  | true ↦
      let (c, r') = read_characteristic e 1 r in
      elim c [ some c ↦ some c | none ↦ from_events f r' ]
  | false ↦ from_events f r
]
from_events (suc f) (empty e ∷ r) = elim (is_characteristic e.name) [
  | true ↦
      let (c, r') = read_characteristic e 0 r in
      elim c [ some c ↦ some c | none ↦ from_events f r' ]
  | false ↦ from_events f r
]
from_events (suc f) (eof ∷ r) = none
from_events (suc f) (err ∷ r) = none
from_events (suc f) (_ ∷ r) = from_events f r

-- `Characteristic::from_str` on the events of the text; `none` is `Err("Bad XML")`
unfoldable pub from_str : Reader → Option Characteristic
unfolding from_events
from_str r = from_events (length r) r

unfoldable pub write_parm : Parameter → List Event
write_parm p =
    empty (element_start (codes "parm") ((codes "name", p.name) ∷ (codes "value", p.value) ∷ []))
    ∷ []

unfoldable pub write_parms : List Parameter → List Event
unfolding write_parm
write_parms [] = []
write_parms (p ∷ ps) = write_parm p ++ write_parms ps

unfoldable mutual
  unfolding write_parms

  pub write_characteristic : Characteristic → List Event
  write_characteristic (characteristic t ps cs) =
      start (element_start (codes "characteristic") ((codes "type", t) ∷ []))
      ∷ (write_parms ps ++ (write_children cs ++ end ∷ []))

  pub write_children : Characteristics → List Event
  write_children nil = []
  write_children (cons c cs) = write_characteristic c ++ write_children cs

-- `for characteristic in &root { write_characteristic(…)?; }`
unfoldable pub write_characteristics : List Characteristic → List Event
unfolding write_characteristic
write_characteristics [] = []
write_characteristics (c ∷ cs) = write_characteristic c ++ write_characteristics cs
