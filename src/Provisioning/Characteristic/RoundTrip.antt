-- ===== src/Provisioning/Characteristic/RoundTrip.antt =====
-- `write_characteristic` writes well-formed XML, and `from_str` reads it back.
use rust_rcs_client.Common.{
  List, [], ◌∷◌, ◌++◌, Option, none, some, ◌≡◌, refl, ap, ◌∙◌, length, append_assoc, append-nil,
  option_list, codes, eq_ignore_ascii_case, Bytes,
}
use rust_rcs_client.Xml.{Reader, BytesStart, Event, start, empty, end, element_start}
use rust_rcs_client.Xml.Forest.{Forest, element, empty_element, events}
use rust_rcs_client.Provisioning.Characteristic.{
  Parameter, Characteristic, Characteristics, characteristic, cons, to_list, of_list, Content,
  parameter_of, make_characteristic, read_characteristic, from_events, from_str, write_parm,
  write_parms, write_characteristic, write_children, write_characteristics,
}
use rust_rcs_client.Provisioning.Characteristic.Denote.{
  parameters_of, children_of, content_of, characteristics_of, read_characteristic-events,
}

abbrev parm_start : Parameter → BytesStart
parm_start p = element_start (codes "parm") ((codes "name", p.name) ∷ (codes "value", p.value) ∷ [])

abbrev pub characteristic_start : Bytes → BytesStart
characteristic_start t = element_start (codes "characteristic") ((codes "type", t) ∷ [])

-- the content that `write_characteristic` writes, before `next`
forest_of_parms : List Parameter → Forest → Forest
forest_of_parms [] next = next
forest_of_parms (p ∷ ps) next = empty_element (parm_start p) (forest_of_parms ps next)

mutual
  forest_of : Characteristic → Forest → Forest
  forest_of (characteristic t ps cs) next =
      element (characteristic_start t) (forest_of_parms ps (forest_of_children cs)) next

  forest_of_children : Characteristics → Forest
  forest_of_children Characteristics.nil = Forest.nil
  forest_of_children (cons c cs) = forest_of c (forest_of_children cs)

events-parms :
    (ps : List Parameter) (next : Forest) (rest : Reader)
    → events (forest_of_parms ps next) rest ≡ write_parms ps ++ events next rest
unfolding forest_of_parms write_parms write_parm
events-parms [] next rest = refl
events-parms (p ∷ ps) next rest = ap (◌∷◌ (empty (parm_start p))) (events-parms ps next rest)

mutual
  unfolding forest_of write_characteristic

  events-forest_of :
      (c : Characteristic) (next : Forest) (rest : Reader)
      → events (forest_of c next) rest ≡ write_characteristic c ++ events next rest
  events-forest_of (characteristic t ps cs) next rest = ap (◌∷◌ (start (characteristic_start t))) (
      events-parms ps (forest_of_children cs) (end ∷ events next rest)
      ∙ rw (events-children cs (end ∷ events next rest)) (simp append_assoc))

  events-children :
      (cs : Characteristics) (rest : Reader)
      → events (forest_of_children cs) rest ≡ write_children cs ++ rest
  events-children Characteristics.nil rest = refl
  events-children (cons c cs) rest =
      events-forest_of c (forest_of_children cs) rest
      ∙ rw (events-children cs rest) (simp append_assoc)

parameter_of-parm_start : (p : Parameter) → parameter_of (parm_start p) ≡ some p
unfolding parameter_of
parameter_of-parm_start p = refl

make_characteristic-start :
    (t : Bytes) (s : Content)
    → make_characteristic (characteristic_start t) s
      ≡ some (characteristic t s.parameters (of_list s.children))
unfolding make_characteristic
make_characteristic-start t s = refl

pub of_list-to_list : (cs : Characteristics) → of_list (to_list cs) ≡ cs
of_list-to_list Characteristics.nil = refl
of_list-to_list (cons c cs) = ap (cons c) (of_list-to_list cs)

parameters_of-parms :
    (ps : List Parameter) (next : Forest)
    → parameters_of (forest_of_parms ps next) ≡ ps ++ parameters_of next
unfolding forest_of_parms parameters_of eq_ignore_ascii_case
parameters_of-parms [] next = refl
parameters_of-parms (p ∷ ps) next =
    rw (parameter_of-parm_start p) (ap (◌∷◌ p) (parameters_of-parms ps next))

children_of-parms :
    (ps : List Parameter) (next : Forest) → children_of (forest_of_parms ps next) ≡ children_of next
unfolding forest_of_parms children_of eq_ignore_ascii_case
children_of-parms [] next = refl
children_of-parms (p ∷ ps) next = children_of-parms ps next

parameters_of-children : (cs : Characteristics) → parameters_of (forest_of_children cs) ≡ []
unfolding forest_of parameters_of eq_ignore_ascii_case
parameters_of-children Characteristics.nil = refl
parameters_of-children (cons (characteristic t ps ds) cs) = parameters_of-children cs

-- the content of what is written between the tags of a characteristic
body_content :
    (ps : List Parameter) (cs : Characteristics)
    → children_of (forest_of_children cs) ≡ to_list cs
    → content_of (forest_of_parms ps (forest_of_children cs))
      ≡ record { parameters = ps; children = to_list cs }
unfolding content_of
body_content ps cs h =
    let own = parameters_of-parms ps (forest_of_children cs) in
    rw (own, parameters_of-children cs, append-nil, children_of-parms ps (forest_of_children cs), h)

mutual
  unfolding forest_of children_of content_of eq_ignore_ascii_case make_characteristic

  children_of-children : (cs : Characteristics) → children_of (forest_of_children cs) ≡ to_list cs
  children_of-children Characteristics.nil = refl
  children_of-children (cons c cs) =
      children_of-forest_of c (forest_of_children cs) ∙ ap (◌∷◌ c) (children_of-children cs)

  children_of-forest_of :
      (c : Characteristic) (next : Forest) → children_of (forest_of c next) ≡ c ∷ children_of next
  children_of-forest_of (characteristic t ps cs) next =
      ap
        (λ (s : Content).
          option_list (make_characteristic (characteristic_start t) s) ++ children_of next)
        (body_content ps cs (children_of-children cs))
      ∙ ap (λ (ds : Characteristics). characteristic t ps ds ∷ children_of next)
          (of_list-to_list cs)

-- what is written between the tags
pub write_body : List Parameter → Characteristics → List Event
write_body ps cs = write_parms ps ++ (write_children cs ++ end ∷ [])

body-events :
    (ps : List Parameter) (cs : Characteristics) (rest : Reader)
    → write_body ps cs ++ rest ≡ events (forest_of_parms ps (forest_of_children cs)) (end ∷ rest)
unfolding write_body
body-events ps cs rest =
    rw (events-parms ps (forest_of_children cs) (end ∷ rest), events-children cs (end ∷ rest))
      (simp append_assoc)

-- Behind the start tag that `write_characteristic` writes, `read_characteristic` reads the
-- characteristic back, and leaves whatever stands behind it.
pub read-write_characteristic :
    (t : Bytes) (ps : List Parameter) (cs : Characteristics) (rest : Reader)
    → read_characteristic (characteristic_start t) 1 (write_body ps cs ++ rest)
      ≡ (some (characteristic t ps cs), rest)
read-write_characteristic t ps cs rest = rw (
  body-events ps cs rest,
  read_characteristic-events (characteristic_start t) (forest_of_parms ps (forest_of_children cs))
      rest,
  body_content ps cs (children_of-children cs),
  make_characteristic-start t (record { parameters = ps; children = to_list cs }),
  of_list-to_list cs,
)

-- `from_str` reads back the events of every characteristic that was written, with all its
-- parameters and children in their order, whatever follows it.
pub from_str-write_characteristic :
    (c : Characteristic) (rest : Reader) → from_str (write_characteristic c ++ rest) ≡ some c
unfolding from_str write_characteristic write_body
from_str-write_characteristic (characteristic t ps cs) rest =
    ap {B = Option Characteristic}
      (λ (read : Option Characteristic × Reader). elim read.0 [
        | some c ↦ some c
        | none ↦ from_events (length (write_body ps cs ++ rest)) read.1
      ])
      (read-write_characteristic t ps cs rest)

-- the content of a document that lists characteristics
pub forest_of_list : List Characteristic → Forest
forest_of_list [] = Forest.nil
forest_of_list (c ∷ cs) = forest_of c (forest_of_list cs)

pub events-forest_of_list :
    (cs : List Characteristic) (rest : Reader)
    → events (forest_of_list cs) rest ≡ write_characteristics cs ++ rest
unfolding forest_of_list write_characteristics
events-forest_of_list [] rest = refl
events-forest_of_list (c ∷ cs) rest =
    events-forest_of c (forest_of_list cs) rest
    ∙ rw (events-forest_of_list cs rest) (simp append_assoc)

characteristics_of-forest_of :
    (c : Characteristic) (next : Forest)
    → characteristics_of (forest_of c next) ≡ c ∷ characteristics_of next
unfolding forest_of characteristics_of eq_ignore_ascii_case make_characteristic
characteristics_of-forest_of (characteristic t ps cs) next =
    ap
      (λ (s : Content).
        option_list (make_characteristic (characteristic_start t) s) ++ characteristics_of next)
      (body_content ps cs (children_of-children cs))
    ∙ ap (λ (ds : Characteristics). characteristic t ps ds ∷ characteristics_of next)
        (of_list-to_list cs)

pub characteristics_of-forest_of_list :
    (cs : List Characteristic) → characteristics_of (forest_of_list cs) ≡ cs
unfolding forest_of_list characteristics_of
characteristics_of-forest_of_list [] = refl
characteristics_of-forest_of_list (c ∷ cs) =
    characteristics_of-forest_of c (forest_of_list cs)
    ∙ ap (◌∷◌ c) (characteristics_of-forest_of_list cs)
