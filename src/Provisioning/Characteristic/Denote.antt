-- ===== src/Provisioning/Characteristic/Denote.antt =====
-- What `read_characteristic` makes of well-formed XML, by recursion over the tree: parameters and
-- children in document order, with the content of an unknown element counted to its parent.
use rust_rcs_client.Common.{
  ℕ, zero, suc, ◌≤◌, ◌<◌, true, List, [], ◌∷◌, ◌++◌, Option, none, some, ◌≡◌, refl, ap, ◌∙◌, inl,
  inr, arith, length, option_list, push_some, append-nil, append_assoc, Bool-cases, if◌then◌else◌,
}
use rust_rcs_client.Xml.{Reader, BytesStart, Walked, end, walk_element, skip_element}
use rust_rcs_client.Xml.Collect.{items_of, ParsesAs}
use rust_rcs_client.Xml.Forest.{
  Forest, nil, element, empty_element, text_node, other_node, events, sweep, leaves, walk-sweep,
  walk_close, skip-element, length-events,
}
use rust_rcs_client.Provisioning.Characteristic.{
  Parameter, Characteristic, Content, no_content, is_characteristic, is_parm, parameter_of,
  read_parm, handle_element, make_characteristic, read_nested, read_characteristic,
}
use rust_rcs_client.Provisioning.Characteristic.Fuel.{
  handle_element-Consumes, read_nested-ReadsOn, length-read_characteristic,
}

-- the parameters of an element's content, in document order
unfoldable pub parameters_of : Forest → List Parameter
parameters_of nil = []
parameters_of (element e kids next) =
    (if is_characteristic e.name
      then []
      else if is_parm e.name
      then option_list (parameter_of e)
      else parameters_of kids)
    ++ parameters_of next
parameters_of (empty_element e next) =
    (if is_characteristic e.name
      then []
      else if is_parm e.name
      then option_list (parameter_of e)
      else [])
    ++ parameters_of next
parameters_of (text_node t next) = parameters_of next
parameters_of (other_node next) = parameters_of next

-- its characteristics, each from its tag and its own content
unfoldable pub children_of : Forest → List Characteristic
unfolding parameters_of
children_of nil = []
children_of (element e kids next) =
    (if is_characteristic e.name
      then option_list (
          make_characteristic e
            (record { parameters = parameters_of kids; children = children_of kids }))
      else if is_parm e.name
      then []
      else children_of kids)
    ++ children_of next
children_of (empty_element e next) =
    (if is_characteristic e.name then option_list (make_characteristic e no_content) else [])
    ++ children_of next
children_of (text_node t next) = children_of next
children_of (other_node next) = children_of next

unfoldable pub content_of : Forest → Content
content_of kids = record { parameters = parameters_of kids; children = children_of kids }

-- what the handler does with an element that stands over `kids`
on_element : BytesStart → Content → Forest → Option Content
on_element e s kids =
    if is_characteristic e.name
    then some
        (record s { children = push_some s.children (make_characteristic e (content_of kids)) })
    else if is_parm e.name
    then some (record s { parameters = push_some s.parameters (parameter_of e) })
    else none

on_empty : BytesStart → Content → Option Content
on_empty e s =
    if is_characteristic e.name
    then some (record s { children = push_some s.children (make_characteristic e no_content) })
    else if is_parm e.name
    then some (record s { parameters = push_some s.parameters (parameter_of e) })
    else none

abbrev joined : Content → Content → Content
joined s t = record {
  parameters = s.parameters ++ t.parameters;
  children = s.children ++ t.children;
}

sweep-content_of :
    (F : Forest) (s : Content) → sweep on_element on_empty s F ≡ joined s (content_of F)
unfolding sweep content_of parameters_of children_of on_element on_empty
sweep-content_of nil s = simp append-nil
sweep-content_of (element e kids next) s = elim (Bool-cases (is_characteristic e.name)) [
  | inl c ↦
      rw (c, sweep, on_element, parameters_of, children_of)
        (simp (sweep-content_of next, append_assoc))
  | inr c ↦ elim (Bool-cases (is_parm e.name)) [
    | inl p ↦
        rw (c, p, sweep, on_element, parameters_of, children_of)
          (simp (sweep-content_of next, append_assoc))
    | inr p ↦
        rw (c, p, sweep, on_element, parameters_of, children_of)
          (simp (sweep-content_of next, sweep-content_of kids, append_assoc))
  ]
]
sweep-content_of (empty_element e next) s = elim (Bool-cases (is_characteristic e.name)) [
  | inl c ↦
      rw (c, sweep, on_empty, parameters_of, children_of)
        (simp (sweep-content_of next, append_assoc))
  | inr c ↦ elim (Bool-cases (is_parm e.name)) [
    | inl p ↦
        rw (c, p, sweep, on_empty, parameters_of, children_of)
          (simp (sweep-content_of next, append_assoc))
    | inr p ↦ rw (c, p, sweep, on_empty, parameters_of, children_of) (simp (sweep-content_of next))
  ]
]
sweep-content_of (text_node t next) s = sweep-content_of next s
sweep-content_of (other_node next) s = sweep-content_of next s

-- A reader of nested characteristics that is right on trees of fewer than `n` events.
abbrev RightBelow : ℕ → (BytesStart → ℕ → Reader → Option Characteristic × Reader) → Type 0
RightBelow n read =
    (e : BytesStart) (kids : Forest) (rest : Reader)
    → length (events kids (end ∷ rest)) < n
    → read e 1 (events kids (end ∷ rest)) ≡ (make_characteristic e (content_of kids), rest)

abbrev ReadsEmpty : (BytesStart → ℕ → Reader → Option Characteristic × Reader) → Type 0
ReadsEmpty read = (e : BytesStart) (r : Reader) → read e 0 r ≡ (make_characteristic e no_content, r)

handle_element-element :
    (read : BytesStart → ℕ → Reader → Option Characteristic × Reader) (n : ℕ)
    → RightBelow n read
    → (e : BytesStart) (s : Content) (kids : Forest) (rest : Reader)
    → length (events kids (end ∷ rest)) < n
    → handle_element read e 1 s (events kids (end ∷ rest)) ≡ leaves rest (on_element e s kids)
unfolding handle_element on_element read_parm skip_element
handle_element-element read n right e s kids rest h =
    ground (arith, right e kids rest h, skip-element kids rest)

handle_element-empty :
    (read : BytesStart → ℕ → Reader → Option Characteristic × Reader)
    → ReadsEmpty read
    → (e : BytesStart) (s : Content) (r : Reader)
    → handle_element read e 0 s r ≡ leaves r (on_empty e s)
unfolding handle_element on_empty read_parm skip_element
handle_element-empty read right e s r = ground (arith, right e r)

read_nested-empty : (f : ℕ) → ReadsEmpty (read_nested (suc f))
unfolding read_nested walk_element
read_nested-empty f e r = refl

-- With a nested reader that is right below, the element loop collects the content.
walk_content :
    (f : ℕ) (kids : Forest) (rest : Reader)
    → length (events kids (end ∷ rest)) ≤ suc f
    → RightBelow (suc f) (read_nested (suc f))
    → walk_element (handle_element (read_nested (suc f))) 1 no_content (events kids (end ∷ rest))
      ≡ record { state = content_of kids; rest = rest; closed = true }
unfolding walk_element
walk_content f kids rest h right =
    let read = read_nested (suc f) in
    let r = events kids (end ∷ rest) in
    walk-sweep (handle_element read) (handle_element-Consumes read (read_nested-ReadsOn (suc f)))
      on_element on_empty (length r)
      (λ e s k q small. handle_element-element read (suc f) right e s k q (omega arith))
      (handle_element-empty read (read_nested-empty f)) kids (length r) (suc (length rest)) 0
      no_content (end ∷ rest) (omega arith) (omega arith) (omega arith)
    ∙ walk_close (handle_element read) (length rest) _ rest
    ∙ ap (λ (s : Content). record { state = s; rest = rest; closed = true })
        (sweep-content_of kids no_content)

read_nested-RightBelow : (f : ℕ) → RightBelow f (read_nested f)
unfolding read_nested
read_nested-RightBelow zero e kids rest h = absurd (omega arith)
read_nested-RightBelow (suc zero) e kids rest h =
    absurd (omega (arith, length-events kids (end ∷ rest)))
read_nested-RightBelow (suc (suc f)) e kids rest h =
    ap (λ (w : Walked Content). (make_characteristic e w.state, w.rest))
      (walk_content f kids rest (omega arith) (read_nested-RightBelow (suc f)))

-- Of an element over well-formed content, however deep, `read_characteristic` returns the
-- characteristic of its tag and content, and it stops just behind the element's end tag.
pub read_characteristic-events :
    (e : BytesStart) (kids : Forest) (rest : Reader)
    → read_characteristic e 1 (events kids (end ∷ rest))
      ≡ (make_characteristic e (content_of kids), rest)
unfolding read_characteristic
read_characteristic-events e kids rest =
    read_nested-RightBelow (suc (length (events kids (end ∷ rest)))) e kids rest (omega arith)

pub read_characteristic-empty :
    (e : BytesStart) (r : Reader)
    → read_characteristic e 0 r ≡ (make_characteristic e no_content, r)
unfolding read_characteristic
read_characteristic-empty e r = read_nested-empty (length r) e r

-- a characteristic by its tag and its content
abbrev pub make_over : BytesStart → Forest → Option Characteristic
make_over e kids = make_characteristic e (content_of kids)

pub read_characteristic-ParsesAs : ParsesAs read_characteristic make_over
unfolding content_of parameters_of children_of
read_characteristic-ParsesAs = record {
  at_element = read_characteristic-events;
  at_empty = read_characteristic-empty;
  consumes = length-read_characteristic;
}

-- The characteristics among content where `parm` means nothing, as in a document: each is made of
-- its tag and content, and any other element counts as its content.
unfoldable pub characteristics_of : Forest → List Characteristic
unfolding items_of content_of
characteristics_of = items_of is_characteristic make_over
