-- ===== src/Connectivity/RegInfoXml/Denote.antt =====
-- What the reader makes of a well-formed document: registrations and their contacts in document
-- order, each with the URI that its content shows.
use rust_rcs_client.Common.{
  ℕ, zero, suc, ◌+◌, ◌-◌, ◌≤◌, true, false, [], ◌∷◌, Option, none, some, ◌≡◌, refl, ap, ◌∙◌, inl,
  inr, arith, length, Bool-cases, if◌then◌else◌, Bytes, ◌==◌,
}
use rust_rcs_client.Xml.{Reader, BytesStart, Walked, start, empty, end, text, other, eof, err}
use rust_rcs_client.Xml.Walk.{Consumes, length-walk}
use rust_rcs_client.Xml.Collect.{ParsesAs}
use rust_rcs_client.Xml.Forest.{
  Forest, nil, element, empty_element, text_node, other_node, events, sweep, leaves, walk-sweep,
  walk_close,
}
use rust_rcs_client.Connectivity.RegInfoXml.{
  ContactNode, replace_some, uri_loop, parse_contact_node_uri, is_uri, handle_uri, make_contact,
  parse_contact_node,
}

-- the last readable text that stands directly in the content, after `uri`
unfoldable pub last_text : Option Bytes → Forest → Option Bytes
last_text uri nil = uri
last_text uri (element e kids next) = last_text uri next
last_text uri (empty_element e next) = last_text uri next
last_text uri (text_node t next) = last_text (replace_some uri t) next
last_text uri (other_node next) = last_text uri next

uri_loop_end :
    (l : ℕ) (uri : Option Bytes) (r : Reader)
    → uri_loop (suc (suc l)) uri (end ∷ r) ≡ uri_loop (suc l) uri r
unfolding uri_loop
uri_loop_end l uri r = ground arith

-- Below the first level texts do not count.
uri_loop-deep :
    (F : Forest) (l : ℕ) (uri : Option Bytes) (rest : Reader)
    → uri_loop (suc (suc l)) uri (events F rest) ≡ uri_loop (suc (suc l)) uri rest
unfolding uri_loop
uri_loop-deep nil l uri rest = refl
uri_loop-deep (element e kids next) l uri rest =
    let deeper : suc (suc l) + 1 ≡ suc (suc (suc l)) = omega arith in
    ap (λ level. uri_loop level uri (events kids (end ∷ events next rest))) deeper
    ∙ uri_loop-deep kids (suc l) uri (end ∷ events next rest)
    ∙ uri_loop_end (suc l) uri (events next rest)
    ∙ uri_loop-deep next l uri rest
uri_loop-deep (empty_element e next) l uri rest = uri_loop-deep next l uri rest
uri_loop-deep (text_node t next) l uri rest =
    let deep : (suc (suc l) == 1) ≡ false = ground arith in
    ap
      (λ direct.
        uri_loop (suc (suc l)) (if direct then replace_some uri t else uri) (events next rest))
      deep
    ∙ uri_loop-deep next l uri rest
uri_loop-deep (other_node next) l uri rest = uri_loop-deep next l uri rest

uri_loop-last_text :
    (F : Forest) (uri : Option Bytes) (rest : Reader)
    → uri_loop 1 uri (events F rest) ≡ uri_loop 1 (last_text uri F) rest
unfolding uri_loop last_text
uri_loop-last_text nil uri rest = refl
uri_loop-last_text (element e kids next) uri rest =
    uri_loop-deep kids 0 uri (end ∷ events next rest)
    ∙ uri_loop_end 0 uri (events next rest)
    ∙ uri_loop-last_text next uri rest
uri_loop-last_text (empty_element e next) uri rest = uri_loop-last_text next uri rest
uri_loop-last_text (text_node t next) uri rest = uri_loop-last_text next (replace_some uri t) rest
uri_loop-last_text (other_node next) uri rest = uri_loop-last_text next uri rest

parse_contact_node_uri-events :
    (F : Forest) (rest : Reader)
    → parse_contact_node_uri (events F (end ∷ rest)) ≡ (last_text none F, rest)
unfolding parse_contact_node_uri
parse_contact_node_uri-events F rest =
    uri_loop-last_text F none (end ∷ rest) ∙ unfold uri_loop in refl

length-uri_loop :
    (level : ℕ) (uri : Option Bytes) (r : Reader) → length (uri_loop level uri r).1 ≤ length r
unfolding uri_loop
length-uri_loop level uri [] = omega arith
length-uri_loop level uri (start e ∷ r) = omega (arith, length-uri_loop (level + 1) uri r)
length-uri_loop level uri (empty e ∷ r) = omega (arith, length-uri_loop level uri r)
length-uri_loop level uri (end ∷ r) = ground (arith, length-uri_loop (level - 1) uri r)
length-uri_loop level uri (text t ∷ r) =
    omega (arith, length-uri_loop level (if level == 1 then replace_some uri t else uri) r)
length-uri_loop level uri (other ∷ r) = omega (arith, length-uri_loop level uri r)
length-uri_loop level uri (eof ∷ r) = omega arith
length-uri_loop level uri (err ∷ r) = omega arith

handle_uri-Consumes : Consumes handle_uri
unfolding handle_uri parse_contact_node_uri
handle_uri-Consumes e zero s r s' r' h = ground arith
handle_uri-Consumes e (suc l) s r s' r' h = ground (arith, length-uri_loop 1 none r)

-- the URI of a contact, after `uri`: that of the last `uri` element that shows one
unfoldable pub uri_of : Option Bytes → Forest → Option Bytes
uri_of uri nil = uri
uri_of uri (element e kids next) = elim (is_uri e.name) [
  | true ↦ uri_of (replace_some uri (last_text none kids)) next
  | false ↦ uri_of (uri_of uri kids) next
]
uri_of uri (empty_element e next) = uri_of uri next
uri_of uri (text_node t next) = uri_of uri next
uri_of uri (other_node next) = uri_of uri next

on_element : BytesStart → Option Bytes → Forest → Option (Option Bytes)
on_element e uri kids =
    if is_uri e.name then some (replace_some uri (last_text none kids)) else none

on_empty : BytesStart → Option Bytes → Option (Option Bytes)
on_empty e uri = none

handle_uri-element :
    (e : BytesStart) (uri : Option Bytes) (kids : Forest) (rest : Reader)
    → handle_uri e 1 uri (events kids (end ∷ rest)) ≡ leaves rest (on_element e uri kids)
unfolding handle_uri on_element
handle_uri-element e uri kids rest = ground (arith, parse_contact_node_uri-events kids rest)

handle_uri-empty :
    (e : BytesStart) (uri : Option Bytes) (r : Reader)
    → handle_uri e 0 uri r ≡ leaves r (on_empty e uri)
unfolding handle_uri on_empty
handle_uri-empty e uri r = refl

sweep-uri_of : (F : Forest) (uri : Option Bytes) → sweep on_element on_empty uri F ≡ uri_of uri F
unfolding sweep uri_of on_element on_empty
sweep-uri_of nil uri = refl
sweep-uri_of (element e kids next) uri = elim (Bool-cases (is_uri e.name)) [
  | inl c ↦ rw (c, sweep, uri_of, on_element) (sweep-uri_of next _)
  | inr c ↦ rw (c, sweep, uri_of, on_element) (simp (sweep-uri_of kids, sweep-uri_of next))
]
sweep-uri_of (empty_element e next) uri = sweep-uri_of next uri
sweep-uri_of (text_node t next) uri = sweep-uri_of next uri
sweep-uri_of (other_node next) uri = sweep-uri_of next uri

parse_contact_node_consumes :
    (e : BytesStart) (level : ℕ) (r : Reader) → length (parse_contact_node e level r).1 ≤ length r
unfolding parse_contact_node
parse_contact_node_consumes e zero r = omega arith
parse_contact_node_consumes e (suc l) r =
    length-walk handle_uri handle_uri-Consumes (length r) (suc l) none r

abbrev pub contact_over : BytesStart → Forest → Option ContactNode
contact_over e kids = make_contact e (uri_of none kids)

pub parse_contact_node-ParsesAs : ParsesAs parse_contact_node contact_over
unfolding parse_contact_node uri_of
parse_contact_node-ParsesAs = record {
  at_element = λ e kids rest.
      let r = events kids (end ∷ rest) in
      ap (λ (w : Walked (Option Bytes)). (make_contact e w.state, w.rest))
        (walk-sweep handle_uri handle_uri-Consumes on_element on_empty (length r)
            (λ e' s k q _. handle_uri-element e' s k q) handle_uri-empty kids (length r)
            (suc (length rest)) 0 none (end ∷ rest) (omega arith) (omega arith) (omega arith)
          ∙ walk_close handle_uri (length rest) _ rest
          ∙ ap (λ (s : Option Bytes). record { state = s; rest = rest; closed = true })
              (sweep-uri_of kids none));
  at_empty = λ e r. refl;
  consumes = parse_contact_node_consumes;
}
