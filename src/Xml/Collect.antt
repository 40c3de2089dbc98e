-- ===== src/Xml/Collect.antt =====
-- What the element loop collects from well-formed content, when the parser of an item is right: the
-- items in document order, with the content of any other element counted to its parent.
use rust_rcs_client.Common.{
  ℕ, zero, suc, ◌≤◌, Bool, true, List, [], ◌∷◌, ◌++◌, Option, none, some, ◌≡◌, refl, ap, ◌∙◌, inl,
  inr, arith, length, option_list, push_some, append-nil, append_assoc, Bool-cases, if◌then◌else◌,
  Bytes,
}
use rust_rcs_client.Xml.{Reader, BytesStart, Walked, end, walk, walk_element, collect}
use rust_rcs_client.Xml.Walk.{Consumes, length-walk}
use rust_rcs_client.Xml.Forest.{
  Forest, nil, element, empty_element, text_node, other_node, events, sweep, leaves, walk-sweep,
  walk_close,
}

module _ {ℓ} {A : Type ℓ} (is_item : Bytes → Bool) (make : BytesStart → Forest → Option A) where
  unfoldable pub items_of : Forest → List A
  items_of nil = []
  items_of (element e kids next) =
      (if is_item e.name then option_list (make e kids) else items_of kids) ++ items_of next
  items_of (empty_element e next) =
      (if is_item e.name then option_list (make e nil) else []) ++ items_of next
  items_of (text_node t next) = items_of next
  items_of (other_node next) = items_of next

-- The parser of an item makes of its tag and content what `make` says, and leaves what follows.
pub record ParsesAs {ℓ} {A : Type ℓ} (parse : BytesStart → ℕ → Reader → Option A × Reader)
    (make : BytesStart → Forest → Option A) : Type ℓ where
  pub at_element :
      (e : BytesStart) (kids : Forest) (rest : Reader)
      → parse e 1 (events kids (end ∷ rest)) ≡ (make e kids, rest)
  pub at_empty : (e : BytesStart) (r : Reader) → parse e 0 r ≡ (make e nil, r)
  pub consumes : (e : BytesStart) (level : ℕ) (r : Reader) → length (parse e level r).1 ≤ length r

module _ {ℓ} {A : Type ℓ} (is_item : Bytes → Bool)
    (parse : BytesStart → ℕ → Reader → Option A × Reader) (make : BytesStart → Forest → Option A)
    (right : ParsesAs parse make) where
  pub collect-Consumes : Consumes (collect is_item parse)
  unfolding collect
  collect-Consumes e level s r s' r' h = ground (arith, right.consumes e level r)

  on_element : BytesStart → List A → Forest → Option (List A)
  on_element e s kids = if is_item e.name then some (push_some s (make e kids)) else none

  on_empty : BytesStart → List A → Option (List A)
  on_empty e s = if is_item e.name then some (push_some s (make e nil)) else none

  collect-element :
      (e : BytesStart) (s : List A) (kids : Forest) (rest : Reader)
      → collect is_item parse e 1 s (events kids (end ∷ rest)) ≡ leaves rest (on_element e s kids)
  unfolding collect on_element
  collect-element e s kids rest = ground (arith, right.at_element e kids rest)

  collect-empty :
      (e : BytesStart) (s : List A) (r : Reader)
      → collect is_item parse e 0 s r ≡ leaves r (on_empty e s)
  unfolding collect on_empty
  collect-empty e s r = ground (arith, right.at_empty e r)

  sweep-items_of :
      (F : Forest) (s : List A) → sweep on_element on_empty s F ≡ s ++ items_of is_item make F
  unfolding sweep items_of on_element on_empty
  sweep-items_of nil s = simp append-nil
  sweep-items_of (element e kids next) s = elim (Bool-cases (is_item e.name)) [
    | inl c ↦ rw (c, sweep, on_element, items_of) (simp (sweep-items_of next, append_assoc))
    | inr c ↦
        rw (c, sweep, on_element, items_of)
          (simp (sweep-items_of next, sweep-items_of kids, append_assoc))
  ]
  sweep-items_of (empty_element e next) s = elim (Bool-cases (is_item e.name)) [
    | inl c ↦ rw (c, sweep, on_empty, items_of) (simp (sweep-items_of next, append_assoc))
    | inr c ↦ rw (c, sweep, on_empty, items_of) (simp (sweep-items_of next))
  ]
  sweep-items_of (text_node t next) s = sweep-items_of next s
  sweep-items_of (other_node next) s = sweep-items_of next s

  -- The loop over an element's content, on the fuel of its events.
  pub walk-collect :
      (F : Forest) (rest : Reader)
      → walk (collect is_item parse) (length (events F (end ∷ rest))) 1 [] (events F (end ∷ rest))
        ≡ record { state = items_of is_item make F; rest = rest; closed = true }
  walk-collect F rest =
      let r = events F (end ∷ rest) in
      walk-sweep (collect is_item parse) collect-Consumes on_element on_empty (length r)
        (λ e s k q _. collect-element e s k q) collect-empty F (length r) (suc (length rest)) 0 []
        (end ∷ rest) (omega arith) (omega arith) (omega arith)
      ∙ walk_close (collect is_item parse) (length rest) _ rest
      ∙ ap (λ (s : List A). record { state = s; rest = rest; closed = true }) (sweep-items_of F [])

  pub length-walk-collect :
      (f level : ℕ) (s : List A) (r : Reader)
      → length (walk (collect is_item parse) f level s r).rest ≤ length r
  length-walk-collect = length-walk (collect is_item parse) collect-Consumes

-- an element parser that collects the items of its content and finishes with its tag
abbrev pub collector {ℓ} :
    {A B : Type ℓ}
    → (Bytes → Bool)
    → (BytesStart → ℕ → Reader → Option A × Reader)
    → (BytesStart → List A → Option B)
    → BytesStart
    → ℕ
    → Reader
    → Option B × Reader
collector is_item parse finish e level r =
    let w = walk_element (collect is_item parse) level [] r in (finish e w.state, w.rest)

module _ {ℓ} {A B : Type ℓ} (is_item : Bytes → Bool)
    (parse : BytesStart → ℕ → Reader → Option A × Reader) (make : BytesStart → Forest → Option A)
    (finish : BytesStart → List A → Option B) (right : ParsesAs parse make) where
  collector_consumes :
      (e : BytesStart) (level : ℕ) (r : Reader)
      → length (collector is_item parse finish e level r).1 ≤ length r
  unfolding walk_element
  collector_consumes e zero r = omega arith
  collector_consumes e (suc l) r =
      length-walk-collect is_item parse make right (length r) (suc l) [] r

  -- It is right if the parser of its items is.
  pub collector-ParsesAs :
      ParsesAs (collector is_item parse finish) (λ e kids. finish e (items_of is_item make kids))
  unfolding walk_element items_of
  collector-ParsesAs = record {
    at_element = λ e kids rest.
        ap (λ (w : Walked (List A)). (finish e w.state, w.rest))
          (walk-collect is_item parse make right kids rest);
    at_empty = λ e r. refl;
    consumes = collector_consumes;
  }
