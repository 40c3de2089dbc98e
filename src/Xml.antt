-- ===== src/Xml.antt =====
-- What the XML readers of the program share: the events of quick_xml, the attribute loop and the
-- element loop that parse_xml, read_characteristic and their like all contain.
--
-- quick_xml is a library. Its `Reader` is the list of the results that the calls of
-- `read_event_into` still return, and it returns `Eof` from then on. `BytesStart` and `Event` are
-- the same types for its `Reader` and its `Writer`; a `Writer` is the list of events written.
pub mod Walk
pub mod Forest
pub mod Collect
use rust_rcs_client.Common.{
  ℕ, zero, suc, ◌+◌, ◌-◌, Bool, true, false, List, [], ◌∷◌, ◌++◌, Option, none, some, Bytes,
  bytes_eq, ◌==◌, ◌&&◌, if◌then◌else◌, length, push_some,
}

-- an item of `e.attributes()`
pub data Attribute : Type 0 where
  -- `Err(_)`
  malformed : Attribute
  -- the key, and `unescape_value()`, `none` for its error
  attribute : Bytes → Option Bytes → Attribute

pub record BytesStart : Type 0 where
  pub name : Bytes
  pub attributes : List Attribute

-- a result of `read_event_into`
pub data Event : Type 0 where
  start : BytesStart → Event
  empty : BytesStart → Event
  end : Event
  -- with `unescape()`
  text : Option Bytes → Event
  -- a comment, CDATA, declaration, processing instruction or document type
  other : Event
  eof : Event
  err : Event

abbrev pub Reader : Type 0
Reader = List Event

-- `BytesStart::new(name)` with a `push_attribute` for each pair
abbrev pub pairs : List (Bytes × Bytes) → List Attribute
pairs [] = []
pairs ((k, v) ∷ r) = attribute k (some v) ∷ pairs r

abbrev pub element_start : Bytes → List (Bytes × Bytes) → BytesStart
element_start name attributes = record { name = name; attributes = pairs attributes }

-- The variable that the loop over `e.attributes()` fills for one key: each readable value for the
-- key replaces what an earlier one left. A chain of `else if` over distinct keys fills one such
-- variable for each key.
replace_value : Bytes → Option Bytes → List Attribute → Option Bytes
replace_value key found [] = found
replace_value key found (malformed ∷ r) = replace_value key found r
replace_value key found (attribute k none ∷ r) = replace_value key found r
replace_value key found (attribute k (some v) ∷ r) =
    replace_value key (if bytes_eq k key then some v else found) r

unfoldable pub attribute_value : Bytes → BytesStart → Option Bytes
unfolding replace_value bytes_eq
attribute_value key e = replace_value key none e.attributes

-- `loop { Start(_) => level += 1, End(_) => { level -= 1; if level == 0 { break } }, Eof | Err =>
-- break, _ => {} }`: what is left to read
unfoldable pub skip : ℕ → Reader → Reader
skip level [] = []
skip level (start e ∷ r) = skip (level + 1) r
skip level (empty e ∷ r) = skip level r
skip level (end ∷ r) = if level - 1 == 0 then r else skip (level - 1) r
skip level (text t ∷ r) = skip level r
skip level (other ∷ r) = skip level r
skip level (eof ∷ r) = r
skip level (err ∷ r) = r

-- the same under `if level > 0`
unfoldable pub skip_element : ℕ → Reader → Reader
unfolding skip
skip_element zero r = r
skip_element (suc l) r = skip (suc l) r

-- what the element loop leaves: the state, what is left to read, and whether it met its end tag
pub record Walked {ℓ} (S : Type ℓ) : Type ℓ where
  pub state : S
  pub rest : Reader
  pub closed : Bool

-- `handle_element(xml_reader, e, level)` with the captured variables as a state; `none` is `false`,
-- by which the closure leaves the reader and its captures as they were.
abbrev pub Handler {ℓ} : Type ℓ → Type ℓ
Handler S = BytesStart → ℕ → S → Reader → Option (S × Reader)

-- The loop that gives each element to `handle`, at `level` open elements, on fuel. Where the fuel
-- is out it ends as at `Eof`, which a fuel of the events left to read never shows.
module _ {ℓ} {S : Type ℓ} (handle : Handler S) where
  unfoldable pub walk : ℕ → ℕ → S → Reader → Walked S
  walk zero level s r = record { state = s; rest = r; closed = false }
  walk (suc f) level s [] = record { state = s; rest = []; closed = false }
  walk (suc f) level s (start e ∷ r) = elim (handle e 1 s r) [
    | some (s', r') ↦ walk f level s' r'
    | none ↦ walk f (level + 1) s r
  ]
  walk (suc f) level s (empty e ∷ r) = elim (handle e 0 s r) [
    | some (s', r') ↦ walk f level s' r'
    | none ↦ walk f level s r
  ]
  walk (suc f) level s (end ∷ r) = elim (level - 1 == 0) [
    | true ↦ record { state = s; rest = r; closed = true }
    | false ↦ walk f (level - 1) s r
  ]
  walk (suc f) level s (text t ∷ r) = walk f level s r
  walk (suc f) level s (other ∷ r) = walk f level s r
  walk (suc f) level s (eof ∷ r) = record { state = s; rest = r; closed = false }
  walk (suc f) level s (err ∷ r) = record { state = s; rest = r; closed = false }

  -- `if level > 0 { loop { … } }` of an element found by `Start`, level 1, or `Empty`, level 0
  unfoldable pub walk_element : ℕ → S → Reader → Walked S
  unfolding walk
  walk_element zero s r = record { state = s; rest = r; closed = true }
  walk_element (suc l) s r = walk (length r) (suc l) s r

-- The closure `handle_element` that pushes what `parse` makes of the elements called so, if it makes
-- anything.
unfoldable pub collect {ℓ} :
    {A : Type ℓ} → (Bytes → Bool) → (BytesStart → ℕ → Reader → Option A × Reader) → Handler (List A)
collect is_item parse e level items r = elim (is_item e.name) [
  | true ↦ let (item, r') = parse e level r in some (push_some items item, r')
  | false ↦ none
]

-- `loop { match read_event_into { Start(e) => if e is the document's element { return … }, … } }`:
-- the first event that holds the element, with its level, and what is left behind it
unfoldable pub find_root : (Bytes → Bool) → Bool → Reader → Option (BytesStart × ℕ × Reader)
find_root is_root empties [] = none
find_root is_root empties (start e ∷ r) =
    if is_root e.name then some (e, 1, r) else find_root is_root empties r
find_root is_root empties (empty e ∷ r) =
    if empties && is_root e.name then some (e, 0, r) else find_root is_root empties r
find_root is_root empties (eof ∷ r) = none
find_root is_root empties (err ∷ r) = none
find_root is_root empties (_ ∷ r) = find_root is_root empties r
