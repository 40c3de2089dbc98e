-- ===== src/Provisioning/Characteristic/Fuel.antt =====
-- `read_characteristic` consumes, and the fuel behind it is enough: it satisfies the equation by
-- which the source defines it, where nothing counts fuel.
use rust_rcs_client.Common.{ℕ, zero, suc, ◌≤◌, ◌<◌, ◌≡◌, refl, ap, arith, length}
use rust_rcs_client.Xml.{Reader, BytesStart, Walked, walk_element, skip_element}
use rust_rcs_client.Xml.Walk.{Consumes, length-skip, length-walk, walk-congr}
use rust_rcs_client.Provisioning.Characteristic.{
  CharacteristicReader, Content, no_content, read_parm, handle_element, make_characteristic,
  read_nested, read_characteristic,
}

pub length-skip_element : (level : ℕ) (r : Reader) → length (skip_element level r) ≤ length r
unfolding skip_element
length-skip_element zero r = omega arith
length-skip_element (suc l) r = length-skip (suc l) r

length-read_parm :
    (e : BytesStart) (level : ℕ) (r : Reader) → length (read_parm e level r).1 ≤ length r
unfolding read_parm
length-read_parm e level r = length-skip_element level r

-- Reads on, whatever element it is given.
abbrev pub ReadsOn : CharacteristicReader → Type 0
ReadsOn read = (e : BytesStart) (level : ℕ) (r : Reader) → length (read e level r).1 ≤ length r

pub handle_element-Consumes :
    (read : CharacteristicReader) → ReadsOn read → Consumes (handle_element read)
unfolding handle_element
handle_element-Consumes read on e level s r s' r' h =
    ground (arith, on e level r, length-read_parm e level r)

length-walk_element :
    (read : CharacteristicReader) (level : ℕ) (s : Content) (r : Reader)
    → ReadsOn read
    → length (walk_element (handle_element read) level s r).rest ≤ length r
unfolding walk_element
length-walk_element read zero s r on = omega arith
length-walk_element read (suc l) s r on =
    length-walk (handle_element read) (handle_element-Consumes read on) (length r) (suc l) s r

pub read_nested-ReadsOn : (f : ℕ) → ReadsOn (read_nested f)
unfolding read_nested
read_nested-ReadsOn zero e level r = omega arith
read_nested-ReadsOn (suc f) e level r =
    length-walk_element (read_nested f) level no_content r (read_nested-ReadsOn f)

-- Two readers of nested characteristics that agree below `n` events give handlers that do.
handle_element-congr :
    (read read' : CharacteristicReader) (n : ℕ)
    → ((e : BytesStart) (level : ℕ) (r : Reader) → length r < n → read e level r ≡ read' e level r)
    → (e : BytesStart) (level : ℕ) (s : Content) (r : Reader) → length r < n
    → handle_element read e level s r ≡ handle_element read' e level s r
unfolding handle_element
handle_element-congr read read' n same e level s r h = ground (arith, same e level r h)

walk_element-congr :
    (read read' : CharacteristicReader) (level : ℕ) (s : Content) (r : Reader)
    → ReadsOn read
    → ((e : BytesStart) (l : ℕ) (q : Reader) → length q < length r → read e l q ≡ read' e l q)
    → walk_element (handle_element read) level s r ≡ walk_element (handle_element read') level s r
unfolding walk_element
walk_element-congr read read' zero s r on same = refl
walk_element-congr read read' (suc l) s r on same =
    walk-congr (handle_element read) (handle_element read') (length r)
      (handle_element-Consumes read on) (handle_element-congr read read' (length r) same) (length r)
      (length r) (suc l) s r (omega arith) (omega arith) (omega arith)

-- More fuel than events, and the result is the same for any such fuel.
pub read_nested_stable :
    (f g : ℕ) (e : BytesStart) (level : ℕ) (r : Reader)
    → length r < f
    → length r < g
    → read_nested f e level r ≡ read_nested g e level r
unfolding read_nested
read_nested_stable zero g e level r hf hg = absurd (omega arith)
read_nested_stable (suc f) zero e level r hf hg = absurd (omega arith)
read_nested_stable (suc f) (suc g) e level r hf hg =
    ap (λ (w : Walked Content). (make_characteristic e w.state, w.rest))
      (walk_element-congr (read_nested f) (read_nested g) level no_content r (read_nested-ReadsOn f)
        (λ e' l q h. read_nested_stable f g e' l q (omega arith) (omega arith)))

pub length-read_characteristic :
    (e : BytesStart) (level : ℕ) (r : Reader) → length (read_characteristic e level r).1 ≤ length r
unfolding read_characteristic
length-read_characteristic e level r = read_nested-ReadsOn (suc (length r)) e level r

-- Reading an element is one run of the element loop, whose nested readings are calls of
-- `read_characteristic` itself: the recursion of the source, at every element and level.
pub read_characteristic_unfold :
    (e : BytesStart) (level : ℕ) (r : Reader)
    → let w = walk_element (handle_element read_characteristic) level no_content r in
      read_characteristic e level r ≡ (make_characteristic e w.state, w.rest)
unfolding read_characteristic read_nested
read_characteristic_unfold e level r =
    ap (λ (w : Walked Content). (make_characteristic e w.state, w.rest))
      (walk_element-congr (read_nested (length r)) read_characteristic level no_content r
        (read_nested-ReadsOn (length r))
        (λ e' l q h.
          read_nested_stable (length r) (suc (length q)) e' l q (omega arith) (omega arith)))
