-- ===== src/Xml/Forest.antt =====
-- Well-formed XML content as a tree, the events that a reader returns for it, and what the element
-- loop makes of it: a plain recursion over the tree, by which each parser is specified.
use rust_rcs_client.Common.{
  ℕ, zero, suc, ◌+◌, ◌-◌, ◌≤◌, ◌<◌, true, false, ◌∷◌, Option, none, some, ◌≡◌, refl, ap, ◌∙◌, inl,
  inr, arith, length, Option-cases, ◌==◌, Bytes,
}
use rust_rcs_client.Xml.{BytesStart, Reader, Handler, start, empty, end, text, other, skip, walk}
use rust_rcs_client.Xml.Walk.{Consumes, walk-congr}

-- the content of an element: its first node, with the nodes behind it
pub data Forest : Type 0 where
  nil : Forest
  -- an element with its content
  element : BytesStart → Forest → Forest → Forest
  empty_element : BytesStart → Forest → Forest
  text_node : Option Bytes → Forest → Forest
  other_node : Forest → Forest

-- the events of the content, and then `rest`
abbrev pub events : Forest → Reader → Reader
events nil rest = rest
events (element e kids next) rest = start e ∷ events kids (end ∷ events next rest)
events (empty_element e next) rest = empty e ∷ events next rest
events (text_node t next) rest = text t ∷ events next rest
events (other_node next) rest = other ∷ events next rest

pub length-events : (F : Forest) (rest : Reader) → length rest ≤ length (events F rest)
length-events nil rest = omega arith
length-events (element e kids next) rest =
    omega (arith, length-events kids (end ∷ events next rest), length-events next rest)
length-events (empty_element e next) rest = omega (arith, length-events next rest)
length-events (text_node t next) rest = omega (arith, length-events next rest)
length-events (other_node next) rest = omega (arith, length-events next rest)

skip_end : (l : ℕ) (r : Reader) → skip (suc (suc l)) (end ∷ r) ≡ skip (suc l) r
unfolding skip
skip_end l r = ground arith

-- Skipping content leaves the level and what follows it.
pub skip-events :
    (F : Forest) (l : ℕ) (rest : Reader) → skip (suc l) (events F rest) ≡ skip (suc l) rest
unfolding skip
skip-events nil l rest = refl
skip-events (element e kids next) l rest =
    let deeper : suc l + 1 ≡ suc (suc l) = omega arith in
    ap (λ level. skip level (events kids (end ∷ events next rest))) deeper
    ∙ skip-events kids (suc l) (end ∷ events next rest)
    ∙ skip_end l (events next rest)
    ∙ skip-events next l rest
skip-events (empty_element e next) l rest = skip-events next l rest
skip-events (text_node t next) l rest = skip-events next l rest
skip-events (other_node next) l rest = skip-events next l rest

-- Behind the content of an element stands its end tag, where the skipping stops.
pub skip-element : (F : Forest) (rest : Reader) → skip 1 (events F (end ∷ rest)) ≡ rest
skip-element F rest = skip-events F 0 (end ∷ rest) ∙ unfold skip in refl

-- The loop over a tree: `on_element` and `on_empty` say what the handler does with an element, and
-- the content of an element that is not handled counts as content of the element around it.
module _ {ℓ} {S : Type ℓ} (on_element : BytesStart → S → Forest → Option S)
    (on_empty : BytesStart → S → Option S) where
  unfoldable pub sweep : S → Forest → S
  sweep s nil = s
  sweep s (element e kids next) = elim (on_element e s kids) [
    | some s' ↦ sweep s' next
    | none ↦ sweep (sweep s kids) next
  ]
  sweep s (empty_element e next) = elim (on_empty e s) [
    | some s' ↦ sweep s' next
    | none ↦ sweep s next
  ]
  sweep s (text_node t next) = sweep s next
  sweep s (other_node next) = sweep s next

-- what a handler returns that takes state `o` and leaves `rest`
abbrev pub leaves {ℓ} : {S : Type ℓ} → Reader → Option S → Option (S × Reader)
leaves rest none = none
leaves rest (some s) = some (s, rest)

module _ {ℓ} {S : Type ℓ} (handle : Handler S) where
  walk_end :
      (f l : ℕ) (s : S) (r : Reader)
      → walk handle (suc f) (suc (suc l)) s (end ∷ r) ≡ walk handle f (suc l) s r
  unfolding walk
  walk_end f l s r =
      let deep : (suc (suc l) - 1 == 0) ≡ false = ground arith in
      let less : suc (suc l) - 1 ≡ suc l = omega arith in
      rw (deep, walk) (ap (λ level. walk handle f level s r) less)

  pub walk_close :
      (f : ℕ) (s : S) (r : Reader)
      → walk handle (suc f) 1 s (end ∷ r) ≡ record { state = s; rest = r; closed = true }
  unfolding walk
  walk_close f s r = refl

-- The end tag closes the loop with any fuel at all.
pub walk_end_tag {ℓ} :
    {S : Type ℓ} (handle : Handler S) (f : ℕ) (s : S) (r : Reader)
    → 0 < f
    → walk handle f 1 s (end ∷ r) ≡ record { state = s; rest = r; closed = true }
unfolding walk
walk_end_tag handle zero s r h = absurd (omega arith)
walk_end_tag handle (suc f) s r h = refl

module _ {ℓ} {S : Type ℓ} (handle : Handler S) (consumes : Consumes handle)
    (on_element : BytesStart → S → Forest → Option S) (on_empty : BytesStart → S → Option S) (n : ℕ)
    (element_agrees : (e : BytesStart) (s : S) (kids : Forest) (rest : Reader)
      → length (events kids (end ∷ rest)) < n
      → handle e 1 s (events kids (end ∷ rest)) ≡ leaves rest (on_element e s kids))
    (empty_agrees : (e : BytesStart) (s : S) (r : Reader)
      → handle e 0 s r ≡ leaves r (on_empty e s)) where
  -- more or less fuel, and both enough
  refuel :
      (f g level : ℕ) (s : S) (r : Reader)
      → length r ≤ n
      → length r ≤ f
      → length r ≤ g
      → walk handle f level s r ≡ walk handle g level s r
  refuel = walk-congr handle handle n consumes (λ e level s r _. refl)

  pub walk-sweep :
      (F : Forest) (f g l : ℕ) (s : S) (rest : Reader)
      → length (events F rest) ≤ n
      → length (events F rest) ≤ f
      → length rest ≤ g
      → walk handle f (suc l) s (events F rest)
        ≡ walk handle g (suc l) (sweep on_element on_empty s F) rest
  unfolding walk sweep
  walk-sweep nil f g l s rest hn hf hg = refuel f g (suc l) s rest hn hf hg
  walk-sweep (element e kids next) zero g l s rest hn hf hg = absurd (omega arith)
  walk-sweep (element e kids next) (suc f) g l s rest hn hf hg =
      let R = events next rest in
      let inner = length-events kids (end ∷ R) in
      let agrees = element_agrees e s kids R (omega arith) in
      elim (Option-cases (on_element e s kids)) [
        | inl h ↦
            let left : handle e 1 s (events kids (end ∷ R)) ≡ none = rw agrees (rw h) in
            let deeper : suc l + 1 ≡ suc (suc l) = omega arith in
            rw (h, left, deeper, walk, sweep)
              (walk-sweep kids f (suc (length R)) (suc l) s (end ∷ R) (omega arith) (omega arith)
                  (omega arith)
                ∙ walk_end handle (length R) l (sweep on_element on_empty s kids) R
                ∙ walk-sweep next (length R) g l (sweep on_element on_empty s kids) rest
                    (omega arith) (omega arith) hg)
        | inr (s', h) ↦
            let taken : handle e 1 s (events kids (end ∷ R)) ≡ some (s', R) = rw agrees (rw h) in
            rw (h, taken, walk, sweep)
              (walk-sweep next f g l s' rest (omega arith) (omega arith) hg)
      ]
  walk-sweep (empty_element e next) zero g l s rest hn hf hg = absurd (omega arith)
  walk-sweep (empty_element e next) (suc f) g l s rest hn hf hg =
      let R = events next rest in
      elim (Option-cases (on_empty e s)) [
        | inl h ↦
            let left : handle e 0 s R ≡ none = rw (empty_agrees e s R) (rw h) in
            rw (h, left, walk, sweep) (walk-sweep next f g l s rest (omega arith) (omega arith) hg)
        | inr (s', h) ↦
            let taken : handle e 0 s R ≡ some (s', R) = rw (empty_agrees e s R) (rw h) in
            rw (h, taken, walk, sweep)
              (walk-sweep next f g l s' rest (omega arith) (omega arith) hg)
      ]
  walk-sweep (text_node t next) zero g l s rest hn hf hg = absurd (omega arith)
  walk-sweep (text_node t next) (suc f) g l s rest hn hf hg =
      walk-sweep next f g l s rest (omega arith) (omega arith) hg
  walk-sweep (other_node next) zero g l s rest hn hf hg = absurd (omega arith)
  walk-sweep (other_node next) (suc f) g l s rest hn hf hg =
      walk-sweep next f g l s rest (omega arith) (omega arith) hg
