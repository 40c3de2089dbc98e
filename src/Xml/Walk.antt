-- ===== src/Xml/Walk.antt =====
-- The element loop, for any handler that consumes: it consumes too, and its result does not depend
-- on the fuel once that covers the events.
use rust_rcs_client.Common.{
  ℕ, zero, suc, ◌+◌, ◌-◌, ◌≤◌, ◌<◌, [], ◌∷◌, some, ◌≡◌, refl, sym, ◌∙◌, inl, inr, arith, length,
  Option-cases, Bool-cases, ◌==◌,
}
use rust_rcs_client.Xml.{
  BytesStart, Reader, Handler, start, empty, end, text, other, eof, err, skip, walk,
}

pub length-skip : (level : ℕ) (r : Reader) → length (skip level r) ≤ length r
unfolding skip
length-skip level [] = omega arith
length-skip level (start e ∷ r) = omega (arith, length-skip (level + 1) r)
length-skip level (empty e ∷ r) = omega (arith, length-skip level r)
length-skip level (end ∷ r) = ground (arith, length-skip (level - 1) r)
length-skip level (text t ∷ r) = omega (arith, length-skip level r)
length-skip level (other ∷ r) = omega (arith, length-skip level r)
length-skip level (eof ∷ r) = omega arith
length-skip level (err ∷ r) = omega arith

-- A handler reads on, from a reader of `n` events at most.
abbrev pub Consumes {ℓ} : {S : Type ℓ} → Handler S → Type ℓ
Consumes {S} handle =
    (e : BytesStart) (level : ℕ) (s : S) (r : Reader) (s' : S) (r' : Reader)
    → handle e level s r ≡ some (s', r')
    → length r' ≤ length r

module _ {ℓ} {S : Type ℓ} (handle : Handler S) (consumes : Consumes handle) where
  pub length-walk :
      (f level : ℕ) (s : S) (r : Reader) → length (walk handle f level s r).rest ≤ length r
  unfolding walk
  length-walk zero level s r = omega arith
  length-walk (suc f) level s [] = omega arith
  length-walk (suc f) level s (start e ∷ r) = elim (Option-cases (handle e 1 s r)) [
    | inl h ↦ rw (h, walk, length) (omega (arith, length-walk f (level + 1) s r))
    | inr ((s', r'), h) ↦
        rw (h, walk, length) (omega (arith, consumes e 1 s r s' r' h, length-walk f level s' r'))
  ]
  length-walk (suc f) level s (empty e ∷ r) = elim (Option-cases (handle e 0 s r)) [
    | inl h ↦ rw (h, walk, length) (omega (arith, length-walk f level s r))
    | inr ((s', r'), h) ↦
        rw (h, walk, length) (omega (arith, consumes e 0 s r s' r' h, length-walk f level s' r'))
  ]
  length-walk (suc f) level s (end ∷ r) = elim (Bool-cases (level - 1 == 0)) [
    | inl h ↦ rw (h, walk, length) (omega arith)
    | inr h ↦ rw (h, walk, length) (omega (arith, length-walk f (level - 1) s r))
  ]
  length-walk (suc f) level s (text t ∷ r) = omega (arith, length-walk f level s r)
  length-walk (suc f) level s (other ∷ r) = omega (arith, length-walk f level s r)
  length-walk (suc f) level s (eof ∷ r) = omega arith
  length-walk (suc f) level s (err ∷ r) = omega arith

-- Two handlers that agree on readers of fewer than `n` events, the first of which consumes.
module _ {ℓ} {S : Type ℓ} (handle handle' : Handler S) (n : ℕ) (consumes : Consumes handle)
    (agrees : (e : BytesStart) (level : ℕ) (s : S) (r : Reader)
      → length r < n
      → handle e level s r ≡ handle' e level s r) where
  pub walk-congr :
      (f g level : ℕ) (s : S) (r : Reader)
      → length r ≤ n
      → length r ≤ f
      → length r ≤ g
      → walk handle f level s r ≡ walk handle' g level s r
  unfolding walk
  walk-congr zero zero level s r hn hf hg = refl
  walk-congr zero (suc g) level s [] hn hf hg = refl
  walk-congr zero (suc g) level s (_ ∷ r) hn hf hg = absurd (omega arith)
  walk-congr (suc f) zero level s [] hn hf hg = refl
  walk-congr (suc f) zero level s (_ ∷ r) hn hf hg = absurd (omega arith)
  walk-congr (suc f) (suc g) level s [] hn hf hg = refl
  walk-congr (suc f) (suc g) level s (start e ∷ r) hn hf hg =
      let same = sym (agrees e 1 s r (omega arith)) in
      elim (Option-cases (handle e 1 s r)) [
        | inl h ↦
            rw (h, same ∙ h, walk)
              (walk-congr f g (level + 1) s r (omega arith) (omega arith) (omega arith))
        | inr ((s', r'), h) ↦
            let fewer = consumes e 1 s r s' r' h in
            rw (h, same ∙ h, walk)
              (walk-congr f g level s' r' (omega arith) (omega arith) (omega arith))
      ]
  walk-congr (suc f) (suc g) level s (empty e ∷ r) hn hf hg =
      let same = sym (agrees e 0 s r (omega arith)) in
      elim (Option-cases (handle e 0 s r)) [
        | inl h ↦
            rw (h, same ∙ h, walk)
              (walk-congr f g level s r (omega arith) (omega arith) (omega arith))
        | inr ((s', r'), h) ↦
            let fewer = consumes e 0 s r s' r' h in
            rw (h, same ∙ h, walk)
              (walk-congr f g level s' r' (omega arith) (omega arith) (omega arith))
      ]
  walk-congr (suc f) (suc g) level s (end ∷ r) hn hf hg = elim (Bool-cases (level - 1 == 0)) [
    | inl h ↦ rw (h, walk)
    | inr h ↦
        rw (h, walk) (walk-congr f g (level - 1) s r (omega arith) (omega arith) (omega arith))
  ]
  walk-congr (suc f) (suc g) level s (text t ∷ r) hn hf hg =
      walk-congr f g level s r (omega arith) (omega arith) (omega arith)
  walk-congr (suc f) (suc g) level s (other ∷ r) hn hf hg =
      walk-congr f g level s r (omega arith) (omega arith) (omega arith)
  walk-congr (suc f) (suc g) level s (eof ∷ r) hn hf hg = refl
  walk-congr (suc f) (suc g) level s (err ∷ r) hn hf hg = refl
