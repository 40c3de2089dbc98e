-- ===== src/Connection/PCscfConnectionConfig/Rotation.antt =====
-- On a network that stays, `get_next` goes round the addresses: it skips those that give no target,
-- wraps at the end of the list, and never returns where there is nothing but such addresses.
use rust_rcs_client.Common.{
  ℕ, zero, suc, ◌+◌, ◌-◌, ◌<◌, ◌≤◌, List, [], ◌∷◌, ◌++◌, Option, none, some, ◌≡◌, refl, sym, ap,
  ◌∙◌, inl, inr, arith, Bytes, length, get_elem?, length-append, append_assoc, append-nil, All,
  Option-cases,
}
use rust_rcs_client.Connection.PCscfConnectionConfig.Position.{
  position-lt, position_in, position_at_end, get_elem-lt, All-get_elem, look_up, moved_on,
}
use rust_rcs_client.Connection.PCscfConnectionConfig.{
  PCscfConnectionConfig, protocol_for, service_type, position, target_of, Target, Connection,
  get_next,
}

module _ {Ip Dns : Type 0} (parse_ipv4 : Bytes → Option Ip) (network : ℕ → Option (ℕ × Option Dns))
    (network_type : ℕ) (dns_config : Dns)
    (stays : (k : ℕ) → network k ≡ some (network_type, some dns_config)) where
  -- the address gives no target
  abbrev pub IsUnusable : Bytes × Bytes → Type 0
  IsUnusable entry = target_of parse_ipv4 entry ≡ none

  -- the connection to a target
  abbrev pub connection_to : PCscfConnectionConfig → Target Ip → Connection Ip Dns
  connection_to c target = record {
    dns_config = dns_config;
    service = service_type (protocol_for network_type c.transport_proto);
    target = target;
  }

  get_next-skip :
      (fuel k : ℕ) (c : PCscfConnectionConfig) (entry : Bytes × Bytes)
      → get_elem? c.p_cscf_addresses (position c.p c.p_cscf_addresses) ≡ some entry
      → IsUnusable entry
      → get_next parse_ipv4 network (suc fuel) k c
        ≡ get_next parse_ipv4 network fuel
            (suc k)
            (record c { p = suc (position c.p c.p_cscf_addresses) })
  unfolding get_next
  get_next-skip fuel k c entry here unusable =
      rw (stays k, get_next) (rw (here, get_next) (rw (unusable, get_next) refl))

  get_next-take :
      (fuel k : ℕ) (c : PCscfConnectionConfig) (entry : Bytes × Bytes) (target : Target Ip)
      → get_elem? c.p_cscf_addresses (position c.p c.p_cscf_addresses) ≡ some entry
      → target_of parse_ipv4 entry ≡ some target
      → get_next parse_ipv4 network (suc fuel) k c
        ≡ some
            (some (connection_to c target), record c { p = suc (position c.p c.p_cscf_addresses) })
  unfolding get_next
  get_next-take fuel k c entry target here usable =
      rw (stays k, get_next) (rw (here, get_next) (rw (usable, get_next) refl))

  -- On a network that stays, with DNS servers, where there are addresses and all are unusable, no
  -- number of calls is enough.
  pub get_next-diverges :
      (fuel k : ℕ) (c : PCscfConnectionConfig)
      → 0 < length c.p_cscf_addresses
      → All IsUnusable c.p_cscf_addresses
      → get_next parse_ipv4 network fuel k c ≡ none
  get_next-diverges zero k c h unusable = unfold get_next in refl
  get_next-diverges (suc fuel) k c h unusable =
      let i = position c.p c.p_cscf_addresses in
      let (entry, here) = get_elem-lt c.p_cscf_addresses i (position-lt c.p c.p_cscf_addresses h) in
      get_next-skip fuel k c entry here
        (All-get_elem IsUnusable c.p_cscf_addresses i entry unusable here)
      ∙ get_next-diverges fuel (suc k) (record c { p = suc i }) h unusable

  -- the first of the addresses that gives a target
  unfoldable pub first_usable : List (Bytes × Bytes) → Option (Target Ip)
  first_usable [] = none
  first_usable (entry ∷ entries) = elim (target_of parse_ipv4 entry) [
    | some target ↦ some target
    | none ↦ first_usable entries
  ]

  -- what a run of `get_next` returns, its configuration apart
  abbrev pub answer :
      Option (Option (Connection Ip Dns) × PCscfConnectionConfig)
      → Option (Option (Connection Ip Dns))
  answer none = none
  answer (some (connection, c)) = some connection

  first_usable-here :
      (entry : Bytes × Bytes) (entries : List (Bytes × Bytes)) (target : Target Ip)
      → target_of parse_ipv4 entry ≡ some target
      → first_usable (entry ∷ entries) ≡ some target
  unfolding first_usable
  first_usable-here entry entries target e = rw (e, first_usable) refl

  first_usable-later :
      (entry : Bytes × Bytes) (entries : List (Bytes × Bytes))
      → target_of parse_ipv4 entry ≡ none
      → first_usable (entry ∷ entries) ≡ first_usable entries
  unfolding first_usable
  first_usable-later entry entries e = rw (e, first_usable) refl

  first_usable-append :
      (xs ys : List (Bytes × Bytes))
      → first_usable xs ≡ none
      → first_usable (xs ++ ys) ≡ first_usable ys
  first_usable-append [] ys h = refl
  first_usable-append (x ∷ xs) ys h = elim (Option-cases (target_of parse_ipv4 x)) [
    | inl e ↦
        first_usable-later x (xs ++ ys) e
        ∙ first_usable-append xs ys (sym (first_usable-later x xs e) ∙ h)
    | inr (t, e) ↦ absurd (cc (h, first_usable-here x xs t e))
  ]

  first_usable-found :
      (xs ys : List (Bytes × Bytes)) (target : Target Ip)
      → first_usable xs ≡ some target
      → first_usable (xs ++ ys) ≡ some target
  first_usable-found [] ys target h = absurd (unfold first_usable in cc h)
  first_usable-found (x ∷ xs) ys target h = elim (Option-cases (target_of parse_ipv4 x)) [
    | inl e ↦
        first_usable-later x (xs ++ ys) e
        ∙ first_usable-found xs ys target (sym (first_usable-later x xs e) ∙ h)
    | inr (t, e) ↦ first_usable-here x (xs ++ ys) t e ∙ sym (first_usable-here x xs t e) ∙ h
  ]

  -- an address that is usable, at the position
  taken :
      (x : Bytes × Bytes) (xs : List (Bytes × Bytes)) (fuel k : ℕ) (c : PCscfConnectionConfig)
      (t target : Target Ip)
      → get_elem? c.p_cscf_addresses (position c.p c.p_cscf_addresses) ≡ some x
      → target_of parse_ipv4 x ≡ some t
      → first_usable (x ∷ xs) ≡ some target
      → answer (get_next parse_ipv4 network (suc fuel) k c) ≡ some (some (connection_to c target))
  taken x xs fuel k c t target here good found =
      let same : t ≡ target = ground (arith, first_usable-here x xs t good, found) in
      ap answer (get_next-take fuel k c x t here good)
      ∙ ap (λ (u : Target Ip). some (some (connection_to c u))) same

  -- from a position on, up to an address that is usable
  scan :
      (mid pre post : List (Bytes × Bytes)) (fuel k : ℕ) (c : PCscfConnectionConfig)
      (target : Target Ip)
      → c.p_cscf_addresses ≡ pre ++ (mid ++ post)
      → position c.p c.p_cscf_addresses ≡ length pre
      → first_usable mid ≡ some target
      → length mid ≤ fuel
      → answer (get_next parse_ipv4 network fuel k c) ≡ some (some (connection_to c target))
  scan [] pre post fuel k c target e at found enough = absurd (unfold first_usable in cc found)
  scan (x ∷ xs) pre post zero k c target e at found enough = absurd (omega arith)
  scan (x ∷ []) pre post (suc fuel) k c target e at found enough =
      elim (Option-cases (target_of parse_ipv4 x)) [
        | inr (t, good) ↦ taken x [] fuel k c t target (look_up c pre x post e at) good found
        | inl bad ↦ absurd (unfold first_usable in cc (sym (first_usable-later x [] bad) ∙ found))
      ]
  scan (x ∷ y ∷ ys) pre post (suc fuel) k c target e at found enough =
      let here = look_up c pre x (y ∷ (ys ++ post)) e at in
      elim (Option-cases (target_of parse_ipv4 x)) [
        | inr (t, good) ↦ taken x (y ∷ ys) fuel k c t target here good found
        | inl bad ↦
            ap answer (get_next-skip fuel k c x here bad)
            ∙ scan (y ∷ ys) (pre ++ x ∷ []) post fuel (suc k)
                (record c { p = suc (position c.p c.p_cscf_addresses) }) target
                (e ∙ sym (append_assoc pre (x ∷ []) (y ∷ (ys ++ post))))
                (moved_on c pre x y (ys ++ post) e at)
                (sym (first_usable-later x (y ∷ ys) bad) ∙ found) (omega (arith, enough))
      ]

  first_usable-none :
      (x : Bytes × Bytes) (xs : List (Bytes × Bytes))
      → first_usable (x ∷ xs) ≡ none
      → target_of parse_ipv4 x ≡ none
  first_usable-none x xs h = elim (Option-cases (target_of parse_ipv4 x)) [
    | inl e ↦ e
    | inr (t, e) ↦ absurd (cc (sym h ∙ first_usable-here x xs t e))
  ]

  -- over the end of the list, where nothing up to there is usable
  wrap :
      (x : Bytes × Bytes) (xs pre : List (Bytes × Bytes)) (all fuel k : ℕ)
      (c : PCscfConnectionConfig)
      → all ≡ length (x ∷ xs) + fuel
      → c.p_cscf_addresses ≡ pre ++ x ∷ xs
      → position c.p c.p_cscf_addresses ≡ length pre
      → first_usable (x ∷ xs) ≡ none
      → (j : ℕ) × (get_next parse_ipv4 network all k c
          ≡ get_next parse_ipv4 network fuel j (record c { p = length c.p_cscf_addresses }))
  wrap x xs pre zero fuel k c n e at unusable = absurd (omega arith)
  wrap x [] pre (suc all) fuel k c n e at unusable =
      let bad : target_of parse_ipv4 x ≡ none = first_usable-none x [] unusable in
      let last : suc (position c.p c.p_cscf_addresses) ≡ length c.p_cscf_addresses =
        omega (arith, ap length e, length-append pre (x ∷ []), at) in
      let left : all ≡ fuel = omega (arith, n) in
      (
        suc k,
        get_next-skip all k c x (look_up c pre x [] e at) bad
            ∙ ap (λ m. get_next parse_ipv4 network all (suc k) (record c { p = m })) last
            ∙ ap
                (λ m.
                  get_next parse_ipv4 network m (suc k)
                    (record c { p = length c.p_cscf_addresses }))
                left,
      )
  wrap x (y ∷ ys) pre (suc all) fuel k c n e at unusable =
      let bad : target_of parse_ipv4 x ≡ none = first_usable-none x (y ∷ ys) unusable in
      let (j, rest) =
        wrap y ys (pre ++ x ∷ []) all fuel (suc k)
          (record c { p = suc (position c.p c.p_cscf_addresses) }) (omega (arith, n))
          (e ∙ sym (append_assoc pre (x ∷ []) (y ∷ ys))) (moved_on c pre x y ys e at)
          (sym (first_usable-later x (y ∷ ys) bad) ∙ unusable) in
      (j, get_next-skip all k c x (look_up c pre x (y ∷ ys) e at) bad ∙ rest)

  -- On a network that stays, with DNS servers, and at the position behind `pre`, `get_next` gives the first address that is usable, from there to
  -- the end of the list and then from its start on. A call for each address is enough.
  pub get_next-turn :
      (pre suf : List (Bytes × Bytes)) (fuel k : ℕ) (c : PCscfConnectionConfig) (target : Target Ip)
      → c.p_cscf_addresses ≡ pre ++ suf
      → c.p ≡ length pre
      → first_usable (suf ++ pre) ≡ some target
      → length (suf ++ pre) ≤ fuel
      → answer (get_next parse_ipv4 network fuel k c) ≡ some (some (connection_to c target))
  get_next-turn pre [] fuel k c target e at found enough =
      let whole : c.p_cscf_addresses ≡ pre = e ∙ append-nil pre in
      scan pre [] [] fuel k c target e
        (ap (λ n. position n c.p_cscf_addresses) (at ∙ ap length (sym whole))
          ∙ position_at_end c.p_cscf_addresses)
        found enough
  get_next-turn pre (x ∷ xs) fuel k c target e at found enough =
      let whole = ap length e ∙ length-append pre (x ∷ xs) in
      let size = length-append (x ∷ xs) pre in
      let here : position c.p c.p_cscf_addresses ≡ length pre =
        position_in c.p c.p_cscf_addresses (omega arith) ∙ at in
      elim (Option-cases (first_usable (x ∷ xs))) [
        | inr (t, good) ↦
            let same : t ≡ target = ground (arith, first_usable-found (x ∷ xs) pre t good, found) in
            scan (x ∷ xs) pre [] fuel k c target (rw append-nil e) here (rw same at good)
              (omega arith)
        | inl bad ↦
            let (j, wrapped) =
              wrap x xs pre fuel (fuel - length (x ∷ xs)) k c (omega arith) e here bad in
            ap answer wrapped
            ∙ scan pre [] (x ∷ xs) (fuel - length (x ∷ xs)) j
                (record c { p = length c.p_cscf_addresses }) target e
                (position_at_end c.p_cscf_addresses)
                (sym (first_usable-append (x ∷ xs) pre bad) ∙ found) (omega arith)
      ]
