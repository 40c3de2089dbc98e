-- ===== src/Provisioning/LocalProvisioningDoc/Tokens.antt =====
-- Versions and tokens of the stored document: what `update_vers_token` records is found again, and
-- what `unlink_token` removes.
use rust_rcs_client.Common.{
  ℕ, ℤ, pos, negsuc, Bool, true, false, List, [], ◌∷◌, map, Option, none, some, ◌≡◌, refl, sym, ap,
  ◌∙◌, inl, inr, arith, Bytes, bytes_eq, bytes_eq_refl, Option-cases, ◌>>=◌, if◌then◌else◌,
  Bool-cases, parse_i64, print_i64, IsI64, parse_i64-print_i64, ltb, All, codes,
}
use mathlib.Core.Path.{ap₂}
use rust_rcs_client.Provisioning.WapProvisioningDoc.{WapProvisioningDoc}
use rust_rcs_client.Provisioning.LocalProvisioningDoc.{
  ProvisiongingInfo, LocalProvisioningDoc, is_default_info, is_addressed, days_365,
  destructure_provisioning_info, find_info, get_provisioning_info, unlink_token_in, unlink_token,
  token_through, update_token, new_info, update_vers_root, update_vers_token,
}

-- the document of the first entry addressed
abbrev pub addressed_wap : Bool → Bytes → List ProvisiongingInfo → Option WapProvisioningDoc
addressed_wap is_default id [] = none
addressed_wap is_default id (info ∷ infos) =
    if is_addressed is_default id info then info.wap_doc else addressed_wap is_default id infos

-- how long a token holds: its validity in seconds if that is above 0, else a year
abbrev pub lifetime : Option ℤ → ℕ
lifetime (some (pos n)) = if ltb 0 n then n else days_365
lifetime _ = days_365

module _ {DateTime : Type 0} (parse_rfc3339 : Bytes → Option DateTime)
    (after_seconds : ℕ → Bytes) where
  -- the token that was given, with the time until which it is granted as it is read back; `none` where
  -- the text of that time cannot be read
  abbrev pub granted : Option (Bytes × Option ℤ) → Option (Option (Bytes × DateTime))
  granted none = some none
  granted (some (token, validity)) =
      parse_rfc3339 (after_seconds (lifetime validity)) >>= (λ t. some (some (token, t)))

  -- what is found of an entry; nothing where its token cannot be read
  abbrev pub found_with :
      ℤ
      → DateTime
      → Option WapProvisioningDoc
      → Option (Option (Bytes × DateTime))
      → Option (ℤ × DateTime × Option (Bytes × DateTime) × Option WapProvisioningDoc)
  found_with vers t wap none = none
  found_with vers t wap (some token) = some (vers, t, token, wap)

  token_through-lifetime :
      (validity : Option ℤ)
      → token_through after_seconds validity ≡ after_seconds (lifetime validity)
  unfolding token_through
  token_through-lifetime none = refl
  token_through-lifetime (some (pos n)) = ground arith
  token_through-lifetime (some (negsuc n)) = refl

  -- an entry that the update wrote
  destructure-update_token :
      (token : Option (Bytes × Option ℤ)) (info : ProvisiongingInfo) (vers : ℤ) (t : DateTime)
      → parse_i64 info.vers_version ≡ some vers
      → parse_rfc3339 info.vers_validity_through ≡ some t
      → destructure_provisioning_info parse_rfc3339 (update_token after_seconds token info)
        ≡ found_with vers t info.wap_doc (granted token)
  unfolding destructure_provisioning_info update_token
  destructure-update_token none info vers t hv ht = rw (hv, ht) refl
  destructure-update_token (some (token, validity)) info vers t hv ht =
      elim (Option-cases (parse_rfc3339 (after_seconds (lifetime validity)))) [
        | inl unread ↦ rw (hv, ht, token_through-lifetime validity, unread) refl
        | inr (through, read) ↦ rw (hv, ht, token_through-lifetime validity, read) refl
      ]

  addressed-update_token :
      (d : Bool) (id : Bytes) (token : Option (Bytes × Option ℤ)) (info : ProvisiongingInfo)
      → is_addressed d id (update_token after_seconds token info) ≡ is_addressed d id info
  unfolding is_addressed is_default_info update_token
  addressed-update_token d id none info = refl
  addressed-update_token d id (some (token, validity)) info = refl

  addressed_self : (d : Bool) (info : ProvisiongingInfo) → is_addressed d info.id info ≡ true
  unfolding is_addressed
  addressed_self d info = ground (arith, bytes_eq_refl info.id)

  find_info-later :
      (d : Bool) (id : Bytes) (info : ProvisiongingInfo) (infos : List ProvisiongingInfo)
      → is_addressed d id info ≡ false
      → find_info parse_rfc3339 d id (info ∷ infos) ≡ find_info parse_rfc3339 d id infos
  unfolding find_info
  find_info-later d id info infos h = rw h

  module _ (d : Bool) (id : Bytes) (vers : ℤ) (through : Bytes) (token : Option (Bytes × Option ℤ))
      (t : DateTime) (ranged : IsI64 vers) (readable : parse_rfc3339 through ≡ some t) where
    -- an addressed entry, with the version written into it
    find_info-updated :
        (info : ProvisiongingInfo) (infos : List ProvisiongingInfo)
        → is_addressed d id info ≡ true
        → find_info parse_rfc3339 d id (
            update_token after_seconds token
              (record info { vers_version = print_i64 vers; vers_validity_through = through })
            ∷ infos)
          ≡ found_with vers t info.wap_doc (granted token)
    unfolding find_info is_addressed is_default_info
    find_info-updated info infos h =
        let written = record info {
          vers_version = print_i64 vers;
          vers_validity_through = through;
        } in
        rw (addressed-update_token d id token written ∙ h)
          (destructure-update_token token written vers t (parse_i64-print_i64 vers ranged) readable)

    find_info-new_info :
        find_info parse_rfc3339 d id (new_info after_seconds d id vers through token ∷ [])
        ≡ found_with vers t none (granted token)
    unfolding find_info new_info
    find_info-new_info =
        let bare : ProvisiongingInfo = record {
          default = if d then codes "yes" else codes "no";
          id = id;
          vers_version = print_i64 vers;
          vers_validity_through = through;
          token_token = none;
          token_validity_through = none;
          wap_doc = none;
        } in
        rw (addressed-update_token d id token bare ∙ addressed_self d bare)
          (destructure-update_token token bare vers t (parse_i64-print_i64 vers ranged) readable)

    find_info-update_vers :
        (infos : List ProvisiongingInfo)
        → find_info parse_rfc3339 d id
            (update_vers_root after_seconds d id vers through token infos)
          ≡ found_with vers t (addressed_wap d id infos) (granted token)
    unfolding update_vers_root
    find_info-update_vers [] = find_info-new_info
    find_info-update_vers (info ∷ infos) = elim (Bool-cases (is_addressed d id info)) [
      | inl here ↦ rw here (find_info-updated info infos here)
      | inr later ↦
          let skipped =
            find_info-later d id info (update_vers_root after_seconds d id vers through token infos)
              later in
          rw later (skipped ∙ find_info-update_vers infos)
    ]

  -- After `update_vers_token` of a 64-bit version and a validity that chrono can read, whether an entry
  -- was there or one was added, the same query finds the version and validity that were recorded, the
  -- token with the time it was granted for, and the document of the entry as it was. Where chrono
  -- cannot read the time that it printed for the token, nothing is found of the entry at all.
  pub get_provisioning_info-update_vers_token :
      (doc : LocalProvisioningDoc) (d : Bool) (id : Bytes) (vers : ℤ) (through : Bytes)
      (token : Option (Bytes × Option ℤ)) (t : DateTime)
      → IsI64 vers
      → parse_rfc3339 through ≡ some t
      → get_provisioning_info parse_rfc3339
          (update_vers_token after_seconds doc d id vers through token)
          d
          id
        ≡ found_with vers t (addressed_wap d id doc.root) (granted token)
  unfolding get_provisioning_info update_vers_token
  get_provisioning_info-update_vers_token doc d id vers through token t ranged readable =
      find_info-update_vers d id vers through token t ranged readable doc.root

-- no token on the default server's entries
abbrev pub HasNoDefaultToken : ProvisiongingInfo → Type 0
HasNoDefaultToken info =
    is_default_info info ≡ true → (info.token_token ≡ none) × (info.token_validity_through ≡ none)

unlink_token_in-default :
    (id : Bytes) (info : ProvisiongingInfo) → HasNoDefaultToken (unlink_token_in true id info)
unfolding unlink_token_in is_addressed is_default_info
unlink_token_in-default id info = elim (Bool-cases (is_default_info info)) [
  | inl default ↦ rw default (λ _. (refl, refl))
  | inr other ↦ elim (Bool-cases (bytes_eq info.id id)) [
    | inl named ↦ rw (other, named) (λ h. cc (sym other ∙ h))
    | inr unnamed ↦ rw (other, unnamed) (λ h. cc (sym other ∙ h))
  ]
]

unlink_token-default :
    (id : Bytes) (infos : List ProvisiongingInfo)
    → All HasNoDefaultToken (map (unlink_token_in true id) infos)
unlink_token-default id [] = tt
unlink_token-default id (info ∷ infos) =
    (unlink_token_in-default id info, unlink_token-default id infos)

-- The flag for the default server takes the token off every entry of the default server.
pub unlink_token-HasNoDefaultToken :
    (doc : LocalProvisioningDoc) (id : Bytes)
    → All HasNoDefaultToken (unlink_token doc true id).root
unfolding unlink_token
unlink_token-HasNoDefaultToken doc id = unlink_token-default id doc.root

unlink_token_in-kept :
    (id : Bytes) (info : ProvisiongingInfo)
    → (bytes_eq info.id id ≡ true → is_default_info info ≡ false)
    → unlink_token_in false id info ≡ info
unfolding unlink_token_in is_addressed
unlink_token_in-kept id info h = elim (Bool-cases (bytes_eq info.id id)) [
  | inl named ↦ rw (named, h named)
  | inr unnamed ↦ rw unnamed
]

unlink_token-kept :
    (id : Bytes) (infos : List ProvisiongingInfo)
    → All (λ info. bytes_eq info.id id ≡ true → is_default_info info ≡ false) infos
    → map (unlink_token_in false id) infos ≡ infos
unlink_token-kept id [] h = refl
unlink_token-kept id (info ∷ infos) h =
    ap₂ ◌∷◌ (unlink_token_in-kept id info h.0) (unlink_token-kept id infos h.1)

-- For a server that is not the default one, `unlink_token` by its id changes nothing at all: the
-- token stays.
pub unlink_token-additional :
    (doc : LocalProvisioningDoc) (id : Bytes)
    → All (λ info. bytes_eq info.id id ≡ true → is_default_info info ≡ false) doc.root
    → unlink_token doc false id ≡ doc
unfolding unlink_token
unlink_token-additional doc id h =
    ap (λ (root : List ProvisiongingInfo). record { root = root }) (unlink_token-kept id doc.root h)
