-- ===== src/Provisioning/LocalProvisioningDoc/RoundTrip.antt =====
-- The stored document is read back as it was written, but for half a token.
use rust_rcs_client.Common.{
  ℕ, zero, suc, ◌≤◌, length-append, true, List, [], ◌∷◌, ◌++◌, map, Option, none, some, ◌≡◌, refl,
  ap, ◌∙◌, arith, length, append_assoc, append-nil, Bytes, codes, eq_ignore_ascii_case_refl,
}
use rust_rcs_client.Core.{EqualsBytes, IgnoresCase}
use rust_rcs_client.Xml.{Reader, Walked, end, element_start, walk, find_root}
use rust_rcs_client.Provisioning.WapProvisioningDoc.{WapProvisioningDoc, write_wap_provisioning_doc}
use rust_rcs_client.Xml.Forest.{walk_end_tag}
use rust_rcs_client.Provisioning.Characteristic.{write_characteristics}
use rust_rcs_client.Provisioning.WapProvisioningDoc.RoundTrip.{read-write_wap}
use rust_rcs_client.Provisioning.LocalProvisioningDoc.{ProvisiongingInfo, LocalProvisioningDoc}
use rust_rcs_client.Provisioning.LocalProvisioningDoc.Storage.{
  info_of, info_at_end, handle_wap_doc, read_provisionging_info, handle_info,
  read_provisionging_doc, load_provisionging_doc, info_start, write_wap_doc,
  write_provisioning_info, write_infos, write_provisionging_doc,
}

abbrev pub both : Option Bytes → Option Bytes → Option Bytes
both (some a) (some b) = some a
both _ _ = none

-- what is stored of an entry: a token only with its validity, and a validity only with its token
abbrev pub stored : ProvisiongingInfo → ProvisiongingInfo
stored info = record info {
  token_token = both info.token_token info.token_validity_through;
  token_validity_through = both info.token_validity_through info.token_token;
}

-- An entry by its token fields, so that they can be matched.
with_token : ProvisiongingInfo → Option Bytes → Option Bytes → ProvisiongingInfo
with_token info token through = record info {
  token_token = token;
  token_validity_through = through;
}

info_of-with_token :
    (info : ProvisiongingInfo) (token through : Option Bytes)
    → info_of (info_start (with_token info token through)) info.wap_doc
      ≡ some (stored (with_token info token through))
unfolding info_of info_start with_token
info_of-with_token info (some a) (some b) = refl
info_of-with_token info (some a) none = refl
info_of-with_token info none (some b) = refl
info_of-with_token info none none = refl

info_of-info_start :
    (info : ProvisiongingInfo) → info_of (info_start info) info.wap_doc ≡ some (stored info)
unfolding with_token
info_of-info_start info = info_of-with_token info info.token_token info.token_validity_through

module _ (equals_bytes : EqualsBytes) (ignores : IgnoresCase equals_bytes) where
  handle-write_wap :
      (wap : WapProvisioningDoc) (rest : Reader)
      → handle_wap_doc equals_bytes
          (element_start (codes "wap-provisioningdoc") [])
          1
          none
          ((write_characteristics wap.root ++ end ∷ []) ++ rest)
        ≡ some (some wap, rest)
  unfolding handle_wap_doc
  handle-write_wap wap rest = rw append_assoc (
      ground (
        arith,
        ignores (codes "wap-provisioningdoc") (codes "wap-provisioningdoc"),
        eq_ignore_ascii_case_refl (codes "wap-provisioningdoc"),
        read-write_wap equals_bytes ignores wap rest,
      ))

  -- the loop of an entry over what was written of its document
  walk_wap_doc :
      (f : ℕ) (wap_doc : Option WapProvisioningDoc) (rest : Reader)
      → length (write_wap_doc wap_doc ++ end ∷ rest) ≤ f
      → walk (handle_wap_doc equals_bytes) f 1 none (write_wap_doc wap_doc ++ end ∷ rest)
        ≡ record { state = wap_doc; rest = rest; closed = true }
  unfolding write_wap_doc write_wap_provisioning_doc walk
  walk_wap_doc f none rest h = walk_end_tag (handle_wap_doc equals_bytes) f none rest (omega arith)
  walk_wap_doc zero (some wap) rest h = absurd (omega arith)
  walk_wap_doc (suc f) (some wap) rest h =
      let sized = length-append (write_characteristics wap.root ++ end ∷ []) (end ∷ rest) in
      rw (handle-write_wap wap (end ∷ rest), walk)
        (walk_end_tag (handle_wap_doc equals_bytes) f (some wap) rest (omega arith))

  -- An entry is read back as it is stored, and what follows it is left.
  read-write_info :
      (info : ProvisiongingInfo) (rest : Reader)
      → read_provisionging_info equals_bytes
          (info_start info)
          (write_wap_doc info.wap_doc ++ end ∷ rest)
        ≡ (some (stored info), rest)
  unfolding read_provisionging_info
  read-write_info info rest =
      let r = write_wap_doc info.wap_doc ++ end ∷ rest in
      ap (λ (w : Walked (Option WapProvisioningDoc)). (info_at_end (info_start info) w, w.rest))
        (walk_wap_doc (length r) info.wap_doc rest (omega arith))
      ∙ rw (info_of-info_start info)

  regroup :
      (info : ProvisiongingInfo) (infos : List ProvisiongingInfo) (rest : Reader)
      → ((write_wap_doc info.wap_doc ++ end ∷ []) ++ write_infos infos) ++ rest
        ≡ write_wap_doc info.wap_doc ++ (end ∷ (write_infos infos ++ rest))
  regroup info infos rest = simp append_assoc

  handle-write_info :
      (info : ProvisiongingInfo) (s : List ProvisiongingInfo) (rest : Reader)
      → handle_info equals_bytes (info_start info) 1 s (write_wap_doc info.wap_doc ++ (end ∷ rest))
        ≡ some (s ++ stored info ∷ [], rest)
  unfolding handle_info info_start
  handle-write_info info s rest = ground (
    arith,
    ignores (codes "provisioning-info") (codes "provisioning-info"),
    eq_ignore_ascii_case_refl (codes "provisioning-info"),
    read-write_info info rest,
  )

  walk_infos :
      (infos : List ProvisiongingInfo) (f : ℕ) (s : List ProvisiongingInfo) (rest : Reader)
      → length (write_infos infos ++ end ∷ rest) ≤ f
      → walk (handle_info equals_bytes) f 1 s (write_infos infos ++ end ∷ rest)
        ≡ record { state = s ++ map stored infos; rest = rest; closed = true }
  unfolding write_infos write_provisioning_info walk
  walk_infos [] f s rest h =
      rw append-nil (walk_end_tag (handle_info equals_bytes) f s rest (omega arith))
  walk_infos (info ∷ infos) zero s rest h = absurd (omega arith)
  walk_infos (info ∷ infos) (suc f) s rest h =
      let tail = write_infos infos ++ end ∷ rest in
      let apart = regroup info infos (end ∷ rest) in
      let sized = length-append (write_wap_doc info.wap_doc) (end ∷ tail) in
      let total = ap length apart in
      rw apart (
        rw (handle-write_info info s tail, walk)
          (walk_infos infos f (s ++ stored info ∷ []) rest (omega arith) ∙ rw append_assoc))

  -- Loading what was written of a stored document gives back every entry in order, with its
  -- provisioning document; an entry that has only one of token and token validity loses it.
  pub load-write_provisionging_doc :
      (doc : LocalProvisioningDoc) (rest : Reader)
      → load_provisionging_doc equals_bytes (write_provisionging_doc doc ++ rest)
        ≡ some (record { root = map stored doc.root })
  unfolding load_provisionging_doc read_provisionging_doc write_provisionging_doc find_root
  load-write_provisionging_doc doc rest =
      let tag = codes "provisioning-doc" in
      let found : equals_bytes tag tag true ≡ true =
        ignores tag tag ∙ eq_ignore_ascii_case_refl tag in
      let body = write_infos doc.root ++ end ∷ rest in
      rw (found, find_root, load_provisionging_doc)
        (rw append_assoc (
          ap (λ (w : Walked (List ProvisiongingInfo)). some (record { root = w.state }))
            (walk_infos doc.root (length body) [] rest (omega arith))))
