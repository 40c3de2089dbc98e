-- ===== src/Provisioning/WapProvisioningDoc/RoundTrip.antt =====
-- Reading a document: its characteristics from well-formed XML, and from what was written.
use rust_rcs_client.Common.{
  Bool, true, List, ◌∷◌, ◌++◌, some, ◌≡◌, ap, ◌∙◌, append_assoc, codes, Bytes, eq_ignore_ascii_case,
}
use rust_rcs_client.Core.{EqualsBytes, IgnoresCase}
use rust_rcs_client.Xml.{Reader, Walked, end, find_root}
use mathlib.Core.Path.{fun_ext}
use rust_rcs_client.Xml.Collect.{items_of, walk-collect}
use rust_rcs_client.Xml.Forest.{Forest, events}
use rust_rcs_client.Provisioning.Characteristic.{
  Characteristic, read_characteristic, write_characteristics,
}
use rust_rcs_client.Provisioning.Characteristic.Denote.{
  make_over, characteristics_of, read_characteristic-ParsesAs,
}
use rust_rcs_client.Provisioning.Characteristic.RoundTrip.{
  forest_of_list, events-forest_of_list, characteristics_of-forest_of_list,
}
use rust_rcs_client.Provisioning.WapProvisioningDoc.{
  WapProvisioningDoc, read_wap_provisioning_doc, from_str, write_wap_provisioning_doc,
}

module _ (equals_bytes : EqualsBytes) (ignores : IgnoresCase equals_bytes) where
  is_item : Bytes → Bool
  is_item name = equals_bytes name (codes "characteristic") true

  items-characteristics : (F : Forest) → items_of is_item make_over F ≡ characteristics_of F
  unfolding is_item characteristics_of
  items-characteristics F =
      ap (λ (same : Bytes → Bool). items_of same make_over F)
        (fun_ext (λ name. ignores name (codes "characteristic")))

  -- Of a document element over well-formed content the reader returns the document of its
  -- characteristics in order, and stops behind the element's end tag.
  pub read_wap-events :
      (F : Forest) (rest : Reader)
      → read_wap_provisioning_doc equals_bytes (events F (end ∷ rest))
        ≡ (record { root = characteristics_of F }, rest)
  unfolding read_wap_provisioning_doc is_item
  read_wap-events F rest =
      ap (λ (w : Walked (List Characteristic)). (record { root = w.state }, w.rest))
        (walk-collect is_item read_characteristic make_over read_characteristic-ParsesAs F rest)
      ∙ ap (λ (root : List Characteristic). (record { root = root }, rest))
          (items-characteristics F)

  pub read-write_wap :
      (doc : WapProvisioningDoc) (rest : Reader)
      → read_wap_provisioning_doc equals_bytes (write_characteristics doc.root ++ end ∷ rest)
        ≡ (doc, rest)
  read-write_wap doc rest = rw (
    ← events-forest_of_list doc.root (end ∷ rest),
    read_wap-events (forest_of_list doc.root) rest,
    characteristics_of-forest_of_list doc.root,
  )

  -- `from_str` reads back every document that was written, whatever follows it.
  pub from_str-write_wap :
      (doc : WapProvisioningDoc) (rest : Reader)
      → from_str equals_bytes (write_wap_provisioning_doc doc ++ rest) ≡ some doc
  unfolding from_str write_wap_provisioning_doc eq_ignore_ascii_case
  from_str-write_wap doc rest =
      let tag = codes "wap-provisioningdoc" in
      let found : equals_bytes tag tag true ≡ true = ignores tag tag in
      rw (found, find_root, from_str)
        (rw append_assoc
          (ap (λ (read : WapProvisioningDoc × Reader). some read.0) (read-write_wap doc rest)))
