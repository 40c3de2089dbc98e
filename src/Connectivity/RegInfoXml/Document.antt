-- ===== src/Connectivity/RegInfoXml/Document.antt =====
-- Registrations of their contacts, and the whole document.
use rust_rcs_client.Common.{ℕ, true, ◌∷◌, Option, ◌≡◌, refl, ap, ◌∙◌}
use rust_rcs_client.Xml.{Reader, BytesStart, start, end, find_root}
use rust_rcs_client.Xml.Collect.{items_of, ParsesAs, collector, collector-ParsesAs}
use rust_rcs_client.Xml.Forest.{Forest, events}
use rust_rcs_client.Connectivity.RegInfoXml.{
  RegistrationNode, RegInfoXml, parse_contact_node, is_contact, handle_contact, make_registration,
  parse_registration_node, is_registration, handle_registration, make_reg_info, parse_reg_info,
  is_reginfo, parse_xml,
}
use rust_rcs_client.Connectivity.RegInfoXml.Denote.{contact_over, parse_contact_node-ParsesAs}

abbrev pub registration_over : BytesStart → Forest → Option RegistrationNode
registration_over e kids = make_registration e (items_of is_contact contact_over kids)

abbrev pub reg_info_over : BytesStart → Forest → Option RegInfoXml
reg_info_over e kids = make_reg_info e (items_of is_registration registration_over kids)

parse_registration_node-ParsesAs : ParsesAs parse_registration_node registration_over
unfolding parse_registration_node handle_contact
parse_registration_node-ParsesAs =
    collector-ParsesAs is_contact parse_contact_node contact_over make_registration
      parse_contact_node-ParsesAs

abbrev reg_info_parser : BytesStart → ℕ → Reader → Option RegInfoXml × Reader
reg_info_parser = collector is_registration parse_registration_node make_reg_info

reg_info_parser-ParsesAs : ParsesAs reg_info_parser reg_info_over
reg_info_parser-ParsesAs =
    collector-ParsesAs is_registration parse_registration_node registration_over make_reg_info
      parse_registration_node-ParsesAs

parse_reg_info-parser :
    (e : BytesStart) (level : ℕ) (r : Reader)
    → parse_reg_info e level r ≡ (reg_info_parser e level r).0
unfolding parse_reg_info handle_registration
parse_reg_info-parser e level r = refl

-- Of a document whose root is `reginfo`, in any case, over well-formed content, `parse_xml` returns
-- the registrations and contacts in document order, each made of its own attributes and content;
-- elements that it does not know count as part of their parent.
pub parse_xml-events :
    (e : BytesStart) (F : Forest) (rest : Reader)
    → is_reginfo e.name ≡ true
    → parse_xml (start e ∷ events F (end ∷ rest)) ≡ reg_info_over e F
unfolding parse_xml find_root
parse_xml-events e F rest h =
    rw (h, find_root, parse_xml)
      (parse_reg_info-parser e 1 (events F (end ∷ rest))
        ∙ ap (λ (p : Option RegInfoXml × Reader). p.0)
            (reg_info_parser-ParsesAs.at_element e F rest))
