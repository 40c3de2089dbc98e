-- ===== src/Tests/Messaging.antt =====
-- Upload resume information on concrete input: the same range and URL in both spellings.
use rust_rcs_client.Common.{arith, [], ◌∷◌, none, some, ◌≡◌, refl, codes, eq_ignore_ascii_case}
use rust_rcs_client.Xml.{BytesStart, start, empty, end, eof, element_start}
use rust_rcs_client.Xml.Forest.{nil, empty_element, events}
use rust_rcs_client.Messaging.ResumeInfoXml.{parse_xml}
use rust_rcs_client.Messaging.ResumeInfoXml.Documents.{
  range_tag, link_tag, parse_xml-elements, parse_xml-empty_range,
}

abbrev root : BytesStart
root = element_start (codes "file-resume-info") []

abbrev range : BytesStart
range =
    element_start (codes "file-range")
      ((codes "start", codes "0") ∷ (codes "end", codes "4095") ∷ [])

abbrev link : BytesStart
link = element_start (codes "data") ((codes "url", codes "https://h/f") ∷ [])

parse_xml-elements_example :
    parse_xml (
      start root
      ∷ start (range_tag (codes "File-Range") 0 4095)
      ∷ end
      ∷ start (link_tag (codes "data") (codes "https://h/f"))
      ∷ end
      ∷ end
      ∷ eof
      ∷ [])
    ≡ some (record { range_start = 0; range_end = 4095; data_url = codes "https://h/f" })
unfolding eq_ignore_ascii_case
parse_xml-elements_example =
    parse_xml-elements root (codes "File-Range") (codes "data") (codes "https://h/f") 0 4095 nil nil
      (eof ∷ []) refl refl refl refl (omega arith) (omega arith)

parse_xml_test :
    parse_xml (start root ∷ start range ∷ end ∷ start link ∷ end ∷ end ∷ eof ∷ [])
    ≡ some (record { range_start = 0; range_end = 4095; data_url = codes "https://h/f" })
unfolding parse_xml
parse_xml_test = refl

parse_xml-empty_range_example :
    parse_xml (start root ∷ empty range ∷ events (empty_element link nil) (end ∷ [])) ≡ none
unfolding eq_ignore_ascii_case
parse_xml-empty_range_example = parse_xml-empty_range root range (empty_element link nil) refl refl
