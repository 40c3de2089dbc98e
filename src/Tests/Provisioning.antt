-- ===== src/Tests/Provisioning.antt =====
-- The provisioning documents on concrete input: a document with an application, and a stored
-- document with an entry for the default server and one for another.
use rust_rcs_client.Common.{
  pos, true, false, [], ◌∷◌, ◌++◌, map, Option, none, some, ◌≡◌, ◌≢◌, refl, Bytes, codes, bytes_eq,
  eq_ignore_ascii_case, if◌then◌else◌, All, print_ℕ, arith,
}
use rust_rcs_client.Core.{EqualsBytes, IgnoresCase}
use rust_rcs_client.Xml.{BytesStart, end, eof, element_start}
use rust_rcs_client.Xml.Forest.{Forest, nil, element, empty_element, text_node, events}
use rust_rcs_client.Provisioning.Characteristic.{
  Characteristic, characteristic, cons, nil, make_characteristic, read_characteristic, from_str,
  write_characteristic,
}
use rust_rcs_client.Provisioning.Characteristic.Denote.{content_of, read_characteristic-events}
use rust_rcs_client.Provisioning.Characteristic.RoundTrip.{from_str-write_characteristic}
use rust_rcs_client.Provisioning.WapProvisioningDoc
use rust_rcs_client.Provisioning.WapProvisioningDoc.{
  WapProvisioningDoc, get_application_characteristic, applications, has_app_id,
  remove_non_application_characteristics, read_wap_provisioning_doc, write_wap_provisioning_doc,
}
use rust_rcs_client.Provisioning.WapProvisioningDoc.Applications.{
  get_application-update_application,
}
use rust_rcs_client.Provisioning.WapProvisioningDoc.RoundTrip.{from_str-write_wap}
use rust_rcs_client.Provisioning.LocalProvisioningDoc.{
  ProvisiongingInfo, LocalProvisioningDoc, get_provisioning_info, unlink, unlink_token,
  update_vers_token, is_default_info,
}
use rust_rcs_client.Provisioning.LocalProvisioningDoc.Queries.{get_provisioning_info-unlink}
use rust_rcs_client.Provisioning.LocalProvisioningDoc.Tokens.{
  granted, found_with, addressed_wap, get_provisioning_info-update_vers_token, HasNoDefaultToken,
  unlink_token-HasNoDefaultToken, unlink_token-additional,
}
use rust_rcs_client.Provisioning.LocalProvisioningDoc.Storage.{
  load_provisionging_doc, write_provisionging_doc,
}
use rust_rcs_client.Provisioning.LocalProvisioningDoc.RoundTrip.{
  stored, load-write_provisionging_doc,
}

abbrev application : Characteristic
application =
    characteristic (codes "APPLICATION")
      (record { name = codes "AppID"; value = codes "ap2001" } ∷ [])
      (cons (characteristic (codes "IMS") [] nil) nil)

abbrev vers : Characteristic
vers =
    characteristic (codes "VERS")
      (record { name = codes "version"; value = codes "7" }
        ∷ record { name = codes "validity"; value = codes "3600" }
        ∷ [])
      nil

abbrev document : WapProvisioningDoc
document = record { root = vers ∷ application ∷ [] }

-- a comparison such as `equals_bytes` is
abbrev equals : EqualsBytes
equals a b ignore_case = if ignore_case then eq_ignore_ascii_case a b else bytes_eq a b

equals-IgnoresCase : IgnoresCase equals
equals-IgnoresCase a b = refl

-- an element with an empty one, a text and one that is not known
abbrev content : Forest
content =
    empty_element
      (element_start (codes "PARM") ((codes "name", codes "a") ∷ (codes "value", codes "1") ∷ []))
      (text_node none (
        element (element_start (codes "unknown") [])
          (empty_element (element_start (codes "characteristic") ((codes "type", codes "X") ∷ []))
            nil)
          nil))

abbrev tag : BytesStart
tag = element_start (codes "characteristic") ((codes "type", codes "T") ∷ [])

abbrev default_info : ProvisiongingInfo
default_info = record {
  default = codes "yes";
  id = codes "config.example";
  vers_version = codes "7";
  vers_validity_through = codes "t";
  token_token = some (codes "abc");
  token_validity_through = some (codes "u");
  wap_doc = some document;
}

abbrev other_info : ProvisiongingInfo
other_info = record default_info {
  default = codes "no";
  id = codes "other.example";
  wap_doc = none;
}

abbrev local_document : LocalProvisioningDoc
local_document = record { root = default_info ∷ other_info ∷ [] }

-- a time as the text that stands for it
abbrev parse_time : Bytes → Option Bytes
parse_time = some

read_characteristic-events_example :
    read_characteristic tag 1 (events content (end ∷ eof ∷ []))
    ≡ (make_characteristic tag (content_of content), eof ∷ [])
read_characteristic-events_example = read_characteristic-events tag content (eof ∷ [])

read_characteristic_test : read_characteristic tag 1 (events content (end ∷ eof ∷ [])) ≡ (
  some (
      characteristic
        (codes "T")
        (record { name = codes "a"; value = codes "1" } ∷ [])
        (cons (characteristic (codes "X") [] nil) nil)),
  eof ∷ [],
)
unfolding read_characteristic
read_characteristic_test = refl

from_str-write_characteristic_example :
    from_str (write_characteristic application ++ eof ∷ []) ≡ some application
from_str-write_characteristic_example = from_str-write_characteristic application (eof ∷ [])

get_application-update_application_example :
    (get_application_characteristic
        (WapProvisioningDoc.update_application document (codes "ap2001") application)
        (codes "ap2001")
      ≡ some application)
    × ((other_id : Bytes)
        → other_id ≢ codes "ap2001"
        → get_application_characteristic
            (WapProvisioningDoc.update_application document (codes "ap2001") application)
            other_id
          ≡ get_application_characteristic document other_id)
unfolding has_app_id
get_application-update_application_example =
    get_application-update_application document (codes "ap2001") application refl

from_str-write_wap_example :
    WapProvisioningDoc.from_str equals (write_wap_provisioning_doc document ++ eof ∷ [])
    ≡ some document
from_str-write_wap_example = from_str-write_wap equals equals-IgnoresCase document (eof ∷ [])

get_provisioning_info-unlink_example :
    (get_provisioning_info parse_time (unlink local_document true (codes "x")) true (codes "x")
      ≡ none)
    × ((other : Bytes)
        → other ≢ codes "x"
        → get_provisioning_info parse_time (unlink local_document false (codes "x")) false other
          ≡ get_provisioning_info parse_time local_document false other)
get_provisioning_info-unlink_example =
    get_provisioning_info-unlink parse_time local_document true (codes "x")

get_provisioning_info-update_vers_token_example :
    get_provisioning_info parse_time
      (update_vers_token print_ℕ local_document true
        (codes "x")
        (pos 8)
        (codes "v")
        (some (codes "def", none)))
      true
      (codes "x")
    ≡ found_with parse_time print_ℕ
        (pos 8)
        (codes "v")
        (addressed_wap true (codes "x") local_document.root)
        (granted parse_time print_ℕ (some (codes "def", none)))
get_provisioning_info-update_vers_token_example =
    get_provisioning_info-update_vers_token parse_time print_ℕ local_document true (codes "x")
      (pos 8) (codes "v") (some (codes "def", none)) (codes "v") (omega arith) refl

unlink_token-HasNoDefaultToken_example :
    All HasNoDefaultToken (unlink_token local_document true (codes "x")).root
unlink_token-HasNoDefaultToken_example = unlink_token-HasNoDefaultToken local_document (codes "x")

unlink_token-additional_example :
    unlink_token local_document false (codes "other.example") ≡ local_document
unfolding is_default_info
unlink_token-additional_example =
    unlink_token-additional local_document (codes "other.example") ((λ h. cc h), ((λ h. refl), tt))

load-write_provisionging_doc_example :
    load_provisionging_doc equals (write_provisionging_doc local_document ++ eof ∷ [])
    ≡ some (record { root = map stored local_document.root })
load-write_provisionging_doc_example =
    load-write_provisionging_doc equals equals-IgnoresCase local_document (eof ∷ [])
