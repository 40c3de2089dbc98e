-- ===== src/Messaging/ResumeInfoXml.antt =====
-- messaging/ft_http/resume_info_xml.rs: what a content server answers about an upload that was
-- interrupted, read from XML events. A `usize` has 64 bits.
pub mod Documents
use rust_rcs_client.Common.{
  ℕ, zero, suc, Bool, true, false, List, [], ◌∷◌, Option, none, some, Bytes, codes, bytes_eq,
  eq_ignore_ascii_case, if◌then◌else◌, parse_unsigned, ◌>>=◌,
}
use rust_rcs_client.Xml.{
  Attribute, malformed, attribute, BytesStart, Reader, Handler, attribute_value, skip, walk_element,
  find_root,
}

pub record ResumeInfo : Type 0 where
  pub range_start : ℕ
  pub range_end : ℕ
  pub data_url : Bytes

-- `if let Ok(attribute_value) = attribute_value.parse::<usize>() { start.replace(attribute_value); }`
replace_parsed : Option ℕ → Option Bytes → Option ℕ
unfolding parse_unsigned
replace_parsed found none = found
replace_parsed found (some text) = elim (parse_unsigned 64 text) [ none ↦ found | some n ↦ some n ]

-- the variable that the loop over the attributes fills for one key
usize_from : Bytes → Option ℕ → List Attribute → Option ℕ
unfolding replace_parsed bytes_eq
usize_from key found [] = found
usize_from key found (malformed ∷ r) = usize_from key found r
usize_from key found (attribute k v ∷ r) =
    usize_from key (if bytes_eq k key then replace_parsed found v else found) r

unfoldable pub usize_value : Bytes → BytesStart → Option ℕ
unfolding usize_from
usize_value key e = usize_from key none e.attributes

unfoldable pub range_of : BytesStart → Option (ℕ × ℕ)
unfolding usize_value
range_of e = do
  range_start ← usize_value (codes "start") e
  range_end ← usize_value (codes "end") e
  some (range_start, range_end)

-- The level is not looked at: the loop starts at level 1 for an empty element too.
unfoldable pub parse_file_range_element : BytesStart → ℕ → Reader → Option (ℕ × ℕ) × Reader
unfolding range_of skip
parse_file_range_element e level r = (range_of e, skip 1 r)

unfoldable pub parse_data_element : BytesStart → ℕ → Reader → Option Bytes × Reader
unfolding attribute_value skip
parse_data_element e level r = (attribute_value (codes "url") e, skip 1 r)

-- the variables that the closure of `parse_file_resume_info` assigns
pub record Found : Type 0 where
  pub file_range : Option (ℕ × ℕ)
  -- `data`
  pub url : Option Bytes

abbrev pub is_file_range : Bytes → Bool
is_file_range name = eq_ignore_ascii_case name (codes "file-range")

abbrev pub is_data : Bytes → Bool
is_data name = eq_ignore_ascii_case name (codes "data")

-- `handle_element`: an assignment, which a second element of the name makes again
unfoldable pub handle_resume_info : Handler Found
unfolding parse_file_range_element parse_data_element eq_ignore_ascii_case
handle_resume_info e level s r = elim (is_file_range e.name) [
  | true ↦
      let (range, r') = parse_file_range_element e level r in
      some (record s { file_range = range }, r')
  | false ↦ elim (is_data e.name) [
    | true ↦ let (url', r') = parse_data_element e level r in some (record s { url = url' }, r')
    | false ↦ none
  ]
]

unfoldable pub make_resume_info : Found → Option ResumeInfo
make_resume_info s = do
  range ← s.file_range
  url ← s.url
  some (record { range_start = range.0; range_end = range.1; data_url = url })

unfoldable pub parse_file_resume_info : ℕ → Reader → Option ResumeInfo
unfolding handle_resume_info make_resume_info walk_element
parse_file_resume_info level r =
    make_resume_info
      (walk_element handle_resume_info level (record { file_range = none; url = none }) r).state

abbrev pub is_resume_info : Bytes → Bool
is_resume_info name = eq_ignore_ascii_case name (codes "file-resume-info")

unfoldable pub parse_xml : Reader → Option ResumeInfo
unfolding parse_file_resume_info find_root eq_ignore_ascii_case
parse_xml r = do found ← find_root is_resume_info true r; parse_file_resume_info found.1 found.2
