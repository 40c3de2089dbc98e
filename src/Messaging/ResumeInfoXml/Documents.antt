-- ===== src/Messaging/ResumeInfoXml/Documents.antt =====
-- Documents of a range and a URL: written with end tags they are read, written as empty elements
-- they are not.
use rust_rcs_client.Common.{
  ◌<◌, ◌^◌, Bytes, codes, print_ℕ, parse_unsigned-print_ℕ, bytes_eq, ℕ, zero, suc, true, false, [],
  ◌∷◌, Option, none, some, ◌≡◌, refl, ap, ◌∙◌, arith, length,
}
use rust_rcs_client.Xml.{
  element_start, BytesStart, Reader, Walked, start, empty, end, attribute_value, walk, walk_element,
  find_root,
}
use rust_rcs_client.Xml.Forest.{Forest, events, skip-element, length-events, walk_end_tag}
use rust_rcs_client.Messaging.ResumeInfoXml.{
  Found, usize_value, usize_from, replace_parsed, range_of, parse_file_range_element,
  parse_data_element, is_file_range, is_data, handle_resume_info, make_resume_info,
  parse_file_resume_info, is_resume_info, parse_xml,
}

abbrev nothing : Found
nothing = record { file_range = none; url = none }

-- An element of either name takes its content with it, whichever level it is given.
handle-file_range :
    (e : BytesStart) (level : ℕ) (s : Found) (F : Forest) (rest : Reader)
    → is_file_range e.name ≡ true
    → handle_resume_info e level s (events F (end ∷ rest))
      ≡ some (record s { file_range = range_of e }, rest)
unfolding handle_resume_info parse_file_range_element
handle-file_range e level s F rest h = rw (h, handle_resume_info) (rw (skip-element F rest) refl)

handle-data :
    (e : BytesStart) (level : ℕ) (s : Found) (F : Forest) (rest : Reader)
    → is_file_range e.name ≡ false
    → is_data e.name ≡ true
    → handle_resume_info e level s (events F (end ∷ rest))
      ≡ some (record s { url = attribute_value (codes "url") e }, rest)
unfolding handle_resume_info parse_data_element
handle-data e level s F rest h h' = rw (h, h', handle_resume_info) (rw (skip-element F rest) refl)

-- the document of a root tag and what follows it
parse_xml-root :
    (e : BytesStart) (r : Reader)
    → is_resume_info e.name ≡ true
    → parse_xml (start e ∷ r)
      ≡ make_resume_info (walk handle_resume_info (length r) 1 nothing r).state
unfolding parse_xml find_root parse_file_resume_info walk_element
parse_xml-root e r h = rw (h, find_root, parse_xml) refl

walk-range :
    (range : BytesStart) (f : ℕ) (A : Forest) (rest : Reader)
    → is_file_range range.name ≡ true
    → walk handle_resume_info (suc f) 1 nothing (start range ∷ events A (end ∷ rest))
      ≡ walk handle_resume_info f 1 (record { file_range = range_of range; url = none }) rest
unfolding walk
walk-range range f A rest h = rw (handle-file_range range 1 nothing A rest h, walk) refl

-- the URL and the end tag behind it
walk-data :
    (link : BytesStart) (f : ℕ) (s : Found) (B : Forest) (rest : Reader)
    → is_file_range link.name ≡ false
    → is_data link.name ≡ true
    → 1 < f
    → walk handle_resume_info f 1 s (start link ∷ events B (end ∷ end ∷ rest)) ≡ record {
      state = record s { url = attribute_value (codes "url") link };
      rest = rest;
      closed = true;
    }
unfolding walk
walk-data link zero s B rest h h' enough = absurd (omega arith)
walk-data link (suc f) s B rest h h' enough =
    rw (handle-data link 1 s B (end ∷ rest) h h', walk)
      (walk_end_tag handle_resume_info f _ rest (omega arith))

-- a range and then a URL, each an element with an end tag
parse_xml-walked :
    (root range link : BytesStart) (A B : Forest) (rest : Reader)
    → is_resume_info root.name ≡ true
    → is_file_range range.name ≡ true
    → is_file_range link.name ≡ false
    → is_data link.name ≡ true
    → parse_xml
        (start root ∷ start range ∷ events A (end ∷ start link ∷ events B (end ∷ end ∷ rest)))
      ≡ make_resume_info
          (record { file_range = range_of range; url = attribute_value (codes "url") link })
parse_xml-walked root range link A B rest is_root is_range is_other is_url =
    let second = start link ∷ events B (end ∷ end ∷ rest) in
    let enough = length-events A (end ∷ second) in
    parse_xml-root root (start range ∷ events A (end ∷ second)) is_root
    ∙ ap (λ (w : Walked Found). make_resume_info w.state)
        (walk-range range (length (events A (end ∷ second))) A second is_range
          ∙ walk-data link (length (events A (end ∷ second)))
              (record { file_range = range_of range; url = none }) B rest is_other is_url
              (omega arith))

-- an element with the first and the last byte of a range
abbrev pub range_tag : Bytes → ℕ → ℕ → BytesStart
range_tag name first last =
    element_start name ((codes "start", print_ℕ first) ∷ (codes "end", print_ℕ last) ∷ [])

abbrev pub link_tag : Bytes → Bytes → BytesStart
link_tag name url = element_start name ((codes "url", url) ∷ [])

replace_parsed-print_ℕ :
    (found : Option ℕ) (n : ℕ) → n < 2 ^ 64 → replace_parsed found (some (print_ℕ n)) ≡ some n
unfolding replace_parsed
replace_parsed-print_ℕ found n h = rw (parse_unsigned-print_ℕ 64 n h, replace_parsed) refl

range_of-range_tag :
    (name : Bytes) (first last : ℕ)
    → first < 2 ^ 64
    → last < 2 ^ 64
    → range_of (range_tag name first last) ≡ some (first, last)
unfolding range_of usize_value usize_from bytes_eq
range_of-range_tag name first last h k =
    rw (replace_parsed-print_ℕ none first h, replace_parsed-print_ℕ none last k, range_of) refl

-- A range of two 64-bit numbers in decimal and then a URL, each an element with an end tag, are what
-- is read of a document, in whatever case of the letters its tags are, whatever the elements contain
-- and whatever follows the document.
pub parse_xml-elements :
    (root : BytesStart) (range_name link_name url : Bytes) (first last : ℕ) (A B : Forest)
    (rest : Reader)
    → is_resume_info root.name ≡ true
    → is_file_range range_name ≡ true
    → is_file_range link_name ≡ false
    → is_data link_name ≡ true
    → first < 2 ^ 64
    → last < 2 ^ 64
    → parse_xml (
        start root
        ∷ start (range_tag range_name first last)
        ∷ events A (end ∷ start (link_tag link_name url) ∷ events B (end ∷ end ∷ rest)))
      ≡ some (record { range_start = first; range_end = last; data_url = url })
unfolding attribute_value make_resume_info
parse_xml-elements root range_name link_name url first last A B rest is_root is_range is_other
      is_url h k =
    parse_xml-walked root (range_tag range_name first last) (link_tag link_name url) A B rest
      is_root is_range is_other is_url
    ∙ rw (range_of-range_tag range_name first last h k) refl

-- at the end of the input the loop ends
walk-nil : (f : ℕ) (s : Found) → (walk handle_resume_info f 1 s []).state ≡ s
unfolding walk
walk-nil zero s = refl
walk-nil (suc f) s = refl

no_url :
    (range : Option (ℕ × ℕ)) → make_resume_info (record { file_range = range; url = none }) ≡ none
unfolding make_resume_info
no_url none = refl
no_url (some r) = refl

walk-empty_range :
    (range : BytesStart) (f : ℕ) (F : Forest)
    → is_file_range range.name ≡ true
    → walk handle_resume_info (suc f) 1 nothing (empty range ∷ events F (end ∷ []))
      ≡ walk handle_resume_info f 1 (record { file_range = range_of range; url = none }) []
unfolding walk
walk-empty_range range f F h = rw (handle-file_range range 0 nothing F [] h, walk) refl

-- A range that is an empty element takes the rest of the document with it: no document that begins
-- with one is read, whatever range and URL it gives.
pub parse_xml-empty_range :
    (root range : BytesStart) (F : Forest)
    → is_resume_info root.name ≡ true
    → is_file_range range.name ≡ true
    → parse_xml (start root ∷ empty range ∷ events F (end ∷ [])) ≡ none
parse_xml-empty_range root range F is_root is_range =
    let n = length (events F (end ∷ [])) in
    parse_xml-root root (empty range ∷ events F (end ∷ [])) is_root
    ∙ ap (λ (w : Walked Found). make_resume_info w.state) (walk-empty_range range n F is_range)
    ∙ ap make_resume_info (walk-nil n (record { file_range = range_of range; url = none }))
    ∙ no_url (range_of range)
