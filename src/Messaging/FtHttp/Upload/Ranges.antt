-- ===== src/Messaging/FtHttp/Upload/Ranges.antt =====
-- The byte ranges that an upload announces are those that it sends.
use rust_rcs_client.Common.{
  ℕ, ◌+◌, ◌^◌, ◌%◌, ◌≤◌, ◌<◌, Option, none, some, codes, ◌≡◌, ◌≢◌, refl, subst, ◌⊎◌, inl, inr,
  arith, Bytes, leb, ◌==◌, Bool-cases, Option-cases, All,
}
use rust_rcs_client.Messaging.ResumeInfoXml.{ResumeInfo}
use rust_rcs_client.Http.{
  Stream, Part, tid_part, file_part, Content, no_content, streamed, multipart, Sent,
}
use rust_rcs_client.Messaging.FtHttp.Upload.{
  FileInfo, Platform, sub_usize, whole, rest_of, resumed_stream, stream_of, tid_parts,
  thumbnail_payload, payload,
}

-- The total is the size of the file. The range begins where the stream does and ends with its last byte, and the stream is
-- as long as the range; or its start is the last `usize`, and the length is lost.
pub record IsExact (sizes : Bytes → ℕ) (s : Stream) : Type 0 where
  pub whole_file : s.total ≡ sizes s.path
  pub begins : s.first ≡ s.start
  pub ends : s.last + 1 ≡ s.total
  pub ordered : (s.first ≤ s.last) ⊎ (2 ^ 64 ≤ s.start + 1)
  pub covers : (s.start + s.stream_size ≡ s.total) ⊎ (2 ^ 64 ≤ s.start + 1)

abbrev pub PartIsExact : (Bytes → ℕ) → Part → Type 0
PartIsExact sizes (tid_part tid) = Unit
PartIsExact sizes (file_part disposition filename mime s) = IsExact sizes s

abbrev pub ContentIsExact : (Bytes → ℕ) → Content → Type 0
ContentIsExact sizes no_content = Unit
ContentIsExact sizes (streamed s) = IsExact sizes s
ContentIsExact sizes (multipart parts) = All (PartIsExact sizes) parts

abbrev pub RequestIsExact : (Bytes → ℕ) → Sent → Type 0
RequestIsExact sizes req = ContentIsExact sizes req.content

pub whole-IsExact :
    (sizes : Bytes → ℕ) (path : Bytes) → sizes path ≢ 0 → IsExact sizes (whole path (sizes path))
unfolding whole
whole-IsExact sizes path h = record {
  whole_file = refl;
  begins = refl;
  ends = ground (arith, h);
  ordered = inl (omega arith);
  covers = inl (omega arith);
}

rest_of_size :
    (size range_end : ℕ)
    → range_end + 1 < size
    → size < 2 ^ 64
    → range_end + sub_usize size range_end ≡ size
unfolding sub_usize
rest_of_size size range_end h k = omega arith

rest_of-IsExact :
    (sizes : Bytes → ℕ) (path : Bytes) (range_end : ℕ)
    → sizes path ≢ 0
    → sizes path < 2 ^ 64
    → (range_end + 1) % 2 ^ 64 < sizes path
    → IsExact sizes (rest_of path (sizes path) range_end)
unfolding rest_of
rest_of-IsExact sizes path range_end nonempty k h =
    elim (Bool-cases (leb (2 ^ 64) (range_end + 1))) [
      | inl over ↦ record {
        whole_file = refl;
        begins = refl;
        ends = ground (arith, nonempty);
        ordered = inr (ground (arith, over));
        covers = inr (ground (arith, over));
      }
      | inr fits ↦
          let small : range_end + 1 < 2 ^ 64 = ground (arith, fits) in
          let inside : range_end + 1 < sizes path = omega arith in
          record {
            whole_file = refl;
            begins = refl;
            ends = ground (arith, nonempty);
            ordered = inl (omega arith);
            covers = inl (rest_of_size (sizes path) range_end inside k);
          }
    ]

pub resumed_stream-IsExact :
    (sizes : Bytes → ℕ) (path : Bytes) (info : ResumeInfo) (s : Stream)
    → sizes path < 2 ^ 64
    → resumed_stream path (sizes path) info ≡ some s
    → IsExact sizes s
unfolding resumed_stream
resumed_stream-IsExact sizes path info s k e = elim (Bool-cases (sizes path == 0)) [
  | inl empty ↦ absurd (ground (arith, e, empty))
  | inr some_bytes ↦ elim (Bool-cases (leb (sizes path) ((info.range_end + 1) % 2 ^ 64))) [
    | inl past ↦ absurd (ground (arith, e, some_bytes, past))
    | inr before ↦
        let same : rest_of path (sizes path) info.range_end ≡ s =
          ground (arith, e, some_bytes, before) in
        subst (IsExact sizes) same (
          rest_of-IsExact sizes path info.range_end (ground (arith, some_bytes)) k
            (ground (arith, before)))
  ]
]

module _ (platform : Platform) where
  stream_of-IsExact :
      (file : FileInfo) (s : Stream)
      → stream_of platform file ≡ some s
      → IsExact platform.file_size s
  unfolding stream_of
  stream_of-IsExact file s e = elim (Bool-cases (platform.file_size file.path == 0)) [
    | inl empty ↦ absurd (ground (arith, e, empty))
    | inr some_bytes ↦
        let same : whole file.path (platform.file_size file.path) ≡ s =
          ground (arith, e, some_bytes) in
        subst (IsExact platform.file_size) same
          (whole-IsExact platform.file_size file.path (ground (arith, some_bytes)))
  ]

  module _ (ft_http_cs_uri tid : Bytes) (msisdn : Option Bytes) where
    -- a thumbnail that can be sent, if there is one
    abbrev OptionIsExact : Option Part → Type 0
    OptionIsExact none = Unit
    OptionIsExact (some part) = PartIsExact platform.file_size part

    thumbnail_payload-IsExact :
        (thumbnail : Option FileInfo) (part : Option Part)
        → thumbnail_payload platform ft_http_cs_uri tid msisdn thumbnail ≡ some part
        → OptionIsExact part
    unfolding thumbnail_payload
    thumbnail_payload-IsExact none part e =
        let same : none ≡ part = ground (arith, e) in subst OptionIsExact same tt
    thumbnail_payload-IsExact (some file) part e = elim (Option-cases (stream_of platform file)) [
      | inl empty ↦ absurd (ground (arith, e, empty))
      | inr (s, there) ↦
          let same : some (file_part (codes "Thumbnail") file.name file.mime s) ≡ part =
            ground (arith, e, there) in
          subst OptionIsExact same (stream_of-IsExact file s there)
    ]

    tid_parts-IsExact :
        (part : Option Part) (file : Part)
        → OptionIsExact part
        → PartIsExact platform.file_size file
        → All
            (PartIsExact platform.file_size)
            (tid_parts platform ft_http_cs_uri tid msisdn part file)
    unfolding tid_parts
    tid_parts-IsExact none file h k = (tt, (k, tt))
    tid_parts-IsExact (some part) file h k = (tt, (h, (k, tt)))

    pub payload-IsExact :
        (file : FileInfo) (thumbnail : Option FileInfo) (content : Content)
        → payload platform ft_http_cs_uri tid msisdn file thumbnail ≡ some content
        → ContentIsExact platform.file_size content
    unfolding payload
    payload-IsExact file thumbnail content e =
        elim (Option-cases (thumbnail_payload platform ft_http_cs_uri tid msisdn thumbnail)) [
          | inl bad ↦ absurd (ground (arith, e, bad))
          | inr (part, good) ↦ elim (Option-cases (stream_of platform file)) [
            | inl empty ↦ absurd (ground (arith, e, good, empty))
            | inr (s, there) ↦
                let last = file_part (codes "File") file.name file.mime s in
                let parts = tid_parts platform ft_http_cs_uri tid msisdn part last in
                let same : multipart parts ≡ content = ground (arith, e, good, there) in
                subst (ContentIsExact platform.file_size) same (
                  tid_parts-IsExact part last (thumbnail_payload-IsExact thumbnail part good)
                    (stream_of-IsExact file s there))
          ]
        ]
