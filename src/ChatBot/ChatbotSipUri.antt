-- ===== src/ChatBot/ChatbotSipUri.antt =====
-- chat_bot/chatbot_sip_uri.rs: the parts of a chatbot's SIP URI, and how they are read back from the
-- URI that they make.
use rust_rcs_client.Common.{
  ℕ, false, [], ◌∷◌, ◌++◌, Option, none, some, ◌≡◌, ◌↔◌, refl, ◌∙◌, inl, inr, arith, Bytes, codes,
  ◌>>=◌, split_at, has_byte, split_at-append, split_at-none, without_prefix, Option-cases, ◌||◌,
}

pub record ChatbotSipUri : Type 0 where
  pub bot_identifier : Bytes
  pub bot_publisher_id : Bytes
  pub bot_platform : Bytes
  pub bot_platform_domain : Bytes

-- the parts before and behind the first dot, or all of it and nothing
unfoldable pub at_dot : Bytes → Bytes × Bytes
unfolding split_at
at_dot part = elim (split_at b'.' part) [ some parts ↦ parts | none ↦ (part, []) ]

unfoldable pub as_chatbot_sip_uri : Bytes → Option ChatbotSipUri
unfolding at_dot without_prefix
as_chatbot_sip_uri uri = do
  parts ← split_at b'@' uri
  some (record {
    bot_identifier = without_prefix (codes "sip:") (at_dot parts.0).0;
    bot_publisher_id = (at_dot parts.0).1;
    bot_platform = (at_dot parts.1).0;
    bot_platform_domain = (at_dot parts.1).1;
  })

-- `sip:` and the parts, with dots between the halves of the user and of the host
abbrev pub sip_uri : ChatbotSipUri → Bytes
sip_uri u =
    (codes "sip:" ++ (u.bot_identifier ++ b'.' ∷ u.bot_publisher_id))
    ++ b'@' ∷ (u.bot_platform ++ b'.' ∷ u.bot_platform_domain)

has_byte-append : (c : ℕ) (a b : Bytes) → has_byte c (a ++ b) ≡ (has_byte c a || has_byte c b)
has_byte-append c [] b = refl
has_byte-append c (x ∷ a) b = ground (arith, has_byte-append c a b)

at_dot-append : (a b : Bytes) → has_byte b'.' a ≡ false → at_dot (a ++ b'.' ∷ b) ≡ (a, b)
unfolding at_dot
at_dot-append a b h = rw (split_at-append b'.' a b h, at_dot) refl

user_has_no_at :
    (identifier publisher : Bytes)
    → has_byte b'@' identifier ≡ false
    → has_byte b'@' publisher ≡ false
    → has_byte b'@' (codes "sip:" ++ (identifier ++ b'.' ∷ publisher)) ≡ false
user_has_no_at identifier publisher h h' =
    has_byte-append b'@' identifier (b'.' ∷ publisher) ∙ ground (arith, h, h')

without_prefix-sip : (s : Bytes) → without_prefix (codes "sip:") (codes "sip:" ++ s) ≡ s
unfolding without_prefix
without_prefix-sip s = refl

-- The parts are read back from the URI that they make, if no `@` stands in the user and no dot in the
-- identifier and the platform.
pub as_chatbot_sip_uri-sip_uri :
    (u : ChatbotSipUri)
    → has_byte b'@' u.bot_identifier ≡ false
    → has_byte b'@' u.bot_publisher_id ≡ false
    → has_byte b'.' u.bot_identifier ≡ false
    → has_byte b'.' u.bot_platform ≡ false
    → as_chatbot_sip_uri (sip_uri u) ≡ some u
unfolding as_chatbot_sip_uri
as_chatbot_sip_uri-sip_uri u at_free at_free' dot_free dot_free' =
    let user = codes "sip:" ++ (u.bot_identifier ++ b'.' ∷ u.bot_publisher_id) in
    let host = u.bot_platform ++ b'.' ∷ u.bot_platform_domain in
    rw
      (
        split_at-append b'@' user host
            (user_has_no_at u.bot_identifier u.bot_publisher_id at_free at_free'),
        at_dot-append (codes "sip:" ++ u.bot_identifier) u.bot_publisher_id dot_free,
        at_dot-append u.bot_platform u.bot_platform_domain dot_free',
        as_chatbot_sip_uri,
      )
      (rw (without_prefix-sip u.bot_identifier) refl)

-- Just the texts without an `@` are no chatbot URIs.
pub as_chatbot_sip_uri-none :
    (uri : Bytes) → (as_chatbot_sip_uri uri ≡ none) ↔ (has_byte b'@' uri ≡ false)
unfolding as_chatbot_sip_uri
as_chatbot_sip_uri-none uri = elim (Option-cases (split_at b'@' uri)) [
  | inl e ↦ ground (arith, e, split_at-none b'@' uri)
  | inr (parts, e) ↦ ground (arith, e, split_at-none b'@' uri)
]
