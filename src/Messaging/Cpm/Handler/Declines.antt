-- ===== src/Messaging/Cpm/Handler/Declines.antt =====
-- What becomes of an INVITE that the application declines.
use rust_rcs_client.Common.{
  ℕ, ◌≤◌, Bool, true, false, ◌&&◌, Option, none, some, ◌≡◌, arith, Bytes, codes, ltb, leb,
  if◌then◌else◌, Option-cases, inl, inr, Bool-cases, ◌>>=◌,
}
use rust_rcs_client.Messaging.Cpm.SessionInfo.{
  CpmServiceType, one_to_one, group, chatbot, system, CpmSessionInfo, Sip, text,
  get_cpm_session_info_from_message,
}
use rust_rcs_client.Messaging.Cpm.Handler.{
  Direction, send_receive, send_only, other_direction, Invite, Handled, passes, answers,
  Application, Decision, code, decided, accepts_contact, has_sdp, group_answer, group_decision,
  conversation_answer, conversation_decision, direct_decision, decision_for, on_code, on_offer,
  handle_invite,
}

module _ (sip : Sip) (index_of : Bytes → Bytes → Bool) (is_sdp : Bytes → Bool)
    (decode : Bytes → Option Bytes) (app : Application) where
  -- No session comes of it: the INVITE is left to other handlers, or is answered by the two codes that
  -- the service itself has.
  pub data Declines : Handled → Type 0 where
    passed : (event : Bool) → Declines (passes event)
    bad_request : Declines (answers 400)
    not_acceptable : Declines (answers 606)

  data DecisionDeclines : Decision → Type 0 where
    by_code : (c : ℕ) → 300 ≤ c → DecisionDeclines (code c)
    settled : (h : Handled) → Declines h → DecisionDeclines (decided h)

  on_code-Declines :
      (info : CpmSessionInfo) (d : Decision)
      → DecisionDeclines d
      → Declines (on_code sip index_of is_sdp decode app info d)
  unfolding on_code
  on_code-Declines info d (settled h k) = k
  on_code-Declines info d (by_code c h) =
      let final : (leb 200 c && ltb c 300) ≡ false = ground arith in
      let provisional : (leb 100 c && ltb c 200) ≡ false = ground arith in
      rw (final, provisional) (passed false)

  module _
      (conversation : (deferred : Bool) (contact contribution_id conversation_id : Bytes)
        → 300 ≤ app.conversation_invite deferred contact contribution_id conversation_id)
      (groups : (contact conversation_id contribution_id subject name uri : Bytes)
        → 300 ≤ app.group_invite contact conversation_id contribution_id subject name uri) where
    abbrev IsFinal : Option ℕ → Type 0
    IsFinal none = Unit
    IsFinal (some c) = 300 ≤ c

    bind-IsFinal :
        {A : Type 0} (o : Option A) (f : A → Option ℕ)
        → ((a : A) → IsFinal (f a))
        → IsFinal (o >>= f)
    bind-IsFinal none f h = tt
    bind-IsFinal (some a) f h = h a

    group_answer-IsFinal :
        (info : CpmSessionInfo) → IsFinal (group_answer sip index_of is_sdp decode app info)
    unfolding group_answer
    group_answer-IsFinal info = bind-IsFinal info.conversation_id _ (λ a.
        bind-IsFinal info.contribution_id _ (λ b. bind-IsFinal info.subject _ (λ c.
          bind-IsFinal info.referred_by _ (λ d. bind-IsFinal (decode c) _ (λ e.
            bind-IsFinal (sip.display_name d) _ (λ n. bind-IsFinal (text sip n) _ (λ m.
              bind-IsFinal (sip.first_uri_part d) _ (λ p.
                bind-IsFinal (text sip p.uri) _
                  (λ u. groups info.asserted_contact_uri a b e m u)))))))))

    group_decision-Declines :
        (direction : Direction) (o : Option ℕ)
        → IsFinal o
        → DecisionDeclines (group_decision sip index_of is_sdp decode app direction o)
    unfolding group_decision
    group_decision-Declines direction none h = settled (passes false) (passed false)
    group_decision-Declines send_receive (some c) h = by_code c h
    group_decision-Declines send_only (some c) h = settled (passes true) (passed true)
    group_decision-Declines other_direction (some c) h = settled (passes true) (passed true)

    conversation_answer-Declines :
        (direction : Direction) (info : CpmSessionInfo) (a b : Bytes)
        → DecisionDeclines (conversation_answer sip index_of is_sdp decode app direction info a b)
    unfolding conversation_answer
    conversation_answer-Declines send_only info a b = elim (Bool-cases info.is_deferred_session) [
      | inl deferred ↦ rw deferred (by_code _ (conversation true info.asserted_contact_uri b a))
      | inr direct ↦ rw direct (settled (passes false) (passed false))
    ]
    conversation_answer-Declines send_receive info a b =
        by_code _ (conversation false info.asserted_contact_uri b a)
    conversation_answer-Declines other_direction info a b = settled (passes false) (passed false)

    conversation_decision-Declines :
        (direction : Direction) (info : CpmSessionInfo) (a b : Option Bytes)
        → DecisionDeclines (conversation_decision sip index_of is_sdp decode app direction info a b)
    unfolding conversation_decision
    conversation_decision-Declines direction info (some a) (some b) =
        conversation_answer-Declines direction info a b
    conversation_decision-Declines direction info none b = settled (passes false) (passed false)
    conversation_decision-Declines direction info (some a) none =
        settled (passes false) (passed false)

    if-Declines :
        (b : Bool) (x y : Decision)
        → DecisionDeclines x
        → DecisionDeclines y
        → DecisionDeclines (if b then x else y)
    if-Declines true x y h k = h
    if-Declines false x y h k = k

    direct_decision-Declines :
        (invite : Invite) (direction : Direction) (info : CpmSessionInfo)
        → DecisionDeclines (direct_decision sip index_of is_sdp decode app invite direction info)
    unfolding direct_decision
    direct_decision-Declines invite direction info =
        let asked =
          conversation_decision-Declines direction info info.conversation_id info.contribution_id in
        if-Declines _ _ _ (if-Declines _ _ _ asked (settled (answers 606) not_acceptable)) asked

    decision_for-Declines :
        (service : CpmServiceType) (invite : Invite) (direction : Direction) (info : CpmSessionInfo)
        → DecisionDeclines
            (decision_for sip index_of is_sdp decode app service invite direction info)
    unfolding decision_for
    decision_for-Declines group invite direction info =
        group_decision-Declines direction _ (group_answer-IsFinal info)
    decision_for-Declines one_to_one invite direction info =
        direct_decision-Declines invite direction info
    decision_for-Declines chatbot invite direction info =
        direct_decision-Declines invite direction info
    decision_for-Declines system invite direction info =
        direct_decision-Declines invite direction info

    on_offer-Declines :
        (invite : Invite) (direction : Option Direction)
        → Declines (on_offer sip index_of is_sdp decode app invite direction)
    unfolding on_offer
    on_offer-Declines invite none = bad_request
    on_offer-Declines invite (some direction) =
        elim (Option-cases (get_cpm_session_info_from_message sip invite.headers false)) [
          | inl bare ↦ rw (bare, on_offer) (passed false)
          | inr (info, there) ↦
              rw (there, on_offer)
                (on_code-Declines info _
                  (decision_for-Declines info.cpm_contact.service_type invite direction info))
        ]

    -- Where the application answers every invitation with a final code that is no success, no session
    -- comes of an INVITE and the phone does not ring, but the application's code is not sent: the
    -- service leaves the INVITE to the other handlers, or answers it with 400 or 606 of its own.
    pub handle_invite-Declines :
        (invite : Invite) → Declines (handle_invite sip index_of is_sdp decode app invite)
    unfolding handle_invite
    handle_invite-Declines invite =
        elim (Bool-cases (
          accepts_contact sip index_of is_sdp decode app (codes "+g.3gpp.icsi-ref")
            (codes "urn%3Aurn-7%3A3gpp-service.ims.icsi.oma.cpm.session") invite.headers)) [
              | inr other ↦ rw (other, handle_invite) (passed false)
              | inl session ↦
                  elim (Bool-cases (has_sdp sip index_of is_sdp decode app invite.headers)) [
                    | inl offered ↦
                        rw (session, offered, handle_invite)
                          (on_offer-Declines invite invite.direction)
                    | inr bare ↦ rw (session, bare, handle_invite) bad_request
                  ]
            ]
