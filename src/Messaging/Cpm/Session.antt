-- ===== src/Messaging/Cpm/Session.antt =====
-- messaging/cpm/session.rs: the negotiation of a session, its start, and the sessions of the service.
--
-- `Socket` is the socket that the application allocates, a body is its bytes. Channels and tasks are
-- what they set off: the connection that is opened, the message that is queued.
use rust_rcs_client.Common.{
  ℕ, Bool, true, false, List, [], ◌∷◌, ◌++◌, Option, none, some, ◌≡◌, refl, Bytes, codes, ◌==◌,
  if◌then◌else◌, index_of, swap_remove, option_list,
}
use rust_rcs_client.Contact
use rust_rcs_client.Contact.{ContactKnownIdentities}

module _ (Socket : Type 0) where
  pub record Local : Type 0 where
    pub l_sdp : Bytes
    pub sock : Option Socket
    pub tls : Bool
    pub laddr : Bytes
    pub lport : ℕ
    pub lpath : Bytes

  pub record Remote : Type 0 where
    pub r_sdp : Bytes
    pub raddr : Bytes
    pub rport : ℕ
    pub rpath : Bytes

  -- `CPMSessionNegotiationState` and `CPMSessionState`
  pub data CpmSessionState : Type 0 where
    none_set : CpmSessionState
    local_set : Local → CpmSessionState
    remote_set : Remote → CpmSessionState
    negotiated : Local → Remote → CpmSessionState
    starting : Local → Remote → CpmSessionState

  -- `connect_function(sock, &addr, port, tls)`
  pub record Connect : Type 0 where
    pub socket : Socket
    pub addr : Bytes
    pub port : ℕ
    pub tls : Bool

  -- the error of a setter, `none` for `Ok(())`
  unfoldable pub set_local_sdp : Local → CpmSessionState → Option Bytes × CpmSessionState
  set_local_sdp l none_set = (none, local_set l)
  set_local_sdp l (local_set old) = (some (codes "local already set"), local_set old)
  set_local_sdp l (remote_set r) = (none, negotiated l r)
  set_local_sdp l (negotiated old r) = (some (codes "already negotiated"), negotiated old r)
  set_local_sdp l (starting old r) = (some (codes "already negotiated"), starting old r)

  unfoldable pub set_remote_sdp : Remote → CpmSessionState → Option Bytes × CpmSessionState
  set_remote_sdp r none_set = (none, remote_set r)
  set_remote_sdp r (local_set l) = (none, negotiated l r)
  set_remote_sdp r (remote_set old) = (some (codes "remote already set"), remote_set old)
  set_remote_sdp r (negotiated l old) = (some (codes "already negotiated"), negotiated l old)
  set_remote_sdp r (starting l old) = (some (codes "already negotiated"), starting l old)

  -- the connection that it opens, or `Err(())`; the socket is taken
  unfoldable pub start_negotiated :
      Option Socket → Local → Remote → Option Connect × CpmSessionState
  start_negotiated (some sock) l r = (
    some (record { socket = sock; addr = r.raddr; port = r.rport; tls = l.tls }),
    starting (record l { sock = none }) r,
  )
  start_negotiated none l r = (none, negotiated l r)

  unfoldable pub start : CpmSessionState → Option Connect × CpmSessionState
  unfolding start_negotiated
  start none_set = (none, none_set)
  start (local_set l) = (none, local_set l)
  start (remote_set r) = (none, remote_set r)
  start (negotiated l r) = start_negotiated l.sock l r
  start (starting l r) = (none, starting l r)

  -- whether the message is queued; the code panics where it is not
  unfoldable pub send_message : CpmSessionState → Bool
  send_message none_set = false
  send_message (local_set l) = false
  send_message (remote_set r) = false
  send_message (negotiated l r) = false
  send_message (starting l r) = true

  -- What is done with a session, in any order.
  pub data Op : Type 0 where
    local_op : Local → Op
    remote_op : Remote → Op
    start_op : Op

  unfoldable pub step : Op → CpmSessionState → Option Connect × CpmSessionState
  unfolding set_local_sdp set_remote_sdp start
  step (local_op l) s = (none, (set_local_sdp l s).1)
  step (remote_op r) s = (none, (set_remote_sdp r s).1)
  step start_op s = start s

  -- the connections of a run, and the state it ends in
  unfoldable pub run : List Op → CpmSessionState → List Connect × CpmSessionState
  unfolding step
  run [] s = ([], s)
  run (op ∷ ops) s =
      let (connect, s') = step op s in
      let (connects, s'') = run ops s' in (option_list connect ++ connects, s'')

  -- A run of a session that is started stays so, and connects no more.
  run-starting :
      (ops : List Op) (l : Local) (r : Remote) → run ops (starting l r) ≡ ([], starting l r)
  unfolding run set_local_sdp set_remote_sdp start
  run-starting [] l r = refl
  run-starting (local_op l' ∷ ops) l r = rw (run-starting ops l r) refl
  run-starting (remote_op r' ∷ ops) l r = rw (run-starting ops l r) refl
  run-starting (start_op ∷ ops) l r = rw (run-starting ops l r) refl

  -- the first descriptions that a run gives
  abbrev pub first_local : List Op → Option Local
  first_local [] = none
  first_local (local_op l ∷ ops) = some l
  first_local (remote_op r ∷ ops) = first_local ops
  first_local (start_op ∷ ops) = first_local ops

  abbrev pub first_remote : List Op → Option Remote
  first_remote [] = none
  first_remote (local_op l ∷ ops) = first_remote ops
  first_remote (remote_op r ∷ ops) = some r
  first_remote (start_op ∷ ops) = first_remote ops

  -- No connection, or one, from the socket of the local description to the address of the remote one.
  pub data ConnectsOnce : Option Local → Option Remote → List Connect → Type 0 where
    idle : (l : Option Local) (r : Option Remote) → ConnectsOnce l r []
    once :
        (l : Local) (r : Remote) (sock : Socket)
        → l.sock ≡ some sock
        → ConnectsOnce
            (some l)
            (some r)
            (record { socket = sock; addr = r.raddr; port = r.rport; tls = l.tls } ∷ [])

  start_negotiated-ConnectsOnce :
      (ops : List Op) (l : Local) (r : Remote) (sock : Option Socket)
      → l.sock ≡ sock
      → ConnectsOnce (some l) (some r) (run ops (negotiated l r)).0
      → ConnectsOnce
          (some l)
          (some r)
          (option_list (start_negotiated sock l r).0 ++ (run ops (start_negotiated sock l r).1).0)
  unfolding start_negotiated
  start_negotiated-ConnectsOnce ops l r none e rest = rest
  start_negotiated-ConnectsOnce ops l r (some sock) e rest =
      rw (run-starting ops (record l { sock = none }) r) (once l r sock e)

  run-negotiated :
      (ops : List Op) (l : Local) (r : Remote)
      → ConnectsOnce (some l) (some r) (run ops (negotiated l r)).0
  unfolding run set_local_sdp set_remote_sdp start
  run-negotiated [] l r = idle (some l) (some r)
  run-negotiated (local_op l' ∷ ops) l r = run-negotiated ops l r
  run-negotiated (remote_op r' ∷ ops) l r = run-negotiated ops l r
  run-negotiated (start_op ∷ ops) l r =
      start_negotiated-ConnectsOnce ops l r l.sock refl (run-negotiated ops l r)

  run-local_set :
      (ops : List Op) (l : Local)
      → ConnectsOnce (some l) (first_remote ops) (run ops (local_set l)).0
  unfolding run set_local_sdp set_remote_sdp start
  run-local_set [] l = idle (some l) none
  run-local_set (local_op l' ∷ ops) l = run-local_set ops l
  run-local_set (remote_op r ∷ ops) l = run-negotiated ops l r
  run-local_set (start_op ∷ ops) l = run-local_set ops l

  run-remote_set :
      (ops : List Op) (r : Remote)
      → ConnectsOnce (first_local ops) (some r) (run ops (remote_set r)).0
  unfolding run set_local_sdp set_remote_sdp start
  run-remote_set [] r = idle none (some r)
  run-remote_set (local_op l ∷ ops) r = run-negotiated ops l r
  run-remote_set (remote_op r' ∷ ops) r = run-remote_set ops r
  run-remote_set (start_op ∷ ops) r = run-remote_set ops r

  -- However the two descriptions and the starts of a new session follow each other, in whatever order
  -- and number, the session connects at most once: from the socket of the first local description to
  -- the address and port of the first remote one.
  pub run-ConnectsOnce :
      (ops : List Op) → ConnectsOnce (first_local ops) (first_remote ops) (run ops none_set).0
  unfolding run set_local_sdp set_remote_sdp start
  run-ConnectsOnce [] = idle none none
  run-ConnectsOnce (local_op l ∷ ops) = run-local_set ops l
  run-ConnectsOnce (remote_op r ∷ ops) = run-remote_set ops r
  run-ConnectsOnce (start_op ∷ ops) = run-ConnectsOnce ops

  -- a session of the service, with the identity of the object
  pub record Ongoing : Type 0 where
    pub known_identities : ContactKnownIdentities
    pub id : ℕ
    pub state : CpmSessionState

  -- the first session with the recipient: whether it queues the message; `none` where there is none
  unfoldable pub send_to : Bytes → List Ongoing → Option Bool
  unfolding Contact.eq send_message
  send_to recipient [] = none
  send_to recipient (s ∷ sessions) =
      if Contact.eq s.known_identities recipient
      then some (send_message s.state)
      else send_to recipient sessions

  -- of a terminating request, and of the end of the session's transport
  unfoldable pub on_terminating_request : ℕ → List Ongoing → List Ongoing
  unfolding index_of swap_remove
  on_terminating_request id sessions = elim (index_of (λ (s : Ongoing). s.id == id) sessions) [
    | some idx ↦ swap_remove idx sessions
    | none ↦ sessions
  ]

-- the first invitation that is from the recipient, which is told to accept
unfoldable pub accept_and_open_session {ℓ} :
    {Invitation : Type ℓ} → Bytes → List (ContactKnownIdentities × Invitation) → Option Invitation
unfolding Contact.eq
accept_and_open_session recipient [] = none
accept_and_open_session recipient ((known, invitation) ∷ invitations) =
    if Contact.eq known recipient
    then some invitation
    else accept_and_open_session recipient invitations
