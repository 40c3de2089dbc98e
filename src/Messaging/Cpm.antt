-- ===== src/Messaging/Cpm.antt =====
-- messaging/cpm/: the contact of a CPM session, the information on a session and its negotiation.
pub mod SessionInfo
pub mod Session
pub mod Invitation
pub mod Handler
pub mod Responses
pub mod LargeMode
pub mod Pager
pub mod LargeInvite
