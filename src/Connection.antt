-- ===== src/Connection.antt =====
-- connection/: how the client finds its way to the network.
pub mod MsrpConnectionConfig
pub mod PCscfConnectionConfig
