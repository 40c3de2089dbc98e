-- ===== src/Connectivity.antt =====
-- connectivity/: the registration with the network and the flows that it keeps.
pub mod RegInfoXml
pub mod Flow
pub mod Registration
