-- ===== src/Messaging.antt =====
-- messaging/: the configuration of the messaging services, and the transfer of files over HTTP.
pub mod ResumeInfoXml
pub mod Configs
pub mod FtHttp
pub mod Cpm
