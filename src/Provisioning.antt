-- ===== src/Provisioning.antt =====
-- provisioning/: the configuration documents of the operator and the local store of them.
pub mod Characteristic
pub mod WapProvisioningDoc
pub mod LocalProvisioningDoc
pub mod ImsApplication
pub mod RcsApplication
pub mod DeviceConfiguration
