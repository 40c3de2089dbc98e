-- ===== src/Tests.antt =====
-- Runs of the modelled code on concrete documents and states, one file for each part of the program.
mod Provisioning
mod Connectivity
mod Messaging
mod Connection
mod ChatBot
mod Registration
mod Standalone
mod DeviceConfiguration
mod Configs
mod FileTransfer
mod Cpm
