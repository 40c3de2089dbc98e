-- ===== src/Lib.antt =====
-- A verification library for rust-rcs-client, a client of the GSMA Rich Communication Services.
--
-- The program has these parts, of which all but the last are modelled here, in whole or in part:
--   * Provisioning. A configuration server sends a `wap-provisioningdoc`, a tree of characteristics.
--     The client keeps the documents of its servers, each with a version and a token, in one stored
--     document, which it updates, writes to a file and loads again.
--   * XML reading. Every document is read by the same loops over the events of quick_xml.
--   * Registration information. The registrar's NOTIFYs carry a `reginfo` document.
--   * Flows. `FlowManager` keeps the flows and records that these documents report, and tells the
--     engine whether the registration is bound at its transport, and until when.
--   * Connection. The P-CSCF to connect to next, out of the addresses of the IMS application.
--   * Uploads. What a content server answers about an upload that was interrupted.
--   * Addresses of chatbots, and the identities by which a contact is known.
--   * Registration. The state that REGISTER requests, their responses and timers drive.
--   * Device configuration. The requests to the configuration servers of the operator, and what becomes
--     of their answers.
--   * File transfer over HTTP. Uploads, which are resumed where they were interrupted, and downloads.
--   * Chatbot directory. What is retrieved of chatbots over HTTP.
--   * Configuration records, which the services fill from the management objects.
--   * CPM messaging. Who a session is with, its negotiation, what becomes of an INVITE, the acceptance
--     of an invitation, and standalone messages as they are received.
--   * Conferences, the messages that the client sends itself, and the engine over all parts.
--
-- The files, and the code that each is about:
--   Common, Common/*: what the Rust standard library gives: strings as bytes, integers parsed and
--     printed with their ranges, vectors with `swap_remove` and `retain`, options.
--   Core: operations of rust_rcs_core, a library, as parameters with their documented law.
--   Xml, Xml/*: the attribute loop and the element loop that the parsers in src/provisioning and
--     src/connectivity share, and what they make of well-formed content.
--   Provisioning/Characteristic: src/provisioning/characteristic.rs
--   Provisioning/WapProvisioningDoc: src/provisioning/wap_provisioning_doc.rs
--   Provisioning/LocalProvisioningDoc: src/provisioning/local_provisioning_doc.rs
--   Provisioning/ImsApplication: src/provisioning/ims_application.rs
--   Connection/PCscfConnectionConfig: src/connection/p_cscf_connection_config.rs
--   Messaging/ResumeInfoXml: src/messaging/ft_http/resume_info_xml.rs
--   ChatBot/ChatbotSipUri: src/chat_bot/chatbot_sip_uri.rs
--   Contact: src/contact/mod.rs
--   Provisioning/RcsApplication: src/provisioning/rcs_application.rs
--   Provisioning/DeviceConfiguration, with Handling, Requests and Start below it:
--     src/provisioning/device_configuration.rs
--   Http: the steps of an exchange that src/messaging/ft_http and src/chat_bot/mod.rs share.
--   Messaging/FtHttp, Upload and Download: src/messaging/ft_http/mod.rs, upload.rs and download.rs
--   Messaging/Configs: src/messaging/config.rs, src/messaging/ft_http/config.rs and
--     src/chat_bot/chatbot_config.rs
--   Messaging/Cpm/SessionInfo: src/messaging/cpm/sip/cpm_contact.rs and src/messaging/cpm/session.rs
--   Messaging/Cpm/Session, Handler and Responses: src/messaging/cpm/session.rs and
--     src/messaging/cpm/sip/cpm_accept_contact.rs
--   Messaging/Cpm/Invitation: src/messaging/cpm/session_invitation.rs
--   Messaging/Cpm/LargeInvite and LargeMode: the INVITE and the receiver of the large mode in
--     src/messaging/cpm/standalone_messaging.rs
--   Messaging/Cpm/Pager: a MESSAGE in src/messaging/cpm/standalone_messaging.rs, and
--     src/chat_bot/cpim.rs
--   Connection/MsrpConnectionConfig: src/connection/msrp_connection_config.rs
--   ChatBot/Retrieval: src/chat_bot/mod.rs
--   Connectivity/RegInfoXml: src/connectivity/reg_info_xml.rs
--   Connectivity/Flow: src/connectivity/flow.rs
--   Connectivity/Registration: src/connectivity/registration.rs
--   Tests/*: runs on concrete input.
-- Definitions keep the names of the code: `read_characteristic`, `update_vers_token`,
-- `remove_aor_within_flow` and so on. A struct is a record, an enum a data type, a `Vec` a list, an
-- error of no content `none`. A `Reader` is the list of events still to come; a function that reads
-- returns its result with the events that are left. The state that a mutex guards is a record, a
-- handler a function on it that returns the new state with what it sets off. A step of a run is what
-- is done while the mutex is held; a handler that takes it twice makes two steps.
--
-- Loops over events run on fuel. The element loop has as much as there are events, and each of its
-- rounds reads one; the nesting of `read_characteristic` has one more than there are events, and
-- each level reads one. Xml/Walk and Provisioning/Characteristic/Fuel show that this is enough: more
-- fuel gives the same, and the recursion is that of the source, without fuel.
-- `get_next` of Connection calls itself; on fuel, a call for each address is enough where one of them
-- is usable. `start_auto_config_for_server` starts further servers and itself; it has fuel for nested
-- starts, and as many as the network has answers left, with two more, are enough; a network that goes
-- on answering can take more than any number. A run over the
-- network is a function of the answers that are to come, in their order, which the state carries.
--
-- Not modelled: the network, files and timers; SIP and HTTP messages, which rust_rcs_core builds;
-- logging; the parts named last above.
pub mod Common
pub mod Core
pub mod Http
pub mod Xml
pub mod Provisioning
pub mod Connectivity
pub mod Connection
pub mod ChatBot
pub mod Contact
pub mod Messaging
pub mod Tests
