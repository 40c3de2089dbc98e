-- ===== src/Connection/MsrpConnectionConfig.antt =====
-- connection/msrp_connection_config.rs: the transport of MSRP media, by the network that is in use.
--
-- The platform is a parameter: `get_network k` is what its k-th query answers, the type of the active
-- network with its DNS servers, where it has any.
use rust_rcs_client.Common.{
  ℕ, Bool, true, false, Option, none, some, ◌≡◌, ◌≢◌, refl, ◌==◌, if◌then◌else◌, arith,
}
use rust_rcs_client.Provisioning.Characteristic.{Characteristic}
use rust_rcs_client.Provisioning.ImsApplication.{
  MediaProtocol, msrp, msrp_over_tls, TransportProto, create_default, transport_proto_of,
}
use rust_rcs_client.Connection.PCscfConnectionConfig.{protocol_for}

pub record MsrpConnectionConfig : Type 0 where
  pub transport_proto : TransportProto

unfoldable pub new : MsrpConnectionConfig
unfolding create_default
new = record { transport_proto = create_default }

unfoldable pub update_configuration : Characteristic → MsrpConnectionConfig → MsrpConnectionConfig
unfolding transport_proto_of create_default
update_configuration ims_app c = record {
  transport_proto = elim (transport_proto_of ims_app) [
    | none ↦ create_default
    | some proto ↦ proto
  ];
}

unfoldable pub media_for : ℕ → TransportProto → MediaProtocol
media_for network_type proto = if network_type == 1 then proto.ps_media else proto.wifi_media

-- whether TLS is used
unfoldable pub is_tls : MediaProtocol → Bool
is_tls msrp = false
is_tls msrp_over_tls = true

module _ {Dns : Type 0} (get_network : ℕ → Option (ℕ × Option Dns)) where
  unfoldable pub get_transport_config : ℕ → MsrpConnectionConfig → Option (Dns × Bool)
  unfolding media_for is_tls
  get_transport_config k c = elim (get_network k) [
    | none ↦ none
    | some (network_type, dns_info) ↦ elim dns_info [
      | none ↦ none
      | some dns_config ↦ some (dns_config, is_tls (media_for network_type c.transport_proto))
    ]
  ]

  -- the protocols, with others where they are roaming
  abbrev pub with_roaming : MediaProtocol → MsrpConnectionConfig → MsrpConnectionConfig
  with_roaming p c = record c {
    transport_proto = record c.transport_proto { ps_media_roaming = p };
  }

  get_transport_config_roaming :
      (answer : Option (ℕ × Option Dns)) (k : ℕ) (p : MediaProtocol) (c : MsrpConnectionConfig)
      → get_network k ≡ answer
      → get_transport_config k (with_roaming p c) ≡ get_transport_config k c
  unfolding get_transport_config media_for
  get_transport_config_roaming none k p c e = rw (e, get_transport_config) refl
  get_transport_config_roaming (some (network_type, none)) k p c e =
      rw (e, get_transport_config) refl
  get_transport_config_roaming (some (network_type, some dns)) k p c e =
      rw (e, get_transport_config) refl

  -- The media protocol for roaming counts on no network at all. On the network types 2 and 3, on which
  -- the P-CSCF is reached with the signalling protocols for packet-switched networks, at home and
  -- roaming, media takes the protocol for wireless networks.
  pub get_transport_config-cellular :
      (k network_type : ℕ) (dns : Dns) (c : MsrpConnectionConfig)
      → network_type ≢ 1
      → get_network k ≡ some (network_type, some dns)
      → ((j : ℕ) (p : MediaProtocol)
          → get_transport_config j (with_roaming p c) ≡ get_transport_config j c)
        × (get_transport_config k c ≡ some (dns, is_tls c.transport_proto.wifi_media))
        × (protocol_for 2 c.transport_proto ≡ c.transport_proto.ps_signalling)
        × (protocol_for 3 c.transport_proto ≡ c.transport_proto.ps_signalling_roaming)
  unfolding get_transport_config media_for protocol_for
  get_transport_config-cellular k network_type dns c other e = (
    λ j p. get_transport_config_roaming (get_network j) j p c refl,
    rw (e, get_transport_config) (ground (arith, other)),
    refl,
    refl,
  )
