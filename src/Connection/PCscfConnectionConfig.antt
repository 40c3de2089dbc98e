-- ===== src/Connection/PCscfConnectionConfig.antt =====
-- connection/p_cscf_connection_config.rs: the P-CSCF that the client connects to next.
--
-- What rust_rcs_core says of the network is a parameter, one answer for each round of `get_next`,
-- which asks again when it calls itself: none without an active network, else its type, with the
-- DNS servers if there are any. `parse_ipv4` is `parse::<Ipv4Addr>()`.
pub mod Rotation
pub mod Position
use rust_rcs_client.Common.{
  ℕ, zero, suc, ◌+◌, ◌%◌, Bool, true, false, List, [], ◌∷◌, Option, none, some, Bytes, codes,
  bytes_eq, if◌then◌else◌, ltb, ◌==◌, length, get_elem?, split_at, parse_unsigned, ◌>>=◌,
}
use rust_rcs_client.Provisioning.Characteristic.{Characteristic}
use rust_rcs_client.Provisioning.ImsApplication.{
  SignallingProtocol, sip_over_tcp, sip_over_udp, sip_over_tls, TransportProto, create_default,
  transport_proto_of, get_lbo_p_cscf_addresses,
}

pub data ServiceType : Type 0 where
  sip_d2u : ServiceType
  sip_d2t : ServiceType
  sips_d2t : ServiceType

unfoldable pub get_string_repr : ServiceType → Bytes
get_string_repr sip_d2u = codes "SIP+D2U"
get_string_repr sip_d2t = codes "SIP+D2T"
get_string_repr sips_d2t = codes "SIPS+D2T"

pub record PCscfConnectionConfig : Type 0 where
  pub p : ℕ
  -- each with its type
  pub p_cscf_addresses : List (Bytes × Bytes)
  pub transport_proto : TransportProto

unfoldable pub new : PCscfConnectionConfig
unfolding create_default
new = record { p = 0; p_cscf_addresses = []; transport_proto = create_default }

unfoldable pub update_configuration : Characteristic → PCscfConnectionConfig → PCscfConnectionConfig
unfolding transport_proto_of get_lbo_p_cscf_addresses create_default
update_configuration ims_app c = record {
  p = 0;
  p_cscf_addresses = get_lbo_p_cscf_addresses ims_app;
  transport_proto = elim (transport_proto_of ims_app) [
    | none ↦ create_default
    | some proto ↦ proto
  ];
}

unfoldable pub protocol_for : ℕ → TransportProto → SignallingProtocol
protocol_for network_type proto =
    if network_type == 2
    then proto.ps_signalling
    else if network_type == 3
    then proto.ps_signalling_roaming
    else proto.wifi_signalling

abbrev service_type : SignallingProtocol → ServiceType
service_type sip_over_udp = sip_d2u
service_type sip_over_tcp = sip_d2t
service_type sip_over_tls = sips_d2t

-- `self.p` as `get_next` sets it before it looks up the address
unfoldable pub position : ℕ → List (Bytes × Bytes) → ℕ
position p addresses = if ltb 1 (length addresses) then p % length addresses else 0

-- the address, with the host, IP address and port that it gives
pub record Target (Ip : Type 0) : Type 0 where
  pub address : Bytes
  pub host : Option Bytes
  pub addr : Option Ip
  pub port : Option ℕ

-- what `get_next` returns
pub record Connection (Ip : Type 0) (Dns : Type 0) : Type 0 where
  pub dns_config : Dns
  pub service : ServiceType
  pub target : Target Ip

module _ {Ip : Type 0} (parse_ipv4 : Bytes → Option Ip) where
  -- `none` where `get_next` calls itself
  unfoldable pub target_of : Bytes × Bytes → Option (Target Ip)
  unfolding bytes_eq split_at parse_unsigned
  target_of (address, address_type) =
      if bytes_eq address_type (codes "FQDN")
      then some (record { address = address; host = some address; addr = none; port = none })
      else if bytes_eq address_type (codes "IPv4")
      then elim (split_at b':' address) [
        | some (v4_addr, v4_port) ↦ do
          ip ← parse_ipv4 v4_addr
          port ← parse_unsigned 16 v4_port
          some (record { address = address; host = none; addr = some ip; port = some port })
        | none ↦ do
          ip ← parse_ipv4 address
          some (record { address = address; host = none; addr = some ip; port = none })
      ]
      else none

  module _ {Dns : Type 0} (network : ℕ → Option (ℕ × Option Dns)) where
    -- `get_next` from its round `k` on, with as many calls as the fuel says; `none` is a stack that
    -- has run out
    unfoldable pub get_next :
        ℕ → ℕ → PCscfConnectionConfig → Option (Option (Connection Ip Dns) × PCscfConnectionConfig)
    get_next zero k c = none
    get_next (suc fuel) k c = elim (network k) [
      | none ↦ some (none, c)
      | some (network_type, dns) ↦ elim dns [
        | none ↦ some (none, c)
        | some dns_config ↦ elim (get_elem? c.p_cscf_addresses (position c.p c.p_cscf_addresses)) [
          | none ↦ some (none, c)
          | some entry ↦
              let c' = record c { p = suc (position c.p c.p_cscf_addresses) } in
              elim (target_of entry) [
                | none ↦ get_next fuel (suc k) c'
                | some target ↦ some (
                  some (record {
                    dns_config = dns_config;
                    service = service_type (protocol_for network_type c.transport_proto);
                    target = target;
                  }),
                  c',
                )
              ]
        ]
      ]
    ]
