-- ===== src/Provisioning/ImsApplication.antt =====
-- provisioning/ims_application.rs: the IMS management object, as the views that the program takes of
-- its characteristic.
pub mod Lookup
use rust_rcs_client.Common.{
  Bool, true, false, List, [], ◌∷◌, ◌++◌, Option, none, some, Bytes, codes, bytes_eq, if◌then◌else◌,
  option_list, ◌>>=◌,
}
use rust_rcs_client.Provisioning.Characteristic.{
  Characteristic, characteristic_type, child_characteristics, get_child_characteristic,
  get_parameter, get_runtime_characteristics,
}
use rust_rcs_client.Provisioning.WapProvisioningDoc.{
  WapProvisioningDoc, get_application_characteristic,
}

pub data SignallingProtocol : Type 0 where
  sip_over_tcp : SignallingProtocol
  sip_over_udp : SignallingProtocol
  sip_over_tls : SignallingProtocol

pub data MediaProtocol : Type 0 where
  msrp : MediaProtocol
  msrp_over_tls : MediaProtocol

pub data RealTimeMediaProtocol : Type 0 where
  rtp : RealTimeMediaProtocol
  srtp : RealTimeMediaProtocol

pub record TransportProto : Type 0 where
  pub ps_signalling : SignallingProtocol
  pub ps_media : MediaProtocol
  pub ps_rt_media : RealTimeMediaProtocol
  pub ps_signalling_roaming : SignallingProtocol
  pub ps_media_roaming : MediaProtocol
  pub ps_rt_media_roaming : RealTimeMediaProtocol
  pub wifi_signalling : SignallingProtocol
  pub wifi_media : MediaProtocol
  pub wifi_rt_media : RealTimeMediaProtocol

unfoldable pub create_default : TransportProto
create_default = record {
  ps_signalling = sip_over_udp;
  ps_media = msrp;
  ps_rt_media = rtp;
  ps_signalling_roaming = sip_over_udp;
  ps_media_roaming = msrp;
  ps_rt_media_roaming = rtp;
  wifi_signalling = sip_over_tls;
  wifi_media = msrp_over_tls;
  wifi_rt_media = srtp;
}

-- a `match` on a parameter, with its last arm for a parameter that is not there
signalling : SignallingProtocol → Option Bytes → SignallingProtocol
unfolding bytes_eq
signalling otherwise none = otherwise
signalling otherwise (some proto) =
    if bytes_eq proto (codes "SIPoTCP")
    then sip_over_tcp
    else if bytes_eq proto (codes "SIPoUDP")
    then sip_over_udp
    else if bytes_eq proto (codes "SIPoTLS")
    then sip_over_tls
    else otherwise

media : MediaProtocol → Option Bytes → MediaProtocol
unfolding bytes_eq
media otherwise none = otherwise
media otherwise (some proto) =
    if bytes_eq proto (codes "MSRP")
    then msrp
    else if bytes_eq proto (codes "MSRPoTLS")
    then msrp_over_tls
    else otherwise

real_time_media : RealTimeMediaProtocol → Option Bytes → RealTimeMediaProtocol
unfolding bytes_eq
real_time_media otherwise none = otherwise
real_time_media otherwise (some proto) =
    if bytes_eq proto (codes "RTP")
    then rtp
    else if bytes_eq proto (codes "SRTP")
    then srtp
    else otherwise

-- `get_transport_proto_info` of the characteristic `transportProto`
unfoldable pub get_transport_proto_info : Characteristic → TransportProto
unfolding get_parameter signalling media real_time_media
get_transport_proto_info e = record {
  ps_signalling = signalling sip_over_udp (get_parameter e (codes "psSignalling"));
  ps_media = media msrp (get_parameter e (codes "psMedia"));
  ps_rt_media = real_time_media rtp (get_parameter e (codes "psRTMedia"));
  ps_signalling_roaming = signalling sip_over_udp (get_parameter e (codes "psSignallingRoaming"));
  ps_media_roaming = media msrp (get_parameter e (codes "psMediaRoaming"));
  ps_rt_media_roaming = real_time_media rtp (get_parameter e (codes "psRTMediaRoaming"));
  wifi_signalling = signalling sip_over_tls (get_parameter e (codes "wifiSignalling"));
  wifi_media = media msrp_over_tls (get_parameter e (codes "wifiMedia"));
  wifi_rt_media = real_time_media srtp (get_parameter e (codes "wifiRTMedia"));
}

unfoldable pub get_ims_gsma_extension : Characteristic → Option Characteristic
unfolding get_child_characteristic
get_ims_gsma_extension ims_app = do
  ext ← get_child_characteristic ims_app (codes "Ext")
  get_child_characteristic ext (codes "GSMA")

-- `transport_proto` of the extension's `get_info`, and `get_transport_proto_info` of that
unfoldable pub transport_proto_of : Characteristic → Option TransportProto
unfolding get_ims_gsma_extension get_transport_proto_info
transport_proto_of ims_app = do
  gsma ← get_ims_gsma_extension ims_app
  e ← get_child_characteristic gsma (codes "transportProto")
  some (get_transport_proto_info e)

-- what `PCscfAddresses::next` returns for a node, or `none` where it passes it over
unfoldable pub p_cscf_address : Characteristic → Option (Bytes × Bytes)
unfolding get_parameter
p_cscf_address node = do
  address ← get_parameter node (codes "Address")
  address_type ← get_parameter node (codes "AddressType")
  some (address, address_type)

unfoldable pub p_cscf_addresses : List Characteristic → List (Bytes × Bytes)
unfolding p_cscf_address
p_cscf_addresses [] = []
p_cscf_addresses (node ∷ nodes) = option_list (p_cscf_address node) ++ p_cscf_addresses nodes

-- `get_lbo_p_cscf_addresses`, with what its iterator yields
unfoldable pub get_lbo_p_cscf_addresses : Characteristic → List (Bytes × Bytes)
unfolding get_child_characteristic get_runtime_characteristics p_cscf_addresses
get_lbo_p_cscf_addresses ims_app =
    elim (get_child_characteristic ims_app (codes "LBO_P-CSCF_Address")) [
      | none ↦ []
      | some addresses ↦
          p_cscf_addresses (get_runtime_characteristics (child_characteristics addresses))
    ]

unfoldable pub get_home_domain : Characteristic → Option Bytes
unfolding get_parameter
get_home_domain ims_app = get_parameter ims_app (codes "Home_network_domain_name")

unfoldable pub get_private_user_identity : Characteristic → Option Bytes
unfolding get_parameter
get_private_user_identity ims_app = get_parameter ims_app (codes "Private_User_Identity")

unfoldable pub public_user_identities : List Characteristic → List Bytes
unfolding get_parameter
public_user_identities [] = []
public_user_identities (node ∷ nodes) =
    option_list (get_parameter node (codes "Public_User_Identity")) ++ public_user_identities nodes

-- `get_public_user_identity_list`, with what its iterator yields
unfoldable pub get_public_user_identity_list : Characteristic → List Bytes
unfolding get_child_characteristic get_runtime_characteristics public_user_identities
get_public_user_identity_list ims_app =
    elim (get_child_characteristic ims_app (codes "Public_User_Identity_List")) [
      | none ↦ []
      | some identities ↦
          public_user_identities (get_runtime_characteristics (child_characteristics identities))
    ]

abbrev is_value : Bytes → Option Bytes → Bool
is_value wanted none = false
is_value wanted (some found) = bytes_eq found wanted

-- the condition of the loop of `get_ims_application`
unfoldable pub is_ims_application : Bytes → Characteristic → Bool
unfolding get_ims_gsma_extension bytes_eq
is_ims_application app_ref child =
    if bytes_eq (characteristic_type child) (codes "3GPP_IMS")
    then is_value app_ref
        (do gsma ← get_ims_gsma_extension child; get_parameter gsma (codes "AppRef"))
    else false

unfoldable pub first_ims_application : Bytes → List Characteristic → Option Characteristic
unfolding is_ims_application
first_ims_application app_ref [] = none
first_ims_application app_ref (child ∷ children) =
    if is_ims_application app_ref child then some child else first_ims_application app_ref children

unfoldable pub get_ims_application : WapProvisioningDoc → Bytes → Option Characteristic
unfolding get_application_characteristic first_ims_application
get_ims_application doc app_ref = do
  ims_mo ← get_application_characteristic doc (codes "urn:oma:mo:ext-3gpp-ims:1.0")
  first_ims_application app_ref (child_characteristics ims_mo)
