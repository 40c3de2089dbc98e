-- ===== src/Tests/Connection.antt =====
-- P-CSCF addresses on concrete input: one that cannot be parsed, one by name and one by address.
use rust_rcs_client.Common.{
  ℕ, [], ◌∷◌, Option, none, some, ◌≡◌, refl, Bytes, codes, arith, ◌==◌, if◌then◌else◌,
}
use rust_rcs_client.Provisioning.ImsApplication.{create_default}
use rust_rcs_client.Connection.PCscfConnectionConfig.{
  PCscfConnectionConfig, Target, target_of, get_next,
}
use rust_rcs_client.Connection.PCscfConnectionConfig.Rotation.{
  connection_to, first_usable, answer, get_next-turn, get_next-diverges,
}

-- an IPv4 address is the text that stands for it, if it starts with a `1`
abbrev parse_ipv4 : Bytes → Option Bytes
parse_ipv4 [] = none
parse_ipv4 (c ∷ cs) = if c == b'1' then some (c ∷ cs) else none

-- a wireless network, with a name server
abbrev network : ℕ → Option (ℕ × Option ℕ)
network k = some (1, some 53)

abbrev unusable : Bytes × Bytes
unusable = (codes "x", codes "IPv4")

abbrev named : Bytes × Bytes
named = (codes "p.example", codes "FQDN")

abbrev numbered : Bytes × Bytes
numbered = (codes "10.0.0.2:5060", codes "IPv4")

-- behind the last address that is usable
abbrev config : PCscfConnectionConfig
config = record {
  p = 2;
  p_cscf_addresses = numbered ∷ named ∷ unusable ∷ [];
  transport_proto = create_default;
}

abbrev target : Target Bytes
target = record {
  address = codes "10.0.0.2:5060";
  host = none;
  addr = some (codes "10.0.0.2");
  port = some 5060;
}

get_next-turn_example :
    answer parse_ipv4 network 1 53 (λ k. refl) (get_next parse_ipv4 network 3 0 config)
    ≡ some (some (connection_to parse_ipv4 network 1 53 (λ k. refl) config target))
unfolding first_usable target_of
get_next-turn_example =
    get_next-turn parse_ipv4 network 1 53 (λ k. refl) (numbered ∷ named ∷ []) (unusable ∷ []) 3 0
      config target refl refl refl (omega arith)

abbrev lost : PCscfConnectionConfig
lost = record config { p_cscf_addresses = unusable ∷ [] }

get_next-diverges_example : get_next parse_ipv4 network 1000 0 lost ≡ none
unfolding target_of
get_next-diverges_example =
    get_next-diverges parse_ipv4 network 1 53 (λ k. refl) 1000 0 lost (omega arith) (refl, tt)
