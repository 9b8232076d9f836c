-- ===== src/Pass2/Codes.antt =====
-- go/cmd/spoc2/main.go: `ciscoPrtCode`, `iptablesPrtCode` and `getCiscoAction`, the texts of protocols
-- in the syntax of the devices.
pub mod Ports
use netspoc.Prelude.{
  ℕ, ◌+◌, ◌-◌, Bool, true, false, ◌&&◌, ◌||◌, Option, none, some, List, [], ◌∷◌, ◌++◌,
  if◌then◌else◌, ◌==◌,
}
use netspoc.Prelude.Bytes.{Bytes, codes, bytes_eq, itoa}
use netspoc.Pass2.Rules.{Proto}

-- `portCode` of `ciscoPrtCode`
unfoldable pub cisco_port_code : ℕ → ℕ → Bytes
cisco_port_code v1 v2 =
    if v1 == v2
    then codes "eq" ++ b' ' ∷ itoa v1
    else if v1 == 1 && v2 == 65535
    then []
    else if v2 == 65535
    then codes "gt" ++ b' ' ∷ itoa (v1 - 1)
    else if v1 == 1
    then codes "lt" ++ b' ' ∷ itoa (v2 + 1)
    else codes "range" ++ b' ' ∷ (itoa v1 ++ b' ' ∷ itoa v2)

-- The code of the destination ports, with `established`
with_established : Bool → Bytes → Bytes
with_established false code = code
with_established true [] = codes "established"
with_established true (c ∷ cs) = (c ∷ cs) ++ codes " established"

src_code : Option Proto → Bytes
unfolding cisco_port_code
src_code none = []
src_code (some r) = cisco_port_code r.low r.high

-- Type and code of ICMP
icmp_code : Option ℕ → Option ℕ → Bytes
icmp_code none code = []
icmp_code (some t) none = itoa t
icmp_code (some t) (some c) = itoa t ++ b' ' ∷ itoa c

-- `ciscoPrtCode`
unfoldable pub cisco_prt_code : Option Proto → Proto → Bytes → Bool → Bytes × Bytes × Bytes
unfolding cisco_port_code with_established src_code icmp_code
cisco_prt_code src_range prt model ipv6 =
    if bytes_eq prt.protocol (codes "ip")
    then ((if bytes_eq model (codes "IOS") && ipv6 then codes "ipv6" else codes "ip"), [], [])
    else if bytes_eq prt.protocol (codes "tcp") || bytes_eq prt.protocol (codes "udp")
    then (
      prt.protocol,
      src_code src_range,
      with_established prt.established (cisco_port_code prt.low prt.high),
    )
    else if bytes_eq prt.protocol (codes "icmp")
    then (
      (if ipv6 && bytes_eq model (codes "ASA") then codes "icmp6" else codes "icmp"),
      [],
      icmp_code prt.icmp_type prt.icmp_code,
    )
    else (prt.protocol, [], [])

-- `getCiscoAction`
unfoldable pub get_cisco_action : Bool → Bytes
get_cisco_action true = codes "deny"
get_cisco_action false = codes "permit"

-- `portCode` of `iptablesPrtCode`
unfoldable pub iptables_port_code : ℕ → ℕ → Bytes
iptables_port_code v1 v2 =
    if v1 == v2
    then itoa v1
    else if v1 == 1 && v2 == 65535
    then []
    else if v2 == 65535
    then itoa v1 ++ b':' ∷ []
    else if v1 == 1
    then b':' ∷ itoa v2
    else itoa v1 ++ b':' ∷ itoa v2

-- An option, unless its value is empty
option : Bytes → Bytes → Bytes
option name [] = []
option name (c ∷ cs) = name ++ c ∷ cs

sport_code : Option Proto → Bytes
unfolding iptables_port_code option
sport_code none = []
sport_code (some r) = option (codes " --sport ") (iptables_port_code r.low r.high)

icmp_option : Option ℕ → Option ℕ → Bytes
icmp_option none code = []
icmp_option (some t) none = codes " --icmp-type " ++ itoa t
icmp_option (some t) (some c) = codes " --icmp-type " ++ (itoa t ++ b'/' ∷ itoa c)

-- `iptablesPrtCode`
unfoldable pub iptables_prt_code : Option Proto → Proto → Bool → Bytes
unfolding iptables_port_code option sport_code icmp_option
iptables_prt_code src_range prt ipv6 =
    if bytes_eq prt.protocol (codes "tcp") || bytes_eq prt.protocol (codes "udp")
    then codes " -p "
      ++ (prt.protocol
          ++ (sport_code src_range
              ++ option (codes " --dport ") (iptables_port_code prt.low prt.high)))
    else if bytes_eq prt.protocol (codes "icmp")
    then (if ipv6 then codes " -p ipv6-icmp" else codes " -p icmp")
      ++ icmp_option prt.icmp_type prt.icmp_code
    else codes " -p " ++ prt.protocol
