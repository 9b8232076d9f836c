-- ===== src/Tests/Codes.antt =====
-- Codes of ports.
use netspoc.Prelude.{◌≡◌, refl, not, ◌&&◌, ◌||◌, ◌==◌, arith}
use netspoc.Prelude.Bytes.{codes, itoa}
use netspoc.Pass2.Codes.{cisco_port_code, iptables_port_code}
use netspoc.Pass2.Codes.Ports.{
  read_iptables, in_ports, read_cisco, read_iptables-iptables_port_code, read_cisco-cisco_port_code,
}

gt_1023 : cisco_port_code 1024 65535 ≡ codes "gt 1023"
unfolding cisco_port_code itoa
gt_1023 = refl

read_cisco-cisco_port_code_example : read_cisco (cisco_port_code 1024 65535) ≡ (1024, 65535)
read_cisco-cisco_port_code_example = read_cisco-cisco_port_code 1024 65535 (omega arith)

read_iptables-iptables_port_code_example :
    in_ports 0 (read_iptables (iptables_port_code 1 80))
    ≡ (in_ports 0 (1, 80) || 0 == 0 && 1 == 1 && not (80 == 1))
read_iptables-iptables_port_code_example = read_iptables-iptables_port_code 1 80 0
