-- ===== src/Tests/Protocol.antt =====
-- Names of protocols, made and read.
use netspoc.Prelude.{◌≡◌, refl, false, []}
use netspoc.Prelude.Bytes.{codes, itoa}
use netspoc.Pass2.Protocol.{create_prt_obj, gen_port_name, new_proto, Protos, get_prt_obj}
use netspoc.Pass2.Protocol.Names.{tcp, create_prt_obj-gen_port_name}
use netspoc.Pass2.Protocol.Store.{Named, Got, get_prt_obj-Got}

create_prt_obj-gen_port_name_example :
    let prt = create_prt_obj (gen_port_name (codes "tcp") 80 90) in
    (prt.protocol ≡ codes "tcp") × (prt.low ≡ 80) × (prt.high ≡ 90) × (prt.established ≡ false)
create_prt_obj-gen_port_name_example = create_prt_obj-gen_port_name 80 90 tcp

named_80_90 : gen_port_name (codes "tcp") 80 90 ≡ codes "tcp 80-90"
unfolding gen_port_name itoa
named_80_90 = refl

-- No name is in the map yet.
abbrev empty : Protos
empty = record { prt = λ p. new_proto [] []; names = []; next = 1 }

empty-Named : Named empty
empty-Named = record { used = λ n p e. cc; ports = λ n p e. cc }

get_prt_obj-Got_example :
    let (p, s') = get_prt_obj (codes "udp 53") empty in Got (codes "udp 53") empty p s'
get_prt_obj-Got_example = get_prt_obj-Got (codes "udp 53") empty empty-Named
