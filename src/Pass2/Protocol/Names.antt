-- ===== src/Pass2/Protocol/Names.antt =====
-- The names that `GenPortName` makes are read back by `createPrtObj`, and `getPrtObj` keeps the map
-- from names to objects in order.
use netspoc.Prelude.{
  ℕ, ◌≡◌, inl, inr, refl, sym, ap, ◌∙◌, subst, true, false, ◌&&◌, Option, none, some, ◌∷◌, ◌++◌,
  ◌==◌, arith, Bool-cases, ==_iff,
}
use netspoc.Prelude.Bytes.{
  Bytes, codes, cut_at, cut_at_first, cut_at-none, Free, itoa, itoa-Free, atoi-itoa, is_digit,
  itoa_not, itoa_not_empty,
}
use netspoc.Pass2.Rules.{Proto}
use netspoc.Pass2.Protocol.{
  gen_port_name, create_prt_obj, with_detail, with_ports, split_descr, new_proto,
}

-- The protocols that have ports.
pub data HasPorts : Bytes → Type 0 where
  tcp : HasPorts (codes "tcp")
  udp : HasPorts (codes "udp")

itoa-Free_dash : (n : ℕ) → Free b'-' (itoa n)
unfolding is_digit
itoa-Free_dash n = itoa-Free b'-' n refl

create_named :
    (p detail : Bytes)
    → Free b' ' p
    → create_prt_obj (p ++ b' ' ∷ detail) ≡ with_detail p detail (new_proto (p ++ b' ' ∷ detail) p)
unfolding create_prt_obj
create_named p detail free = rw (cut_at_first b' ' p detail free) refl

-- The protocol, with the ports from `v1` to `v2`, and not for established connections only.
unfoldable pub IsPorts : Bytes → ℕ → ℕ → Proto → Type 0
IsPorts p v1 v2 prt =
    (prt.protocol ≡ p) × (prt.low ≡ v1) × (prt.high ≡ v2) × (prt.established ≡ false)

port_read :
    (p : Bytes) (n : ℕ) (prt : Proto)
    → prt.protocol ≡ p
    → prt.established ≡ false
    → IsPorts p n n (with_ports (itoa n) none prt)
unfolding IsPorts with_ports is_digit
port_read p n prt same e =
    rw (itoa_not n b'e' (codes "stablished") refl, itoa_not_empty n)
      (same, atoi-itoa n, atoi-itoa n, e)

range_read :
    (p : Bytes) (v1 v2 : ℕ) (prt : Proto)
    → prt.protocol ≡ p
    → prt.established ≡ false
    → IsPorts p v1 v2 (with_ports (itoa v1 ++ b'-' ∷ itoa v2) (some (itoa v1, itoa v2)) prt)
unfolding IsPorts with_ports
range_read p v1 v2 prt same e = (same, atoi-itoa v1, atoi-itoa v2, e)

HasPorts-Free : (p : Bytes) → HasPorts p → Free b' ' p
HasPorts-Free _ tcp = (refl, (refl, (refl, tt)))
HasPorts-Free _ udp = (refl, (refl, (refl, tt)))

with_detail_ports :
    (p detail : Bytes) (prt : Proto)
    → HasPorts p
    → with_detail p detail prt ≡ with_ports detail (cut_at b'-' detail) prt
unfolding with_detail
with_detail_ports _ detail prt tcp = refl
with_detail_ports _ detail prt udp = refl

-- What is read from a protocol and its details.
create_ports :
    (p detail : Bytes) (c : Option (Bytes × Bytes))
    → HasPorts p
    → cut_at b'-' detail ≡ c
    → create_prt_obj (p ++ b' ' ∷ detail) ≡ with_ports detail c (new_proto (p ++ b' ' ∷ detail) p)
create_ports p detail c ports e =
    create_named p detail (HasPorts-Free p ports)
    ∙ with_detail_ports p detail (new_proto (p ++ b' ' ∷ detail) p) ports
    ∙ ap (λ c. with_ports detail c (new_proto (p ++ b' ' ∷ detail) p)) e

all_read : (p : Bytes) → HasPorts p → IsPorts p 1 65535 (create_prt_obj p)
unfolding IsPorts create_prt_obj split_descr with_detail with_ports
all_read _ tcp = (refl, refl, refl, refl)
all_read _ udp = (refl, refl, refl, refl)

range_named :
    (p : Bytes) (v1 v2 : ℕ)
    → HasPorts p
    → IsPorts p v1 v2 (create_prt_obj (p ++ b' ' ∷ (itoa v1 ++ b'-' ∷ itoa v2)))
range_named p v1 v2 ports =
    subst (IsPorts p v1 v2)
      (sym (
        create_ports p (itoa v1 ++ b'-' ∷ itoa v2) (some (itoa v1, itoa v2)) ports
          (cut_at_first b'-' (itoa v1) (itoa v2) (itoa-Free_dash v1))))
      (range_read p v1 v2 (new_proto (p ++ b' ' ∷ (itoa v1 ++ b'-' ∷ itoa v2)) p) refl refl)

port_named : (p : Bytes) (n : ℕ) → HasPorts p → IsPorts p n n (create_prt_obj (p ++ b' ' ∷ itoa n))
port_named p n ports =
    subst (IsPorts p n n)
      (sym (create_ports p (itoa n) none ports (cut_at-none b'-' (itoa n) (itoa-Free_dash n))))
      (port_read p n (new_proto (p ++ b' ' ∷ itoa n) p) refl refl)

all_named :
    (p : Bytes) (v1 v2 : ℕ)
    → HasPorts p
    → (v1 == 1 && v2 == 65535) ≡ true
    → IsPorts p v1 v2 (create_prt_obj p)
all_named p v1 v2 ports a =
    let e : v1 ≡ 1 = ground arith in
    let f : v2 ≡ 65535 = ground arith in rw (e, f) (all_read p ports)

named_read :
    (p : Bytes) (v1 v2 : ℕ) → HasPorts p → IsPorts p v1 v2 (create_prt_obj (gen_port_name p v1 v2))
unfolding gen_port_name
named_read p v1 v2 ports = elim (Bool-cases (v1 == v2)) [
  | inl e ↦ rw e (
      subst (λ k. IsPorts p v1 k (create_prt_obj (p ++ b' ' ∷ itoa v1))) ((==_iff v1 v2).0 e)
        (port_named p v1 ports))
  | inr e ↦ elim (Bool-cases (v1 == 1 && v2 == 65535)) [
    | inl a ↦ rw (e, a) (all_named p v1 v2 ports a)
    | inr a ↦ rw (e, a) (range_named p v1 v2 ports)
  ]
]

-- For TCP and UDP, the name of a range of ports is read back as that protocol with that range, and
-- not for established connections only.
pub create_prt_obj-gen_port_name :
    {p : Bytes} (v1 v2 : ℕ)
    → HasPorts p
    → let prt = create_prt_obj (gen_port_name p v1 v2) in
      (prt.protocol ≡ p) × (prt.low ≡ v1) × (prt.high ≡ v2) × (prt.established ≡ false)
unfolding IsPorts
create_prt_obj-gen_port_name {p} v1 v2 ports = named_read p v1 v2 ports
