-- ===== src/Pass2/Codes/Ports.antt =====
-- The codes of port ranges, read as a device reads them.
use netspoc.Prelude.{
  ℕ, ◌+◌, ◌-◌, ◌<◌, ◌≡◌, inl, inr, refl, sym, ap, ◌∙◌, Bool, true, false, not, ◌&&◌, ◌||◌, leb,
  Option, none, some, [], ◌∷◌, ◌++◌, if◌then◌else◌, ◌==◌, ==_iff, arith, Bool-cases,
}
use netspoc.Prelude.Bytes.{
  Bytes, codes, bytes_eq, is_digit, itoa, atoi, atoi-itoa, itoa-Free, itoa_not_empty, Free, cut_at,
  cut_at_first, cut_at-none,
}
use netspoc.Pass2.Codes.{cisco_port_code, iptables_port_code}

-- A number, or a bound if there is none.
abbrev number_or : ℕ → Bytes → ℕ
number_or n s = if bytes_eq s [] then n else atoi s

abbrev iptables_parts : Bytes → Option (Bytes × Bytes) → ℕ × ℕ
iptables_parts s none = (number_or 0 s, number_or 65535 s)
iptables_parts s (some (a, b)) = (number_or 0 a, number_or 65535 b)

-- `n`, `n:`, `:n` and `n:m`, and nothing for all ports: iptables takes 0 for a missing first port and
-- 65535 for a missing last one.
abbrev pub read_iptables : Bytes → ℕ × ℕ
read_iptables s = iptables_parts s (cut_at b':' s)

abbrev cisco_range : Option (Bytes × Bytes) → ℕ × ℕ
cisco_range none = (0, 0)
cisco_range (some (a, b)) = (atoi a, atoi b)

abbrev cisco_parts : Option (Bytes × Bytes) → ℕ × ℕ
cisco_parts none = (1, 65535)
cisco_parts (some (op, s)) =
    if bytes_eq op (codes "eq")
    then (atoi s, atoi s)
    else if bytes_eq op (codes "gt")
    then (atoi s + 1, 65535)
    else if bytes_eq op (codes "lt")
    then (1, atoi s - 1)
    else cisco_range (cut_at b' ' s)

-- `eq n`, `gt n`, `lt n` and `range n m`, and nothing for all ports
abbrev pub read_cisco : Bytes → ℕ × ℕ
read_cisco s = cisco_parts (cut_at b' ' s)

colon : is_digit b':' ≡ false
unfolding is_digit
colon = refl

blank : is_digit b' ' ≡ false
unfolding is_digit
blank = refl

number_or-itoa : (n v : ℕ) → number_or n (itoa v) ≡ v
number_or-itoa n v = rw (itoa_not_empty v) (atoi-itoa v)

read_single : (v : ℕ) → read_iptables (itoa v) ≡ (v, v)
read_single v =
    rw
      (
        cut_at-none b':' (itoa v) (itoa-Free b':' v colon),
        number_or-itoa 0 v,
        number_or-itoa 65535 v,
      )
      refl

read_from : (v : ℕ) (t : Bytes) → read_iptables (itoa v ++ b':' ∷ t) ≡ (v, number_or 65535 t)
read_from v t = rw (cut_at_first b':' (itoa v) t (itoa-Free b':' v colon), number_or-itoa 0 v) refl

abbrev pub in_ports : ℕ → ℕ × ℕ → Bool
in_ports x (v1, v2) = leb v1 x && leb x v2

read_equal :
    (v1 v2 x : ℕ)
    → (v1 == v2) ≡ true
    → in_ports x (read_iptables (itoa v1))
      ≡ (in_ports x (v1, v2) || x == 0 && v1 == 1 && not (v2 == 1))
read_equal v1 v2 x e = rw (read_single v1) (ground arith)

-- As iptables reads the code of a range of ports, it stands for exactly the ports of the range, and for
-- port 0 besides if the range begins at 1 and is not the single port 1.
pub read_iptables-iptables_port_code :
    (v1 v2 x : ℕ)
    → in_ports x (read_iptables (iptables_port_code v1 v2))
      ≡ (in_ports x (v1, v2) || x == 0 && v1 == 1 && not (v2 == 1))
unfolding iptables_port_code
read_iptables-iptables_port_code v1 v2 x = elim (Bool-cases (v1 == v2)) [
  | inl e ↦ rw e (read_equal v1 v2 x e)
  | inr e ↦ elim (Bool-cases (v1 == 1)) [
    | inl f ↦ elim (Bool-cases (v2 == 65535)) [
      | inl g ↦ rw (e, f, g) (ground arith)
      | inr g ↦ rw (e, f, g, number_or-itoa 65535 v2) (ground arith)
    ]
    | inr f ↦ elim (Bool-cases (v2 == 65535)) [
      | inl g ↦ rw (e, f, g, read_from v1 []) (ground arith)
      | inr g ↦ rw (e, f, g, read_from v1 (itoa v2), number_or-itoa 65535 v2) (ground arith)
    ]
  ]
]

-- The operator of a code and what stands behind it.
read_op : (op t : Bytes) → Free b' ' op → read_cisco (op ++ b' ' ∷ t) ≡ cisco_parts (some (op, t))
read_op op t free = ap cisco_parts (cut_at_first b' ' op t free)

read_eq : (v : ℕ) → read_cisco (codes "eq" ++ b' ' ∷ itoa v) ≡ (v, v)
read_eq v = read_op (codes "eq") (itoa v) (refl, (refl, tt)) ∙ rw (atoi-itoa v) refl

read_gt : (v : ℕ) → read_cisco (codes "gt" ++ b' ' ∷ itoa v) ≡ (v + 1, 65535)
read_gt v = read_op (codes "gt") (itoa v) (refl, (refl, tt)) ∙ rw (atoi-itoa v) refl

read_lt : (v : ℕ) → read_cisco (codes "lt" ++ b' ' ∷ itoa v) ≡ (1, v - 1)
read_lt v = read_op (codes "lt") (itoa v) (refl, (refl, tt)) ∙ rw (atoi-itoa v) refl

read_range : (v w : ℕ) → read_cisco (codes "range" ++ b' ' ∷ (itoa v ++ b' ' ∷ itoa w)) ≡ (v, w)
read_range v w =
    read_op (codes "range") (itoa v ++ b' ' ∷ itoa w) (refl, (refl, (refl, (refl, (refl, tt)))))
    ∙ rw (cut_at_first b' ' (itoa v) (itoa w) (itoa-Free b' ' v blank), atoi-itoa v, atoi-itoa w)
        refl

-- Each range of ports that does not start at 0 is what is read from its code in Cisco syntax, whatever
-- operator was chosen for it.
pub read_cisco-cisco_port_code :
    (v1 v2 : ℕ) → 0 < v1 → read_cisco (cisco_port_code v1 v2) ≡ (v1, v2)
unfolding cisco_port_code
read_cisco-cisco_port_code v1 v2 pos = elim (Bool-cases (v1 == v2)) [
  | inl e ↦ rw e (read_eq v1 ∙ ap (λ v. (v1, v)) ((==_iff v1 v2).0 e))
  | inr e ↦ elim (Bool-cases (v1 == 1)) [
    | inl f ↦
        let one : 1 ≡ v1 = sym ((==_iff v1 1).0 f) in
        elim (Bool-cases (v2 == 65535)) [
          | inl g ↦
              rw (e, f, g)
                (ap (λ v. (v, 65535)) one ∙ ap (λ v. (v1, v)) (sym ((==_iff v2 65535).0 g)))
          | inr g ↦
              let back : v2 + 1 - 1 ≡ v2 = omega arith in
              rw (e, f, g) (read_lt (v2 + 1) ∙ ap (λ v. (1, v)) back ∙ ap (λ v. (v, v2)) one)
        ]
    | inr f ↦ elim (Bool-cases (v2 == 65535)) [
      | inl g ↦
          let back : v1 - 1 + 1 ≡ v1 = omega arith in
          rw (e, f, g)
            (read_gt (v1 - 1)
              ∙ ap (λ v. (v, 65535)) back
              ∙ ap (λ v. (v1, v)) (sym ((==_iff v2 65535).0 g)))
      | inr g ↦ rw (e, f, g) (read_range v1 v2)
    ]
  ]
]
