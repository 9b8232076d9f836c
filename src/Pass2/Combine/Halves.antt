-- ===== src/Pass2/Combine/Halves.antt =====
-- Two halves of a network, and the network.
use native.Mathlib.Nat.{
  eq_of_mul-eq-mul_right, div-div-eq-div-mul, mul-le-mul_right, pow-suc, mul_assoc, mul_comm,
}
use netspoc.Prelude.{
  ℕ, zero, suc, ◌-◌, ◌*◌, ◌/◌, ◌^◌, ◌≤◌, ◌<◌, ◌≡◌, inl, inr, sym, ap, ◌∙◌, ◌||◌, ◌==◌, ==_iff,
  Bool-cases, leb, arith,
}
use netspoc.Pass2.Nets.{masked}

-- The quotients of the two halves.
quotients : (a b q : ℕ) → a < b → a / 2 ≡ b / 2 → (q / 2 * 2 == a) ≡ (q == a || q == b)
quotients a b q lt e = ground arith

pub cancels : (m a b : ℕ) → 0 < m → (a * m == b * m) ≡ (a == b)
cancels m a b pos = elim (Bool-cases (a == b)) [
  | inl e ↦ let same = ap (λ x. x * m) ((==_iff a b).0 e) in rw e ((==_iff (a * m) (b * m)).1 same)
  | inr e ↦ elim (Bool-cases (a * m == b * m)) [
    | inl f ↦
        let g = eq_of_mul-eq-mul_right m pos a b ((==_iff (a * m) (b * m)).0 f) in
        absurd (ground (arith, g))
    | inr f ↦ f ∙ sym e
  ]
]

upper : (m q : ℕ) → q / 2 * (m * 2) ≡ q / 2 * 2 * m
upper m q = ap (λ k. q / 2 * k) (mul_comm m 2) ∙ sym (mul_assoc (q / 2) 2 m)

-- Networks of size `m` that start at different multiples of it, within one network of twice the size:
-- that one starts at the first, and its addresses are those of the two.
pub halves_cover :
    (m ip1 ip2 x : ℕ)
    → 0 < m
    → ip1 / m * m ≡ ip1
    → ip2 / m * m ≡ ip2
    → ip1 < ip2
    → ip1 / (m * 2) ≡ ip2 / (m * 2)
    → (x / (m * 2) * (m * 2) == ip1) ≡ (x / m * m == ip1 || x / m * m == ip2)
halves_cover m ip1 ip2 x pos a1 a2 lt e =
    let a = ip1 / m in
    let b = ip2 / m in
    let q = x / m in
    let same : a / 2 ≡ b / 2 = div-div-eq-div-mul ip1 m 2 ∙ e ∙ sym (div-div-eq-div-mul ip2 m 2) in
    let less : a < b = elim (Bool-cases (leb b a)) [
      | inl ge ↦ absurd (
          let small : b ≤ a = ground arith in
          let le : b * m ≤ a * m = mul-le-mul_right m small in omega (arith, a1, a2, lt))
      | inr l ↦ ground (arith, l)
    ] in
    let large : (x / (m * 2) * (m * 2) == ip1) ≡ (q / 2 * 2 == a) =
      ap (λ k. k * (m * 2) == ip1) (sym (div-div-eq-div-mul x m 2))
      ∙ ap (λ k. k == ip1) (upper m q)
      ∙ ap (λ k. q / 2 * 2 * m == k) (sym a1)
      ∙ cancels m (q / 2 * 2) a pos in
    let first : (q * m == ip1) ≡ (q == a) = ap (λ k. q * m == k) (sym a1) ∙ cancels m q a pos in
    let second : (q * m == ip2) ≡ (q == b) = ap (λ k. q * m == k) (sym a2) ∙ cancels m q b pos in
    large
    ∙ quotients a b q less same
    ∙ ap (λ k. k || q == b) (sym first)
    ∙ ap (λ k. q * m == ip1 || k) (sym second)

pow_pos : (k : ℕ) → 0 < 2 ^ k
pow_pos zero = omega arith
pow_pos (suc k) = rw (pow-suc 2 k) (omega (arith, pow_pos k))

half_size :
    (bits prefix : ℕ)
    → 0 < prefix
    → prefix ≤ bits
    → 2 ^ (bits - (prefix - 1)) ≡ 2 ^ (bits - prefix) * 2
half_size bits prefix pos le =
    let e : bits - (prefix - 1) ≡ suc (bits - prefix) = omega arith in
    ap (λ k. 2 ^ k) e ∙ pow-suc 2 (bits - prefix)

masked_up :
    (bits prefix x : ℕ)
    → 0 < prefix
    → prefix ≤ bits
    → masked bits x (prefix - 1) ≡ x / (2 ^ (bits - prefix) * 2) * (2 ^ (bits - prefix) * 2)
masked_up bits prefix x pos le = ap (λ m. x / m * m) (half_size bits prefix pos le)

-- Two networks with the same prefix, within one network of a prefix that is shorter by 1: it starts
-- where the first one does, and its addresses are those of the two.
pub masked_halves :
    (bits prefix ip1 ip2 x : ℕ)
    → prefix ≤ bits
    → masked bits ip1 prefix ≡ ip1
    → masked bits ip2 prefix ≡ ip2
    → ip1 < ip2
    → masked bits ip1 (prefix - 1) ≡ masked bits ip2 (prefix - 1)
    → (masked bits x (prefix - 1) == ip1)
      ≡ (masked bits x prefix == ip1 || masked bits x prefix == ip2)
masked_halves bits prefix ip1 ip2 x le a1 a2 lt e =
    let m = 2 ^ (bits - prefix) in
    let pos : 0 < prefix = elim (Bool-cases (prefix == 0)) [
      | inl z ↦
          let z' = (==_iff prefix 0).0 z in
          let same : prefix - 1 ≡ prefix = omega (arith, z') in
          absurd (
            omega (
              arith,
              sym a1 ∙ ap (masked bits ip1) (sym same) ∙ e ∙ ap (masked bits ip2) same ∙ a2,
            ))
      | inr n ↦ ground (arith, n)
    ] in
    let two_m : 0 < m * 2 = omega (arith, pow_pos (bits - prefix)) in
    let same =
      eq_of_mul-eq-mul_right (m * 2) two_m (ip1 / (m * 2)) (ip2 / (m * 2))
        (sym (masked_up bits prefix ip1 pos le) ∙ e ∙ masked_up bits prefix ip2 pos le) in
    ap (λ k. k == ip1) (masked_up bits prefix x pos le)
    ∙ halves_cover m ip1 ip2 x (pow_pos (bits - prefix)) a1 a2 lt same
