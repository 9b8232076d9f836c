-- ===== src/Pass2/Bintree/Masks.antt =====
-- Addresses under shorter and longer masks, for the binary tree of networks.
use native.Mathlib.Nat.{
  eq_of_mul-eq-mul_right, div-div-eq-div-mul, div-mul-le_self, mul-div_cancel, div-eq_of_lt,
  pow-suc, mul_assoc, mul_comm, add-mul, one-mul, zero-mul, le-div_iff_mul-le,
}
use netspoc.Prelude.{
  ℕ, zero, suc, ◌+◌, ◌-◌, ◌*◌, ◌/◌, ◌^◌, ◌≤◌, ◌<◌, ◌≡◌, ◌≢◌, inl, inr, refl, sym, ap, ◌∙◌, subst,
  true, false, ◌||◌, ◌==◌, ==_iff, Bool-cases, arith,
}
use netspoc.Pass2.Nets.{masked}
use netspoc.Pass2.Combine.Halves.{cancels}
use netspoc.Pass2.Bintree.{common}

pow_pos : (k : ℕ) → 0 < 2 ^ k
pow_pos zero = omega arith
pow_pos (suc k) = rw (pow-suc 2 k) (omega (arith, pow_pos k))

-- The size of a half of a network.
abbrev pub half : ℕ → ℕ → ℕ
half bits p = 2 ^ (bits - suc p)

pub half_pos : (bits p : ℕ) → 0 < half bits p
half_pos bits p = pow_pos (bits - suc p)

split_pow : (k e : ℕ) → (d : ℕ) × (2 ^ (e + k) ≡ 2 ^ k * d)
split_pow k zero =
    let n : 0 + k ≡ k = omega arith in
    let one : 2 ^ k ≡ 2 ^ k * 1 = omega arith in (1, ap (λ t. 2 ^ t) n ∙ one)
split_pow k (suc e) =
    let (d, h) = split_pow k e in
    let n : suc e + k ≡ suc (e + k) = omega arith in
    (d * 2, ap (λ t. 2 ^ t) n ∙ pow-suc 2 (e + k) ∙ ap (λ t. t * 2) h ∙ mul_assoc (2 ^ k) d 2)

floor_floor : (x m d : ℕ) → 0 < m → x / m * m / (m * d) * (m * d) ≡ x / (m * d) * (m * d)
floor_floor x m d pos =
    ap (λ k. k * (m * d))
      (sym (div-div-eq-div-mul (x / m * m) m d)
        ∙ ap (λ k. k / d) (mul-div_cancel (x / m) pos)
        ∙ div-div-eq-div-mul x m d)

-- A mask after a longer one.
pub masked-masked : (bits x p q : ℕ) → p ≤ q → masked bits (masked bits x q) p ≡ masked bits x p
masked-masked bits x p q le =
    let m = 2 ^ (bits - q) in
    let e = bits - p - (bits - q) in
    let sum : e + (bits - q) ≡ bits - p = omega arith in
    let (d, h) = split_pow (bits - q) e in
    let size : 2 ^ (bits - p) ≡ m * d = ap (λ n. 2 ^ n) (sym sum) ∙ h in
    ap (λ s. masked bits x q / s * s) size
    ∙ floor_floor x m d (pow_pos (bits - q))
    ∙ ap (λ s. x / s * s) (sym size)

pub masked_zero : (bits x : ℕ) → x < 2 ^ bits → masked bits x 0 ≡ 0
masked_zero bits x lt =
    let n : bits - 0 ≡ bits = omega arith in
    ap (λ t. x / 2 ^ t * 2 ^ t) n ∙ ap (λ k. k * 2 ^ bits) (div-eq_of_lt lt) ∙ zero-mul (2 ^ bits)

pub masked_le : (bits x p : ℕ) → masked bits x p ≤ x
masked_le bits x p = div-mul-le_self x (2 ^ (bits - p))

module _ (bits p : ℕ) (lt : p < bits) where
  -- The parts are those of the network of a prefix that is longer by 1.
  by_halves : (x : ℕ) → masked bits x p ≡ x / half bits p / 2 * 2 * half bits p
  by_halves x =
      let m = half bits p in
      let n : bits - p ≡ suc (bits - suc p) = omega arith in
      let size : 2 ^ (bits - p) ≡ m * 2 = ap (λ k. 2 ^ k) n ∙ pow-suc 2 (bits - suc p) in
      ap (λ s. x / s * s) size
      ∙ ap (λ k. k * (m * 2)) (sym (div-div-eq-div-mul x m 2))
      ∙ ap (λ k. x / m / 2 * k) (mul_comm m 2)
      ∙ sym (mul_assoc (x / m / 2) 2 m)

  next_part : (q m : ℕ) → (q + 1) * m ≡ q * m + m
  next_part q m = add-mul q 1 m ∙ ap (λ k. q * m + k) (one-mul m)

  -- An address is in the lower or the upper half of its network.
  pub upper_half :
      (a : ℕ)
      → masked bits a (suc p) ≢ masked bits a p
      → masked bits a (suc p) ≡ masked bits a p + half bits p
  upper_half a ne =
      let m = half bits p in
      let q = a / m in
      elim (Bool-cases (q == q / 2 * 2)) [
        | inl e ↦ absurd (ne (ap (λ k. k * m) ((==_iff q (q / 2 * 2)).0 e) ∙ sym (by_halves a)))
        | inr n ↦
            let e : q ≡ q / 2 * 2 + 1 = ground (arith, n) in
            ap (λ k. k * m) e ∙ next_part (q / 2 * 2) m ∙ ap (λ k. k + m) (sym (by_halves a))
      ]

  -- Two addresses of one network that are not in one half of it.
  pub lower_half :
      (a b : ℕ)
      → masked bits a p ≡ masked bits b p
      → masked bits a (suc p) ≢ masked bits b (suc p)
      → a < b
      → (masked bits a (suc p) ≡ masked bits a p) × (masked bits b (suc p) ≢ masked bits b p)
  lower_half a b same ne lt =
      let m = half bits p in
      let q = a / m in
      let r = b / m in
      let twice : q / 2 * 2 ≡ r / 2 * 2 =
        eq_of_mul-eq-mul_right m (half_pos bits p) (q / 2 * 2) (r / 2 * 2)
          (sym (by_halves a) ∙ same ∙ by_halves b) in
      let differ : q ≢ r = λ e. ne (ap (λ k. k * m) e) in
      let small : q * m ≤ a = div-mul-le_self a m in
      let order : q ≤ r = (le-div_iff_mul-le (half_pos bits p)).1 (omega (arith, lt, small)) in
      let e : q ≡ q / 2 * 2 = omega arith in
      let f : r ≢ r / 2 * 2 = omega arith in
      (
        ap (λ k. k * m) e ∙ sym (by_halves a),
        λ g. f (eq_of_mul-eq-mul_right m (half_pos bits p) r (r / 2 * 2) (g ∙ by_halves b)),
      )

  -- Aligned addresses of the halves of a network, which starts at `ip`.
  module _ (ip : ℕ) (start : masked bits ip p ≡ ip) where
    pub start_lower : masked bits ip (suc p) ≡ ip
    start_lower =
        let m = half bits p in
        let k = ip / m / 2 * 2 in
        let e : ip ≡ k * m = sym start ∙ by_halves ip in
        ap (λ t. t / m * m) e ∙ ap (λ t. t * m) (mul-div_cancel k (half_pos bits p)) ∙ sym e

    pub in_halves :
        (x : ℕ)
        → (masked bits x p == ip)
          ≡ (masked bits x (suc p) == ip || masked bits x (suc p) == ip + half bits p)
    in_halves x =
        let m = half bits p in
        let q = x / m in
        let k = ip / m / 2 in
        let e : ip ≡ k * 2 * m = sym start ∙ by_halves ip in
        let f : ip + m ≡ (k * 2 + 1) * m = ap (λ t. t + m) e ∙ sym (next_part (k * 2) m) in
        let parts : (q / 2 * 2 == k * 2) ≡ (q == k * 2 || q == k * 2 + 1) = ground arith in
        ap (λ t. t == ip) (by_halves x)
        ∙ ap (λ t. q / 2 * 2 * m == t) e
        ∙ cancels m (q / 2 * 2) (k * 2) (half_pos bits p)
        ∙ parts
        ∙ ap (λ t. t || q == k * 2 + 1) (sym (cancels m q (k * 2) (half_pos bits p)))
        ∙ ap (λ t. q * m == k * 2 * m || t) (sym (cancels m q (k * 2 + 1) (half_pos bits p)))
        ∙ ap (λ t. q * m == t || q * m == (k * 2 + 1) * m) (sym e)
        ∙ ap (λ t. q * m == ip || q * m == t) (sym f)

-- The prefix of the common root.
module _ (bits a b : ℕ) where
  hit : (p : ℕ) → (masked bits a p == masked bits b p) ≡ true → common bits a b (suc p) ≡ p
  unfolding common
  hit p e = rw (e, common) refl

  miss :
      (p : ℕ)
      → (masked bits a p == masked bits b p) ≡ false
      → common bits a b (suc p) ≡ common bits a b p
  unfolding common
  miss p e = rw (e, common) refl

  shared : (p : ℕ) → (masked bits a p == masked bits b p) ≡ true → masked bits a p ≡ masked bits b p
  shared p e = (==_iff (masked bits a p) (masked bits b p)).0 e

  abbrev Shared : ℕ → Type 0
  Shared p = masked bits a p ≡ masked bits b p

  pub common-same : (p : ℕ) → a < 2 ^ bits → b < 2 ^ bits → Shared (common bits a b p)
  unfolding common
  common-same zero la lb = masked_zero bits a la ∙ sym (masked_zero bits b lb)
  common-same (suc p) la lb = elim (Bool-cases (masked bits a p == masked bits b p)) [
    | inl e ↦ subst Shared (sym (hit p e)) (shared p e)
    | inr e ↦ subst Shared (sym (miss p e)) (common-same p la lb)
  ]

  pub common_le : (p : ℕ) → common bits a b p ≤ p - 1
  unfolding common
  common_le zero = omega arith
  common_le (suc p) = elim (Bool-cases (masked bits a p == masked bits b p)) [
    | inl e ↦ omega (arith, hit p e)
    | inr e ↦ omega (arith, miss p e, common_le p)
  ]

  -- It is the longest.
  pub common_longest : (p k : ℕ) → k < p → Shared k → k ≤ common bits a b p
  common_longest zero k lt e = omega (arith, lt)
  common_longest (suc p) k lt e = elim (Bool-cases (masked bits a p == masked bits b p)) [
    | inl t ↦ omega (arith, lt, hit p t)
    | inr f ↦ elim (Bool-cases (k == p)) [
      | inl same ↦
          let there = subst Shared ((==_iff k p).0 same) e in
          let t = (==_iff (masked bits a p) (masked bits b p)).1 there in absurd (cc (t, f))
      | inr other ↦
          let less : k < p = ground (arith, lt, other) in
          let ih = common_longest p k less e in omega (arith, ih, miss p f)
    ]
  ]

  -- Below it, the two addresses differ.
  pub common_parts :
      (p : ℕ)
      → 0 < p
      → masked bits a p ≢ masked bits b p
      → masked bits a (suc (common bits a b p)) ≢ masked bits b (suc (common bits a b p))
  common_parts p pos ne e = elim (Bool-cases (suc (common bits a b p) == p)) [
    | inl last ↦ ne (subst Shared ((==_iff (suc (common bits a b p)) p).0 last) e)
    | inr other ↦
        let le = common_le p in
        let below : suc (common bits a b p) < p = ground (arith, le, pos, other) in
        let more = common_longest p (suc (common bits a b p)) below e in omega (arith, more)
  ]
