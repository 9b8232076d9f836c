-- ===== src/Adjacent/Whole.antt =====
-- `combineSubnets` as a whole: the addresses of the list.
use mathlib.Core.Option.{some-injective}
use netspoc.Prelude.{
  ℕ, suc, ◌+◌, ◌<◌, ◌≡◌, inl, inr, refl, sym, ap, ◌∙◌, Bool, ◌&&◌, ◌||◌, some, List, [], ◌∷◌, ◌++◌,
  map, ◌==◌, Bool-cases, arith, any, any-append, any→Mem, Mem→any,
}
use netspoc.Pass2.Nets.{masked}
use netspoc.Pass2.Bintree.Masks.{half, in_halves}
use netspoc.Adjacent.{
  UpObj, UpObj.up_network, UpObj.up_subnet, UpObj.up_other, HostSubnet, HostObj, HostObj.subnet,
  HostObj.network, HostObj.other, related, find_subnets, keys_of, Combining, left_subnets,
  combine_found, combine_subnets, sum_prefixes,
}
use netspoc.Adjacent.Keys.{
  swap', assoc', both_ways, or_false, or_left, or_right, and_parts, and_true, Mem-keys, keys-Mem,
}
use netspoc.Adjacent.Cover.{Keeps}
use netspoc.Adjacent.Pass.{UpOk, NeighborsOk, combine_rounds-Keeps}

module _ (bits : ℕ) (store : ℕ → HostSubnet) (net : ℕ → ℕ × ℕ) (other_has : ℕ → ℕ → Bool) where
  abbrev pub subnet_has : ℕ → ℕ → Bool
  subnet_has a s = masked bits a (store s).prefix == (store s).ip

  abbrev pub network_has : ℕ → ℕ → Bool
  network_has a x = masked bits a (net x).1 == (net x).0

  -- The addresses of an object; those of other objects are a parameter.
  unfoldable pub obj_has : ℕ → HostObj → Bool
  obj_has a (subnet s) = subnet_has a s
  obj_has a (network x) = network_has a x
  obj_has a (other x) = other_has x a

  abbrev pub Above : ℕ → ℕ → UpObj → Type 0
  Above ip p (up_network x) = ((net x).0 ≡ ip) × ((net x).1 ≡ p)
  Above ip p (up_subnet x) = ((store x).ip ≡ ip) × ((store x).prefix ≡ p)
  Above ip p up_other = ⊥

  -- The left part `s` and the right part `n` of what is `up` of `s`.
  pub record Halved (s n : ℕ) : Type 0 where
    pub p : ℕ
    pub left_prefix : (store s).prefix ≡ suc p
    pub right_prefix : (store n).prefix ≡ suc p
    pub long : p < bits
    pub start : masked bits (store s).ip p ≡ (store s).ip
    pub right_ip : (store n).ip ≡ (store s).ip + half bits p
    pub up : Above (store s).ip p (store s).up

  module _ (ok : (s n : ℕ) → (store s).neighbor ≡ some n → Halved s n) (a : ℕ) where
    abbrev has_objs : List HostObj → Bool
    has_objs = any (obj_has a)

    pair_has :
        (s n : ℕ) (h : Halved s n)
        → (masked bits a h.p == (store s).ip) ≡ (subnet_has a s || subnet_has a n)
    pair_has s n h =
        in_halves bits h.p h.long (store s).ip h.start a
        ∙ ap
            (λ k.
              masked bits a k == (store s).ip
              || masked bits a (suc h.p) == (store s).ip + half bits h.p)
            (sym h.left_prefix)
        ∙ ap (λ k. subnet_has a s || masked bits a k == (store s).ip + half bits h.p)
            (sym h.right_prefix)
        ∙ ap (λ k. subnet_has a s || masked bits a (store n).prefix == k) (sym h.right_ip)

    up-UpOk :
        (cov : Bool) (s n : ℕ) (h : Halved s n) (u : UpObj)
        → Above (store s).ip h.p u
        → UpOk store (subnet_has a) (network_has a) cov s n u
    up-UpOk cov s n h (up_network x) e =
        ap (λ k. masked bits a k == (net x).0) e.1
        ∙ ap (λ k. masked bits a h.p == k) e.0
        ∙ pair_has s n h
    up-UpOk cov s n h (up_subnet x) e =
        let lp = h.left_prefix in
        (
          ap (λ k. masked bits a k == (store x).ip) e.1
              ∙ ap (λ k. masked bits a h.p == k) e.0
              ∙ pair_has s n h,
          omega (arith, e.1, lp),
        )
    up-UpOk cov s n h up_other e = elim e [ ]

    find_subnets-has :
        (objs : List HostObj)
        → has_objs objs
          ≡ (has_objs (find_subnets store objs).0 || any (subnet_has a) (find_subnets store objs).1)
    unfolding find_subnets obj_has
    find_subnets-has [] = refl
    find_subnets-has (subnet p ∷ objs) =
        let ih = find_subnets-has objs in
        elim (Bool-cases (related (store p))) [
          | inl e ↦
              rw (e, find_subnets, ih)
                (swap' (subnet_has a p) (has_objs (find_subnets store objs).0)
                  (any (subnet_has a) (find_subnets store objs).1))
          | inr e ↦
              rw (e, find_subnets, ih)
                (assoc' (subnet_has a p) (has_objs (find_subnets store objs).0)
                  (any (subnet_has a) (find_subnets store objs).1))
        ]
    find_subnets-has (network p ∷ objs) =
        ap (λ k. network_has a p || k) (find_subnets-has objs)
        ∙ assoc' (network_has a p) (has_objs (find_subnets store objs).0)
            (any (subnet_has a) (find_subnets store objs).1)
    find_subnets-has (other p ∷ objs) =
        ap (λ k. other_has p a || k) (find_subnets-has objs)
        ∙ assoc' (other_has p a) (has_objs (find_subnets store objs).0)
            (any (subnet_has a) (find_subnets store objs).1)

    -- At the start all subnets are in use.
    start-Keeps :
        (slots : List ℕ)
        → Keeps (subnet_has a) (network_has a) (any (subnet_has a) slots) slots (keys_of slots) []
    start-Keeps slots = record {
      into = λ h. elim h [
        | inl (p, k, e, f) ↦ Mem→any (subnet_has a) slots p k f
        | inr e ↦ absurd (cc e)
      ];
      back =
          λ e. let (p, k, f) = any→Mem (subnet_has a) slots e in inl (p, k, Mem-keys p slots k, f);
      stale = λ p k f. Mem→any (subnet_has a) slots p k f;
      keys = λ p e. keys-Mem p slots e;
    }

    left_has :
        (m : ℕ → Bool) (slots : List ℕ)
        → has_objs (left_subnets m slots) ≡ any (λ s. m s && subnet_has a s) slots
    unfolding obj_has
    left_has m [] = refl
    left_has m (s ∷ ss) =
        let ih = left_has m ss in
        elim (Bool-cases (m s)) [ inl e ↦ rw (e, ih) refl | inr e ↦ rw (e, ih) refl ]

    nets_has : (xs : List ℕ) → has_objs (map network xs) ≡ any (network_has a) xs
    unfolding obj_has
    nets_has [] = refl
    nets_has (x ∷ xs) = ap (λ k. network_has a x || k) (nets_has xs)

    end_has :
        (cov : Bool) (c : Combining)
        → Keeps (subnet_has a) (network_has a) cov c.subnets c.m c.networks
        → (any (λ s. c.m s && subnet_has a s) c.subnets || any (network_has a) c.networks) ≡ cov
    end_has cov c k =
        both_ways (any (λ s. c.m s && subnet_has a s) c.subnets || any (network_has a) c.networks)
          cov
          (λ e. elim (Bool-cases (any (network_has a) c.networks)) [
            | inl f ↦ k.into (inr f)
            | inr f ↦
                let g =
                  or_false (any (λ s. c.m s && subnet_has a s) c.subnets)
                    (any (network_has a) c.networks) f e in
                let (p, q, r) = any→Mem (λ s. c.m s && subnet_has a s) c.subnets g in
                let (u, v) = and_parts (c.m p) (subnet_has a p) r in k.into (inl (p, q, u, v))
          ])
          (λ e. elim (k.back e) [
            | inl (p, q, u, v) ↦
                or_left (any (λ s. c.m s && subnet_has a s) c.subnets)
                  (any (network_has a) c.networks)
                  (Mem→any (λ s. c.m s && subnet_has a s) c.subnets p q
                    (and_true (c.m p) (subnet_has a p) u v))
            | inr f ↦
                or_right (any (λ s. c.m s && subnet_has a s) c.subnets)
                  (any (network_has a) c.networks) f
          ])

    neighbors-NeighborsOk : (cov : Bool) → NeighborsOk store (subnet_has a) (network_has a) cov
    neighbors-NeighborsOk cov s n e = let h = ok s n e in up-UpOk cov s n h (store s).up h.up

    combine_found-has :
        (others : List HostObj) (slots : List ℕ)
        → (out : List HostObj) × (combine_found store others slots ≡ some out)
          × (has_objs out ≡ (has_objs others || any (subnet_has a) slots))
    unfolding combine_found
    combine_found-has others [] = (others, refl, ground arith)
    combine_found-has others (s ∷ ss) =
        let slots = s ∷ ss in
        let cov = any (subnet_has a) slots in
        let (c, ran, k) =
          combine_rounds-Keeps store (subnet_has a) (network_has a) cov (neighbors-NeighborsOk cov)
            (suc (sum_prefixes store slots)) slots (keys_of slots) [] (start-Keeps slots)
            (omega arith) in
        let left = left_subnets c.m c.subnets in
        let nets = map network c.networks in
        (
          others ++ (left ++ nets),
          rw (ran, combine_found) refl,
          any-append (obj_has a) others (left ++ nets)
              ∙ ap (λ k. has_objs others || k)
                  (any-append (obj_has a) left nets
                    ∙ ap (λ k. k || has_objs nets) (left_has c.m c.subnets)
                    ∙ ap (λ k. any (λ s. c.m s && subnet_has a s) c.subnets || k)
                        (nets_has c.networks)
                    ∙ end_has cov c k),
        )

    combine_subnets_at :
        (objs : List HostObj)
        → (out : List HostObj) × (combine_subnets store objs ≡ some out)
          × (has_objs out ≡ has_objs objs)
    unfolding combine_subnets
    combine_subnets_at objs =
        let (out, ran, e) =
          combine_found-has (find_subnets store objs).0 (find_subnets store objs).1 in
        (out, ran, e ∙ sym (find_subnets-has objs))

  -- Where each subnet that has a neighbor is the left half of its `up`, which is a subnet or a network,
  -- and the neighbor is the right half, `combineSubnets` ends, and the list that it returns has exactly
  -- the addresses of the list that it was given.
  pub combine_subnets-has :
      ((s n : ℕ) → (store s).neighbor ≡ some n → Halved s n)
      → (objs : List HostObj)
      → (out : List HostObj) × (combine_subnets store objs ≡ some out)
        × ((a : ℕ) → any (obj_has a) out ≡ any (obj_has a) objs)
  combine_subnets-has ok objs =
      let (out, ran, e) = combine_subnets_at ok 0 objs in
      (
        out,
        ran,
        λ a.
            let (out', ran', e') = combine_subnets_at ok a objs in
            ap (any (obj_has a)) (some-injective out out' (sym ran ∙ ran')) ∙ e',
      )
