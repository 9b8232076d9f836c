-- ===== src/Pass2/Nets/Maps.antt =====
-- `maskIPMap` as a map from a mask and an address to a network.
use mathlib.Core.List.{Memᴰ}
use mathlib.Core.List.Memᴰ.{head, tail}
use mathlib.Core.Option.{some-injective}
use netspoc.Prelude.{
  ℕ, ◌≡◌, ◌≢◌, ◌⊎◌, inl, inr, refl, sym, ap, ◌∙◌, subst, none, some, List, [], ◌∷◌, ℕ_discrete,
  arith, map, Option-cases, Bool-cases, ◌==◌, ==_iff,
}
use mathlib.Core.Logic.{if_pos, if_neg}
use netspoc.Prelude.Count.{count, Unique}
use netspoc.Prelude.Assoc.{lookup, lookup-alter_self, lookup-alter_ne, Good, alter-Good, lookup-Mem}
use netspoc.Pass2.Rules.{IpNet}
use netspoc.Pass2.Nets.{MaskIpMap, ip_map, put_ip, put_net, collect_networks, net_at}

net_at_same : (n : IpNet) (p : ℕ) (m : MaskIpMap) → net_at (put_net n p m) n.prefix n.ip ≡ some p
net_at_same n p m =
    ap (λ o. lookup ℕ_discrete n.ip (ip_map o))
      (lookup-alter_self ℕ_discrete n.prefix (λ o. put_ip n.ip p (ip_map o)) m)
    ∙ lookup-alter_self ℕ_discrete n.ip (λ o. p) (ip_map (lookup ℕ_discrete n.prefix m))

net_at_mask :
    (n : IpNet) (p : ℕ) (m : MaskIpMap) (mask ip : ℕ)
    → n.prefix ≢ mask
    → net_at (put_net n p m) mask ip ≡ net_at m mask ip
net_at_mask n p m mask ip ne =
    ap (λ o. lookup ℕ_discrete ip (ip_map o))
      (lookup-alter_ne ℕ_discrete n.prefix mask (λ o. put_ip n.ip p (ip_map o)) m ne)

net_at_ip :
    (n : IpNet) (p : ℕ) (m : MaskIpMap) (ip : ℕ)
    → n.ip ≢ ip
    → net_at (put_net n p m) n.prefix ip ≡ net_at m n.prefix ip
net_at_ip n p m ip ne =
    ap (λ o. lookup ℕ_discrete ip (ip_map o))
      (lookup-alter_self ℕ_discrete n.prefix (λ o. put_ip n.ip p (ip_map o)) m)
    ∙ lookup-alter_ne ℕ_discrete n.ip ip (λ o. p) (ip_map (lookup ℕ_discrete n.prefix m)) ne

-- The entry that is put in, or an old one.
put-cases :
    (n : IpNet) (p : ℕ) (m : MaskIpMap) (mask ip : ℕ)
    → ((n.prefix ≡ mask) × (n.ip ≡ ip)) ⊎ (net_at (put_net n p m) mask ip ≡ net_at m mask ip)
put-cases n p m mask ip = elim (ℕ_discrete n.prefix mask) [
  | no ne ↦ inr (net_at_mask n p m mask ip ne)
  | yes e ↦ elim (ℕ_discrete n.ip ip) [
    | yes f ↦ inl (e, f)
    | no ne ↦
        inr (subst (λ k. net_at (put_net n p m) k ip ≡ net_at m k ip) e (net_at_ip n p m ip ne))
  ]
]

-- The entry of a network with these, or the old one.
put_at :
    (n : IpNet) (p : ℕ) (m : MaskIpMap) (mask ip : ℕ)
    → n.prefix ≡ mask
    → n.ip ≡ ip
    → net_at (put_net n p m) mask ip ≡ some p
put_at n p m mask ip e f =
    subst (λ i. net_at (put_net n p m) mask i ≡ some p) f
      (subst (λ k. net_at (put_net n p m) k n.ip ≡ some p) e (net_at_same n p m))

module _ (net : ℕ → IpNet) where
  pub collect_sound :
      (ps : List ℕ) (m : MaskIpMap) (mask ip q : ℕ)
      → net_at (collect_networks net ps m) mask ip ≡ some q
      → (Memᴰ q ps × ((net q).prefix ≡ mask) × ((net q).ip ≡ ip)) ⊎ (net_at m mask ip ≡ some q)
  unfolding collect_networks
  collect_sound [] m mask ip q e = inr e
  collect_sound (p ∷ ps) m mask ip q e = elim (collect_sound ps (put_net (net p) p m) mask ip q e) [
    | inl (n, f, g) ↦ inl (tail n, f, g)
    | inr f ↦ elim (put-cases (net p) p m mask ip) [
      | inr g ↦ inr (sym g ∙ f)
      | inl (g, h) ↦
          let same : p ≡ q = some-injective p q (sym (put_at (net p) p m mask ip g h) ∙ f) in
          inl (
            head (sym same),
            ap (λ x. (net x).prefix) (sym same) ∙ g,
            ap (λ x. (net x).ip) (sym same) ∙ h,
          )
    ]
  ]

  pub collect_complete :
      (p : ℕ) (ps : List ℕ) (m : MaskIpMap)
      → ((q : ℕ) → Memᴰ q ps → (net q).prefix ≡ (net p).prefix → (net q).ip ≡ (net p).ip → q ≡ p)
      → Memᴰ p ps ⊎ (net_at m (net p).prefix (net p).ip ≡ some p)
      → net_at (collect_networks net ps m) (net p).prefix (net p).ip ≡ some p
  unfolding collect_networks
  collect_complete p [] m only (inl n) = elim n [ ]
  collect_complete p [] m only (inr e) = e
  collect_complete p (x ∷ ps) m only (inl (head e)) =
      collect_complete p ps (put_net (net x) x m) (λ q n. only q (tail n))
        (inr (
          put_at (net x) x m (net p).prefix (net p).ip (ap (λ z. (net z).prefix) (sym e))
            (ap (λ z. (net z).ip) (sym e))
          ∙ ap (λ z. some z) (sym e)))
  collect_complete p (x ∷ ps) m only (inl (tail n)) =
      collect_complete p ps (put_net (net x) x m) (λ q k. only q (tail k)) (inl n)
  collect_complete p (x ∷ ps) m only (inr e) =
      collect_complete p ps (put_net (net x) x m) (λ q k. only q (tail k))
        (inr (elim (put-cases (net x) x m (net p).prefix (net p).ip) [
          | inr g ↦ g ∙ e
          | inl (g, h) ↦
              put_at (net x) x m (net p).prefix (net p).ip g h
              ∙ ap (λ z. some z) (only x (head refl) g h)
        ]))

  -- Masks stand once, and under each the addresses.
  abbrev pub Proper : MaskIpMap → Type 0
  Proper = Good ℕ_discrete (Good ℕ_discrete (λ (p : ℕ). Unit))

  pub collect_networks-Proper :
      (ps : List ℕ) (m : MaskIpMap) → Proper m → Proper (collect_networks net ps m)
  unfolding collect_networks
  collect_networks-Proper [] m g = g
  collect_networks-Proper (p ∷ ps) m g = collect_networks-Proper ps (put_net (net p) p m) (
      alter-Good ℕ_discrete (Good ℕ_discrete (λ (p : ℕ). Unit)) (net p).prefix
        (λ o. put_ip (net p).ip p (ip_map o)) m
        (alter-Good ℕ_discrete (λ (p : ℕ). Unit) (net p).ip (λ o. p) [] tt (λ v u. tt) tt)
        (λ v h. alter-Good ℕ_discrete (λ (p : ℕ). Unit) (net p).ip (λ o. p) v tt (λ w u. tt) h) g)

lookup→Mem :
    {V : Type 0} (k : ℕ) (v : V) (m : List (ℕ × V)) → lookup ℕ_discrete k m ≡ some v → Memᴰ (k, v) m
lookup→Mem k v [] e = cc
lookup→Mem k v ((j, w) ∷ m) e = elim (ℕ_discrete j k) [
  | yes f ↦
      let g : w ≡ v = some-injective w v (sym (if_pos (ℕ_discrete j k) f _ _) ∙ e) in
      head (sym (ap (λ i. (i, w)) f ∙ ap (λ x. (k, x)) g))
  | no f ↦ tail (lookup→Mem k v m (sym (if_neg (ℕ_discrete j k) f _ _) ∙ e))
]

pub net_at→Mem :
    (m : MaskIpMap) (mask ip q : ℕ)
    → net_at m mask ip ≡ some q
    → Memᴰ (ip, q) (ip_map (lookup ℕ_discrete mask m))
net_at→Mem m mask ip q e = lookup→Mem ip q (ip_map (lookup ℕ_discrete mask m)) e

module _ (net : ℕ → IpNet) where
  pub Mem→net_at :
      (m : MaskIpMap) (mask ip q : ℕ)
      → Proper net m
      → Memᴰ (ip, q) (ip_map (lookup ℕ_discrete mask m))
      → net_at m mask ip ≡ some q
  Mem→net_at m mask ip q g n = elim (Option-cases (lookup ℕ_discrete mask m)) [
    | inl e ↦ elim (subst (λ o. Memᴰ (ip, q) (ip_map o)) e n) [ ]
    | inr (v, e) ↦
        let good =
          (lookup-Mem ℕ_discrete (Good ℕ_discrete (λ (p : ℕ). Unit)) mask v m g
            (lookup→Mem mask v m e)).1 in
        ap (λ o. lookup ℕ_discrete ip (ip_map o)) e
        ∙ (lookup-Mem ℕ_discrete (λ (p : ℕ). Unit) ip q v good
            (subst (λ o. Memᴰ (ip, q) (ip_map o)) e n)).0
  ]

  absent : (k : ℕ) (m : MaskIpMap) → lookup ℕ_discrete k m ≡ none → count k (map (λ e. e.0) m) ≡ 0
  absent k [] e = refl
  absent k ((j, v) ∷ m) e = elim (ℕ_discrete j k) [
    | yes f ↦ let g = sym (if_pos (ℕ_discrete j k) f (some v) (lookup ℕ_discrete k m)) ∙ e in cc
    | no f ↦
        let rest =
          absent k m (sym (if_neg (ℕ_discrete j k) f (some v) (lookup ℕ_discrete k m)) ∙ e) in
        ground (arith, ==_iff j k)
  ]

  pub masks-Unique : (m : MaskIpMap) → Proper net m → Unique (map (λ e. e.0) m)
  masks-Unique [] g r = omega arith
  masks-Unique ((k, v) ∷ m) g r =
      let rest = masks-Unique m g.2 r in
      let none_k = absent k m g.0 in
      elim (Bool-cases (k == r)) [
        | inl e ↦
            let same = ap (λ x. count x (map (λ e. e.0) m)) ((==_iff k r).0 e) in ground (arith)
        | inr e ↦ ground (arith)
      ]

keys :
    (mask : ℕ) (v : List (ℕ × ℕ)) (m : MaskIpMap) → Memᴰ (mask, v) m → Memᴰ mask (map (λ e. e.0) m)
keys mask v [] n = elim n [ ]
keys mask v (e ∷ m) (head f) = head (ap (λ p. p.0) f)
keys mask v (e ∷ m) (tail n) = tail (keys mask v m n)

pub net_at-mask :
    (m : MaskIpMap) (mask ip q : ℕ) → net_at m mask ip ≡ some q → Memᴰ mask (map (λ e. e.0) m)
net_at-mask m mask ip q e = elim (Option-cases (lookup ℕ_discrete mask m)) [
  | inl f ↦ let g = sym (ap (λ o. lookup ℕ_discrete ip (ip_map o)) f) ∙ e in cc
  | inr (v, f) ↦ keys mask v m (lookup→Mem mask v m f)
]
