-- ===== src/Pass2/Nets/Smallest.antt =====
-- `setupIPNetRelation` on networks that share no address and mask.
use mathlib.Core.List.{Memᴰ, Permᴰ}
use mathlib.Core.List.Memᴰ.{head, tail}
use netspoc.Prelude.{
  ℕ, ◌≤◌, ◌<◌, ◌≡◌, ◌≢◌, inl, inr, refl, sym, ap, ◌∙◌, subst, Option, none, some, List, [], ◌∷◌,
  map, ℕ_discrete, ltb, arith, All, All-Mem, Mem-All,
}
use mathlib.Core.Option.{some-injective}
use netspoc.Prelude.Assoc.{lookup}
use netspoc.Prelude.Sort.{SortSlice, Weak}
use netspoc.Prelude.Count.{Unique, count-Perm, Mem→count, count→Mem}
use netspoc.Pass2.Rules.{IpNet}
use netspoc.Pass2.Nets.{
  masked, MaskIpMap, ip_map, collect_networks, net_at, find_up, link_masks, opt_masks, or_opt,
  opt_above, relate,
}
use netspoc.Pass2.Nets.Maps.{
  collect_sound, collect_complete, collect_networks-Proper, net_at→Mem, Mem→net_at, masks-Unique,
  net_at-mask,
}
use netspoc.Pass2.Nets.Above.{longer, Best, find_up-Best, link_masks-here, link_masks-field}
use netspoc.Pass2.Nets.Opt.{opt_masks-field, opt_masks-here}

All-map :
    {A B : Type 0} (P : B → Type 0) (f : A → B) (xs : List A)
    → All (λ x. P (f x)) xs
    → All P (map f xs)
All-map P f [] h = tt
All-map P f (x ∷ xs) h = (h.0, All-map P f xs h.1)

Mem-map : {A B : Type 0} (f : A → B) (x : A) (xs : List A) → Memᴰ x xs → Memᴰ (f x) (map f xs)
Mem-map f x [] n = elim n [ ]
Mem-map f x (y ∷ ys) (head e) = head (ap f e)
Mem-map f x (y ∷ ys) (tail n) = tail (Mem-map f x ys n)

or_opt-none : (o : Option ℕ) → or_opt o none ≡ o
unfolding or_opt
or_opt-none none = refl
or_opt-none (some q) = refl

module _ (bits : ℕ) (ps : List ℕ) (net : ℕ → IpNet) where
  -- Network `r` contains network `p`.
  abbrev pub Contains : ℕ → ℕ → Type 0
  Contains r p = masked bits (net p).ip (net r).prefix ≡ (net r).ip

  -- The network above `p` is the smallest one that is larger and contains it.
  abbrev pub SmallestNet : ℕ → Option ℕ → Type 0
  SmallestNet p none = (r : ℕ) → Memᴰ r ps → (net r).prefix < (net p).prefix → Contains r p → ⊥
  SmallestNet p (some q) =
      Memᴰ q ps
      × ((net q).prefix < (net p).prefix)
      × Contains q p
      × ((r : ℕ)
          → Memᴰ r ps
          → (net r).prefix < (net p).prefix
          → Contains r p
          → (net r).prefix ≤ (net q).prefix)

  abbrev maps : MaskIpMap
  maps = collect_networks net ps []

  sound :
      (mask ip q : ℕ)
      → net_at maps mask ip ≡ some q
      → Memᴰ q ps × ((net q).prefix ≡ mask) × ((net q).ip ≡ ip)
  sound mask ip q e = elim (collect_sound net ps [] mask ip q e) [ inl h ↦ h | inr f ↦ cc ]

  entry :
      (mask ip q : ℕ)
      → Memᴰ (ip, q) (ip_map (lookup ℕ_discrete mask maps))
      → ((net q).prefix ≡ mask) × ((net q).ip ≡ ip)
  entry mask ip q n =
      let h =
        sound mask ip q (Mem→net_at net maps mask ip q (collect_networks-Proper net ps [] tt) n) in
      (h.1, h.2)

  module _ (std : SortSlice ℕ)
      (alone : (p q : ℕ)
        → Memᴰ p ps
        → Memᴰ q ps
        → (net q).prefix ≡ (net p).prefix
        → (net q).ip ≡ (net p).ip
        → q ≡ p) where
    complete : (p : ℕ) → Memᴰ p ps → net_at maps (net p).prefix (net p).ip ≡ some p
    complete p n = collect_complete net p ps [] (λ q k. alone p q n k) (inl n)

    abbrev masks : List ℕ
    masks = std.sort longer (map (λ e. e.0) maps)

    abbrev upwards : List ℕ
    upwards = std.sort ltb masks

    perm : Permᴰ masks (map (λ e. e.0) maps)
    perm = std.sort-Perm longer (map (λ e. e.0) maps)

    perm_up : Permᴰ upwards masks
    perm_up = std.sort-Perm ltb masks

    masks_once : Unique masks
    masks_once r =
        omega
          (arith, masks-Unique net maps (collect_networks-Proper net ps [] tt) r, count-Perm r perm)

    upwards_once : Unique upwards
    upwards_once r = omega (arith, masks_once r, count-Perm r perm_up)

    longer-Weak : Weak longer
    longer-Weak = (λ a b e. ground arith, λ a b c e f. ground arith)

    ltb-Weak : Weak ltb
    ltb-Weak = (λ a b e. ground arith, λ a b c e f. ground arith)

    mask_there : (p : ℕ) → Memᴰ p ps → Memᴰ (net p).prefix masks
    mask_there p n =
        let k = net_at-mask maps (net p).prefix (net p).ip p (complete p n) in
        count→Mem (net p).prefix masks (
          omega (
            arith,
            Mem→count (net p).prefix (map (λ e. e.0) maps) k,
            count-Perm (net p).prefix perm,
          ))

    mask_upwards : (p : ℕ) → Memᴰ p ps → Memᴰ (net p).prefix upwards
    mask_upwards p n = count→Mem (net p).prefix upwards (
        omega (
          arith,
          Mem→count (net p).prefix masks (mask_there p n),
          count-Perm (net p).prefix perm_up,
        ))

    Best-Smallest :
        (p : ℕ) (upper : List ℕ) (o : Option ℕ)
        → All (λ u. u < (net p).prefix) upper
        → ((u : ℕ) → Memᴰ u masks → u < (net p).prefix → Memᴰ u upper)
        → Best maps bits (net p).ip upper o
        → SmallestNet p o
    Best-Smallest p upper none below all best = λ r n lt c.
        let at = best (net r).prefix (all (net r).prefix (mask_there r n) lt) in
        let clash = sym (complete r n) ∙ sym (ap (net_at maps (net r).prefix) c) ∙ at in cc
    Best-Smallest p upper (some q) below all (u, n, at, most) =
        let (member, prefix, ip) = sound u (masked bits (net p).ip u) q at in
        (
          member,
          (let lt = All-Mem (λ u. u < (net p).prefix) upper u below n in omega (arith, prefix)),
          ap (masked bits (net p).ip) prefix ∙ sym ip,
          λ r k lt c.
              let le =
                most (net r).prefix r (all (net r).prefix (mask_there r k) lt)
                  (ap (net_at maps (net r).prefix) c ∙ complete r k) in
              omega (arith, prefix),
        )

    linked :
        (p : ℕ)
        → Memᴰ p ps
        → (net p).bits ≡ bits
        → (net p).up ≡ none
        → SmallestNet p (link_masks maps masks net p).up
    linked p n b fresh =
        let only = λ (mask : ℕ).
          Mem-All (λ (e : ℕ × ℕ). e.1 ≡ p → (e.0 ≡ (net p).ip) × (mask ≡ (net p).prefix))
            (ip_map (lookup ℕ_discrete mask maps))
            (λ e k f.
              let h = entry mask e.0 e.1 k in
              (sym h.1 ∙ ap (λ x. (net x).ip) f, sym h.0 ∙ ap (λ x. (net x).prefix) f)) in
        let (upper, below, all, sorted, e) =
          link_masks-here maps p (net p).ip (net p).prefix bits none only
            (net_at→Mem maps (net p).prefix (net p).ip p (complete p n)) masks net (mask_there p n)
            (std.sort-Sorted longer (map (λ e. e.0) maps) longer-Weak) masks_once b fresh in
        let found = find_up maps bits (net p).ip upper in
        subst (SmallestNet p) (sym (e ∙ or_opt-none found))
          (Best-Smallest p upper found below all (find_up-Best maps bits (net p).ip upper sorted))

    below_only :
        (p up : ℕ) (o : Option ℕ) → o ≡ some up → SmallestNet p o → (net up).prefix < (net p).prefix
    below_only p up none e h = cc
    below_only p up (some q) e h =
        let same : q ≡ up = some-injective q up e in
        let lt = h.1 in omega (arith, ap (λ x. (net x).prefix) same)

    outside :
        (mask q : ℕ)
        → mask ≢ (net q).prefix
        → All (λ y. y ≢ q) (map (λ e. e.1) (ip_map (lookup ℕ_discrete mask maps)))
    outside mask q ne =
        All-map (λ y. y ≢ q) (λ (e : ℕ × ℕ). e.1) (ip_map (lookup ℕ_discrete mask maps))
          (Mem-All (λ (e : ℕ × ℕ). e.1 ≢ q) (ip_map (lookup ℕ_discrete mask maps))
            (λ e k f. ne (sym (entry mask e.0 e.1 k).0 ∙ ap (λ x. (net x).prefix) f)))

    -- If no two networks of the map have the same address and mask, all have addresses of the same
    -- length, and none is linked yet, then each network is linked with the smallest larger one
    -- that contains it, or with none if there is none; and its optimisation network is in the end
    -- that of the network above it, or its own if that has none.
    pub relate-Smallest :
        ((p : ℕ) → Memᴰ p ps → (net p).bits ≡ bits)
        → ((p : ℕ) → Memᴰ p ps → (net p).up ≡ none)
        → (p : ℕ) → Memᴰ p ps
        → let net' = relate std ps net in
          SmallestNet p (net' p).up
          × ((net' p).opt_networks ≡ or_opt (opt_above net' (net' p).up) (net p).opt_networks)
    unfolding relate
    relate-Smallest same fresh p n =
        let between = link_masks maps masks net in
        let final = opt_masks maps upwards between in
        let up_same : (final p).up ≡ (between p).up =
          opt_masks-field (λ n. n.up) (λ n o. refl) maps upwards between p in
        let found = linked p n (same p n) (fresh p n) in
        (
          subst (SmallestNet p) (sym up_same) found,
          opt_masks-here p (between p).up (net p).opt_networks maps (net p).prefix
                (Mem-map (λ (e : ℕ × ℕ). e.1) ((net p).ip, p)
                  (ip_map (lookup ℕ_discrete (net p).prefix maps))
                  (net_at→Mem maps (net p).prefix (net p).ip p (complete p n)))
                (λ mask ne. outside mask p ne)
                (λ mask q le e.
                  outside mask q
                    (λ f. let lt = below_only p q (between p).up e found in omega (arith, f)))
                upwards between (mask_upwards p n) (std.sort-Sorted ltb masks ltb-Weak) upwards_once
                refl (link_masks-field (λ n. n.opt_networks) (λ n o. refl) maps masks net p)
              ∙ ap (λ u. or_opt (opt_above final u) (net p).opt_networks) (sym up_same),
        )
