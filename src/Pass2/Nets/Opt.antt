-- ===== src/Pass2/Nets/Opt.antt =====
-- How `optNetworks` comes down from the networks above.
use mathlib.Core.List.{Memᴰ}
use mathlib.Core.List.Memᴰ.{head, tail}
use netspoc.Prelude.{
  ℕ, ◌≤◌, ◌<◌, ◌≡◌, ◌≢◌, ◌⊎◌, inl, inr, refl, sym, ap, ◌∙◌, subst, Option, none, some, List, [],
  ◌∷◌, map, ℕ_discrete, ltb, ◌==◌, ==_iff, ==_refl, false, arith, All, All-Mem, Bool-cases,
}
use netspoc.Prelude.Assoc.{lookup}
use netspoc.Prelude.Sort.{Sorted}
use netspoc.Prelude.Count.{Unique, Mem→count}
use netspoc.Pass2.Rules.{IpNet}
use netspoc.Pass2.Nets.{MaskIpMap, ip_map, or_opt, opt_above, set_opt, opt_nets, opt_masks}
use netspoc.Pass2.Nets.Above.{or_opt-twice}

-- A field that is not written.
module _ {ℓ} {A : Type ℓ} (field : IpNet → A)
    (unset : (n : IpNet) (o : Option ℕ) → field (record n { opt_networks = o }) ≡ field n) where
  set_opt-field : (p : ℕ) (net : ℕ → IpNet) (x : ℕ) → field (set_opt p net x) ≡ field (net x)
  unfolding set_opt
  set_opt-field p net x = elim (Bool-cases (p == x)) [
    | inl e ↦
        let same = (==_iff p x).0 e in
        rw (e, same) (unset (net x) (or_opt (opt_above net (net x).up) (net x).opt_networks))
    | inr e ↦ rw e refl
  ]

  opt_nets-field :
      (ps : List ℕ) (net : ℕ → IpNet) (x : ℕ) → field (opt_nets ps net x) ≡ field (net x)
  unfolding opt_nets
  opt_nets-field [] net x = refl
  opt_nets-field (p ∷ ps) net x = opt_nets-field ps (set_opt p net) x ∙ set_opt-field p net x

  pub opt_masks-field :
      (m : MaskIpMap) (masks : List ℕ) (net : ℕ → IpNet) (x : ℕ)
      → field (opt_masks m masks net x) ≡ field (net x)
  unfolding opt_masks
  opt_masks-field m [] net x = refl
  opt_masks-field m (mask ∷ masks) net x =
      let ps = map (λ e. e.1) (ip_map (lookup ℕ_discrete mask m)) in
      opt_masks-field m masks (opt_nets ps net) x ∙ opt_nets-field ps net x

set_opt-here :
    (p : ℕ) (net : ℕ → IpNet)
    → (set_opt p net p).opt_networks ≡ or_opt (opt_above net (net p).up) (net p).opt_networks
unfolding set_opt
set_opt-here p net = rw (==_refl p) refl

set_opt-other :
    (p : ℕ) (net : ℕ → IpNet) (x : ℕ)
    → p ≢ x
    → (set_opt p net x).opt_networks ≡ (net x).opt_networks
unfolding set_opt
set_opt-other p net x ne = elim (Bool-cases (p == x)) [
  | inl e ↦ absurd (ne ((==_iff p x).0 e))
  | inr e ↦ rw e refl
]

opt_nets-other :
    (ps : List ℕ) (net : ℕ → IpNet) (x : ℕ)
    → All (λ p. p ≢ x) ps
    → (opt_nets ps net x).opt_networks ≡ (net x).opt_networks
unfolding opt_nets
opt_nets-other [] net x h = refl
opt_nets-other (p ∷ ps) net x h =
    opt_nets-other ps (set_opt p net) x h.1 ∙ set_opt-other p net x h.0

-- The value that comes from above is not changed meanwhile.
above-same :
    (up : Option ℕ) (net net' : ℕ → IpNet)
    → ((q : ℕ) → up ≡ some q → (net' q).opt_networks ≡ (net q).opt_networks)
    → opt_above net' up ≡ opt_above net up
unfolding opt_above
above-same none net net' h = refl
above-same (some q) net net' h = h q refl

module _ (p : ℕ) (up old : Option ℕ) where
  opt_nets-here :
      (ps : List ℕ) (net : ℕ → IpNet) (o : Option ℕ)
      → (net p).up ≡ up
      → opt_above net up ≡ o
      → ((q : ℕ) → up ≡ some q → All (λ x. x ≢ q) ps)
      → (Memᴰ p ps × ((net p).opt_networks ≡ old)) ⊎ ((net p).opt_networks ≡ or_opt o old)
      → (opt_nets ps net p).opt_networks ≡ or_opt o old
  unfolding opt_nets
  opt_nets-here [] net o e f free (inl (n, g)) = elim n [ ]
  opt_nets-here [] net o e f free (inr g) = g
  opt_nets-here (x ∷ ps) net o e f free now =
      let e' = set_opt-field (λ n. n.up) (λ n o. refl) x net p ∙ e in
      let f' = above-same up net (set_opt x net) (λ q g. set_opt-other x net q (free q g).0) ∙ f in
      let free' = λ (q : ℕ) (g : up ≡ some q). (free q g).1 in
      elim (ℕ_discrete x p) [
        | yes h ↦
            let again : or_opt o (net p).opt_networks ≡ or_opt o old = elim now [
              | inl (n, g) ↦ ap (or_opt o) g
              | inr g ↦ ap (or_opt o) g ∙ or_opt-twice o old
            ] in
            let value : or_opt (opt_above net (net p).up) (net p).opt_networks ≡ or_opt o old =
              ap (λ u. or_opt (opt_above net u) (net p).opt_networks) e
              ∙ ap (λ a. or_opt a (net p).opt_networks) f
              ∙ again in
            let here : (set_opt x net p).opt_networks ≡ or_opt o old =
              subst (λ z. (set_opt z net p).opt_networks ≡ or_opt o old) (sym h)
                (set_opt-here p net ∙ value) in
            opt_nets-here ps (set_opt x net) o e' f' free' (inr here)
        | no h ↦
            let kept = set_opt-other x net p h in
            opt_nets-here ps (set_opt x net) o e' f' free' (elim now [
              | inl (n, g) ↦ inl (elim n [ head k ↦ absurd (h (sym k)) | tail k ↦ k ], kept ∙ g)
              | inr g ↦ inr (kept ∙ g)
            ])
      ]

  module _ (m : MaskIpMap) (prefix : ℕ) where
    abbrev nets : ℕ → List ℕ
    nets mask = map (λ e. e.1) (ip_map (lookup ℕ_discrete mask m))

    pub opt_masks-other :
        (masks : List ℕ) (net : ℕ → IpNet) (x : ℕ)
        → ((mask : ℕ) → Memᴰ mask masks → All (λ y. y ≢ x) (nets mask))
        → (opt_masks m masks net x).opt_networks ≡ (net x).opt_networks
    unfolding opt_masks
    opt_masks-other [] net x h = refl
    opt_masks-other (mask ∷ masks) net x h =
        opt_masks-other masks (opt_nets (nets mask) net) x (λ u n. h u (tail n))
        ∙ opt_nets-other (nets mask) net x (h mask (head refl))

    -- Where the network stands, and the one above it only under masks that are shorter.
    pub opt_masks-here :
        (here : Memᴰ p (nets prefix))
        → ((mask : ℕ) → mask ≢ prefix → All (λ y. y ≢ p) (nets mask))
        → ((mask q : ℕ) → prefix ≤ mask → up ≡ some q → All (λ y. y ≢ q) (nets mask))
        → (masks : List ℕ) (net : ℕ → IpNet) → Memᴰ prefix masks
        → Sorted ltb masks
        → Unique masks
        → (net p).up ≡ up
        → (net p).opt_networks ≡ old
        → (opt_masks m masks net p).opt_networks ≡ or_opt (opt_above (opt_masks m masks net) up) old
    unfolding opt_masks
    opt_masks-here here only low [] net n sorted unique e f = elim n [ ]
    opt_masks-here here only low (mask ∷ masks) net (head g) sorted unique e f =
        let net' = opt_nets (nets mask) net in
        let later : (u : ℕ) → Memᴰ u masks → prefix < u = λ u n.
          let le = All-Mem (λ y. ltb y mask ≡ false) masks u sorted.0 n in
          let one = Mem→count u masks n in let most = unique u in ground (arith) in
        let stays : opt_above (opt_masks m masks net') up ≡ opt_above net up =
          above-same up net (opt_masks m masks net') (λ q h.
            opt_masks-other masks net' q (λ u n. let lt = later u n in low u q (omega arith) h)
            ∙ opt_nets-other (nets mask) net q (low mask q (omega (arith, g)) h)) in
        opt_masks-other masks net' p (λ u n. let lt = later u n in only u (omega arith))
        ∙ opt_nets-here (nets mask) net (opt_above net up) e refl
            (λ q h. low mask q (omega (arith, g)) h) (inl (subst (λ k. Memᴰ p (nets k)) g here, f))
        ∙ ap (λ o. or_opt o old) (sym stays)
    opt_masks-here here only low (mask ∷ masks) net (tail n) sorted unique e f =
        let one = Mem→count prefix masks n in
        let most = unique prefix in
        let ne : mask ≢ prefix = λ h. absurd (ground (arith, ==_iff mask prefix)) in
        opt_masks-here here only low masks (opt_nets (nets mask) net) n sorted.1
          (λ r. omega (arith, unique r))
          (opt_nets-field (λ n. n.up) (λ n o. refl) (nets mask) net p ∙ e)
          (opt_nets-other (nets mask) net p (only mask ne) ∙ f)
