-- ===== src/Pass2/Nets/Above.antt =====
-- The links that `setupIPNetRelation` sets.
use mathlib.Core.List.{Memᴰ}
use mathlib.Core.List.Memᴰ.{head, tail}
use netspoc.Prelude.{
  ℕ, ◌≤◌, ◌<◌, ◌≡◌, ◌≢◌, ◌⊎◌, inl, inr, refl, sym, ap, ◌∙◌, subst, Bool, false, Option, none, some,
  List, [], ◌∷◌, ℕ_discrete, if◌then◌else◌, ltb, ◌==◌, ==_iff, ==_refl, arith, All, All-Mem,
  Mem-All, Option-cases, Bool-cases,
}
use netspoc.Prelude.Assoc.{lookup}
use netspoc.Prelude.Sort.{Sorted}
use netspoc.Prelude.Count.{Unique, Mem→count}
use netspoc.Pass2.Rules.{IpNet}
use netspoc.Pass2.Nets.{
  masked, MaskIpMap, ip_map, net_at, find_up, set_net_up, link_nets, link_masks, is_empty, or_opt,
}

pub or_opt-twice : (f old : Option ℕ) → or_opt f (or_opt f old) ≡ or_opt f old
unfolding or_opt
or_opt-twice none old = refl
or_opt-twice (some q) old = refl

set_net_up-here :
    (p : ℕ) (o : Option ℕ) (net : ℕ → IpNet) → (set_net_up p o net p).up ≡ or_opt o (net p).up
unfolding set_net_up or_opt
set_net_up-here p none net = refl
set_net_up-here p (some q) net = rw (==_refl p) refl

set_net_up-other :
    (p : ℕ) (o : Option ℕ) (net : ℕ → IpNet) (x : ℕ)
    → p ≢ x
    → (set_net_up p o net x).up ≡ (net x).up
unfolding set_net_up
set_net_up-other p none net x ne = refl
set_net_up-other p (some q) net x ne = elim (Bool-cases (p == x)) [
  | inl e ↦ absurd (ne ((==_iff p x).0 e))
  | inr e ↦ rw e refl
]

-- A field that a link does not write.
module _ {ℓ} {A : Type ℓ} (field : IpNet → A)
    (unlinked : (n : IpNet) (o : Option ℕ) → field (record n { up = o }) ≡ field n) where
  set_net_up-field :
      (p : ℕ) (o : Option ℕ) (net : ℕ → IpNet) (x : ℕ)
      → field (set_net_up p o net x) ≡ field (net x)
  unfolding set_net_up
  set_net_up-field p none net x = refl
  set_net_up-field p (some q) net x = elim (Bool-cases (p == x)) [
    | inl e ↦ let same = (==_iff p x).0 e in rw (e, same) (unlinked (net x) (some q))
    | inr e ↦ rw e refl
  ]

  link_nets-field :
      (m : MaskIpMap) (upper : List ℕ) (es : List (ℕ × ℕ)) (net : ℕ → IpNet) (x : ℕ)
      → field (link_nets m upper es net x) ≡ field (net x)
  unfolding link_nets
  link_nets-field m upper [] net x = refl
  link_nets-field m upper ((ip, p) ∷ es) net x =
      let found = find_up m (net p).bits ip upper in
      link_nets-field m upper es (set_net_up p found net) x ∙ set_net_up-field p found net x

  pub link_masks-field :
      (m : MaskIpMap) (masks : List ℕ) (net : ℕ → IpNet) (x : ℕ)
      → field (link_masks m masks net x) ≡ field (net x)
  unfolding link_masks
  link_masks-field m [] net x = refl
  link_masks-field m (mask ∷ []) net x = refl
  link_masks-field m (mask ∷ (u ∷ us)) net x =
      let es = ip_map (lookup ℕ_discrete mask m) in
      link_masks-field m (u ∷ us) (link_nets m (u ∷ us) es net) x
      ∙ link_nets-field m (u ∷ us) es net x

-- The order of the masks: the longest prefix first.
abbrev pub longer : ℕ → ℕ → Bool
longer i j = ltb j i

module _ (m : MaskIpMap) where
  abbrev entries : ℕ → List (ℕ × ℕ)
  entries mask = ip_map (lookup ℕ_discrete mask m)

  find_up_hit :
      (bits ip u : ℕ) (us : List ℕ) (b : ℕ)
      → net_at m u (masked bits ip u) ≡ some b
      → find_up m bits ip (u ∷ us) ≡ some b
  unfolding find_up
  find_up_hit bits ip u us b e = rw (e, find_up) refl

  find_up_miss :
      (bits ip u : ℕ) (us : List ℕ)
      → net_at m u (masked bits ip u) ≡ none
      → find_up m bits ip (u ∷ us) ≡ find_up m bits ip us
  unfolding find_up
  find_up_miss bits ip u us e = rw (e, find_up) refl

  -- The network at the first of the masks that has one, and none at a longer mask.
  abbrev pub Best : ℕ → ℕ → List ℕ → Option ℕ → Type 0
  Best bits ip upper none = (v : ℕ) → Memᴰ v upper → net_at m v (masked bits ip v) ≡ none
  Best bits ip upper (some q) =
      (u : ℕ) × Memᴰ u upper
      × (net_at m u (masked bits ip u) ≡ some q)
      × ((v r : ℕ) → Memᴰ v upper → net_at m v (masked bits ip v) ≡ some r → v ≤ u)

  Best-tail :
      (bits ip u : ℕ) (us : List ℕ) (o : Option ℕ)
      → net_at m u (masked bits ip u) ≡ none
      → Best bits ip us o
      → Best bits ip (u ∷ us) o
  Best-tail bits ip u us none e b = at_none
    where
      at_none : (v : ℕ) → Memᴰ v (u ∷ us) → net_at m v (masked bits ip v) ≡ none
      at_none v (head f) = rw f e
      at_none v (tail n) = b v n
  Best-tail bits ip u us (some q) e (w, mw, at, most) = (w, tail mw, at, most')
    where
      most' : (v r : ℕ) → Memᴰ v (u ∷ us) → net_at m v (masked bits ip v) ≡ some r → v ≤ w
      most' v r (head f) g =
          let clash = sym (subst (λ x. net_at m x (masked bits ip x) ≡ none) (sym f) e) ∙ g in cc
      most' v r (tail n) g = most v r n g

  pub find_up-Best :
      (bits ip : ℕ) (upper : List ℕ)
      → Sorted longer upper
      → Best bits ip upper (find_up m bits ip upper)
  unfolding find_up
  find_up-Best bits ip [] sorted = λ v n. elim n [ ]
  find_up-Best bits ip (u ∷ us) sorted = elim (Option-cases (net_at m u (masked bits ip u))) [
    | inl e ↦
        subst (Best bits ip (u ∷ us)) (sym (find_up_miss bits ip u us e))
          (Best-tail bits ip u us (find_up m bits ip us) e (find_up-Best bits ip us sorted.1))
    | inr (b, e) ↦
        subst (Best bits ip (u ∷ us)) (sym (find_up_hit bits ip u us b e)) (u, head refl, e, most)
  ]
    where
      most : (v r : ℕ) → Memᴰ v (u ∷ us) → net_at m v (masked bits ip v) ≡ some r → v ≤ u
      most v r (head f) g = omega (arith, f)
      most v r (tail n) g =
          let le = All-Mem (λ y. longer y u ≡ false) us v sorted.0 n in ground arith

  link_nets-other :
      (upper : List ℕ) (es : List (ℕ × ℕ)) (net : ℕ → IpNet) (x : ℕ)
      → All (λ (e : ℕ × ℕ). e.1 ≢ x) es
      → (link_nets m upper es net x).up ≡ (net x).up
  unfolding link_nets
  link_nets-other upper [] net x h = refl
  link_nets-other upper ((ip, p) ∷ es) net x h =
      let found = find_up m (net p).bits ip upper in
      link_nets-other upper es (set_net_up p found net) x h.1 ∙ set_net_up-other p found net x h.0

  module _ (p ip prefix bits : ℕ) (old : Option ℕ) where
    link_nets-here :
        (upper : List ℕ) (es : List (ℕ × ℕ)) (net : ℕ → IpNet)
        → (net p).bits ≡ bits
        → All (λ (e : ℕ × ℕ). e.1 ≡ p → e.0 ≡ ip) es
        → (Memᴰ (ip, p) es × ((net p).up ≡ old))
          ⊎ ((net p).up ≡ or_opt (find_up m bits ip upper) old)
        → (link_nets m upper es net p).up ≡ or_opt (find_up m bits ip upper) old
    unfolding link_nets
    link_nets-here upper [] net b only (inl (n, e)) = elim n [ ]
    link_nets-here upper [] net b only (inr e) = e
    link_nets-here upper ((i, q) ∷ es) net b only now = elim (ℕ_discrete q p) [
      | yes f ↦
          let F = find_up m bits ip upper in
          let found = find_up m (net q).bits i upper in
          let same : found ≡ F = rw (only.0 f, ap (λ x. (net x).bits) f ∙ b) refl in
          let once_more : or_opt F (net p).up ≡ or_opt F old = elim now [
            | inl (n, e) ↦ ap (or_opt F) e
            | inr e ↦ ap (or_opt F) e ∙ or_opt-twice F old
          ] in
          let set_here : (set_net_up q found net p).up ≡ or_opt F old =
            subst (λ x. (set_net_up x found net p).up ≡ or_opt F old) (sym f)
              (set_net_up-here p found net ∙ ap (λ o. or_opt o (net p).up) same ∙ once_more) in
          link_nets-here upper es (set_net_up q found net)
            (set_net_up-field (λ n. n.bits) (λ n o. refl) q found net p ∙ b) only.1 (inr set_here)
      | no f ↦
          let found = find_up m (net q).bits i upper in
          let kept = set_net_up-other q found net p f in
          link_nets-here upper es (set_net_up q found net)
            (set_net_up-field (λ n. n.bits) (λ n o. refl) q found net p ∙ b) only.1
            (elim now [
              | inl (n, e) ↦
                  inl
                    (elim n [ head g ↦ absurd (f (sym (ap (λ x. x.1) g))) | tail k ↦ k ], kept ∙ e)
              | inr e ↦ inr (kept ∙ e)
            ])
    ]

    -- Where the network stands in the map.
    module _
        (only : (mask : ℕ)
          → All (λ (e : ℕ × ℕ). e.1 ≡ p → (e.0 ≡ ip) × (mask ≡ prefix)) (entries mask))
        (here : Memᴰ (ip, p) (entries prefix)) where
      elsewhere : (mask : ℕ) → mask ≢ prefix → All (λ (e : ℕ × ℕ). e.1 ≢ p) (entries mask)
      elsewhere mask ne =
          Mem-All (λ (e : ℕ × ℕ). e.1 ≢ p) (entries mask)
            (λ e n f.
              ne
                (All-Mem (λ (e : ℕ × ℕ). e.1 ≡ p → (e.0 ≡ ip) × (mask ≡ prefix)) (entries mask) e
                  (only mask) n f).1)

      link_masks-other :
          (masks : List ℕ) (net : ℕ → IpNet)
          → All (λ u. u ≢ prefix) masks
          → (link_masks m masks net p).up ≡ (net p).up
      unfolding link_masks
      link_masks-other [] net h = refl
      link_masks-other (mask ∷ []) net h = refl
      link_masks-other (mask ∷ (u ∷ us)) net h =
          link_masks-other (u ∷ us) (link_nets m (u ∷ us) (entries mask) net) h.1
          ∙ link_nets-other (u ∷ us) (entries mask) net p (elsewhere mask h.0)

      step : List ℕ → ℕ → (ℕ → IpNet) → ℕ → IpNet
      step upper mask net = if is_empty upper then net else link_nets m upper (entries mask) net

      step-bits :
          (upper : List ℕ) (mask : ℕ) (net : ℕ → IpNet)
          → (step upper mask net p).bits ≡ (net p).bits
      unfolding step
      step-bits [] mask net = refl
      step-bits (u ∷ us) mask net =
          link_nets-field (λ n. n.bits) (λ n o. refl) m (u ∷ us) (entries mask) net p

      step-here :
          (upper : List ℕ) (net : ℕ → IpNet)
          → (net p).bits ≡ bits
          → (net p).up ≡ old
          → (step upper prefix net p).up ≡ or_opt (find_up m bits ip upper) old
      unfolding step or_opt find_up
      step-here [] net b e = e
      step-here (u ∷ us) net b e =
          link_nets-here (u ∷ us) (entries prefix) net b
            (Mem-All (λ (e : ℕ × ℕ). e.1 ≡ p → e.0 ≡ ip) (entries prefix)
              (λ e n f.
                (All-Mem (λ (e : ℕ × ℕ). e.1 ≡ p → (e.0 ≡ ip) × (prefix ≡ prefix)) (entries prefix)
                  e (only prefix) n f).0))
            (inl (here, e))

      step-other :
          (upper : List ℕ) (mask : ℕ) (net : ℕ → IpNet)
          → mask ≢ prefix
          → (step upper mask net p).up ≡ (net p).up
      unfolding step
      step-other [] mask net ne = refl
      step-other (u ∷ us) mask net ne =
          link_nets-other (u ∷ us) (entries mask) net p (elsewhere mask ne)

      link_masks-step :
          (mask : ℕ) (upper : List ℕ) (net : ℕ → IpNet)
          → link_masks m (mask ∷ upper) net ≡ link_masks m upper (step upper mask net)
      unfolding link_masks step
      link_masks-step mask upper net = refl

      shorter :
          (mask : ℕ) (upper : List ℕ)
          → Sorted longer (mask ∷ upper)
          → Unique (mask ∷ upper)
          → (u : ℕ) → Memᴰ u upper
          → u < mask
      shorter mask upper sorted unique u n =
          let le = All-Mem (λ y. longer y mask ≡ false) upper u sorted.0 n in
          let one = Mem→count u upper n in let most = unique u in ground (arith)

      -- The masks that are tried for the network are those with shorter prefixes.
      pub link_masks-here :
          (masks : List ℕ) (net : ℕ → IpNet)
          → Memᴰ prefix masks
          → Sorted longer masks
          → Unique masks
          → (net p).bits ≡ bits
          → (net p).up ≡ old
          → (upper : List ℕ) × All (λ u. u < prefix) upper
            × ((u : ℕ) → Memᴰ u masks → u < prefix → Memᴰ u upper)
            × Sorted longer upper
            × ((link_masks m masks net p).up ≡ or_opt (find_up m bits ip upper) old)
      link_masks-here [] net n sorted unique b e = elim n [ ]
      link_masks-here (mask ∷ upper) net (head f) sorted unique b e =
          let less = shorter mask upper sorted unique in
          (
            upper,
            Mem-All (λ u. u < prefix) upper (λ u n. let l = less u n in omega (arith, f)),
            λ u n lt. elim n [ head g ↦ absurd (omega (arith, f, g)) | tail k ↦ k ],
            sorted.1,
            ap (λ t. (t p).up) (link_masks-step mask upper net)
                ∙ link_masks-other upper (step upper mask net) (
                    Mem-All (λ u. u ≢ prefix) upper
                      (λ u n g. let l = less u n in omega (arith, f, g)))
                ∙ subst (λ k. (step upper k net p).up ≡ or_opt (find_up m bits ip upper) old) f
                    (step-here upper net b e),
          )
      link_masks-here (mask ∷ upper) net (tail n) sorted unique b e =
          let lt = shorter mask upper sorted unique prefix n in
          let (up, below, all, sorted', f) =
            link_masks-here upper (step upper mask net) n sorted.1 (λ r. omega (arith, unique r))
              (step-bits upper mask net ∙ b)
              (step-other upper mask net (λ g. omega (arith, g)) ∙ e) in
          (
            up,
            below,
            λ u k l. elim k [ head g ↦ absurd (omega (arith, g)) | tail j ↦ all u j l ],
            sorted',
            ap (λ t. (t p).up) (link_masks-step mask upper net) ∙ f,
          )
