-- ===== src/Pass2/Combine/Objects.antt =====
-- The map of the networks by name, when `getIPObj` takes a network from it.
use mathlib.Core.Option.{some-injective}
use netspoc.Prelude.{
  ℕ, suc, ◌≤◌, ◌<◌, ◌≡◌, inl, inr, refl, sym, ap, ◌∙◌, subst, false, Option, some, ◌∷◌, ◌++◌, ◌==◌,
  ==_refl, arith, Bool-cases, Option-cases,
}
use netspoc.Prelude.Bytes.{
  Bytes, bytes_eq, bytes_eq-eq, Free, cut_at, cut_at_first, itoa, atoi, atoi-itoa,
}
use netspoc.Pass2.Rules.{IpNet, update}
use netspoc.Pass2.Protocol.{find_name}
use netspoc.Pass2.Nets.{IpNets, NetLib, new_net, add_net, get_ip_obj}

-- The name of a network.
abbrev pub net_name : NetLib → ℕ → ℕ → ℕ → Bytes
net_name lib bits ip prefix = lib.ip_string bits ip ++ b'/' ∷ itoa prefix

-- What is asked of the texts of addresses: they have no slash, and differ for different addresses.
pub record Texts (lib : NetLib) (bits : ℕ) : Type 0 where
  pub no_slash : (ip : ℕ) → Free b'/' (lib.ip_string bits ip)
  pub distinct : (ip ip' : ℕ) → lib.ip_string bits ip ≡ lib.ip_string bits ip' → ip ≡ ip'

module _ (lib : NetLib) (bits : ℕ) where
  -- A network with this address and prefix.
  abbrev pub Is : ℕ → ℕ → IpNet → Type 0
  Is ip prefix n = (n.ip ≡ ip) × (n.prefix ≡ prefix) × (n.bits ≡ bits)

  -- What the map has under the name of a network is this network.
  abbrev pub Coherent : IpNets → Type 0
  Coherent s =
      (ip prefix p : ℕ)
      → find_name (net_name lib bits ip prefix) s.names ≡ some p
      → (p < s.next) × Is ip prefix (s.net p)

  pub record Obtained (ip prefix : ℕ) (s : IpNets) (p : ℕ) (s' : IpNets) : Type 0 where
    pub is : Is ip prefix (s'.net p)
    pub used : p < s'.next
    pub grows : s.next ≤ s'.next
    pub kept : (q : ℕ) → q < s.next → s'.net q ≡ s.net q
    pub coherent : Coherent s'

  parts :
      (a b : Option (Bytes × Bytes))
      → a ≡ b
      → (x y : Bytes × Bytes) → a ≡ some x
      → b ≡ some y
      → x ≡ y
  parts a b e x y f g = some-injective x y (sym f ∙ e ∙ g)

  same_name :
      (ip prefix ip' prefix' : ℕ)
      → Texts lib bits
      → net_name lib bits ip prefix ≡ net_name lib bits ip' prefix'
      → (ip ≡ ip') × (prefix ≡ prefix')
  same_name ip prefix ip' prefix' texts e =
      let cut =
        parts (cut_at b'/' (net_name lib bits ip prefix))
          (cut_at b'/' (net_name lib bits ip' prefix')) (ap (cut_at b'/') e)
          (lib.ip_string bits ip, itoa prefix) (lib.ip_string bits ip', itoa prefix')
          (cut_at_first b'/' (lib.ip_string bits ip) (itoa prefix) (texts.no_slash ip))
          (cut_at_first b'/' (lib.ip_string bits ip') (itoa prefix') (texts.no_slash ip')) in
      (
        texts.distinct ip ip' (ap (λ x. x.0) cut),
        sym (atoi-itoa prefix) ∙ ap (λ (x : Bytes × Bytes). atoi x.1) cut ∙ atoi-itoa prefix',
      )

  update_here : (f : ℕ → IpNet) (p : ℕ) (n : IpNet) → update f p n p ≡ n
  update_here f p n = rw (==_refl p) refl

  update_other : (f : ℕ → IpNet) (p : ℕ) (n : IpNet) (q : ℕ) → q < p → update f p n q ≡ f q
  update_other f p n q lt = let ne : (p == q) ≡ false = ground arith in rw ne refl

  fresh :
      (ip prefix : ℕ) (s : IpNets)
      → Texts lib bits
      → Coherent s
      → Obtained ip prefix s s.next (
          add_net
            (net_name lib bits ip prefix)
            (new_net (net_name lib bits ip prefix) (ip, prefix, bits))
            s)
  unfolding add_net new_net
  fresh ip prefix s texts coherent =
      let n = new_net (net_name lib bits ip prefix) (ip, prefix, bits) in
      let here = update_here s.net s.next n in
      record {
        is = (ap (λ n. n.ip) here, ap (λ n. n.prefix) here, ap (λ n. n.bits) here);
        used = omega arith;
        grows = omega arith;
        kept = λ q lt. update_other s.net s.next n q lt;
        coherent = λ ip' prefix' p e.
            elim (Bool-cases
              (bytes_eq (net_name lib bits ip prefix) (net_name lib bits ip' prefix'))) [
                | inl same ↦
                    let (i, k) = same_name ip prefix ip' prefix' texts (
                      bytes_eq-eq (net_name lib bits ip prefix) (net_name lib bits ip' prefix')
                        same) in
                    let at : s.next ≡ p = some-injective s.next p (sym (rw same refl) ∙ e) in
                    subst (λ q. (q < suc s.next) × Is ip' prefix' (update s.net s.next n q)) at
                      (
                        omega arith,
                        (
                          ap (λ n. n.ip) here ∙ i,
                          ap (λ n. n.prefix) here ∙ k,
                          ap (λ n. n.bits) here,
                        ),
                      )
                | inr other ↦
                    let (lt, is) = coherent ip' prefix' p (sym (rw other refl) ∙ e) in
                    (
                      omega arith,
                      subst (Is ip' prefix') (sym (update_other s.net s.next n p lt)) is,
                    )
              ];
      }

  pub get_ip_obj-Obtained :
      (ip prefix : ℕ) (s : IpNets)
      → Texts lib bits
      → Coherent s
      → let (p, s') = get_ip_obj lib (ip, prefix, bits) s in Obtained ip prefix s p s'
  unfolding get_ip_obj
  get_ip_obj-Obtained ip prefix s texts coherent =
      elim (Option-cases (find_name (net_name lib bits ip prefix) s.names)) [
        | inl e ↦ rw (e, get_ip_obj) (fresh ip prefix s texts coherent)
        | inr (p, e) ↦
            let (used, is) = coherent ip prefix p e in
            rw (e, get_ip_obj)
              (record {
                is = is;
                used = used;
                grows = omega arith;
                kept = λ q lt. refl;
                coherent = coherent;
              })
      ]
