-- ===== src/Pass2/Combine/Cover.antt =====
-- `combineAdjacentIPMask` keeps the addresses that the networks of the rules have.
use netspoc.Prelude.{
  ℕ, ◌-◌, ◌≤◌, ◌<◌, ◌≡◌, ◌≢◌, refl, sym, ap, ◌∙◌, subst, Bool, true, false, ◌||◌, List, [], ◌∷◌,
  ◌==◌, ==_iff, ==_refl, arith, ℕ_discrete, All, any,
}
use netspoc.Pass2.Rules.{CiscoRule, update}
use netspoc.Pass2.Nets.{NetLib, get_ip_obj, masked}
use netspoc.Pass2.Combine.{Objs, get, set, mark_deleted, element, halves, joined, rev_onto}
use netspoc.Pass2.Combine.Objects.{Texts, Coherent, Obtained, get_ip_obj-Obtained}
use netspoc.Pass2.Combine.Halves.{masked_halves}

update_at : {A : Type 0} (f : ℕ → A) (p : ℕ) (a : A) → update f p a p ≡ a
update_at f p a = rw (==_refl p) refl

update_ne : {A : Type 0} (f : ℕ → A) (p : ℕ) (a : A) (q : ℕ) → q ≢ p → update f p a q ≡ f q
update_ne f p a q ne = let other : (p == q) ≡ false = ground arith in rw other refl

-- A field that is kept by an update of one rule is kept everywhere.
update-field :
    (field : CiscoRule → ℕ) (f : ℕ → CiscoRule) (p : ℕ) (a : CiscoRule)
    → field a ≡ field (f p)
    → (q : ℕ) → field (update f p a q) ≡ field (f q)
update-field field f p a e q = elim (ℕ_discrete q p) [
  | yes h ↦
      subst (λ q. field (update f p a q) ≡ field (f q)) (sym h) (ap field (update_at f p a) ∙ e)
  | no h ↦ ap field (update_ne f p a q h)
]

get-mark :
    (b : Bool) (d : ℕ) (rule : ℕ → CiscoRule) (r : ℕ) → get b (mark_deleted d rule) r ≡ get b rule r
unfolding get mark_deleted
get-mark true d rule r =
    update-field (λ n. n.dst) rule d (record (rule d) { deleted = true }) refl r
get-mark false d rule r =
    update-field (λ n. n.src) rule d (record (rule d) { deleted = true }) refl r

get-set : (b : Bool) (r e : ℕ) (rule : ℕ → CiscoRule) → get b (set b r e rule) r ≡ e
unfolding get set
get-set true r e rule = ap (λ n. n.dst) (update_at rule r (record (rule r) { dst = e }))
get-set false r e rule = ap (λ n. n.src) (update_at rule r (record (rule r) { src = e }))

get-set_other :
    (b : Bool) (r e : ℕ) (rule : ℕ → CiscoRule) (q : ℕ)
    → q ≢ r
    → get b (set b r e rule) q ≡ get b rule q
unfolding get set
get-set_other true r e rule q ne =
    ap (λ n. n.dst) (update_ne rule r (record (rule r) { dst = e }) q ne)
get-set_other false r e rule q ne =
    ap (λ n. n.src) (update_ne rule r (record (rule r) { src = e }) q ne)

pub any-rev_onto : (p : ℕ → Bool) (ls rs : List ℕ) → any p (rev_onto ls rs) ≡ (any p ls || any p rs)
any-rev_onto p [] rs = refl
any-rev_onto p (l ∷ ls) rs = any-rev_onto p ls (l ∷ rs) ∙ ground arith

-- The addresses rise along the list.
abbrev pub Rising : (ℕ → ℕ) → List ℕ → Type 0
Rising ip [] = Unit
Rising ip (r ∷ rs) = All (λ q. ip r < ip q) rs × Rising ip rs

pub Rising-behind : (ip : ℕ → ℕ) (ls rs : List ℕ) → Rising ip (rev_onto ls rs) → Rising ip rs
Rising-behind ip [] rs h = h
Rising-behind ip (l ∷ ls) rs h = (Rising-behind ip ls (l ∷ rs) h).1

-- The part behind is replaced by one that rises and has no lower addresses.
pub Rising-replaced :
    (ip : ℕ → ℕ) (ls rs rs' : List ℕ)
    → Rising ip (rev_onto ls rs)
    → Rising ip rs'
    → ((z : ℕ) → All (λ q. z < ip q) rs → All (λ q. z < ip q) rs')
    → Rising ip (rev_onto ls rs')
Rising-replaced ip [] rs rs' h h' less = h'
Rising-replaced ip (l ∷ ls) rs rs' h h' less =
    Rising-replaced ip ls (l ∷ rs) (l ∷ rs') h (less (ip l) (Rising-behind ip ls (l ∷ rs) h).0, h')
      (λ z a. (a.0, less z a.1))

pub before_differ :
    (ip : ℕ → ℕ) (ls : List ℕ) (r : ℕ) (rs : List ℕ)
    → Rising ip (rev_onto ls (r ∷ rs))
    → All (λ q. q ≢ r) ls
before_differ ip [] r rs h = tt
before_differ ip (l ∷ ls) r rs h =
    let lt = (Rising-behind ip ls (l ∷ (r ∷ rs)) h).0.0 in
    let next =
      Rising-replaced ip ls (l ∷ (r ∷ rs)) (r ∷ rs) h (Rising-behind ip ls (l ∷ (r ∷ rs)) h).1
        (λ z a. a.1) in
    (λ e. let e' = ap ip e in omega arith, before_differ ip ls r rs next)

pub behind_differ :
    (ip : ℕ → ℕ) (r : ℕ) (rs : List ℕ) → All (λ q. ip r < ip q) rs → All (λ q. q ≢ r) rs
behind_differ ip r [] h = tt
behind_differ ip r (q ∷ rs) h =
    (λ e. let e' = ap ip e in let lt = h.0 in omega arith, behind_differ ip r rs h.1)

-- The address `x` is in the network of the rule.
abbrev pub has : ℕ → Bool → Objs → ℕ → ℕ → Bool
has bits is_dst s x r = masked bits x (element is_dst s r).prefix == (element is_dst s r).ip

module _ (lib : NetLib) (bits : ℕ) (texts : Texts lib bits) (is_dst : Bool) (ip : ℕ → ℕ) where
  -- The element of the rule is a network, and begins at the rule's address.
  abbrev pub Ok : Objs → ℕ → Type 0
  Ok s r =
      (get is_dst s.rule r < s.nets.next)
      × ((element is_dst s r).ip ≡ ip r)
      × ((element is_dst s r).bits ≡ bits)
      × ((element is_dst s r).prefix ≤ bits)
      × (masked bits (ip r) (element is_dst s r).prefix ≡ ip r)

  -- Two rules are joined.
  pub record Joined (r1 r2 : ℕ) (s t : Objs) : Type 0 where
    pub coherent : Coherent lib bits t.nets
    pub ok : Ok t r1
    pub both : (x : ℕ) → has bits is_dst t x r1 ≡ (has bits is_dst s x r1 || has bits is_dst s x r2)
    pub same :
        (q : ℕ)
        → q ≢ r1
        → Ok s q
        → (element is_dst t q ≡ element is_dst s q) × (get is_dst t.rule q < t.nets.next)

  same_half :
      (s : Objs) (r1 r2 : ℕ)
      → Ok s r1
      → Ok s r2
      → halves (element is_dst s r1) (element is_dst s r2) ≡ true
      → ((element is_dst s r1).prefix ≡ (element is_dst s r2).prefix)
        × (masked bits (ip r1) ((element is_dst s r1).prefix - 1)
            ≡ masked bits (ip r2) ((element is_dst s r1).prefix - 1))
  unfolding halves
  same_half s r1 r2 ok1 ok2 e =
      let e1 = element is_dst s r1 in
      let e2 = element is_dst s r2 in
      let one : masked e1.bits e1.ip (e1.prefix - 1) ≡ masked bits (ip r1) (e1.prefix - 1) =
        ap (λ b. masked b e1.ip (e1.prefix - 1)) ok1.2
        ∙ ap (λ i. masked bits i (e1.prefix - 1)) ok1.1 in
      let two : masked e1.bits e2.ip (e1.prefix - 1) ≡ masked bits (ip r2) (e1.prefix - 1) =
        ap (λ b. masked b e2.ip (e1.prefix - 1)) ok1.2
        ∙ ap (λ i. masked bits i (e1.prefix - 1)) ok2.1 in
      let prefixes : (e1.prefix == e2.prefix) ≡ true = ground arith in
      let masks : (masked e1.bits e1.ip (e1.prefix - 1) == masked e1.bits e2.ip (e1.prefix - 1))
          ≡ true =
        ground arith in
      (
        (==_iff e1.prefix e2.prefix).0 prefixes,
        sym one
            ∙ (==_iff (masked e1.bits e1.ip (e1.prefix - 1))
                  (masked e1.bits e2.ip (e1.prefix - 1))).0
                masks
            ∙ two,
      )

  pub joined-Joined :
      (s : Objs) (r1 r2 : ℕ)
      → Coherent lib bits s.nets
      → Ok s r1
      → Ok s r2
      → ip r1 < ip r2
      → halves (element is_dst s r1) (element is_dst s r2) ≡ true
      → Joined r1 r2 s (joined lib is_dst r1 r2 s)
  unfolding joined element
  joined-Joined s r1 r2 coherent ok1 ok2 lt e =
      let e1 = element is_dst s r1 in
      let call = get_ip_obj lib (e1.ip, e1.prefix - 1, e1.bits) s.nets in
      let o : Obtained lib bits e1.ip (e1.prefix - 1) s.nets call.0 call.1 =
        subst
          (λ b.
            let (p, t) = get_ip_obj lib (e1.ip, e1.prefix - 1, b) s.nets in
            Obtained lib bits e1.ip (e1.prefix - 1) s.nets p t)
          (sym ok1.2) (get_ip_obj-Obtained lib bits e1.ip (e1.prefix - 1) s.nets texts coherent) in
      let t = joined lib is_dst r1 r2 s in
      let new : get is_dst t.rule r1 ≡ call.0 =
        get-mark is_dst r2 (set is_dst r1 call.0 s.rule) r1 ∙ get-set is_dst r1 call.0 s.rule in
      let el : element is_dst t r1 ≡ call.1.net call.0 = ap call.1.net new in
      let (prefixes, masks) = same_half s r1 r2 ok1 ok2 e in
      let t_ip : (element is_dst t r1).ip ≡ ip r1 = ap (λ n. n.ip) el ∙ o.is.0 ∙ ok1.1 in
      let t_prefix : (element is_dst t r1).prefix ≡ e1.prefix - 1 =
        ap (λ n. n.prefix) el ∙ o.is.1 in
      let cover : (x : ℕ)
          → (masked bits x (e1.prefix - 1) == ip r1)
            ≡ (masked bits x e1.prefix == ip r1 || masked bits x e1.prefix == ip r2) =
        λ x.
          masked_halves bits e1.prefix (ip r1) (ip r2) x ok1.3 ok1.4
            (ap (masked bits (ip r2)) prefixes ∙ ok2.4) lt masks in
      record {
        coherent = o.coherent;
        ok = (
          subst (λ p. p < call.1.next) (sym new) o.used,
          t_ip,
          ap (λ n. n.bits) el ∙ o.is.2,
          omega (arith, t_prefix, ok1.3),
          ap (masked bits (ip r1)) t_prefix
              ∙ (let c = cover (ip r1) in
                  let own = (==_iff (masked bits (ip r1) e1.prefix) (ip r1)).1 ok1.4 in
                  (==_iff (masked bits (ip r1) (e1.prefix - 1)) (ip r1)).0
                    (ground (arith, c, own))),
        );
        both = λ x.
            ap (λ p. masked bits x p == (element is_dst t r1).ip) t_prefix
            ∙ ap (λ i. masked bits x (e1.prefix - 1) == i) t_ip
            ∙ cover x
            ∙ ap (λ i. masked bits x e1.prefix == i || masked bits x e1.prefix == ip r2) (sym ok1.1)
            ∙ ap (λ i. has bits is_dst s x r1 || masked bits x e1.prefix == i) (sym ok2.1)
            ∙ ap (λ p. has bits is_dst s x r1 || masked bits x p == (element is_dst s r2).ip)
                prefixes;
        same = λ q ne ok.
            let old : get is_dst t.rule q ≡ get is_dst s.rule q =
              get-mark is_dst r2 (set is_dst r1 call.0 s.rule) q
              ∙ get-set_other is_dst r1 call.0 s.rule q ne in
            (
              ap call.1.net old ∙ o.kept (get is_dst s.rule q) ok.0,
              let g = o.grows in let u = ok.0 in omega (arith, old, g, u),
            );
      }
