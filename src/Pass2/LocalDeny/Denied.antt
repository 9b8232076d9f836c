-- ===== src/Pass2/LocalDeny/Denied.antt =====
-- What the rules of `addLocalDenyRules` deny.
use mathlib.Core.Option.{some-injective}
use netspoc.Prelude.{
  ℕ, suc, ◌<◌, ◌≡◌, ◌≢◌, inl, inr, refl, sym, ap, ◌∙◌, subst, Bool, true, false, ◌&&◌, Option, none,
  some, List, [], ◌∷◌, ◌++◌, if◌then◌else◌, ◌==◌, ==_refl, arith, Bool-cases, All, All-append, any,
  any-append,
}
use netspoc.Pass2.Rules.{CiscoRule}
use netspoc.Pass2.LocalDeny.{
  ObjGroup, RouterData, LocalAcl, group_name, create_group, known_group, group_or_single, ip_rule,
  deny_each_dst, deny_each, src_networks, deny_groups, with_permit, add_local_deny_rules,
}

-- A device's view: an object is a network, or a group of networks.
abbrev pub in_obj : (ℕ → Bool) → List ObjGroup → ℕ → Bool
in_obj has [] o = has o
in_obj has (g ∷ gs) o = if g.ref == o then any has g.elements else in_obj has gs o

-- The rule matches a source and a destination.
abbrev pub hits : (ℕ → Bool) → (ℕ → Bool) → List ObjGroup → CiscoRule → Bool
hits s d gs rule = in_obj s gs rule.src && in_obj d gs rule.dst

-- The groups are in use, and no network is one.
abbrev pub Apart : List ObjGroup → ℕ → Type 0
Apart [] o = Unit
Apart (g ∷ gs) o = (g.ref ≢ o) × Apart gs o

in_obj-network :
    (has : ℕ → Bool) (gs : List ObjGroup) (o : ℕ) → Apart gs o → in_obj has gs o ≡ has o
in_obj-network has [] o h = refl
in_obj-network has (g ∷ gs) o h =
    let ne : (g.ref == o) ≡ false = (let n = h.0 in ground arith) in
    rw ne (in_obj-network has gs o h.1)

-- The group of the interfaces, if there is one, has the networks that are filtered.
abbrev pub Shared : List ℕ → List ObjGroup → ℕ → Option ℕ → Type 0
Shared filter gs next o =
    (g : ℕ) → o ≡ some g → (g < next) × ((has : ℕ → Bool) → in_obj has gs g ≡ any has filter)

-- The networks that are used here are no groups, now and with new ones.
pub record Fit (network00 : ℕ) (filter : List ℕ) (gs : List ObjGroup) (r : RouterData)
    : Type 0 where
  pub networks : All (λ o. Apart gs o × (o < r.next)) filter
  pub all : Apart gs network00 × (network00 < r.next)
  pub shared : Shared filter gs r.next r.filter_only_group

-- An object that stands for these networks, and groups that have only grown.
pub record Stands (network00 : ℕ) (filter objs : List ℕ) (acl : LocalAcl) (r : RouterData) (o : ℕ)
    (acl' : LocalAcl) (r' : RouterData) : Type 0 where
  pub stands : (has : ℕ → Bool) → in_obj has acl'.object_groups o ≡ any has objs
  pub used : o < r'.next
  pub fit : Fit network00 filter acl'.object_groups r'
  pub older :
      (has : ℕ → Bool) (x : ℕ)
      → x < r.next
      → in_obj has acl'.object_groups x ≡ in_obj has acl.object_groups x

module _ (network00 : ℕ) (filter : List ℕ) where
  Apart-new :
      (gs : List ObjGroup) (g : ObjGroup) (o : ℕ) → Apart gs o → o < g.ref → Apart (g ∷ gs) o
  Apart-new gs g o h lt = (λ e. let l = lt in omega arith, h)

  networks_new :
      (gs : List ObjGroup) (g : ObjGroup) (os : List ℕ)
      → All (λ o. Apart gs o × (o < g.ref)) os
      → All (λ o. Apart (g ∷ gs) o × (o < suc g.ref)) os
  networks_new gs g [] h = tt
  networks_new gs g (o ∷ os) h =
      ((Apart-new gs g o h.0.0 h.0.1, (let l = h.0.1 in omega arith)), networks_new gs g os h.1)

  known_group-Stands :
      (acl : LocalAcl) (r : RouterData) (o : Option ℕ)
      → r.filter_only_group ≡ o
      → Fit network00 filter acl.object_groups r
      → let (g, acl', r') = known_group filter acl r o in
        Stands network00 filter filter acl r g acl' r'
  unfolding known_group create_group
  known_group-Stands acl r (some g) e fit = record {
    stands = (fit.shared g e).1;
    used = (fit.shared g e).0;
    fit = fit;
    older = λ has x lt. refl;
  }
  known_group-Stands acl r none e fit =
      let g : ObjGroup = record {
        name = group_name r.ipv6 r.obj_group_counter;
        elements = filter;
        ref = r.next;
      } in
      let new : (has : ℕ → Bool) → in_obj has (g ∷ acl.object_groups) r.next ≡ any has filter =
        λ has. rw (==_refl r.next) refl in
      record {
        stands = new;
        used = omega arith;
        fit = record {
          networks = networks_new acl.object_groups g filter fit.networks;
          all = (
            Apart-new acl.object_groups g network00 fit.all.0 fit.all.1,
            (let l = fit.all.1 in omega arith),
          );
          shared = λ h f.
              let same : r.next ≡ h = some-injective r.next h f in
              subst
                (λ h.
                  (h < suc r.next)
                  × ((has : ℕ → Bool) → in_obj has (g ∷ acl.object_groups) h ≡ any has filter))
                same (omega arith, new);
        };
        older = λ has x lt. let ne : (r.next == x) ≡ false = ground arith in rw ne refl;
      }

  single :
      (o : ℕ) (acl : LocalAcl) (r : RouterData)
      → Apart acl.object_groups o × (o < r.next)
      → Fit network00 filter acl.object_groups r
      → Stands network00 filter (o ∷ []) acl r o acl r
  single o acl r h fit = record {
    stands = λ has. in_obj-network has acl.object_groups o h.0 ∙ ground arith;
    used = h.1;
    fit = fit;
    older = λ has x lt. refl;
  }

pub group_or_single-Stands :
    (network00 : ℕ) (filter : List ℕ) (acl : LocalAcl) (r : RouterData)
    → Fit network00 filter acl.object_groups r
    → let (o, acl', r') = group_or_single filter acl r in
      Stands network00 filter filter acl r o acl' r'
unfolding group_or_single
group_or_single-Stands n [] acl r fit = known_group-Stands n [] acl r r.filter_only_group refl fit
group_or_single-Stands n (o ∷ []) acl r fit = single n (o ∷ []) o acl r fit.networks.0 fit
group_or_single-Stands n (o ∷ (o' ∷ os)) acl r fit =
    known_group-Stands n (o ∷ (o' ∷ os)) acl r r.filter_only_group refl fit

-- The groups of an access list, and what the function does not change.
abbrev pub Fits : LocalAcl → RouterData → Type 0
Fits acl r = Fit acl.network00 acl.filter_only acl.object_groups r

any_dst :
    (s d : ℕ → Bool) (gs : List ObjGroup) (acl : LocalAcl) (src : ℕ) (ds : List ℕ)
    → All (Apart gs) ds
    → any (hits s d gs) (deny_each_dst acl src ds) ≡ (in_obj s gs src && any d ds)
unfolding deny_each_dst ip_rule
any_dst s d gs acl src [] h = ground arith
any_dst s d gs acl src (o ∷ ds) h =
    rw (any_dst s d gs acl src ds h.1, in_obj-network d gs o h.0) (ground arith)

any_src :
    (s d : ℕ → Bool) (gs : List ObjGroup) (acl : LocalAcl) (ss ds : List ℕ)
    → All (Apart gs) ss
    → All (Apart gs) ds
    → any (hits s d gs) (deny_each acl ss ds) ≡ (any s ss && any d ds)
unfolding deny_each
any_src s d gs acl [] ds h k = refl
any_src s d gs acl (o ∷ ss) ds h k =
    any-append (hits s d gs) (deny_each_dst acl o ds) (deny_each acl ss ds)
    ∙ rw (any_dst s d gs acl o ds k, any_src s d gs acl ss ds h.1 k, in_obj-network s gs o h.0)
        (ground arith)

-- Whether the first rule that matches denies.
abbrev pub first_match : (ℕ → Bool) → (ℕ → Bool) → List ObjGroup → List CiscoRule → Option Bool
first_match s d gs [] = none
first_match s d gs (rule ∷ rules) =
    if hits s d gs rule then some rule.deny else first_match s d gs rules

denied_first :
    (s d : ℕ → Bool) (gs : List ObjGroup) (xs ys : List CiscoRule)
    → All (λ rule. rule.deny ≡ true) xs
    → first_match s d gs (xs ++ ys)
      ≡ (if any (hits s d gs) xs then some true else first_match s d gs ys)
denied_first s d gs [] ys h = refl
denied_first s d gs (x ∷ xs) ys h = elim (Bool-cases (hits s d gs x)) [
  | inl e ↦ rw (e, h.0) refl
  | inr e ↦ rw e (denied_first s d gs xs ys h.1)
]

-- Denied for these sources and destinations, otherwise permitted if both are in the network of all.
abbrev pub expected : (ℕ → Bool) → (ℕ → Bool) → LocalAcl → Option Bool
expected s d acl =
    if any s (src_networks acl) && any d acl.filter_only
    then some true
    else if s acl.network00 && d acl.network00
    then some false
    else none

ends :
    (s d : ℕ → Bool) (gs : List ObjGroup) (acl : LocalAcl) (xs : List CiscoRule)
    → Apart gs acl.network00
    → All (λ rule. rule.deny ≡ true) xs
    → any (hits s d gs) xs ≡ (any s (src_networks acl) && any d acl.filter_only)
    → first_match s d gs (xs ++ ip_rule acl false acl.network00 acl.network00 ∷ [])
      ≡ expected s d acl
unfolding ip_rule
ends s d gs acl xs n00 deny e =
    denied_first s d gs xs (ip_rule acl false acl.network00 acl.network00 ∷ []) deny
    ∙ rw (e, in_obj-network s gs acl.network00 n00, in_obj-network d gs acl.network00 n00) refl

deny_each_dst-All :
    (acl : LocalAcl) (src : ℕ) (ds : List ℕ)
    → All (λ rule. rule.deny ≡ true) (deny_each_dst acl src ds)
unfolding deny_each_dst ip_rule
deny_each_dst-All acl src [] = tt
deny_each_dst-All acl src (d ∷ ds) = (refl, deny_each_dst-All acl src ds)

deny_each-All :
    (acl : LocalAcl) (ss ds : List ℕ) → All (λ rule. rule.deny ≡ true) (deny_each acl ss ds)
unfolding deny_each
deny_each-All acl [] ds = tt
deny_each-All acl (src ∷ ss) ds =
    All-append (λ rule. rule.deny ≡ true) (deny_each_dst acl src ds) (deny_each acl ss ds)
      (deny_each_dst-All acl src ds) (deny_each-All acl ss ds)

Apart-All :
    (gs : List ObjGroup) (next : ℕ) (os : List ℕ)
    → All (λ o. Apart gs o × (o < next)) os
    → All (Apart gs) os
Apart-All gs next [] h = tt
Apart-All gs next (o ∷ os) h = (h.0.0, Apart-All gs next os h.1)

src_any : (acl : LocalAcl) → acl.filter_any_src ≡ true → src_networks acl ≡ acl.network00 ∷ []
unfolding src_networks
src_any acl e = ap (λ b. if b then acl.network00 ∷ [] else acl.filter_only) e

src_filter : (acl : LocalAcl) → acl.filter_any_src ≡ false → src_networks acl ≡ acl.filter_only
unfolding src_networks
src_filter acl e = ap (λ b. if b then acl.network00 ∷ [] else acl.filter_only) e

src_networks-Apart :
    (acl : LocalAcl) (r : RouterData)
    → Fits acl r
    → All (Apart acl.object_groups) (src_networks acl)
src_networks-Apart acl r fit = elim (Bool-cases acl.filter_any_src) [
  | inl e ↦ subst (All (Apart acl.object_groups)) (sym (src_any acl e)) (fit.all.0, tt)
  | inr e ↦
      subst (All (Apart acl.object_groups)) (sym (src_filter acl e))
        (Apart-All acl.object_groups r.next acl.filter_only fit.networks)
]

-- What `groupOrSingle` gives stands for these objects.
abbrev Replaced : LocalAcl → RouterData → List ℕ → ℕ × LocalAcl × RouterData → Type 0
Replaced acl r objs (o, acl', r') = Stands acl.network00 acl.filter_only objs acl r o acl' r'

src-Stands :
    (acl : LocalAcl) (r : RouterData)
    → Fits acl r
    → Replaced acl r (src_networks acl) (group_or_single (src_networks acl) acl r)
unfolding group_or_single
src-Stands acl r fit = elim (Bool-cases acl.filter_any_src) [
  | inl e ↦
      subst (λ objs. Replaced acl r objs (group_or_single objs acl r)) (sym (src_any acl e))
        (single acl.network00 acl.filter_only acl.network00 acl r fit.all fit)
  | inr e ↦
      subst (λ objs. Replaced acl r objs (group_or_single objs acl r)) (sym (src_filter acl e))
        (group_or_single-Stands acl.network00 acl.filter_only acl r fit)
]

-- The outcome of the function: the groups still fit, and each packet is treated as expected.
abbrev pub Denies : LocalAcl → List CiscoRule × LocalAcl × RouterData → Type 0
Denies acl (rules, acl', r') =
    Fit acl.network00 acl.filter_only acl'.object_groups r'
    × ((s d : ℕ → Bool) → first_match s d acl'.object_groups rules ≡ expected s d acl)

groups-Denies :
    (acl : LocalAcl) (r : RouterData)
    → Fits acl r
    → Denies acl (with_permit acl (deny_groups acl r))
unfolding deny_groups with_permit ip_rule
groups-Denies acl r fit =
    let one = src-Stands acl r fit in
    let call = group_or_single (src_networks acl) acl r in
    let two = group_or_single-Stands acl.network00 acl.filter_only call.1 call.2 one.fit in
    let call' = group_or_single acl.filter_only call.1 call.2 in
    (
      two.fit,
      λ s d.
          ends s d call'.1.object_groups acl (ip_rule acl true call.0 call'.0 ∷ []) two.fit.all.0
            (refl, tt)
            (rw (two.older s call.0 one.used, one.stands s, two.stands d) (ground arith)),
    )

each-Denies :
    (acl : LocalAcl) (r : RouterData)
    → Fits acl r
    → Denies acl (with_permit acl (deny_each acl (src_networks acl) acl.filter_only, acl, r))
unfolding with_permit
each-Denies acl r fit = (
  fit,
  λ s d.
      let apart = Apart-All acl.object_groups r.next acl.filter_only fit.networks in
      ends s d acl.object_groups acl (deny_each acl (src_networks acl) acl.filter_only) fit.all.0
        (deny_each-All acl (src_networks acl) acl.filter_only)
        (any_src s d acl.object_groups acl (src_networks acl) acl.filter_only
          (src_networks-Apart acl r fit) apart),
)

-- Whether the rules name networks or groups: if the networks are no groups, and the group of the
-- interfaces, if there is one already, has the networks that are filtered, then this is so afterwards,
-- and a packet is denied if its source is in one of the networks that count as sources and its
-- destination in one that is filtered, and permitted otherwise.
pub add_local_deny_rules-Denies :
    (acl : LocalAcl) (r : RouterData) → Fits acl r → Denies acl (add_local_deny_rules acl r)
unfolding add_local_deny_rules
add_local_deny_rules-Denies acl r fit =
    let grouped = deny_groups acl r in
    let each : List CiscoRule × LocalAcl × RouterData =
      (deny_each acl (src_networks acl) acl.filter_only, acl, r) in
    elim (Bool-cases r.do_objectgroup) [
      | inl e ↦
          subst (λ b. Denies acl (with_permit acl (if b then grouped else each))) (sym e)
            (groups-Denies acl r fit)
      | inr e ↦
          subst (λ b. Denies acl (with_permit acl (if b then grouped else each))) (sym e)
            (each-Denies acl r fit)
    ]
