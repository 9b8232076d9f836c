-- ===== src/Pass2/Join/Kept.antt =====
-- `joinRanges` as a whole: the grouping by keys, and what the rules say about ports.
use netspoc.Prelude.{
  ℕ, ◌+◌, ◌≤◌, ◌≡◌, inl, inr, refl, sym, ap, subst, ◌∙◌, true, false, List, [], ◌∷◌, ◌++◌, ◌==◌,
  arith, Bool-cases, any,
}
use netspoc.Prelude.Count.{count, once, Unique, count-append}
use netspoc.Prelude.Sort.{SortSlice}
use netspoc.Pass2.Rules.{CiscoRule}
use netspoc.Pass2.Optimize.{not_deleted}
use netspoc.Pass2.Protocol.{Protos}
use netspoc.Pass2.Protocol.Names.{HasPorts}
use netspoc.Pass2.Join.{
  JoinKey, JoinState, prt_of, join_key, key_eq, add_to_group, group_rules, join_group, join_groups,
  join_ranges,
}
use netspoc.Pass2.Join.Step.{Query, answers, Sound, Fit, key_eq-eq}
use netspoc.Pass2.Join.Groups.{Kept, Kept-refl, Kept-trans, AllFit, Within, join_group-Kept}

abbrev Buckets : Type 0
Buckets = List (JoinKey × List ℕ)

abbrev flat : Buckets → List ℕ
flat [] = []
flat ((k, xs) ∷ g) = xs ++ flat g

-- Each list of rules fits its key.
abbrev GroupsFit : JoinState → Buckets → Type 0
GroupsFit s [] = Unit
GroupsFit s ((k, xs) ∷ g) = AllFit s k xs × GroupsFit s g

-- A rule whose range has a neighbor is in force, for TCP or UDP, and has a range of ports.
pub record Joinable (s : JoinState) (r : ℕ) : Type 0 where
  pub alive : (s.rule r).deleted ≡ false
  pub ports : HasPorts (prt_of s r).protocol
  pub opened : (prt_of s r).established ≡ false
  pub range : (prt_of s r).low ≤ (prt_of s r).high

AllFit-snoc :
    (s : JoinState) (k : JoinKey) (xs : List ℕ) (r : ℕ)
    → AllFit s k xs
    → Fit s k r
    → AllFit s k (xs ++ r ∷ [])
AllFit-snoc s k xs r fits fit q le = elim (Bool-cases (r == q)) [
  | inl e ↦ let same : r ≡ q = ground arith in subst (Fit s k) same fit
  | inr e ↦ fits q (ground (arith, count-append q xs (r ∷ [])))
]

add_to_group-Fit :
    (s : JoinState) (k : JoinKey) (r : ℕ) (g : Buckets)
    → Fit s k r
    → GroupsFit s g
    → GroupsFit s (add_to_group k r g)
unfolding add_to_group
add_to_group-Fit s k r [] fit fits = (λ q le. subst (Fit s k) (ground arith) fit, tt)
add_to_group-Fit s k r ((k', xs) ∷ g) fit fits = elim (Bool-cases (key_eq k' k)) [
  | inl e ↦
      rw e
        (AllFit-snoc s k' xs r fits.0 (subst (λ k. Fit s k r) (sym (key_eq-eq k' k e)) fit), fits.1)
  | inr e ↦ rw e (fits.0, add_to_group-Fit s k r g fit fits.1)
]

add_to_group-count :
    (k : JoinKey) (r : ℕ) (g : Buckets) (q : ℕ)
    → count q (flat (add_to_group k r g)) ≡ once q r + count q (flat g)
unfolding add_to_group
add_to_group-count k r [] q = refl
add_to_group-count k r ((k', xs) ∷ g) q = elim (Bool-cases (key_eq k' k)) [
  | inl e ↦ rw e (
      omega (
        arith,
        count-append q (xs ++ r ∷ []) (flat g),
        count-append q xs (r ∷ []),
        count-append q xs (flat g),
      ))
  | inr e ↦ rw e (
      omega (
        arith,
        count-append q xs (flat (add_to_group k r g)),
        count-append q xs (flat g),
        add_to_group-count k r g q,
      ))
]

-- The lists of `key2rules` fit their keys, and hold no rule more often than the access list does.
group_rules-Fit :
    (s : JoinState) (rs : List ℕ) (g : Buckets)
    → ((r : ℕ) → 1 ≤ count r rs → (prt_of s r).has_neighbor ≡ true → Joinable s r)
    → GroupsFit s g
    → GroupsFit s (group_rules s rs g)
      × ((q : ℕ) → count q (flat (group_rules s rs g)) ≤ count q rs + count q (flat g))
unfolding group_rules
group_rules-Fit s [] g joinable fits = (fits, λ q. omega arith)
group_rules-Fit s (r ∷ rs) g joinable fits =
    let later : (q : ℕ) → 1 ≤ count q rs → (prt_of s q).has_neighbor ≡ true → Joinable s q =
      λ q le. joinable q (omega arith) in
    elim (Bool-cases (prt_of s r).has_neighbor) [
      | inl e ↦
          let j = joinable r (ground arith) e in
          let fit : Fit s (join_key s r) r = record {
            alive = j.alive;
            keyed = refl;
            ports = j.ports;
            opened = j.opened;
            range = j.range;
          } in
          let (ok, le) =
            group_rules-Fit s rs (add_to_group (join_key s r) r g) later
              (add_to_group-Fit s (join_key s r) r g fit fits) in
          rw e (ok, λ q. omega (arith, le q, add_to_group-count (join_key s r) r g q))
      | inr e ↦
          let (ok, le) = group_rules-Fit s rs g later fits in rw e (ok, λ q. omega (arith, le q))
    ]

Kept-Fit :
    {rs t : List ℕ} {s s' : JoinState} (k : JoinKey) (r : ℕ)
    → Sound s
    → Kept rs t s s'
    → count r t ≡ 0
    → Fit s k r
    → Fit s' k r
Kept-Fit {s} {s'} k r sound kept z fit =
    let rule = kept.others r z in
    let prt : prt_of s' r ≡ prt_of s r =
      ap (λ (x : CiscoRule). s'.protos.prt x.prt) rule
      ∙ kept.frame.kept (s.rule r).prt (sound.used r) in
    let key : join_key s' r ≡ join_key s r = rw (rule, prt) refl in
    record {
      alive = rw rule fit.alive;
      keyed = key ∙ fit.keyed;
      ports = rw prt fit.ports;
      opened = rw prt fit.opened;
      range = rw prt fit.range;
    }

GroupsFit-Kept :
    {rs t : List ℕ} {s s' : JoinState} (g : Buckets)
    → Sound s
    → Kept rs t s s'
    → ((r : ℕ) → 1 ≤ count r (flat g) → count r t ≡ 0)
    → GroupsFit s g
    → GroupsFit s' g
GroupsFit-Kept [] sound kept apart fits = tt
GroupsFit-Kept ((k, xs) ∷ g) sound kept apart fits = (
  λ r le.
      Kept-Fit k r sound kept (apart r (omega (arith, count-append r xs (flat g)))) (fits.0 r le),
  GroupsFit-Kept g sound kept (λ r le. apart r (omega (arith, count-append r xs (flat g)))) fits.1,
)

join_groups-Kept :
    (slices : SortSlice ℕ) (rs : List ℕ) (g : Buckets) (s : JoinState)
    → Sound s
    → GroupsFit s g
    → Unique (flat g)
    → Within (flat g) rs
    → Kept rs (flat g) s (join_groups slices g s)
unfolding join_groups
join_groups-Kept slices rs [] s sound fits unique within = Kept-refl rs [] s sound
join_groups-Kept slices rs ((k, xs) ∷ g) s sound fits unique within =
    let sum : (r : ℕ) → count r (xs ++ flat g) ≡ count r xs + count r (flat g) =
      λ r. count-append r xs (flat g) in
    let first =
      join_group-Kept slices rs k xs s sound fits.0 (λ r. omega (arith, sum r, unique r))
        (λ r le. within r (omega (arith, sum r))) in
    let rest =
      join_groups-Kept slices rs g (join_group slices xs s) first.sound
        (GroupsFit-Kept g sound first (λ r le. omega (arith, sum r, unique r)) fits.1)
        (λ r. omega (arith, sum r, unique r)) (λ r le. within r (omega (arith, sum r))) in
    Kept-trans (λ r z. omega (arith, sum r)) (λ r z. omega (arith, sum r)) first rest

any-not_deleted :
    (q : Query) (s : JoinState) (rs : List ℕ)
    → any (answers q s) (not_deleted s.rule rs) ≡ any (answers q s) rs
unfolding not_deleted answers
any-not_deleted q s [] = refl
any-not_deleted q s (r ∷ rs) = ground (arith, any-not_deleted q s rs)

abbrev pub unjoined : (ℕ → CiscoRule) → Protos → JoinState
unjoined store protos = record { rule = store; protos = protos; changed = false }

-- For each action, source, destination, source range, logging and protocol, and for each port, the
-- list that `joinRanges` returns has a rule in force just where the given list has one: joining
-- adjacent ranges gains and loses no port. The rules are given once each, those whose range has a
-- neighbor are in force, for TCP or UDP, not only for established connections and with a range that
-- is not empty, and the map from names to protocols is in order.
pub join_ranges-answers :
    (slices : SortSlice ℕ) (rules : List ℕ) (store : ℕ → CiscoRule) (protos : Protos)
    → Sound (unjoined store protos)
    → Unique rules
    → ((r : ℕ)
        → 1 ≤ count r rules
        → (prt_of (unjoined store protos) r).has_neighbor ≡ true
        → Joinable (unjoined store protos) r)
    → (q : Query)
    → let (rules', s) = join_ranges slices rules store protos in
      any (answers q s) rules' ≡ any (answers q (unjoined store protos)) rules
unfolding join_ranges
join_ranges-answers slices rules store protos sound unique joinable q =
    let start = unjoined store protos in
    let (fits, le) = group_rules-Fit start rules [] joinable tt in
    let g = group_rules start rules [] in
    let kept =
      join_groups-Kept slices rules g start sound fits (λ r. omega (arith, le r, unique r))
        (λ r some_r. omega (arith, le r)) in
    let s = join_groups slices g start in
    elim (Bool-cases s.changed) [
      | inl e ↦ rw e (any-not_deleted q s rules ∙ kept.same q)
      | inr e ↦ rw e (kept.same q)
    ]
