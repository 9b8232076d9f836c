-- ===== src/Duplicates/Kept.antt =====
-- Which rules `removeSimpleDuplicateRules` removes from one list.
use netspoc.Prelude.{
  ◌≡◌, ◌≢◌, sym, ◌∙◌, ap, inl, inr, refl, Bool, true, not, ◌||◌, none, some, List, [], ◌∷◌, arith,
  Bool-cases, Option-cases, any, All, select,
}
use mathlib.Core.Option.{some-injective}
use netspoc.Prelude.Lists.{Mem-All}
use netspoc.Prelude.Sort.{Pairwise}
use netspoc.Reverse.{GroupedRule}
use netspoc.Reverse.Swap.{Packet}
use netspoc.Reverse.{Spoc}
use netspoc.Reverse.Answers.{matches}
use netspoc.Duplicates.{
  DuplKey, simple_key, same_key, is_seen, mark_seen, remove_duplicates,
  remove_simple_duplicate_rules,
}
use netspoc.Duplicates.Simple.{
  SameRule, is_plain, simple_key-is_plain, simple_key-none, same_simple_key, simple_key-SameRule,
  same_key-eq, same_key_refl,
}

-- A test that only looks at what `SameRule` compares.
abbrev pub Respects : (GroupedRule → Bool) → Type 0
Respects f = (a b : GroupedRule) → SameRule a b → f a ≡ f b

-- The first rule is repeated by the second one, which is plain.
abbrev pub Repeats : GroupedRule → GroupedRule → Type 0
Repeats a b = (is_plain b ≡ true) × SameRule a b

not_plain : GroupedRule → Bool
not_plain r = not (is_plain r)

-- The keys are those of the rules.
Keys : List DuplKey → List GroupedRule → Type 0
Keys [] [] = Unit
Keys (k ∷ ks) (r ∷ rs) = (simple_key r ≡ some k) × Keys ks rs
Keys _ _ = ⊥

module _ (f : GroupedRule → Bool) (respects : Respects f) where
  -- A rule whose key was seen repeats a rule before it.
  seen_before :
      (r : GroupedRule) (k : DuplKey)
      → simple_key r ≡ some k
      → (seen : List DuplKey) (before : List GroupedRule) → Keys seen before
      → any (same_key k) seen ≡ true
      → f r ≡ true
      → any f before ≡ true
  unfolding Keys
  seen_before r k e [] before keys t h = cc
  seen_before r k e (l ∷ seen) [] keys t h = absurd keys
  seen_before r k e (l ∷ seen) (b ∷ before) keys t h = elim (Bool-cases (same_key k l)) [
    | inl same ↦
        let key : simple_key b ≡ some k = keys.0 ∙ ap some (sym (same_key-eq k l same)) in
        let found : f b ≡ true = respects b r (simple_key-SameRule b r k key e) ∙ h in
        ground (arith, found)
    | inr other ↦
        let rest : any f before ≡ true =
          seen_before r k e seen before keys.1 (ground (arith, other)) h in
        ground (arith, rest)
  ]

  any-remove_duplicates :
      (seen : List DuplKey) (before rs : List GroupedRule)
      → Keys seen before
      → (any f (remove_duplicates seen rs) || any f before) ≡ (any f rs || any f before)
  unfolding remove_duplicates is_seen mark_seen Keys
  any-remove_duplicates seen before [] keys = refl
  any-remove_duplicates seen before (r ∷ rs) keys = elim (Option-cases (simple_key r)) [
    | inl e ↦ rw e (ground (arith, any-remove_duplicates seen before rs keys))
    | inr (k, e) ↦ elim (Bool-cases (any (same_key k) seen)) [
      | inl t ↦
          rw (e, t)
            (ground (
              arith,
              any-remove_duplicates seen before rs keys,
              seen_before r k e seen before keys t,
            ))
      | inr u ↦
          rw (e, u) (ground (arith, any-remove_duplicates (k ∷ seen) (r ∷ before) rs (e, keys)))
    ]
  ]

-- No rule has a key that was seen.
seen_once :
    (k : DuplKey) (seen : List DuplKey) (rs : List GroupedRule)
    → any (same_key k) seen ≡ true
    → All (λ b. simple_key b ≢ some k) (remove_duplicates seen rs)
unfolding remove_duplicates is_seen mark_seen
seen_once k seen [] t = tt
seen_once k seen (r ∷ rs) t = elim (Option-cases (simple_key r)) [
  | inl e ↦ rw e (λ same. cc, seen_once k seen rs t)
  | inr (l, e) ↦ elim (Bool-cases (any (same_key l) seen)) [
    | inl s ↦ rw (e, s) (seen_once k seen rs t)
    | inr u ↦
        rw (e, u)
          (
            λ same.
                let eq : l ≡ k = some-injective l k (sym e ∙ same) in
                cc (ap (λ (x : DuplKey). any (same_key x) seen) eq, u, t),
            seen_once k (l ∷ seen) rs (ground (arith, t)),
          )
  ]
]

All-map :
    {P Q : GroupedRule → Type 0} (rs : List GroupedRule)
    → ((r : GroupedRule) → P r → Q r)
    → All P rs
    → All Q rs
All-map [] g h = tt
All-map (r ∷ rs) g h = (g r h.0, All-map rs g h.1)

never_repeated : (a b : GroupedRule) → simple_key a ≡ none → ¬ Repeats a b
never_repeated a b e (plain, same) =
    cc (simple_key-none b (sym (same_simple_key a b same) ∙ e), plain)

Pairwise-remove_duplicates :
    (seen : List DuplKey) (rs : List GroupedRule)
    → Pairwise (λ a b. ¬ Repeats a b) (remove_duplicates seen rs)
unfolding remove_duplicates is_seen mark_seen
Pairwise-remove_duplicates seen [] = tt
Pairwise-remove_duplicates seen (r ∷ rs) = elim (Option-cases (simple_key r)) [
  | inl e ↦ rw e (
    Mem-All (λ b. ¬ Repeats r b) (remove_duplicates seen rs) (λ b m. never_repeated r b e),
    Pairwise-remove_duplicates seen rs,
  )
  | inr (k, e) ↦ elim (Bool-cases (any (same_key k) seen)) [
    | inl t ↦ rw (e, t) (Pairwise-remove_duplicates seen rs)
    | inr u ↦
        let later = seen_once k (k ∷ seen) rs (ground (arith, same_key_refl k)) in
        rw (e, u)
          (
            All-map (remove_duplicates (k ∷ seen) rs)
                (λ b fresh both. fresh (sym (same_simple_key r b both.1) ∙ e)) later,
            Pairwise-remove_duplicates (k ∷ seen) rs,
          )
  ]
]

select-remove_duplicates :
    (seen : List DuplKey) (rs : List GroupedRule)
    → select (λ r. not (is_plain r)) (remove_duplicates seen rs) ≡ select (λ r. not (is_plain r)) rs
unfolding remove_duplicates is_seen mark_seen
select-remove_duplicates seen [] = refl
select-remove_duplicates seen (r ∷ rs) = elim (Option-cases (simple_key r)) [
  | inl e ↦ rw (e, simple_key-none r e) (ap (λ l. r ∷ l) (select-remove_duplicates seen rs))
  | inr (k, e) ↦ elim (Bool-cases (any (same_key k) seen)) [
    | inl t ↦ rw (e, t, simple_key-is_plain r k e) (select-remove_duplicates seen rs)
    | inr u ↦ rw (e, u, simple_key-is_plain r k e) (select-remove_duplicates (k ∷ seen) rs)
  ]
]

-- For each test that only looks at the sources, destinations, protocols, source ports and attributes
-- of a rule, some rule that is left passes it exactly if some given rule does: a rule that is removed
-- repeats one that is left. A plain rule, which has one source, one destination, one protocol and
-- none of source ports, `log`, `oneway` and `stateless`, repeats no rule that is left before it, and the
-- rules that are not plain are all left, in order.
pub remove_simple_duplicate_rules-Repeats :
    (f : GroupedRule → Bool)
    → Respects f
    → (rules : List GroupedRule)
    → (any f (remove_simple_duplicate_rules rules) ≡ any f rules)
      × Pairwise (λ a b. ¬ Repeats a b) (remove_simple_duplicate_rules rules)
      × (select (λ r. not (is_plain r)) (remove_simple_duplicate_rules rules)
          ≡ select (λ r. not (is_plain r)) rules)
unfolding remove_simple_duplicate_rules Keys
remove_simple_duplicate_rules-Repeats f respects rules = (
  ground (arith, any-remove_duplicates f respects [] [] rules tt),
  Pairwise-remove_duplicates [] rules,
  select-remove_duplicates [] rules,
)

-- Such a test is whether the rule matches a packet.
pub matches-Respects : (c : Spoc) (pkt : Packet) → Respects (λ r. matches c r pkt)
unfolding matches
matches-Respects c pkt a b same = rw (same.src, same.dst, same.prt, same.src_range) refl
