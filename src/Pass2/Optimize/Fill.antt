-- ===== src/Pass2/Optimize/Fill.antt =====
-- `addRule` over the list of rules: the tree holds one rule for each key, and the others are deleted.
use mathlib.Core.List.{Memᴰ}
use mathlib.Core.List.Memᴰ.{head, tail, cases_cons}
use netspoc.Prelude.{
  ℕ, ◌≡◌, ◌≢◌, ◌⊎◌, inl, inr, refl, sym, ap, ◌∙◌, true, false, none, some, List, [], ◌∷◌, arith,
  Bool-cases, Option-cases, ==_iff, ==_refl, ◌==◌, ℕ_discrete,
}
use mathlib.Core.Path.{subst}
use netspoc.Pass2.Rules.{CiscoRule, State, delete}
use netspoc.Pass2.Redundant.{RuleTree, Key, find, insert, key_of}
use netspoc.Pass2.Redundant.Tree.{Good5, find-insert_self, find-insert_ne, insert-Good}
use netspoc.Pass2.Optimize.{add_rule, fill_tree}
use netspoc.Pass2.Optimize.Marks.{Marks, Marks-refl, Marks-weaken, Marks-delete}

Key-discrete : Discrete Key
Key-discrete = hlevel ℕ_discrete

-- The tree after the rules of `P` have been added to it.
pub record Filled (prt_ip : ℕ) (s : State) (P : ℕ → Type 0) (ts : RuleTree × State) : Type 0 where
  pub good : Good5 ts.0
  pub keyed :
      (k : Key) (r : ℕ)
      → find ts.0 k ≡ some r
      → (key_of prt_ip (s.rule r) ≡ k) × P r × ((ts.1.rule r).deleted ≡ false)
  pub placed :
      (r : ℕ)
      → P r
      → (c : ℕ) × (find ts.0 (key_of prt_ip (s.rule r)) ≡ some c)
        × ((c ≡ r) ⊎ ((ts.1.rule r).deleted ≡ true))
  pub marks : Marks P s ts.1

Filled-weaken :
    {prt_ip : ℕ} {s : State} {P Q : ℕ → Type 0} {ts : RuleTree × State}
    → ((r : ℕ) → P r → Q r)
    → ((r : ℕ) → Q r → P r)
    → Filled prt_ip s P ts
    → Filled prt_ip s Q ts
Filled-weaken there back f = record {
  good = f.good;
  keyed = λ k r e. let (a, b, c) = f.keyed k r e in (a, there r b, c);
  placed = λ r q. f.placed r (back r q);
  marks = Marks-weaken there f.marks;
}

abbrev pub Adds : (ℕ → Type 0) → ℕ → ℕ → Type 0
Adds P r q = P q ⊎ (q ≡ r)

deleted-else : (r q : ℕ) (s : State) → r ≢ q → ((delete r s).rule q) ≡ s.rule q
deleted-else r q s ne = elim (Bool-cases (r == q)) [
  | inl e ↦ absurd (ne ((==_iff r q).0 e))
  | inr e ↦ rw e
]

-- A rule that is not in the tree yet, and not deleted, is added.
module _ (prt_ip : ℕ) (s : State) (P : ℕ → Type 0) (t : RuleTree) (now : State)
    (f : Filled prt_ip s P (t, now)) (r : ℕ) (new : ¬ P r)
    (active : (s.rule r).deleted ≡ false) where
  same_key : key_of prt_ip (now.rule r) ≡ key_of prt_ip (s.rule r)
  unfolding key_of
  same_key = rw (f.marks.kept r)

  still_active : (now.rule r).deleted ≡ false
  still_active = elim (Bool-cases (now.rule r).deleted) [
    | inl e ↦ elim (f.marks.cause r e) [ inl d ↦ ground arith | inr p ↦ absurd (new p) ]
    | inr e ↦ e
  ]

  insert-Filled :
      find t (key_of prt_ip (s.rule r)) ≡ none
      → Filled prt_ip s (Adds P r) (insert (key_of prt_ip (s.rule r)) r t, now)
  insert-Filled absent = record {
    good = insert-Good _ r t f.good;
    keyed = λ k q e. elim (Key-discrete (key_of prt_ip (s.rule r)) k) [
      | yes same ↦
          let key = key_of prt_ip (s.rule r) in
          let rq : r ≡ q = cc (find-insert_self key r t, ap (find (insert key r t)) same) in
          (
            ap (λ (x : ℕ). key_of prt_ip (s.rule x)) (sym rq) ∙ same,
            inr (sym rq),
            ap (λ (x : ℕ). (now.rule x).deleted) (sym rq) ∙ still_active,
          )
      | no differ ↦
          let (a, b, c) = f.keyed k q (sym (find-insert_ne _ k r t differ) ∙ e) in (a, inl b, c)
    ];
    placed = λ q. elim [
      | inl p ↦
          let (c, e, o) = f.placed q p in
          (c, find-insert_ne _ _ r t (λ same. cc (ap (find t) same)) ∙ e, o)
      | inr same ↦ (
        r,
        ap (λ (x : ℕ). find (insert (key_of prt_ip (s.rule r)) r t) (key_of prt_ip (s.rule x))) same
            ∙ find-insert_self _ r t,
        inl (sym same),
      )
    ];
    marks = Marks-weaken (λ q p. inl p) f.marks;
  }

  duplicate-Filled :
      (c : ℕ)
      → find t (key_of prt_ip (s.rule r)) ≡ some c
      → Filled prt_ip s (Adds P r) (t, delete r now)
  duplicate-Filled c found = record {
    good = f.good;
    keyed = λ k q e.
        let (a, b, d) = f.keyed k q e in
        (
          a,
          inl b,
          ap (λ (x : CiscoRule). x.deleted)
                (deleted-else r q now (λ same. new (subst P (sym same) b)))
              ∙ d,
        );
    placed = λ q. elim [
      | inl p ↦
          let (d, e, o) = f.placed q p in
          (d, e, elim o [ inl same ↦ inl same | inr gone ↦ inr (marks'.stays q gone) ])
      | inr same ↦ (
        c,
        ap (λ (x : ℕ). find t (key_of prt_ip (s.rule x))) same ∙ found,
        inr (ap (λ (x : ℕ). ((delete r now).rule x).deleted) same ∙ deleted_self),
      )
    ];
    marks = Marks-delete r (inr refl) (Marks-weaken (λ q p. inl p) f.marks);
  }
    where
      deleted_self : ((delete r now).rule r).deleted ≡ true
      deleted_self = rw (==_refl r)

      marks' : Marks (λ _. Unit {0}) now (delete r now)
      marks' = Marks-delete r tt (Marks-refl _ now)

  add_rule-Filled : Filled prt_ip s (Adds P r) (add_rule prt_ip r (t, now))
  unfolding add_rule
  add_rule-Filled = elim (Option-cases (find t (key_of prt_ip (s.rule r)))) [
    | inl e ↦ rw (same_key, e) (insert-Filled e)
    | inr (c, e) ↦ rw (same_key, e) (duplicate-Filled c e)
  ]

-- No pointer stands twice.
abbrev pub Distinct : List ℕ → Type 0
Distinct [] = Unit
Distinct (r ∷ rs) = (¬ Memᴰ r rs) × Distinct rs

abbrev pub Active : State → List ℕ → Type 0
Active s rs = (r : ℕ) → Memᴰ r rs → (s.rule r).deleted ≡ false

in_cons : (P : ℕ → Type 0) {r q : ℕ} {rs : List ℕ} → (q ≡ r) ⊎ Memᴰ q rs → Adds P r q ⊎ Memᴰ q rs
in_cons P (inl e) = inl (inr e)
in_cons P (inr m) = inr m

fill-Filled :
    (prt_ip : ℕ) (s : State) (P : ℕ → Type 0) (rs : List ℕ) (ts : RuleTree × State)
    → ((r : ℕ) → Memᴰ r rs → ¬ P r)
    → Distinct rs
    → Active s rs
    → Filled prt_ip s P ts
    → Filled prt_ip s (λ q. P q ⊎ Memᴰ q rs) (fill_tree prt_ip rs ts)
unfolding fill_tree
fill-Filled prt_ip s P [] ts new distinct active f =
    Filled-weaken (λ q. inl) (λ q. elim [ inl p ↦ p | inr m ↦ elim m [ ] ]) f
fill-Filled prt_ip s P (r ∷ rs) (t, now) new distinct active f =
    Filled-weaken
      (λ q. elim [ inl (inl p) ↦ inl p | inl (inr e) ↦ inr (head e) | inr m ↦ inr (tail m) ])
      (λ q. elim [ inl p ↦ inl (inl p) | inr m ↦ in_cons P (cases_cons m) ])
      (fill-Filled prt_ip s (Adds P r) rs _
        (λ q m. elim [ inl p ↦ new q (tail m) p | inr e ↦ distinct.0 (subst (λ x. Memᴰ x rs) e m) ])
        distinct.1 (λ q m. active q (tail m))
        (add_rule-Filled prt_ip s P t now f r (new r (head refl)) (active r (head refl))))

empty-Filled : (prt_ip : ℕ) (s : State) → Filled prt_ip s (λ _. ⊥) ([], s)
empty-Filled prt_ip s = record {
  good = tt;
  keyed = λ k r e. cc;
  placed = λ r p. absurd p;
  marks = Marks-refl _ s;
}

-- All of a list added to the empty tree.
pub fill_tree-Filled :
    (prt_ip : ℕ) (s : State) (rs : List ℕ)
    → Distinct rs
    → Active s rs
    → Filled prt_ip s (λ r. Memᴰ r rs) (fill_tree prt_ip rs ([], s))
fill_tree-Filled prt_ip s rs distinct active =
    Filled-weaken (λ q. elim [ inl p ↦ absurd p | inr m ↦ m ]) (λ q. inr)
      (fill-Filled prt_ip s (λ _. ⊥) rs ([], s) (λ q m p. p) distinct active
        (empty-Filled prt_ip s))
