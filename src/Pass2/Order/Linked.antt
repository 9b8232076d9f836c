-- ===== src/Pass2/Order/Linked.antt =====
-- The links that `orderRanges` sets, for ranges of which no two overlap.
use mathlib.Core.List.{Memᴰ}
use mathlib.Core.List.Memᴰ.{head, tail}
use netspoc.Prelude.{
  ℕ, zero, suc, ◌≤◌, ◌<◌, ◌≡◌, ◌≢◌, ◌⊎◌, inl, inr, refl, sym, ap, ◌∙◌, subst, some, List, [], ◌∷◌,
  arith, All, All-Mem, Mem-All, Mem-before, Mem-behind, length, length-append,
}
use netspoc.Pass2.Rules.{Proto}
use netspoc.Pass2.Order.{Checked, done, ◌>>=◌, set_up, check_subrange, order_from}
use netspoc.Pass2.Order.Keeps.{set_up_here, set_up_other}
use netspoc.Pass2.Order.Nested.{
  Includes, Behind, Apart, Smallest, Ports, Handled, set_up-Ports, check-Handled, Behind-differs,
  Behind-outside, Apart-order, Apart-behind, Mem-split,
}

module _ (low high : ℕ → ℕ) where
  -- `p` is linked with the smallest range that includes it, or with `up` if there is none.
  abbrev pub Linked : List ℕ → ℕ → (ℕ → Proto) → ℕ → Type 0
  Linked ranges up prt p =
      ((q : ℕ) × ((prt p).up ≡ some q) × Smallest low high ranges p q)
      ⊎ (((prt p).up ≡ some up) × ((r : ℕ) → Memᴰ r ranges → r ≢ p → Includes low high r p → ⊥))

  abbrev pub AllLinked : List ℕ → ℕ → (ℕ → Proto) → Checked → Type 0
  AllLinked ranges up s c =
      (prt : ℕ → Proto) × (c ≡ done [] prt)
      × ((x : ℕ) → All (λ r. r ≢ x) ranges → (prt x).up ≡ (s x).up)
      × ((p : ℕ) → Memᴰ p ranges → Linked ranges up prt p)

  module _ (valid : (x : ℕ) → low x ≤ high x) where
    -- The ranges in `a`, and `a` itself, and then the ranges behind them.
    module _ (up a : ℕ) (ranges : List ℕ) (s : ℕ → Proto) (c : Checked)
        (go_on : List ℕ → (ℕ → Proto) → Checked) (first : All (Behind low high a) ranges)
        (apart : Apart low high ranges) (h : Handled low high a ranges (set_up a up s) c)
        (others : AllLinked h.rest up h.prt (go_on h.rest h.prt)) where
      place : (x : ℕ) → Memᴰ x ranges → Memᴰ x h.pre ⊎ Memᴰ x h.rest
      place x m = Mem-split low high h.pre h.rest (subst (Memᴰ x) h.split m)

      from_pre : (x : ℕ) → Memᴰ x h.pre → Memᴰ x ranges
      from_pre x m = rw h.split (Mem-before h.pre h.rest m)

      from_rest : (x : ℕ) → Memᴰ x h.rest → Memᴰ x ranges
      from_rest x m = rw h.split (Mem-behind h.pre h.rest m)

      in_order : (p r : ℕ) → Memᴰ p h.pre → Memᴰ r h.rest → Behind low high p r
      in_order p r m n =
          Apart-order low high valid h.pre h.rest p r (subst (Apart low high) h.split apart) m n

      not-Behind : (x y : ℕ) → Behind low high x y → y ≢ x
      not-Behind x y b e = Behind-differs low high valid x y b (sym e)

      unchanged :
          (x : ℕ) → ((r : ℕ) → Memᴰ r h.rest → Behind low high x r) → (others.0 x).up ≡ (h.prt x).up
      unchanged x behind =
          others.2 x (Mem-All (λ r. r ≢ x) h.rest (λ r m. not-Behind x r (behind r m)))

      Linked-a : Linked (a ∷ ranges) up others.0 a
      Linked-a = inr (
        unchanged a (λ r m. All-Mem (Behind low high a) ranges r first (from_rest r m))
            ∙ h.kept a (
                Mem-All (λ r. r ≢ a) h.pre
                  (λ r m.
                    not-Behind a r (All-Mem (Behind low high a) ranges r first (from_pre r m))))
            ∙ set_up_here a up s,
        free,
      )
        where
          free : (r : ℕ) → Memᴰ r (a ∷ ranges) → r ≢ a → Includes low high r a → ⊥
          free r (head e) ne i = ne e
          free r (tail m) ne i =
              Behind-outside low high valid a r (All-Mem (Behind low high a) ranges r first m) i

      Linked-pre : (p : ℕ) → Memᴰ p h.pre → Linked (a ∷ ranges) up others.0 p
      Linked-pre p m =
          let (q, e, (mq, ne, i, small)) = h.linked p m in
          inl (q, unchanged p (λ r n. in_order p r m n) ∙ e, (up_to q mq, ne, i, least q small))
        where
          up_to : (q : ℕ) → Memᴰ q (a ∷ h.pre) → Memᴰ q (a ∷ ranges)
          up_to q (head e) = head e
          up_to q (tail n) = tail (from_pre q n)

          least :
              (q : ℕ)
              → ((r : ℕ)
                  → Memᴰ r (a ∷ h.pre)
                  → r ≢ p
                  → Includes low high r p
                  → Includes low high r q)
              → (r : ℕ) → Memᴰ r (a ∷ ranges)
              → r ≢ p
              → Includes low high r p
              → Includes low high r q
          least q small r (head e) ne i = small r (head e) ne i
          least q small r (tail n) ne i = elim (place r n) [
            | inl k ↦ small r (tail k) ne i
            | inr k ↦ absurd (Behind-outside low high valid p r (in_order p r m k) i)
          ]

      -- What ends before `p` does not include it.
      beyond : (p r : ℕ) → Memᴰ p h.rest → Memᴰ r (a ∷ h.pre) → Includes low high r p → ⊥
      beyond p r m (head e) i =
          let lt = All-Mem (λ x. high a < low x) h.rest p h.outside m in
          let e' = ap high e in let v = valid p in omega (arith, i.1)
      beyond p r m (tail n) i =
          let lt = All-Mem (λ x. high a < low x) h.rest p h.outside m in
          let le = (All-Mem (Includes low high a) h.pre r h.inside n).1 in
          let v = valid p in omega (arith, i.1)

      to_rest :
          (p r : ℕ) → Memᴰ p h.rest → Memᴰ r (a ∷ ranges) → Includes low high r p → Memᴰ r h.rest
      to_rest p r m (head e) i = absurd (beyond p r m (head e) i)
      to_rest p r m (tail n) i = elim (place r n) [
        | inl k ↦ absurd (beyond p r m (tail k) i)
        | inr k ↦ k
      ]

      Linked-rest : (p : ℕ) → Memᴰ p h.rest → Linked (a ∷ ranges) up others.0 p
      Linked-rest p m = elim (others.3 p m) [
        | inl (q, e, (mq, ne, i, small)) ↦ inl (
          q,
          e,
          (tail (from_rest q mq), ne, i, λ r n ne' i'. small r (to_rest p r m n i') ne' i'),
        )
        | inr (e, free) ↦ inr (e, λ r n ne i. free r (to_rest p r m n i) ne i)
      ]

      Linked-any : (p : ℕ) → Memᴰ p (a ∷ ranges) → Linked (a ∷ ranges) up others.0 p
      Linked-any p (head e) = subst (Linked (a ∷ ranges) up others.0) (sym e) Linked-a
      Linked-any p (tail m) = elim (place p m) [ inl n ↦ Linked-pre p n | inr n ↦ Linked-rest p n ]

      all_linked : AllLinked (a ∷ ranges) up s (c >>= go_on)
      all_linked = (
        others.0,
        rw h.returns others.1,
        λ x d.
            others.2 x (
              Mem-All (λ r. r ≢ x) h.rest
                (λ r m. All-Mem (λ r. r ≢ x) ranges r d.1 (from_rest r m)))
            ∙ h.kept x (
                Mem-All (λ r. r ≢ x) h.pre
                  (λ r m. All-Mem (λ r. r ≢ x) ranges r d.1 (from_pre r m)))
            ∙ set_up_other a up s x d.0,
        Linked-any,
      )

    pub order_from-AllLinked :
        (fuel up : ℕ) (ranges : List ℕ) (s : ℕ → Proto)
        → Ports low high s
        → Apart low high ranges
        → length ranges < fuel
        → AllLinked ranges up s (order_from fuel up ranges s)
    unfolding order_from
    order_from-AllLinked zero up ranges s ports apart lt = absurd (omega arith)
    order_from-AllLinked (suc fuel) up [] s ports apart lt =
        (s, refl, λ x d. refl, λ p m. elim m [ ])
    order_from-AllLinked (suc fuel) up (a ∷ ranges) s ports apart lt =
        let h =
          check-Handled low high valid (suc fuel) a ranges (set_up a up s)
            (set_up-Ports low high a up s ports) apart.0 apart.1 (omega arith) in
        all_linked up a ranges s (check_subrange (suc fuel) a ranges (set_up a up s))
          (order_from fuel up) apart.0 apart.1 h
          (order_from-AllLinked fuel up h.rest h.prt h.ports
            (Apart-behind low high h.pre h.rest (subst (Apart low high) h.split apart.1))
            (omega (arith, ap length h.split, length-append h.pre h.rest)))
