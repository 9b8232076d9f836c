-- ===== src/Pass2/Order/Nested.antt =====
-- `orderRanges` links each range with the smallest one that includes it.
use mathlib.Core.List.{Memᴰ, append_assoc}
use mathlib.Core.List.Memᴰ.{head, tail}
use netspoc.Prelude.{
  ℕ, zero, suc, ◌≤◌, ◌<◌, ◌≡◌, ◌≢◌, ◌⊎◌, inl, inr, refl, sym, ap, ◌∙◌, subst, true, false, some,
  List, [], ◌∷◌, ◌++◌, ltb, leb, arith, All, All-Mem, Mem-All, All-append, Mem-before, Mem-behind,
  length, length-append,
}
use netspoc.Pass2.Rules.{Proto}
use netspoc.Pass2.Order.{Checked, done, ◌>>=◌, set_up, mark_neighbors, check_subrange}
use netspoc.Pass2.Order.Keeps.{mark_neighbors-field, set_up-field, set_up_here, set_up_other}

module _ (low high : ℕ → ℕ) where
  -- Range `q` includes range `p`.
  abbrev pub Includes : ℕ → ℕ → Type 0
  Includes q p = (low q ≤ low p) × (high p ≤ high q)

  -- A range behind `x` in the order lies in `x` and is smaller, or begins behind it.
  abbrev pub Behind : ℕ → ℕ → Type 0
  Behind x y =
      (low x ≤ low y)
      × ((high x < low y) ⊎ ((high y ≤ high x) × ((low x < low y) ⊎ (high y < high x))))

  abbrev pub Apart : List ℕ → Type 0
  Apart [] = Unit
  Apart (x ∷ xs) = All (Behind x) xs × Apart xs

  -- `q` is another range that includes `p`, and no range between the two does.
  abbrev pub Smallest : List ℕ → ℕ → ℕ → Type 0
  Smallest ranges p q =
      Memᴰ q ranges
      × (q ≢ p)
      × Includes q p
      × ((r : ℕ) → Memᴰ r ranges → r ≢ p → Includes r p → Includes r q)

  abbrev pub Ports : (ℕ → Proto) → Type 0
  Ports s = (x : ℕ) → ((s x).low ≡ low x) × ((s x).high ≡ high x)

  -- What `checkSubrange` did for `a`: the ranges up to the new position lie in `a` and are linked, those
  -- behind it begin behind `a`, and no other link has changed.
  pub record Handled (a : ℕ) (ranges : List ℕ) (s : ℕ → Proto) (r : Checked) : Type 0 where
    pub pre : List ℕ
    pub rest : List ℕ
    pub prt : ℕ → Proto
    pub returns : r ≡ done rest prt
    pub split : ranges ≡ pre ++ rest
    pub ports : Ports prt
    pub inside : All (Includes a) pre
    pub outside : All (λ x. high a < low x) rest
    pub linked : (p : ℕ) → Memᴰ p pre → (q : ℕ) × ((prt p).up ≡ some q) × Smallest (a ∷ pre) p q
    pub kept : (x : ℕ) → All (λ r. r ≢ x) pre → (prt x).up ≡ (s x).up

  pub set_up-Ports : (a up : ℕ) (s : ℕ → Proto) → Ports s → Ports (set_up a up s)
  set_up-Ports a up s same x = (
    set_up-field (λ p. p.low) (λ p o. refl) a up s x ∙ (same x).0,
    set_up-field (λ p. p.high) (λ p o. refl) a up s x ∙ (same x).1,
  )

  mark_neighbors-Ports :
      (a b : ℕ) (cs : List ℕ) (s : ℕ → Proto) → Ports s → Ports (mark_neighbors a b cs s)
  mark_neighbors-Ports a b cs s same x = (
    mark_neighbors-field (λ p. p.low) (λ p. refl) a b cs s x ∙ (same x).0,
    mark_neighbors-field (λ p. p.high) (λ p. refl) a b cs s x ∙ (same x).1,
  )

  pub Apart-behind : (xs ys : List ℕ) → Apart (xs ++ ys) → Apart ys
  Apart-behind [] ys h = h
  Apart-behind (x ∷ xs) ys h = Apart-behind xs ys h.1

  All-behind {κ} : (P : ℕ → Type κ) (xs ys : List ℕ) → All P (xs ++ ys) → All P ys
  All-behind P [] ys h = h
  All-behind P (x ∷ xs) ys h = All-behind P xs ys h.1

  All-before {κ} : (P : ℕ → Type κ) (xs ys : List ℕ) → All P (xs ++ ys) → All P xs
  All-before P [] ys h = tt
  All-before P (x ∷ xs) ys h = (h.0, All-before P xs ys h.1)

  pub Mem-split : {x : ℕ} (xs ys : List ℕ) → Memᴰ x (xs ++ ys) → Memᴰ x xs ⊎ Memᴰ x ys
  Mem-split [] ys m = inr m
  Mem-split (z ∷ xs) ys (head e) = inl (head e)
  Mem-split (z ∷ xs) ys (tail m) = elim (Mem-split xs ys m) [ inl n ↦ inl (tail n) | inr n ↦ inr n ]

  module _ (valid : (x : ℕ) → low x ≤ high x) where
    -- The position stays: nothing lies in `a`.
    stop :
        (a b : ℕ) (rest : List ℕ) (s s' : ℕ → Proto)
        → Ports s'
        → ((x : ℕ) → (s' x).up ≡ (s x).up)
        → Apart (b ∷ rest)
        → high a < low b
        → Handled a (b ∷ rest) s (done (b ∷ rest) s')
    stop a b rest s s' ports kept apart lt = record {
      pre = [];
      rest = b ∷ rest;
      prt = s';
      returns = refl;
      split = refl;
      ports = ports;
      inside = tt;
      outside = (
        lt,
        Mem-All (λ x. high a < low x) rest
            (λ x m. let le = (All-Mem (Behind b) rest x apart.0 m).0 in omega (arith)),
      );
      linked = λ p m. elim m [ ];
      kept = λ x h. kept x;
    }

    pub Behind-differs : (x y : ℕ) → Behind x y → x ≢ y
    Behind-differs x y (le, inl lt) e = absurd (let v = valid x in let e' = ap low e in omega arith)
    Behind-differs x y (le, inr (le', inl lt)) e = absurd (let e' = ap low e in omega arith)
    Behind-differs x y (le, inr (le', inr lt)) e = absurd (let e' = ap high e in omega arith)

    -- A range does not lie in one behind it.
    pub Behind-outside : (x y : ℕ) → Behind x y → Includes y x → ⊥
    Behind-outside x y (le, inl lt) i = let v = valid x in let w = valid y in omega arith
    Behind-outside x y (le, inr (le', inl lt)) i = omega arith
    Behind-outside x y (le, inr (le', inr lt)) i = omega arith

    -- What stands in front is in front of all that is behind.
    pub Apart-order :
        (xs ys : List ℕ) (p r : ℕ) → Apart (xs ++ ys) → Memᴰ p xs → Memᴰ r ys → Behind p r
    Apart-order [] ys p r h m n = elim m [ ]
    Apart-order (x ∷ xs) ys p r h (head e) n =
        subst (λ p. Behind p r) (sym e) (All-Mem (Behind x) (xs ++ ys) r h.0 (Mem-behind xs ys n))
    Apart-order (x ∷ xs) ys p r h (tail m) n = Apart-order xs ys p r h.1 m n

    -- `b` lies in `a` and is handled, and then the ranges behind those in `b`.
    module _ (a b : ℕ) (rest : List ℕ) (s t : ℕ → Proto) (r1 r2 : Checked)
        (go_on : List ℕ → (ℕ → Proto) → Checked) (smaller : Behind a b) (in_a : Includes a b)
        (apart : Apart (b ∷ rest)) (t_up : (x : ℕ) → (t x).up ≡ (s x).up)
        (one : Handled b rest (set_up b a t) r1) (two : Handled a one.rest one.prt r2)
        (resumes : go_on one.rest one.prt ≡ r2) where
      parts : rest ≡ one.pre ++ (two.pre ++ two.rest)
      parts = one.split ∙ ap (λ l. one.pre ++ l) two.split

      Behind-b : (x : ℕ) → Memᴰ x one.pre ⊎ Memᴰ x two.pre → Behind b x
      Behind-b x (inl m) =
          All-Mem (Behind b) rest x apart.0 (rw one.split (Mem-before one.pre one.rest m))
      Behind-b x (inr m) =
          All-Mem (Behind b) rest x apart.0
            (rw parts (Mem-behind one.pre (two.pre ++ two.rest) (Mem-before two.pre two.rest m)))

      in_order : (p r : ℕ) → Memᴰ p one.pre → Memᴰ r two.pre → Behind p r
      in_order p r m n =
          Apart-order one.pre (two.pre ++ two.rest) p r (subst Apart parts apart.1) m
            (Mem-before two.pre two.rest n)

      around : (x : ℕ) → Memᴰ x (b ∷ one.pre) → Includes a x
      around x (head e) = subst (Includes a) (sym e) in_a
      around x (tail m) =
          let i = All-Mem (Includes b) one.pre x one.inside m in
          (omega (arith, i.0, in_a.0), omega (arith, i.1, in_a.1))

      below : (r : ℕ) → Memᴰ r (b ∷ one.pre) → high r ≤ high b
      below r (head e) = let e' = ap high e in omega arith
      below r (tail m) = (All-Mem (Includes b) one.pre r one.inside m).1

      above : (p r : ℕ) → Memᴰ p two.pre → Memᴰ r (b ∷ one.pre) → Includes r p → ⊥
      above p r m n i =
          let lt =
            All-Mem (λ x. high b < low x) one.rest p one.outside
              (rw two.split (Mem-before two.pre two.rest m)) in
          let le = below r n in let v = valid p in omega arith

      link_b : (two.prt b).up ≡ some a
      link_b =
          two.kept b (
            Mem-All (λ r. r ≢ b) two.pre (λ r m e. Behind-differs b r (Behind-b r (inr m)) (sym e)))
          ∙ one.kept b (
              Mem-All (λ r. r ≢ b) one.pre
                (λ r m e. Behind-differs b r (Behind-b r (inl m)) (sym e)))
          ∙ set_up_here b a t

      Smallest-b : Smallest (a ∷ (b ∷ (one.pre ++ two.pre))) b a
      Smallest-b = (head refl, Behind-differs a b smaller, in_a, least)
        where
          least :
              (r : ℕ)
              → Memᴰ r (a ∷ (b ∷ (one.pre ++ two.pre)))
              → r ≢ b
              → Includes r b
              → Includes r a
          least r (head e) ne i =
              let l = ap low e in let h = ap high e in (omega arith, omega arith)
          least r (tail (head e)) ne i = absurd (ne e)
          least r (tail (tail m)) ne i =
              absurd (Behind-outside b r (Behind-b r (Mem-split one.pre two.pre m)) i)

      widen_one :
          (p q : ℕ)
          → Memᴰ p one.pre
          → Smallest (b ∷ one.pre) p q
          → Smallest (a ∷ (b ∷ (one.pre ++ two.pre))) p q
      widen_one p q m (mq, ne, i, small) =
          (tail (Mem-before (b ∷ one.pre) two.pre mq), ne, i, least)
        where
          least :
              (r : ℕ)
              → Memᴰ r (a ∷ (b ∷ (one.pre ++ two.pre)))
              → r ≢ p
              → Includes r p
              → Includes r q
          least r (head e) ne' i' = subst (λ x. Includes x q) (sym e) (around q mq)
          least r (tail n) ne' i' = elim (Mem-split (b ∷ one.pre) two.pre n) [
            | inl n' ↦ small r n' ne' i'
            | inr n' ↦ absurd (Behind-outside p r (in_order p r m n') i')
          ]

      widen_two :
          (p q : ℕ)
          → Memᴰ p two.pre
          → Smallest (a ∷ two.pre) p q
          → Smallest (a ∷ (b ∷ (one.pre ++ two.pre))) p q
      widen_two p q m (mq, ne, i, small) = (place mq, ne, i, least)
        where
          place : Memᴰ q (a ∷ two.pre) → Memᴰ q (a ∷ (b ∷ (one.pre ++ two.pre)))
          place (head e) = head e
          place (tail n) = tail (Mem-behind (b ∷ one.pre) two.pre n)

          least :
              (r : ℕ)
              → Memᴰ r (a ∷ (b ∷ (one.pre ++ two.pre)))
              → r ≢ p
              → Includes r p
              → Includes r q
          least r (head e) ne' i' = small r (head e) ne' i'
          least r (tail n) ne' i' = elim (Mem-split (b ∷ one.pre) two.pre n) [
            | inl n' ↦ absurd (above p r m n' i')
            | inr n' ↦ small r (tail n') ne' i'
          ]

      all_linked :
          (p : ℕ)
          → Memᴰ p (b ∷ (one.pre ++ two.pre))
          → (q : ℕ) × ((two.prt p).up ≡ some q) × Smallest (a ∷ (b ∷ (one.pre ++ two.pre))) p q
      all_linked p (head e) =
          subst
            (λ p.
              (q : ℕ) × ((two.prt p).up ≡ some q) × Smallest (a ∷ (b ∷ (one.pre ++ two.pre))) p q)
            (sym e) (a, link_b, Smallest-b)
      all_linked p (tail m) = elim (Mem-split one.pre two.pre m) [
        | inl n ↦
            let (q, e, small) = one.linked p n in
            (
              q,
              two.kept p (
                    Mem-All (λ r. r ≢ p) two.pre
                      (λ r k e. Behind-differs p r (in_order p r n k) (sym e)))
                  ∙ e,
              widen_one p q n small,
            )
        | inr n ↦ let (q, e, small) = two.linked p n in (q, e, widen_two p q n small)
      ]

      join : Handled a (b ∷ rest) s (r1 >>= go_on)
      join = record {
        pre = b ∷ (one.pre ++ two.pre);
        rest = two.rest;
        prt = two.prt;
        returns = rw one.returns (resumes ∙ two.returns);
        split = ap (λ l. b ∷ l) (parts ∙ sym (append_assoc one.pre two.pre two.rest));
        ports = two.ports;
        inside = (
          in_a,
          All-append (Includes a) one.pre two.pre
              (Mem-All (Includes a) one.pre (λ x m. around x (tail m))) two.inside,
        );
        outside = two.outside;
        linked = all_linked;
        kept = λ x h.
            two.kept x (All-behind (λ r. r ≢ x) one.pre two.pre h.1)
            ∙ one.kept x (All-before (λ r. r ≢ x) one.pre two.pre h.1)
            ∙ set_up_other b a t x h.0
            ∙ t_up x;
      }

    resume :
        (fuel a : ℕ) (i : List ℕ) (t : ℕ → Proto)
        → (elim i [ [] ↦ done [] t | c ∷ cs ↦ check_subrange (suc fuel) a (c ∷ cs) t ])
          ≡ check_subrange (suc fuel) a i t
    unfolding check_subrange
    resume fuel a [] t = refl
    resume fuel a (c ∷ cs) t = refl

    check_next :
        (fuel a b : ℕ) (rest : List ℕ) (s : ℕ → Proto)
        → ltb (s a).high (s b).low ≡ true
        → check_subrange (suc fuel) a (b ∷ rest) s ≡ done (b ∷ rest) (mark_neighbors a b rest s)
    unfolding check_subrange
    check_next fuel a b rest s e = rw (e, check_subrange) refl

    check_inner :
        (fuel a b : ℕ) (rest : List ℕ) (s : ℕ → Proto)
        → ltb (s a).high (s b).low ≡ false
        → leb (s b).high (s a).high ≡ true
        → check_subrange (suc fuel) a (b ∷ rest) s ≡ (
            check_subrange fuel b rest (set_up b a (mark_neighbors a b rest s))
            >>= (λ i t. elim i [ [] ↦ done [] t | c ∷ cs ↦ check_subrange fuel a (c ∷ cs) t ]))
    unfolding check_subrange
    check_inner fuel a b rest s e f = rw (e, f, check_subrange) refl

    pub check-Handled :
        (fuel a : ℕ) (rest : List ℕ) (s : ℕ → Proto)
        → Ports s
        → All (Behind a) rest
        → Apart rest
        → length rest < fuel
        → Handled a rest s (check_subrange fuel a rest s)
    unfolding check_subrange
    check-Handled zero a rest s ports behind apart lt = absurd (omega arith)
    check-Handled (suc fuel) a [] s ports behind apart lt = record {
      pre = [];
      rest = [];
      prt = s;
      returns = refl;
      split = refl;
      ports = ports;
      inside = tt;
      outside = tt;
      linked = λ p m. elim m [ ];
      kept = λ x h. refl;
    }
    check-Handled (suc zero) a (b ∷ rest) s ports behind apart lt = absurd (omega arith)
    check-Handled (suc (suc fuel)) a (b ∷ rest) s ports behind apart lt =
        let t = mark_neighbors a b rest s in
        let t_up = mark_neighbors-field (λ p. p.up) (λ p. refl) a b rest s in
        elim behind.0.1 [
          | inl beyond ↦
              rw (check_next (suc fuel) a b rest s (ground (arith, (ports a).1, (ports b).0)))
                (stop a b rest s t (mark_neighbors-Ports a b rest s ports) t_up apart beyond)
          | inr (within, strict) ↦
              let one =
                check-Handled (suc fuel) b rest (set_up b a t)
                  (set_up-Ports b a t (mark_neighbors-Ports a b rest s ports)) apart.0 apart.1
                  (omega arith) in
              let two =
                check-Handled (suc fuel) a one.rest one.prt one.ports
                  (All-behind (Behind a) one.pre one.rest
                    (subst (All (Behind a)) one.split behind.1))
                  (Apart-behind one.pre one.rest (subst Apart one.split apart.1))
                  (omega (arith, ap length one.split, length-append one.pre one.rest)) in
              rw
                (check_inner (suc fuel) a b rest s
                  (ground (arith, (ports a).1, (ports b).0, behind.0.0, valid b))
                  (ground (arith, (ports a).1, (ports b).1)))
                (join a b rest s t (check_subrange (suc fuel) b rest (set_up b a t))
                  (check_subrange (suc fuel) a one.rest one.prt)
                  (λ i t. elim i [
                    | [] ↦ done [] t
                    | c ∷ cs ↦ check_subrange (suc fuel) a (c ∷ cs) t
                  ])
                  behind.0 (behind.0.0, within) apart t_up one two (resume fuel a one.rest one.prt))
        ]
