-- ===== src/Pass2/Join/Groups.antt =====
-- The loop over the sorted rules of one key.
use netspoc.Prelude.{
  ℕ, suc, ◌≤◌, ◌≡◌, inl, inr, refl, sym, ap, subst, ◌∙◌, false, List, [], ◌∷◌, ◌==◌, ==_iff, arith,
  Bool-cases, any,
}
use netspoc.Prelude.Bytes.{Bytes}
use netspoc.Prelude.Count.{count, once, Unique, count-Perm}
use netspoc.Prelude.Sort.{SortSlice}
use netspoc.Pass2.Join.{
  JoinKey, JoinState, prt_of, join_pair, join_list, join_sorted, join_group, low_less,
}
use netspoc.Pass2.Join.Step.{
  Query, answers, Sound, Fit, Frame, rule_other, frame, proto_after, low_after, high_after,
  same_answers, Sound-after, Fit-joined, Fit-other,
}

-- A change that touches only some of the rules and after which the rules answer as before.
pub record Kept (rs touched : List ℕ) (s s' : JoinState) : Type 0 where
  pub sound : Sound s'
  pub frame : Frame s s'
  pub same : (q : Query) → any (answers q s') rs ≡ any (answers q s) rs
  pub others : (r : ℕ) → count r touched ≡ 0 → s'.rule r ≡ s.rule r

pub Kept-refl : (rs touched : List ℕ) (s : JoinState) → Sound s → Kept rs touched s s
Kept-refl rs touched s sound = record {
  sound = sound;
  frame = record { grows = omega arith; kept = λ p lt. refl };
  same = λ q. refl;
  others = λ r e. refl;
}

pub Kept-trans :
    {rs t t' u : List ℕ} {s s' s'' : JoinState}
    → ((r : ℕ) → count r u ≡ 0 → count r t ≡ 0)
    → ((r : ℕ) → count r u ≡ 0 → count r t' ≡ 0)
    → Kept rs t s s'
    → Kept rs t' s' s''
    → Kept rs u s s''
Kept-trans {s} {s'} {s''} sub sub' k k' = record {
  sound = k'.sound;
  frame = record {
    grows = omega (arith, k.frame.grows, k'.frame.grows);
    kept = λ p lt. k'.frame.kept p (omega (arith, k.frame.grows)) ∙ k.frame.kept p lt;
  };
  same = λ q. k'.same q ∙ k.same q;
  others = λ r e. k'.others r (sub' r e) ∙ k.others r (sub r e);
}

-- All rules of a list may be joined under a key.
abbrev pub AllFit : JoinState → JoinKey → List ℕ → Type 0
AllFit s key rs = (r : ℕ) → 1 ≤ count r rs → Fit s key r

abbrev pub Within : List ℕ → List ℕ → Type 0
Within xs rs = (r : ℕ) → 1 ≤ count r xs → 1 ≤ count r rs

once_self : (r x : ℕ) → once r x ≡ 0 → (r == x) ≡ false
once_self r x e = ground arith

differ_head : (a b : ℕ) (bs : List ℕ) → Unique (a ∷ b ∷ bs) → (a == b) ≡ false
differ_head a b bs unique = let le = unique a in ground arith

not_head : (a r : ℕ) (bs : List ℕ) → Unique (a ∷ bs) → 1 ≤ count r bs → (r == a) ≡ false
not_head a r bs unique le = let le' = unique r in ground arith

count_head : (a : ℕ) (bs : List ℕ) → 1 ≤ count a (a ∷ bs)
count_head a bs = ground arith

Unique-tail : (a : ℕ) (bs : List ℕ) → Unique (a ∷ bs) → Unique bs
Unique-tail a bs unique r = let le = unique r in omega arith

-- What one joining leaves for the rest of the loop.
record Joined (rs : List ℕ) (key : JoinKey) (proto : Bytes) (a b a1 high : ℕ) (bs : List ℕ)
    (s s' : JoinState) : Type 0 where
  kept : Kept rs (a ∷ b ∷ []) s s'
  fit : Fit s' key b
  fits : AllFit s' key bs
  protocol_kept : (prt_of s' b).protocol ≡ proto
  low_kept : (prt_of s' b).low ≡ a1
  high_kept : (prt_of s' b).high ≡ high

join_pair-Joined :
    (rs : List ℕ) (key : JoinKey) (proto : Bytes) (a b a1 a2 : ℕ) (bs : List ℕ) (s : JoinState)
    → Sound s
    → Fit s key a
    → AllFit s key (b ∷ bs)
    → Unique (a ∷ b ∷ bs)
    → Within (a ∷ b ∷ bs) rs
    → (prt_of s a).protocol ≡ proto
    → (prt_of s a).low ≡ a1
    → (prt_of s a).high ≡ a2
    → suc a2 ≡ (prt_of s b).low
    → Joined rs key proto a b a1 (prt_of s b).high bs s (join_pair proto a b a1 (prt_of s b).high s)
join_pair-Joined rs key proto a b a1 a2 bs s sound fa fits unique within e l h adj =
    let fb = fits b (count_head b bs) in
    let ne = differ_head a b bs unique in
    record {
      kept = record {
        sound = Sound-after s key a b a1 a2 proto sound fa fb ne e l h adj;
        frame = frame s key a b a1 a2 proto sound fa fb ne e l h adj;
        same = λ q.
            same_answers s key a b a1 a2 proto sound fa fb ne e l h adj q rs
              (within a (ground arith)) (within b (ground arith));
        others = λ r z.
            rule_other s key a b a1 a2 proto sound fa fb ne e l h adj r
              (once_self r a (omega arith)) (once_self r b (omega arith));
      };
      fit = Fit-joined s key a b a1 a2 proto sound fa fb ne e l h adj;
      fits = λ r le.
          Fit-other s key a b a1 a2 proto sound fa fb ne e l h adj r
            (not_head a r (b ∷ bs) unique (omega arith))
            (not_head b r bs (Unique-tail a (b ∷ bs) unique) le) (fits r (omega arith));
      protocol_kept = proto_after s key a b a1 a2 proto sound fa fb ne e l h adj;
      low_kept = low_after s key a b a1 a2 proto sound fa fb ne e l h adj;
      high_kept = high_after s key a b a1 a2 proto sound fa fb ne e l h adj;
    }

join_list-Kept :
    (rs : List ℕ) (key : JoinKey) (proto : Bytes) (a a1 a2 : ℕ) (bs : List ℕ) (s : JoinState)
    → Sound s
    → Fit s key a
    → AllFit s key bs
    → Unique (a ∷ bs)
    → Within (a ∷ bs) rs
    → (prt_of s a).protocol ≡ proto
    → (prt_of s a).low ≡ a1
    → (prt_of s a).high ≡ a2
    → Kept rs (a ∷ bs) s (join_list proto a a1 a2 bs s)
unfolding join_list
join_list-Kept rs key proto a a1 a2 [] s sound fit fits unique within e l h =
    Kept-refl rs (a ∷ []) s sound
join_list-Kept rs key proto a a1 a2 (b ∷ bs) s sound fa fits unique within e l h =
    let fb = fits b (count_head b bs) in
    let within' : Within (b ∷ bs) rs = λ r le. within r (omega arith) in
    let rest : (r : ℕ) → 1 ≤ count r bs → 1 ≤ count r (b ∷ bs) = λ r le. omega arith in
    let unique' = Unique-tail a (b ∷ bs) unique in
    elim (Bool-cases (suc a2 == (prt_of s b).low)) [
      | inl t ↦
          let adj = (==_iff (suc a2) (prt_of s b).low).0 t in
          let j =
            join_pair-Joined rs key proto a b a1 a2 bs s sound fa fits unique within e l h adj in
          rw t (
            Kept-trans {t = a ∷ b ∷ []} {t' = b ∷ bs} (λ r z. omega arith) (λ r z. omega arith)
              j.kept
              (join_list-Kept rs key proto b a1 (prt_of s b).high bs
                (join_pair proto a b a1 (prt_of s b).high s) j.kept.sound j.fit j.fits unique'
                within' j.protocol_kept j.low_kept j.high_kept))
      | inr f ↦
          let pb : (prt_of s b).protocol ≡ proto =
            ap (λ (k : JoinKey). k.proto) (fb.keyed ∙ sym fa.keyed) ∙ e in
          rw f (
            Kept-trans {t = []} {t' = b ∷ bs} (λ r z. refl) (λ r z. omega arith)
              (Kept-refl rs [] s sound)
              (join_list-Kept rs key proto b (prt_of s b).low (prt_of s b).high bs s sound fb
                (λ r le. fits r (rest r le)) unique' within' pb refl refl))
    ]

join_sorted-Kept :
    (rs : List ℕ) (key : JoinKey) (xs : List ℕ) (s : JoinState)
    → Sound s
    → AllFit s key xs
    → Unique xs
    → Within xs rs
    → Kept rs xs s (join_sorted xs s)
unfolding join_sorted
join_sorted-Kept rs key [] s sound fits unique within = Kept-refl rs [] s sound
join_sorted-Kept rs key (a ∷ bs) s sound fits unique within =
    join_list-Kept rs key (prt_of s a).protocol a (prt_of s a).low (prt_of s a).high bs s sound
      (fits a (count_head a bs)) (λ r le. fits r (omega arith)) unique within refl refl refl

Kept-touched :
    {rs t u : List ℕ} {s s' : JoinState}
    → ((r : ℕ) → count r t ≡ count r u)
    → Kept rs t s s'
    → Kept rs u s s'
Kept-touched same k = record {
  sound = k.sound;
  frame = k.frame;
  same = k.same;
  others = λ r e. k.others r (same r ∙ e);
}

-- The rules of one key, in whatever order the sort puts them.
pub join_group-Kept :
    (slices : SortSlice ℕ) (rs : List ℕ) (key : JoinKey) (xs : List ℕ) (s : JoinState)
    → Sound s
    → AllFit s key xs
    → Unique xs
    → Within xs rs
    → Kept rs xs s (join_group slices xs s)
unfolding join_group
join_group-Kept slices rs key [] s sound fits unique within = Kept-refl rs [] s sound
join_group-Kept slices rs key (a ∷ []) s sound fits unique within = Kept-refl rs (a ∷ []) s sound
join_group-Kept slices rs key (a ∷ b ∷ xs) s sound fits unique within =
    let same : (r : ℕ) → count r (slices.sort (low_less s) (a ∷ b ∷ xs)) ≡ count r (a ∷ b ∷ xs) =
      λ r. count-Perm r (slices.sort-Perm (low_less s) (a ∷ b ∷ xs)) in
    Kept-touched same (
      join_sorted-Kept rs key (slices.sort (low_less s) (a ∷ b ∷ xs)) s sound
        (λ r le. fits r (subst (λ n. 1 ≤ n) (same r) le))
        (λ r. subst (λ n. n ≤ 1) (sym (same r)) (unique r))
        (λ r le. within r (subst (λ n. 1 ≤ n) (same r) le)))
