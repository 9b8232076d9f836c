-- ===== src/Duplicates/Simple.antt =====
-- The rules that `removeSimpleDuplicateRules` has keys for.
use mathlib.Core.Option.{some-injective}
use netspoc.Prelude.{
  ℕ, ◌≡◌, sym, ◌∙◌, ap, inl, inr, refl, Bool, true, false, not, ◌&&◌, Option, none, some, List, [],
  ◌∷◌, arith, Bool-cases,
}
use netspoc.Prelude.Bytes.{Bytes, bytes_eq, bytes_eq-eq}
use netspoc.Reverse.{GroupedRule}
use netspoc.Duplicates.{DuplKey, no_range, single_key, simple_key, same_key}

-- The rules say the same of the same objects.
pub record SameRule (a b : GroupedRule) : Type 0 where
  pub src : a.src ≡ b.src
  pub dst : a.dst ≡ b.dst
  pub prt : a.prt ≡ b.prt
  pub src_range : a.src_range ≡ b.src_range
  pub log : a.log ≡ b.log
  pub oneway : a.oneway ≡ b.oneway
  pub stateless : a.stateless ≡ b.stateless

abbrev one {ℓ} : {A : Type ℓ} → List A → Bool
one (x ∷ []) = true
one _ = false

abbrev no_text : Bytes → Bool
no_text [] = true
no_text _ = false

-- One source, one destination and one protocol, and none of the further attributes.
abbrev pub is_plain : GroupedRule → Bool
is_plain r =
    one r.src
    && one r.dst
    && one r.prt
    && no_range r.src_range
    && no_text r.log
    && not r.oneway
    && not r.stateless

-- What a rule with a key looks like.
Shape : GroupedRule → DuplKey → Type 0
Shape r k =
    (r.src ≡ k.src ∷ [])
    × (r.dst ≡ k.dst ∷ [])
    × (r.prt ≡ k.prt ∷ [])
    × (r.src_range ≡ none)
    × (r.log ≡ [])
    × (r.oneway ≡ false)
    × (r.stateless ≡ false)

no_range-none : (o : Option ℕ) → no_range o ≡ true → o ≡ none
no_range-none none e = refl
no_range-none (some p) e = cc

no_text_empty : (s : Bytes) → bytes_eq s [] ≡ no_text s
no_text_empty [] = refl
no_text_empty (b ∷ s) = refl

single_key_lem :
    (src dst prt : List ℕ) (k : DuplKey)
    → single_key src dst prt ≡ some k
    → (src ≡ k.src ∷ []) × (dst ≡ k.dst ∷ []) × (prt ≡ k.prt ∷ [])
unfolding single_key
single_key_lem (s ∷ []) (d ∷ []) (p ∷ []) k e =
    let same : record { src = s; dst = d; prt = p } ≡ k =
      some-injective record { src = s; dst = d; prt = p } k e in
    (
      ap (λ (l : DuplKey). l.src ∷ []) same,
      ap (λ (l : DuplKey). l.dst ∷ []) same,
      ap (λ (l : DuplKey). l.prt ∷ []) same,
    )
single_key_lem _ _ _ k e = cc

single_key-none :
    (src dst prt : List ℕ) → single_key src dst prt ≡ none → (one src && one dst && one prt) ≡ false
unfolding single_key
single_key-none (s ∷ []) (d ∷ []) (p ∷ []) e = cc
single_key-none [] dst prt e = refl
single_key-none (s ∷ t ∷ src) dst prt e = refl
single_key-none (s ∷ []) [] prt e = refl
single_key-none (s ∷ []) (d ∷ t ∷ dst) prt e = refl
single_key-none (s ∷ []) (d ∷ []) [] e = refl
single_key-none (s ∷ []) (d ∷ []) (p ∷ t ∷ prt) e = refl

simple_key-Shape : (r : GroupedRule) (k : DuplKey) → simple_key r ≡ some k → Shape r k
unfolding simple_key Shape
simple_key-Shape r k e =
    elim (Bool-cases
      (no_range r.src_range && bytes_eq r.log [] && not r.oneway && not r.stateless)) [
        | inl t ↦
            let single : single_key r.src r.dst r.prt ≡ some k = ground (arith, t) in
            let (src, dst, prt) = single_key_lem r.src r.dst r.prt k single in
            (
              src,
              dst,
              prt,
              no_range-none r.src_range (ground arith),
              bytes_eq-eq r.log [] (ground arith),
              ground arith,
              ground arith,
            )
        | inr f ↦ absurd (ground (arith, f))
      ]

pub simple_key-is_plain :
    (r : GroupedRule) (k : DuplKey) → simple_key r ≡ some k → is_plain r ≡ true
unfolding Shape
simple_key-is_plain r k e =
    let (src, dst, prt, range, log, oneway, stateless) = simple_key-Shape r k e in
    rw (src, dst, prt, range, log, oneway, stateless) refl

pub simple_key-none : (r : GroupedRule) → simple_key r ≡ none → is_plain r ≡ false
unfolding simple_key
simple_key-none r e =
    elim (Bool-cases
      (no_range r.src_range && bytes_eq r.log [] && not r.oneway && not r.stateless)) [
        | inl t ↦
            let none_key : single_key r.src r.dst r.prt ≡ none = ground (arith, t) in
            ground (arith, single_key-none r.src r.dst r.prt none_key)
        | inr f ↦ ground (arith, f, no_text_empty r.log)
      ]

pub same_simple_key : (a b : GroupedRule) → SameRule a b → simple_key a ≡ simple_key b
unfolding simple_key
same_simple_key a b same =
    rw (same.src, same.dst, same.prt, same.src_range, same.log, same.oneway, same.stateless) refl

pub simple_key-SameRule :
    (a b : GroupedRule) (k : DuplKey) → simple_key a ≡ some k → simple_key b ≡ some k → SameRule a b
unfolding Shape
simple_key-SameRule a b k ea eb =
    let x = simple_key-Shape a k ea in
    let y = simple_key-Shape b k eb in
    record {
      src = x.0 ∙ sym y.0;
      dst = x.1 ∙ sym y.1;
      prt = x.2 ∙ sym y.2;
      src_range = x.3 ∙ sym y.3;
      log = x.4 ∙ sym y.4;
      oneway = x.5 ∙ sym y.5;
      stateless = x.6 ∙ sym y.6;
    }

pub same_key-eq : (k l : DuplKey) → same_key k l ≡ true → k ≡ l
unfolding same_key
same_key-eq k l e =
    let src : k.src ≡ l.src = ground arith in
    let dst : k.dst ≡ l.dst = ground arith in let prt : k.prt ≡ l.prt = ground arith in cc

pub same_key_refl : (k : DuplKey) → same_key k k ≡ true
unfolding same_key
same_key_refl k = ground arith
