-- ===== src/Protocols/Parts.antt =====
-- `expandSplitProtocol`: the ports of the parts are those of the range.
use netspoc.Prelude.{
  ℕ, zero, suc, ◌-◌, ◌≤◌, ◌<◌, ◌≡◌, inl, inr, refl, sym, ap, ◌∙◌, subst, Bool, false, ◌&&◌, ◌||◌,
  Option, some, List, [], ◌∷◌, ◌++◌, leb, Option-cases, arith, any, any-append, All, All-append,
}
use netspoc.Prelude.Bytes.{Bytes, bytes_eq}
use netspoc.Protocols.{SplitProto, append_both, expand_split, expand_split_protocol}

-- A packet of this protocol with this port is in the range.
abbrev pub in_range : Bytes → ℕ → SplitProto → Bool
in_range prt port p = bytes_eq p.protocol prt && (leb p.low port && leb port p.high)

-- A range that is cut in two, neither of which is empty.
pub record SplitOk (p a b : SplitProto) : Type 0 where
  pub left_protocol : a.protocol ≡ p.protocol
  pub right_protocol : b.protocol ≡ p.protocol
  pub left_low : a.low ≡ p.low
  pub right_high : b.high ≡ p.high
  pub left : a.low ≤ a.high
  pub right : b.low ≤ b.high
  pub adjacent : b.low ≡ suc a.high

cut :
    (l k h x : ℕ)
    → l ≤ k
    → suc k ≤ h
    → (leb l x && leb x h) ≡ ((leb l x && leb x k) || (leb (suc k) x && leb x h))
cut l k h x a b = ground (arith, a, b)

and_or : (q a b : Bool) → (q && (a || b)) ≡ ((q && a) || (q && b))
and_or q a b = ground arith

SplitOk-in_range :
    (p a b : SplitProto)
    → SplitOk p a b
    → (prt : Bytes) (x : ℕ) → in_range prt x p ≡ (in_range prt x a || in_range prt x b)
SplitOk-in_range p a b s prt x =
    let q = bytes_eq p.protocol prt in
    let long : suc a.high ≤ b.high = let e = s.adjacent in let r = s.right in omega (arith, e, r) in
    ap (λ l. q && (leb l x && leb x p.high)) (sym s.left_low)
    ∙ ap (λ h. q && (leb a.low x && leb x h)) (sym s.right_high)
    ∙ ap (λ k. q && k) (cut a.low a.high b.high x s.left long)
    ∙ and_or q (leb a.low x && leb x a.high) (leb (suc a.high) x && leb x b.high)
    ∙ ap
        (λ n.
          (bytes_eq n prt && (leb a.low x && leb x a.high))
          || (q && (leb (suc a.high) x && leb x b.high)))
        (sym s.left_protocol)
    ∙ ap (λ n. in_range prt x a || (bytes_eq n prt && (leb (suc a.high) x && leb x b.high)))
        (sym s.right_protocol)
    ∙ ap (λ l. in_range prt x a || (bytes_eq b.protocol prt && (leb l x && leb x b.high)))
        (sym s.adjacent)

module _ (proto : ℕ → SplitProto)
    (ok : (p a b : ℕ) → (proto p).split ≡ some (a, b) → SplitOk (proto p) (proto a) (proto b)) where
  -- The parts have these ports and no others.
  abbrev pub PartsOf : ℕ → Option (List ℕ) → Type 0
  PartsOf p o =
      (ps : List ℕ) × (o ≡ some ps)
      × ((prt : Bytes) (x : ℕ) → any (λ q. in_range prt x (proto q)) ps ≡ in_range prt x (proto p))
      × All (λ q. (proto q).protocol ≡ (proto p).protocol) ps

  both_parts :
      (p a b : ℕ) (o u : Option (List ℕ))
      → SplitOk (proto p) (proto a) (proto b)
      → PartsOf a o
      → PartsOf b u
      → PartsOf p (append_both o u)
  both_parts p a b o u s (us, e, h, ss) (vs, f, k, ts) = (
    us ++ vs,
    ap (λ z. append_both z u) e ∙ ap (append_both (some us)) f,
    λ prt x.
        any-append (λ q. in_range prt x (proto q)) us vs
        ∙ ap (λ z. z || any (λ q. in_range prt x (proto q)) vs) (h prt x)
        ∙ ap (λ z. in_range prt x (proto a) || z) (k prt x)
        ∙ sym (SplitOk-in_range (proto p) (proto a) (proto b) s prt x),
    All-append (λ q. (proto q).protocol ≡ (proto p).protocol) us vs
        (subst (λ n. All (λ q. (proto q).protocol ≡ n) us) s.left_protocol ss)
        (subst (λ n. All (λ q. (proto q).protocol ≡ n) vs) s.right_protocol ts),
  )

  or_no : (b : Bool) → (b || false) ≡ b
  or_no b = ground arith

  expand_split-PartsOf :
      (fuel p : ℕ) → (proto p).high - (proto p).low < fuel → PartsOf p (expand_split proto fuel p)
  unfolding expand_split
  expand_split-PartsOf zero p lt = absurd (omega (arith, lt))
  expand_split-PartsOf (suc fuel) p lt = elim (Option-cases (proto p).split) [
    | inl e ↦
        (p ∷ [], rw (e, expand_split) refl, λ prt x. or_no (in_range prt x (proto p)), (refl, tt))
    | inr ((a, b), e) ↦
        let s = ok p a b e in
        let l : (proto a).high - (proto a).low < fuel =
          let x1 = s.left_low in
          let x2 = s.right_high in
          let x3 = s.left in
          let x4 = s.right in let x5 = s.adjacent in omega (arith, x1, x2, x3, x4, x5, lt) in
        let r : (proto b).high - (proto b).low < fuel =
          let x1 = s.left_low in
          let x2 = s.right_high in
          let x3 = s.left in
          let x4 = s.right in let x5 = s.adjacent in omega (arith, x1, x2, x3, x4, x5, lt) in
        rw (e, expand_split)
          (both_parts p a b (expand_split proto fuel a) (expand_split proto fuel b) s
            (expand_split-PartsOf fuel a l) (expand_split-PartsOf fuel b r))
  ]

  pub expand_split_protocol-PartsOf : (p : ℕ) → PartsOf p (expand_split_protocol proto p)
  unfolding expand_split_protocol
  expand_split_protocol-PartsOf p =
      expand_split-PartsOf (suc ((proto p).high - (proto p).low)) p (omega arith)
