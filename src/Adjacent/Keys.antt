-- ===== src/Adjacent/Keys.antt =====
-- The keys of the map of subnets in use, and laws of Boolean tests.
use mathlib.Core.List.{Memᴰ}
use mathlib.Core.List.Memᴰ.{head, tail}
use netspoc.Prelude.{
  ℕ, ◌≡◌, inl, inr, refl, sym, ap, ◌∙◌, Bool, true, false, ◌&&◌, ◌||◌, List, [], ◌∷◌, ◌==◌, ==_iff,
  Bool-cases, arith,
}
use netspoc.Adjacent.{keys_of}

pub swap' : (a b c : Bool) → (a || (b || c)) ≡ (b || (a || c))
swap' a b c = ground arith

pub assoc' : (a b c : Bool) → (a || (b || c)) ≡ ((a || b) || c)
assoc' a b c = ground arith

pub both_ways : (a b : Bool) → (a ≡ true → b ≡ true) → (b ≡ true → a ≡ true) → a ≡ b
both_ways true b h k = sym (h refl)
both_ways false true h k = k refl
both_ways false false h k = refl

pub or_false : (a b : Bool) → b ≡ false → (a || b) ≡ true → a ≡ true
or_false a b e f = ground (arith, e, f)

pub or_left : (a b : Bool) → a ≡ true → (a || b) ≡ true
or_left a b e = ground (arith, e)

pub or_right : (a b : Bool) → b ≡ true → (a || b) ≡ true
or_right a b e = ground (arith, e)

pub and_parts : (a b : Bool) → (a && b) ≡ true → (a ≡ true) × (b ≡ true)
and_parts true b e = (refl, e)
and_parts false b e = absurd (cc e)

pub and_true : (a b : Bool) → a ≡ true → b ≡ true → (a && b) ≡ true
and_true a b e f = ground (arith, e, f)

pub Mem-keys : (p : ℕ) (slots : List ℕ) → Memᴰ p slots → keys_of slots p ≡ true
Mem-keys p [] h = elim h [ ]
Mem-keys p (q ∷ qs) (head e) = or_left (q == p) (keys_of qs p) ((==_iff q p).1 (sym e))
Mem-keys p (q ∷ qs) (tail h) = or_right (q == p) (keys_of qs p) (Mem-keys p qs h)

pub keys-Mem : (p : ℕ) (slots : List ℕ) → keys_of slots p ≡ true → Memᴰ p slots
keys-Mem p [] e = absurd (cc e)
keys-Mem p (q ∷ qs) e = elim (Bool-cases (q == p)) [
  | inl f ↦ head (sym ((==_iff q p).0 f))
  | inr f ↦ tail (keys-Mem p qs (sym (ap (λ b. b || keys_of qs p) f) ∙ e))
]
