-- ===== src/SplitRange/Loop.antt =====
-- The loops of `splitIpRange`: the blocks found, and where the outer loop ends.
use netspoc.Prelude.{
  ℕ, zero, suc, ◌+◌, ◌-◌, ◌%◌, ◌^◌, ◌≤◌, ◌<◌, ◌≡◌, refl, ap, true, Option, none, some, List, [],
  ◌∷◌, arith, ◌∙◌, inl, inr, leb_iff, Bool-cases,
}
use netspoc.SplitRange.{word, inv_mask, complement, fill_low, fits, find_block, loop}
use mathlib.Core.Option
use native.Mathlib.Decide.{dec_le}
use native.Mathlib.Nat.{one-le-pow}

-- What the inner loop finds: an aligned block that begins at `l` and ends by `h`.
record Found (n l h : ℕ) (r : Option (ℕ × ℕ)) : Type 0 where
  k : ℕ
  bounded : k ≤ n
  is_found : r ≡ some (l + inv_mask k, inv_mask k)
  aligned : l % 2 ^ k ≡ 0
  inside : l + inv_mask k ≤ h

fits→aligned : (l h k : ℕ) → fits l h k ≡ true → (l % 2 ^ k ≡ 0) × (l + inv_mask k ≤ h)
unfolding fits
fits→aligned l h k e = ground arith

fill_low_aligned : (l k : ℕ) → l % 2 ^ k ≡ 0 → fill_low l k ≡ l + inv_mask k
fill_low_aligned l k e = omega arith

fits_zero : (l h : ℕ) → l ≤ h → fits l h 0 ≡ true
unfolding fits
fits_zero l h le = ground arith

find_block-Found : (n l h : ℕ) → l ≤ h → Found n l h (find_block n l h)
unfolding find_block
find_block-Found zero l h le = record {
  k = 0;
  bounded = omega arith;
  is_found = rw (fits_zero l h le) (ap (λ e. some (e, 0)) (omega arith));
  aligned = omega arith;
  inside = omega arith;
}
find_block-Found (suc n) l h le = elim (Bool-cases (fits l h (suc n))) [
  | inl e ↦
      let (aligned, inside) = fits→aligned l h (suc n) e in
      record {
        k = suc n;
        bounded = omega arith;
        is_found =
            rw e (ap (λ end. some (end, inv_mask (suc n))) (fill_low_aligned l (suc n) aligned));
        aligned = aligned;
        inside = inside;
      }
  | inr e ↦
      let smaller = find_block-Found n l h le in
      record {
        k = smaller.k;
        bounded = omega (arith, smaller.bounded);
        is_found = rw e smaller.is_found;
        aligned = smaller.aligned;
        inside = smaller.inside;
      }
]

-- The blocks lie side by side from `l` to `h`, each a power of two long and aligned to its length.
abbrev pub Tiles : ℕ → ℕ → List (ℕ × ℕ) → Type 0
Tiles l h [] = l ≡ h + 1
Tiles l h ((i, m) ∷ bs) =
    (k : ℕ) × (m ≡ word - 2 ^ k)
    × (i ≡ l)
    × (i % 2 ^ k ≡ 0)
    × (i + 2 ^ k ≤ h + 1)
    × Tiles (i + 2 ^ k) h bs

-- One round of the loop, with the block found.
loop_step :
    (fuel l h : ℕ) (found : Found 64 l h (find_block 64 l h))
    → l ≤ h
    → loop (suc fuel) l h
      ≡ Option.map
          (λ bs. (l, complement (inv_mask found.k)) ∷ bs)
          (loop fuel ((l + inv_mask found.k + 1) % word) h)
unfolding loop
loop_step fuel l h found le = rw ((leb_iff l h).1 le, found.is_found)

inv_mask_suc : (l k : ℕ) → l + inv_mask k + 1 ≡ l + 2 ^ k
inv_mask_suc l k = omega (arith, one-le-pow k 2 (omega arith))

Tiles-cons :
    (l h : ℕ) (found : Found 64 l h (find_block 64 l h)) (bs : List (ℕ × ℕ))
    → Tiles (l + 2 ^ found.k) h bs
    → Tiles l h ((l, complement (inv_mask found.k)) ∷ bs)
Tiles-cons l h found bs tiles = (
  found.k,
  omega (arith, inv_mask_suc l found.k),
  refl,
  found.aligned,
  omega (arith, inv_mask_suc l found.k, found.inside),
  tiles,
)

-- Below the last 64-bit number the loop ends, and its blocks fill the range.
loop_round :
    (fuel l h : ℕ) (found : Found 64 l h (find_block 64 l h))
    → l ≤ h
    → h + 1 < word
    → ((bs : List (ℕ × ℕ)) × (loop fuel (l + 2 ^ found.k) h ≡ some bs)
        × Tiles (l + 2 ^ found.k) h bs)
    → (bs : List (ℕ × ℕ)) × (loop (suc fuel) l h ≡ some bs) × Tiles l h bs
loop_round fuel l h found le below (bs, run, tiles) = (
  (l, complement (inv_mask found.k)) ∷ bs,
  loop_step fuel l h found le ∙ rw (next, run) refl,
  Tiles-cons l h found bs tiles,
)
  where
    next : (l + inv_mask found.k + 1) % word ≡ l + 2 ^ found.k
    next = omega (arith, inv_mask_suc l found.k, found.inside)

pub loop-Tiles :
    (fuel l h : ℕ)
    → l ≤ h + 1
    → h + 1 < word
    → h + 1 - l ≤ fuel
    → (bs : List (ℕ × ℕ)) × (loop fuel l h ≡ some bs) × Tiles l h bs
unfolding loop
loop-Tiles zero l h le below enough = ([], ground arith, omega arith)
loop-Tiles (suc fuel) l h le below enough = elim (dec_le l h) [
  | yes in_range ↦
      let found = find_block-Found 64 l h in_range in
      loop_round fuel l h found in_range below (
        loop-Tiles fuel (l + 2 ^ found.k) h (omega (arith, inv_mask_suc l found.k, found.inside))
          below (omega (arith, inv_mask_suc l found.k, found.inside)))
  | no e ↦ ([], ground arith, omega arith)
]

-- A range that ends at the last 64-bit number is never left: `end + 1` is 0 again.
pub loop_last : (fuel l : ℕ) → l < word → loop fuel l (word - 1) ≡ none
unfolding loop
loop_last zero l lt = ground arith
loop_last (suc fuel) l lt =
    let found = find_block-Found 64 l (word - 1) (omega arith) in
    loop_step fuel l (word - 1) found (omega arith)
    ∙ ap (Option.map _) (loop_last fuel _ (omega arith))
