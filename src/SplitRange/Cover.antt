-- ===== src/SplitRange/Cover.antt =====
-- `splitIpRange` against the addresses that its networks hold.
use native.Mathlib.Nat.{mod-eq_of_lt, mod-add-mod, mod-lt, one-le-pow}
use netspoc.Prelude.{
  ℕ, ◌+◌, ◌-◌, ◌%◌, ◌^◌, ◌≤◌, ◌<◌, ◌≡◌, ◌↔◌, refl, sym, ap, Bool, false, List, [], ◌∷◌, map, arith,
  ◌∙◌, leb, ltb, ==_refl, ◌==◌, ◌&&◌, if◌then◌else◌,
}
use netspoc.SplitRange.{Ip, v4, v6, IpNet, ok, diverges, word, add, collect, cover, split_ip_range}
use netspoc.SplitRange.Loop.{Tiles, loop-Tiles, loop_last}

-- `x & m` on `w` bits, for a mask of leading ones.
abbrev apply_mask : ℕ → ℕ → ℕ → ℕ
apply_mask w x m = x - x % (2 ^ w - m)

-- `IPNet.Contains`, on the address and the mask of the network.
has : Ip → Ip → Ip → Bool
has (v4 i) (v4 m) (v4 x) = apply_mask 32 i m == apply_mask 32 x m
has (v6 a i) (v6 am m) (v6 b x) =
    apply_mask 64 a am == apply_mask 64 b am && apply_mask 64 i m == apply_mask 64 x m
has _ _ _ = false

unfoldable pub net_has : IpNet → Ip → Bool
unfolding has
net_has n x = has n.ip n.mask x

-- How many of the networks hold the address.
pub count_has : List IpNet → Ip → ℕ
count_has [] x = 0
count_has (n ∷ ns) x = (if net_has n x then 1 else 0) + count_has ns x

mod-add_aligned : (i d s : ℕ) → i % s ≡ 0 → d < s → (i + d) % s ≡ d
mod-add_aligned i d s e lt =
    sym (mod-add-mod i s d) ∙ rw e (ap (λ n. n % s) (omega arith) ∙ mod-eq_of_lt lt)

mask_iff : (i x s : ℕ) → i % s ≡ 0 → 0 < s → (i - i % s ≡ x - x % s) ↔ ((i ≤ x) × (x < i + s))
mask_iff i x s e pos = (
  λ h. (omega arith, omega (arith, mod-lt x pos)),
  λ (le, lt).
      omega (arith, mod-add_aligned i (x - i) s e (omega arith), ap (λ n. n % s) (split le)),
)
  where
    split : i ≤ x → x ≡ i + (x - i)
    split le = omega arith

-- Membership in one network, when its block lies below the end of the word.
same_mask :
    (i x s m : ℕ)
    → s ≡ m
    → i % s ≡ 0
    → 0 < s
    → ((i - i % m) == (x - x % m)) ≡ (leb i x && ltb x (i + s))
same_mask i x s m same e pos = rw (← same) (ground (arith, mask_iff i x s e pos))

add_long :
    (a z i k x : ℕ)
    → i % 2 ^ k ≡ 0
    → i + 2 ^ k < word
    → net_has (add (v6 a z) (i, word - 2 ^ k)) (v6 a x) ≡ (leb i x && ltb x (i + 2 ^ k))
unfolding net_has add
add_long a z i k x e below =
    rw
      (same_mask i x (2 ^ k) (word - (word - 2 ^ k)) (omega arith) e (one-le-pow k 2 (omega arith)))
      (ground arith)

add_short :
    (z i k x : ℕ)
    → i % 2 ^ k ≡ 0
    → i + 2 ^ k ≤ 2 ^ 32
    → net_has (add (v4 z) (i, word - 2 ^ k)) (v4 x) ≡ (leb i x && ltb x (i + 2 ^ k))
unfolding net_has add
add_short z i k x e below =
    rw (mod-eq_of_lt small) (same_mask i x (2 ^ k) _ (omega (arith, pos)) e pos)
  where
    pos : 0 < 2 ^ k
    pos = one-le-pow k 2 (omega arith)

    small : i < 2 ^ 32
    small = omega (arith, pos)

-- The number of a range's addresses that `x` is: one inside, none outside.
abbrev pub in_range : ℕ → ℕ → ℕ → ℕ
in_range l h x = if leb l x && leb x h then 1 else 0

Tiles-count :
    (lo : Ip) (at : ℕ → Ip) (bound : ℕ)
    → ((i k x : ℕ)
        → i % 2 ^ k ≡ 0
        → i + 2 ^ k ≤ bound
        → net_has (add lo (i, word - 2 ^ k)) (at x) ≡ (leb i x && ltb x (i + 2 ^ k)))
    → (l h : ℕ) (bs : List (ℕ × ℕ)) → h < bound
    → Tiles l h bs
    → (x : ℕ) → (l ≤ h + 1) × (count_has (map (add lo) bs) (at x) ≡ in_range l h x)
unfolding count_has
Tiles-count lo at bound one l h [] below e x = (omega arith, ground arith)
Tiles-count lo at bound one l h ((i, m) ∷ bs) below (k, em, ei, aligned, inside, tiles) x =
    let (le, rest) = Tiles-count lo at bound one (i + 2 ^ k) h bs below tiles x in
    (
      omega arith,
      rw (em, one i k x aligned (omega arith), rest) (ground (arith, one-le-pow k 2 (omega arith))),
    )

cover_runs :
    (fuel l h bound : ℕ) (lo : Ip) (at : ℕ → Ip)
    → ((i k x : ℕ)
        → i % 2 ^ k ≡ 0
        → i + 2 ^ k ≤ bound
        → net_has (add lo (i, word - 2 ^ k)) (at x) ≡ (leb i x && ltb x (i + 2 ^ k)))
    → bound < word
    → l ≤ h
    → h < bound
    → h - l < fuel
    → (nets : List IpNet) × (cover fuel lo l h ≡ ok nets)
      × ((x : ℕ) → count_has nets (at x) ≡ in_range l h x)
unfolding cover collect
cover_runs fuel l h bound lo at one fits le below enough =
    let (bs, run, tiles) = loop-Tiles fuel l h (omega arith) (omega arith) (omega arith) in
    (
      map (add lo) bs,
      rw (not_less, run) refl,
      λ x. (Tiles-count lo at bound one l h bs below tiles x).1,
    )
  where
    not_less : ltb h l ≡ false
    not_less = ground arith

-- An IPv4 range is split into networks that hold each of its addresses once and no other address.
pub split_short :
    (fuel l h : ℕ)
    → l ≤ h
    → h < 2 ^ 32
    → h - l < fuel
    → (nets : List IpNet) × (split_ip_range fuel (v4 l) (v4 h) ≡ ok nets)
      × ((x : ℕ) → count_has nets (v4 x) ≡ in_range l h x)
unfolding split_ip_range
split_short fuel l h =
    cover_runs fuel l h (2 ^ 32) (v4 l) v4 (λ i k x e b. add_short l i k x e b) (omega arith)

-- So is an IPv6 range inside one /64 network that ends before the last address of that network.
pub split_long :
    (fuel a l h : ℕ)
    → l ≤ h
    → h + 1 < word
    → h - l < fuel
    → (nets : List IpNet) × (split_ip_range fuel (v6 a l) (v6 a h) ≡ ok nets)
      × ((x : ℕ) → count_has nets (v6 a x) ≡ in_range l h x)
unfolding split_ip_range
split_long fuel a l h le below enough = rw (==_refl a) (
    cover_runs fuel l h (word - 1) (v6 a l) (v6 a) (λ i k x e b. add_long a l i k x e (omega arith))
      (omega arith) le (omega arith) enough)

-- An IPv6 range up to the last address of its /64 network keeps the loop running for ever: no number
-- of rounds is enough.
pub split_last_diverges :
    (fuel a l : ℕ) → l < word → split_ip_range fuel (v6 a l) (v6 a (word - 1)) ≡ diverges
unfolding split_ip_range cover collect
split_last_diverges fuel a l lt = rw (==_refl a, not_less, loop_last fuel l lt) refl
  where
    not_less : ltb (word - 1) l ≡ false
    not_less = ground arith
