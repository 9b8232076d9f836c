-- ===== src/SplitRange.antt =====
-- go/pkg/pass1/convert-hosts.go: `splitIpRange`, which turns a range of addresses into networks.
pub mod Loop
pub mod Cover
use netspoc.Prelude.{
  ℕ, zero, suc, ◌+◌, ◌-◌, ◌*◌, ◌%◌, ◌^◌, Bool, true, false, Option, none, some, List, [], ◌∷◌, map,
  if◌then◌else◌, ltb, leb, ◌==◌, ◌&&◌,
}
use mathlib.Core.Option

-- A `net.IP` of four bytes, or of sixteen bytes as its two big-endian halves.
pub data Ip : Type 0 where
  v4 : ℕ → Ip
  v6 : ℕ → ℕ → Ip

pub record IpNet : Type 0 where
  pub ip : Ip
  pub mask : Ip

pub data Error : Type 0 where
  not_in_64 invalid_range : Error

-- `diverges` stands for a run that has not ended when the fuel is used up.
pub data Result {ℓ} (A : Type ℓ) : Type ℓ where
  ok : A → Result A
  err : Error → Result A
  diverges : Result A

-- `net.IP.To16`: a short address becomes ::ffff:a.b.c.d.
pub to16 : Ip → ℕ × ℕ
to16 (v4 n) = (0, 0xffff * 2 ^ 32 + n)
to16 (v6 hi lo) = (hi, lo)

abbrev pub word : ℕ
word = 2 ^ 64

-- `invMask` after 64 - k halvings.
abbrev pub inv_mask : ℕ → ℕ
inv_mask k = 2 ^ k - 1

-- `l & invMask`
abbrev pub low_bits : ℕ → ℕ → ℕ
low_bits l k = l % 2 ^ k

-- `l | invMask`
abbrev pub fill_low : ℕ → ℕ → ℕ
fill_low l k = l - low_bits l k + inv_mask k

-- The test of the inner loop: `l&invMask == 0`, and `end := l | invMask` is at most `h`.
fits : ℕ → ℕ → ℕ → Bool
fits l h k = low_bits l k == 0 && leb (fill_low l k) h

-- The inner loop, from `invMask` = 2 ^ k - 1 down to 0: `end` and `invMask` of the block found.
pub find_block : ℕ → ℕ → ℕ → Option (ℕ × ℕ)
unfolding fits
find_block zero l h = if fits l h 0 then some (fill_low l 0, inv_mask 0) else none
find_block (suc k) l h =
    let smaller = find_block k l h in
    if fits l h (suc k) then some (fill_low l (suc k), inv_mask (suc k)) else smaller

-- `^invMask` on 64 bits.
abbrev pub complement : ℕ → ℕ
complement m = word - 1 - m

-- The loop `for l <= h`. Its blocks are pairs of address and mask; `end + 1` wraps round at 64 bits.
pub loop : ℕ → ℕ → ℕ → Option (List (ℕ × ℕ))
loop zero l h = if leb l h then none else some []
loop (suc fuel) l h =
    let rest : Option (List (ℕ × ℕ)) = elim (find_block 64 l h) [
      | none ↦ loop fuel l h
      | some (end, m) ↦ Option.map (λ bs. (l, complement m) ∷ bs) (loop fuel ((end + 1) % word) h)
    ] in
    if leb l h then rest else some []

-- The closure `add`: a block as a network of the kind of `lo`.
pub add : Ip → ℕ × ℕ → IpNet
add (v4 _) (i, m) = record { ip = v4 (i % 2 ^ 32); mask = v4 (m % 2 ^ 32) }
add (v6 hi _) (i, m) = record { ip = v6 hi i; mask = v6 (word - 1) m }

collect : Ip → Option (List (ℕ × ℕ)) → Result (List IpNet)
collect lo none = diverges
collect lo (some bs) = ok (map (add lo) bs)

cover : ℕ → Ip → ℕ → ℕ → Result (List IpNet)
unfolding collect
cover fuel lo l h = if ltb h l then err invalid_range else collect lo (loop fuel l h)

long_range : ℕ → ℕ × ℕ → ℕ × ℕ → Result (List IpNet)
unfolding cover
long_range fuel (a, l) (b, h) = if a == b then cover fuel (v6 a l) l h else err not_in_64

unfoldable pub split_ip_range : ℕ → Ip → Ip → Result (List IpNet)
unfolding cover long_range to16 collect add loop find_block fits
split_ip_range fuel (v4 l) (v4 h) = cover fuel (v4 l) l h
split_ip_range fuel (v6 a l) hi = long_range fuel (a, l) (to16 hi)
split_ip_range fuel lo hi = long_range fuel (to16 lo) (to16 hi)
