-- ===== src/Tests/SplitRange.antt =====
-- Runs of `splitIpRange`.
use netspoc.Prelude.{ℕ, ◌-◌, ◌≡◌, refl, List, [], ◌∷◌, arith}
use netspoc.SplitRange.{v4, v6, IpNet, ok, diverges, word, split_ip_range}
use netspoc.SplitRange.Cover.{count_has, in_range, split_short, split_long, split_last_diverges}

-- 10.1.1.1 to 10.1.1.4
abbrev first : ℕ
first = 0x0a010101

abbrev last : ℕ
last = 0x0a010104

three_parts :
    split_ip_range 9 (v4 first) (v4 last)
    ≡ ok (
        record { ip = v4 first; mask = v4 0xffffffff }
        ∷ record { ip = v4 0x0a010102; mask = v4 0xfffffffe }
        ∷ record { ip = v4 last; mask = v4 0xffffffff }
        ∷ [])
unfolding split_ip_range
three_parts = refl

split_short_example :
    (nets : List IpNet) × (split_ip_range 4 (v4 first) (v4 last) ≡ ok nets)
    × ((x : ℕ) → count_has nets (v4 x) ≡ in_range first last x)
split_short_example = split_short 4 first last (omega arith) (omega arith) (omega arith)

split_long_example :
    (nets : List IpNet) × (split_ip_range 8 (v6 0x20010db8 0) (v6 0x20010db8 6) ≡ ok nets)
    × ((x : ℕ) → count_has nets (v6 0x20010db8 x) ≡ in_range 0 6 x)
split_long_example = split_long 8 0x20010db8 0 6 (omega arith) (omega arith) (omega arith)

split_last_diverges_example : split_ip_range 100 (v6 1 (word - 2)) (v6 1 (word - 1)) ≡ diverges
split_last_diverges_example = split_last_diverges 100 1 (word - 2) (omega arith)
