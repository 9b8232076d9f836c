-- ===== src/Paths/PrevIp.antt =====
-- `prevIP` against the number that an address stands for.
use mathlib.Core.List.{reverse, reverse-append, reverse-reverse}
use netspoc.Prelude.{ℕ, ◌+◌, ◌*◌, ◌<◌, ◌≡◌, ap, ◌∙◌, [], ◌∷◌, ◌++◌, arith}
use netspoc.Prelude.Bytes.{Bytes}
use netspoc.Paths.{prev_from_last, prev_ip}

-- The number, from the last byte on.
abbrev from_last : Bytes → ℕ
from_last [] = 0
from_last (b ∷ bs) = b + 256 * from_last bs

-- The number of an address, its first byte being the highest.
abbrev pub ip_number : Bytes → ℕ
ip_number ip = from_last (reverse ip)

last_byte :
    (ip : Bytes) (b : ℕ) → prev_ip (ip ++ b ∷ []) ≡ reverse (prev_from_last (b ∷ reverse ip))
unfolding prev_ip
last_byte ip b = ap (λ x. reverse (prev_from_last x)) (reverse-append ip (b ∷ []))

number_prev :
    (ip : Bytes) (b : ℕ)
    → ip_number (prev_ip (ip ++ b ∷ [])) ≡ from_last (prev_from_last (b ∷ reverse ip))
number_prev ip b =
    ap ip_number (last_byte ip b) ∙ ap from_last (reverse-reverse (prev_from_last (b ∷ reverse ip)))

number_last : (ip : Bytes) (b : ℕ) → ip_number (ip ++ b ∷ []) ≡ b + 256 * ip_number ip
number_last ip b = ap from_last (reverse-append ip (b ∷ []))

-- `prevIP` is the address before only if the last byte is neither 0 nor 255: for a last byte of 0
-- nothing is borrowed from the byte before, and the result is too large by 256; for a last byte of
-- 255, with the byte before it neither 0 nor 255, one is taken from that byte as well, and the result
-- is too small by 256.
pub prev_ip_number :
    (ip : Bytes) (a b : ℕ)
    → 0 < a
    → a < 255
    → b < 256
    → (b ≡ 0 → ip_number (prev_ip (ip ++ b ∷ [])) + 1 ≡ ip_number (ip ++ b ∷ []) + 256)
      × (0 < b → b < 255 → ip_number (prev_ip (ip ++ b ∷ [])) + 1 ≡ ip_number (ip ++ b ∷ []))
      × (b ≡ 255
          → ip_number (prev_ip ((ip ++ a ∷ []) ++ b ∷ [])) + 1 + 256
            ≡ ip_number ((ip ++ a ∷ []) ++ b ∷ []))
unfolding prev_from_last
prev_ip_number ip a b pos lt byte = (
  λ e. rw (number_prev ip b, number_last ip b) (ground arith),
  λ p l. rw (number_prev ip b, number_last ip b) (ground arith),
  λ e.
      rw (number_prev (ip ++ a ∷ []) b, number_last (ip ++ a ∷ []) b, reverse-append ip (a ∷ []))
        (ground arith),
)
