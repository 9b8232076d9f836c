-- ===== src/Prelude/Bytes.antt =====
-- Texts as lists of code points, which are bytes where the text is ASCII, and decimal numbers.
use Prim.Native.Nat.{ℕ, zero, suc, ◌+◌, ◌-◌, ◌*◌, ◌/◌, ◌%◌, ◌<◌}
use Prim.Native.Char.{code}
use Prim.Native.String.{String}
use mathlib.Core.Path.{◌≡◌, refl, sym, ◌∙◌, ap}
use mathlib.Core.Logic.{inl, inr}
use mathlib.Core.Bool.{Bool, true, false, ◌&&◌}
use mathlib.Core.Option.{Option, none, some}
use mathlib.Core.List.{List, [], ◌∷◌, ◌++◌}
use native.Mathlib.Omega.{arith}
use netspoc.Prelude.Tests.{ltb, leb, ◌==◌, if◌then◌else◌, Bool-cases, ==_refl}
use netspoc.Prelude.Lists.{All}

abbrev pub Bytes : Type 0
Bytes = List ℕ

abbrev pub codes : String → Bytes
codes String.[] = []
codes (String.◌∷◌ c s) = code c ∷ codes s

abbrev pub bytes_eq : Bytes → Bytes → Bool
bytes_eq [] [] = true
bytes_eq (a ∷ s) (b ∷ t) = a == b && bytes_eq s t
bytes_eq _ _ = false

pub bytes_eq_refl : (s : Bytes) → bytes_eq s s ≡ true
bytes_eq_refl [] = refl
bytes_eq_refl (a ∷ s) = ground (arith, bytes_eq_refl s)

pub bytes_eq-eq : (s t : Bytes) → bytes_eq s t ≡ true → s ≡ t
bytes_eq-eq [] [] e = refl
bytes_eq-eq [] (b ∷ t) e = cc
bytes_eq-eq (a ∷ s) [] e = cc
bytes_eq-eq (a ∷ s) (b ∷ t) e =
    let same : a ≡ b = ground arith in
    let rest = bytes_eq-eq s t (ground arith) in rw (same, rest) refl

-- `strings.Compare(a, b) == -1`
abbrev pub bytes_less : Bytes → Bytes → Bool
bytes_less [] [] = false
bytes_less [] (b ∷ t) = true
bytes_less (a ∷ s) [] = false
bytes_less (a ∷ s) (b ∷ t) = let rest = bytes_less s t in if a == b then rest else ltb a b

-- `strings.Index` for one byte: the text before its first occurrence and the text behind it.
abbrev pub cut_at : ℕ → Bytes → Option (Bytes × Bytes)
cut_at c [] = none
cut_at c (a ∷ s) =
    if a == c
    then some ([], s)
    else elim (cut_at c s) [ none ↦ none | some (before, behind) ↦ some (a ∷ before, behind) ]

-- No byte of the text is `c`.
abbrev pub Free : ℕ → Bytes → Type 0
Free c = All (λ a. (a == c) ≡ false)

pub cut_at_first : (c : ℕ) (s t : Bytes) → Free c s → cut_at c (s ++ c ∷ t) ≡ some (s, t)
cut_at_first c [] t free = ground (arith, ==_refl c)
cut_at_first c (a ∷ s) t free = rw (free.0, cut_at_first c s t free.1) refl

pub cut_at-none : (c : ℕ) (s : Bytes) → Free c s → cut_at c s ≡ none
cut_at-none c [] free = refl
cut_at-none c (a ∷ s) free = rw (free.0, cut_at-none c s free.1) refl

unfoldable pub is_digit : ℕ → Bool
is_digit c = leb b'0' c && leb c b'9'

abbrev digit_loop : ℕ → ℕ → Bytes → Bytes
digit_loop zero n out = out
digit_loop (suc fuel) n out =
    let rest = digit_loop fuel (n / 10) ((n % 10 + b'0') ∷ out) in
    if ltb n 10 then (n + b'0') ∷ out else rest

-- `strconv.Itoa` of a number that is not negative.
unfoldable pub itoa : ℕ → Bytes
itoa n = digit_loop (suc n) n []

-- The value of a text of digits, on top of `n`; `none` where there is another byte.
value_on : ℕ → Bytes → Option ℕ
unfolding is_digit
value_on n [] = some n
value_on n (c ∷ s) =
    let rest = value_on (n * 10 + (c - b'0')) s in if is_digit c then rest else none

or_zero : Option ℕ → ℕ
or_zero none = 0
or_zero (some n) = n

-- `strconv.Atoi` on texts with no sign, where an error leaves 0.
unfoldable pub atoi : Bytes → ℕ
unfolding value_on or_zero
atoi [] = 0
atoi (c ∷ s) = or_zero (value_on 0 (c ∷ s))

digit_loop-Free :
    (c fuel n : ℕ) (out : Bytes) → is_digit c ≡ false → Free c out → Free c (digit_loop fuel n out)
unfolding is_digit
digit_loop-Free c zero n out e free = free
digit_loop-Free c (suc fuel) n out e free = elim (Bool-cases (ltb n 10)) [
  | inl lt ↦ rw lt (ground arith, free)
  | inr ge ↦ rw ge (digit_loop-Free c fuel (n / 10) ((n % 10 + b'0') ∷ out) e (ground arith, free))
]

-- A number's digits hold no other byte.
pub itoa-Free : (c n : ℕ) → is_digit c ≡ false → Free c (itoa n)
unfolding itoa
itoa-Free c n e = digit_loop-Free c (suc n) n [] e tt

is_digit_lem : (d : ℕ) → d < 10 → is_digit (d + b'0') ≡ true
unfolding is_digit
is_digit_lem d lt = ground arith

value_on_digit :
    (m d n : ℕ) (out : Bytes)
    → d < 10
    → m * 10 + d ≡ n
    → value_on m ((d + b'0') ∷ out) ≡ value_on n out
unfolding value_on
value_on_digit m d n out lt e = rw (is_digit_lem d lt) (ap (λ k. value_on k out) (omega arith))

value_on-digit_loop :
    (fuel n : ℕ) (out : Bytes) → n < fuel → value_on 0 (digit_loop fuel n out) ≡ value_on n out
unfolding value_on
value_on-digit_loop zero n out lt = absurd (omega arith)
value_on-digit_loop (suc fuel) n out lt = elim (Bool-cases (ltb n 10)) [
  | inl small ↦ rw small (value_on_digit 0 n n out (ground arith) (omega arith))
  | inr big ↦ rw big (
      value_on-digit_loop fuel (n / 10) ((n % 10 + b'0') ∷ out) (ground arith)
      ∙ value_on_digit (n / 10) (n % 10) n out (omega arith) (omega arith))
]

digit_loop_head :
    (fuel n : ℕ) (out : Bytes) → n < fuel → (c : ℕ) × (s : Bytes) × (digit_loop fuel n out ≡ c ∷ s)
digit_loop_head zero n out lt = absurd (omega arith)
digit_loop_head (suc fuel) n out lt = elim (Bool-cases (ltb n 10)) [
  | inl small ↦ (n + b'0', out, rw small refl)
  | inr big ↦
      let (c, s, e) = digit_loop_head fuel (n / 10) ((n % 10 + b'0') ∷ out) (ground arith) in
      (c, s, rw big e)
]

-- A number's digits start with a digit: with a non-digit a text differs at once.
itoa_head : (n : ℕ) → (c : ℕ) × (s : Bytes) × (itoa n ≡ c ∷ s)
unfolding itoa
itoa_head n = digit_loop_head (suc n) n [] (omega arith)

differs :
    (s t : Bytes) (a : ℕ)
    → is_digit a ≡ false
    → Free a s
    → (c : ℕ) (r : Bytes) → s ≡ c ∷ r
    → bytes_eq s (a ∷ t) ≡ false
unfolding is_digit
differs [] t a e free c r same = refl
differs (b ∷ s) t a e free c r same = rw free.0 refl

pub itoa_not : (n a : ℕ) (t : Bytes) → is_digit a ≡ false → bytes_eq (itoa n) (a ∷ t) ≡ false
itoa_not n a t e =
    let (c, s, same) = itoa_head n in differs (itoa n) t a e (itoa-Free a n e) c s same

pub itoa_not_empty : (n : ℕ) → bytes_eq (itoa n) [] ≡ false
itoa_not_empty n = let (c, s, same) = itoa_head n in rw same refl

-- A number is read back from its digits.
pub atoi-itoa : (n : ℕ) → atoi (itoa n) ≡ n
unfolding atoi itoa or_zero value_on
atoi-itoa n =
    let (c, s, e) = digit_loop_head (suc n) n [] (omega arith) in
    rw e (ap or_zero (ap (value_on 0) (sym e) ∙ value_on-digit_loop (suc n) n [] (omega arith)))
