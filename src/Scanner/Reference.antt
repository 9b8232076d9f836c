-- ===== src/Scanner/Reference.antt =====
-- What the scanner does, as functions on the text that is left.
use netspoc.Prelude.{
  ℕ, ◌≤◌, ◌≡◌, inl, inr, refl, ap, Bool, true, false, not, ◌||◌, [], ◌∷◌, ◌++◌, if◌then◌else◌, ◌==◌,
  arith, length, Bool-cases,
}
use netspoc.Prelude.Bytes.{Bytes}
use netspoc.Scanner.{is_blank, is_eol}

abbrev pub take_while : (ℕ → Bool) → Bytes → Bytes
take_while p [] = []
take_while p (c ∷ cs) = if p c then c ∷ take_while p cs else []

abbrev pub drop_while : (ℕ → Bool) → Bytes → Bytes
drop_while p [] = []
drop_while p (c ∷ cs) = if p c then drop_while p cs else c ∷ cs

-- The text behind blanks and comments; the flag is set inside of a comment.
abbrev pub skip_blanks : Bool → Bytes → Bytes
skip_blanks inside [] = []
skip_blanks true (c ∷ cs) = skip_blanks (not (is_eol c)) cs
skip_blanks false (c ∷ cs) =
    let text = c ∷ cs in
    let rest = skip_blanks (c == b'#') cs in if is_blank c || c == b'#' then rest else text

pub take_while-drop_while : (p : ℕ → Bool) (cs : Bytes) → take_while p cs ++ drop_while p cs ≡ cs
take_while-drop_while p [] = refl
take_while-drop_while p (c ∷ cs) = elim (Bool-cases (p c)) [
  | inl e ↦ rw e (ap (λ t. c ∷ t) (take_while-drop_while p cs))
  | inr e ↦ rw e refl
]

-- A comment ends before the end of its line.
pub skip_blanks-comment :
    (cs : Bytes) → skip_blanks true cs ≡ skip_blanks false (drop_while (λ c. not (is_eol c)) cs)
skip_blanks-comment [] = refl
skip_blanks-comment (c ∷ cs) = elim (Bool-cases (is_eol c)) [
  | inl e ↦ let newline : c ≡ 10 = ground arith in rw newline refl
  | inr e ↦ rw e (skip_blanks-comment cs)
]

pub length-drop_while : (p : ℕ → Bool) (cs : Bytes) → length (drop_while p cs) ≤ length cs
length-drop_while p [] = omega arith
length-drop_while p (c ∷ cs) = elim (Bool-cases (p c)) [
  | inl e ↦ rw e (omega (arith, length-drop_while p cs))
  | inr e ↦ rw e (omega arith)
]

-- What a scan finds behind the blanks: whether it is a separator, its text, and what is left.
abbrev pub first_token : (ℕ → Bool) → Bytes → Bool × Bytes × Bytes
first_token check [] = (true, [], [])
first_token check (c ∷ cs) =
    if check c then (false, c ∷ take_while check cs, drop_while check cs) else (true, c ∷ [], cs)

pub length-skip_blanks : (inside : Bool) (cs : Bytes) → length (skip_blanks inside cs) ≤ length cs
length-skip_blanks inside [] = omega arith
length-skip_blanks true (c ∷ cs) = omega (arith, length-skip_blanks (not (is_eol c)) cs)
length-skip_blanks false (c ∷ cs) = ground (arith, length-skip_blanks (c == b'#') cs)

-- A `[` directly behind a token that is no separator belongs to it.
abbrev pub bracketed : Bool × Bytes × Bytes → Bool × Bytes × Bytes
bracketed (false, text, c ∷ rest) =
    if c == b'[' then (false, text ++ b'[' ∷ [], rest) else (false, text, c ∷ rest)
bracketed (is_sep, text, rest) = (is_sep, text, rest)
