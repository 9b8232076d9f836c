-- ===== src/Scanner/Ascii.antt =====
-- The scanner on ASCII texts: it returns, and does what the functions on the rest of the text say.
use netspoc.Prelude.{
  ℕ, zero, suc, ◌+◌, ◌<◌, ◌≡◌, inl, inr, refl, ap, ◌∙◌, subst, Bool, true, false, not, ◌||◌, Option,
  none, some, [], ◌∷◌, leb, ◌==◌, arith, length, drop, All, Bool-cases,
}
use netspoc.Prelude.Bytes.{Bytes}
use netspoc.Scanner.{
  Unicode, Scanner, Scan, ok, ◌>>=◌, init, next, next_at, at_ch, skip_while, skip_whitespace,
  is_eol, is_blank,
}
use netspoc.Scanner.Slices.{drop-length, drop-suc}
use netspoc.Scanner.Reference.{drop_while, skip_blanks, skip_blanks-comment, length-drop_while}

abbrev pub Ascii : Bytes → Type 0
Ascii = All (λ c. ((c == 0) ≡ false) × (leb 128 c ≡ false))

abbrev first : Bytes → Option ℕ
first [] = none
first (c ∷ cs) = some c

abbrev pub behind : Bytes → Bytes
behind [] = []
behind (c ∷ cs) = cs

-- The scanner stands before the rest of its text.
pub record At (src : Bytes) (s : Scanner) (rest : Bytes) : Type 0 where
  pub same : s.src ≡ src
  pub left : drop s.offset src ≡ rest
  pub pos : s.offset + length rest ≡ length src
  pub ch : s.ch ≡ first rest
  pub unread : drop s.rd_offset src ≡ behind rest
  pub unread_pos : s.rd_offset + length (behind rest) ≡ length src

-- A call returns, before this rest.
abbrev pub Returns : Bytes → Scan Scanner → Bytes → Type 0
Returns src r rest = (s : Scanner) × (r ≡ ok s) × At src s rest

abbrev read_state : Scanner → Bytes → Scanner
read_state s [] = record s { ch = none; offset = length s.src }
read_state s (d ∷ cs) = record s { ch = some d; offset = s.rd_offset; rd_offset = s.rd_offset + 1 }

module _ (u : Unicode) (src : Bytes) where
  read_at : (s : Scanner) (rest : Bytes) → Ascii rest → next_at u s rest ≡ ok (read_state s rest)
  unfolding next_at
  read_at s [] ascii = refl
  read_at s (d ∷ cs) ascii = rw (ascii.0.0, ascii.0.1) refl

  read_state-At :
      (s : Scanner) (rest : Bytes)
      → s.src ≡ src
      → drop s.rd_offset src ≡ rest
      → s.rd_offset + length rest ≡ length src
      → At src (read_state s rest) rest
  read_state-At s [] same e p = record {
    same = same;
    left = rw same (drop-length src);
    pos = rw same (omega arith);
    ch = refl;
    unread = e;
    unread_pos = p;
  }
  read_state-At s (d ∷ cs) same e p = record {
    same = same;
    left = e;
    pos = p;
    ch = refl;
    unread =
        let one : s.rd_offset + 1 ≡ suc s.rd_offset = omega arith in
        rw one (drop-suc s.rd_offset src d cs e);
    unread_pos = omega arith;
  }

  -- Reading a character.
  pub read-Returns :
      (s : Scanner) (rest : Bytes)
      → s.src ≡ src
      → drop s.rd_offset src ≡ rest
      → s.rd_offset + length rest ≡ length src
      → Ascii rest
      → Returns src (next u s) rest
  unfolding next
  read-Returns s rest same e p ascii = (
    read_state s rest,
    ap (next_at u s) (ap (drop s.rd_offset) same ∙ e) ∙ read_at s rest ascii,
    read_state-At s rest same e p,
  )

  pub next-Returns :
      (s : Scanner) (rest : Bytes)
      → At src s rest
      → Ascii (behind rest)
      → Returns src (next u s) (behind rest)
  next-Returns s rest at ascii = read-Returns s (behind rest) at.same at.unread at.unread_pos ascii

  -- `Init` stands before the whole text.
  pub init-Returns : Ascii src → Returns src (init u src) src
  unfolding init
  init-Returns ascii =
      read-Returns (record { src = src; ch = some b' '; offset = 0; rd_offset = 0 }) src refl refl
        (omega arith) ascii

  Returns-bind :
      {r : Scan Scanner} {mid rest : Bytes} (f : Scanner → Scan Scanner)
      → Returns src r mid
      → ((s : Scanner) → At src s mid → Returns src (f s) rest)
      → Returns src (r >>= f) rest
  Returns-bind f (s, e, at) k = rw e (k s at)

  pub Ascii-drop_while : (p : ℕ → Bool) (cs : Bytes) → Ascii cs → Ascii (drop_while p cs)
  Ascii-drop_while p [] a = tt
  Ascii-drop_while p (c ∷ cs) a = elim (Bool-cases (p c)) [
    | inl e ↦ rw e (Ascii-drop_while p cs a.1)
    | inr e ↦ rw e a
  ]

  skip_while-stop :
      (fuel : ℕ) (p : ℕ → Bool) (s : Scanner)
      → at_ch p s.ch ≡ false
      → skip_while u (suc fuel) p s ≡ ok s
  unfolding skip_while
  skip_while-stop fuel p s e = rw (e, skip_while) refl

  skip_while-go :
      (fuel : ℕ) (p : ℕ → Bool) (s : Scanner)
      → at_ch p s.ch ≡ true
      → skip_while u (suc fuel) p s ≡ (next u s >>= skip_while u fuel p)
  unfolding skip_while
  skip_while-go fuel p s e = rw (e, skip_while) refl

  pub skip_while-Returns :
      (fuel : ℕ) (p : ℕ → Bool) (s : Scanner) (rest : Bytes)
      → At src s rest
      → Ascii rest
      → length rest < fuel
      → Returns src (skip_while u fuel p s) (drop_while p rest)
  skip_while-Returns zero p s rest at ascii lt = absurd (omega arith)
  skip_while-Returns (suc fuel) p s [] at ascii lt =
      (s, skip_while-stop fuel p s (ap (at_ch p) at.ch), at)
  skip_while-Returns (suc fuel) p s (c ∷ cs) at ascii lt = elim (Bool-cases (p c)) [
    | inl e ↦
        rw (skip_while-go fuel p s (ap (at_ch p) at.ch ∙ e), e)
          (Returns-bind (skip_while u fuel p) (next-Returns s (c ∷ cs) at ascii.1)
            (λ s' at'. skip_while-Returns fuel p s' cs at' ascii.1 (omega arith)))
    | inr e ↦ rw e (s, skip_while-stop fuel p s (ap (at_ch p) at.ch ∙ e), at)
  ]

  skip_whitespace-stop :
      (fuel : ℕ) (s : Scanner)
      → at_ch is_blank s.ch ≡ false
      → at_ch (λ c. c == b'#') s.ch ≡ false
      → skip_whitespace u (suc fuel) s ≡ ok s
  unfolding skip_whitespace
  skip_whitespace-stop fuel s e f = rw (e, f, skip_whitespace) refl

  skip_whitespace-blank :
      (fuel : ℕ) (s : Scanner)
      → at_ch is_blank s.ch ≡ true
      → skip_whitespace u (suc fuel) s ≡ (next u s >>= skip_whitespace u fuel)
  unfolding skip_whitespace
  skip_whitespace-blank fuel s e = rw (e, skip_whitespace) refl

  skip_whitespace-comment :
      (fuel : ℕ) (s : Scanner)
      → at_ch is_blank s.ch ≡ false
      → at_ch (λ c. c == b'#') s.ch ≡ true
      → skip_whitespace u (suc fuel) s
        ≡ (skip_while u fuel (λ c. not (is_eol c)) s >>= skip_whitespace u fuel)
  unfolding skip_whitespace
  skip_whitespace-comment fuel s e f = rw (e, f, skip_whitespace) refl

  rest_of_line :
      (c : ℕ) (cs : Bytes)
      → is_eol c ≡ false
      → drop_while (λ c. not (is_eol c)) (c ∷ cs) ≡ drop_while (λ c. not (is_eol c)) cs
  rest_of_line c cs e = rw e refl

  pub skip_whitespace-Returns :
      (fuel : ℕ) (s : Scanner) (rest : Bytes)
      → At src s rest
      → Ascii rest
      → suc (length rest) < fuel
      → Returns src (skip_whitespace u fuel s) (skip_blanks false rest)
  skip_whitespace-Returns zero s rest at ascii lt = absurd (omega arith)
  skip_whitespace-Returns (suc fuel) s [] at ascii lt = (
    s,
    skip_whitespace-stop fuel s (ap (at_ch is_blank) at.ch) (ap (at_ch (λ c. c == b'#')) at.ch),
    at,
  )
  skip_whitespace-Returns (suc fuel) s (c ∷ cs) at ascii lt = elim (Bool-cases (is_blank c)) [
    | inl e ↦
        let other : (c == b'#') ≡ false = ground arith in
        rw (skip_whitespace-blank fuel s (ap (at_ch is_blank) at.ch ∙ e), e, other)
          (Returns-bind (skip_whitespace u fuel) (next-Returns s (c ∷ cs) at ascii.1)
            (λ s' at'. skip_whitespace-Returns fuel s' cs at' ascii.1 (omega arith)))
    | inr e ↦ elim (Bool-cases (c == b'#')) [
      | inl f ↦
          let inside : is_eol c ≡ false = ground arith in
          let line =
            subst (Returns src (skip_while u fuel (λ c. not (is_eol c)) s))
              (rest_of_line c cs inside)
              (skip_while-Returns fuel (λ c. not (is_eol c)) s (c ∷ cs) at ascii (omega arith)) in
          let shorter = length-drop_while (λ c. not (is_eol c)) cs in
          rw
            (
              skip_whitespace-comment fuel s (ap (at_ch is_blank) at.ch ∙ e)
                  (ap (at_ch (λ c. c == b'#')) at.ch ∙ f),
              e,
              f,
              skip_blanks-comment cs,
            )
            (Returns-bind (skip_whitespace u fuel) line (λ s' at'.
              skip_whitespace-Returns fuel s' (drop_while (λ c. not (is_eol c)) cs) at'
                (Ascii-drop_while (λ c. not (is_eol c)) cs ascii.1) (omega (arith, shorter))))
      | inr f ↦
          rw (e, f)
            (
              s,
              skip_whitespace-stop fuel s (ap (at_ch is_blank) at.ch ∙ e)
                  (ap (at_ch (λ c. c == b'#')) at.ch ∙ f),
              at,
            )
    ]
  ]

pub Ascii-skip_blanks : (inside : Bool) (cs : Bytes) → Ascii cs → Ascii (skip_blanks inside cs)
Ascii-skip_blanks inside [] a = tt
Ascii-skip_blanks true (c ∷ cs) a = Ascii-skip_blanks (not (is_eol c)) cs a.1
Ascii-skip_blanks false (c ∷ cs) a = elim (Bool-cases (is_blank c || c == b'#')) [
  | inl e ↦ rw e (Ascii-skip_blanks (c == b'#') cs a.1)
  | inr e ↦ rw e a
]
