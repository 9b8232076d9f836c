-- ===== src/Scanner/Tokens.antt =====
-- The tokens of an ASCII text.
use netspoc.Prelude.{
  ℕ, suc, ◌+◌, ◌<◌, ◌≡◌, inl, inr, refl, sym, ap, ◌∙◌, Bool, true, false, not, ◌&&◌, [], ◌∷◌, ◌++◌,
  ◌==◌, arith, length, length-append, Bool-cases,
}
use netspoc.Prelude.Bytes.{Bytes}
use netspoc.Scanner.{
  Unicode, Scanner, Scan, ok, ◌>>=◌, next, at_ch, Token, scan_token, scan, token_from, slice,
  with_bracket, token, is_token_char,
}
use netspoc.Scanner.Slices.{slice-append}
use netspoc.Scanner.Reference.{
  take_while, drop_while, skip_blanks, take_while-drop_while, length-skip_blanks, first_token,
  bracketed,
}
use netspoc.Scanner.Ascii.{
  Ascii, At, Returns, next-Returns, skip_while-Returns, skip_whitespace-Returns, Ascii-skip_blanks,
  Ascii-drop_while,
}

-- A call returns this token at this rest, and the scanner stands behind it.
pub record Found (src : Bytes) (r : Scan (Token × Scanner)) (rest : Bytes)
    (found : Bool × Bytes × Bytes) : Type 0 where
  pub token : Token
  pub scanner : Scanner
  pub returns : r ≡ ok (token, scanner)
  pub is_sep : token.is_sep ≡ found.0
  pub text : token.text ≡ found.1
  pub pos : token.pos + length rest ≡ length src
  pub behind : At src scanner found.2

module _ (u : Unicode) (src : Bytes) where
  from_At :
      (s s' : Scanner) (is_sep : Bool) (rest text rest' : Bytes)
      → At src s rest
      → At src s' rest'
      → rest ≡ text ++ rest'
      → Found src (token_from s.offset is_sep s') rest (is_sep, text, rest')
  unfolding token_from
  from_At s s' is_sep rest text rest' at at' e = record {
    token = record { pos = s.offset; is_sep = is_sep; text = slice s'.src s.offset s'.offset };
    scanner = s';
    returns = refl;
    is_sep = refl;
    text =
        ap (λ x. slice x s.offset s'.offset) at'.same
        ∙ slice-append src text rest' s.offset s'.offset (at.left ∙ e)
            (omega (arith, at.pos, at'.pos, ap length e, length-append text rest'));
    pos = at.pos;
    behind = at';
  }

  Found-bind :
      {r : Scan Scanner} {mid rest : Bytes} {found : Bool × Bytes × Bytes}
      (f : Scanner → Scan (Token × Scanner))
      → Returns src r mid
      → ((s : Scanner) → At src s mid → Found src (f s) rest found)
      → Found src (r >>= f) rest found
  Found-bind f (s, e, at) k = rw e (k s at)

  scan_token-Found :
      (fuel : ℕ) (check : ℕ → Bool) (s : Scanner) (rest : Bytes)
      → At src s rest
      → Ascii rest
      → length rest < fuel
      → Found src (scan_token u fuel check s) rest (first_token check rest)
  unfolding scan_token
  scan_token-Found fuel check s [] at ascii lt =
      let stop = ap (at_ch check) at.ch in
      Found-bind _ (next-Returns u src s [] at tt)
        (λ s' at'. rw stop (from_At s s' true [] [] [] at at' refl))
  scan_token-Found fuel check s (c ∷ cs) at ascii lt =
      Found-bind _ (next-Returns u src s (c ∷ cs) at ascii.1) λ s' at'.
        elim (Bool-cases (check c)) [
          | inl e ↦
              let go = ap (at_ch check) at.ch ∙ e in
              rw (go, e)
                (Found-bind (token_from s.offset false)
                  (skip_while-Returns u src fuel check s' cs at' ascii.1 (omega arith))
                  λ s'' at''.
                    from_At s s'' false (c ∷ cs) (c ∷ take_while check cs) (drop_while check cs) at
                      at'' (ap (λ t. c ∷ t) (sym (take_while-drop_while check cs))))
          | inr e ↦
              let stop = ap (at_ch check) at.ch ∙ e in
              rw (stop, e) (from_At s s' true (c ∷ cs) (c ∷ []) cs at at' refl)
        ]

  -- On an ASCII text the scanner returns, with fuel for two more rounds than there are bytes left. It
  -- finds the token that stands first behind blanks and comments, as the functions on the rest of the
  -- text say, with its position, and then stands behind it: a token is a character that does not pass
  -- the test, or as many characters that pass as there are, and is empty only at the end.
  pub scan-first_token :
      (fuel : ℕ) (check : ℕ → Bool) (s : Scanner) (rest : Bytes)
      → At src s rest
      → Ascii rest
      → suc (length rest) < fuel
      → Found src
          (scan u fuel check s)
          (skip_blanks false rest)
          (first_token check (skip_blanks false rest))
  unfolding scan
  scan-first_token fuel check s rest at ascii lt =
      let shorter = length-skip_blanks false rest in
      Found-bind (scan_token u fuel check) (skip_whitespace-Returns u src fuel s rest at ascii lt)
        λ s' at'.
          scan_token-Found fuel check s' (skip_blanks false rest) at'
            (Ascii-skip_blanks false rest ascii) (omega (arith, shorter))

  first_token-Ascii :
      (check : ℕ → Bool) (rest : Bytes) → Ascii rest → Ascii (first_token check rest).2
  first_token-Ascii check [] a = tt
  first_token-Ascii check (c ∷ cs) a = elim (Bool-cases (check c)) [
    | inl e ↦ rw e (Ascii-drop_while u src check cs a.1)
    | inr e ↦ rw e a.1
  ]

  abbrev Bracketed : Scan (Token × Scanner) → Bytes → Bool × Bytes × Bytes → Type 0
  Bracketed r rest found = Found src r rest (bracketed found)

  with_bracket-none :
      (t : Token) (s : Scanner)
      → (not t.is_sep && at_ch (λ c. c == b'[') s.ch) ≡ false
      → with_bracket u (t, s) ≡ ok (t, s)
  unfolding with_bracket
  with_bracket-none t s e = rw e refl

  with_bracket-some :
      (t : Token) (s : Scanner)
      → (not t.is_sep && at_ch (λ c. c == b'[') s.ch) ≡ true
      → with_bracket u (t, s)
        ≡ (next u s >>= (λ s'. ok (record t { text = t.text ++ b'[' ∷ [] }, s')))
  unfolding with_bracket
  with_bracket-some t s e = rw e refl

  -- Nothing is added.
  unchanged :
      {r : Scan (Token × Scanner)} {rest : Bytes} {found : Bool × Bytes × Bytes}
      (f : Found src r rest found)
      → (not f.token.is_sep && at_ch (λ c. c == b'[') f.scanner.ch) ≡ false
      → Found src (r >>= with_bracket u) rest found
  unchanged f e = record {
    token = f.token;
    scanner = f.scanner;
    returns = rw f.returns (with_bracket-none f.token f.scanner e);
    is_sep = f.is_sep;
    text = f.text;
    pos = f.pos;
    behind = f.behind;
  }

  extended :
      {r : Scan (Token × Scanner)} {rest text rest' : Bytes} (c : ℕ)
      (f : Found src r rest (false, text, c ∷ rest'))
      → (c == b'[') ≡ true
      → Ascii rest'
      → Found src (r >>= with_bracket u) rest (false, text ++ b'[' ∷ [], rest')
  extended c f e ascii =
      let (s', n, at') = next-Returns u src f.scanner (c ∷ _) f.behind ascii in
      let joins : (not f.token.is_sep && at_ch (λ c. c == b'[') f.scanner.ch) ≡ true =
        rw f.is_sep (ap (at_ch (λ c. c == b'[')) f.behind.ch ∙ e) in
      record {
        token = record f.token { text = f.token.text ++ b'[' ∷ [] };
        scanner = s';
        returns = rw f.returns (with_bracket-some f.token f.scanner joins ∙ rw n refl);
        is_sep = f.is_sep;
        text = ap (λ t. t ++ b'[' ∷ []) f.text;
        pos = f.pos;
        behind = at';
      }

  with_bracket-Found :
      (r : Scan (Token × Scanner)) (rest : Bytes) (is_sep : Bool) (text rest' : Bytes)
      → Ascii rest'
      → Found src r rest (is_sep, text, rest')
      → Found src (r >>= with_bracket u) rest (bracketed (is_sep, text, rest'))
  with_bracket-Found r rest true text rest' ascii f = unchanged f (rw f.is_sep refl)
  with_bracket-Found r rest false text [] ascii f =
      unchanged f (rw f.is_sep (ap (at_ch (λ c. c == b'[')) f.behind.ch))
  with_bracket-Found r rest false text (c ∷ cs) ascii f = elim (Bool-cases (c == b'[')) [
    | inl e ↦ rw e (extended c f e ascii.1)
    | inr e ↦ rw e (unchanged f (rw f.is_sep (ap (at_ch (λ c. c == b'[')) f.behind.ch ∙ e)))
  ]

  -- The same for the scanner's tokens of names, where a `[` directly behind a token that is no
  -- separator belongs to it.
  pub token-bracketed :
      (fuel : ℕ) (s : Scanner) (rest : Bytes)
      → At src s rest
      → Ascii rest
      → suc (length rest) < fuel
      → Found src
          (token u fuel s)
          (skip_blanks false rest)
          (bracketed (first_token (is_token_char u) (skip_blanks false rest)))
  unfolding token
  token-bracketed fuel s rest at ascii lt =
      let left = skip_blanks false rest in
      let found = first_token (is_token_char u) left in
      with_bracket-Found (scan u fuel (is_token_char u) s) left found.0 found.1 found.2
        (first_token-Ascii (is_token_char u) left (Ascii-skip_blanks false rest ascii))
        (scan-first_token fuel (is_token_char u) s rest at ascii lt)
