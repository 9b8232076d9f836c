-- ===== src/Scanner.antt =====
-- go/pkg/scanner/scanner.go: the tokens of a policy text. `none` as current character is the -1 of the
-- source, at the end of the text. Loops run on fuel; one more than the bytes left, or two for the loop
-- over blanks and comments, is enough, since each round reads a character.
pub mod Slices
pub mod Reference
pub mod Ascii
pub mod Tokens
use netspoc.Prelude.{
  ℕ, zero, suc, ◌+◌, ◌-◌, Bool, true, false, not, ◌&&◌, ◌||◌, Option, none, some, List, [], ◌∷◌,
  ◌++◌, if◌then◌else◌, leb, ltb, ◌==◌, length, take, drop,
}
use netspoc.Prelude.Bytes.{Bytes}

-- Go's unicode/utf8 and unicode. `decode` gives the rune at the start of a text and its width.
pub record Unicode : Type 0 where
  pub decode : Bytes → ℕ × ℕ
  pub letter : ℕ → Bool
  pub digit : ℕ → Bool

pub record Scanner : Type 0 where
  pub src : Bytes
  pub ch : Option ℕ
  pub offset : ℕ
  pub rd_offset : ℕ

pub data SyntaxError : Type 0 where
  nul utf8 : SyntaxError

-- The outcome of a call: it returns, it ends the program with an error at an offset, or the fuel is
-- used up.
pub data Scan {ℓ} (A : Type ℓ) : Type ℓ where
  ok : A → Scan A
  syntax_err : SyntaxError → ℕ → Scan A
  no_fuel : Scan A

infixl 5 ◌>>=◌
abbrev pub ◌>>=◌ {ℓ κ} : {A : Type ℓ} {B : Type κ} → Scan A → (A → Scan B) → Scan B
ok a >>= f = f a
syntax_err e n >>= f = syntax_err e n
no_fuel >>= f = no_fuel

decoded : Scanner → ℕ × ℕ → Scan Scanner
decoded s (r, w) =
    if r == 0xfffd && w == 1
    then syntax_err utf8 s.rd_offset
    else ok (record s { ch = some r; offset = s.rd_offset; rd_offset = s.rd_offset + w })

next_at : Unicode → Scanner → Bytes → Scan Scanner
unfolding decoded
next_at u s [] = ok (record s { ch = none; offset = length s.src })
next_at u s (b ∷ bs) =
    if b == 0
    then syntax_err nul s.rd_offset
    else if leb 128 b
    then decoded s (u.decode (b ∷ bs))
    else ok (record s { ch = some b; offset = s.rd_offset; rd_offset = s.rd_offset + 1 })

-- `next`
pub next : Unicode → Scanner → Scan Scanner
unfolding next_at
next u s = next_at u s (drop s.rd_offset s.src)

-- `Init`
unfoldable pub init : Unicode → Bytes → Scan Scanner
unfolding next
init u src = next u record { src = src; ch = some b' '; offset = 0; rd_offset = 0 }

-- A character passes the test; the end of the text does not.
abbrev pub at_ch : (ℕ → Bool) → Option ℕ → Bool
at_ch check none = false
at_ch check (some c) = check c

-- `for check(s.ch) { s.next() }`
pub skip_while : Unicode → ℕ → (ℕ → Bool) → Scanner → Scan Scanner
unfolding next
skip_while u zero check s = no_fuel
skip_while u (suc fuel) check s = elim (at_ch check s.ch) [
  | true ↦ next u s >>= skip_while u fuel check
  | false ↦ ok s
]

abbrev pub is_eol : ℕ → Bool
is_eol c = c == 10

abbrev pub is_blank : ℕ → Bool
is_blank c = c == b' ' || c == 9 || c == 10 || c == 13

-- `skipWhitespace`
pub skip_whitespace : Unicode → ℕ → Scanner → Scan Scanner
unfolding skip_while
skip_whitespace u zero s = no_fuel
skip_whitespace u (suc fuel) s = elim (at_ch is_blank s.ch) [
  | true ↦ next u s >>= skip_whitespace u fuel
  | false ↦ elim (at_ch (λ c. c == b'#') s.ch) [
    | true ↦ skip_while u fuel (λ c. not (is_eol c)) s >>= skip_whitespace u fuel
    | false ↦ ok s
  ]
]

-- `s.src[from:to]`
abbrev pub slice : Bytes → ℕ → ℕ → Bytes
slice src from to = take (to - from) (drop from src)

-- Position, whether it is a separator, and the text.
pub record Token : Type 0 where
  pub pos : ℕ
  pub is_sep : Bool
  pub text : Bytes

token_from : ℕ → Bool → Scanner → Scan (Token × Scanner)
token_from pos is_sep s =
    ok (record { pos = pos; is_sep = is_sep; text = slice s.src pos s.offset }, s)

-- `scan`, after blanks
pub scan_token : Unicode → ℕ → (ℕ → Bool) → Scanner → Scan (Token × Scanner)
unfolding token_from skip_while
scan_token u fuel check s = next u s >>= λ s'.
    if at_ch check s.ch
    then skip_while u fuel check s' >>= token_from s.offset false
    else token_from s.offset true s'

-- `scan`
pub scan : Unicode → ℕ → (ℕ → Bool) → Scanner → Scan (Token × Scanner)
unfolding scan_token skip_whitespace
scan u fuel check s = skip_whitespace u fuel s >>= scan_token u fuel check

is_letter : Unicode → ℕ → Bool
is_letter u c =
    leb b'a' c && leb c b'z' || leb b'A' c && leb c b'Z' || c == b'_' || leb 128 c && u.letter c

is_digit : Unicode → ℕ → Bool
is_digit u c = leb b'0' c && leb c b'9' || leb 128 c && u.digit c

unfoldable pub is_token_char : Unicode → ℕ → Bool
unfolding is_letter is_digit
is_token_char u c =
    is_letter u c || is_digit u c || c == b'-' || c == b'.' || c == b':' || c == b'/' || c == b'@'

is_proto_token_char : Unicode → ℕ → Bool
unfolding is_letter is_digit
is_proto_token_char u c = is_letter u c || is_digit u c || c == b'.' || c == b'@'

is_ip_range_token_char : Unicode → ℕ → Bool
unfolding is_letter is_digit
is_ip_range_token_char u c =
    is_letter u c || is_digit u c || c == b'.' || c == b':' || c == b'/' || c == b'@'

-- The `[` behind a token that is no separator.
pub with_bracket : Unicode → Token × Scanner → Scan (Token × Scanner)
unfolding next
with_bracket u (t, s) =
    if not t.is_sep && at_ch (λ c. c == b'[') s.ch
    then next u s >>= (λ s'. ok (record t { text = t.text ++ b'[' ∷ [] }, s'))
    else ok (t, s)

-- `Token`, `ProtoToken`, `IPRangeToken`, `TokenToSemicolon` and `TokenToComma`
unfoldable pub token : Unicode → ℕ → Scanner → Scan (Token × Scanner)
unfolding scan with_bracket is_token_char
token u fuel s = scan u fuel (is_token_char u) s >>= with_bracket u

unfoldable pub proto_token : Unicode → ℕ → Scanner → Scan (Token × Scanner)
unfolding scan is_proto_token_char
proto_token u fuel = scan u fuel (is_proto_token_char u)

unfoldable pub ip_range_token : Unicode → ℕ → Scanner → Scan (Token × Scanner)
unfolding scan is_ip_range_token_char
ip_range_token u fuel = scan u fuel (is_ip_range_token_char u)

ends_value : ℕ → Bool
ends_value c = c == b';' || is_eol c || c == b'#'

ends_element : ℕ → Bool
ends_element c = c == b',' || c == b';' || is_blank c || c == b'#' || c == b'"' || c == 39

unfoldable pub token_to_semicolon : Unicode → ℕ → Scanner → Scan (Token × Scanner)
unfolding scan ends_value
token_to_semicolon u fuel = scan u fuel (λ c. not (ends_value c))

unfoldable pub token_to_comma : Unicode → ℕ → Scanner → Scan (Token × Scanner)
unfolding scan ends_element
token_to_comma u fuel = scan u fuel (λ c. not (ends_element c))

-- `ToEOL` and `ToEOLorComment`, with the text that they return
text_to : ℕ → Scanner → Scan (ℕ × Bytes × Scanner)
text_to pos s = ok (pos, slice s.src pos s.offset, s)

unfoldable pub to_eol : Unicode → ℕ → Scanner → Scan (ℕ × Bytes × Scanner)
unfolding skip_while text_to
to_eol u fuel s = skip_while u fuel (λ c. not (is_eol c)) s >>= text_to s.offset

unfoldable pub to_eol_or_comment : Unicode → ℕ → Scanner → Scan (ℕ × Bytes × Scanner)
unfolding skip_while text_to
to_eol_or_comment u fuel s =
    skip_while u fuel (λ c. not (is_eol c) && not (c == b'#')) s >>= text_to s.offset
