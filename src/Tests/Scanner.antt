-- ===== src/Tests/Scanner.antt =====
-- Runs of the scanner on the text of a group with a comment.
use netspoc.Prelude.{◌≡◌, refl, false, not, some, ◌==◌, arith}
use netspoc.Prelude.Bytes.{Bytes, codes}
use netspoc.Scanner.{Unicode, Scanner, ok, scan, token, init, is_token_char}
use netspoc.Scanner.Reference.{first_token, bracketed, skip_blanks}
use netspoc.Scanner.Ascii.{Ascii, At}
use netspoc.Scanner.Tokens.{Found, scan-first_token, token-bracketed}

-- Only ASCII is read here.
abbrev ascii_only : Unicode
ascii_only = record { decode = λ s. (0xfffd, 1); letter = λ c. false; digit = λ c. false }

abbrev policy : Bytes
policy = codes " #x\na:b[c"

policy-Ascii : Ascii policy
policy-Ascii = (
  (refl, refl),
  (
    (refl, refl),
    (
      (refl, refl),
      (
        (refl, refl),
        ((refl, refl), ((refl, refl), ((refl, refl), ((refl, refl), ((refl, refl), tt))))),
      ),
    ),
  ),
)

abbrev start : Scanner
start = record { src = policy; ch = some b' '; offset = 0; rd_offset = 1 }

start-At : At policy start policy
start-At = record {
  same = refl;
  left = refl;
  pos = refl;
  ch = refl;
  unread = refl;
  unread_pos = refl;
}

init-start : init ascii_only policy ≡ ok start
unfolding init
init-start = refl

found_name :
    bracketed (first_token (is_token_char ascii_only) (skip_blanks false policy))
    ≡ (false, codes "a:b[", codes "c")
unfolding is_token_char
found_name = refl

scan-first_token_example :
    Found policy
      (scan ascii_only 20 (λ c. not (c == b':')) start)
      (codes "a:b[c")
      (first_token (λ c. not (c == b':')) (codes "a:b[c"))
scan-first_token_example =
    scan-first_token ascii_only policy 20 (λ c. not (c == b':')) start policy start-At policy-Ascii
      (omega arith)

token-bracketed_example :
    Found policy
      (token ascii_only 20 start)
      (codes "a:b[c")
      (bracketed (first_token (is_token_char ascii_only) (codes "a:b[c")))
token-bracketed_example =
    token-bracketed ascii_only policy 20 start policy start-At policy-Ascii (omega arith)
