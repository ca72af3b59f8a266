-- ===== src/Base/Text.antt =====
-- Go's strings of ASCII characters: packages strings and strconv, and the canonical form of a header's
-- name (net/textproto).
use Prim.Native.Nat.{ℕ, zero, suc, ◌+◌, ◌-◌, ◌/◌, ◌%◌}
use Prim.Native.Char.{Char, char, code, IsScalar}
use Prim.Native.String.{String, [], ◌∷◌, ◌++◌}
use mathlib.Core.Bool.{Bool, true, ◌&&◌, ◌||◌}
use native.Mathlib.Omega.{arith}
use ratelimiter_redis.Base.Tests.{ltb, leb, ◌==◌, if◌then◌else◌}
use ratelimiter_redis.Base.Int.{ℤ, pos, negsuc}

pub ascii-IsScalar : (n : ℕ) → IsScalar (n % 128)
ascii-IsScalar n = ground arith

-- The byte of a number below 128.
unfoldable pub ascii : ℕ → Char
unfolding ascii-IsScalar
ascii n = char (n % 128) (ascii-IsScalar n)

unfoldable pub upper_char : Char → Char
unfolding ascii
upper_char c = let n = code c in if leb 97 n && leb n 122 then ascii (n - 32) else c

unfoldable pub lower_char : Char → Char
unfolding ascii
lower_char c = let n = code c in if leb 65 n && leb n 90 then ascii (n + 32) else c

-- strings.ToUpper
unfoldable pub to_upper : String → String
unfolding upper_char
to_upper [] = []
to_upper (c ∷ s) = upper_char c ∷ to_upper s

-- The digits of a number, most significant first; the first argument bounds their number.
unfoldable pub decimal_digits : ℕ → ℕ → String
unfolding ascii
decimal_digits zero n = []
decimal_digits (suc f) n =
    let rest = decimal_digits f (n / 10) ++ ascii (48 + n % 10) ∷ [] in
    if ltb n 10 then ascii (48 + n) ∷ [] else rest

-- strconv.Itoa, strconv.FormatInt(n, 10) and the verb %d
unfoldable pub itoa : ℤ → String
unfolding decimal_digits
itoa (pos n) = decimal_digits (suc n) n
itoa (negsuc n) = "-" ++ decimal_digits (suc (suc n)) (suc n)

-- A hexadecimal digit.
abbrev hex_digit : ℕ → Char
unfolding ascii
hex_digit n = if ltb n 10 then ascii (48 + n) else ascii (87 + n)

-- The escape of a byte that is not printed; \a, \b, \t, \n, \v, \f and \r have letters.
abbrev escape_byte : ℕ → String
unfolding hex_digit
escape_byte n =
    if n == 7
    then "\\a"
    else if n == 8
    then "\\b"
    else if n == 9
    then "\\t"
    else if n == 10
    then "\\n"
    else if n == 11
    then "\\v"
    else if n == 12
    then "\\f"
    else if n == 13
    then "\\r"
    else "\\x" ++ hex_digit (n / 16) ∷ hex_digit (n % 16) ∷ []

escape_char : Char → String
unfolding escape_byte
escape_char c =
    let n = code c in
    if n == 34
    then "\\\""
    else if n == 92
    then "\\\\"
    else if leb 32 n && leb n 126
    then c ∷ []
    else escape_byte n

escape_all : String → String
unfolding escape_char
escape_all [] = []
escape_all (c ∷ s) = escape_char c ++ escape_all s

-- strconv.Quote and the verb %q
unfoldable pub quote : String → String
unfolding escape_all
quote s = "\"" ++ escape_all s ++ "\""

-- The bytes of a token (RFC 7230): letters, digits and !#$%&'*+-.^_`|~
abbrev is_token_byte : ℕ → Bool
is_token_byte n =
    (leb 65 n && leb n 90)
    || (leb 94 n && leb n 122)
    || (leb 48 n && leb n 57)
    || (n == 33)
    || (leb 35 n && leb n 39)
    || (n == 42)
    || (n == 43)
    || (n == 45)
    || (n == 46)
    || (n == 124)
    || (n == 126)

abbrev is_token : String → Bool
is_token [] = true
is_token (c ∷ s) = is_token_byte (code c) && is_token s

-- The first letter, and each letter that follows a hyphen, is upper case.
canonical_from : Bool → String → String
unfolding upper_char lower_char
canonical_from start [] = []
canonical_from start (c ∷ s) =
    (if start then upper_char c else lower_char c) ∷ canonical_from (code c == 45) s

-- textproto.CanonicalMIMEHeaderKey
unfoldable pub canonical : String → String
unfolding canonical_from
canonical name = if is_token name then canonical_from true name else name
