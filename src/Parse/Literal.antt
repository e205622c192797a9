-- ===== src/Parse/Literal.antt =====
-- The text functions of minion/planner/parse/parse_query.cc: unescapeSqlString, normalizeOp, and what
-- the code uses of std::stoll and std::string::substr. A text is the list of its bytes;
-- std::isxdigit and std::toupper are those of the C locale. A plain char
-- is signed, so that std::isxdigit is given a negative number for a byte from 128 on.
pub mod RoundTrip
use dist_storage.Prelude.{
  ℕ, zero, suc, ◌+◌, ◌-◌, ◌*◌, ◌%◌, ◌^◌, Bool, true, false, not, ◌&&◌, ◌||◌, List, [], ◌∷◌, ◌++◌,
  length, take, map, Bytes, Result, ok, throws, undefined, ◌>>=◌, out_of_range, invalid_argument,
  if◌then◌else◌, ltb, leb, ◌==◌,
}

abbrev pub is_octal : ℕ → Bool
is_octal c = leb b'0' c && leb c b'7'

abbrev pub is_digit : ℕ → Bool
is_digit c = leb b'0' c && leb c b'9'

abbrev pub is_lower_hex : ℕ → Bool
is_lower_hex c = leb b'a' c && leb c b'f'

-- A byte that is a negative char, but not the EOF that std::isxdigit takes.
abbrev pub is_wide : ℕ → Bool
is_wide c = leb 128 c && ltb c 255

-- std::isxdigit on a char
unfoldable pub is_xdigit : ℕ → Result Bool
is_xdigit c =
    if is_wide c then undefined else ok (is_digit c || is_lower_hex c || (leb b'A' c && leb c b'F'))

abbrev xdigit_value : ℕ → ℕ
xdigit_value c =
    if is_digit c then c - b'0' else if is_lower_hex c then c - b'a' + 10 else c - b'A' + 10

-- What one round of the loop appends, and how many bytes it skips.
abbrev pub Escape : Type 0
Escape = Bytes × ℕ

-- The last `switch`: a C-style escape. Octal digits, `0` among them, do not come here.
unfoldable pub standard_escape : ℕ → Escape
standard_escape next =
    if next == b'n'
    then (10 ∷ [], 1)
    else if next == b't'
    then (9 ∷ [], 1)
    else if next == b'r'
    then (13 ∷ [], 1)
    else if next == 92
    then (92 ∷ [], 1)
    else if next == 39
    then (39 ∷ [], 1)
    else if next == 34
    then (34 ∷ [], 1)
    else if next == b'0'
    then (0 ∷ [], 1)
    else (92 ∷ next ∷ [], 1)

abbrev pub is_hex_mark : ℕ → Bool
is_hex_mark c = (c == b'x') || (c == b'X')

-- The hexadecimal escape, on what follows the `x`.
unfoldable pub hex_escape : ℕ → Bytes → Result Escape
hex_escape next (h ∷ l ∷ rest) = do
  high ← is_xdigit h
  both ← (if high then is_xdigit l else ok false)
  ok (if both then ((xdigit_value h * 16 + xdigit_value l) ∷ [], 3) else standard_escape next)
hex_escape next _ = ok (standard_escape next)

-- The loop over octal digits: at most `most` more.
unfoldable pub octal_digits : ℕ → Bytes → ℕ → ℕ → ℕ × ℕ
octal_digits zero text value count = (value, count)
octal_digits (suc most) [] value count = (value, count)
octal_digits (suc most) (c ∷ text) value count =
    let rest = octal_digits most text (value * 8 + (c - b'0')) (count + 1) in
    if is_octal c then rest else (value, count)

unfoldable pub octal_escape : Bytes → Escape
octal_escape text = let (value, count) = octal_digits 3 text 0 0 in ((value % 2 ^ 8) ∷ [], count)

-- What follows a backslash.
unfoldable pub backslash_escape : Bytes → Result Escape
backslash_escape [] = ok (92 ∷ [], 0)
backslash_escape (next ∷ rest) =
    if is_hex_mark next
    then hex_escape next rest
    else if is_octal next
    then ok (octal_escape (next ∷ rest))
    else ok (standard_escape next)

-- What follows a quote.
unfoldable pub quote_escape : Bytes → Escape
quote_escape [] = (39 ∷ [], 0)
quote_escape (next ∷ rest) = (39 ∷ [], if next == 39 then 1 else 0)

unfoldable pub escape_at : ℕ → Bytes → Result Escape
escape_at c rest =
    if c == 39
    then ok (quote_escape rest)
    else if c == 92
    then backslash_escape rest
    else ok (c ∷ [], 0)

-- The loop of unescapeSqlString, with the bytes still to skip.
unfoldable pub unescape_from : ℕ → Bytes → Result Bytes
unescape_from skip [] = ok []
unescape_from (suc skip) (c ∷ text) = unescape_from skip text
unescape_from zero (c ∷ text) = do
  (out, skip) ← escape_at c text
  rest ← unescape_from skip text
  ok (out ++ rest)

-- unescapeSqlString
unfoldable pub unescape_sql_string : Bytes → Result Bytes
unescape_sql_string text = unescape_from 0 text

-- The erase and remove of normalizeOp.
unfoldable pub without_blanks : Bytes → Bytes
without_blanks [] = []
without_blanks (c ∷ text) = let rest = without_blanks text in if c == 32 then rest else c ∷ rest

-- std::toupper
abbrev to_upper : ℕ → ℕ
to_upper c = if leb b'a' c && leb c b'z' then c - 32 else c

-- normalizeOp
unfoldable pub normalize_op : Bytes → Bytes
normalize_op op = map to_upper (without_blanks op)

-- str.substr(1, str.size() - 2); the subtraction wraps at size 1.
unfoldable pub unquoted : Bytes → Result Bytes
unquoted [] = throws out_of_range
unquoted (c ∷ []) = ok []
unquoted (c ∷ d ∷ text) = ok (take (length text) (d ∷ text))

-- int64_t: `negsuc n` is -(n + 1).
pub data ℤ : Type 0 where
  pos : ℕ → ℤ
  negsuc : ℕ → ℤ

-- The digits at the front of a text, as a number.
unfoldable pub leading_digits : ℕ → Bytes → ℕ
leading_digits value [] = value
leading_digits value (c ∷ text) =
    let rest = leading_digits (value * 10 + (c - b'0')) text in if is_digit c then rest else value

-- The result of std::stoll for a magnitude without and with a sign.
abbrev pub to_positive : ℕ → Result ℤ
to_positive n = if ltb n (2 ^ 63) then ok (pos n) else throws out_of_range

abbrev pub to_negative : ℕ → Result ℤ
to_negative zero = ok (pos 0)
to_negative (suc n) = if ltb n (2 ^ 63) then ok (negsuc n) else throws out_of_range

abbrev pub starts_with_digit : Bytes → Bool
starts_with_digit [] = false
starts_with_digit (c ∷ text) = is_digit c

-- std::stoll on an optional minus and digits
unfoldable pub stoll : Bytes → Result ℤ
stoll [] = throws invalid_argument
stoll (c ∷ text) =
    if c == b'-'
    then (if starts_with_digit text
        then to_negative (leading_digits 0 text)
        else throws invalid_argument)
    else if is_digit c
    then to_positive (leading_digits 0 (c ∷ text))
    else throws invalid_argument
