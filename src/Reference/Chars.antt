-- ===== src/Reference/Chars.antt =====
-- Characters of reference/picohttpparser.c: IS_PRINTABLE_ASCII, token_char_map, the tests on
-- characters that stand in the loops, and the cursor that a `const char *buf` becomes.
use picohttpparser_rs.Base.{
  ℕ, ◌+◌, ◌-◌, ◌%◌, ◌^◌, List, [], ◌∷◌, ◌++◌, Bool, not, ◌&&◌, ◌||◌, Res, ok, err, partial,
  malformed, fault, ltb, ◌==◌, if◌then◌else◌, get_or,
}

abbrev pub Bytes : Type 0
Bytes = List ℕ

-- `buf` and `buf_end`: the offset from `buf_start`, and the bytes from there up to `buf_end`.
pub record Cursor : Type 0 where
  pub at : ℕ
  pub rest : Bytes

abbrev pub cursor : ℕ → Bytes → Cursor
cursor n s = record { at = n; rest = s }

-- A pointer into the buffer, as its offset, and a length.
pub record Slice : Type 0 where
  pub start : ℕ
  pub len : ℕ

abbrev pub slice : ℕ → ℕ → Slice
slice s n = record { start = s; len = n }

-- `(unsigned char)(c)-040u < 0137u`, with the wrap of a 32-bit unsigned subtraction.
unfoldable pub is_printable_ascii : ℕ → Bool
is_printable_ascii c = ltb ((c + 2 ^ 32 - 32) % 2 ^ 32) 95

-- `((unsigned char)*buf < '\040' && *buf != '\011') || *buf == '\177'`
unfoldable pub is_ctl : ℕ → Bool
is_ctl c = ltb c 32 && not (c == b'\t') || c == 127

abbrev pub is_blank : ℕ → Bool
is_blank c = c == b' ' || c == b'\t'

abbrev pub is_digit : ℕ → Bool
is_digit c = not (ltb c b'0' || ltb b'9' c)

abbrev control_row : Bytes
control_row =
    0 ∷ 0 ∷ 0 ∷ 0 ∷ 0 ∷ 0 ∷ 0 ∷ 0 ∷ 0 ∷ 0 ∷ 0 ∷ 0 ∷ 0 ∷ 0 ∷ 0 ∷ 0 ∷ 0 ∷ 0 ∷ 0 ∷ 0 ∷ 0 ∷ 0 ∷ 0 ∷ 0
    ∷ 0 ∷ 0 ∷ 0 ∷ 0 ∷ 0 ∷ 0 ∷ 0 ∷ 0 ∷ []

abbrev symbol_row : Bytes
symbol_row =
    0 ∷ 1 ∷ 0 ∷ 1 ∷ 1 ∷ 1 ∷ 1 ∷ 1 ∷ 0 ∷ 0 ∷ 1 ∷ 1 ∷ 0 ∷ 1 ∷ 1 ∷ 0 ∷ 1 ∷ 1 ∷ 1 ∷ 1 ∷ 1 ∷ 1 ∷ 1 ∷ 1
    ∷ 1 ∷ 1 ∷ 0 ∷ 0 ∷ 0 ∷ 0 ∷ 0 ∷ 0 ∷ []

abbrev upper_row : Bytes
upper_row =
    0 ∷ 1 ∷ 1 ∷ 1 ∷ 1 ∷ 1 ∷ 1 ∷ 1 ∷ 1 ∷ 1 ∷ 1 ∷ 1 ∷ 1 ∷ 1 ∷ 1 ∷ 1 ∷ 1 ∷ 1 ∷ 1 ∷ 1 ∷ 1 ∷ 1 ∷ 1 ∷ 1
    ∷ 1 ∷ 1 ∷ 1 ∷ 0 ∷ 0 ∷ 0 ∷ 1 ∷ 1 ∷ []

abbrev lower_row : Bytes
lower_row =
    1 ∷ 1 ∷ 1 ∷ 1 ∷ 1 ∷ 1 ∷ 1 ∷ 1 ∷ 1 ∷ 1 ∷ 1 ∷ 1 ∷ 1 ∷ 1 ∷ 1 ∷ 1 ∷ 1 ∷ 1 ∷ 1 ∷ 1 ∷ 1 ∷ 1 ∷ 1 ∷ 1
    ∷ 1 ∷ 1 ∷ 1 ∷ 0 ∷ 1 ∷ 0 ∷ 1 ∷ 0 ∷ []

-- The eight rows of the string literal: the last four, and the first, hold no token character.
pub token_char_map : Bytes
token_char_map =
    control_row
    ++ (symbol_row
        ++ (upper_row
            ++ (lower_row ++ (control_row ++ (control_row ++ (control_row ++ control_row))))))

unfoldable pub is_token_char : ℕ → Bool
unfolding token_char_map
is_token_char c = not (get_or token_char_map c 0 == 0)

-- CHECK_EOF(): stop with -2 at the end of the buffer, and go on otherwise.
abbrev pub check_eof {ℓ} : {A : Type ℓ} → Bytes → Res A → Res A
check_eof [] k = err partial
check_eof (c ∷ s) k = k

-- EXPECT_CHAR_NO_CHECK(ch): it reads `*buf` whether or not the buffer goes on.
unfoldable pub expect_char_no_check : ℕ → ℕ → Bytes → Res Cursor
expect_char_no_check ch n [] = err fault
expect_char_no_check ch n (c ∷ s) = if c == ch then ok (cursor (n + 1) s) else err malformed

-- EXPECT_CHAR(ch)
unfoldable pub expect_char : ℕ → ℕ → Bytes → Res Cursor
unfolding expect_char_no_check
expect_char ch n s = check_eof s (expect_char_no_check ch n s)
