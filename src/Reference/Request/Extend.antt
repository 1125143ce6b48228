-- ===== src/Reference/Request/Extend.antt =====
-- parse_request and phr_parse_request of reference/picohttpparser.c on a buffer and on
-- a longer one that begins with it.
use picohttpparser_rs.Base.{ℕ, ◌+◌, [], ◌∷◌, ◌++◌, ◌||◌, List, arith, ◌==◌, some, pos}
use picohttpparser_rs.Reference.Agrees.{
  Agrees, AgreesOn, Longer, AgreesOn-lift, AgreesOn-at, AgreesOn-with, AgreesOn-part,
  Agrees-of_Extends, Agrees-of_ExtendsWith, Agrees-test,
}
use picohttpparser_rs.Reference.Chars.{Bytes, Cursor, cursor}
use picohttpparser_rs.Reference.Headers.Extend.{gate-Agrees, parse_headers-AgreesOn}
use picohttpparser_rs.Reference.Headers.{advance}
use picohttpparser_rs.Reference.Output.{Header, RequestOut}
use picohttpparser_rs.Reference.Request.{
  space_loop, skip_spaces, skip_empty_line, line_end, parse_request, phr_parse_request,
}
use picohttpparser_rs.Reference.Scan.Extend.{
  Extends, expect_char-Extends, parse_token-Extends, advance_token-Extends,
  parse_http_version-Extends,
}

module _ (more : Bytes) where
  space_loop-Extends :
      (n : ℕ) (s : Bytes) → Extends more (space_loop n s) (space_loop n (s ++ more))
  unfolding space_loop
  space_loop-Extends n [] = tt
  space_loop-Extends n (c ∷ s) = ground (arith, space_loop-Extends (n + 1) s)

  pub skip_spaces-Agrees :
      (b : Cursor)
      → Agrees (Longer more) (skip_spaces b) (skip_spaces (cursor b.at (b.rest ++ more)))
  unfolding skip_spaces
  skip_spaces-Agrees b = Agrees-of_Extends more _ _ (after b.rest)
    where
      after :
          (s : Bytes)
          → Extends more
              (space_loop (b.at + 1) (advance (cursor b.at s)).rest)
              (space_loop (b.at + 1) (advance (cursor b.at (s ++ more))).rest)
      after [] = unfold space_loop in tt
      after (c ∷ s) = space_loop-Extends (b.at + 1) s

  skip_empty_line-Extends :
      (n : ℕ) (s : Bytes) → Extends more (skip_empty_line n s) (skip_empty_line n (s ++ more))
  unfolding skip_empty_line
  skip_empty_line-Extends n [] = tt
  skip_empty_line-Extends n (c ∷ s) = ground (arith, expect_char-Extends more b'\n' (n + 1) s)

  line_end-Extends : (n : ℕ) (s : Bytes) → Extends more (line_end n s) (line_end n (s ++ more))
  unfolding line_end
  line_end-Extends n [] = tt
  line_end-Extends n (c ∷ s) = ground (arith, expect_char-Extends more b'\n' (n + 1) s)

  parse_request-AgreesOn :
      (max_headers n : ℕ) (s : Bytes) (o : RequestOut)
      → AgreesOn
          (Longer more)
          (parse_request max_headers n s o)
          (parse_request max_headers n (s ++ more) o)
  unfolding parse_request
  parse_request-AgreesOn max_headers n s o =
      AgreesOn-at more _ _ (Agrees-of_Extends more _ _ (skip_empty_line-Extends n s)) λ b0.
        AgreesOn-with more _ _
          (Agrees-of_ExtendsWith more _ _ (parse_token-Extends more b' ' b0.at b0.rest))
          λ m. AgreesOn-at more _ _ (skip_spaces-Agrees m.1) λ b2.
            AgreesOn-with more _ _
              (Agrees-of_ExtendsWith more _ _ (advance_token-Extends more b2.at b2.rest))
              λ p. AgreesOn-at more _ _ (skip_spaces-Agrees p.1) λ b4.
                AgreesOn-lift _ _ (Agrees-test (m.0.len == 0 || p.0.len == 0)) λ u v e.
                  AgreesOn-with more _ _
                    (Agrees-of_ExtendsWith more _ _ (parse_http_version-Extends more b4.at b4.rest))
                    λ v.
                      AgreesOn-at more _ _
                        (Agrees-of_Extends more _ _ (line_end-Extends v.1.at v.1.rest))
                        λ b6.
                          AgreesOn-part
                            (λ tb. record {
                              method = some m.0;
                              path = some p.0;
                              minor_version = pos v.0;
                              table = tb;
                            })
                            (parse_headers-AgreesOn more max_headers b6.at b6.rest _)

-- A call of phr_parse_request that accepts or refuses a buffer does the same, with the same outputs,
-- on every longer buffer that begins with it: the same bytes are read, and `more` follows the cursor.
-- Nothing is said of a call that asks for more bytes.
pub phr_parse_request-AgreesOn :
    (more s : Bytes) (headers : List Header) (max_headers last_len : ℕ)
    → AgreesOn
        (Longer more)
        (phr_parse_request s headers max_headers last_len)
        (phr_parse_request (s ++ more) headers max_headers last_len)
unfolding phr_parse_request
phr_parse_request-AgreesOn more s headers max_headers last_len =
    AgreesOn-lift _ _ (gate-Agrees more s last_len)
      λ u v e. parse_request-AgreesOn more max_headers 0 s _
