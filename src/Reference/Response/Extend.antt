-- ===== src/Reference/Response/Extend.antt =====
-- parse_response and phr_parse_response of reference/picohttpparser.c on a buffer and on
-- a longer one that begins with it.
use picohttpparser_rs.Base.{
  ℕ, ◌+◌, ◌-◌, ◌%◌, ◌^◌, ◌≡◌, refl, [], ◌∷◌, ◌++◌, List, arith, ◌==◌, some, false, Bool-cases, inl,
  inr, length, ltb,
}
use picohttpparser_rs.Base.Lists.{length-append}
use picohttpparser_rs.Reference.Agrees.{
  Agrees, AgreesOn, Longer, AgreesOn-lift, AgreesOn-at, AgreesOn-with, AgreesOn-after,
  AgreesOn-part, Agrees-of_Extends, Agrees-of_ExtendsWith,
}
use picohttpparser_rs.Reference.Chars.{Bytes, Cursor, cursor, Slice}
use picohttpparser_rs.Reference.Headers.Extend.{gate-Agrees, parse_headers-AgreesOn}
use picohttpparser_rs.Reference.Output.{Header, ResponseOut}
use picohttpparser_rs.Reference.Request.Extend.{skip_spaces-Agrees}
use picohttpparser_rs.Reference.Response.{
  version_space, parse_int_3, parse_status, strip_loop, strip_message, parse_response,
  phr_parse_response,
}
use picohttpparser_rs.Reference.Scan.{parse_int}
use picohttpparser_rs.Reference.Scan.Extend.{
  Extends, ExtendsWith, get_token_to_eol-Extends, parse_http_version-Extends,
}

module _ (more : Bytes) where
  version_space-Extends :
      (b : Cursor) → Extends more (version_space b) (version_space (cursor b.at (b.rest ++ more)))
  unfolding version_space
  version_space-Extends b = after b.rest
    where
      after :
          (s : Bytes)
          → Extends more (version_space (cursor b.at s)) (version_space (cursor b.at (s ++ more)))
      after [] = tt
      after (c ∷ s) = ground arith

  parse_int-Extends :
      (mul n : ℕ) (s : Bytes) → ExtendsWith more (parse_int mul n s) (parse_int mul n (s ++ more))
  unfolding parse_int
  parse_int-Extends mul n [] = tt
  parse_int-Extends mul n (c ∷ s) = ground arith

  parse_int_3-AgreesOn :
      (n : ℕ) (s : Bytes) (o : ResponseOut)
      → AgreesOn (Longer more) (parse_int_3 n s o) (parse_int_3 n (s ++ more) o)
  unfolding parse_int_3
  parse_int_3-AgreesOn n s o =
      AgreesOn-with more _ _ (Agrees-of_ExtendsWith more _ _ (parse_int-Extends 100 n s)) λ x.
        AgreesOn-with more _ _
          (Agrees-of_ExtendsWith more _ _ (parse_int-Extends 10 x.1.at x.1.rest))
          λ y.
            AgreesOn-with more _ _
              (Agrees-of_ExtendsWith more _ _ (parse_int-Extends 1 y.1.at y.1.rest))
              λ z. AgreesOn.both refl

  parse_status-AgreesOn :
      (n : ℕ) (s : Bytes) (o : ResponseOut)
      → AgreesOn (Longer more) (parse_status n s o) (parse_status n (s ++ more) o)
  unfolding parse_status
  parse_status-AgreesOn n s o = elim (Bool-cases (ltb (length s) 4)) [
    | inl short ↦ rw short AgreesOn.wants_more
    | inr long ↦ rw (long, longer long) (parse_int_3-AgreesOn n s o)
  ]
    where
      longer : ltb (length s) 4 ≡ false → ltb (length (s ++ more)) 4 ≡ false
      longer h = ground (arith, length-append s more)

  strip_loop-Agrees :
      (start len : ℕ) (s : Bytes)
      → Agrees (λ x y. y ≡ x) (strip_loop start len s) (strip_loop start len (s ++ more))
  unfolding strip_loop
  strip_loop-Agrees start len [] = Agrees.faults
  strip_loop-Agrees start len (c ∷ s) = elim (Bool-cases (c == b' ')) [
    | inl space ↦ rw space (strip_loop-Agrees (start + 1) ((len + 2 ^ 64 - 1) % 2 ^ 64) s)
    | inr ends ↦ rw ends (Agrees.both refl)
  ]

  strip_message-Agrees :
      (s : Bytes) (msg : Slice)
      → Agrees (λ x y. y ≡ x) (strip_message s msg) (strip_message (s ++ more) msg)
  unfolding strip_message
  strip_message-Agrees [] msg = elim (Bool-cases (msg.len == 0)) [
    | inl empty ↦ rw empty (Agrees.both refl)
    | inr text ↦ rw text Agrees.faults
  ]
  strip_message-Agrees (c ∷ s) msg = elim (Bool-cases (msg.len == 0)) [
    | inl empty ↦ rw empty (Agrees.both refl)
    | inr text ↦ elim (Bool-cases (c == b' ')) [
      | inl space ↦
          rw (text, space) (strip_loop-Agrees (msg.start + 1) ((msg.len + 2 ^ 64 - 1) % 2 ^ 64) s)
      | inr other ↦ rw (text, other) Agrees.refuse
    ]
  ]

  parse_response-AgreesOn :
      (max_headers n : ℕ) (s : Bytes) (o : ResponseOut)
      → AgreesOn
          (Longer more)
          (parse_response max_headers n s o)
          (parse_response max_headers n (s ++ more) o)
  unfolding parse_response
  parse_response-AgreesOn max_headers n s o =
      AgreesOn-with more _ _ (Agrees-of_ExtendsWith more _ _ (parse_http_version-Extends more n s))
        λ v. AgreesOn-at more _ _ (Agrees-of_Extends more _ _ (version_space-Extends v.1)) λ b2.
          AgreesOn-at more _ _ (skip_spaces-Agrees more b2) λ b3.
            AgreesOn-after more _ _ (parse_status-AgreesOn b3.at b3.rest _) λ b4 t.
              AgreesOn-with more _ _
                (Agrees-of_ExtendsWith more _ _ (get_token_to_eol-Extends more b4.at b4.rest))
                λ m. AgreesOn-lift _ _ (strip_message-Agrees b4.rest m.0) λ x x' same. rw same (
                  AgreesOn-part
                    (λ tb. record {
                      minor_version = t.minor_version;
                      status = t.status;
                      msg = some x;
                      table = tb;
                    })
                    (parse_headers-AgreesOn more max_headers m.1.at m.1.rest _))

-- A call of phr_parse_response that accepts or refuses a buffer does the same, with the same outputs,
-- on every longer buffer that begins with it: the same bytes are read, and `more` follows the cursor.
-- Nothing is said of a call that asks for more bytes.
pub phr_parse_response-AgreesOn :
    (more s : Bytes) (headers : List Header) (max_headers last_len : ℕ)
    → AgreesOn
        (Longer more)
        (phr_parse_response s headers max_headers last_len)
        (phr_parse_response (s ++ more) headers max_headers last_len)
unfolding phr_parse_response
phr_parse_response-AgreesOn more s headers max_headers last_len =
    AgreesOn-lift _ _ (gate-Agrees more s last_len)
      λ u v e. parse_response-AgreesOn more max_headers 0 s _
