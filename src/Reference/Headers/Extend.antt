-- ===== src/Reference/Headers/Extend.antt =====
-- parse_headers and phr_parse_headers of reference/picohttpparser.c on a buffer and on
-- a longer one that begins with it.
use mathlib.Core.Path.{subst}
use picohttpparser_rs.Base.{
  ℕ, zero, suc, ◌+◌, ◌≤◌, ◌<◌, ◌≡◌, refl, [], ◌∷◌, ◌++◌, List, none, some, arith, length, drop,
  get_or, Res, ok, err, partial, malformed, fault, stuck, Bool-cases, inl, inr, ◌==◌, not, ◌&&◌,
}
use picohttpparser_rs.Base.Lists.{length-append}
use picohttpparser_rs.Reference.Agrees.{
  Agrees, AgreesOn, Longer, AgreesOn-lift, AgreesOn-then, AgreesOn-same, AgreesOn-with,
  AgreesOn-after, AgreesOn-last, Agrees-of_Extends, Agrees-of_ExtendsWith, Agrees-test,
}
use picohttpparser_rs.Reference.Chars.{Bytes, Cursor, Slice, is_blank}
use picohttpparser_rs.Reference.Headers.Line.{name_part, header_line_full, header_line_part}
use picohttpparser_rs.Reference.Headers.Value.{with_value}
use picohttpparser_rs.Reference.Headers.Steps.{header_loop-cr, header_loop-lf, header_loop-line}
use picohttpparser_rs.Reference.Headers.{
  blank_loop, trim_loop, advance, header_name, header_continuation, header_value, header_line,
  header_loop, parse_headers, phr_parse_headers, gate,
}
use picohttpparser_rs.Reference.Output.{Header, HeaderTable, store}
use picohttpparser_rs.Reference.Scan.Bounds.{Scans, get_token_to_eol-Scans}
use picohttpparser_rs.Reference.Scan.Extend.{
  Extends, ExtendsWith, expect_char-Extends, parse_token-Extends, get_token_to_eol-Extends,
  is_complete-Extends,
}
use picohttpparser_rs.Reference.Scan.{get_token_to_eol}

module _ (more : Bytes) where
  blank_loop-Extends :
      (n : ℕ) (s : Bytes) → Extends more (blank_loop n s) (blank_loop n (s ++ more))
  unfolding blank_loop
  blank_loop-Extends n [] = tt
  blank_loop-Extends n (c ∷ s) = ground (arith, blank_loop-Extends (n + 1) s)

  -- Behind the byte at the cursor, if there is one.
  pub blank_loop-advance :
      (b : Cursor)
      → Extends more
          (blank_loop (advance b).at (advance b).rest)
          (blank_loop (b.at + 1) (drop 1 (b.rest ++ more)))
  blank_loop-advance b = after b.rest
    where
      after :
          (s : Bytes)
          → Extends more
              (blank_loop (b.at + 1) (drop 1 s))
              (blank_loop (b.at + 1) (drop 1 (s ++ more)))
      after [] = unfold blank_loop in tt
      after (c ∷ s) = blank_loop-Extends (b.at + 1) s

  get_or-append : (s : Bytes) (k : ℕ) → k < length s → get_or (s ++ more) k 0 ≡ get_or s k 0
  get_or-append [] k h = elim h [ ]
  get_or-append (c ∷ s) zero h = refl
  get_or-append (c ∷ s) (suc k) h = get_or-append s k (omega arith)

  trim_loop-append : (s : Bytes) (k : ℕ) → k ≤ length s → trim_loop (s ++ more) k ≡ trim_loop s k
  unfolding trim_loop
  trim_loop-append s zero h = refl
  trim_loop-append s (suc k) h = rw (get_or-append s k h, trim_loop-append s k (omega arith))

  header_name-AgreesOn :
      (i n : ℕ) (s : Bytes) (t : HeaderTable)
      → AgreesOn (Longer more) (header_name i n s t) (header_name i n (s ++ more) t)
  unfolding header_name
  header_name-AgreesOn i n s t =
      AgreesOn-with more _ _ (Agrees-of_ExtendsWith more _ _ (parse_token-Extends more b':' n s))
        λ x.
          AgreesOn-then _ _ (AgreesOn-same (store i (λ h. record h { name = some x.0 }) t))
            λ u u' t1 same.
              AgreesOn-lift _ _ (Agrees-test (x.0.len == 0))
                λ v v' e. AgreesOn-last (Agrees-of_Extends more _ _ (blank_loop-advance x.1))

  header_continuation-AgreesOn :
      (i n : ℕ) (s : Bytes) (t : HeaderTable)
      → AgreesOn (Longer more) (header_continuation i n s t) (header_continuation i n (s ++ more) t)
  unfolding header_continuation
  header_continuation-AgreesOn i n s t =
      AgreesOn-then _ _ (AgreesOn-same (store i (λ h. record h { name = none }) t))
        λ u u' t1 same. AgreesOn.both refl

  -- The blanks behind a value are taken off alike.
  value_end :
      (n : ℕ) (s : Bytes) (x : Slice × Cursor)
      → get_token_to_eol n s ≡ ok x
      → trim_loop (s ++ more) x.0.len ≡ trim_loop s x.0.len
  value_end n s x e =
      trim_loop-append s x.0.len (omega (arith, subst (Scans 1 n s) e (get_token_to_eol-Scans n s)))

  header_value-AgreesOn :
      (i n : ℕ) (s : Bytes) (t : HeaderTable)
      → AgreesOn (Longer more) (header_value i n s t) (header_value i n (s ++ more) t)
  unfolding header_value
  header_value-AgreesOn i n s t =
      after (get_token_to_eol n s) refl (get_token_to_eol-Extends more n s)
    where
      after :
          (r : Res (Slice × Cursor))
          → get_token_to_eol n s ≡ r
          → ExtendsWith more r (get_token_to_eol n (s ++ more))
          → AgreesOn (Longer more) (header_value i n s t) (header_value i n (s ++ more) t)
      after (ok (v, b)) e h =
          rw (e, h, value_end n s (v, b) e)
            (AgreesOn-then _ _ (AgreesOn-same (store i (with_value s v) t))
              λ u u' t1 same. AgreesOn.both refl)
      after (err malformed) e h = rw (e, h) AgreesOn.refuse
      after (err partial) e h = rw e AgreesOn.wants_more
      after (err fault) e h = rw e AgreesOn.faults
      after (err stuck) e h = rw e AgreesOn.is_stuck

  name_part-AgreesOn :
      (i n c : ℕ) (s : Bytes) (t : HeaderTable)
      → AgreesOn (Longer more) (name_part i n c s t) (name_part i n c (s ++ more) t)
  name_part-AgreesOn i n c s t = elim (Bool-cases (not (not (i == 0) && is_blank c))) [
    | inl named ↦ rw named (header_name-AgreesOn i n (c ∷ s) t)
    | inr folded ↦ rw folded (header_continuation-AgreesOn i n (c ∷ s) t)
  ]

  header_line-AgreesOn :
      (max_headers n c : ℕ) (s : Bytes) (t : HeaderTable)
      → AgreesOn
          (Longer more)
          (header_line max_headers n c s t)
          (header_line max_headers n c (s ++ more) t)
  header_line-AgreesOn max_headers n c s t = elim (Bool-cases (t.num_headers == max_headers)) [
    | inl full ↦
        rw
          (
            header_line_full 0 max_headers n c s t (ground arith),
            header_line_full 0 max_headers n c (s ++ more) t (ground arith),
          )
          AgreesOn.refuse
    | inr room ↦
        rw
          (
            header_line_part 0 max_headers n c s t (ground arith),
            header_line_part 0 max_headers n c (s ++ more) t (ground arith),
          )
          (AgreesOn-after more _ _ (name_part-AgreesOn t.num_headers n c s t)
            λ b t1. header_value-AgreesOn t.num_headers b.at b.rest t1)
  ]

  -- Where the fuel ends first on the shorter buffer, nothing is said.
  header_loop-AgreesOn :
      (fuel fuel' max_headers n : ℕ) (s : Bytes) (t : HeaderTable)
      → fuel ≤ fuel'
      → AgreesOn
          (Longer more)
          (header_loop fuel max_headers n s t)
          (header_loop fuel' max_headers n (s ++ more) t)
  header_loop-AgreesOn zero fuel' max_headers n s t le = unfold header_loop in AgreesOn.is_stuck
  header_loop-AgreesOn (suc fuel) zero max_headers n s t le = absurd (omega arith)
  header_loop-AgreesOn (suc fuel) (suc fuel') max_headers n [] t le =
      unfold header_loop in AgreesOn.wants_more
  header_loop-AgreesOn (suc fuel) (suc fuel') max_headers n (c ∷ s) t le =
      elim (Bool-cases (c == b'\r')) [
        | inl cr ↦
            rw
              (
                header_loop-cr fuel max_headers n c s t cr,
                header_loop-cr fuel' max_headers n c (s ++ more) t cr,
              )
              (AgreesOn-last
                (Agrees-of_Extends more _ _ (expect_char-Extends more b'\n' (n + 1) s)))
        | inr ncr ↦ elim (Bool-cases (c == b'\n')) [
          | inl lf ↦
              rw
                (
                  header_loop-lf fuel max_headers n c s t lf,
                  header_loop-lf fuel' max_headers n c (s ++ more) t lf,
                )
                (AgreesOn.both refl)
          | inr nlf ↦
              rw
                (
                  header_loop-line fuel max_headers n c s t ncr nlf,
                  header_loop-line fuel' max_headers n c (s ++ more) t ncr nlf,
                )
                (AgreesOn-after more _ _ (header_line-AgreesOn max_headers n c s t)
                  λ b t1. header_loop-AgreesOn fuel fuel' max_headers b.at b.rest t1 (omega arith))
        ]
      ]

  pub parse_headers-AgreesOn :
      (max_headers n : ℕ) (s : Bytes) (t : HeaderTable)
      → AgreesOn
          (Longer more)
          (parse_headers max_headers n s t)
          (parse_headers max_headers n (s ++ more) t)
  unfolding parse_headers
  parse_headers-AgreesOn max_headers n s t =
      header_loop-AgreesOn (length s + 1) (length (s ++ more) + 1) max_headers n s t
        (omega (arith, length-append s more))

  pub gate-Agrees :
      (s : Bytes) (last_len : ℕ)
      → Agrees (λ u v. Unit {0}) (gate s last_len) (gate (s ++ more) last_len)
  unfolding gate
  gate-Agrees s last_len = elim (Bool-cases (last_len == 0)) [
    | inl first ↦ rw first (Agrees.both tt)
    | inr again ↦ rw again (scanned _ _ (is_complete-Extends more s last_len))
  ]
    where
      scanned :
          (r r' : Res Cursor)
          → Extends more r r'
          → Agrees {A = Unit {0}}
              (λ u v. Unit {0})
              (elim r [ ok _ ↦ ok tt | err e ↦ err e ])
              (elim r' [ ok _ ↦ ok tt | err e ↦ err e ])
      scanned (ok b) r' h = rw h (Agrees.both tt)
      scanned (err malformed) r' h = rw h Agrees.refuse
      scanned (err partial) r' h = Agrees.wants_more
      scanned (err fault) r' h = Agrees.faults
      scanned (err stuck) r' h = Agrees.is_stuck

-- A call of phr_parse_headers that accepts or refuses a buffer does the same, with the same outputs,
-- on every longer buffer that begins with it: the same bytes are read, and `more` follows the cursor.
-- Nothing is said of a call that asks for more bytes.
pub phr_parse_headers-AgreesOn :
    (more s : Bytes) (headers : List Header) (max_headers last_len : ℕ)
    → AgreesOn
        (Longer more)
        (phr_parse_headers s headers max_headers last_len)
        (phr_parse_headers (s ++ more) headers max_headers last_len)
unfolding phr_parse_headers
phr_parse_headers-AgreesOn more s headers max_headers last_len =
    AgreesOn-lift _ _ (gate-Agrees more s last_len)
      λ u v e. parse_headers-AgreesOn more max_headers 0 s _
