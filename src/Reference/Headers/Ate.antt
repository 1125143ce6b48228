-- ===== src/Reference/Headers/Ate.antt =====
-- The bytes that parse_headers of reference/picohttpparser.c steps over, and the check of `last_len`
-- on a buffer with a whole block.
use picohttpparser_rs.Base.{
  ℕ, zero, suc, ◌+◌, ◌<◌, ◌≡◌, refl, ap, [], ◌∷◌, false, not, ◌&&◌, Res, ok, err, none, some,
  malformed, arith, length, drop, ◌==◌, Bool-cases, inl, inr, if◌then◌else◌,
}
use picohttpparser_rs.Reference.Ate.{
  Ate, stay, byte, AteLine, AteBlock, at_lf, When, Upon, Ate-trans, Ate-AteLine, AteLine-after,
  Upon-lift, Upon-then, Upon-of_When, When-any, Upon-any, Upon-mono, When-mono,
}
use picohttpparser_rs.Reference.Chars.{Bytes, Cursor, is_blank}
use picohttpparser_rs.Reference.Ensures.{Ensures, returns, stops_partial, stops_malformed, Within}
use picohttpparser_rs.Reference.Headers.Steps.{header_loop-cr, header_loop-lf, header_loop-line}
use picohttpparser_rs.Reference.Headers.{
  blank_loop, gate, header_name, header_continuation, header_value, header_line, header_loop,
  parse_headers,
}
use picohttpparser_rs.Reference.Output.{HeaderTable, store}
use picohttpparser_rs.Reference.Scan.Ate.{
  Starts, parse_token-StopsOn, get_token_to_eol-AteLine, expect_lf-LineEnd,
}
use picohttpparser_rs.Reference.Scan.Complete.{IsOk, is_complete-IsOk}
use picohttpparser_rs.Reference.Scan.{is_complete}

pub advance-Ate : (ch n : ℕ) (s : Bytes) → (ch == b'\r') ≡ false → Starts ch s → Ate s (drop 1 s)
advance-Ate ch n [] ncr h = absurd h
advance-Ate ch n (c ∷ s) ncr h = byte (ground arith) stay

blank_loop-Ate : (n : ℕ) (s : Bytes) → When (λ b. Ate s b.rest) (blank_loop n s)
unfolding blank_loop
blank_loop-Ate n [] = When.fails
blank_loop-Ate n (c ∷ s) = elim (Bool-cases (is_blank c)) [
  | inl blank ↦ rw blank (When-mono (blank_loop-Ate (n + 1) s) λ b h. byte (ground arith) h)
  | inr text ↦ rw text (When.passes stay)
]

header_name-Ate :
    (i n : ℕ) (s : Bytes) (t : HeaderTable) → Upon (λ b. Ate s b.rest) (header_name i n s t)
unfolding header_name
header_name-Ate i n s t = Upon-lift _ (parse_token-StopsOn b':' n s) λ x h.
    Upon-then _ (Upon-any (store i (λ k. record k { name = some x.0 }) t)) λ u t1 v.
      Upon-lift _ (When-any (if x.0.len == 0 then err malformed else ok tt)) λ u1 v1. Upon-of_When (
        When-mono (blank_loop-Ate (x.1.at + 1) (drop 1 x.1.rest))
          λ b k. Ate-trans h.0 (Ate-trans (advance-Ate b':' 0 x.1.rest refl h.1) k))

header_continuation-Ate :
    (i n : ℕ) (s : Bytes) (t : HeaderTable) → Upon (λ b. Ate s b.rest) (header_continuation i n s t)
unfolding header_continuation
header_continuation-Ate i n s t =
    Upon-then _ (Upon-any (store i (λ k. record k { name = none }) t)) λ u t1 v. Upon.passes stay

header_value-AteLine :
    (i n : ℕ) (s : Bytes) (t : HeaderTable) → Upon (λ b. AteLine s b.rest) (header_value i n s t)
unfolding header_value
header_value-AteLine i n s t =
    Upon-lift _ (get_token_to_eol-AteLine n s)
      λ x h. Upon-then _ (Upon-any (store i _ t)) λ u t1 v. Upon.passes h

header_line-AteLine :
    (max_headers n c : ℕ) (s : Bytes) (t : HeaderTable)
    → Upon (λ b. AteLine (c ∷ s) b.rest) (header_line max_headers n c s t)
unfolding header_line
header_line-AteLine max_headers n c s t =
    let i = t.num_headers in
    Upon-lift _ (When-any (if i == max_headers then err malformed else ok tt)) λ u v.
      elim (Bool-cases (not (not (i == 0) && is_blank c))) [
        | inl named ↦ rw named (
            Upon-then _ (header_name-Ate i n (c ∷ s) t)
              λ b t1 h. Upon-mono (header_value-AteLine i b.at b.rest t1) λ b2 k. AteLine-after h k)
        | inr folded ↦ rw folded (
            Upon-then _ (header_continuation-Ate i n (c ∷ s) t)
              λ b t1 h. Upon-mono (header_value-AteLine i b.at b.rest t1) λ b2 k. AteLine-after h k)
      ]

-- Behind a line of any kind.
header_loop-AteBlock :
    (start : Bytes) (fuel max_headers n : ℕ) (s : Bytes) (t : HeaderTable)
    → AteLine start s
    → Upon (λ b. AteBlock start b.rest) (header_loop fuel max_headers n s t)
header_loop-AteBlock start zero max_headers n s t l = unfold header_loop in Upon.fails
header_loop-AteBlock start (suc fuel) max_headers n [] t l = unfold header_loop in Upon.fails
header_loop-AteBlock start (suc fuel) max_headers n (c ∷ s) t l = elim (Bool-cases (c == b'\r')) [
  | inl cr ↦ rw (header_loop-cr fuel max_headers n c s t cr) (
      Upon-of_When (
        When-mono (expect_lf-LineEnd c (n + 1) s cr)
          λ b e. record { from = c ∷ s; before = l; end = e }))
  | inr ncr ↦ elim (Bool-cases (c == b'\n')) [
    | inl lf ↦
        rw (header_loop-lf fuel max_headers n c s t lf)
          (Upon.passes (record { from = c ∷ s; before = l; end = at_lf lf }))
    | inr nlf ↦ rw (header_loop-line fuel max_headers n c s t ncr nlf) (
        Upon-then _ (header_line-AteLine max_headers n c s t) λ b t1 h.
          header_loop-AteBlock start fuel max_headers b.at b.rest t1
            (AteLine-after (Ate-AteLine l) h))
  ]
]

pub parse_headers-AteBlock :
    (start : Bytes) (max_headers n : ℕ) (s : Bytes) (t : HeaderTable)
    → AteLine start s
    → Upon (λ b. AteBlock start b.rest) (parse_headers max_headers n s t)
unfolding parse_headers
parse_headers-AteBlock start max_headers n s t l =
    header_loop-AteBlock start (length s + 1) max_headers n s t l

-- The check lets a whole block through.
pub gate-open :
    {s u : Bytes} (last_len : ℕ)
    → AteBlock s u
    → last_len + length u < length s
    → gate s last_len ≡ ok tt
unfolding gate
gate-open {s} {u} last_len h lt = elim (Bool-cases (last_len == 0)) [
  | inl first ↦ rw first refl
  | inr again ↦ rw again (opened (is_complete s last_len) (is_complete-IsOk last_len h lt))
]
  where
    opened :
        (r : Res Cursor)
        → IsOk r
        → elim r as (λ k. Res (Unit {0})) [ ok _ ↦ ok tt | err e ↦ err e ] ≡ ok tt
    opened (ok b) k = refl
    opened (err e) k = absurd k

-- So too with the cursor of a call that accepted the buffer.
pub gate-open_at :
    {S : Type 0} {P : S → Type 0} {s : Bytes} {e : Res Cursor × S} (last_len : ℕ)
    → Ensures (Within (length s) 0) P e
    → Upon (λ b. AteBlock s b.rest) e
    → (b : Cursor) → e.0 ≡ ok b
    → last_len < b.at
    → gate s last_len ≡ ok tt
gate-open_at last_len (returns {a} w q) (Upon.passes block) b eq lt =
    let same : a ≡ b = cc in
    gate-open last_len block (omega (arith, w.in_buffer, ap (λ c. c.at) same))
gate-open_at last_len (stops_partial q) u b eq lt = cc
gate-open_at last_len (stops_malformed q) u b eq lt = cc
