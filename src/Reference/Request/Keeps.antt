-- ===== src/Reference/Request/Keeps.antt =====
-- phr_parse_request leaves the number of the slots as it is.
use picohttpparser_rs.Base.{
  ℕ, ◌+◌, ◌≡◌, refl, List, ◌||◌, some, malformed, ok, err, ◌==◌, if◌then◌else◌, length, Res, pos,
}
use picohttpparser_rs.Reference.Chars.{Bytes, Cursor}
use picohttpparser_rs.Reference.Headers.Keeps.{
  Kept, kept, Kept-lift, Kept-same, slots_of, header_loop-Kept,
}
use picohttpparser_rs.Reference.Headers.{header_loop, parse_headers, gate}
use picohttpparser_rs.Reference.Output.{Header, HeaderTable, RequestOut}
use picohttpparser_rs.Reference.Request.{
  skip_empty_line, skip_spaces, line_end, parse_request, phr_parse_request, cleared_request,
}
use picohttpparser_rs.Reference.Scan.{parse_token, advance_token, parse_http_version}

abbrev pub request_slots : RequestOut → ℕ
request_slots o = length o.table.slots

on_table-Kept :
    {k : ℕ} (o : RequestOut) (e : Res Cursor × HeaderTable)
    → Kept slots_of k e
    → Kept request_slots k (e.0, record o { table = e.1 })
on_table-Kept o e (kept h) = kept h

parse_request-Kept :
    {k : ℕ} (max n : ℕ) (s : Bytes) (o : RequestOut)
    → request_slots o ≡ k
    → Kept request_slots k (parse_request max n s o)
unfolding parse_request parse_headers
parse_request-Kept max n s o e = Kept-lift (skip_empty_line n s) o _ e λ b0.
    Kept-lift (parse_token b' ' b0.at b0.rest) o _ e λ m.
      let o1 = record o { method = some m.0 } in
      Kept-lift (skip_spaces m.1) o1 _ e λ b2. Kept-lift (advance_token b2.at b2.rest) o1 _ e λ p.
        let o2 = record o1 { path = some p.0 } in
        Kept-lift (skip_spaces p.1) o2 _ e λ b4.
          Kept-lift (if m.0.len == 0 || p.0.len == 0 then err malformed else ok tt) o2 _ e λ u.
            Kept-lift (parse_http_version b4.at b4.rest) o2 _ e λ v.
              let o3 = record o2 { minor_version = pos v.0 } in
              Kept-lift (line_end v.1.at v.1.rest) o3 _ e λ b6.
                on_table-Kept o3 (header_loop (length b6.rest + 1) max b6.at b6.rest o3.table)
                  (header_loop-Kept (length b6.rest + 1) max b6.at b6.rest o3.table e)

pub slots-phr_parse_request :
    (s : Bytes) (h : List Header) (cap last_len : ℕ)
    → length (phr_parse_request s h cap last_len).1.table.slots ≡ length h
unfolding phr_parse_request
slots-phr_parse_request s h cap last_len = Kept-same {f = request_slots} (
    Kept-lift (gate s last_len) (cleared_request h) _ refl
      λ u. parse_request-Kept cap 0 s (cleared_request h) refl)
