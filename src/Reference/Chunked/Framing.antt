-- ===== src/Reference/Chunked/Framing.antt =====
-- The cases of the switch of phr_decode_chunked for sizes, extensions and trailers, against the
-- stream that it decodes.
use mathlib.Core.Path.{subst}
use picohttpparser_rs.Base.{
  ℕ, ◌-◌, ◌≤◌, ◌<◌, ◌≡◌, refl, sym, [], ◌∷◌, none, ◌==◌, true, arith, length, Bool-cases,
  Option-cases, inl, inr,
}
use picohttpparser_rs.Reference.Chars.{Bytes}
use picohttpparser_rs.Reference.Chunked.Cases.{
  Follows, goes_on, gives_up, is_done, falls_through, runs_out, data_lf-Follows, data_cr-Follows,
  chunk_data-Follows,
}
use picohttpparser_rs.Reference.Chunked.Shows.{
  Shows, peek-nil, peek-cons, get_or-Shows, Shows-decoder, Shows-advance, length-unread,
}
use picohttpparser_rs.Reference.Chunked.Stream.{run, step, run-eq_of_step}
use picohttpparser_rs.Reference.Chunked.{
  chunk_data, header_end, header_lf, ext_loop, chunk_ext, size_end, size_loop, chunk_size,
  middle_loop, trailers_middle, head_loop, trailers_head, switch,
}
use picohttpparser_rs.Reference.Decoder.{
  in_chunk_size, in_chunk_ext, in_chunk_header_expect_lf, in_chunk_data, in_chunk_data_expect_cr,
  in_chunk_data_expect_lf, in_trailers_line_head, in_trailers_line_middle, State, complete,
  decode_hex, ends_size, Frame, put, advance, push_digit, max_digits,
}

module _ (n : ℕ) where
  header_end-Follows :
      (out s : Bytes) (c : ℕ) (r : Frame)
      → Shows out (c ∷ s) r
      → length (c ∷ s) ≤ n
      → r.decoder.state ≡ in_chunk_header_expect_lf
      → (c == b'\n') ≡ true
      → Follows (run r.decoder out (c ∷ s)) n (header_end (advance r))
  unfolding header_end step
  header_end-Follows out s c r h le e lf = elim (Bool-cases (r.decoder.bytes_left_in_chunk == 0)) [
    | inl last ↦ elim (Bool-cases r.decoder.consume_trailer) [
      | inl trailer ↦
          rw (last, trailer, Follows)
            (goes_on out n r.decoder c s _ (ground arith) (Shows-decoder _ (Shows-advance h)) le cc)
      | inr bare ↦
          let ends : header_end (advance r) ≡ complete (advance r) = ground arith in
          subst (λ f. Follows (run r.decoder out (c ∷ s)) n f) (sym ends)
            (is_done out n r.decoder c s (advance r) (ground arith) (Shows-advance h))
    ]
    | inr chunk ↦
        rw (chunk, Follows)
          (let r' = put in_chunk_data (advance r) in
            falls_through out n r.decoder c s r' (chunk_data r') (ground arith) (
              chunk_data-Follows n out s r' (Shows-decoder _ (Shows-advance h)) (omega arith) refl
                (ground arith)))
  ]

  header_lf-Follows :
      (out s : Bytes) (r : Frame)
      → Shows out s r
      → length s ≤ n
      → r.decoder.state ≡ in_chunk_header_expect_lf
      → Follows (run r.decoder out s) n (header_lf r)
  unfolding header_lf step
  header_lf-Follows out [] r h le e = rw (peek-nil h, Follows) (runs_out n out r h)
  header_lf-Follows out (c ∷ s) r h le e = elim (Bool-cases (c == b'\n')) [
    | inl lf ↦ rw (peek-cons h, lf, Follows) (header_end-Follows out s c r h le e lf)
    | inr other ↦ rw (peek-cons h, other, Follows) (gives_up out n r.decoder c s _ (ground arith) h)
  ]

  ext_loop-Follows :
      (out s : Bytes) (r : Frame)
      → Shows out s r
      → length s ≤ n
      → r.decoder.state ≡ in_chunk_ext
      → Follows (run r.decoder out s) n (ext_loop (length s) r)
  unfolding ext_loop step
  ext_loop-Follows out [] r h le e = runs_out n out r h
  ext_loop-Follows out (c ∷ s) r h le e = elim (Bool-cases (c == b'\r')) [
    | inl cr ↦
        rw (get_or-Shows h, cr, Follows)
          (let r' = put in_chunk_header_expect_lf (advance r) in
            falls_through out n r.decoder c s r' (header_lf r') (ground arith)
              (header_lf-Follows out s r' (Shows-decoder _ (Shows-advance h)) (omega arith) refl))
    | inr ncr ↦ elim (Bool-cases (c == b'\n')) [
      | inl lf ↦
          rw (get_or-Shows h, ncr, lf, Follows) (gives_up out n r.decoder c s _ (ground arith) h)
      | inr nlf ↦
          rw (get_or-Shows h, ncr, nlf, Follows)
            (falls_through out n r.decoder c s (advance r) (ext_loop (length s) (advance r))
              (ground arith) (ext_loop-Follows out s (advance r) (Shows-advance h) (omega arith) e))
    ]
  ]

  middle_loop-Follows :
      (out s : Bytes) (r : Frame)
      → Shows out s r
      → length s ≤ n
      → r.decoder.state ≡ in_trailers_line_middle
      → Follows (run r.decoder out s) n (middle_loop (length s) r)
  unfolding middle_loop step
  middle_loop-Follows out [] r h le e = runs_out n out r h
  middle_loop-Follows out (c ∷ s) r h le e = elim (Bool-cases (c == b'\n')) [
    | inl lf ↦
        rw (get_or-Shows h, lf, Follows)
          (goes_on out n r.decoder c s _ (ground arith) (Shows-decoder _ (Shows-advance h)) le cc)
    | inr nlf ↦
        rw (get_or-Shows h, nlf, Follows)
          (falls_through out n r.decoder c s (advance r) (middle_loop (length s) (advance r))
            (ground arith)
            (middle_loop-Follows out s (advance r) (Shows-advance h) (omega arith) e))
  ]

  -- With the loop's first byte read already.
  trailers_middle-Follows :
      (out s : Bytes) (r : Frame)
      → Shows out s r
      → length s ≤ n
      → r.decoder.state ≡ in_trailers_line_middle
      → Follows (run r.decoder out s) n (trailers_middle r)
  unfolding trailers_middle
  trailers_middle-Follows out s r h le e =
      let left : r.bufsz - r.src ≡ length s = omega (arith, length-unread h) in
      rw left (middle_loop-Follows out s r h le e)

  head_loop-Follows :
      (out s : Bytes) (r : Frame)
      → Shows out s r
      → length s ≤ n
      → r.decoder.state ≡ in_trailers_line_head
      → Follows (run r.decoder out s) n (head_loop (length s) r)
  unfolding head_loop step
  head_loop-Follows out [] r h le e = runs_out n out r h
  head_loop-Follows out (c ∷ s) r h le e = elim (Bool-cases (c == b'\r')) [
    | inl cr ↦
        rw (get_or-Shows h, cr, Follows)
          (falls_through out n r.decoder c s (advance r) (head_loop (length s) (advance r))
            (ground arith) (head_loop-Follows out s (advance r) (Shows-advance h) (omega arith) e))
    | inr ncr ↦ elim (Bool-cases (c == b'\n')) [
      | inl lf ↦
          rw (get_or-Shows h, ncr, lf, Follows)
            (is_done out n r.decoder c s (advance r) (ground arith) (Shows-advance h))
      | inr nlf ↦
          rw (get_or-Shows h, ncr, nlf, Follows)
            (let r' = put in_trailers_line_middle (advance r) in
              falls_through out n r.decoder c s r' (trailers_middle r') (ground arith) (
                trailers_middle-Follows out s r' (Shows-decoder _ (Shows-advance h)) (omega arith)
                  refl))
    ]
  ]

  chunk_ext-Follows :
      (out s : Bytes) (r : Frame)
      → Shows out s r
      → length s ≤ n
      → r.decoder.state ≡ in_chunk_ext
      → Follows (run r.decoder out s) n (chunk_ext r)
  unfolding chunk_ext
  chunk_ext-Follows out s r h le e =
      let left : r.bufsz - r.src ≡ length s = omega (arith, length-unread h) in
      rw left (ext_loop-Follows out s r h le e)

  -- Behind the digits the machine is in CHUNKED_IN_CHUNK_EXT, at the same byte.
  size_end-Follows :
      (out s : Bytes) (c : ℕ) (r : Frame)
      → Shows out (c ∷ s) r
      → length (c ∷ s) ≤ n
      → r.decoder.state ≡ in_chunk_size
      → decode_hex c ≡ none
      → Follows (run r.decoder out (c ∷ s)) n (size_end c r)
  unfolding size_end step
  size_end-Follows out s c r h le e digit = elim (Bool-cases (r.decoder.hex_count == 0)) [
    | inl bare ↦ rw (bare, Follows) (gives_up out n r.decoder c s _ (ground arith) h)
    | inr sized ↦ elim (Bool-cases (ends_size c)) [
      | inl ends ↦
          rw (sized, ends, Follows)
            (let r' = record r {
              decoder = record r.decoder { hex_count = 0; state = in_chunk_ext };
            } in
              subst (λ t. Follows t n (chunk_ext r'))
                (sym (run-eq_of_step r.decoder r'.decoder out c s (ground arith)))
                (chunk_ext-Follows out (c ∷ s) r' (Shows-decoder _ h) le refl))
      | inr other ↦ rw (sized, other, Follows) (gives_up out n r.decoder c s _ (ground arith) h)
    ]
  ]

  size_loop-Follows :
      (out s : Bytes) (r : Frame)
      → Shows out s r
      → length s ≤ n
      → r.decoder.state ≡ in_chunk_size
      → Follows (run r.decoder out s) n (size_loop (length s) r)
  unfolding size_loop step
  size_loop-Follows out [] r h le e = runs_out n out r h
  size_loop-Follows out (c ∷ s) r h le e = elim (Option-cases (decode_hex c)) [
    | inl p ↦ rw (get_or-Shows h, p, get_or-Shows h, Follows) (size_end-Follows out s c r h le e p)
    | inr (v, p) ↦ elim (Bool-cases (r.decoder.hex_count == max_digits)) [
      | inl full ↦
          rw (get_or-Shows h, p, full, Follows) (gives_up out n r.decoder c s _ (ground arith) h)
      | inr room ↦
          rw (get_or-Shows h, p, room, Follows)
            (let r' = advance (record r { decoder = push_digit v r.decoder }) in
              falls_through out n r.decoder c s r' (size_loop (length s) r') (ground arith)
                (size_loop-Follows out s r' (Shows-decoder _ (Shows-advance h)) (omega arith) e))
    ]
  ]

  -- What the switch asks of a decoder in CHUNKED_IN_CHUNK_DATA.
  pub switch-Follows :
      (state : State) (out s : Bytes) (r : Frame)
      → Shows out s r
      → length s ≤ n
      → r.decoder.state ≡ state
      → (r.decoder.state ≡ in_chunk_data → 0 < r.decoder.bytes_left_in_chunk)
      → Follows (run r.decoder out s) n (switch state r)
  unfolding switch chunk_size trailers_head
  switch-Follows in_chunk_size out s r h le e pos =
      let left : r.bufsz - r.src ≡ length s = omega (arith, length-unread h) in
      rw left (size_loop-Follows out s r h le e)
  switch-Follows in_chunk_ext out s r h le e pos = chunk_ext-Follows out s r h le e
  switch-Follows in_chunk_header_expect_lf out s r h le e pos = header_lf-Follows out s r h le e
  switch-Follows in_chunk_data out s r h le e pos = chunk_data-Follows n out s r h le e (pos e)
  switch-Follows in_chunk_data_expect_cr out s r h le e pos = data_cr-Follows n out s r h le e
  switch-Follows in_chunk_data_expect_lf out s r h le e pos = data_lf-Follows n out s r h le e
  switch-Follows in_trailers_line_head out s r h le e pos =
      let left : r.bufsz - r.src ≡ length s = omega (arith, length-unread h) in
      rw left (head_loop-Follows out s r h le e)
  switch-Follows in_trailers_line_middle out s r h le e pos = trailers_middle-Follows out s r h le e
