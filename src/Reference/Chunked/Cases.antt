-- ===== src/Reference/Chunked/Cases.antt =====
-- Each case of the switch of phr_decode_chunked against the stream that it decodes.
use picohttpparser_rs.Base.{
  ℕ, ◌-◌, ◌≤◌, ◌<◌, ◌≡◌, ◌≢◌, refl, sym, ◌∙◌, ap, [], ◌∷◌, ◌++◌, ◌==◌, arith, length, take, drop,
  Bool-cases, inl, inr, ℤ, ltb, ltb→lt,
}
use picohttpparser_rs.Base.Lists.{length-drop}
use picohttpparser_rs.Reference.Chars.{Bytes}
use picohttpparser_rs.Reference.Chunked.Data.{in_data, past_data, run-in_data, run-past_data}
use picohttpparser_rs.Reference.Chunked.Shows.{
  Shows, peek-nil, peek-cons, Shows-decoder, Shows-advance, Shows-move_data, Shows-move_data_all,
  length-unread,
}
use picohttpparser_rs.Reference.Chunked.Stream.{
  Trace, Verdict, more, refused, finished, run, step, skip, refuse, finish, run-skip, run-refuse,
  run-finish,
}
use picohttpparser_rs.Reference.Chunked.{data_lf, data_cr, chunk_data}
use picohttpparser_rs.Reference.Decoder.{
  in_chunk_data, in_chunk_data_expect_cr, in_chunk_data_expect_lf, Decoder, Frame, Flow, again,
  exit, complete, incomplete, invalid, put, advance, move_data,
}

-- The return value at `goto Exit`; a complete message has none yet.
abbrev pub IsReturn : Verdict → ℤ → Type 0
IsReturn more ret = ret ≡ incomplete
IsReturn refused ret = ret ≡ invalid
IsReturn finished ret = ⊥

pub record Ends (t : Trace) (r : Frame) : Type 0 where
  pub shows : Shows t.out t.rest r
  pub same_decoder : r.decoder ≡ t.decoder

-- The loop goes on with a part of the same stream, fewer than `n` bytes of it.
pub record Continues (t : Trace) (n : ℕ) (r : Frame) : Type 0 where
  pub out : Bytes
  pub rest : Bytes
  pub shows : Shows out rest r
  pub same_trace : run r.decoder out rest ≡ t
  pub shorter : length rest < n
  pub not_in_data : r.decoder.state ≢ in_chunk_data

abbrev pub Follows : Trace → ℕ → Flow → Type 0
Follows t n (again r) = Continues t n r
Follows t n (exit ret r) = Ends t r × IsReturn t.verdict ret
Follows t n (complete r) = Ends t r × (t.verdict ≡ finished)

-- What a frame makes of the byte at `src`.
module _ (out : Bytes) (n : ℕ) (d : Decoder) (c : ℕ) (s : Bytes) (r : Frame) where
  pub goes_on :
      step d c ≡ skip r.decoder
      → Shows out s r
      → length (c ∷ s) ≤ n
      → r.decoder.state ≢ in_chunk_data
      → Continues (run d out (c ∷ s)) n r
  goes_on e h le ne = record {
    out = out;
    rest = s;
    shows = h;
    same_trace = sym (run-skip d r.decoder out c s e);
    shorter = le;
    not_in_data = ne;
  }

  pub gives_up :
      step d c ≡ refuse r.decoder
      → Shows out (c ∷ s) r
      → Follows (run d out (c ∷ s)) n (exit invalid r)
  gives_up e h =
      rw (run-refuse d r.decoder out c s e) (record { shows = h; same_decoder = refl }, refl)

  pub is_done :
      step d c ≡ finish r.decoder → Shows out s r → Follows (run d out (c ∷ s)) n (complete r)
  is_done e h =
      rw (run-finish d r.decoder out c s e) (record { shows = h; same_decoder = refl }, refl)

  pub falls_through :
      (f : Flow)
      → step d c ≡ skip r.decoder
      → Follows (run r.decoder out s) n f
      → Follows (run d out (c ∷ s)) n f
  falls_through f e h = rw (run-skip d r.decoder out c s e) h

module _ (n : ℕ) where
  pub runs_out :
      (out : Bytes) (r : Frame)
      → Shows out [] r
      → Follows (run r.decoder out []) n (exit incomplete r)
  unfolding run
  runs_out out r h = (record { shows = h; same_decoder = refl }, refl)

  pub data_lf-Follows :
      (out s : Bytes) (r : Frame)
      → Shows out s r
      → length s ≤ n
      → r.decoder.state ≡ in_chunk_data_expect_lf
      → Follows (run r.decoder out s) n (data_lf r)
  unfolding data_lf step
  data_lf-Follows out [] r h le e = rw (peek-nil h, Follows) (runs_out out r h)
  data_lf-Follows out (c ∷ s) r h le e = elim (Bool-cases (c == b'\n')) [
    | inl lf ↦
        rw (peek-cons h, lf, Follows)
          (goes_on out n r.decoder c s _ (ground arith) (Shows-decoder _ (Shows-advance h)) le cc)
    | inr other ↦ rw (peek-cons h, other, Follows) (gives_up out n r.decoder c s _ (ground arith) h)
  ]

  pub data_cr-Follows :
      (out s : Bytes) (r : Frame)
      → Shows out s r
      → length s ≤ n
      → r.decoder.state ≡ in_chunk_data_expect_cr
      → Follows (run r.decoder out s) n (data_cr r)
  unfolding data_cr step
  data_cr-Follows out [] r h le e = rw (peek-nil h, Follows) (runs_out out r h)
  data_cr-Follows out (c ∷ s) r h le e = elim (Bool-cases (c == b'\r')) [
    | inl cr ↦
        rw (peek-cons h, cr, Follows)
          (let r' = put in_chunk_data_expect_lf (advance r) in
            falls_through out n r.decoder c s r' (data_lf r') (ground arith)
              (data_lf-Follows out s r' (Shows-decoder _ (Shows-advance h)) (omega arith) refl))
    | inr other ↦ rw (peek-cons h, other, Follows) (gives_up out n r.decoder c s _ (ground arith) h)
  ]

  -- The data of a chunk that does not end in the buffer.
  data_short :
      (out s : Bytes) (r : Frame)
      → Shows out s r
      → r.decoder.state ≡ in_chunk_data
      → length s < r.decoder.bytes_left_in_chunk
      → Follows (run r.decoder out s) n (exit incomplete (move_data (length s) r))
  unfolding move_data
  data_short out s r h e short =
      let same : r.decoder ≡ in_data r.decoder.bytes_left_in_chunk r.decoder = ground arith in
      rw (ap (λ d. run d out s) same ∙ run-in_data r.decoder out s _ short)
        (record { shows = Shows-move_data_all h; same_decoder = ground arith }, refl)

  -- The data of a chunk up to its end.
  data_whole :
      (out s : Bytes) (r : Frame)
      → Shows out s r
      → length s ≤ n
      → r.decoder.state ≡ in_chunk_data
      → 0 < r.decoder.bytes_left_in_chunk
      → r.decoder.bytes_left_in_chunk ≤ length s
      → Follows
          (run r.decoder out s)
          n
          (data_cr (put in_chunk_data_expect_cr (move_data r.decoder.bytes_left_in_chunk r)))
  unfolding move_data
  data_whole out s r h le e pos long =
      let left = r.decoder.bytes_left_in_chunk in
      let r' = put in_chunk_data_expect_cr (move_data left r) in
      let same : r.decoder ≡ in_data left r.decoder = ground arith in
      let past : past_data r.decoder ≡ r'.decoder = ground arith in
      rw
        (ap (λ d. run d out s) same
          ∙ run-past_data r.decoder out s left pos long
          ∙ ap (λ d. run d (out ++ take left s) (drop left s)) past)
        (data_cr-Follows (out ++ take left s) (drop left s) r'
          (Shows-decoder _ (Shows-move_data left h long)) (omega (arith, length-drop left s)) refl)

  pub chunk_data-Follows :
      (out s : Bytes) (r : Frame)
      → Shows out s r
      → length s ≤ n
      → r.decoder.state ≡ in_chunk_data
      → 0 < r.decoder.bytes_left_in_chunk
      → Follows (run r.decoder out s) n (chunk_data r)
  unfolding chunk_data
  chunk_data-Follows out s r h le e pos =
      let avail : r.bufsz - r.src ≡ length s = omega (arith, length-unread h) in
      elim (Bool-cases (ltb (length s) r.decoder.bytes_left_in_chunk)) [
        | inl short ↦ rw (avail, short, Follows) (data_short out s r h e (ltb→lt _ _ short))
        | inr long ↦ rw (avail, long, Follows) (data_whole out s r h le e pos (ground arith))
      ]
