-- ===== src/Reference/Chunked/Size.antt =====
-- No case of the switch of phr_decode_chunked changes `bufsz`.
use picohttpparser_rs.Base.{
  ℕ, zero, suc, ◌-◌, get_or, sym, ◌∙◌, ◌≡◌, refl, Option, some, arith, Option-cases, inl, inr, ℤ,
}
use picohttpparser_rs.Reference.Chunked.{
  chunk_data, data_lf, data_cr, header_lf, ext_loop, chunk_ext, size_end, size_loop, chunk_size,
  middle_loop, trailers_middle, head_loop, trailers_head, switch, decode_loop, to_ssize,
}
use picohttpparser_rs.Reference.Decoder.{
  State, in_chunk_size, in_chunk_ext, in_chunk_header_expect_lf, in_chunk_data,
  in_chunk_data_expect_cr, in_chunk_data_expect_lf, in_trailers_line_head, in_trailers_line_middle,
  decode_hex, Frame, Flow, again, exit, complete, put, advance, move_data, push_digit,
}

abbrev KeepsSize : ℕ → Flow → Type 0
KeepsSize n (again r) = r.bufsz ≡ n
KeepsSize n (exit ret r) = r.bufsz ≡ n
KeepsSize n (complete r) = r.bufsz ≡ n

data_lf-KeepsSize : (r : Frame) → KeepsSize r.bufsz (data_lf r)
unfolding data_lf
data_lf-KeepsSize r = ground arith

data_cr-KeepsSize : (r : Frame) → KeepsSize r.bufsz (data_cr r)
unfolding data_cr
data_cr-KeepsSize r = ground (arith, data_lf-KeepsSize (put in_chunk_data_expect_lf (advance r)))

chunk_data-KeepsSize : (r : Frame) → KeepsSize r.bufsz (chunk_data r)
unfolding chunk_data move_data
chunk_data-KeepsSize r =
    let left = r.decoder.bytes_left_in_chunk in
    ground (arith, data_cr-KeepsSize (put in_chunk_data_expect_cr (move_data left r)))

header_lf-KeepsSize : (r : Frame) → KeepsSize r.bufsz (header_lf r)
unfolding header_lf
header_lf-KeepsSize r = ground (arith, chunk_data-KeepsSize (put in_chunk_data (advance r)))

ext_loop-KeepsSize : (n : ℕ) (r : Frame) → KeepsSize r.bufsz (ext_loop n r)
unfolding ext_loop
ext_loop-KeepsSize zero r = refl
ext_loop-KeepsSize (suc n) r = ground (
  arith,
  header_lf-KeepsSize (put in_chunk_header_expect_lf (advance r)),
  ext_loop-KeepsSize n (advance r),
)

middle_loop-KeepsSize : (n : ℕ) (r : Frame) → KeepsSize r.bufsz (middle_loop n r)
unfolding middle_loop
middle_loop-KeepsSize zero r = refl
middle_loop-KeepsSize (suc n) r = ground (arith, middle_loop-KeepsSize n (advance r))

head_loop-KeepsSize : (n : ℕ) (r : Frame) → KeepsSize r.bufsz (head_loop n r)
unfolding head_loop trailers_middle
head_loop-KeepsSize zero r = refl
head_loop-KeepsSize (suc n) r =
    let r' = put in_trailers_line_middle (advance r) in
    ground (arith, middle_loop-KeepsSize (r'.bufsz - r'.src) r', head_loop-KeepsSize n (advance r))

size_end-KeepsSize : (c : ℕ) (r : Frame) → KeepsSize r.bufsz (size_end c r)
unfolding size_end chunk_ext
size_end-KeepsSize c r =
    let r' = record r { decoder = record r.decoder { hex_count = 0; state = in_chunk_ext } } in
    ground (arith, ext_loop-KeepsSize (r'.bufsz - r'.src) r')

size_loop-KeepsSize : (n : ℕ) (r : Frame) → KeepsSize r.bufsz (size_loop n r)
unfolding size_loop
size_loop-KeepsSize zero r = refl
size_loop-KeepsSize (suc n) r = elim (Option-cases (decode_hex (get_or r.buf r.src 0))) [
  | inl digit ↦ rw (digit, KeepsSize) (size_end-KeepsSize (get_or r.buf r.src 0) r)
  | inr (v, digit) ↦
      rw (digit, KeepsSize)
        (ground
          (arith, size_loop-KeepsSize n (advance (record r { decoder = push_digit v r.decoder }))))
]

switch-KeepsSize : (s : State) (r : Frame) → KeepsSize r.bufsz (switch s r)
unfolding switch chunk_size chunk_ext trailers_head trailers_middle
switch-KeepsSize in_chunk_size r = size_loop-KeepsSize _ r
switch-KeepsSize in_chunk_ext r = ext_loop-KeepsSize _ r
switch-KeepsSize in_chunk_header_expect_lf r = header_lf-KeepsSize r
switch-KeepsSize in_chunk_data r = chunk_data-KeepsSize r
switch-KeepsSize in_chunk_data_expect_cr r = data_cr-KeepsSize r
switch-KeepsSize in_chunk_data_expect_lf r = data_lf-KeepsSize r
switch-KeepsSize in_trailers_line_head r = head_loop-KeepsSize _ r
switch-KeepsSize in_trailers_line_middle r = middle_loop-KeepsSize _ r

module _ (fuel : ℕ) (r r' : Frame) where
  pub decode_loop-again :
      switch r.decoder.state r ≡ again r' → decode_loop (suc fuel) r ≡ decode_loop fuel r'
  unfolding decode_loop
  decode_loop-again e = rw (e, decode_loop)

  pub decode_loop-exit :
      (ret : ℤ) → switch r.decoder.state r ≡ exit ret r' → decode_loop (suc fuel) r ≡ some (ret, r')
  unfolding decode_loop
  decode_loop-exit ret e = rw (e, decode_loop)

  pub decode_loop-complete :
      switch r.decoder.state r ≡ complete r'
      → decode_loop (suc fuel) r ≡ some (to_ssize (r'.bufsz - r'.src), r')
  unfolding decode_loop
  decode_loop-complete e = rw (e, decode_loop)

pub bufsz-decode_loop :
    (fuel : ℕ) (r : Frame) {ret : ℤ} {r' : Frame}
    → decode_loop fuel r ≡ some (ret, r')
    → r'.bufsz ≡ r.bufsz
unfolding decode_loop
bufsz-decode_loop zero r e = cc
bufsz-decode_loop (suc fuel) r {ret} {r'} e =
    after (switch r.decoder.state r) refl (switch-KeepsSize r.decoder.state r)
      (λ q e'. bufsz-decode_loop fuel q e')
  where
    after :
        (f : Flow)
        → switch r.decoder.state r ≡ f
        → KeepsSize r.bufsz f
        → ((q : Frame) → decode_loop fuel q ≡ some (ret, r') → r'.bufsz ≡ q.bufsz)
        → r'.bufsz ≡ r.bufsz
    after (again q) p k ih = ih q (sym (decode_loop-again fuel r q p) ∙ e) ∙ k
    after (exit code q) p k ih =
        let same : ◌≡◌ {A = Option (ℤ × Frame)} (some (code, q)) (some (ret, r')) =
          sym (decode_loop-exit fuel r q code p) ∙ e in
        ground arith
    after (complete q) p k ih =
        let same : ◌≡◌ {A = Option (ℤ × Frame)} (some (to_ssize (q.bufsz - q.src), q))
            (some (ret, r')) =
          sym (decode_loop-complete fuel r q p) ∙ e in
        ground arith
