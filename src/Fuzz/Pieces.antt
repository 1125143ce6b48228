-- ===== src/Fuzz/Pieces.antt =====
-- The calls that an iteration of scripts/fuzz_chunked.c makes: the decoder that it begins with, and the
-- pieces of the body.
pub mod Sorted
pub mod Cover
use picohttpparser_rs.Base.{
  ℕ, zero, suc, ◌+◌, ◌-◌, ◌*◌, ◌%◌, ◌^◌, [], ◌∷◌, ◌++◌, List, Bool, true, false, not, ◌&&◌, ◌||◌,
  ltb, ◌==◌, if◌then◌else◌, length, take, drop, get_or,
}
use picohttpparser_rs.Fuzz.Body.{G, ◌>>=◌, ◌>>◌, give, Gen, rng_less, body_len}
use picohttpparser_rs.Reference.Chars.{Bytes}
use picohttpparser_rs.Reference.Decoder.{
  State, in_chunk_size, in_chunk_ext, in_chunk_header_expect_lf, in_chunk_data, Decoder,
}

unfoldable pub fresh_dec : Bool → Decoder
fresh_dec trailer = record {
  bytes_left_in_chunk = 0;
  consume_trailer = trailer;
  hex_count = 0;
  state = in_chunk_size;
  total_read = 0;
  total_overhead = 0;
}

-- The states 0 to 3.
abbrev pub states : List State
states = in_chunk_size ∷ in_chunk_ext ∷ in_chunk_header_expect_lf ∷ in_chunk_data ∷ []

-- `left` and `hex` for the state with this number.
unfoldable pub dirty_fields : ℕ → G (ℕ × ℕ)
dirty_fields st =
    if st == 0
    then (do left ← rng_less 256; hex ← rng_less 17; give (left, hex))
    else if st == 3
    then (do left ← rng_less 256; give (left, 0))
    else give (0, 0)

unfoldable pub dirty_dec : Decoder → G Decoder
dirty_dec d = do
  st ← rng_less 4
  hot ← rng_less 4
  (left, hex) ← dirty_fields st
  let d1 = record d {
    state = get_or states st in_chunk_data;
    bytes_left_in_chunk = left;
    hex_count = hex;
  }
  (if hot == 0
      then (do
        more ← rng_less 2048
        delta ← rng_less 100000
        let over = 100 * 1024 + more
        give (record d1 { total_overhead = over; total_read = over + delta }))
      else give d1)

pub draw_cuts : ℕ → G (List ℕ)
draw_cuts zero = give []
draw_cuts (suc n) = do
  len ← body_len
  cut ← rng_less (len + 1)
  cuts ← draw_cuts n
  give (cut ∷ cuts)

-- The inner loop of the insertion sort, on the sorted part from its end back.
pub shift_in : ℕ → List ℕ → List ℕ
shift_in key [] = key ∷ []
shift_in key (c ∷ cs) =
    let shifted = c ∷ shift_in key cs in if ltb key c then shifted else key ∷ c ∷ cs

pub sort_loop : List ℕ → List ℕ → List ℕ
sort_loop sorted [] = sorted
sort_loop sorted (key ∷ keys) = sort_loop (shift_in key sorted) keys

-- The sorted part from its front on.
pub in_order : List ℕ → List ℕ → List ℕ
in_order [] front = front
in_order (c ∷ cs) front = in_order cs (c ∷ front)

unfoldable pub sort_cuts : List ℕ → List ℕ
unfolding sort_loop in_order
sort_cuts cuts = in_order (sort_loop [] cuts) []

-- The slices `[prev, end)` of the body, one for a call.
pub pieces_from : ℕ → List ℕ → Bytes → List Bytes
pieces_from prev [] body = drop prev body ∷ []
pieces_from prev (end ∷ cuts) body = take (end - prev) (drop prev body) ∷ pieces_from end cuts body

unfoldable pub pieces : Bytes → List ℕ → List Bytes
unfolding sort_cuts pieces_from
pieces body cuts = pieces_from 0 (sort_cuts cuts) body

-- One iteration behind build_body, up to its calls.
unfoldable pub plan_calls : G (Decoder × List Bytes)
unfolding draw_cuts
plan_calls = do
  coin ← rng_less 2
  dirty ← rng_less 8
  split ← rng_less 10
  len ← body_len
  let d = fresh_dec (not (coin == 0))
  (if ltb split 5 || len == 0
      then (do d' ← (if dirty == 0 then dirty_dec d else give d); (λ g. give (d', g.body ∷ []) g))
      else (do
        more ← rng_less 3
        cuts ← draw_cuts (1 + more)
        d' ← (if dirty == 0 then dirty_dec d else give d)
        (λ g. give (d', pieces g.body cuts) g)))
