-- ===== src/Reference/Chunked/Totals.antt =====
-- The totals of a decoder of phr_decode_chunked do not touch what it makes of the bytes.
use mathlib.Core.List.{append_assoc}
use picohttpparser_rs.Base.{ℕ, ◌≡◌, refl, [], ◌∷◌, ◌++◌, arith, Option-cases, inl, inr}
use picohttpparser_rs.Reference.Chars.{Bytes}
use picohttpparser_rs.Reference.Chunked.Stream.{
  Verdict, Event, skip, emit, finish, refuse, Trace, more, refused, finished, run, step, step_in,
}
use picohttpparser_rs.Reference.Decoder.{
  State, in_chunk_size, in_chunk_ext, in_chunk_header_expect_lf, in_chunk_data,
  in_chunk_data_expect_cr, in_chunk_data_expect_lf, in_trailers_line_head, in_trailers_line_middle,
  Decoder, decode_hex,
}

-- The decoder with these totals.
abbrev pub with_totals : ℕ → ℕ → Decoder → Decoder
with_totals read overhead d = record d { total_read = read; total_overhead = overhead }

module _ (read overhead : ℕ) where
  abbrev pub event_with : Event → Event
  event_with (skip d) = skip (with_totals read overhead d)
  event_with (emit d) = emit (with_totals read overhead d)
  event_with (finish d) = finish (with_totals read overhead d)
  event_with (refuse d) = refuse (with_totals read overhead d)

  abbrev pub trace_with : Trace → Trace
  trace_with t = record t { decoder = with_totals read overhead t.decoder }

  step_in-with_totals :
      (s : State) (d : Decoder) (c : ℕ)
      → step_in s (with_totals read overhead d) c ≡ event_with (step_in s d c)
  unfolding step_in
  step_in-with_totals in_chunk_size d c = elim (Option-cases (decode_hex c)) [
    | inl end ↦ rw (end, event_with) (ground arith)
    | inr (v, digit) ↦ rw (digit, event_with) (ground arith)
  ]
  step_in-with_totals in_chunk_ext d c = ground arith
  step_in-with_totals in_chunk_header_expect_lf d c = ground arith
  step_in-with_totals in_chunk_data d c = ground arith
  step_in-with_totals in_chunk_data_expect_cr d c = ground arith
  step_in-with_totals in_chunk_data_expect_lf d c = ground arith
  step_in-with_totals in_trailers_line_head d c = ground arith
  step_in-with_totals in_trailers_line_middle d c = ground arith

  step-with_totals :
      (d : Decoder) (c : ℕ) → step (with_totals read overhead d) c ≡ event_with (step d c)
  unfolding step
  step-with_totals d c = step_in-with_totals d.state d c

  pub run-with_totals :
      (d : Decoder) (out s : Bytes)
      → run (with_totals read overhead d) out s ≡ trace_with (run d out s)
  unfolding run
  run-with_totals d out [] = refl
  run-with_totals d out (c ∷ s) = after (step d c) refl (λ d' out'. run-with_totals d' out' s)
    where
      after :
          (e : Event)
          → step d c ≡ e
          → ((d' : Decoder) (out' : Bytes)
              → run (with_totals read overhead d') out' s ≡ trace_with (run d' out' s))
          → run (with_totals read overhead d) out (c ∷ s) ≡ trace_with (run d out (c ∷ s))
      after (skip d') e ih = rw (step-with_totals d c, e, run) (ih d' out)
      after (emit d') e ih = rw (step-with_totals d c, e, run) (ih d' (out ++ (c ∷ [])))
      after (finish d') e ih = rw (step-with_totals d c, e, run)
      after (refuse d') e ih = rw (step-with_totals d c, e, run)

-- Where a stream goes on behind the bytes that made this trace.
abbrev pub resume : Verdict → Trace → Bytes → Trace
resume more t s = run t.decoder t.out s
resume refused t s = record t { rest = t.rest ++ s }
resume finished t s = record t { rest = t.rest ++ s }

pub run-append :
    (d : Decoder) (out a b : Bytes)
    → run d out (a ++ b) ≡ resume (run d out a).verdict (run d out a) b
unfolding run
run-append d out [] b = refl
run-append d out (c ∷ a) b = after (step d c) refl (λ d' out'. run-append d' out' a b)
  where
    after :
        (e : Event)
        → step d c ≡ e
        → ((d' : Decoder) (out' : Bytes)
            → run d' out' (a ++ b) ≡ resume (run d' out' a).verdict (run d' out' a) b)
        → run d out (c ∷ (a ++ b)) ≡ resume (run d out (c ∷ a)).verdict (run d out (c ∷ a)) b
    after (skip d') e ih = rw (e, run) (ih d' out)
    after (emit d') e ih = rw (e, run) (ih d' (out ++ (c ∷ [])))
    after (finish d') e ih = rw (e, run)
    after (refuse d') e ih = rw (e, run)

abbrev pub prepend : Bytes → Trace → Trace
prepend p t = record t { out = p ++ t.out }

pub run-prepend : (d : Decoder) (p out s : Bytes) → run d (p ++ out) s ≡ prepend p (run d out s)
unfolding run
run-prepend d p out [] = refl
run-prepend d p out (c ∷ s) = after (step d c) refl (λ d' out'. run-prepend d' p out' s)
  where
    after :
        (e : Event)
        → step d c ≡ e
        → ((d' : Decoder) (out' : Bytes) → run d' (p ++ out') s ≡ prepend p (run d' out' s))
        → run d (p ++ out) (c ∷ s) ≡ prepend p (run d out (c ∷ s))
    after (skip d') e ih = rw (e, run) (ih d' out)
    after (emit d') e ih = rw (e, run, append_assoc) (ih d' (out ++ (c ∷ [])))
    after (finish d') e ih = rw (e, run)
    after (refuse d') e ih = rw (e, run)
