-- ===== src/Reference/Chunked/Refines.antt =====
-- phr_decode_chunked, with its in-place copies, against the stream of bytes that it decodes.
use mathlib.Core.List.{append_assoc}
use mathlib.Core.Path.{subst, subst₂, ap₂}
use picohttpparser_rs.Base.{
  ℕ, zero, suc, ◌+◌, ◌-◌, ◌<◌, ◌≡◌, refl, sym, ◌∙◌, ap, [], ◌++◌, some, Option, arith, length, take,
  drop, ℤ,
}
use picohttpparser_rs.Base.Lists.{drop-length_append, take-length_append}
use picohttpparser_rs.Reference.Chars.{Bytes}
use picohttpparser_rs.Reference.Chunked.Cases.{Ends, Follows, IsReturn}
use picohttpparser_rs.Reference.Chunked.Framing.{switch-Follows}
use picohttpparser_rs.Reference.Chunked.Shows.{
  Shows, length-unread, length-out, length-memmove, memmove-append, take-length,
}
use picohttpparser_rs.Reference.Chunked.Size.{
  decode_loop-again, decode_loop-exit, decode_loop-complete, bufsz-decode_loop,
}
use picohttpparser_rs.Reference.Chunked.Stream.{Trace, Verdict, more, refused, finished, run}
use picohttpparser_rs.Reference.Chunked.{
  Decoded, enter, charge, leave, switch, decode_loop, phr_decode_chunked, to_ssize,
}
use picohttpparser_rs.Reference.Decoder.{
  Decoder, Frame, Flow, again, exit, complete, in_chunk_data, incomplete, invalid, memmove,
}

-- A decoder inside of a chunk's data expects some. So does every decoder that a call leaves.
abbrev pub ExpectsData : Decoder → Type 0
ExpectsData d = d.state ≡ in_chunk_data → 0 < d.bytes_left_in_chunk

-- The return value before the overhead is charged; `left` bytes were not looked at.
abbrev pub return_of : Verdict → ℕ → ℤ
return_of more left = incomplete
return_of refused left = invalid
return_of finished left = to_ssize left

record Leaves (t : Trace) (end : Option (ℤ × Frame)) : Type 0 where
  frame : Frame
  returns : end ≡ some (return_of t.verdict (length t.rest), frame)
  ends : Ends t frame

IsReturn-return_of : (v : Verdict) (ret : ℤ) (n : ℕ) → IsReturn v ret → ret ≡ return_of v n
IsReturn-return_of more ret n h = h
IsReturn-return_of refused ret n h = h
IsReturn-return_of finished ret n h = absurd h

module _ (t : Trace) (r : Frame) (ends : Ends t r) where
  Leaves-exit :
      (ret : ℤ) (end : Option (ℤ × Frame))
      → IsReturn t.verdict ret
      → end ≡ some (ret, r)
      → Leaves t end
  Leaves-exit ret end h e = record {
    frame = r;
    returns = e ∙ ap (λ code. some (code, r)) (IsReturn-return_of t.verdict ret (length t.rest) h);
    ends = ends;
  }

  Leaves-complete :
      (end : Option (ℤ × Frame))
      → t.verdict ≡ finished
      → end ≡ some (to_ssize (r.bufsz - r.src), r)
      → Leaves t end
  Leaves-complete end done e =
      let left : r.bufsz - r.src ≡ length t.rest = omega (arith, length-unread ends.shows) in
      record {
        frame = r;
        returns =
            e
            ∙ ap (λ n. some (to_ssize n, r)) left
            ∙ ap (λ v. some (return_of v (length t.rest), r)) (sym done);
        ends = ends;
      }

-- The fuel is enough, and the loop ends as the stream does.
decode_loop-Leaves :
    (fuel : ℕ) (out s : Bytes) (r : Frame)
    → Shows out s r
    → ExpectsData r.decoder
    → length s < fuel
    → Leaves (run r.decoder out s) (decode_loop fuel r)
decode_loop-Leaves zero out s r h pos le = absurd (omega arith)
decode_loop-Leaves (suc fuel) out s r h pos le =
    after (switch r.decoder.state r) refl
      (switch-Follows fuel r.decoder.state out s r h (omega arith) refl pos)
      (λ out' s' r' h' pos' le'. decode_loop-Leaves fuel out' s' r' h' pos' le')
  where
    after :
        (f : Flow)
        → switch r.decoder.state r ≡ f
        → Follows (run r.decoder out s) fuel f
        → ((out' s' : Bytes) (r' : Frame)
            → Shows out' s' r'
            → ExpectsData r'.decoder
            → length s' < fuel
            → Leaves (run r'.decoder out' s') (decode_loop fuel r'))
        → Leaves (run r.decoder out s) (decode_loop (suc fuel) r)
    after (again r') e c ih =
        subst₂ (λ t end. Leaves t end) c.same_trace (sym (decode_loop-again fuel r r' e))
          (ih c.out c.rest r' c.shows (λ p. absurd (c.not_in_data p)) c.shorter)
    after (exit ret r') e (ends, ret_is) ih =
        Leaves-exit _ r' ends ret _ ret_is (decode_loop-exit fuel r r' ret e)
    after (complete r') e (ends, done) ih =
        Leaves-complete _ r' ends _ done (decode_loop-complete fuel r r' e)

-- A call of phr_decode_chunked on this buffer leaves what the stream `t` says.
pub record Decodes (d : Decoder) (buf : Bytes) (t : Trace) : Type 0 where
  pub result : Decoded
  pub returns : phr_decode_chunked d buf ≡ some result
  pub bufsz_is : result.bufsz ≡ length t.out
  pub decoded : take result.bufsz result.buf ≡ t.out
  pub left_over : take (length t.rest) (drop result.bufsz result.buf) ≡ t.rest
  pub same_length : length result.buf ≡ length buf
  pub charged :
      ◌≡◌ {A = ℤ × Decoder}
        (result.ret, result.decoder)
        (charge (length buf - length t.out) (return_of t.verdict (length t.rest), t.decoder))

enter-Shows : (d : Decoder) (buf : Bytes) → Shows [] buf (enter d buf)
enter-Shows d buf = record {
  kept = refl;
  unread = refl;
  dst_le_src = omega arith;
  src_le_bufsz = omega arith;
  fills = refl;
}

-- The copy at the label Exit puts the unread bytes behind the data.
module _ {out rest : Bytes} {r : Frame} (h : Shows out rest r) where
  exit_copy : memmove (r.bufsz - r.src) r ≡ out ++ (rest ++ drop (r.dst + length rest) r.buf)
  exit_copy =
      let left : r.bufsz - r.src ≡ length rest = omega (arith, length-unread h) in
      rw left (memmove-append (length rest) h ∙ rw (take-length rest, append_assoc))

  take-exit_copy : take r.dst (memmove (r.bufsz - r.src) r) ≡ out
  take-exit_copy = rw (exit_copy, ← length-out h) (take-length_append out _)

  rest-exit_copy : take (length rest) (drop r.dst (memmove (r.bufsz - r.src) r)) ≡ rest
  rest-exit_copy = rw (exit_copy) (
      subst
        (λ k.
          take (length rest) (drop k (out ++ (rest ++ drop (r.dst + length rest) r.buf))) ≡ rest)
        (length-out h)
        (rw (drop-length_append out (rest ++ drop (r.dst + length rest) r.buf))
          (take-length_append rest _)))

  length-exit_copy : length (memmove (r.bufsz - r.src) r) ≡ r.bufsz
  length-exit_copy = length-memmove (r.bufsz - r.src) h (omega (arith, length-unread h))

returns_leave :
    (d : Decoder) (buf : Bytes) (end : ℤ × Frame)
    → decode_loop (length buf + 1) (enter d buf) ≡ some end
    → phr_decode_chunked d buf ≡ some (leave end)
unfolding phr_decode_chunked
returns_leave d buf end e = rw (e, phr_decode_chunked)

leave-charge :
    (wasted : ℕ) (ret : ℤ) (d : Decoder) (r : Frame)
    → r.bufsz - r.dst ≡ wasted
    → r.decoder ≡ d
    → ◌≡◌ {A = ℤ × Decoder}
        ((leave (ret, r)).ret, (leave (ret, r)).decoder)
        (charge wasted (ret, d))
unfolding leave
leave-charge wasted ret d r e f = ap₂ (λ w d'. charge w (ret, d')) e f

-- On any bytes, with a decoder that expects data if it is in CHUNKED_IN_CHUNK_DATA, phr_decode_chunked
-- returns. With its copies inside the buffer, its loops and its fall-through it decodes as the stream
-- of bytes is decoded one at a time: the data stands at the front of the buffer, the bytes not looked
-- at right behind it, `*_bufsz` is the data's length, and the result and the decoder are the stream's
-- with the overhead charged.
pub phr_decode_chunked-Decodes :
    (d : Decoder) (buf : Bytes) → ExpectsData d → Decodes d buf (run (enter d buf).decoder [] buf)
unfolding leave
phr_decode_chunked-Decodes d buf pos =
    let r = enter d buf in
    let l = decode_loop-Leaves (length buf + 1) [] buf r (enter-Shows d buf) pos (omega arith) in
    let h = l.ends.shows in
    let t = run r.decoder [] buf in
    let size : l.frame.bufsz ≡ length buf = bufsz-decode_loop (length buf + 1) r l.returns in
    let kept : l.frame.dst ≡ length t.out = sym (length-out h) in
    record {
      result = leave (return_of t.verdict (length t.rest), l.frame);
      returns = returns_leave d buf _ l.returns;
      bufsz_is = kept;
      decoded = take-exit_copy h;
      left_over = rest-exit_copy h;
      same_length = length-exit_copy h ∙ size;
      charged = leave-charge _ _ _ l.frame (omega (arith, size, kept)) l.ends.same_decoder;
    }
