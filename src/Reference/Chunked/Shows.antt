-- ===== src/Reference/Chunked/Shows.antt =====
-- A frame of phr_decode_chunked seen as a stream: the data that it has kept and the bytes that it has
-- not read. The copies inside the buffer never touch an unread byte.
use native.Mathlib.Nat.{le_refl}
use mathlib.Core.List.{append_assoc}
use mathlib.Core.Path.{subst, subst₂, ◌≡⟨◌⟩◌, ◌∎}
use picohttpparser_rs.Base.{
  ℕ, zero, suc, ◌+◌, ◌-◌, ◌≤◌, ◌≡◌, refl, sym, ◌∙◌, ap, [], ◌∷◌, ◌++◌, none, some, ◌==◌, arith,
  length, take, drop, get_or, Bool-cases, inl, inr,
}
use picohttpparser_rs.Base.Lists.{
  drop-add, length-append, length-take, length-drop, take-append-drop, take-length_append,
  drop-length_append,
}
use picohttpparser_rs.Reference.Chars.{Bytes}
use picohttpparser_rs.Reference.Decoder.{Frame, Decoder, memmove, advance, peek, move_data}

pub record Shows (out s : Bytes) (r : Frame) : Type 0 where
  pub kept : take r.dst r.buf ≡ out
  pub unread : drop r.src r.buf ≡ s
  pub dst_le_src : r.dst ≤ r.src
  pub src_le_bufsz : r.src ≤ r.bufsz
  pub fills : length r.buf ≡ r.bufsz

get_or-drop : (n : ℕ) (xs : Bytes) {c : ℕ} {s : Bytes} → drop n xs ≡ c ∷ s → get_or xs n 0 ≡ c
get_or-drop zero [] h = cc
get_or-drop zero (x ∷ xs) h = cc
get_or-drop (suc n) [] h = cc
get_or-drop (suc n) (x ∷ xs) h = get_or-drop n xs h

pub length-unread : {out s : Bytes} {r : Frame} → Shows out s r → length s + r.src ≡ r.bufsz
length-unread {out} {s} {r} h = omega (arith, ap length h.unread, length-drop r.src r.buf, h)

pub peek-nil : {out : Bytes} {r : Frame} → Shows out [] r → peek r ≡ none
unfolding peek
peek-nil h = ground (arith, length-unread h)

pub peek-cons : {out s : Bytes} {c : ℕ} {r : Frame} → Shows out (c ∷ s) r → peek r ≡ some c
unfolding peek
peek-cons {r = r} h = ground (arith, length-unread h, get_or-drop r.src r.buf h.unread)

pub get_or-Shows :
    {out s : Bytes} {c : ℕ} {r : Frame} → Shows out (c ∷ s) r → get_or r.buf r.src 0 ≡ c
get_or-Shows {r = r} h = get_or-drop r.src r.buf h.unread

pub Shows-decoder :
    {out s : Bytes} {r : Frame} (d : Decoder)
    → Shows out s r
    → Shows out s (record r { decoder = d })
Shows-decoder d h = record {
  kept = h.kept;
  unread = h.unread;
  dst_le_src = h.dst_le_src;
  src_le_bufsz = h.src_le_bufsz;
  fills = h.fills;
}

pub Shows-advance :
    {out s : Bytes} {c : ℕ} {r : Frame} → Shows out (c ∷ s) r → Shows out s (advance r)
Shows-advance {r = r} h = record {
  kept = h.kept;
  unread = drop-add r.src 1 r.buf ∙ ap (drop 1) h.unread;
  dst_le_src = omega arith;
  src_le_bufsz = omega (arith, length-unread h);
  fills = h.fills;
}

split_three : (m n : ℕ) (xs : Bytes) → take m xs ++ (take n (drop m xs) ++ drop (m + n) xs) ≡ xs
split_three m n xs = rw (drop-add m n xs, take-append-drop n (drop m xs)) (take-append-drop m xs)

-- The copy down to `dst`.
pub memmove-append :
    {out s : Bytes} {r : Frame} (n : ℕ)
    → Shows out s r
    → memmove n r ≡ (out ++ take n s) ++ drop (r.dst + n) r.buf
unfolding memmove
memmove-append {out} {s} {r} n h = elim (Bool-cases (r.dst == r.src)) [
  | inl same ↦
      rw (same, append_assoc)
        (let here : r.dst ≡ r.src = ground arith in
          cc (split_three r.dst n r.buf, h.kept, h.unread, here))
  | inr moved ↦ rw moved (rw (h.kept, h.unread, append_assoc))
]

pub length-out : {out s : Bytes} {r : Frame} → Shows out s r → length out ≡ r.dst
length-out {r = r} h = omega (arith, ap length h.kept, length-take r.dst r.buf, h)

module _ {out s : Bytes} {r : Frame} (n : ℕ) (h : Shows out s r) (le : n ≤ length s) where
  length-kept : length (out ++ take n s) ≡ r.dst + n
  length-kept = omega (arith, length-append out (take n s), length-take n s, length-out h)

  pub take-memmove : take (r.dst + n) (memmove n r) ≡ out ++ take n s
  take-memmove = rw (memmove-append n h, ← length-kept) (take-length_append (out ++ take n s) _)

  pub drop-memmove : drop (r.dst + n) (memmove n r) ≡ drop (r.dst + n) r.buf
  drop-memmove = rw (memmove-append n h) (
      subst (λ k. drop k ((out ++ take n s) ++ drop (r.dst + n) r.buf) ≡ drop (r.dst + n) r.buf)
        length-kept (drop-length_append (out ++ take n s) _))

  unread-memmove : drop (r.src + n) (memmove n r) ≡ drop n s
  unread-memmove =
      let gap : r.src + n ≡ (r.dst + n) + (r.src - r.dst) = omega (arith, h) in
      drop (r.src + n) (memmove n r)
      ≡⟨ ap (λ k. drop k (memmove n r)) gap ∙ drop-add (r.dst + n) (r.src - r.dst) (memmove n r) ⟩
        drop (r.src - r.dst) (drop (r.dst + n) (memmove n r))
      ≡⟨ ap (drop (r.src - r.dst)) drop-memmove ⟩ drop (r.src - r.dst) (drop (r.dst + n) r.buf)
      ≡⟨ sym (ap (λ k. drop k r.buf) gap ∙ drop-add (r.dst + n) (r.src - r.dst) r.buf) ⟩
        drop (r.src + n) r.buf
      ≡⟨ drop-add r.src n r.buf ∙ ap (drop n) h.unread ⟩ drop n s ∎

  pub length-memmove : length (memmove n r) ≡ r.bufsz
  length-memmove = omega (
    arith,
    ap length (memmove-append n h),
    length-append (out ++ take n s) (drop (r.dst + n) r.buf),
    length-kept,
    length-drop (r.dst + n) r.buf,
    length-unread h,
    h,
  )

  pub Shows-move_data : Shows (out ++ take n s) (drop n s) (move_data n r)
  unfolding move_data
  Shows-move_data = record {
    kept = take-memmove;
    unread = unread-memmove;
    dst_le_src = omega (arith, h);
    src_le_bufsz = omega (arith, length-unread h);
    fills = length-memmove;
  }

pub take-length : (xs : Bytes) → take (length xs) xs ≡ xs
take-length [] = refl
take-length (x ∷ xs) = ap (◌∷◌ x) (take-length xs)

drop-length : (xs : Bytes) → drop (length xs) xs ≡ []
drop-length [] = refl
drop-length (x ∷ xs) = drop-length xs

pub Shows-move_data_all :
    {out s : Bytes} {r : Frame} → Shows out s r → Shows (out ++ s) [] (move_data (length s) r)
Shows-move_data_all {out} {s} {r} h =
    subst₂ (λ a b. Shows (out ++ a) b (move_data (length s) r)) (take-length s) (drop-length s)
      (Shows-move_data (length s) h (le_refl _))
