-- ===== src/Fuzz/Mutate.antt =====
-- mutate of scripts/fuzz_parse.c, without the text that it adds to the trace.
pub mod Bounds
use picohttpparser_rs.Base.{
  ℕ, zero, suc, ◌+◌, ◌-◌, [], ◌∷◌, List, ltb, ◌==◌, if◌then◌else◌, length, take, drop, get_or,
  codes,
}
use picohttpparser_rs.Fuzz.Work.{
  W, ◌>>=◌, ◌>>◌, give, done, undefined, rnd_below, rand_byte, len, max_len, put_byte, open_at,
  insert_at, insert_own, element, bytes_at, minus, take_out, cut_to,
}
use picohttpparser_rs.Reference.Chars.{Bytes}

-- case 0
unfoldable pub substitute : W (Unit {0})
substitute = do
  n ← len
  (if n == 0 then give tt else (do pos ← rnd_below n; v ← rand_byte; put_byte pos v))

-- case 1
unfoldable pub insert_byte : W (Unit {0})
insert_byte = do n ← len; pos ← rnd_below (n + 1); v ← rand_byte; insert_at pos (v ∷ [])

-- case 2
unfoldable pub delete_span : W (Unit {0})
delete_span = do
  n ← len
  (if n == 0
      then give tt
      else (do start ← rnd_below n; more ← rnd_below (n - start); take_out start (1 + more)))

-- case 3
unfoldable pub truncate : W (Unit {0})
truncate = do n ← len; nl ← rnd_below (n + 1); cut_to nl

-- `pool[selpool][s]`
unfoldable pub seed : List Bytes → ℕ → W Bytes
seed pool s w = if ltb s (length pool) then done (get_or pool s []) w else undefined

-- case 4
unfoldable pub splice : List Bytes → W (Unit {0})
unfolding open_at bytes_at
splice pool = if length pool == 0 then give tt else (do
  n ← len
  s ← rnd_below (length pool)
  other ← seed pool s
  cut ← rnd_below (n + 1)
  oq ← rnd_below (length other + 1)
  let tail = minus (length other) oq
  let avail = minus max_len n
  run ← bytes_at other oq (if ltb avail tail then avail else tail)
  open_at cut run)

-- `while (i < len && b[i] != '\n') i++;` on the bytes from `i` on.
pub find_lf : ℕ → Bytes → ℕ
find_lf i [] = i
find_lf i (c ∷ b) = let next = find_lf (i + 1) b in if c == b'\n' then i else next

-- `while (j > 0 && b[j - 1] != '\n') j--;`
pub line_start : ℕ → Bytes → W ℕ
unfolding element
line_start zero b = give 0
line_start (suc j) b = do c ← element 0 b j; (if c == b'\n' then give (suc j) else line_start j b)

-- The line around `i`, or a small piece where no LF follows: its start and its length.
unfoldable pub pick_line : ℕ → ℕ → Bytes → W (ℕ × ℕ)
unfolding find_lf line_start
pick_line n i b =
    let end = find_lf i (drop i b) in
    if ltb end n then (do start ← line_start end b; give (start, end + 1 - start)) else (do
      start ← rnd_below n
      let most = if ltb n 32 then n else 32
      let maxc = if ltb n (start + most) then n - start else most
      more ← rnd_below maxc
      give (start, 1 + more))

-- case 5
unfoldable pub duplicate : W (Unit {0})
duplicate = do
  n ← len
  (if n == 0 then give tt else (do
    i ← rnd_below n
    (start, dlen) ← (λ w. pick_line n i w.buf w)
    pos ← rnd_below (n + 1)
    insert_own pos start dlen))

abbrev pub snips : List Bytes
snips =
    codes "\r\n\r\n"
    ∷ codes "\r\n"
    ∷ codes "0\r\n"
    ∷ codes " HTTP/1.1"
    ∷ codes ": "
    ∷ codes ";ext"
    ∷ codes "1a\r\n"
    ∷ []

-- case 6
unfoldable pub insert_snippet : W (Unit {0})
unfolding element
insert_snippet = do
  si ← rnd_below (length snips)
  snip ← element [] snips si
  n ← len
  pos ← rnd_below (n + 1)
  insert_at pos snip

-- The switch, which does nothing at another number; `pool` is the selected one.
abbrev pub cases : List Bytes → List (W (Unit {0}))
cases pool =
    substitute
    ∷ insert_byte
    ∷ delete_span
    ∷ truncate
    ∷ splice pool
    ∷ duplicate
    ∷ insert_snippet
    ∷ []

unfoldable pub mutate : List Bytes → W (Unit {0})
mutate pool = do op ← rnd_below 7; get_or (cases pool) op (give tt)

pub mutate_times : ℕ → List Bytes → W (Unit {0})
mutate_times zero pool = give tt
mutate_times (suc n) pool = do mutate pool; mutate_times n pool
