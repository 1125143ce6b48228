-- ===== src/Fuzz/Work.antt =====
-- The working buffer of scripts/fuzz_parse.c, its random numbers, and the steps that write the buffer.
pub mod Rules
pub mod Trace
use Prim.Native.Nat.{bit_xor}
use picohttpparser_rs.Base.{
  ℕ, zero, suc, ◌+◌, ◌-◌, ◌*◌, ◌/◌, ◌%◌, ◌^◌, [], ◌∷◌, ◌++◌, List, Bool, not, ◌&&◌, ltb, leb, ◌==◌,
  if◌then◌else◌, length, take, drop, get_or, set, replicate,
}
use picohttpparser_rs.Reference.Chars.{Bytes}

-- MAXLEN
abbrev pub max_len : ℕ
max_len = 65536

-- What the library's memcpy writes where its ranges overlap, which C leaves open: from the buffer, the
-- places of the two ranges and an index, the byte at that index of the destination.
abbrev pub Memcpy : Type 0
Memcpy = Bytes → ℕ → ℕ → ℕ → ℕ

-- `xs_state`, and the first `len` bytes of `buf`; the bytes behind them are never read. `overlapped` is
-- the library's, and no step changes it.
pub record Work : Type 0 where
  pub xs_state : ℕ
  pub buf : Bytes
  pub overlapped : Memcpy

-- How a step ends: it returns, it leaves an array or divides by 0, which is undefined in C, or the
-- driver exits.
pub data Out (A : Type 0) : Type 0 where
  done : A → Work → Out A
  undefined : Out A
  exits : Out A

abbrev pub W : Type 0 → Type 0
W A = Work → Out A

abbrev pub and_then : {A B : Type 0} → Out A → (A → W B) → Out B
and_then (done a w) f = f a w
and_then undefined f = undefined
and_then exits f = exits

infixl 5 ◌>>=◌ ◌>>◌
abbrev pub ◌>>=◌ : {A B : Type 0} → W A → (A → W B) → W B
◌>>=◌ m f w = and_then (m w) f

abbrev pub ◌>>◌ : {B : Type 0} → W (Unit {0}) → W B → W B
m >> k = m >>= λ _. k

-- A difference in size_t, which wraps.
abbrev pub minus : ℕ → ℕ → ℕ
minus a b = (a + (2 ^ 64 - b)) % 2 ^ 64

abbrev pub give : {A : Type 0} → A → W A
give a w = done a w

-- A number of 64 bits after `^= x >> k` and after `^= x << k`.
abbrev shift_right : ℕ → ℕ → ℕ
shift_right k x = bit_xor x (x / 2 ^ k)

abbrev shift_left : ℕ → ℕ → ℕ
shift_left k x = bit_xor x (x * 2 ^ k % 2 ^ 64)

unfoldable pub xs_seed : ℕ → ℕ
xs_seed s =
    let x = (s + 0x9E3779B97F4A7C15) % 2 ^ 64 in
    let x1 = shift_right 30 x * 0xBF58476D1CE4E5B9 % 2 ^ 64 in
    let x2 = shift_right 27 x1 * 0x94D049BB133111EB % 2 ^ 64 in shift_right 31 x2

unfoldable pub xs_next : W ℕ
xs_next w =
    let x = shift_right 27 (shift_left 25 (shift_right 12 w.xs_state)) in
    done (x * 0x2545F4914F6CDD1D % 2 ^ 64) (record w { xs_state = x })

-- Nothing is drawn below 0.
unfoldable pub rnd_below : ℕ → W ℕ
rnd_below n = if n == 0 then give 0 else (do x ← xs_next; give (x % n))

abbrev pub interesting : Bytes
interesting =
    0x00 ∷ 0x01 ∷ 0x08 ∷ 0x09 ∷ 0x0a ∷ 0x0b ∷ 0x0d ∷ 0x1a ∷ 0x1f ∷ 0x20 ∷ 0x21 ∷ 0x22 ∷ 0x23 ∷ 0x27
    ∷ 0x28 ∷ 0x29 ∷ 0x2a ∷ 0x2c ∷ 0x2f ∷ 0x3a ∷ 0x3b ∷ 0x3d ∷ 0x5b ∷ 0x5c ∷ 0x5d ∷ 0x5f ∷ 0x60
    ∷ 0x7b ∷ 0x7c ∷ 0x7d ∷ 0x7e ∷ 0x7f ∷ 0x80 ∷ 0x9f ∷ 0xa0 ∷ 0xc3 ∷ 0xff ∷ []

-- `xs[i]`
unfoldable pub element : {A : Type 0} → A → List A → ℕ → W A
element d xs i w = if ltb i (length xs) then done (get_or xs i d) w else undefined

-- The `n` bytes from `start` on of an array of its own.
unfoldable pub bytes_at : Bytes → ℕ → ℕ → W Bytes
bytes_at b start n w =
    if leb (start + n) (length b) then done (take n (drop start b)) w else undefined

unfoldable pub rand_byte : W ℕ
unfolding element
rand_byte = do
  coin ← xs_next
  (if not (coin % 2 == 0)
      then (do i ← rnd_below (length interesting); element 0 interesting i)
      else (do x ← xs_next; give (x % 256)))

abbrev pub len : W ℕ
len w = done (length w.buf) w

-- `b[pos] = v`
unfoldable pub put_byte : ℕ → ℕ → W (Unit {0})
put_byte pos v w =
    if ltb pos (length w.buf) then done tt (record w { buf = set w.buf pos v }) else undefined

-- The bytes from `pos` on move up, and `run` is written before them.
unfoldable pub open_at : ℕ → Bytes → W (Unit {0})
open_at pos run w =
    if leb pos (length w.buf) && leb (length w.buf + length run) max_len
    then done tt (record w { buf = take pos w.buf ++ (run ++ drop pos w.buf) })
    else undefined

-- insert_at with a source outside of the buffer.
unfoldable pub insert_at : ℕ → Bytes → W (Unit {0})
unfolding open_at
insert_at pos src = do
  n ← len
  (if ltb max_len (n + length src) then give tt else open_at (if ltb n pos then n else pos) src)

-- The buffer behind the memmove of insert_at: `n` bytes from `pos` on are not written yet.
abbrev pub moved : ℕ → ℕ → Bytes → Bytes
moved pos n b = take pos b ++ (replicate n 0 ++ drop pos b)

-- The `n` bytes of `f` from the index `i` on.
pub written : (ℕ → ℕ) → ℕ → ℕ → Bytes
written f i zero = []
written f i (suc n) = f i ∷ written f (i + 1) n

-- insert_at with a source of `n` bytes from `start` on inside of the buffer, which is read behind the
-- memmove. Where the two ranges overlap, the memcpy writes `n` bytes that C leaves open.
unfoldable pub insert_own : ℕ → ℕ → ℕ → W (Unit {0})
unfolding open_at written bytes_at
insert_own pos start n = do
  have ← len
  (if ltb max_len (have + n)
      then give tt
      else if ltb pos (start + n) && ltb start (pos + n)
      then (λ w. open_at pos (written (w.overlapped w.buf pos start) 0 n) w)
      else (do src ← (λ w. bytes_at (moved pos n w.buf) start n w); open_at pos src))

-- The bytes from `start` on, `span` of them, are taken out.
unfoldable pub take_out : ℕ → ℕ → W (Unit {0})
take_out start span w =
    if leb (start + span) (length w.buf)
    then done tt (record w { buf = take start w.buf ++ drop (start + span) w.buf })
    else undefined

-- `w->len = n`, with no byte behind the old end in use.
unfoldable pub cut_to : ℕ → W (Unit {0})
cut_to n w = if leb n (length w.buf) then done tt (record w { buf = take n w.buf }) else undefined
