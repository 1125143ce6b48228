-- ===== src/Fuzz/Body.antt =====
-- The generator of scripts/fuzz_chunked.c: its random numbers, and build_body, which cuts a body out of
-- seeds and mutates it. `none` stands for what C leaves undefined: a division by 0, or an access
-- outside of `body`, of the pool or of a seed; and for the exit of a driver without seeds.
pub mod Bounds
pub mod Safety
use Prim.Native.Nat.{bit_xor}
use picohttpparser_rs.Base.{
  ℕ, zero, suc, ◌+◌, ◌-◌, ◌*◌, ◌/◌, ◌%◌, ◌^◌, [], ◌∷◌, ◌++◌, List, Option, none, some, Bool, not,
  ◌&&◌, ltb, leb, ◌==◌, if◌then◌else◌, length, take, drop, get_or, set, codes,
}
use picohttpparser_rs.Reference.Chars.{Bytes}

-- MAX_BODY
abbrev pub max_body : ℕ
max_body = 4096

-- The state of the generator and the first `body_len` bytes of `body`; the bytes behind them are never read.
pub record Gen : Type 0 where
  pub rng_state : ℕ
  pub body : Bytes

abbrev pub G : Type 0 → Type 0
G A = Gen → Option (A × Gen)

abbrev pub and_then : {A B : Type 0} → Option (A × Gen) → (A → G B) → Option (B × Gen)
and_then none f = none
and_then (some (a, g)) f = f a g

infixl 5 ◌>>=◌ ◌>>◌
abbrev pub ◌>>=◌ : {A B : Type 0} → G A → (A → G B) → G B
◌>>=◌ m f g = and_then (m g) f

abbrev pub ◌>>◌ : {B : Type 0} → G (Unit {0}) → G B → G B
m >> k = m >>= λ _. k

abbrev pub give : {A : Type 0} → A → G A
give a g = some (a, g)

-- The xorshift of `rng_state`, a 64-bit number.
unfoldable pub rng_shift : ℕ → ℕ
rng_shift x =
    let x1 = bit_xor x (x / 2 ^ 12) in
    let x2 = bit_xor x1 (x1 * 2 ^ 25 % 2 ^ 64) in bit_xor x2 (x2 / 2 ^ 27)

unfoldable pub rng_next : G ℕ
rng_next g =
    let x = rng_shift g.rng_state in
    some (x * 0x2545F4914F6CDD1D % 2 ^ 64, record g { rng_state = x })

unfoldable pub rng_less : ℕ → G ℕ
rng_less n = do x ← rng_next; (λ g. if n == 0 then none else some (x % n, g))

-- `xs[i]`
unfoldable pub element : Bytes → ℕ → G ℕ
element xs i g = if ltb i (length xs) then some (get_or xs i 0, g) else none

-- The `n` bytes of a seed from `off` on.
unfoldable pub bytes_at : Bytes → ℕ → ℕ → G Bytes
bytes_at xs off n g = if leb (off + n) (length xs) then some (take n (drop off xs), g) else none

-- `body_len = n`, with no byte behind the old end in use.
unfoldable pub cut_to : ℕ → G (Unit {0})
cut_to n g = if leb n (length g.body) then some (tt, record g { body = take n g.body }) else none

abbrev pub interesting_set : Bytes
interesting_set = codes "05afAF;\r\n \tx=," ++ (0 ∷ 0x7f ∷ [])

unfoldable pub interesting_byte : G ℕ
interesting_byte = do i ← rng_less (length interesting_set); element interesting_set i

abbrev pub body_len : G ℕ
body_len g = some (length g.body, g)

-- `body[at] = c`
unfoldable pub put_byte : ℕ → ℕ → G (Unit {0})
put_byte at c g =
    if ltb at (length g.body) then some (tt, record g { body = set g.body at c }) else none

-- The bytes from `at` on move up, and `run` is written before them; `body_len` grows.
unfoldable pub insert : ℕ → Bytes → G (Unit {0})
insert at run g =
    if leb at (length g.body) && leb (length g.body + length run) max_body
    then some (tt, record g { body = take at g.body ++ (run ++ drop at g.body) })
    else none

-- The bytes behind `at` move down.
unfoldable pub delete : ℕ → G (Unit {0})
delete at g =
    if ltb at (length g.body)
    then some (tt, record g { body = take at g.body ++ drop (at + 1) g.body })
    else none

-- `pool[s]`
unfoldable pub seed : List Bytes → ℕ → G Bytes
seed pool s g = if ltb s (length pool) then some (get_or pool s [], g) else none

-- How much of a seed of `len` bytes a window takes, and from where.
abbrev pub window_len : ℕ → ℕ → ℕ
window_len budget len = if ltb budget len then budget else len

unfoldable pub window_off : ℕ → ℕ → G ℕ
window_off budget len =
    if ltb budget len then rng_less (len - window_len budget len + 1) else give 0

-- A window of a seed behind the body, with the bytes that it adds; at `dst = body_len` in the code.
unfoldable pub window_seed_at : List Bytes → ℕ → ℕ → G ℕ
window_seed_at pool s budget = do
  data_bytes ← seed pool s
  let len = window_len budget (length data_bytes)
  off ← window_off budget (length data_bytes)
  dst ← body_len
  window ← bytes_at data_bytes off len
  insert dst window
  give len

-- The window of one seed is the body.
unfoldable pub window_seed : List Bytes → ℕ → G (Unit {0})
window_seed pool s = do
  data_bytes ← seed pool s
  let len = window_len max_body (length data_bytes)
  off ← window_off max_body (length data_bytes)
  window ← bytes_at data_bytes off len
  (λ g. some (tt, record g { body = window }))

-- `body[rng_less(body_len)] = …`; C leaves the order of the two calls open, the index is drawn first here.
unfoldable pub put_random : G ℕ → G (Unit {0})
put_random byte = do len ← body_len; at ← rng_less len; c ← byte; put_byte at c

-- A byte of `width` from `low` on.
abbrev pub byte_from : ℕ → ℕ → G ℕ
byte_from low width = do x ← rng_less width; give (low + x)

abbrev pub one_of : Bytes → G ℕ
one_of choices = do i ← rng_less (length choices); element choices i

-- A coin: `rng_less(2) ? a : b`.
abbrev pub either : ℕ → ℕ → G ℕ
either a b = do x ← rng_less 2; give (if x == 0 then b else a)

abbrev pub hex_digits : Bytes
hex_digits = codes "0123456789abcdef"

abbrev pub upper_digits : Bytes
upper_digits = codes "ABCDEF"

-- The bytes of a run, drawn one by one.
pub hex_run : ℕ → G Bytes
hex_run zero = give []
hex_run (suc n) = do c ← one_of hex_digits; cs ← hex_run n; give (c ∷ cs)

unfoldable pub delete_random : G (Unit {0})
delete_random = do
  len ← body_len
  (if ltb 1 len then (do at ← rng_less len; delete at) else give tt)

unfoldable pub insert_random : G (Unit {0})
insert_random = do
  len ← body_len
  (if ltb len max_body
      then (do at ← rng_less (len + 1); c ← interesting_byte; insert at (c ∷ []))
      else give tt)

-- `run > MAX_BODY - body_len` cuts the run.
unfoldable pub insert_hex_run : G (Unit {0})
unfolding hex_run
insert_hex_run = do
  len ← body_len
  drawn ← rng_less 8
  let run = if ltb (max_body - len) (1 + drawn) then max_body - len else 1 + drawn
  at ← rng_less (len + 1)
  cs ← hex_run run
  insert at cs

unfoldable pub truncate : G (Unit {0})
truncate = do len ← body_len; (if ltb 1 len then (do n ← rng_less len; cut_to (1 + n)) else give tt)

-- A window onto the tail; one byte where the window is empty and the seed is not.
unfoldable pub splice_tail : List Bytes → G (Unit {0})
splice_tail pool = do
  before ← body_len
  (if ltb before max_body
      then (do
        s ← rng_less (length pool)
        added ← window_seed_at pool s (max_body - before)
        len ← body_len
        data_bytes ← seed pool s
        (if len == before && ltb len max_body && ltb 0 (length data_bytes)
            then (do c ← interesting_byte; insert len (c ∷ []))
            else give tt))
      else give tt)

-- The cases of the switch on `rng_less(15)`, from 0 on.
abbrev pub cases : List Bytes → List (G (Unit {0}))
cases pool =
    put_random interesting_byte
    ∷ put_random interesting_byte
    ∷ put_random (byte_from 0x20 0x5f)
    ∷ put_random (byte_from 0 0x20)
    ∷ put_random (byte_from 0x80 0x80)
    ∷ put_random (one_of (hex_digits ++ upper_digits))
    ∷ put_random (give b'\r')
    ∷ put_random (give b'\n')
    ∷ put_random (either b' ' b'\t')
    ∷ put_random (either 0 0x7f)
    ∷ delete_random
    ∷ insert_random
    ∷ insert_hex_run
    ∷ truncate
    ∷ []

unfoldable pub mutation : List Bytes → ℕ → G (Unit {0})
mutation pool op = get_or (cases pool) op (splice_tail pool)

-- One round of the loop: a byte into an empty body, or a mutation.
unfoldable pub mutate : List Bytes → G (Unit {0})
unfolding mutation
mutate pool = do
  len ← body_len
  (if len == 0
      then (do c ← interesting_byte; insert 0 (c ∷ []))
      else (do op ← rng_less 15; mutation pool op))

pub mutate_times : ℕ → List Bytes → G (Unit {0})
mutate_times zero pool = give tt
mutate_times (suc n) pool = do mutate pool; mutate_times n pool

-- 80% one seed's window, 20% two.
unfoldable pub start_body : List Bytes → G (Unit {0})
start_body pool = do
  coin ← rng_less 10
  (if ltb coin 2 && leb 2 (length pool)
      then (do
        a ← rng_less (length pool)
        b ← rng_less (length pool)
        (λ g. some (tt, record g { body = [] }))
        added ← window_seed_at pool a (max_body / 2)
        dst ← body_len
        rest ← window_seed_at pool b (max_body - dst)
        give tt)
      else (do s ← rng_less (length pool); window_seed pool s))

unfoldable pub build_body : List Bytes → G (Unit {0})
unfolding mutate_times
build_body pool = do
  (if length pool == 0 then (λ g. none) else start_body pool)
  more ← rng_less 12
  mutate_times (1 + more) pool
