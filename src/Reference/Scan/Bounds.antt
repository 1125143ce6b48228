-- ===== src/Reference/Scan/Bounds.antt =====
-- The scanners of reference/picohttpparser.c stay inside the buffer.
use picohttpparser_rs.Base.{
  ℕ, zero, suc, ◌+◌, ◌-◌, ◌≤◌, ◌<◌, ◌≡◌, refl, [], ◌∷◌, Bool, true, false, Res, ok, err, partial,
  malformed, fault, stuck, arith, length, drop, ltb, Bool-cases, inl, inr,
}
use picohttpparser_rs.Base.Lists.{length-drop}
use picohttpparser_rs.Reference.Chars.{Bytes, Cursor, Slice, expect_char}
use picohttpparser_rs.Reference.Scan.{
  advance_loop, advance_token, doit, hot_loop, eol_loop, found_ctl, get_token_to_eol, complete_loop,
  is_complete, after_doit, non_printable, token_loop, parse_token, parse_http_version,
}

-- The code gets at this result with no read outside of the buffer, and its cursor stands `least`
-- bytes or more behind `n`, in the same buffer.
abbrev pub Moves : ℕ → ℕ → Bytes → Res Cursor → Type 0
Moves least n s (ok b) = (n + least ≤ b.at) × (b.at + length b.rest ≡ n + length s)
Moves least n s (err partial) = Unit
Moves least n s (err malformed) = Unit
Moves least n s (err fault) = ⊥
Moves least n s (err stuck) = ⊥

-- So too for a token, which begins at `n` and ends before the cursor.
abbrev pub Scans : ℕ → ℕ → Bytes → Res (Slice × Cursor) → Type 0
Scans least n s (ok (t, b)) =
    (t.start ≡ n) × (t.len + n + least ≤ b.at) × (b.at + length b.rest ≡ n + length s)
Scans least n s (err partial) = Unit
Scans least n s (err malformed) = Unit
Scans least n s (err fault) = ⊥
Scans least n s (err stuck) = ⊥

pub expect_char-Moves : (ch n : ℕ) (s : Bytes) → Moves 1 n s (expect_char ch n s)
unfolding expect_char
expect_char-Moves ch n [] = tt
expect_char-Moves ch n (c ∷ s) = ground arith

pub token_loop-Moves : (ch n c : ℕ) (s : Bytes) → Moves 0 n (c ∷ s) (token_loop ch n (c ∷ s))
unfolding token_loop
token_loop-Moves ch n c [] = ground arith
token_loop-Moves ch n c (d ∷ s) = ground (arith, token_loop-Moves ch (n + 1) d s)

pub parse_token-Scans : (ch n : ℕ) (s : Bytes) → Scans 0 n s (parse_token ch n s)
unfolding parse_token
parse_token-Scans ch n [] = tt
parse_token-Scans ch n (c ∷ s) = ground (arith, token_loop-Moves ch n c s)

pub advance_loop-Moves : (n c : ℕ) (s : Bytes) → Moves 0 n (c ∷ s) (advance_loop n (c ∷ s))
unfolding advance_loop
advance_loop-Moves n c [] = ground arith
advance_loop-Moves n c (d ∷ s) = ground (arith, advance_loop-Moves (n + 1) d s)

pub advance_token-Scans : (n : ℕ) (s : Bytes) → Scans 0 n s (advance_token n s)
unfolding advance_token
advance_token-Scans n [] = tt
advance_token-Scans n (c ∷ s) = ground (arith, advance_loop-Moves n c s)

-- Such a result has a byte to read at its cursor.
abbrev pub Stops : Res Cursor → Type 0
Stops (ok b) = 0 < length b.rest
Stops (err e) = Unit

-- A token's end is a byte to read.
abbrev pub StopsAt : Res (Slice × Cursor) → Type 0
StopsAt (ok (t, b)) = 0 < length b.rest
StopsAt (err e) = Unit

token_loop-Stops : (ch n : ℕ) (s : Bytes) → Stops (token_loop ch n s)
unfolding token_loop
token_loop-Stops ch n [] = tt
token_loop-Stops ch n (c ∷ []) = ground arith
token_loop-Stops ch n (c ∷ d ∷ s) = ground (arith, token_loop-Stops ch (n + 1) (d ∷ s))

pub parse_token-StopsAt : (ch n : ℕ) (s : Bytes) → StopsAt (parse_token ch n s)
unfolding parse_token
parse_token-StopsAt ch n [] = tt
parse_token-StopsAt ch n (c ∷ s) = ground (arith, token_loop-Stops ch n (c ∷ s))

advance_loop-Stops : (n : ℕ) (s : Bytes) → Stops (advance_loop n s)
unfolding advance_loop
advance_loop-Stops n [] = tt
advance_loop-Stops n (c ∷ []) = ground arith
advance_loop-Stops n (c ∷ d ∷ s) = ground (arith, advance_loop-Stops (n + 1) (d ∷ s))

pub advance_token-StopsAt : (n : ℕ) (s : Bytes) → StopsAt (advance_token n s)
unfolding advance_token
advance_token-StopsAt n [] = tt
advance_token-StopsAt n (c ∷ s) = ground (arith, advance_loop-Stops n (c ∷ s))

-- `k` rounds of DOIT() in a buffer of `k` bytes or more.
abbrev pub Looks : ℕ → ℕ → Bytes → Res (Bool × Cursor) → Type 0
Looks k n s (ok (true, b)) = (b.at ≡ n + k) × (b.at + length b.rest ≡ n + length s)
Looks k n s (ok (false, b)) =
    (n ≤ b.at) × (0 < length b.rest) × (b.at + length b.rest ≡ n + length s)
Looks k n s (err e) = ⊥

pub doit-Looks : (k n : ℕ) (s : Bytes) → k ≤ length s → Looks k n s (doit k n s)
unfolding doit
doit-Looks zero n s h = ground arith
doit-Looks (suc k) n [] h = absurd (omega arith)
doit-Looks (suc k) n (c ∷ s) h = ground (arith, doit-Looks k (n + 1) s)

-- The hot loop ends in the buffer; behind the jump to FOUND_CTL there is a byte to read.
abbrev pub Finds : ℕ → Bytes → Res (Bool × Cursor) → Type 0
Finds n s (ok (found, b)) = (n ≤ b.at) × (b.at + length b.rest ≡ n + length s)
Finds n s (err e) = ⊥

abbrev pub Ready : Res (Bool × Cursor) → Type 0
Ready (ok (true, b)) = 0 < length b.rest
Ready (ok (false, b)) = Unit
Ready (err e) = Unit

after_doit-Finds :
    (n k : ℕ) (s : Bytes) (again : ℕ → Bytes → Res (Bool × Cursor))
    → ((m : ℕ) (t : Bytes) → length t < length s → Finds m t (again m t) × Ready (again m t))
    → (r : Res (Bool × Cursor)) → Looks (suc k) n s r
    → Finds n s (after_doit again r) × Ready (after_doit again r)
unfolding after_doit
after_doit-Finds n k s again ih (ok (true, b)) l = ground (arith, ih b.at b.rest)
after_doit-Finds n k s again ih (ok (false, b)) l = not_clean b.rest refl
  where
    not_clean :
        (t : Bytes)
        → b.rest ≡ t
        → Finds n s (non_printable t b (again (b.at + 1) (drop 1 t)))
          × Ready (non_printable t b (again (b.at + 1) (drop 1 t)))
    not_clean [] e = absurd (ground arith)
    not_clean (c ∷ t) e = ground (arith, ih (b.at + 1) t)
after_doit-Finds n k s again ih (err e) l = absurd l

pub hot_loop-Finds :
    (fuel n : ℕ) (s : Bytes)
    → length s < fuel
    → Finds n s (hot_loop fuel n s) × Ready (hot_loop fuel n s)
unfolding hot_loop
hot_loop-Finds zero n s h = absurd (omega arith)
hot_loop-Finds (suc fuel) n s h = elim (Bool-cases (ltb (length s) 8)) [
  | inl short ↦ rw (short, Finds, Ready) (ground arith)
  | inr long ↦
      rw (long, Finds, Ready)
        (after_doit-Finds n 7 s (hot_loop fuel) (λ m t l. hot_loop-Finds fuel m t (omega arith)) _
          (doit-Looks 8 n s (ground arith)))
]

pub eol_loop-Moves : (n : ℕ) (s : Bytes) → Moves 0 n s (eol_loop n s) × Stops (eol_loop n s)
unfolding eol_loop
eol_loop-Moves n [] = ground arith
eol_loop-Moves n (c ∷ s) = ground (arith, eol_loop-Moves (n + 1) s)

abbrev Lines : ℕ → ℕ → Bytes → Res (Slice × Cursor) → Type 0
Lines start n s (ok (t, b)) =
    (t.start ≡ start) × (t.len + start + 1 ≤ b.at) × (b.at + length b.rest ≡ n + length s)
Lines start n s (err partial) = Unit
Lines start n s (err malformed) = Unit
Lines start n s (err fault) = ⊥
Lines start n s (err stuck) = ⊥

found_ctl-Lines :
    (start n : ℕ) (s : Bytes) → start ≤ n → 0 < length s → Lines start n s (found_ctl start n s)
unfolding found_ctl
found_ctl-Lines start n [] h l = absurd (omega arith)
found_ctl-Lines start n (c ∷ s) h l = ground (arith, expect_char-Moves b'\n' (n + 1) s)

pub get_token_to_eol-Scans : (n : ℕ) (s : Bytes) → Scans 1 n s (get_token_to_eol n s)
unfolding get_token_to_eol
get_token_to_eol-Scans n s =
    grind (arith, hot_loop-Finds (length s + 1) n s, eol_loop-Moves, found_ctl-Lines)

complete_loop-Moves : (k n : ℕ) (s : Bytes) → Moves 0 n s (complete_loop k n s)
unfolding complete_loop
complete_loop-Moves k n [] = tt
complete_loop-Moves k n (c ∷ []) = ground arith
complete_loop-Moves k n (c ∷ d ∷ s) = ground (
  arith,
  complete_loop-Moves (k + 1) (n + 2) s,
  complete_loop-Moves (k + 1) (n + 1) (d ∷ s),
  complete_loop-Moves 0 (n + 1) (d ∷ s),
)

-- The scan from `last_len - 3` stays in the buffer if that offset does.
pub is_complete-Moves :
    (s : Bytes) (last_len : ℕ) → last_len ≤ length s + 3 → Moves 0 0 s (is_complete s last_len)
unfolding is_complete
is_complete-Moves s last_len h = ground (
  arith,
  length-drop (last_len - 3) s,
  complete_loop-Moves 0 (last_len - 3) (drop (last_len - 3) s),
)

-- A version takes eight bytes and leaves at least one.
abbrev pub Versions : ℕ → Bytes → Res (ℕ × Cursor) → Type 0
Versions n s (ok (v, b)) =
    (v ≤ 9) × (b.at ≡ n + 8) × (0 < length b.rest) × (b.at + length b.rest ≡ n + length s)
Versions n s (err partial) = Unit
Versions n s (err malformed) = Unit
Versions n s (err fault) = ⊥
Versions n s (err stuck) = ⊥

pub parse_http_version-Versions : (n : ℕ) (s : Bytes) → Versions n s (parse_http_version n s)
unfolding parse_http_version
parse_http_version-Versions n (a ∷ b ∷ c ∷ d ∷ e ∷ f ∷ g ∷ h ∷ i ∷ s) = ground arith
parse_http_version-Versions n _ = ground arith
