-- ===== src/Fuzz/Seeds.antt =====
-- classify and load_seeds of scripts/fuzz_parse.c, with what the system's calls give for a path as an
-- argument.
pub mod Load
use picohttpparser_rs.Base.{
  ℕ, zero, suc, ◌+◌, [], ◌∷◌, ◌++◌, List, Bool, true, false, not, ◌&&◌, ◌||◌, Option, none, some,
  ltb, leb, ◌==◌, if◌then◌else◌, length, get_or, set, codes,
}
use picohttpparser_rs.Fuzz.Work.{max_len}
use picohttpparser_rs.Reference.Chars.{Bytes}

-- MAXSEEDS
abbrev pub max_seeds : ℕ
max_seeds = 512

-- What fopen, ftell, malloc and fread give for a path: `contents` is `none` where ftell fails.
pub record File : Type 0 where
  pub path : Bytes
  pub opens : Bool
  pub contents : Option Bytes
  pub allocated : Bool
  pub read_whole : Bool

-- `pool`, without the names, with `pool_n` as the lengths; and `loaded`.
pub record Seeds : Type 0 where
  pub pools : List (List Bytes)
  pub loaded : ℕ

abbrev pub no_seeds : Seeds
no_seeds = record { pools = [] ∷ [] ∷ [] ∷ []; loaded = 0 }

begins : Bytes → Bytes → Bool
begins [] s = true
begins (n ∷ needle) [] = false
begins (n ∷ needle) (c ∷ s) = n == c && begins needle s

-- `strstr(s, needle) != NULL`
pub strstr : Bytes → Bytes → Bool
unfolding begins
strstr [] needle = begins needle []
strstr (c ∷ s) needle = begins needle (c ∷ s) || strstr s needle

unfoldable pub classify : Bytes → Option ℕ
unfolding strstr
classify path =
    if strstr path (codes "/request/") || strstr path (codes "\\request\\")
    then some 0
    else if strstr path (codes "/response/") || strstr path (codes "\\response\\")
    then some 1
    else if strstr path (codes "/headers/") || strstr path (codes "\\headers\\")
    then some 2
    else none

-- The seed at the end of its pool.
abbrev pub add_seed : ℕ → Bytes → Seeds → Seeds
add_seed kind bytes l = record {
  pools = set l.pools kind (get_or l.pools kind [] ++ (bytes ∷ []));
  loaded = l.loaded + 1;
}

-- From the call of classify on.
unfoldable pub store_seed : File → Bytes → Option ℕ → Seeds → Option Seeds
store_seed f bytes none l = some l
store_seed f bytes (some kind) l =
    if leb max_seeds (length (get_or l.pools kind []))
    then some l
    else if not f.allocated
    then none
    else if ltb 0 (length bytes) && not f.read_whole
    then none
    else some (add_seed kind bytes l)

-- From the length's test on.
unfoldable pub read_seed : File → Option Bytes → Seeds → Option Seeds
unfolding classify store_seed
read_seed f none l = some l
read_seed f (some bytes) l =
    if ltb max_len (length bytes) then some l else store_seed f bytes (classify f.path) l

-- One round of the loop: `none` where load_seeds returns -1.
unfoldable pub load_seed : File → Seeds → Option Seeds
unfolding read_seed
load_seed f l = if not f.opens then none else read_seed f f.contents l

pub load_seeds : List File → Seeds → Option Seeds
load_seeds [] l = some l
load_seeds (f ∷ files) l = elim (load_seed f l) [ none ↦ none | some l' ↦ load_seeds files l' ]
