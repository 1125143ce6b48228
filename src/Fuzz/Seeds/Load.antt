-- ===== src/Fuzz/Seeds/Load.antt =====
-- The pools that load_seeds of scripts/fuzz_parse.c fills.
use picohttpparser_rs.Base.{
  ℕ, zero, suc, false, ◌+◌, ◌≤◌, ◌<◌, ◌≡◌, refl, ◌∙◌, [], ◌∷◌, ◌++◌, List, not, ◌&&◌, ◌||◌, Option,
  none, some, ltb, leb, arith, Bool-cases, inl, inr, length, get_or, set, All, codes,
}
use picohttpparser_rs.Base.Lists.{length-append, length-set, All-get_or, All-set, All-append}
use picohttpparser_rs.Fuzz.Seeds.{
  max_seeds, File, Seeds, no_seeds, strstr, classify, add_seed, store_seed, read_seed, load_seed,
  load_seeds,
}
use picohttpparser_rs.Fuzz.Work.{max_len}
use picohttpparser_rs.Reference.Chars.{Bytes}

abbrev pub total : List (List Bytes) → ℕ
total [] = 0
total (p ∷ pools) = length p + total pools

abbrev pub FitsSeed : Bytes → Type 0
FitsSeed s = length s ≤ max_len

-- A pool of at most MAXSEEDS seeds, each of at most MAXLEN bytes.
abbrev pub IsPool : List Bytes → Type 0
IsPool p = (length p ≤ max_seeds) × All FitsSeed p

-- Three such pools, with `loaded` seeds in all.
abbrev pub IsLoaded : Seeds → Type 0
IsLoaded l = (length l.pools ≡ 3) × (total l.pools ≡ l.loaded) × All IsPool l.pools

-- A seed file for which load_seeds stops: it cannot be opened, or there is no memory for its bytes, or
-- it has bytes that are not all read.
pub data Fails (f : File) : Type 0 where
  not_opened : f.opens ≡ false → Fails f
  no_memory : f.allocated ≡ false → Fails f
  not_read :
      {bytes : Bytes} → f.contents ≡ some bytes → 0 < length bytes → f.read_whole ≡ false → Fails f

-- What load_seeds returns: -1 for the reason E, or its pools.
pub data Loads (E : Type 0) : Option Seeds → Type 0 where
  refused : E → Loads E none
  loads : {l : Seeds} → IsLoaded l → Loads E (some l)

-- One of the files fails.
pub data FailsIn : List File → Type 0 where
  first : {f : File} {files : List File} → Fails f → FailsIn (f ∷ files)
  later : {f : File} {files : List File} → FailsIn files → FailsIn (f ∷ files)

total-set :
    (pools : List (List Bytes)) (i : ℕ) (s : Bytes)
    → i < length pools
    → total (set pools i (get_or pools i [] ++ (s ∷ []))) ≡ total pools + 1
total-set [] i s h = absurd (omega arith)
total-set (p ∷ pools) zero s h = omega (arith, length-append p (s ∷ []))
total-set (p ∷ pools) (suc i) s h = omega (arith, total-set pools i s (omega arith))

abbrev Below3 : Option ℕ → Type 0
Below3 none = Unit {0}
Below3 (some k) = k < 3

classify-Below3 : (path : Bytes) → Below3 (classify path)
unfolding classify
classify-Below3 path =
    elim (Bool-cases (strstr path (codes "/request/") || strstr path (codes "\\request\\"))) [
      | inl request ↦ rw request (omega arith)
      | inr r ↦
          elim (Bool-cases
            (strstr path (codes "/response/") || strstr path (codes "\\response\\"))) [
              | inl response ↦ rw (r, response) (omega arith)
              | inr s ↦
                  elim (Bool-cases
                    (strstr path (codes "/headers/") || strstr path (codes "\\headers\\"))) [
                      | inl headers ↦ rw (r, s, headers) (omega arith)
                      | inr t ↦ rw (r, s, t) tt
                    ]
            ]
    ]

add_seed-IsLoaded :
    (kind : ℕ) (bytes : Bytes) (l : Seeds)
    → kind < 3
    → length bytes ≤ max_len
    → length (get_or l.pools kind []) < max_seeds
    → IsLoaded l
    → IsLoaded (add_seed kind bytes l)
add_seed-IsLoaded kind bytes l lt fits room (three, sum, pools) =
    let old : IsPool (get_or l.pools kind []) =
      All-get_or IsPool l.pools kind [] pools (omega arith, tt) in
    (
      length-set l.pools kind _ ∙ three,
      omega (arith, total-set l.pools kind bytes (omega arith)),
      All-set IsPool l.pools kind _ pools (
        omega (arith, length-append (get_or l.pools kind []) (bytes ∷ [])),
        All-append FitsSeed (get_or l.pools kind []) (bytes ∷ []) old.1 (fits, tt),
      ),
    )

store_seed-Loads :
    (f : File) (bytes : Bytes) (kind : Option ℕ) (l : Seeds)
    → Below3 kind
    → length bytes ≤ max_len
    → IsLoaded l
    → f.contents ≡ some bytes
    → Loads (Fails f) (store_seed f bytes kind l)
unfolding store_seed
store_seed-Loads f bytes none l lt fits h e = loads h
store_seed-Loads f bytes (some k) l lt fits h e =
    elim (Bool-cases (leb max_seeds (length (get_or l.pools k [])))) [
      | inl full ↦ rw full (loads h)
      | inr room ↦ elim (Bool-cases (not f.allocated)) [
        | inl full_memory ↦ rw (room, full_memory) (refused (no_memory (ground arith)))
        | inr memory ↦ elim (Bool-cases (ltb 0 (length bytes) && not f.read_whole)) [
          | inl short ↦
              rw (room, memory, short) (refused (not_read e (ground arith) (ground arith)))
          | inr whole ↦
              rw (room, memory, whole)
                (loads (add_seed-IsLoaded k bytes l lt fits (ground arith) h))
        ]
      ]
    ]

read_seed-Loads :
    (f : File) (contents : Option Bytes) (l : Seeds)
    → IsLoaded l
    → f.contents ≡ contents
    → Loads (Fails f) (read_seed f contents l)
unfolding read_seed
read_seed-Loads f none l h e = loads h
read_seed-Loads f (some bytes) l h e = elim (Bool-cases (ltb max_len (length bytes))) [
  | inl long ↦ rw long (loads h)
  | inr fits ↦
      rw fits
        (store_seed-Loads f bytes (classify f.path) l (classify-Below3 f.path) (ground arith) h e)
]

load_seed-Loads : (f : File) (l : Seeds) → IsLoaded l → Loads (Fails f) (load_seed f l)
unfolding load_seed
load_seed-Loads f l h = elim (Bool-cases (not f.opens)) [
  | inl closed ↦ rw closed (refused (not_opened (ground arith)))
  | inr opened ↦ rw opened (read_seed-Loads f f.contents l h refl)
]

Loads-later :
    {f : File} {files : List File} {o : Option Seeds}
    → Loads (FailsIn files) o
    → Loads (FailsIn (f ∷ files)) o
Loads-later (refused e) = refused (later e)
Loads-later (loads h) = loads h

next-Loads :
    (f : File) (files : List File) (o : Option Seeds)
    → ((l : Seeds) → IsLoaded l → Loads (FailsIn files) (load_seeds files l))
    → Loads (Fails f) o
    → Loads (FailsIn (f ∷ files)) (elim o [ none ↦ none | some l' ↦ load_seeds files l' ])
next-Loads f files none k (refused e) = refused (first e)
next-Loads f files (some l) k (loads h) = Loads-later (k l h)

load_seeds-Loads_from :
    (files : List File) (l : Seeds) → IsLoaded l → Loads (FailsIn files) (load_seeds files l)
unfolding load_seeds
load_seeds-Loads_from [] l h = loads h
load_seeds-Loads_from (f ∷ files) l h =
    next-Loads f files (load_seed f l) (load_seeds-Loads_from files) (load_seed-Loads f l h)

-- load_seeds fills three pools of at most MAXSEEDS seeds, each of at most MAXLEN bytes, and returns the
-- number of the seeds in them, whatever the files are; it returns -1 only where a file cannot be opened
-- or not be read whole, or there is no memory for it.
pub load_seeds-Loads : (files : List File) → Loads (FailsIn files) (load_seeds files no_seeds)
load_seeds-Loads files =
    load_seeds-Loads_from files no_seeds
      (refl, refl, ((omega arith, tt), ((omega arith, tt), ((omega arith, tt), tt))))
