-- ===== src/Fuzz/DriverTests.antt =====
-- The theorems on scripts/fuzz_parse.c at an input.
use picohttpparser_rs.Base.{
  ◌-◌, ◌<◌, ◌≡◌, ◌↔◌, refl, [], ◌∷◌, List, true, false, none, some, arith, length, take, drop,
  replicate, codes, All, ℤ, pos, negsuc,
}
use picohttpparser_rs.Fuzz.Compare.Exact.{
  SameRequest, SameResponse, SameHeaders, cmp_request-SameRequest, cmp_response-SameResponse,
  cmp_headers-SameHeaders,
}
use picohttpparser_rs.Fuzz.Compare.Counting.{Judged, run_entry-request}
use picohttpparser_rs.Fuzz.Compare.{
  maxh, cmp_request, cmp_response, cmp_headers, c_parse_request, oracle, Library, run_entry,
}
use picohttpparser_rs.Fuzz.Iteration.{no_counts}
use picohttpparser_rs.Fuzz.Seeds.Load.{IsPool, Loads, FailsIn, load_seeds-Loads}
use picohttpparser_rs.Fuzz.Seeds.{File, no_seeds, load_seeds}
use picohttpparser_rs.Fuzz.Work.Rules.{insert_own-behind}
use picohttpparser_rs.Fuzz.Work.Trace.{mt_add, mt_add_bounds}
use picohttpparser_rs.Fuzz.Work.{Work, Memcpy, xs_seed, insert_own, open_at}
use picohttpparser_rs.Reference.Chars.{Bytes}
use picohttpparser_rs.Reference.Output.{Header, HeaderTable, RequestOut, ResponseOut}

abbrev two_heads : List Bytes
two_heads = codes "GET / HTTP/1.1\r\nA: b\r\n\r\n" ∷ codes "GET /x HTTP/1.0\r\n\r\n" ∷ []

abbrev pools : List (List Bytes)
pools = two_heads ∷ [] ∷ (codes "A: b\r\n\r\n" ∷ []) ∷ []

abbrev pools-IsPool : All IsPool pools
pools-IsPool = (
  (omega arith, (omega arith, (omega arith, tt))),
  ((omega arith, tt), ((omega arith, (omega arith, tt)), tt)),
)

-- A memcpy that writes 0 where its ranges overlap.
abbrev zeros : Memcpy
zeros b at start i = 0

abbrev work : Work
work = record { xs_state = xs_seed 1; buf = codes "A: b\r\nC: d\r\n\r\n"; overlapped = zeros }

abbrev filler : Header
filler = record { name = none; value = none }

abbrev table : HeaderTable
table = record { slots = replicate maxh filler; num_headers = 1 }

abbrev request_out : ℤ × RequestOut
request_out =
    (negsuc 1, record { method = none; path = none; minor_version = pos 1; table = table })

abbrev response_out : ℤ × ResponseOut
response_out =
    (pos 3, record { minor_version = pos 1; status = pos 200; msg = none; table = table })

abbrev files : List File
files =
    record {
      path = codes "corpus/request/get.bin";
      opens = true;
      contents = some (codes "GET / HTTP/1.1\r\n\r\n");
      allocated = true;
      read_whole = true;
    }
    ∷ []

load_seeds-Loads_example : Loads (FailsIn files) (load_seeds files no_seeds)
load_seeds-Loads_example = load_seeds-Loads files

insert_own-behind_example : insert_own 0 6 6 work ≡ open_at 0 (take 6 (drop (6 - 6) work.buf)) work
insert_own-behind_example =
    insert_own-behind 0 6 6 work (omega arith) (omega arith) (omega arith) (omega arith)

mt_add_bounds_example :
    (length (mt_add 12 (codes "sub;") (codes "ins(12,0xff)")) < 12)
    × (take (length (codes "sub;")) (mt_add 12 (codes "sub;") (codes "ins(12,0xff)"))
        ≡ codes "sub;")
mt_add_bounds_example = mt_add_bounds 12 (codes "sub;") (codes "ins(12,0xff)") (omega arith)

cmp_request-SameRequest_example :
    (cmp_request request_out request_out ≡ false) ↔ SameRequest request_out request_out
cmp_request-SameRequest_example = cmp_request-SameRequest request_out request_out refl refl

cmp_response-SameResponse_example :
    (cmp_response response_out response_out ≡ false) ↔ SameResponse response_out response_out
cmp_response-SameResponse_example = cmp_response-SameResponse response_out response_out refl refl

cmp_headers-SameHeaders_example :
    (cmp_headers (pos 2, table) (negsuc 0, table) ≡ false)
    ↔ SameHeaders (pos 2, table) (negsuc 0, table)
cmp_headers-SameHeaders_example = cmp_headers-SameHeaders (pos 2, table) (negsuc 0, table) refl refl

-- A library that answers -2 to every request.
abbrev waiting : Library
waiting = record oracle { parse_request = λ s h cap last_len. some request_out }

run_entry-request_example :
    (y : ℤ × RequestOut) × (c_parse_request
        (codes "GET / HTTP/1.1\r\n\r\n")
        (replicate maxh filler)
        16
        9
      ≡ some y)
    × Judged
        (SameRequest request_out y)
        no_counts
        (run_entry waiting filler 0 16 9 (codes "GET / HTTP/1.1\r\n\r\n") no_counts)
run_entry-request_example =
    run_entry-request waiting filler 16 9 (codes "GET / HTTP/1.1\r\n\r\n") no_counts request_out
      (omega arith) (omega arith) refl refl
