-- ===== src/Lib.antt =====
-- picohttpparser: reference/picohttpparser.c and reference/picohttpparser.h, the C parser that this
-- repository pins as the oracle of its Rust port; and three programs of scripts/ around it:
-- fuzz_chunked.c and fuzz_parse.c, which draw the inputs that the two are compared on, and
-- integ_http11.c, which sends a request and an answer over a connection.
--
-- Parts. phr_parse_request, phr_parse_response and phr_parse_headers read a buffer and write slices
-- of it through their pointer arguments; all three go through is_complete (when `last_len` is not 0)
-- and parse_headers, and those through the scanners parse_token, get_token_to_eol, ADVANCE_TOKEN and
-- parse_http_version. phr_decode_chunked rewrites a buffer in place and keeps its state in a
-- phr_chunked_decoder from call to call. fuzz_chunked.c builds a body out of seeds, mutates it, and
-- plans the calls of phr_decode_chunked that it is handed to. fuzz_parse.c loads seeds, mutates one in a
-- work buffer, calls a parser of both libraries on it and compares all outputs. integ_http11.c reads a
-- head from a connection into a buffer, calling the parser on all bytes so far with the number of those
-- of the call before as `last_len`, and gives what comes behind it to phr_decode_chunked.
--
-- Files.
--   Base                 shared names, Boolean tests, lists, results (`partial` is -2, `malformed` -1)
--   Reference/Chars      characters, token_char_map, the macros CHECK_EOF and EXPECT_CHAR
--   Reference/Scan       the scanners; Scan/Bounds (where they read and stop), Scan/Hot (the unrolled
--                        loop and the plain one), Scan/Breaks, Scan/Extend (more bytes behind)
--   Reference/Output     the caller's memory: outputs, header table, the actions that write it
--   Reference/Headers    parse_headers and phr_parse_headers
--   Reference/Request    parse_request and phr_parse_request
--   Reference/Response   parse_response and phr_parse_response
--   Reference/Decoder    struct phr_chunked_decoder, decode_hex, a call's local variables
--   Reference/Ate, Scan/Ate, Headers/Ate   the bytes that a parser steps over on the way to a value;
--                        Scan/Complete, Request/Resume and Response/Resume are about `last_len`, and
--                        Reference/Waits about a buffer that is cut off
--   Reference/Ensures, Reference/Agrees   what an action of the parsers ends with, and two runs of which
--                        the second has more bytes behind the first one's
--   Headers/Bounds, Request/Bounds, Response/Bounds   what is read and written, and what the outputs
--                        hold; Headers/Table, Slot, Steps, Value and Line are for a round of the loop
--   Headers/Extend, Request/Extend, Response/Extend   a buffer with more bytes behind
--   Reference/Chunked    phr_decode_chunked; Chunked/Stream is what it promises of a stream of bytes,
--                        and Chunked/Refines compares the code with it (by Shows, Data, Cases,
--                        Framing and Size); Chunked/Valid
--                        (the decoder's invariant), Chunked/Split (a stream in two pieces),
--                        Chunked/Pieces (in any number of pieces),
--                        Chunked/Printed, Chunked/Chunks and Chunked/RoundTrip (what a sender writes)
--   Fuzz/Body            build_body of scripts/fuzz_chunked.c with its random numbers; Fuzz/Body/Bounds and
--                        Fuzz/Body/Safety are about its arrays
--   Fuzz/Pieces          the decoder and the pieces of the body that an iteration's calls are given
--   Fuzz/Work            the work buffer of scripts/fuzz_parse.c, its random numbers, insert_at and mt_add
--   Fuzz/Mutate          mutate, with a function for each case of its switch
--   Fuzz/Compare         slots_equal, cmp_request, cmp_response, cmp_headers and run_entry
--   Fuzz/Seeds           classify and load_seeds
--   Fuzz/Iteration       main from the loading of the seeds on
--   Integ/Socket         recv and send as a parameter, with what is relied on of them, and send_all of
--                        scripts/integ_http11.c
--   Integ/Head           the loops that read a head; Head/Laws is what they rely on of a parser, which the
--                        theorems on phr_parse_request and phr_parse_response fill
--   Integ/Carry          the bytes behind the head, with Content-Length
--   Integ/Body           the loops that decode a chunked body
--
-- Correspondence. A pointer into the buffer is its offset from `buf_start`, and a cursor is an offset
-- with the bytes from there to `buf_end`; a byte is a number, 0 to 255. A read outside of the buffer
-- or a write outside of `headers` is the result `fault`, which the code leaves undefined. Outputs are
-- records that an error leaves as far as they were written. Functions have the names of the code;
-- a loop or a part of a body has a name of its own. A size_t or uint64_t keeps its wrap (`% 2 ^ 64`).
-- The state of a decoder is one of the eight that the enum names; a forged state is not modelled.
--
-- In the model of fuzz_chunked.c `none` stands for what C leaves undefined and for the exit of a run
-- without seeds; `body` is a list of its first `body_len` bytes. In that of fuzz_parse.c these are
-- results of their own. What memcpy writes where its ranges overlap, which C leaves open, is a parameter
-- there, and so is the Rust library; the contents of the seed files and the results of the system's calls
-- are arguments. In integ_http11.c
-- `fails` is FAIL, and a buffer is the list of the bytes that it holds.
--
-- Fuel. Loops over bytes are recursions on the bytes. The hot loop of get_token_to_eol, the loop of
-- parse_headers and the `while (1)` of phr_decode_chunked are on fuel, one more than the bytes left:
-- each round takes a byte at least. Running out is a result of its own, `stuck` or `none`. The head loops
-- of integ_http11.c have one round more than their buffer has bytes. send_all and the body loops have no
-- bound in the code: their fuel is an argument, and as many rounds as bytes are still to be sent or
-- received, and one more, are enough.
--
-- Not modelled: the SSE4.2 build, the Rust port, and the test and benchmark programs, which print and
-- compare. Of fuzz_chunked.c the calls on the pieces and the comparison, of fuzz_parse.c the reading of
-- the arguments, of integ_http11.c the header block that is parsed a second time, and of all three what
-- is printed or written to files. The build that is modelled is the pinned one, without -msse4.2.
pub mod Base
pub mod Reference
pub mod Fuzz
pub mod Integ
