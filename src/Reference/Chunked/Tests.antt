-- ===== src/Reference/Chunked/Tests.antt =====
-- Runs of phr_decode_chunked on inputs of reference/test.c, and its theorems at such inputs.
use picohttpparser_rs.Base.{
  ◌++◌, ◌∷◌, arith, true, Option, ◌≡◌, refl, [], some, false, pos, negsuc, codes,
}
use picohttpparser_rs.Reference.Chars.{Bytes}
use picohttpparser_rs.Reference.Chunked.Refines.{Decodes, phr_decode_chunked-Decodes}
use picohttpparser_rs.Reference.Chunked.Printed.{hex_value}
use picohttpparser_rs.Reference.Chunked.RoundTrip.{
  Message, IsMessage, print_message, Receives, phr_decode_chunked-Receives,
}
use picohttpparser_rs.Reference.Chunked.Split.{SameEnd, phr_decode_chunked-SameEnd}
use picohttpparser_rs.Reference.Chunked.Valid.{LeavesValid, phr_decode_chunked-LeavesValid}
use picohttpparser_rs.Reference.Chunked.Stream.{run}
use picohttpparser_rs.Reference.Chunked.{
  Decoded, enter, phr_decode_chunked, chunk_size, chunk_ext, header_lf, chunk_data, data_cr,
  data_lf, trailers_head, trailers_middle,
}
use picohttpparser_rs.Reference.Decoder.{
  Decoder, decode_hex, in_chunk_data, in_chunk_size, in_chunk_header_expect_lf,
}

abbrev fresh : Decoder
fresh = record {
  bytes_left_in_chunk = 0;
  consume_trailer = false;
  hex_count = 0;
  state = in_chunk_size;
  total_read = 0;
  total_overhead = 0;
}

decode : Decoder → Bytes → Option Decoded
unfolding phr_decode_chunked chunk_size decode_hex chunk_ext header_lf chunk_data data_cr data_lf
    trailers_head trailers_middle
decode = phr_decode_chunked

-- The leftover bytes stand behind the decoded ones.
one_call :
    decode fresh (codes "b\r\nhello world\r\n0\r\nxy")
    ≡ some (record {
      ret = pos 2;
      decoder = record fresh { state = in_chunk_header_expect_lf; total_read = 21 };
      buf = codes "hello worldxyd\r\n0\r\nxy";
      bufsz = 11;
    })
unfolding decode
one_call = refl

bad_size :
    decode fresh (codes "12=345")
    ≡ some (record {
      ret = negsuc 0;
      decoder = record fresh { bytes_left_in_chunk = 18; hex_count = 2; total_read = 6 };
      buf = codes "=34545";
      bufsz = 0;
    })
unfolding decode
bad_size = refl

phr_decode_chunked-Decodes_example : Decodes fresh (codes "6\r\nhello \r\n5\r\nwor") (
    run
      (enter fresh (codes "6\r\nhello \r\n5\r\nwor")).decoder
      []
      (codes "6\r\nhello \r\n5\r\nwor"))
phr_decode_chunked-Decodes_example =
    phr_decode_chunked-Decodes fresh (codes "6\r\nhello \r\n5\r\nwor") (λ e. cc)

phr_decode_chunked-LeavesValid_example : LeavesValid fresh (codes "1f;x=1\r\nabc")
phr_decode_chunked-LeavesValid_example =
    phr_decode_chunked-LeavesValid fresh (codes "1f;x=1\r\nabc") (omega arith, omega arith)

-- The first of two pieces, which ends inside of a chunk.
abbrev first_piece : Decoded
first_piece = record {
  ret = negsuc 1;
  decoder = record fresh {
    bytes_left_in_chunk = 3;
    state = in_chunk_data;
    total_read = 5;
    total_overhead = 3;
  };
  buf = codes "ab\nab";
  bufsz = 2;
}

abbrev second_piece : Decoded
second_piece = record {
  ret = pos 1;
  decoder = record fresh { state = in_chunk_header_expect_lf; total_read = 14; total_overhead = 3 };
  buf = codes "cdex\n0\r\nx";
  bufsz = 3;
}

abbrev both_pieces : Decoded
both_pieces = record {
  ret = pos 1;
  decoder = record fresh { state = in_chunk_header_expect_lf; total_read = 14 };
  buf = codes "abcdexde\r\n0\r\nx";
  bufsz = 5;
}

reads_first : phr_decode_chunked fresh (codes "5\r\nab") ≡ some first_piece
unfolding decode
reads_first = refl

reads_second : phr_decode_chunked first_piece.decoder (codes "cde\r\n0\r\nx") ≡ some second_piece
unfolding decode
reads_second = refl

reads_both : phr_decode_chunked fresh (codes "5\r\nab" ++ codes "cde\r\n0\r\nx") ≡ some both_pieces
unfolding decode
reads_both = refl

phr_decode_chunked-SameEnd_example : SameEnd first_piece second_piece both_pieces
phr_decode_chunked-SameEnd_example =
    phr_decode_chunked-SameEnd fresh (codes "5\r\nab") (codes "cde\r\n0\r\nx")
      (omega arith, omega arith) (omega arith) reads_first refl reads_second reads_both

abbrev greeting : Message
greeting = record {
  chunks =
      record {
        size = record { digits = codes "00B"; ext = codes ";a=b" };
        body = codes "hello world";
      }
      ∷ [];
  last = record { digits = codes "0"; ext = [] };
  trailers = codes "Vary: *" ∷ [];
}

greeting-IsMessage : IsMessage greeting
unfolding hex_value decode_hex
greeting-IsMessage = record {
  chunks_are = (
    record {
      size_is = record {
        some_digits = omega arith;
        few_digits = omega arith;
        value = refl;
        ext_is = (refl, (refl, (refl, (refl, (refl, tt)))));
      };
      has_body = omega arith;
    },
    tt,
  );
  last_is = record {
    some_digits = omega arith;
    few_digits = omega arith;
    value = refl;
    ext_is = tt;
  };
  trailers_are = ((omega arith, (refl, (refl, (refl, (refl, (refl, (refl, (refl, tt)))))))), tt);
}

abbrev fresh_trailer : Decoder
fresh_trailer = record fresh { consume_trailer = true }

phr_decode_chunked-Receives_example :
    Receives fresh_trailer
      (print_message true greeting (codes "xy"))
      (codes "hello world")
      (codes "xy")
phr_decode_chunked-Receives_example =
    phr_decode_chunked-Receives fresh_trailer greeting (codes "xy")
      (record { in_size = refl; no_size = refl; no_digits = refl }) greeting-IsMessage (omega arith)
