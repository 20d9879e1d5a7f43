-- ===== src/Tests/Codec.antt =====
-- Runs of utf8.c, util.c, query.c and the EXI bit stream.
use epri_client.Prelude.{
  ℕ, ◌*◌, ◌^◌, ◌<◌, ◌≤◌, ◌≡◌, refl, arith, some, List, [], ◌∷◌, ◌++◌, max, none,
}
use epri_client.Utf8.{char, reject, utf8_char, utf8_encode, utf8_length}
use epri_client.Utf8.Encode.{utf8_char-utf8_encode}
use epri_client.Utf8.Decode.{utf8_char-four_bytes}
use epri_client.Utf8.Length.{encode_all, utf8_length-encode_all}
use epri_client.Util.{number, number_read, bit_count}
use epri_client.Util.Numbers.{number-decimal, bit_count-width}
use epri_client.Query.{Query, accepted, assign, parse_query}
use epri_client.Query.Parse.{Parameter, IsParameter, parse_query-assign_all}
use epri_client.Exi.{Writer, reader, writer, Reader, parse_uint, uint, output_uint}
use epri_client.HttpParse.{value, ows, qvalue, pvalue, token, token_loop, tchar, qvalue_rest}
use epri_client.HttpParse.Tokens.{qvalue-decimal}
use epri_client.Exi.Streams.{IsWriter, At, Top}
use epri_client.Exi.Integers.{parse_uint-output_uint}
use epri_client.HttpParse.MediaRange.{done, media_range, media_loop, media_step, parameter_read}
use epri_client.HttpParse.{fraction, token, token_loop, tchar, qvalue_rest}
use epri_client.Util.{streq, to_lower}

-- The euro sign.
utf8_char-utf8_encode_example : utf8_char (0xe2 ∷ 0x82 ∷ 0xac ∷ b'x' ∷ []) ≡ char 0x20ac (b'x' ∷ [])
unfolding utf8_encode
utf8_char-utf8_encode_example =
    utf8_char-utf8_encode 0x20ac (0xe2 ∷ 0x82 ∷ 0xac ∷ []) (b'x' ∷ []) refl

utf8_char-four_bytes_example : utf8_char (0xf0 ∷ 0x9f ∷ 0xa8 ∷ 0x80 ∷ []) ≡ reject
utf8_char-four_bytes_example = utf8_char-four_bytes 0x1fa00 [] (omega arith) (omega arith)

utf8_length-encode_all_example : utf8_length (b'a' ∷ 0xc3 ∷ 0xa9 ∷ 0 ∷ b'z' ∷ []) ≡ some 2
unfolding encode_all utf8_encode
utf8_length-encode_all_example =
    utf8_length-encode_all (b'a' ∷ 0xe9 ∷ []) (b'a' ∷ 0xc3 ∷ 0xa9 ∷ []) (b'z' ∷ [])
      ((omega arith, omega arith), ((omega arith, omega arith), tt)) refl

number-decimal_example : number (b'4' ∷ b'2' ∷ b';' ∷ []) ≡ number_read 42 (b';' ∷ [])
number-decimal_example =
    number-decimal b'4' (b'2' ∷ []) (b';' ∷ []) (refl, (refl, tt)) refl (omega arith)

bit_count-width_example :
    (k : ℕ) × (bit_count 300 ≡ some k) × (300 < 2 ^ k) × (2 ^ k ≤ max 1 (2 * 300))
bit_count-width_example = bit_count-width 300 (omega arith)

abbrev old_query : Query
old_query = record { after = 7; start = 7; limit = 7 }

-- The parameter `s=12`.
abbrev start_twelve : Parameter
start_twelve = record { name = b's'; first = b'1'; rest = b'2' ∷ [] }

abbrev limit_five : Parameter
limit_five = record { name = b'l'; first = b'5'; rest = [] }

start_twelve-IsParameter : IsParameter start_twelve
start_twelve-IsParameter = ((refl, (refl, tt)), omega arith)

limit_five-IsParameter : IsParameter limit_five
limit_five-IsParameter = ((refl, tt), omega arith)

parse_query-assign_all_example :
    parse_query old_query (some (b's' ∷ b'=' ∷ b'1' ∷ b'2' ∷ b'&' ∷ b'l' ∷ b'=' ∷ b'5' ∷ 0 ∷ []))
    ≡ accepted (record { after = 0; start = 12; limit = 5 })
unfolding assign
parse_query-assign_all_example =
    parse_query-assign_all old_query start_twelve (limit_five ∷ []) (omega arith)
      start_twelve-IsParameter (limit_five-IsParameter, tt)

-- A writer at bit 3 of a byte.
abbrev inside_byte : Writer
inside_byte = writer (0x80 ∷ []) 0xa0 3

inside_byte-IsWriter : IsWriter inside_byte
inside_byte-IsWriter = record { offset = omega arith; byte = omega arith; clean = refl }

parse_uint-output_uint_example :
    (em : List ℕ) × ((output_uint inside_byte 300).bytes ≡ (0x80 ∷ []) ++ em)
    × ((r : Reader)
        → At (output_uint inside_byte 300) r
        → Top 3 0xa0 (em ++ r.ptr) × (parse_uint (reader (em ++ r.ptr) 3) ≡ uint 300 r))
parse_uint-output_uint_example =
    parse_uint-output_uint inside_byte 300 inside_byte-IsWriter (omega arith)

-- The quality 0.25 is 250 thousandths, and 1.25 is refused.
qvalue-decimal_example :
    (qvalue (b'0' ∷ b'.' ∷ b'2' ∷ b'5' ∷ b',' ∷ []) ≡ some (250, b',' ∷ []))
    × (qvalue (b'1' ∷ b'.' ∷ b'2' ∷ b'5' ∷ b',' ∷ []) ≡ none)
qvalue-decimal_example =
    qvalue-decimal (b'2' ∷ b'5' ∷ []) (b',' ∷ []) (refl, (refl, tt)) refl (omega arith)

-- A quoted string: the value is empty, and the pointer stands behind the `a`.
quoted_run : pvalue (34 ∷ b'a' ∷ 34 ∷ b',' ∷ []) ≡ value [] (34 ∷ b',' ∷ [])
unfolding pvalue
quoted_run = refl

-- `a/b;q=0.5,` with the rest `c`.
media_range_run :
    media_range
      (record { type = []; sub = []; param = λ j. none; quality = 0 })
      (b'a' ∷ b'/' ∷ b'b' ∷ b';' ∷ b'q' ∷ b'=' ∷ b'0' ∷ b'.' ∷ b'5' ∷ b',' ∷ b'c' ∷ [])
    ≡ some (
        done
          (record { type = b'a' ∷ []; sub = b'b' ∷ []; param = λ j. none; quality = 500 })
          (b'c' ∷ []))
unfolding media_range media_loop media_step parameter_read token token_loop tchar qvalue qvalue_rest
    fraction ows streq to_lower
media_range_run = refl
