-- ===== src/Checks/Numbers.antt =====
-- Numbers, their texts and their sums.
use communo.NumParser.Parse.{parse_number}
use communo.NumParser.Literals.{lower_ll, mark_text, literal, parse_number-literal}
use communo.Prelude.{
  to_string, ◌++◌, ◌^◌, ◌<◌, ◌≡◌, refl, arith, ok, Bytes, codes, ◌++◌, [], ◌∷◌, List, length,
  negsuc, pos, read_bytes, memcpy_uint, of_word, of_le,
}
use communo.NumParser.{
  Number, int16, uint8, get_number_type, append_number, read_number, read_value,
}
use communo.NumParser.Codec.{Decodes, read_number-append_number, read_number-Decodes}
use communo.NumParser.Parse
use communo.NumParser.Show.{FloatShow, number_to_string}
use communo.NumParser.Signed.{picked, parse_number-number_to_string}
use communo.Server.Send.{send_ssl_packet_to_client_socket}
use communo.Server.Handlers.{to_double}
use communo.Server.Requests.{serve_client, fill_buffer}
use communo.Server.Addition.{sum_of, sum_packet, addition_round_trip}
use communo.Client.{addition_packet}
use communo.Client.Replies.{process_reply, addition}
use communo.Checks.{integers, no_floats, alice, world}

read_number-append_number_example :
    read_number
      (append_number (codes "x") (int16 (negsuc 2)) ++ codes "y")
      (length (codes "x"))
      (get_number_type (int16 (negsuc 2)))
    ≡ ok (int16 (negsuc 2), length (append_number (codes "x") (int16 (negsuc 2))))
read_number-append_number_example =
    read_number-append_number (codes "x") (int16 (negsuc 2)) (codes "y") (omega arith, omega arith)

abbrev minus_three : Bytes
minus_three = 3 ∷ 253 ∷ 255 ∷ []

minus_three_read : read_number minus_three 1 2 ≡ ok (int16 (negsuc 2), 3)
unfolding read_number read_value memcpy_uint read_bytes of_le of_word
minus_three_read = refl

read_number-Decodes_example : Decodes minus_three 1 2 (int16 (negsuc 2)) 3
read_number-Decodes_example =
    read_number-Decodes minus_three 1 2 (int16 (negsuc 2)) 3
      (omega arith, (omega arith, (omega arith, tt))) minus_three_read

abbrev no_float_show : FloatShow
no_float_show = record {
  float_string = λ b. [];
  double_string = λ b. [];
  float_stream = λ b. [];
  double_stream = λ b. [];
}

-- An int16_t that fits an int8_t.
parse_number-number_to_string_example :
    Parse.parse_number no_floats (number_to_string no_float_show (int16 (negsuc 2)))
    ≡ ok (picked (int16 (negsuc 2)))
parse_number-number_to_string_example =
    parse_number-number_to_string no_floats no_float_show (int16 (negsuc 2))
      (omega arith, omega arith) refl

abbrev summands : List Number
summands = uint8 40 ∷ int16 (pos 2) ∷ []

sum_fits : sum_of integers 0 summands < 2 ^ 64
unfolding to_double
sum_fits = omega arith

addition_round_trip_example :
    (serve_client integers 0 0 alice (addition_packet summands) world
      ≡ ok (
          send_ssl_packet_to_client_socket alice
            (sum_packet (sum_of integers 0 summands))
            (fill_buffer (addition_packet summands) world)))
    × (process_reply 0 0 (sum_packet (sum_of integers 0 summands))
        ≡ ok (addition (sum_of integers 0 summands)))
addition_round_trip_example =
    addition_round_trip integers 0 0 0 0 alice summands world refl (omega arith)
      (omega arith, ((omega arith, omega arith), tt)) sum_fits

parse_number-literal_example :
    parse_number no_floats (to_string (2 ^ 63) ++ mark_text lower_ll) ≡ literal lower_ll (2 ^ 63)
parse_number-literal_example = parse_number-literal no_floats lower_ll (2 ^ 63)
