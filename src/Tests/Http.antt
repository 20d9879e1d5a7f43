-- ===== src/Tests/Http.antt =====
-- Runs of the HTTP connection.
use epri_client.Prelude.{
  ℕ, ◌≡◌, refl, arith, Bool, true, false, none, some, [], ◌∷◌, is_some, Option,
}
use epri_client.Util.{Bytes}
use epri_client.Http.{
  Network, HttpRequest, HttpConnection, http_start, http_write, http_flush, conn_write,
}
use epri_client.Uri.{Uri, parse_uri, request_target, plain}
use epri_client.Uri.Path.{IsTextByte, parse_uri-encode_text}
use epri_client.Uri.Host.{IsNameChar, parse_uri-host}
use epri_client.Xml.Output.{hex_char}
use epri_client.Http.Receive.{receive_round, line_length, line_loop}
use epri_client.Http.Queues.{all_sent, IsSending, http_write-http_flush}
use epri_client.Http.Answers.{Answers, receive_round-Answers}
use epri_client.Http.Lines.{line_loop-concat}

-- The network takes one message and not the next; a response of two chunks is waiting.
abbrev slow : Network
slow = record {
  chunks = (b'a' ∷ b'b' ∷ []) ∷ (b'c' ∷ b'\r' ∷ b'\n' ∷ []) ∷ [];
  is_closed = false;
  accepts = some 64 ∷ none ∷ [];
  sent = [];
}

abbrev asked : HttpRequest
asked = record { method = 0; uri = b'/' ∷ []; context = some 7 }

abbrev waiting : HttpConnection
waiting = record {
  buffer = [];
  at = 0;
  end = 0;
  content_length = none;
  state = http_start;
  method = 0;
  request_method = 0;
  body = false;
  close = false;
  client = true;
  status = 0;
  error = 0;
  has_length = false;
  context = none;
  content_type = none;
  media_range = none;
  location = none;
  send = (b'x' ∷ []) ∷ (b'y' ∷ []) ∷ [];
  request = asked ∷ [];
  network = slow;
}

waiting-IsSending : IsSending 64 waiting
waiting-IsSending = record {
  takes = (omega arith, (tt, tt));
  fits = (omega arith, (omega arith, tt));
}

http_write-http_flush_example :
    (IsSending 64 (http_write waiting (b'z' ∷ []))
      × (all_sent (http_write waiting (b'z' ∷ [])) ≡ b'x' ∷ b'y' ∷ b'z' ∷ []))
    × (IsSending 64 (http_flush waiting) × (all_sent (http_flush waiting) ≡ b'x' ∷ b'y' ∷ []))
http_write-http_flush_example =
    http_write-http_flush 64 waiting (b'z' ∷ []) waiting-IsSending (omega arith)

-- A network with room for one byte of two: the other one is neither sent nor kept.
lost_byte :
    all_sent (
      http_write
        (record waiting { send = []; network = record slow { accepts = some 1 ∷ [] } })
        (b'a' ∷ b'b' ∷ []))
    ≡ b'a' ∷ []
unfolding http_write conn_write
lost_byte = refl

-- No text is an address.
abbrev no_address : ℕ → Bytes → Option (ℕ × Bytes)
no_address port text = none

abbrev fresh_uri : Uri
fresh_uri = record { scheme = none; name = none; path = none; query = none; host = none; port = 0 }

any_target : Bytes → Bool
any_target target = is_some (request_target no_address fresh_uri target)

abbrev no_host : Bytes → Bytes
no_host text = []

abbrev plain_response : ℕ → Bytes
plain_response status = status ∷ []

receive_round-Answers_example :
    Answers http_start waiting (receive_round any_target no_host plain_response waiting)
receive_round-Answers_example = receive_round-Answers any_target no_host plain_response waiting refl

line_loop-concat_example :
    (line_loop 0 [] 100 ((b'a' ∷ b'b' ∷ []) ∷ (b'c' ∷ b'\r' ∷ b'\n' ∷ []) ∷ [])).found ≡ some 3
unfolding line_length
line_loop-concat_example =
    line_loop-concat ((b'a' ∷ b'b' ∷ []) ∷ (b'c' ∷ b'\r' ∷ b'\n' ∷ []) ∷ []) 0 100 []
      (refl, refl, (refl, refl, tt)) (omega arith)

-- A CR and the LF behind it in two chunks: the first line is joined with the one that follows.
split_line :
    (line_loop 0 [] 100 ((b'a' ∷ b'\r' ∷ []) ∷ (b'\n' ∷ b'b' ∷ b'\r' ∷ b'\n' ∷ []) ∷ [])).found
    ≡ some 4
unfolding line_loop line_length
split_line = refl

slash-IsTextByte : IsTextByte b'/'
slash-IsTextByte = record { bound = omega arith; present = refl }

space-IsTextByte : IsTextByte b' '
space-IsTextByte = record { bound = omega arith; present = refl }

parse_uri-encode_text_example :
    parse_uri no_address fresh_uri true (b'/' ∷ b'%' ∷ b'2' ∷ b'0' ∷ b'?' ∷ b'/' ∷ [])
    ≡ some (record fresh_uri { path = some (b'/' ∷ b' ' ∷ []); query = some (b'/' ∷ []) }, [])
unfolding plain hex_char
parse_uri-encode_text_example =
    parse_uri-encode_text no_address fresh_uri (b'/' ∷ b' ' ∷ []) (b'/' ∷ [])
      (slash-IsTextByte, (space-IsTextByte, tt)) (slash-IsTextByte, tt)

a-IsNameChar : IsNameChar b'a'
unfolding plain
a-IsNameChar = record { taken = refl; inside = refl; present = refl }

slash-IsNameChar : IsNameChar b'/'
unfolding plain
slash-IsNameChar = record { taken = refl; inside = refl; present = refl }

-- `http://a/` has the name `a/` and no path.
parse_uri-host_example :
    parse_uri no_address fresh_uri false
      (b'h' ∷ b't' ∷ b't' ∷ b'p' ∷ b':' ∷ b'/' ∷ b'/' ∷ b'a' ∷ b'/' ∷ [])
    ≡ some (
      record fresh_uri {
        scheme = some (b'h' ∷ b't' ∷ b't' ∷ b'p' ∷ []);
        port = 80;
        name = some (b'a' ∷ b'/' ∷ []);
        path = some [];
      },
      [],
    )
parse_uri-host_example =
    parse_uri-host no_address fresh_uri b'a' (b'/' ∷ []) (a-IsNameChar, (slash-IsNameChar, tt)) refl
