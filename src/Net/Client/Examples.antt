-- ===== src/Net/Client/Examples.antt =====
-- A server that answers every second transfer, and libcurl with numbers for `double`.
use magic_core.Prelude.{ℕ, ◌%◌, true, false, none, some, [], ◌∷◌, ◌==◌, if◌then◌else◌}
use magic_core.Prelude.Int.{pos}
use magic_core.Text.Bytes.{bytes}
use magic_core.Net.Curl.{Options, Transfer, Curl, World}
use magic_core.Net.Client.{get, post_json}
use magic_core.Net.Client.Clean.{IsCall, get_options, post_options, http_calls}

abbrev with_result : ℕ → Options → Transfer ℕ
with_result result options = record {
  result = result;
  reads_fields = true;
  content_blocks = bytes "he" ∷ bytes "llo" ∷ [];
  header_blocks = bytes "HTTP/1.1 200 OK\n" ∷ bytes "Age: 7\n" ∷ [];
  response_code = pos 200;
  effective_url = bytes "http://a";
  total_time = 3;
  size_download = 5;
  size_upload = 0;
  speed_download = 2;
  speed_upload = 0;
}

abbrev no_options : Options
no_options = record { url = none; post_fields = none; post_size = none; http_headers = [] }

abbrev pub server : Curl ℕ
server = record {
  init_succeeds = λ n. true;
  transfer = λ n options. with_result (if n % 2 == 0 then 0 else 28) options;
  refused = with_result 43 no_options;
  strerror = λ result. bytes "error";
}

abbrev start : World
start = record {
  easies =
      record { url = none; post_fields = none; post_size = none; http_headers = none; alive = true }
      ∷ [];
  lists = [];
  strings = some (bytes "kept") ∷ [];
  inits = 1;
  transfers = 0;
  failed = false;
  dangling = false;
}

http_calls_example :
    IsCall server start
      (get_options server (bytes "http://a"))
      (get server (bytes "http://a") start)
    × IsCall server start
        (post_options server (bytes "http://a") (bytes "{}"))
        (post_json server (bytes "http://a") (bytes "{}") start)
http_calls_example = http_calls server (bytes "http://a") (bytes "{}") start
