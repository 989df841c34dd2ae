-- ===== src/Net/Client.antt =====
-- src/magic/net/http.cpp and http/response.h: Get and PostJson. std::string and `double` are values;
-- the strings that live as long as the call and are not at POSTFIELDS have no address.
pub mod Answers
pub mod Calls
pub mod Examples
pub mod Clean
use magic_core.Prelude.{
  ℕ, Bool, true, false, Option, none, some, List, [], ◌∷◌, ◌++◌, ◌==◌, length, foldl, if◌then◌else◌,
}
use magic_core.Text.Bytes.{Bytes, bytes}
use magic_core.Net.Dictionary.{Dictionary}
use magic_core.Net.Header.{Outcome, parsed, assertion, out_of_fuel, parse}
use magic_core.Net.Status.{HttpStatus, from_status_code, equals}
use magic_core.Net.Curl.{
  Transfer, Curl, World, easy_init, set_url, set_post_fields, set_http_header, easy_cleanup,
  slist_append, slist_free_all, new_string, end_string, easy_perform,
}

-- detail::WriteFunction, with `size * nmemb` the length of the block: the count that it returns
pub write_function : Bytes → Bytes → ℕ × Bytes
write_function block text = (length block, text ++ block)

-- The string that gets the blocks of a transfer, which libcurl passes in order.
pub receive : Bytes → List Bytes → Bytes
unfolding write_function
receive text [] = text
receive text (block ∷ blocks) = receive (write_function block text).1 blocks

-- HttpRequestMetrics; a TimeSpan is the `double` in it.
pub record Metrics (Double : Type 0) : Type 0 where
  pub download_bytes : Double
  pub upload_bytes : Double
  pub average_download_speed : Double
  pub average_upload_speed : Double
  pub duration : Double

pub record HttpResponse (Double : Type 0) : Type 0 where
  pub status : HttpStatus
  pub header : Dictionary
  pub metrics : Metrics Double
  pub url : Bytes
  pub content : Bytes

-- What a call comes to
pub data Answer (Double : Type 0) : Type 0 where
  responds : HttpResponse Double → Answer Double
  throws : Bytes → Answer Double  -- BaseException with the message
  aborts : Answer Double  -- an assert in the parser of the header fails

module _ {Double : Type 0} where
  -- HttpResponse::IsOk
  pub is_ok : HttpResponse Double → Bool
  is_ok r = equals r.status 200

  abbrev metrics_of : Transfer Double → Metrics Double
  metrics_of t = record {
    download_bytes = t.size_download;
    upload_bytes = t.size_upload;
    average_download_speed = t.speed_download;
    average_upload_speed = t.speed_upload;
    duration = t.total_time;
  }

  abbrev response_of : Transfer Double → Dictionary → HttpResponse Double
  response_of t header = record {
    status = from_status_code t.response_code;
    header = header;
    metrics = metrics_of t;
    url = t.effective_url;
    content = receive [] t.content_blocks;
  }

  abbrev answer_of : Transfer Double → Outcome → Answer Double
  answer_of t (parsed header) = responds (response_of t header)
  answer_of t assertion = aborts
  answer_of t out_of_fuel = aborts

  -- The getinfo calls and the response, behind a transfer that went well
  unfoldable pub respond : Transfer Double → Answer Double
  respond t = answer_of t (parse (receive [] t.header_blocks))

  module _ (curl : Curl Double) where
    -- Http::Get, behind curl_easy_perform
    abbrev conclude : Transfer Double → Option ℕ → World → Answer Double × World
    conclude t handle w =
        if t.result == 0
        then (respond t, easy_cleanup handle w)
        else (throws (curl.strerror t.result), easy_cleanup handle w)

    pub get : Bytes → World → Answer Double × World
    unfolding easy_init set_url easy_perform easy_cleanup respond
    get url w =
        let (handle, w) = easy_init curl w in
        let (t, w) = easy_perform curl handle (set_url handle url w) in conclude t handle w

    pub post_json : Bytes → Bytes → World → Answer Double × World
    unfolding easy_init set_url set_post_fields slist_append set_http_header easy_perform
        slist_free_all easy_cleanup new_string end_string respond
    post_json url json w =
        let (address, w) = new_string json w in
        let (handle, w) = easy_init curl w in
        let w = set_post_fields handle address (set_url handle url w) in
        let (list, w) = slist_append (bytes "Content-Type: application/json") w in
        let (t, w) = easy_perform curl handle (set_http_header handle list w) in
        let (answer, w) = conclude t handle (slist_free_all list w) in
        (answer, end_string address w)
