-- ===== src/Net/Request/Examples.antt =====
-- Two builders; a request that is moved, swapped with itself and run; and one with a body.
use magic_core.Prelude.{arith, ℕ, ◌≡◌, refl, true, false, none, some, List, [], ◌∷◌}
use magic_core.Text.Bytes.{Bytes, bytes}
use magic_core.Net.Curl.{
  easy_init, set_url, set_post_fields, set_post_size, easy_cleanup, new_string, end_string,
  easy_perform,
}
use magic_core.Net.Client.Examples.{server}
use magic_core.Net.Request.{
  State, Event, makes_builder, posts, sets_content, builds, ends_builder, moves, assigns, runs,
  ends, init, url_set, post, set_content, build, end_builder, move_construct, move_assign,
  end_request, make_builder, run_transfer, run_request, step, run,
}
use magic_core.Net.Request.Handles.{living}
use magic_core.Net.Request.Ownership.{holders}
use magic_core.Net.Request.Release.{request_ownership}
use magic_core.Net.Request.Dangling.{set_content_dangles}

abbrev url : Bytes
url = bytes "http://a"

abbrev events : List Event
events =
    makes_builder
    ∷ posts 0 url (bytes "{}")
    ∷ builds 0
    ∷ moves 0
    ∷ runs 1
    ∷ ends_builder 0
    ∷ ends 0
    ∷ makes_builder
    ∷ builds 1
    ∷ assigns 2 1
    ∷ ends 2
    ∷ []

abbrev final : State
final = record {
  world = record {
    easies =
        record {
          url = some url;
          post_fields = some 0;
          post_size = none;
          http_headers = none;
          alive = false;
        }
        ∷ record {
          url = none;
          post_fields = none;
          post_size = none;
          http_headers = none;
          alive = true;
        }
        ∷ [];
    lists = [];
    strings = none ∷ [];
    inits = 2;
    transfers = 1;
    failed = false;
    dangling = false;
  };
  builders =
      record { curl = none; content = some 0; alive = false }
      ∷ record { curl = none; content = none; alive = true }
      ∷ [];
  requests =
      record { curl = none; alive = false }
      ∷ record { curl = some 1; alive = true }
      ∷ record { curl = some 0; alive = false }
      ∷ [];
}

reached : run server events init ≡ some final
unfolding run step make_builder url_set post set_content build end_builder move_construct
    move_assign end_request run_transfer run_request easy_init set_url set_post_fields easy_cleanup
    new_string end_string easy_perform
reached = refl

request_ownership_example :
    (final.world.failed ≡ false) × ((h : ℕ) → holders h final ≡ living h final.world)
request_ownership_example = request_ownership server events final reached

abbrev with_builder : State
with_builder = record init {
  world = record (init.world) {
    easies =
        record {
          url = none;
          post_fields = none;
          post_size = none;
          http_headers = none;
          alive = true;
        }
        ∷ [];
    inits = 1;
  };
  builders = record { curl = some 0; content = none; alive = true } ∷ [];
}

made : run server (makes_builder ∷ []) init ≡ some with_builder
unfolding run step make_builder easy_init
made = refl

abbrev read_late : State
read_late = record with_builder {
  world = record (with_builder.world) {
    easies =
        record {
          url = none;
          post_fields = some 0;
          post_size = some 2;
          http_headers = none;
          alive = true;
        }
        ∷ [];
    strings = none ∷ [];
    transfers = 1;
    dangling = true;
  };
  builders = record { curl = none; content = none; alive = true } ∷ [];
  requests = record { curl = some 0; alive = true } ∷ [];
}

ran :
    run server (sets_content 0 (bytes "{}") ∷ builds 0 ∷ runs 0 ∷ []) with_builder ≡ some read_late
unfolding run step set_content build run_transfer run_request set_post_fields set_post_size
    new_string end_string easy_perform
ran = refl

set_content_dangles_example : read_late.world.dangling ≡ true
set_content_dangles_example =
    set_content_dangles server (makes_builder ∷ []) 0 (bytes "{}") with_builder read_late
      (λ o sized. refl) (omega arith) made ran
