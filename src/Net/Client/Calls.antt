-- ===== src/Net/Client/Calls.antt =====
-- Get and PostJson with a handle, and where libcurl gives none.
use magic_core.Prelude.{
  ℕ, suc, ◌≡◌, refl, Bool, true, false, ◌||◌, Option, none, some, [], ◌∷◌, ◌++◌, ◌==◌, length,
  if◌then◌else◌, arith,
}
use magic_core.Prelude.Totals.{get_elem?-append_last, set-append_last}
use magic_core.Text.Bytes.{Bytes, bytes}
use magic_core.Net.Curl.{
  Options, Transfer, Curl, Easy, World, easy_init, set_url, set_post_fields, set_http_header,
  easy_cleanup, slist_append, slist_free_all, new_string, end_string, easy_perform, performed,
}
use magic_core.Net.Client.{Answer, throws, respond, get, post_json}

-- A world whose last handle is `e`.
abbrev pub with_last : Easy → World → World
with_last e w = record w { easies = w.easies ++ e ∷ [] }

abbrev pub live : Option Bytes → Option ℕ → Option ℕ → Bool → Easy
live url fields headers alive = record {
  url = url;
  post_fields = fields;
  post_size = none;
  http_headers = headers;
  alive = alive;
}

module _ (u : Option Bytes) (p l : Option ℕ) (w : World) where
  abbrev n : ℕ
  n = length w.easies

  set_url-last :
      (url : Bytes)
      → set_url (some n) url (with_last (live u p l true) w)
        ≡ with_last (live (some url) p l true) w
  unfolding set_url
  set_url-last url =
      let e = live u p l true in
      ground (
        arith,
        get_elem?-append_last w.easies e n,
        set-append_last w.easies e (live (some url) p l true),
      )

  set_post_fields-last :
      (a : ℕ)
      → set_post_fields (some n) a (with_last (live u p l true) w)
        ≡ with_last (live u (some a) l true) w
  unfolding set_post_fields
  set_post_fields-last a =
      let e = live u p l true in
      ground (
        arith,
        get_elem?-append_last w.easies e n,
        set-append_last w.easies e (live u (some a) l true),
      )

  set_http_header-last :
      (a : ℕ)
      → set_http_header (some n) a (with_last (live u p l true) w)
        ≡ with_last (live u p (some a) true) w
  unfolding set_http_header
  set_http_header-last a =
      let e = live u p l true in
      ground (
        arith,
        get_elem?-append_last w.easies e n,
        set-append_last w.easies e (live u p (some a) true),
      )

  easy_cleanup-last :
      easy_cleanup (some n) (with_last (live u p l true) w) ≡ with_last (live u p l false) w
  unfolding easy_cleanup
  easy_cleanup-last =
      let e = live u p l true in
      ground
        (arith, get_elem?-append_last w.easies e n, set-append_last w.easies e (live u p l false))

  easy_perform-last :
      {Double : Type 0} (curl : Curl Double)
      → easy_perform curl (some n) (with_last (live u p l true) w)
        ≡ performed curl (live u p l true) (with_last (live u p l true) w)
  unfolding easy_perform
  easy_perform-last curl = ground (arith, get_elem?-append_last w.easies (live u p l true) n)

-- NULL
module _ (w : World) where
  null_sets :
      (url : Bytes) (a l : ℕ)
      → (set_url none url w ≡ w) × (set_post_fields none a w ≡ w) × (set_http_header none l w ≡ w)
  unfolding set_url set_post_fields set_http_header
  null_sets url a l = (refl, refl, refl)

  null_cleanup : easy_cleanup none w ≡ w
  unfolding easy_cleanup
  null_cleanup = refl

  null_performs :
      {Double : Type 0} (curl : Curl Double) → easy_perform curl none w ≡ (curl.refused, w)
  unfolding easy_perform
  null_performs curl = refl

module _ {Double : Type 0} (curl : Curl Double) where
  -- Without a handle libcurl refuses.
  abbrev pub requested : World → Options → Transfer Double
  requested w options =
      if curl.init_succeeds w.inits then curl.transfer w.transfers options else curl.refused

  abbrev pub answered : Transfer Double → Answer Double
  answered t = if t.result == 0 then respond t else throws (curl.strerror t.result)

  unfoldable pub got : Bytes → World → Answer Double × World
  got url w = (
    answered (
        curl.transfer w.transfers
          record { url = some url; post_fields = none; post_size = none; http_headers = [] }),
    with_last (live (some url) none none false) record w {
      inits = suc w.inits;
      transfers = suc w.transfers;
      failed = w.failed || false;
      dangling = w.dangling || false;
    },
  )

  pub get_opened :
      (url : Bytes) (w : World) → curl.init_succeeds w.inits ≡ true → get curl url w ≡ got url w
  unfolding get got easy_init
  get_opened url w h =
      let v = record w { inits = suc w.inits } in
      let u = record v {
        transfers = suc w.transfers;
        failed = w.failed || false;
        dangling = w.dangling || false;
      } in
      ground (
        arith,
        h,
        set_url-last none none none v url,
        easy_perform-last (some url) none none v curl,
        easy_cleanup-last (some url) none none u,
      )

  pub get_refused :
      (url : Bytes) (w : World)
      → curl.init_succeeds w.inits ≡ false
      → get curl url w ≡ (answered curl.refused, record w { inits = suc w.inits })
  unfolding get easy_init set_url easy_perform easy_cleanup
  get_refused url w h = ground (arith, h)

  unfoldable pub json_type : Bytes
  json_type = bytes "Content-Type: application/json"

  -- The world behind PostJson, but for its handle.
  abbrev pub left_by_post : World → World
  left_by_post w = record w {
    inits = suc w.inits;
    lists = w.lists ++ none ∷ [];
    strings = w.strings ++ none ∷ [];
  }

  unfoldable pub posted : Bytes → Bytes → World → Answer Double × World
  posted url json w =
      let dead = live (some url) (some (length w.strings)) (some (length w.lists)) false in
      (
        answered (
            curl.transfer w.transfers record {
              url = some url;
              post_fields = some json;
              post_size = none;
              http_headers = json_type ∷ [];
            }),
        with_last dead record (left_by_post w) {
          transfers = suc w.transfers;
          failed = w.failed || false;
          dangling = w.dangling || false;
        },
      )

  pub post_opened :
      (url json : Bytes) (w : World)
      → curl.init_succeeds w.inits ≡ true
      → post_json curl url json w ≡ posted url json w
  unfolding post_json posted easy_init new_string slist_append slist_free_all end_string json_type
  post_opened url json w h =
      let a = length w.strings in
      let l = length w.lists in
      let v1 = record w { inits = suc w.inits; strings = w.strings ++ some json ∷ [] } in
      let v = record v1 { lists = w.lists ++ some (json_type ∷ []) ∷ [] } in
      let u = record v {
        transfers = suc w.transfers;
        failed = w.failed || false;
        dangling = w.dangling || false;
      } in
      let x = record u { lists = w.lists ++ none ∷ [] } in
      ground (
        arith,
        h,
        set_url-last none none none v1 url,
        set_post_fields-last (some url) none none v1 a,
        set_http_header-last (some url) (some a) none v l,
        easy_perform-last (some url) (some a) (some l) v curl,
        easy_cleanup-last (some url) (some a) (some l) x,
        get_elem?-append_last w.strings (some json) a,
        set-append_last w.strings (some json) none,
        get_elem?-append_last w.lists (some (json_type ∷ [])) l,
        set-append_last w.lists (some (json_type ∷ [])) none,
      )

  pub post_refused :
      (url json : Bytes) (w : World)
      → curl.init_succeeds w.inits ≡ false
      → post_json curl url json w ≡ (answered curl.refused, left_by_post w)
  unfolding post_json easy_init new_string slist_append slist_free_all end_string json_type
  post_refused url json w h =
      let a = length w.strings in
      let l = length w.lists in
      let v1 = record w { inits = suc w.inits; strings = w.strings ++ some json ∷ [] } in
      let v = record v1 { lists = w.lists ++ some (json_type ∷ []) ∷ [] } in
      let x = record v { lists = w.lists ++ none ∷ [] } in
      ground (
        arith,
        h,
        null_sets v1 url a l,
        null_sets v url a l,
        null_performs v curl,
        null_cleanup x,
        get_elem?-append_last w.strings (some json) a,
        set-append_last w.strings (some json) none,
        get_elem?-append_last w.lists (some (json_type ∷ [])) l,
        set-append_last w.lists (some (json_type ∷ [])) none,
      )
