-- ===== src/Net/Request/Steps.antt =====
-- Each method keeps the owners of the handles.
use magic_core.Prelude.{
  length, ℕ, ◌≡◌, refl, inl, inr, subst, true, false, Option-cases, none, some, [], ◌∷◌, ◌++◌,
  arith,
}
use magic_core.Prelude.Totals.{total-set, total-append}
use magic_core.Text.Bytes.{Bytes}
use magic_core.Net.Curl.{
  set_post_size, set_url, set_post_fields, easy_cleanup, new_string, end_string,
}
use magic_core.Net.Request.{
  HttpRequest, State, put_builder, end_content, url_set, post, set_content, build, end_builder,
}
use magic_core.Net.Request.Handles.{
  set_url-Keeps, set_post_fields-Keeps, set_post_size-Keeps, easy_cleanup-Ends, IsLive-Keeps,
  Keeps-Keeps, new_string-Keeps, end_string-Keeps, end_content-Keeps,
}
use magic_core.Net.Request.Ownership.{
  builder_holds, request_holds, Owned, there_builder, builder-IsLive, kept-Owned, rebuilt-Owned,
}

pub url_set-Owned :
    (b : ℕ) (url : Bytes) (s t : State) → url_set b url s ≡ some t → Owned s → Owned t
unfolding url_set
url_set-Owned b url s t e o =
    let (x, found, there, result) =
      there_builder b s t (λ x. some (record s { world = set_url x.curl url s.world })) e in
    let k = set_url-Keeps x.curl url s.world (builder-IsLive b x s found there o) o.good in
    subst Owned (ground (arith, result)) (kept-Owned s (set_url x.curl url s.world) k o)

pub set_content-Owned :
    (b : ℕ) (body : Bytes) (s t : State) → set_content b body s ≡ some t → Owned s → Owned t
unfolding set_content
set_content-Owned b body s t e o =
    let (address, v) = new_string body s.world in
    let (x, found, there, result) = there_builder b s t _ e in
    let made = new_string-Keeps body s.world o.good in
    let live = IsLive-Keeps x.curl s.world v made (builder-IsLive b x s found there o) in
    let sized = set_post_size x.curl (length body) v in
    let size = set_post_size-Keeps x.curl (length body) v live made.0 in
    let u = set_post_fields x.curl address sized in
    let put =
      set_post_fields-Keeps x.curl address sized (IsLive-Keeps x.curl v sized size live) size.0 in
    let ended = end_string-Keeps address u put.0 in
    let w = end_string address u in
    let k =
      Keeps-Keeps s.world v w made (Keeps-Keeps v sized w size (Keeps-Keeps sized u w put ended)) in
    subst Owned (ground (arith, result)) (kept-Owned s w k o)

pub post-Owned :
    (b : ℕ) (url content : Bytes) (s t : State) → post b url content s ≡ some t → Owned s → Owned t
unfolding post
post-Owned b url content s t e o =
    let (x, found, there, result) = there_builder b s t _ e in
    let v = end_content x.content s.world in
    let (address, u) = new_string content v in
    let w = set_url x.curl url u in
    let z = set_post_fields x.curl address w in
    let ended = end_content-Keeps x.content s.world o.good in
    let made = Keeps-Keeps s.world v u ended (new_string-Keeps content v ended.0) in
    let live = IsLive-Keeps x.curl s.world u made (builder-IsLive b x s found there o) in
    let sent = set_url-Keeps x.curl url u live made.0 in
    let put = set_post_fields-Keeps x.curl address w (IsLive-Keeps x.curl u w sent live) sent.0 in
    let k = Keeps-Keeps s.world u z made (Keeps-Keeps u w z sent put) in
    let kept = kept-Owned s z k o in
    subst Owned (ground (arith, result)) (
      rebuilt-Owned b x (record x { content = some address }) (record s { world = z }) found refl
        refl kept)

pub build-Owned : (b : ℕ) (s t : State) → build b s ≡ some t → Owned s → Owned t
unfolding build
build-Owned b s t e o =
    let (x, found, there, result) = there_builder b s t _ e in
    elim (Option-cases x.curl) [
      | inl null ↦ absurd (ground (arith, result, null))
      | inr (h, holds) ↦
          let y = record x { curl = none } in
          let r : HttpRequest = record { curl = some h; alive = true } in
          let u = record (put_builder b y s.world s) { requests = s.requests ++ r ∷ [] } in
          let m : Owned u = record {
            good = o.good;
            owns = λ g. ground (
              arith,
              o.owns g,
              holds,
              there,
              total-set (builder_holds g) s.builders b x y found,
              total-append (request_holds g) s.requests (r ∷ []),
            );
          } in
          subst Owned (ground (arith, result, holds)) m
    ]

pub end_builder-Owned : (b : ℕ) (s t : State) → end_builder b s ≡ some t → Owned s → Owned t
unfolding end_builder
end_builder-Owned b s t e o =
    let (x, found, there, result) = there_builder b s t _ e in
    let v = easy_cleanup x.curl s.world in
    let u = end_content x.content v in
    let y = record x { alive = false } in
    let cleaned = easy_cleanup-Ends x.curl s.world (builder-IsLive b x s found there o) o.good in
    let ended = end_content-Keeps x.content v cleaned.0 in
    let m : Owned (put_builder b y u s) = record {
      good = ended.0;
      owns = λ g. ground (
        arith,
        o.owns g,
        there,
        cleaned.1 g,
        ended.1 g,
        total-set (builder_holds g) s.builders b x y found,
      );
    } in
    subst Owned (ground (arith, result)) m
