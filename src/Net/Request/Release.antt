-- ===== src/Net/Request/Release.antt =====
-- Every handle is released exactly once.
use magic_core.Prelude.{
  ℕ, ◌≡◌, refl, inl, inr, subst, true, false, Bool-cases, Option-cases, none, some, List, [], ◌∷◌,
  ◌++◌, ◌==◌, set, arith,
}
use magic_core.Prelude.Totals.{total-set, total-append, get_elem?-set}
use magic_core.Net.Curl.{Curl, easy_init, easy_cleanup, easy_perform}
use magic_core.Net.Request.{
  Builder, HttpRequest, State, Event, makes_builder, sets_url, posts, sets_content, builds,
  ends_builder, moves, assigns, runs, ends, init, move_construct, move_assign, end_request,
  make_builder, run_transfer, run_request, step, run,
}
use magic_core.Net.Request.Handles.{living, easy_perform-Keeps, easy_cleanup-Ends, easy_init-Makes}
use magic_core.Net.Request.Ownership.{
  builder_holds, request_holds, holders, Owned, there_request, request-IsLive, kept-Owned,
}
use magic_core.Net.Request.Steps.{
  url_set-Owned, set_content-Owned, post-Owned, build-Owned, end_builder-Owned,
}

move_construct-Owned : (r : ℕ) (s t : State) → move_construct r s ≡ some t → Owned s → Owned t
unfolding move_construct
move_construct-Owned r s t e o =
    let (x, found, there, result) = there_request r s t _ e in
    let y = record x { curl = none } in
    let new : HttpRequest = record { curl = x.curl; alive = true } in
    let rest = set s.requests r y in
    let m : Owned (record s { requests = rest ++ new ∷ [] }) = record {
      good = o.good;
      owns = λ g. ground (
        arith,
        o.owns g,
        there,
        total-set (request_holds g) s.requests r x y found,
        total-append (request_holds g) rest (new ∷ []),
      );
    } in
    subst Owned (ground (arith, result)) m

move_assign-Owned : (a r : ℕ) (s t : State) → move_assign a r s ≡ some t → Owned s → Owned t
unfolding move_assign
move_assign-Owned a r s t e o =
    let (x, found, there, rest) = there_request a s t _ e in
    let (y, found', there', result) = there_request r s t _ rest in
    let x' = record x { curl = y.curl } in
    let y' = record y { curl = x.curl } in
    let G = get_elem?-set s.requests a x x' found r in
    let m : Owned (record s { requests = set (set s.requests a x') r y' }) = record {
      good = o.good;
      owns = λ g. elim (Bool-cases (r == a)) [
        | inl same ↦ ground (
          arith,
          o.owns g,
          there,
          there',
          found,
          found',
          same,
          G,
          total-set (request_holds g) s.requests a x x' found,
          total-set (request_holds g) (set s.requests a x') r x' y' (ground (arith, same, G)),
        )
        | inr apart ↦ ground (
          arith,
          o.owns g,
          there,
          there',
          apart,
          G,
          total-set (request_holds g) s.requests a x x' found,
          total-set (request_holds g) (set s.requests a x') r y y'
              (ground (arith, apart, G, found')),
        )
      ];
    } in
    subst Owned (ground (arith, result)) m

end_request-Owned : (r : ℕ) (s t : State) → end_request r s ≡ some t → Owned s → Owned t
unfolding end_request
end_request-Owned r s t e o =
    let (x, found, there, result) = there_request r s t _ e in
    let w = easy_cleanup x.curl s.world in
    let y = record x { alive = false } in
    let cleaned = easy_cleanup-Ends x.curl s.world (request-IsLive r x s found there o) o.good in
    let m : Owned (record s { world = w; requests = set s.requests r y }) = record {
      good = cleaned.0;
      owns = λ g.
          ground (
            arith,
            o.owns g,
            there,
            cleaned.1 g,
            total-set (request_holds g) s.requests r x y found,
          );
    } in
    subst Owned (ground (arith, result)) m

pub init-Owned : Owned init
init-Owned = record {
  good = record { sane = refl; plain = λ h. ground arith };
  owns = λ h. ground arith;
}

module _ {Double : Type 0} (curl : Curl Double) where
  make_builder-Owned : (s t : State) → make_builder curl s ≡ some t → Owned s → Owned t
  unfolding make_builder
  make_builder-Owned s t e o =
      let (handle, w) = easy_init curl s.world in
      let made = easy_init-Makes curl s.world o.good in
      elim (Option-cases handle) [
        | inl null ↦ absurd (ground (arith, e, null))
        | inr (h, found) ↦
            let b : Builder = record { curl = some h; content = none; alive = true } in
            let m : Owned (record s { world = w; builders = s.builders ++ b ∷ [] }) = record {
              good = made.0;
              owns = λ g. ground (
                arith,
                o.owns g,
                made.1 g,
                found,
                total-append (builder_holds g) s.builders (b ∷ []),
              );
            } in
            subst Owned (ground (arith, e, found)) m
      ]

  run_request-Owned : (r : ℕ) (s t : State) → run_request curl r s ≡ some t → Owned s → Owned t
  unfolding run_request run_transfer
  run_request-Owned r s t e o =
      let (x, found, there, result) = there_request r s t _ e in
      let k = easy_perform-Keeps curl x.curl s.world (request-IsLive r x s found there o) o.good in
      subst Owned (ground (arith, result)) (kept-Owned s (easy_perform curl x.curl s.world).1 k o)

  step-Owned : (x : Event) (s t : State) → step curl x s ≡ some t → Owned s → Owned t
  unfolding step
  step-Owned makes_builder s t e o = make_builder-Owned s t e o
  step-Owned (sets_url b url) s t e o = url_set-Owned b url s t e o
  step-Owned (posts b url content) s t e o = post-Owned b url content s t e o
  step-Owned (sets_content b body) s t e o = set_content-Owned b body s t e o
  step-Owned (builds b) s t e o = build-Owned b s t e o
  step-Owned (ends_builder b) s t e o = end_builder-Owned b s t e o
  step-Owned (moves r) s t e o = move_construct-Owned r s t e o
  step-Owned (assigns a r) s t e o = move_assign-Owned a r s t e o
  step-Owned (runs r) s t e o = run_request-Owned r s t e o
  step-Owned (ends r) s t e o = end_request-Owned r s t e o

  pub run-Owned : (es : List Event) (s t : State) → run curl es s ≡ some t → Owned s → Owned t
  unfolding run
  run-Owned [] s t e o = subst Owned (ground (arith, e)) o
  run-Owned (x ∷ es) s t e o = elim (Option-cases (step curl x s)) [
    | inl stuck ↦ absurd (ground (arith, e, stuck))
    | inr (u, moved) ↦ run-Owned es u t (ground (arith, e, moved)) (step-Owned x s u moved o)
  ]

  -- Whatever builders and requests are made, moved, swapped, run and ended: no call of libcurl gets a
  -- handle behind its cleanup; each handle that is not released is held by exactly one builder or
  -- request that is there, and one that is released by none. So when all objects have ended, all
  -- handles are released.
  pub request_ownership :
      (es : List Event) (s : State)
      → run curl es init ≡ some s
      → (s.world.failed ≡ false) × ((h : ℕ) → holders h s ≡ living h s.world)
  request_ownership es s e = let o = run-Owned es init s e init-Owned in (o.good.sane, o.owns)
