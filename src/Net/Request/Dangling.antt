-- ===== src/Net/Request/Dangling.antt =====
-- The body that SetContent gives to libcurl.
use magic_core.Prelude.{
  sym, refl, zero, suc, ◌<◌, set, ℕ, ◌≡◌, inl, inr, subst, true, Option-cases, none, some, List, [],
  ◌∷◌, length, get_elem?, arith,
}
use magic_core.Prelude.Totals.{get_elem?-set, get_elem?-append_last, set-append_last}
use magic_core.Text.Bytes.{Bytes}
use magic_core.Net.Curl.{
  set_post_size, Options, fields_of, headers_of, Curl, Easy, World, gone, set_post_fields,
  new_string, end_string, easy_perform,
}
use magic_core.Net.Request.{
  Builder, HttpRequest, State, Event, sets_content, builds, runs, init, set_content, build,
  run_transfer, run_request, step, run,
}
use magic_core.Net.Request.Handles.{live_easy}
use magic_core.Net.Request.Ownership.{Owned, there_builder, there_request, builder-IsLive}
use magic_core.Net.Request.Release.{init-Owned, run-Owned}

-- The handle has an address of a string that is destroyed.
abbrev IsDangling : ℕ → ℕ → World → Type 0
IsDangling h size w =
    (e : Easy) × (get_elem? w.easies h ≡ some e)
    × (e.alive ≡ true)
    × (gone w.strings e.post_fields ≡ true)
    × (e.post_size ≡ some size)

ended_string :
    (text : Bytes) (h : ℕ) (e : Easy) (w : World)
    → get_elem? w.easies h ≡ some e
    → e.alive ≡ true
    → let (address, v) = new_string text w in
      IsDangling h (length text) (
        end_string address
          (set_post_fields (some h) address (set_post_size (some h) (length text) v)))
unfolding new_string end_string set_post_fields set_post_size
ended_string text h e w found there =
    let a = length w.strings in
    let n = length text in
    let sized = record e { post_size = some n } in
    let e' = record sized { post_fields = some a } in
    let F = get_elem?-set w.easies h e sized found in
    let G = get_elem?-set (set w.easies h sized) h sized e' (ground (arith, F h)) in
    (
      e',
      ground (arith, found, there, F h, G h),
      there,
      ground (
        arith,
        found,
        there,
        F h,
        set-append_last w.strings (some text) none,
        get_elem?-append_last w.strings none a,
      ),
      refl,
    )

set_content_keeps :
    (b : ℕ) (body : Bytes) (s t : State)
    → set_content b body s ≡ some t
    → (t.builders ≡ s.builders)
      × (t.requests ≡ s.requests)
      × (t.world.transfers ≡ s.world.transfers)
unfolding set_content new_string set_post_size set_post_fields end_string
set_content_keeps b body s t e =
    let (x, found, there, result) = there_builder b s t _ e in
    (ground (arith, result), ground (arith, result), ground (arith, result))

content_IsDangling :
    (b h : ℕ) (body : Bytes) (x : Builder) (s t : State)
    → Owned s
    → get_elem? s.builders b ≡ some x
    → x.curl ≡ some h
    → set_content b body s ≡ some t
    → IsDangling h (length body) t.world
unfolding set_content
content_IsDangling b h body x s t o found holds e =
    let (y, found', there, result) = there_builder b s t _ e in
    let same : x ≡ y = ground (arith, found, found') in
    let live = builder-IsLive b y s found' there o in
    let (easy, at_h, up) = live_easy h s.world (λ g. ground (arith, live g, holds, same)) in
    let (address, v) = new_string body s.world in
    let w =
      end_string address
        (set_post_fields (some h) address (set_post_size (some h) (length body) v)) in
    subst (IsDangling h (length body)) {x = w} {y = t.world} (ground (arith, result, holds, same))
      (ended_string body h easy s.world at_h up)

module _ {Double : Type 0} (curl : Curl Double) where
  -- libcurl comes to the body in the transfer behind `n` others, of a handle with this size of it.
  abbrev pub SendsBody : (n size : ℕ) → Type 0
  SendsBody n size =
      (options : Options)
      → options.post_size ≡ some size
      → (curl.transfer n options).reads_fields ≡ true

  transfer_dangles :
      (h size : ℕ) (w : World)
      → SendsBody w.transfers size
      → 0 < size
      → IsDangling h size w
      → (run_transfer curl (some h) w).1.dangling ≡ true
  unfolding run_transfer easy_perform
  transfer_dangles h zero w sends some_bytes (e, found, there, lost, sized) =
      absurd (omega (arith, some_bytes))
  transfer_dangles h (suc size) w sends some_bytes (e, found, there, lost, sized) =
      let options : Options = record {
        url = e.url;
        post_fields = fields_of e w;
        post_size = e.post_size;
        http_headers = headers_of e w;
      } in
      let body = sends options sized in ground (arith, found, there, lost, sized, body)

  -- Build gives the handle of the builder to a new request, whose Run makes a transfer.
  built_dangles :
      (b n size : ℕ) (s t u : State)
      → SendsBody s.world.transfers size
      → 0 < size
      → length s.requests ≡ n
      → ((x : Builder) (h : ℕ)
          → get_elem? s.builders b ≡ some x
          → x.curl ≡ some h
          → IsDangling h size s.world)
      → build b s ≡ some t
      → run_request curl n t ≡ some u
      → u.world.dangling ≡ true
  unfolding build run_request
  built_dangles b n size s t u sends some_bytes count lost e e' =
      let (x, found, there, result) = there_builder b s t _ e in
      elim (Option-cases x.curl) [
        | inl null ↦ absurd (ground (arith, result, null))
        | inr (h, holds) ↦
            let new : HttpRequest = record { curl = some h; alive = true } in
            let (r, found', there', result') = there_request n t u _ e' in
            let G = get_elem?-append_last s.requests new n in
            let d = transfer_dangles h size s.world sends some_bytes (lost x h found holds) in
            ground (arith, result, result', holds, found', count, G, d)
      ]

  -- SetContent gives libcurl the address of its own parameter: in every state that a program can
  -- reach, for every body that is not empty, the request that Build makes next reads a string that is
  -- destroyed when it is run, provided that libcurl comes to sending the body in that transfer.
  pub set_content_dangles :
      (es : List Event) (b : ℕ) (body : Bytes) (s t : State)
      → SendsBody s.world.transfers (length body)
      → 0 < length body
      → run curl es init ≡ some s
      → run curl (sets_content b body ∷ builds b ∷ runs (length s.requests) ∷ []) s ≡ some t
      → t.world.dangling ≡ true
  unfolding run step
  set_content_dangles es b body s t sends some_bytes e e' =
      let o = run-Owned curl es init s e init-Owned in
      elim (Option-cases (set_content b body s)) [
        | inl stuck ↦ absurd (ground (arith, e', stuck))
        | inr (u, moved) ↦ elim (Option-cases (build b u)) [
          | inl stuck ↦ absurd (ground (arith, e', moved, stuck))
          | inr (v, built) ↦ elim (Option-cases (run_request curl (length s.requests) v)) [
            | inl stuck ↦ absurd (ground (arith, e', moved, built, stuck))
            | inr (w, ran) ↦
                let (same, same', made) = set_content_keeps b body s u moved in
                let d =
                  built_dangles b (length s.requests) (length body) u v w
                    (subst (λ n. SendsBody n (length body)) (sym made) sends) some_bytes
                    (ground (arith, same'))
                    (λ x h f c.
                      content_IsDangling b h body x s u o (ground (arith, f, same)) c moved)
                    built ran in
                ground (arith, e', moved, built, ran, d)
          ]
        ]
      ]
