-- ===== src/Net/Request.antt =====
-- src/magic/net/http/request.h and request_builder.h: a handle goes from a builder to a request, and
-- from request to request. An assert that fails is `none`.
pub mod Dangling
mod Examples
pub mod Handles
pub mod Ownership
pub mod Release
pub mod Steps
use magic_core.Prelude.{
  ℕ, suc, ◌+◌, Bool, true, false, Option, none, some, List, [], ◌∷◌, ◌++◌, ◌==◌, length, get_elem?,
  set, if◌then◌else◌,
}
use magic_core.Text.Bytes.{Bytes}
use magic_core.Net.Curl.{
  Transfer, Curl, World, easy_init, set_url, set_post_fields, set_post_size, easy_cleanup,
  new_string, end_string, easy_perform,
}
use magic_core.Net.Client.{Answer, respond}

-- HttpRequestBuilder
pub record Builder : Type 0 where
  pub curl : Option ℕ
  pub content : Option ℕ  -- the address of content_, once Post has set it
  pub alive : Bool

-- HttpRequest
pub record HttpRequest : Type 0 where
  pub curl : Option ℕ
  pub alive : Bool

pub record State : Type 0 where
  pub world : World
  pub builders : List Builder
  pub requests : List HttpRequest

-- The program makes an object, calls a method of one, or ends one.
pub data Event : Type 0 where
  makes_builder : Event
  sets_url : (builder : ℕ) (url : Bytes) → Event  -- also Get
  posts : (builder : ℕ) (url content : Bytes) → Event
  sets_content : (builder : ℕ) (body : Bytes) → Event
  builds : (builder : ℕ) → Event
  ends_builder : (builder : ℕ) → Event
  moves : (source : ℕ) → Event  -- a new request from another one
  assigns : (target source : ℕ) → Event
  runs : (request : ℕ) → Event
  ends : (request : ℕ) → Event

abbrev pub init : State
init = record {
  world = record {
    easies = [];
    lists = [];
    strings = [];
    inits = 0;
    transfers = 0;
    failed = false;
    dangling = false;
  };
  builders = [];
  requests = [];
}

-- A method of an object that is there
abbrev pub at_builder : ℕ → State → (Builder → Option State) → Option State
at_builder b s k = elim (get_elem? s.builders b) [
  | none ↦ none
  | some builder ↦ if builder.alive then k builder else none
]

abbrev pub at_request : ℕ → State → (HttpRequest → Option State) → Option State
at_request r s k = elim (get_elem? s.requests r) [
  | none ↦ none
  | some request ↦ if request.alive then k request else none
]

abbrev pub put_builder : ℕ → Builder → World → State → State
put_builder b builder w s = record s { world = w; builders = set s.builders b builder }

abbrev pub end_content : Option ℕ → World → World
end_content none w = w
end_content (some address) w = end_string address w

-- SetUrl
pub url_set : ℕ → Bytes → State → Option State
unfolding set_url
url_set b url s =
    at_builder b s λ builder. some (record s { world = set_url builder.curl url s.world })

-- Post; what content_ held before is destroyed.
pub post : ℕ → Bytes → Bytes → State → Option State
unfolding set_url set_post_fields new_string end_string
post b url content s = at_builder b s λ builder.
    let (address, w) = new_string content (end_content builder.content s.world) in
    let w = set_post_fields builder.curl address (set_url builder.curl url w) in
    some (put_builder b (record builder { content = some address }) w s)

-- SetContent, whose parameter ends when it returns
pub set_content : ℕ → Bytes → State → Option State
unfolding set_post_fields set_post_size new_string end_string
set_content b body s = at_builder b s λ builder.
    let (address, w) = new_string body s.world in
    some (record s {
      world =
          end_string address
            (set_post_fields builder.curl address (set_post_size builder.curl (length body) w));
    })

-- Build, with the assert in the constructor of the request
pub build : ℕ → State → Option State
build b s = at_builder b s λ builder. elim builder.curl [
  | none ↦ none
  | some h ↦ some (record (put_builder b (record builder { curl = none }) s.world s) {
    requests = s.requests ++ record { curl = some h; alive = true } ∷ [];
  })
]

-- ~HttpRequestBuilder
pub end_builder : ℕ → State → Option State
unfolding easy_cleanup end_string
end_builder b s = at_builder b s λ builder. some (
    put_builder b (record builder { alive = false })
      (end_content builder.content (easy_cleanup builder.curl s.world)) s)

-- The constructor that swaps with a moved request
pub move_construct : ℕ → State → Option State
move_construct r s = at_request r s λ that. some (record s {
  requests =
      set s.requests r (record that { curl = none })
      ++ record { curl = that.curl; alive = true } ∷ [];
})

-- The assignment that swaps
pub move_assign : ℕ → ℕ → State → Option State
move_assign t r s = at_request t s λ this. at_request r s λ that. some (record s {
  requests =
      set (set s.requests t (record this { curl = that.curl })) r
        (record that { curl = this.curl });
})

-- ~HttpRequest
pub end_request : ℕ → State → Option State
unfolding easy_cleanup
end_request r s = at_request r s λ this. some (record s {
  world = easy_cleanup this.curl s.world;
  requests = set s.requests r (record this { alive = false });
})

-- What Run returns: a response, or the error code of the transfer.
pub data Ran (Double : Type 0) : Type 0 where
  answers : Answer Double → Ran Double
  fails : (result : ℕ) → Ran Double

module _ {Double : Type 0} (curl : Curl Double) where
  -- The constructor of the builder, with the assert in Init
  pub make_builder : State → Option State
  unfolding easy_init
  make_builder s =
      let (handle, w) = easy_init curl s.world in
      elim handle [
        | none ↦ none
        | some h ↦ some (record s {
          world = w;
          builders = s.builders ++ record { curl = some h; content = none; alive = true } ∷ [];
        })
      ]

  pub run_transfer : Option ℕ → World → Ran Double × World
  unfolding easy_perform respond
  run_transfer handle w =
      let (t, w) = easy_perform curl handle w in
      (if t.result == 0 then answers (respond t) else fails t.result, w)

  pub run_request : ℕ → State → Option State
  unfolding run_transfer
  run_request r s =
      at_request r s λ this. some (record s { world = (run_transfer this.curl s.world).1 })

  pub step : Event → State → Option State
  unfolding make_builder url_set post set_content build end_builder move_construct move_assign
      run_request end_request
  step makes_builder s = make_builder s
  step (sets_url b url) s = url_set b url s
  step (posts b url content) s = post b url content s
  step (sets_content b body) s = set_content b body s
  step (builds b) s = build b s
  step (ends_builder b) s = end_builder b s
  step (moves r) s = move_construct r s
  step (assigns t r) s = move_assign t r s
  step (runs r) s = run_request r s
  step (ends r) s = end_request r s

  pub run : List Event → State → Option State
  run [] s = some s
  run (e ∷ es) s = elim (step e s) [ none ↦ none | some t ↦ run es t ]
