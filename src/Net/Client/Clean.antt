-- ===== src/Net/Client/Clean.antt =====
-- What Get and PostJson return and what they leave behind.
use magic_core.Prelude.{
  suc, ◌≡◌, refl, inl, inr, sym, subst, Bool, true, false, not, ◌||◌, Option, none, some, List, [],
  ◌∷◌, ◌++◌, length, All, arith, Bool-cases,
}
use mathlib.Core.List.{append-nil}
use magic_core.Text.Bytes.{Bytes}
use magic_core.Net.Curl.{Options, Curl, World}
use magic_core.Net.Client.{Answer, get, post_json}
use magic_core.Net.Client.Answers.{specified, answers}
use magic_core.Net.Client.Calls.{
  live, requested, left_by_post, got, posted, get_opened, get_refused, post_opened, post_refused,
  json_type,
}

-- The items behind those of before are all ended.
abbrev Ended {ℓ} : {A : Type ℓ} → (A → Bool) → List A → List A → Type ℓ
Ended {A = A} ended before after =
    (own : List A) × (after ≡ before ++ own) × All (λ x. ended x ≡ true) own

abbrev is_freed {ℓ} : {A : Type ℓ} → Option A → Bool
is_freed none = true
is_freed (some x) = false

-- A call ends every handle, list and string that it makes, leaves the others alone, and uses none
-- behind its end.
pub record IsClean (w w' : World) : Type 0 where
  pub easies : Ended (λ e. not e.alive) w.easies w'.easies
  pub lists : Ended is_freed w.lists w'.lists
  pub strings : Ended is_freed w.strings w'.strings
  pub unfailed : w'.failed ≡ w.failed
  pub undangled : w'.dangling ≡ w.dangling

nothing {ℓ} : {A : Type ℓ} (ended : A → Bool) (xs : List A) → Ended ended xs xs
nothing ended xs = ([], sym (append-nil xs), tt)

or_false : (b : Bool) → (b || false) ≡ b
or_false true = refl
or_false false = refl

module _ {Double : Type 0} (curl : Curl Double) where
  got-IsClean : (url : Bytes) (w : World) → IsClean w (got curl url w).1
  unfolding got
  got-IsClean url w = record {
    easies = (live (some url) none none false ∷ [], refl, (refl, tt));
    lists = nothing is_freed w.lists;
    strings = nothing is_freed w.strings;
    unfailed = or_false w.failed;
    undangled = or_false w.dangling;
  }

  posted-IsClean : (url json : Bytes) (w : World) → IsClean w (posted curl url json w).1
  unfolding posted
  posted-IsClean url json w = record {
    easies = (
      live (some url) (some (length w.strings)) (some (length w.lists)) false ∷ [],
      refl,
      (refl, tt),
    );
    lists = (none ∷ [], refl, (refl, tt));
    strings = (none ∷ [], refl, (refl, tt));
    unfailed = or_false w.failed;
    undangled = or_false w.dangling;
  }

  refused-IsClean :
      (w : World) → IsClean w (record w { inits = suc w.inits }) × IsClean w (left_by_post curl w)
  refused-IsClean w = (
    record {
      easies = nothing _ w.easies;
      lists = nothing is_freed w.lists;
      strings = nothing is_freed w.strings;
      unfailed = refl;
      undangled = refl;
    },
    record {
      easies = nothing _ w.easies;
      lists = (none ∷ [], refl, (refl, tt));
      strings = (none ∷ [], refl, (refl, tt));
      unfailed = refl;
      undangled = refl;
    },
  )

  -- The call has made the transfer with the options, and has left nothing behind.
  abbrev pub IsCall : World → Options → Answer Double × World → Type 0
  IsCall w options r = (r.0 ≡ specified curl (requested curl w options)) × IsClean w r.1

  abbrev pub get_options : Bytes → Options
  get_options url = record {
    url = some url;
    post_fields = none;
    post_size = none;
    http_headers = [];
  }

  abbrev pub post_options : Bytes → Bytes → Options
  post_options url json = record {
    url = some url;
    post_fields = some json;
    post_size = none;
    http_headers = json_type curl ∷ [];
  }

  get-IsCall : (url : Bytes) (w : World) → IsCall w (get_options url) (get curl url w)
  unfolding got
  get-IsCall url w = elim (Bool-cases (curl.init_succeeds w.inits)) [
    | inl h ↦
        subst (IsCall w (get_options url)) (sym (get_opened curl url w h))
          (ground (arith, h, answers curl (requested curl w (get_options url))), got-IsClean url w)
    | inr h ↦
        subst (IsCall w (get_options url)) (sym (get_refused curl url w h))
          (ground (arith, h, answers curl curl.refused), (refused-IsClean w).0)
  ]

  post-IsCall :
      (url json : Bytes) (w : World) → IsCall w (post_options url json) (post_json curl url json w)
  unfolding posted
  post-IsCall url json w = elim (Bool-cases (curl.init_succeeds w.inits)) [
    | inl h ↦ subst (IsCall w (post_options url json)) (sym (post_opened curl url json w h)) (
      ground (arith, h, answers curl (requested curl w (post_options url json))),
      posted-IsClean url json w,
    )
    | inr h ↦
        subst (IsCall w (post_options url json)) (sym (post_refused curl url json w h))
          (ground (arith, h, answers curl curl.refused), (refused-IsClean w).1)
  ]

  -- For every outcome of the transfer, and also where libcurl gives no handle: Get and PostJson make
  -- the transfer for their URL, body and header line. When it fails they throw the text of its error.
  -- When it goes well their response has its status and metrics and the URL that it came to, the
  -- blocks of the content joined in order, and the fields that the parser finds in the joined blocks
  -- of the header, where no assert of the parser fails. They end each handle, list and string they make exactly once, touch no others, and
  -- the transfer reads nothing that has ended.
  pub http_calls :
      (url json : Bytes) (w : World)
      → IsCall w (get_options url) (get curl url w)
        × IsCall w (post_options url json) (post_json curl url json w)
  http_calls url json w = (get-IsCall url w, post-IsCall url json w)
