-- ===== src/Net/Request/Ownership.antt =====
-- Each handle that is there belongs to one builder or one request.
use magic_core.Prelude.{
  ℕ, ◌+◌, ◌≡◌, inl, inr, true, Option, Option-cases, some, get_elem?, if◌then◌else◌, arith,
}
use magic_core.Prelude.Totals.{total, total-set, total-erase_idx}
use magic_core.Net.Curl.{World}
use magic_core.Net.Request.{Builder, HttpRequest, State, at_builder, at_request, put_builder}
use magic_core.Net.Request.Handles.{living, points, IsGood, Keeps, IsLive}

abbrev pub builder_holds : ℕ → Builder → ℕ
builder_holds h b = if b.alive then points h b.curl else 0

abbrev pub request_holds : ℕ → HttpRequest → ℕ
request_holds h r = if r.alive then points h r.curl else 0

-- How many objects hold the handle.
abbrev pub holders : ℕ → State → ℕ
holders h s = total (builder_holds h) s.builders + total (request_holds h) s.requests

pub record Owned (s : State) : Type 0 where
  pub good : IsGood s.world
  pub owns : (h : ℕ) → holders h s ≡ living h s.world

pub there_builder :
    (b : ℕ) (s t : State) (k : Builder → Option State)
    → at_builder b s k ≡ some t
    → (x : Builder) × (get_elem? s.builders b ≡ some x) × (x.alive ≡ true) × (k x ≡ some t)
there_builder b s t k e = elim (Option-cases (get_elem? s.builders b)) [
  | inl missing ↦ absurd (ground (arith, e, missing))
  | inr (x, found) ↦ (x, found, ground (arith, e, found), ground (arith, e, found))
]

pub there_request :
    (r : ℕ) (s t : State) (k : HttpRequest → Option State)
    → at_request r s k ≡ some t
    → (x : HttpRequest) × (get_elem? s.requests r ≡ some x) × (x.alive ≡ true) × (k x ≡ some t)
there_request r s t k e = elim (Option-cases (get_elem? s.requests r)) [
  | inl missing ↦ absurd (ground (arith, e, missing))
  | inr (x, found) ↦ (x, found, ground (arith, e, found), ground (arith, e, found))
]

pub builder-IsLive :
    (b : ℕ) (x : Builder) (s : State)
    → get_elem? s.builders b ≡ some x
    → x.alive ≡ true
    → Owned s
    → IsLive x.curl s.world
builder-IsLive b x s found there o =
    λ h. ground (arith, o.owns h, there, total-erase_idx (builder_holds h) s.builders b x found)

pub request-IsLive :
    (r : ℕ) (x : HttpRequest) (s : State)
    → get_elem? s.requests r ≡ some x
    → x.alive ≡ true
    → Owned s
    → IsLive x.curl s.world
request-IsLive r x s found there o =
    λ h. ground (arith, o.owns h, there, total-erase_idx (request_holds h) s.requests r x found)

-- A world whose handles are the same
pub kept-Owned :
    (s : State) (w : World) → Keeps s.world w → Owned s → Owned (record s { world = w })
kept-Owned s w k o = record { good = k.0; owns = λ h. omega (arith, o.owns h, k.1 h) }

-- A builder that keeps its handle
pub rebuilt-Owned :
    (b : ℕ) (x y : Builder) (s : State)
    → get_elem? s.builders b ≡ some x
    → x.alive ≡ y.alive
    → x.curl ≡ y.curl
    → Owned s
    → Owned (put_builder b y s.world s)
rebuilt-Owned b x y s found alive curl o = record {
  good = o.good;
  owns = λ h.
      ground (arith, o.owns h, alive, curl, total-set (builder_holds h) s.builders b x y found);
}
