-- ===== src/Net/Request/Handles.antt =====
-- What the calls of libcurl do to the handles that are there.
use magic_core.Prelude.{
  ℕ, ◌+◌, ◌≤◌, ◌≡◌, refl, inl, inr, true, false, Bool-cases, Option, Option-cases, none, some, ◌==◌,
  get_elem?, if◌then◌else◌, arith,
}
use magic_core.Prelude.Totals.{get_elem?-append_last, get_elem?-set, get_elem?-length}
use magic_core.Text.Bytes.{Bytes}
use magic_core.Net.Request.{end_content}
use magic_core.Net.Curl.{
  Curl, Easy, World, easy_init, set_url, set_post_fields, set_post_size, easy_cleanup, new_string,
  end_string, easy_perform, put_easy,
}

abbrev alive_at : Option Easy → ℕ
alive_at none = 0
alive_at (some e) = if e.alive then 1 else 0

abbrev headers_at : Option Easy → Option ℕ
headers_at none = none
headers_at (some e) = e.http_headers

-- 1 for a handle that is there.
abbrev pub living : ℕ → World → ℕ
living h w = alive_at (get_elem? w.easies h)

-- 1 for the handle that a pointer holds.
abbrev pub points : ℕ → Option ℕ → ℕ
points h none = 0
points h (some g) = if h == g then 1 else 0

-- No call has failed, and no handle has a list of header lines.
pub record IsGood (w : World) : Type 0 where
  pub sane : w.failed ≡ false
  pub plain : (h : ℕ) → headers_at (get_elem? w.easies h) ≡ none

-- A call that keeps the handles.
abbrev pub Keeps : World → World → Type 0
Keeps w w' = IsGood w' × ((h : ℕ) → living h w' ≡ living h w)

-- A pointer to a handle that is there, or NULL
abbrev pub IsLive : Option ℕ → World → Type 0
IsLive c w = (h : ℕ) → points h c ≤ living h w

pub live_easy :
    (h : ℕ) (w : World)
    → IsLive (some h) w
    → (e : Easy) × (get_elem? w.easies h ≡ some e) × (e.alive ≡ true)
live_easy h w live = elim (Option-cases (get_elem? w.easies h)) [
  | inl missing ↦ absurd (ground (arith, live h, missing))
  | inr (e, found) ↦ (e, found, ground (arith, live h, found))
]

put-Keeps :
    (h : ℕ) (e e' : Easy) (w : World)
    → get_elem? w.easies h ≡ some e
    → e.alive ≡ true
    → e'.alive ≡ true
    → e'.http_headers ≡ e.http_headers
    → IsGood w
    → Keeps w (put_easy h e' w)
put-Keeps h e e' w found there there' same good =
    let G = get_elem?-set w.easies h e e' found in
    (
      record { sane = good.sane; plain = λ g. ground (arith, G g, found, same, good.plain g) },
      λ g. ground (arith, G g, found, there, there'),
    )

pub set_url-Keeps :
    (c : Option ℕ) (url : Bytes) (w : World) → IsLive c w → IsGood w → Keeps w (set_url c url w)
unfolding set_url
set_url-Keeps none url w live good = (good, λ h. refl)
set_url-Keeps (some h) url w live good =
    let (e, found, there) = live_easy h w live in
    let m = put-Keeps h e (record e { url = some url }) w found there there refl good in
    ground (arith, found, there, m)

pub set_post_fields-Keeps :
    (c : Option ℕ) (a : ℕ) (w : World) → IsLive c w → IsGood w → Keeps w (set_post_fields c a w)
unfolding set_post_fields
set_post_fields-Keeps none a w live good = (good, λ h. refl)
set_post_fields-Keeps (some h) a w live good =
    let (e, found, there) = live_easy h w live in
    let m = put-Keeps h e (record e { post_fields = some a }) w found there there refl good in
    ground (arith, found, there, m)

pub set_post_size-Keeps :
    (c : Option ℕ) (a : ℕ) (w : World) → IsLive c w → IsGood w → Keeps w (set_post_size c a w)
unfolding set_post_size
set_post_size-Keeps none a w live good = (good, λ h. refl)
set_post_size-Keeps (some h) a w live good =
    let (e, found, there) = live_easy h w live in
    let m = put-Keeps h e (record e { post_size = some a }) w found there there refl good in
    ground (arith, found, there, m)

pub easy_perform-Keeps :
    {Double : Type 0} (curl : Curl Double) (c : Option ℕ) (w : World)
    → IsLive c w
    → IsGood w
    → Keeps w (easy_perform curl c w).1
unfolding easy_perform
easy_perform-Keeps curl none w live good = (good, λ h. refl)
easy_perform-Keeps curl (some h) w live good =
    let (e, found, there) = live_easy h w live in
    ground (arith, found, there, good.plain h, good.sane)

-- The handle is gone, and the others are there.
pub easy_cleanup-Ends :
    (c : Option ℕ) (w : World)
    → IsLive c w
    → IsGood w
    → IsGood (easy_cleanup c w) × ((h : ℕ) → living h (easy_cleanup c w) + points h c ≡ living h w)
unfolding easy_cleanup
easy_cleanup-Ends none w live good = (good, λ h. omega arith)
easy_cleanup-Ends (some h) w live good =
    let (e, found, there) = live_easy h w live in
    let G = get_elem?-set w.easies h e (record e { alive = false }) found in
    let m : IsGood (put_easy h (record e { alive = false }) w) = record {
      sane = good.sane;
      plain = λ g. ground (arith, G g, found, good.plain g);
    } in
    (ground (arith, found, there, m), λ g. ground (arith, found, there, G g))

-- A new handle, or NULL
pub easy_init-Makes :
    {Double : Type 0} (curl : Curl Double) (w : World)
    → IsGood w
    → IsGood (easy_init curl w).1
      × ((h : ℕ) → living h (easy_init curl w).1 ≡ living h w + points h (easy_init curl w).0)
unfolding easy_init
easy_init-Makes curl w good =
    let e : Easy = record {
      url = none;
      post_fields = none;
      post_size = none;
      http_headers = none;
      alive = true;
    } in
    let G = get_elem?-append_last w.easies e in
    let out = get_elem?-length w.easies in
    elim (Bool-cases (curl.init_succeeds w.inits)) [
      | inr h ↦ ground (arith, h, good)
      | inl h ↦ (
        record {
          sane = ground (arith, h, good.sane);
          plain = λ g. ground (arith, h, G g, out, good.plain g);
        },
        λ g. ground (arith, h, G g, out),
      )
    ]

pub IsLive-Keeps : (c : Option ℕ) (w w' : World) → Keeps w w' → IsLive c w → IsLive c w'
IsLive-Keeps c w w' k live = λ h. omega (arith, live h, k.1 h)

pub Keeps-Keeps : (w w' w'' : World) → Keeps w w' → Keeps w' w'' → Keeps w w''
Keeps-Keeps w w' w'' k l = (l.0, λ h. omega (arith, k.1 h, l.1 h))

pub new_string-Keeps : (text : Bytes) (w : World) → IsGood w → Keeps w (new_string text w).1
unfolding new_string
new_string-Keeps text w good = (record { sane = good.sane; plain = good.plain }, λ h. refl)

pub end_string-Keeps : (a : ℕ) (w : World) → IsGood w → Keeps w (end_string a w)
unfolding end_string
end_string-Keeps a w good = (record { sane = good.sane; plain = good.plain }, λ h. refl)

pub end_content-Keeps : (c : Option ℕ) (w : World) → IsGood w → Keeps w (end_content c w)
end_content-Keeps none w good = (good, λ h. refl)
end_content-Keeps (some a) w good = end_string-Keeps a w good
