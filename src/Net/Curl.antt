-- ===== src/Net/Curl.antt =====
-- What src/magic/net hands to libcurl: a ledger of the handles, the lists of header lines and the
-- strings behind POSTFIELDS, which shows what is used behind its end. What a transfer does is a
-- parameter: it may depend on the options of the handle and on how many there were before. By its
-- documentation libcurl copies the other strings, reads the one at POSTFIELDS and the list in the
-- transfer, and ignores NULL (`none`) in setopt and cleanup.
use magic_core.Prelude.{
  ℕ, zero, suc, Bool, true, false, ◌||◌, ◌&&◌, Option, none, some, List, [], ◌∷◌, ◌++◌, length,
  get_elem?, set, if◌then◌else◌,
}
use magic_core.Prelude.Int.{ℤ}
use magic_core.Text.Bytes.{Bytes}

-- What is set on a handle, as a transfer reads it.
pub record Options : Type 0 where
  pub url : Option Bytes
  pub post_fields : Option Bytes
  pub post_size : Option ℕ
  pub http_headers : List Bytes

-- A transfer, with the blocks for the two write functions and what getinfo says behind it.
pub record Transfer (Double : Type 0) : Type 0 where
  pub result : ℕ  -- a CURLcode; 0 is CURLE_OK
  pub reads_fields : Bool  -- it has come to the body, unless its size is 0
  pub content_blocks : List Bytes
  pub header_blocks : List Bytes
  pub response_code : ℤ
  pub effective_url : Bytes
  pub total_time : Double
  pub size_download : Double
  pub size_upload : Double
  pub speed_download : Double
  pub speed_upload : Double

pub record Curl (Double : Type 0) : Type 0 where
  pub init_succeeds : ℕ → Bool
  pub transfer : ℕ → Options → Transfer Double
  pub refused : Transfer Double  -- of NULL
  pub strerror : ℕ → Bytes

-- A handle
pub record Easy : Type 0 where
  pub url : Option Bytes
  pub post_fields : Option ℕ
  pub post_size : Option ℕ  -- with none, the string at POSTFIELDS ends with a zero
  pub http_headers : Option ℕ
  pub alive : Bool

pub record World : Type 0 where
  pub easies : List Easy
  pub lists : List (Option (List Bytes))  -- `none` is a list that is freed
  pub strings : List (Option Bytes)  -- those with an address; `none` is one that is destroyed
  pub inits : ℕ
  pub transfers : ℕ
  pub failed : Bool  -- a handle or a list is used after its end
  pub dangling : Bool  -- a transfer has read a string that is destroyed

abbrev pub misuse : World → World
misuse w = record w { failed = true }

module _ {Double : Type 0} (curl : Curl Double) where
  abbrev fresh_easy : Easy
  fresh_easy = record {
    url = none;
    post_fields = none;
    post_size = none;
    http_headers = none;
    alive = true;
  }

  unfoldable pub easy_init : World → Option ℕ × World
  easy_init w =
      if curl.init_succeeds w.inits
      then (
        some (length w.easies),
        record w { easies = w.easies ++ fresh_easy ∷ []; inits = suc w.inits },
      )
      else (none, record w { inits = suc w.inits })

-- A call with a handle
abbrev on_easy : Option ℕ → World → (ℕ → Easy → World) → World
on_easy none w k = w
on_easy (some h) w k = elim (get_elem? w.easies h) [
  | none ↦ misuse w
  | some e ↦ if e.alive then k h e else misuse w
]

abbrev pub put_easy : ℕ → Easy → World → World
put_easy h e w = record w { easies = set w.easies h e }

-- CURLOPT_URL
unfoldable pub set_url : Option ℕ → Bytes → World → World
set_url handle url w = on_easy handle w λ h e. put_easy h (record e { url = some url }) w

-- CURLOPT_POSTFIELDS
unfoldable pub set_post_fields : Option ℕ → ℕ → World → World
set_post_fields handle address w =
    on_easy handle w λ h e. put_easy h (record e { post_fields = some address }) w

-- CURLOPT_POSTFIELDSIZE_LARGE
unfoldable pub set_post_size : Option ℕ → ℕ → World → World
set_post_size handle size w =
    on_easy handle w λ h e. put_easy h (record e { post_size = some size }) w

-- CURLOPT_HTTPHEADER
unfoldable pub set_http_header : Option ℕ → ℕ → World → World
set_http_header handle list w =
    on_easy handle w λ h e. put_easy h (record e { http_headers = some list }) w

unfoldable pub easy_cleanup : Option ℕ → World → World
easy_cleanup handle w = on_easy handle w λ h e. put_easy h (record e { alive = false }) w

-- curl_slist_append to the empty list
unfoldable pub slist_append : Bytes → World → ℕ × World
slist_append text w = (length w.lists, record w { lists = w.lists ++ some (text ∷ []) ∷ [] })

unfoldable pub slist_free_all : ℕ → World → World
slist_free_all l w = elim (get_elem? w.lists l) [
  | none ↦ misuse w
  | some none ↦ misuse w
  | some (some texts) ↦ record w { lists = set w.lists l none }
]

-- A string of the program with an address, and its end.
unfoldable pub new_string : Bytes → World → ℕ × World
new_string text w = (length w.strings, record w { strings = w.strings ++ some text ∷ [] })

unfoldable pub end_string : ℕ → World → World
end_string address w = record w { strings = set w.strings address none }

-- What is at an address or in a list, unless it has come to its end.
abbrev at_address {ℓ} : {A : Type ℓ} → List (Option A) → ℕ → Option A
at_address items i = elim (get_elem? items i) [ none ↦ none | some item ↦ item ]

abbrev pub fields_of : Easy → World → Option Bytes
fields_of e w = elim e.post_fields [ none ↦ none | some address ↦ at_address w.strings address ]

abbrev pub headers_of : Easy → World → List Bytes
headers_of e w = elim e.http_headers [
  | none ↦ []
  | some list ↦ elim (at_address w.lists list) [ none ↦ [] | some texts ↦ texts ]
]

abbrev pub gone {ℓ} : {A : Type ℓ} → List (Option A) → Option ℕ → Bool
gone items none = false
gone items (some i) = elim (at_address items i) [ none ↦ true | some item ↦ false ]

-- Whether the transfer reads the string at POSTFIELDS; a body of size 0 is not read.
abbrev pub reads_body : Option ℕ → Bool → Bool
reads_body (some zero) reads = false
reads_body _ reads = reads

module _ {Double : Type 0} (curl : Curl Double) where
  abbrev pub transfer_of : Easy → World → Transfer Double
  transfer_of e w = curl.transfer w.transfers record {
    url = e.url;
    post_fields = fields_of e w;
    post_size = e.post_size;
    http_headers = headers_of e w;
  }

  abbrev pub performed : Easy → World → Transfer Double × World
  performed e w = (
    transfer_of e w,
    record w {
      transfers = suc w.transfers;
      failed = w.failed || gone w.lists e.http_headers;
      dangling =
          w.dangling
          || (gone w.strings e.post_fields
              && reads_body e.post_size (transfer_of e w).reads_fields);
    },
  )

  unfoldable pub easy_perform : Option ℕ → World → Transfer Double × World
  easy_perform none w = (curl.refused, w)
  easy_perform (some h) w = elim (get_elem? w.easies h) [
    | none ↦ (curl.refused, misuse w)
    | some e ↦ if e.alive then performed e w else (curl.refused, misuse w)
  ]
