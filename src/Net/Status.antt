-- ===== src/Net/Status.antt =====
-- src/magic/net/http/status.h and status.cpp: status codes and their texts. std::to_string is a
-- parameter.
pub mod Texts
mod Examples
use magic_core.Prelude.{
  ℕ, suc, ◌+◌, ◌-◌, ◌%◌, ◌^◌, Bool, not, Option, none, some, List, [], ◌∷◌, ◌++◌, ◌==◌,
  if◌then◌else◌,
}
use magic_core.Prelude.Int.{ℤ, pos, negsuc}
use magic_core.Text.Bytes.{Bytes, bytes}

-- An enum over uint16_t holds every value of that type.
pub record HttpStatus : Type 0 where
  pub value : ℕ

-- FromStatusCode: static_cast to uint16_t
pub from_status_code : ℤ → HttpStatus
from_status_code (pos n) = record { value = n % 2 ^ 16 }
from_status_code (negsuc n) = record { value = 2 ^ 16 - suc (n % 2 ^ 16) }

pub equals : HttpStatus → ℕ → Bool
equals s code = s.value == code

pub differs : HttpStatus → ℕ → Bool
differs s code = not (s.value == code)

-- The cases of ToString for the named codes but Invalid.
abbrev pub named : List (ℕ × Bytes)
named =
    (200, bytes "200 OK")
    ∷ (201, bytes "201 Created")
    ∷ (204, bytes "204 NoContent")
    ∷ (400, bytes "400 BadRequest")
    ∷ (404, bytes "404 Not Found")
    ∷ (409, bytes "409 Conflict")
    ∷ (500, bytes "500 Internal Server Error")
    ∷ (502, bytes "502 Bad Gateway")
    ∷ (503, bytes "503 Service Unavailable")
    ∷ (504, bytes "504 Gateway Timeout")
    ∷ (507, bytes "507 Insufficient Storage")
    ∷ (509, bytes "509 Bandwidth Limit Exceeded")
    ∷ (520, bytes "520 Web Server Is Down")
    ∷ (522, bytes "522 Connection Timed Out")
    ∷ (523, bytes "523 Origin Is Unreachable")
    ∷ (524, bytes "524 A Timeout Occurred")
    ∷ (525, bytes "525 SSL Handshake Failed")
    ∷ (526, bytes "526 Invalid SSL Certificate")
    ∷ []

abbrev pub text_of : List (ℕ × Bytes) → ℕ → Option Bytes
text_of [] v = none
text_of ((code, text) ∷ cases) v = if v == code then some text else text_of cases v

pub to_string : (to_decimal : ℕ → Bytes) → HttpStatus → Bytes
to_string to_decimal s = elim (text_of ((0, bytes "Invalid status") ∷ named) s.value) [
  | none ↦ bytes "Unknown HttpStatusCode (" ++ to_decimal s.value ++ bytes ")"
  | some text ↦ text
]
