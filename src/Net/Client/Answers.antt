-- ===== src/Net/Client/Answers.antt =====
-- What the answer to a transfer is, by the documented meaning of its parts.
use magic_core.Prelude.{
  ◌≡◌, inl, inr, sym, ◌∙◌, Bool-cases, List, [], ◌∷◌, ◌++◌, ◌==◌, if◌then◌else◌, arith,
}
use mathlib.Core.List.{append_assoc, append-nil}
use magic_core.Text.Bytes.{Bytes}
use magic_core.Net.Header.{Outcome, parsed, assertion, out_of_fuel, parse}
use magic_core.Net.Status.{from_status_code}
use magic_core.Net.Curl.{Transfer, Curl}
use magic_core.Net.Client.{Answer, responds, throws, aborts, write_function, receive, respond}
use magic_core.Net.Client.Calls.{answered}

abbrev pub joined : List Bytes → Bytes
joined [] = []
joined (block ∷ blocks) = block ++ joined blocks

receive-joined : (text : Bytes) (blocks : List Bytes) → receive text blocks ≡ text ++ joined blocks
unfolding receive write_function
receive-joined text [] = sym (append-nil text)
receive-joined text (block ∷ blocks) =
    receive-joined (text ++ block) blocks ∙ append_assoc text block (joined blocks)

module _ {Double : Type 0} where
  -- The response to a transfer that went well, by what the parser makes of the header
  abbrev pub specified_response : Transfer Double → Outcome → Answer Double
  specified_response t (parsed fields) = responds record {
    status = from_status_code t.response_code;
    header = fields;
    metrics = record {
      download_bytes = t.size_download;
      upload_bytes = t.size_upload;
      average_download_speed = t.speed_download;
      average_upload_speed = t.speed_upload;
      duration = t.total_time;
    };
    url = t.effective_url;
    content = joined t.content_blocks;
  }
  specified_response t assertion = aborts
  specified_response t out_of_fuel = aborts

  abbrev pub specified : Curl Double → Transfer Double → Answer Double
  specified curl t =
      if t.result == 0
      then specified_response t (parse (joined t.header_blocks))
      else throws (curl.strerror t.result)

  respond-specified :
      (t : Transfer Double) → respond t ≡ specified_response t (parse (joined t.header_blocks))
  unfolding respond
  respond-specified t =
      ground (arith, receive-joined [] t.header_blocks, receive-joined [] t.content_blocks)

  pub answers : (curl : Curl Double) (t : Transfer Double) → answered curl t ≡ specified curl t
  answers curl t = elim (Bool-cases (t.result == 0)) [
    | inl good ↦ ground (arith, good, respond-specified t)
    | inr bad ↦ ground (arith, bad)
  ]
