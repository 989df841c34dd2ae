-- ===== src/Net/Header/Examples.antt =====
-- The header of a small response.
use magic_core.Prelude.{◌≡◌, ◌≢◌, refl, List, [], ◌∷◌, ◌++◌, All}
use magic_core.Text.Bytes.{Bytes, bytes, contains}
use magic_core.Text.Reader.{reader}
use magic_core.Net.Header.{parsed, assertion, out_of_fuel, parse_fields, parse}
use magic_core.Net.Header.Total.{parse_total}
use magic_core.Net.Header.Fields.{header_text, IsField, store_all, parse_response, parse_no_colon}

abbrev fields : List (Bytes × Bytes)
fields = (bytes "Server", bytes "nginx 1.2") ∷ (bytes "Age", bytes "7") ∷ []

fields-IsField : All IsField fields
unfolding contains
fields-IsField = ((refl, refl, refl, refl), ((refl, refl, refl, refl), tt))

parse_total_example : parse (bytes "HTTP/1.1 200 OK") ≢ out_of_fuel
parse_total_example = parse_total (bytes "HTTP/1.1 200 OK")

parse_response_example :
    parse (bytes "HTTP" ++ (bytes "/1.1 200 OK" ++ 13 ∷ 10 ∷ header_text fields))
    ≡ parsed (store_all fields [])
parse_response_example =
    parse_response (bytes "/1.1 200 OK") fields (unfold contains in refl) fields-IsField

garbage_parsed : parse_fields 9 (reader (bytes "garbage")) [] ≡ assertion
garbage_parsed = parse_no_colon 8 (bytes "garbage") [] refl (unfold contains in refl)
