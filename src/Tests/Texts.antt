-- ===== src/Tests/Texts.antt =====
-- Forms, cookies and methods at concrete inputs.
use pheidippides.Prelude.{
  text_eq, codes, List, [], ◌∷◌, ◌++◌, map, some, ok, err, Text, All, Lacks, eq_text, refl, ◌≡◌,
  arith,
}
use pheidippides.Prelude.Maps
use pheidippides.Cookies.{Headers, get_cookies_hashmap}
use pheidippides.Cookies.Laws.{IsCookie, jar, cookie_list, get_cookies-cookie_list}
use pheidippides.FormData
use pheidippides.FormData.{cant_parse_value}
use pheidippides.FormData.Laws.{IsField, form, entries, decoded, from_str-form, from_str_empty_last}
use pheidippides.Tests.Base.{same_text}

abbrev fields : List (Text × Text)
fields = (codes "login", codes "ann+lee") ∷ (codes "password", codes "a=b") ∷ []

fields-IsField : All IsField fields
fields-IsField = ground arith

from_str-form_example :
    FormData.from_str same_text (entries 3 []) (form fields) ≡ ok (map (decoded same_text) fields)
from_str-form_example = from_str-form same_text fields fields-IsField (λ p. ground arith)

key-Lacks : Lacks b'=' (codes "message")
key-Lacks = ground arith

from_str_empty_last_example :
    FormData.from_str same_text (entries 4 []) (form (fields ++ (codes "message", []) ∷ []))
    ≡ err (cant_parse_value [])
from_str_empty_last_example =
    from_str_empty_last same_text fields (codes "message") fields-IsField key-Lacks

abbrev cookies : List (Text × Text)
cookies = (codes "sid", codes "7") ∷ (codes "sid", codes "8") ∷ []

lang-IsCookie : All IsCookie ((codes "lang", codes "en") ∷ cookies)
lang-IsCookie = ground arith

abbrev headers : Headers
headers = (codes "cookie", cookie_list (codes "lang", codes "en") cookies) ∷ []

cookie_header :
    Maps.get headers (codes "cookie") ≡ some (cookie_list (codes "lang", codes "en") cookies)
unfolding Maps.get text_eq
cookie_header = refl

get_cookies-cookie_list_example :
    get_cookies_hashmap same_text headers ≡ ok (jar [] ((codes "lang", codes "en") ∷ cookies))
get_cookies-cookie_list_example =
    get_cookies-cookie_list same_text headers (codes "lang", codes "en") cookies lang-IsCookie
      cookie_header

cookies-IsCookie : All IsCookie cookies
cookies-IsCookie = ground arith

bad-Lacks : Lacks b'=' (codes "flag")
bad-Lacks = ground arith
