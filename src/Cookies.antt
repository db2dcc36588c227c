-- ===== src/Cookies.antt =====
-- lib/pheidippides-utils/src/utils.rs and lib/pheidippides-utils/src/http.rs: header names without
-- case, and cookies.
pub mod Laws
use pheidippides.Prelude.{
  Text, codes, List, [], ◌∷◌, ◌++◌, Option, none, some, Result, ok, err, HashMap, eq_text,
  to_lowercase, split_once,
}
use pheidippides.Prelude.Strings.{split}
use pheidippides.Prelude.Maps

-- The text in lower case, as `From<&str>` builds it.
abbrev pub CaseInsensitiveString : Type 0
CaseInsensitiveString = Text

abbrev pub Header : Type 0
Header = CaseInsensitiveString × Text

abbrev pub Headers : Type 0
Headers = HashMap CaseInsensitiveString Text

pub data CookieParsingError : Type 0 where
  incorrect_header : CookieParsingError

-- The loop over the cookies of the header.
unfoldable pub insert_cookies :
    HashMap Text Text → List Text → Result CookieParsingError (HashMap Text Text)
unfolding split_once
insert_cookies res [] = ok res
insert_cookies res (cookie ∷ cookies) = elim (split_once (codes "=") cookie) [
  | none ↦ err incorrect_header
  | some (key, value) ↦ insert_cookies (Maps.insert res key value) cookies
]

module _ (unicode : Text → Text) where
  unfoldable pub from_str : Text → CaseInsensitiveString
  unfolding to_lowercase
  from_str value = to_lowercase unicode value

  unfoldable pub get_cookies_hashmap : Headers → Result CookieParsingError (HashMap Text Text)
  unfolding from_str
  get_cookies_hashmap headers = elim (Maps.get headers (from_str (codes "Cookie"))) [
    | none ↦ ok []
    | some cookie_list ↦ insert_cookies [] (split (codes "; ") cookie_list)
  ]

  unfoldable pub header_set_cookie : Text → Text → Header
  unfolding from_str
  header_set_cookie key value = (from_str (codes "Set-Cookie"), key ++ (codes "=" ++ value))
