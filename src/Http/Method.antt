-- ===== src/Http/Method.antt =====
-- lib/http-server/src/method.rs: the method of a request.
use pheidippides.Prelude.{
  Text, codes, Result, ok, err, eq_text, ◌==◌, if◌then◌else◌, to_lowercase, text_eq, text_eq_iff,
  ◌≡◌, ◌↔◌, refl, ap, ◌∙◌, arith,
}

pub data Method : Type 0 where
  get put post delete patch head options trace connect : Method

pub data MethodParseError : Type 0 where
  incorrect_method : MethodParseError

abbrev match_method : Text → Result MethodParseError Method
match_method s =
    if s == codes "get"
    then ok get
    else if s == codes "put"
    then ok put
    else if s == codes "post"
    then ok post
    else if s == codes "delete"
    then ok delete
    else if s == codes "patch"
    then ok patch
    else if s == codes "head"
    then ok head
    else if s == codes "options"
    then ok options
    else if s == codes "trace"
    then ok trace
    else if s == codes "connect"
    then ok connect
    else err incorrect_method

unfoldable pub from_str : (Text → Text) → Text → Result MethodParseError Method
from_str unicode s = match_method (to_lowercase unicode s)

abbrev pub method_name : Method → Text
method_name get = codes "get"
method_name put = codes "put"
method_name post = codes "post"
method_name delete = codes "delete"
method_name patch = codes "patch"
method_name head = codes "head"
method_name options = codes "options"
method_name trace = codes "trace"
method_name connect = codes "connect"

match_method-name : (m : Method) → match_method (method_name m) ≡ ok m
unfolding text_eq
match_method-name get = refl
match_method-name put = refl
match_method-name post = refl
match_method-name delete = refl
match_method-name patch = refl
match_method-name head = refl
match_method-name options = refl
match_method-name trace = refl
match_method-name connect = refl

match_method_sound : (s : Text) (m : Method) → match_method s ≡ ok m → s ≡ method_name m
match_method_sound s m h = ground (
  arith,
  text_eq_iff s (codes "get"),
  text_eq_iff s (codes "put"),
  text_eq_iff s (codes "post"),
  text_eq_iff s (codes "delete"),
  text_eq_iff s (codes "patch"),
  text_eq_iff s (codes "head"),
  text_eq_iff s (codes "options"),
  text_eq_iff s (codes "trace"),
  text_eq_iff s (codes "connect"),
)

-- A word is read as a method exactly when it is the method's name, in any case.
pub from_str_iff :
    (unicode : Text → Text) (s : Text) (m : Method)
    → (from_str unicode s ≡ ok m) ↔ (to_lowercase unicode s ≡ method_name m)
unfolding from_str
from_str_iff unicode s m =
    (match_method_sound (to_lowercase unicode s) m, λ e. ap match_method e ∙ match_method-name m)
