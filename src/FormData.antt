-- ===== src/FormData.antt =====
-- lib/pheidippides-utils/src/serde/form_data.rs: the deserializer of form data. A type's
-- `Deserialize` implementation, which serde derives, is any sequence of the calls that `MapAccess`
-- offers: the tree `Visit`. The percent-decoding of `url_escape` is a parameter.
pub mod Laws
use pheidippides.Prelude.{
  Text, codes, String, [], ◌∷◌, Option, none, some, Result, ok, err, split_once,
}
use pheidippides.Prelude.Strings.{replace}
use pheidippides.Prelude.Results.{◌>>=◌}

pub data Error : Type 0 where
  custom_message : Text → Error
  unsupported : Text → Error
  cant_parse_key : Text → Error
  cant_parse_value : Text → Error

-- What a visitor asks a `StringValue` for; all but the first three and an option are methods that
-- `de_unsupported` makes, by their names.
pub data Request : Type 0 where
  a_string identifier ignored_any : Request
  anything_else : Text → Request
  an_option : Request → Request

-- What a type asks the deserializer of the whole text for: a map, a struct, or by its name one of the
-- methods that `de_unsupported` makes.
pub data Whole : Type 0 where
  a_map a_struct : Whole
  another : Text → Whole

-- A visitor of a map, up to the value that it builds.
pub data Visit (V : Type 0) : Type 0 where
  done : V → Visit V
  fail : Error → Visit V
  next_key : (Option Text → Visit V) → Visit V
  next_value : Request → (Text → Visit V) → Visit V

module _ (percent_decode : Text → Text) where
  unfoldable pub decode : Text → Text
  decode text = percent_decode (replace b'+' (codes " ") text)

  -- The methods of the deserializer `StringValue`. `Some` passes the same text on.
  unfoldable pub deserialize : Request → Text → Result Error Text
  unfolding decode
  deserialize a_string value = ok (decode value)
  deserialize identifier value = ok (decode value)
  deserialize ignored_any value = ok []
  deserialize (anything_else func_name) value = err (unsupported func_name)
  deserialize (an_option inner) value = deserialize inner value

  -- `next_key_seed`, with what is left of the text.
  unfoldable pub next_key_seed : Text → Result Error (Option Text × Text)
  next_key_seed [] = ok (none, [])
  next_key_seed (c ∷ str) = elim (split_once (codes "=") (c ∷ str)) [
    | none ↦ err (cant_parse_key (c ∷ str))
    | some (key, rest) ↦ (do name ← deserialize identifier key; ok (some name, rest))
  ]

  abbrev up_to_end : Text → Option (Text × Text) → Text × Text
  up_to_end str none = (str, [])
  up_to_end str (some (value, rest)) = (value, rest)

  unfoldable pub next_value_seed : Request → Text → Result Error (Text × Text)
  next_value_seed seed [] = err (cant_parse_value [])
  next_value_seed seed (c ∷ str) = do
    let (value, rest) = up_to_end (c ∷ str) (split_once (codes "&") (c ∷ str))
    res ← deserialize seed value
    ok (res, rest)

  unfoldable pub visit_map : {V : Type 0} → Visit V → Text → Result Error V
  visit_map (done v) str = ok v
  visit_map (fail e) str = err e
  visit_map (next_key k) str = elim (next_key_seed str) [
    | err e ↦ err e
    | ok (key, rest) ↦ visit_map (k key) rest
  ]
  visit_map (next_value seed k) str = elim (next_value_seed seed str) [
    | err e ↦ err e
    | ok (value, rest) ↦ visit_map (k value) rest
  ]

  abbrev pub deserialize_whole : {V : Type 0} → Whole → Visit V → Text → Result Error V
  deserialize_whole a_map visitor str = visit_map visitor str
  deserialize_whole a_struct visitor str = visit_map visitor str
  deserialize_whole (another func_name) visitor str = err (unsupported func_name)

  -- `from_str`, for a type whose implementation calls `deserialize_struct`.
  unfoldable pub from_str : {V : Type 0} → Visit V → Text → Result Error V
  unfolding visit_map next_key_seed next_value_seed deserialize
  from_str visitor s = deserialize_whole a_struct visitor s
