-- ===== src/FormData/Laws.antt =====
-- lib/pheidippides-utils/src/serde/form_data.rs: form data is read back as the fields it was made
-- of, by a visitor that takes each key and each value.
use pheidippides.Prelude.{
  ℕ, zero, suc, ◌<◌, Text, codes, List, [], ◌∷◌, ◌++◌, map, length, none, some, ok, err, All, Lacks,
  ◌≡◌, ◌≢◌, refl, ap, ◌∙◌, arith,
}
use mathlib.Core.List.{append_assoc, append-nil}
use pheidippides.Prelude.Strings.Laws.{split_once-append, split_once-eq-none}
use pheidippides.FormData.{
  cant_parse_value, a_string, Visit, done, next_key, next_value, decode, visit_map, from_str,
  deserialize, next_key_seed, next_value_seed,
}

-- What a form is sent as.
abbrev pub form : List (Text × Text) → Text
form [] = []
form ((key, value) ∷ []) = key ++ (codes "=" ++ value)
form ((key, value) ∷ g ∷ fs) = key ++ (codes "=" ++ (value ++ (codes "&" ++ form (g ∷ fs))))

-- A key has no `=`; a value has no `&`.
abbrev pub IsField : Text × Text → Type 0
IsField (key, value) = Lacks b'=' key × Lacks b'&' value

-- The value of the last field is not empty.
abbrev pub EndsWithValue : List (Text × Text) → Type 0
EndsWithValue [] = Unit
EndsWithValue ((key, value) ∷ []) = value ≢ []
EndsWithValue (f ∷ g ∷ fs) = EndsWithValue (g ∷ fs)

-- The visitor of a map that keeps all entries, for at most `n` of them.
unfoldable pub entries : ℕ → List (Text × Text) → Visit (List (Text × Text))
entries zero found = done found
entries (suc n) found = next_key (elim [
  | none ↦ done found
  | some key ↦ next_value a_string (λ value. entries n (found ++ (key, value) ∷ []))
])

module _ (percent_decode : Text → Text) where
  abbrev pub decoded : Text × Text → Text × Text
  decoded (key, value) = (decode percent_decode key, decode percent_decode value)

  key_of :
      (key rest : Text)
      → Lacks b'=' key
      → next_key_seed percent_decode (key ++ (codes "=" ++ rest))
        ≡ ok (some (decode percent_decode key), rest)
  unfolding next_key_seed deserialize
  key_of [] rest h = rw (next_key_seed, split_once-append b'=' [] [] rest h)
  key_of (c ∷ key) rest h = rw (next_key_seed, split_once-append b'=' [] (c ∷ key) rest h)

  value_of :
      (value rest : Text)
      → Lacks b'&' value
      → next_value_seed percent_decode a_string (value ++ (codes "&" ++ rest))
        ≡ ok (decode percent_decode value, rest)
  unfolding next_value_seed deserialize
  value_of [] rest h = rw (next_value_seed, split_once-append b'&' [] [] rest h)
  value_of (c ∷ value) rest h = rw (next_value_seed, split_once-append b'&' [] (c ∷ value) rest h)

  last_value :
      (value : Text)
      → Lacks b'&' value
      → value ≢ []
      → next_value_seed percent_decode a_string value ≡ ok (decode percent_decode value, [])
  unfolding next_value_seed deserialize
  last_value [] h n = absurd (n refl)
  last_value (c ∷ value) h n = rw (next_value_seed, split_once-eq-none b'&' [] (c ∷ value) h)

  visit_entry :
      (n : ℕ) (found : List (Text × Text)) (key tail value rest : Text)
      → Lacks b'=' key
      → next_value_seed percent_decode a_string tail ≡ ok (value, rest)
      → visit_map percent_decode (entries (suc n) found) (key ++ (codes "=" ++ tail))
        ≡ visit_map percent_decode
            (entries n (found ++ (decode percent_decode key, value) ∷ []))
            rest
  unfolding visit_map entries
  visit_entry n found key tail value rest k e = rw (visit_map, key_of key tail k, e)

  visit-form :
      (n : ℕ) (found fs : List (Text × Text))
      → length fs < n
      → All IsField fs
      → EndsWithValue fs
      → visit_map percent_decode (entries n found) (form fs) ≡ ok (found ++ map decoded fs)
  visit-form zero found fs h a e = absurd (omega arith)
  visit-form (suc n) found [] h a e =
      unfold visit_map entries next_key_seed in rw (append-nil found)
  visit-form (suc n) found ((key, value) ∷ []) h ((k, v), _) e =
      visit_entry n found key value _ [] k (last_value value v e)
      ∙ visit-form n (found ++ decoded (key, value) ∷ []) [] (omega arith) tt tt
      ∙ ap ok (append_assoc found (decoded (key, value) ∷ []) [])
  visit-form (suc n) found ((key, value) ∷ g ∷ fs) h ((k, v), rest_ok) e =
      visit_entry n found key _ _ (form (g ∷ fs)) k (value_of value (form (g ∷ fs)) v)
      ∙ visit-form n (found ++ decoded (key, value) ∷ []) (g ∷ fs) (omega arith) rest_ok e
      ∙ ap ok (append_assoc found (decoded (key, value) ∷ []) (map decoded (g ∷ fs)))

  visit_empty_last :
      (n : ℕ) (found fs : List (Text × Text)) (key : Text)
      → length fs < n
      → All IsField fs
      → Lacks b'=' key
      → visit_map percent_decode (entries n found) (form (fs ++ (key, []) ∷ []))
        ≡ err (cant_parse_value [])
  visit_empty_last zero found fs key h a k = absurd (omega arith)
  visit_empty_last (suc n) found [] key h a k =
      unfold visit_map entries next_value_seed in rw (visit_map, key_of key [] k)
  visit_empty_last (suc n) found ((key', value) ∷ []) key h ((k', v), _) k =
      visit_entry n found key' _ _ (form ((key, []) ∷ [])) k' (value_of value _ v)
      ∙ visit_empty_last n _ [] key (omega arith) tt k
  visit_empty_last (suc n) found ((key', value) ∷ g ∷ fs) key h ((k', v), rest_ok) k =
      visit_entry n found key' _ _ (form (g ∷ fs ++ (key, []) ∷ [])) k' (value_of value _ v)
      ∙ visit_empty_last n _ (g ∷ fs) key (omega arith) rest_ok k

  -- If no key has a `=`, no value has a `&` and the last value is not empty, a form is read back
  -- as its fields, decoded and in order.
  pub from_str-form :
      (fs : List (Text × Text))
      → All IsField fs
      → EndsWithValue fs
      → from_str percent_decode (entries (suc (length fs)) []) (form fs) ≡ ok (map decoded fs)
  unfolding from_str
  from_str-form fs a e = visit-form (suc (length fs)) [] fs (omega arith) a e

  -- If no key has a `=` and no value has a `&`, a form whose last field is empty is refused.
  pub from_str_empty_last :
      (fs : List (Text × Text)) (key : Text)
      → All IsField fs
      → Lacks b'=' key
      → from_str percent_decode (entries (suc (suc (length fs))) []) (form (fs ++ (key, []) ∷ []))
        ≡ err (cant_parse_value [])
  unfolding from_str
  from_str_empty_last fs key a k =
      visit_empty_last (suc (suc (length fs))) [] fs key (omega arith) a k
