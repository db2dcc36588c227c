-- ===== src/MockDb/Auth.antt =====
-- lib/mock-db/src/lib.rs: the table of password hashes is a map from users to hashes.
use pheidippides.Prelude.{
  Text, List, [], ◌∷◌, ◌++◌, Option, none, some, ◌≡◌, ◌≢◌, arith, filter_map, first, ==_refl,
  eq_nat, Option-cases, inl, inr, nat_eq_iff,
}
use pheidippides.Types.{UserId}
use pheidippides.Auth.{AuthenticationInfo}
use pheidippides.Auth.Verification.{LawfulStorage}
use pheidippides.MockDb.{
  Db, Error, AuthRecord, auth_of, fetch_authentication, overwrite, update_authentication,
  auth_storage,
}

abbrev hash_of : UserId → List AuthRecord → Option AuthenticationInfo
hash_of id rows = first (filter_map (auth_of id) rows)

hash-overwrite_self :
    (id : UserId) (phc old : Text) (rows rows' : List AuthRecord)
    → overwrite id phc rows ≡ some (old, rows')
    → hash_of id rows' ≡ some (record { phc_string = phc })
unfolding overwrite auth_of
hash-overwrite_self id phc old [] rows' h = cc
hash-overwrite_self id phc old (r ∷ rows) rows' h = elim (Option-cases (overwrite id phc rows)) [
  | inl e ↦ ground (arith, ==_refl id)
  | inr ((old', later), e) ↦ ground (arith, hash-overwrite_self id phc old' rows later e)
]

hash-overwrite_ne :
    (id j : UserId) (phc old : Text) (rows rows' : List AuthRecord)
    → id ≢ j
    → overwrite id phc rows ≡ some (old, rows')
    → hash_of j rows' ≡ hash_of j rows
unfolding overwrite auth_of
hash-overwrite_ne id j phc old [] rows' n h = cc
hash-overwrite_ne id j phc old (r ∷ rows) rows' n h = elim (Option-cases (overwrite id phc rows)) [
  | inl e ↦ ground (arith, nat_eq_iff id j)
  | inr ((old', later), e) ↦ ground (arith, hash-overwrite_ne id j phc old' rows later n e)
]

hash-append_self :
    (id : UserId) (phc : Text) (rows : List AuthRecord)
    → overwrite id phc rows ≡ none
    → hash_of id (rows ++ record { user_id = id; phc_string = phc } ∷ [])
      ≡ some (record { phc_string = phc })
unfolding overwrite auth_of
hash-append_self id phc [] h = ground (arith, ==_refl id)
hash-append_self id phc (r ∷ rows) h = ground (arith, hash-append_self id phc rows)

hash-append_ne :
    (id j : UserId) (phc : Text) (rows : List AuthRecord)
    → id ≢ j
    → hash_of j (rows ++ record { user_id = id; phc_string = phc } ∷ []) ≡ hash_of j rows
unfolding auth_of
hash-append_ne id j phc [] n = ground (arith, nat_eq_iff id j)
hash-append_ne id j phc (r ∷ rows) n = ground (arith, hash-append_ne id j phc rows n)

-- The table keeps the contract that the authentication service relies on.
pub mock-LawfulStorage : LawfulStorage Db Error auth_storage
unfolding fetch_authentication update_authentication
mock-LawfulStorage = record {
  fetch-update_self = λ id info old b b' h.
      elim (Option-cases (overwrite id info.phc_string b.auth.inner)) [
        | inl e ↦ ground (arith, hash-append_self id info.phc_string b.auth.inner e)
        | inr ((phc, rows), e) ↦
            ground (arith, hash-overwrite_self id info.phc_string phc b.auth.inner rows e)
      ];
  fetch-update_ne = λ id j info old b b' n h.
      elim (Option-cases (overwrite id info.phc_string b.auth.inner)) [
        | inl e ↦ ground (arith, hash-append_ne id j info.phc_string b.auth.inner n)
        | inr ((phc, rows), e) ↦
            ground (arith, hash-overwrite_ne id j info.phc_string phc b.auth.inner rows n e)
      ];
}
