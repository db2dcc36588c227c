-- ===== src/Postgres/Store.antt =====
-- lib/postgres-db/src/lib.rs: the store as both traits, and the check of its migrations.
use pheidippides.Prelude.{
  ℕ, ◌≤◌, leb, ltb, Text, List, [], ◌∷◌, Option, none, some, true, ◌==◌, eq_nat, any, All,
  if◌then◌else◌, Result, ok, err, Bool-cases, inl, inr, ◌≡◌, ◌↔◌, refl, subst, ==_refl, arith,
}
use pheidippides.Prelude.Results.{◌>>=◌}
use pheidippides.DataAccess.{DataAccess}
use pheidippides.Auth.{AuthStorage}
use pheidippides.Postgres.Tables.{Db, Error, Fate, answered, refused, unanswered, Server}
use pheidippides.Postgres.Queries

module _ (server : Server) (unicode : Text → Text) (fate : ℕ → Fate) where
  abbrev pub data_access : DataAccess Db Error
  data_access = record {
    fetch_users = Queries.fetch_users server unicode fate;
    fetch_user = Queries.fetch_user server unicode fate;
    find_user_by_username = Queries.find_user_by_username server unicode fate;
    find_users_by_substring = Queries.find_users_by_substring server unicode fate;
    create_user = Queries.create_user server unicode fate;
    find_users_chats = Queries.find_users_chats server unicode fate;
    fetch_last_messages_in_chat = Queries.fetch_last_messages_in_chat server unicode fate;
    fetch_users_messages_since = Queries.fetch_users_messages_since server unicode fate;
    create_message = Queries.create_message server unicode fate;
  }

abbrev pub auth_storage : (Text → Option Text) → (ℕ → Fate) → AuthStorage Db Error
auth_storage parse_phc fate = record {
  fetch_authentication = Queries.fetch_authentication parse_phc fate;
  update_authentication = Queries.update_authentication parse_phc fate;
}

abbrev pub db_version : ℕ
db_version = 2

pub data MigrationError : Type 0 where
  not_reached uninitialized schema_outdated app_outdated : MigrationError

-- `order by version desc limit 1`; a migration's number is not negative.
abbrev newer : ℕ → Option ℕ → ℕ
newer v none = v
newer v (some w) = if leb v w then w else v

unfoldable pub latest_version : List ℕ → Option ℕ
latest_version [] = none
latest_version (v ∷ versions) = some (newer v (latest_version versions))

-- `unwrap_or(-1)` is less than any version.
unfoldable pub compare_version : Option ℕ → Result MigrationError (Unit {0})
compare_version none = err schema_outdated
compare_version (some v) =
    if ltb v db_version
    then err schema_outdated
    else if ltb db_version v
    then err app_outdated
    else ok tt

abbrev asked : {A : Type 0} → Fate → A → Result MigrationError A
asked answered a = ok a
asked refused a = err not_reached
asked unanswered a = err not_reached

-- The versions of the table `_sqlx_migrations`, or nothing where there is no such table. Each query
-- first takes a connection.
unfoldable pub check_migrations : (ℕ → Fate) → Option (List ℕ) → Result MigrationError (Unit {0})
unfolding latest_version compare_version
check_migrations fate none = do _ ← asked (fate 0) tt; _ ← asked (fate 1) tt; err uninitialized
check_migrations fate (some versions) = do
  _ ← asked (fate 0) tt
  _ ← asked (fate 1) tt
  _ ← asked (fate 2) tt
  _ ← asked (fate 3) tt
  compare_version (latest_version versions)

-- A version of the table, and no version of the table is above it.
abbrev pub IsLatest : ℕ → List ℕ → Type 0
IsLatest v versions = (any (λ w. w == v) versions ≡ true) × All (λ w. w ≤ v) versions

raise_bound : (u v : ℕ) (xs : List ℕ) → u ≤ v → All (λ w. w ≤ u) xs → All (λ w. w ≤ v) xs
raise_bound u v [] h a = tt
raise_bound u v (x ∷ xs) h (a, more) = (omega (arith, a, h), raise_bound u v xs h more)

any_le : (u v : ℕ) (xs : List ℕ) → any (λ w. w == v) xs ≡ true → All (λ w. w ≤ u) xs → v ≤ u
any_le u v [] h a = cc
any_le u v (x ∷ xs) h (a, more) = ground (arith, any_le u v xs)

IsLatest-cons : (v u : ℕ) (xs : List ℕ) → IsLatest u xs → IsLatest (newer v (some u)) (v ∷ xs)
IsLatest-cons v u xs (there, below) = elim (Bool-cases (leb v u)) [
  | inl e ↦
      let same : u ≡ newer v (some u) = ground (arith, e) in
      subst (λ w. IsLatest w (v ∷ xs)) same (ground (arith, there), (ground (arith, e), below))
  | inr e ↦
      let same : v ≡ newer v (some u) = ground (arith, e) in
      subst (λ w. IsLatest w (v ∷ xs)) same
        (ground (arith, ==_refl v), (omega arith, raise_bound u v xs (ground (arith, e)) below))
]

latest_version-IsLatest :
    (v : ℕ) (versions : List ℕ) → IsLatest (newer v (latest_version versions)) (v ∷ versions)
unfolding latest_version
latest_version-IsLatest v [] = (ground (arith, ==_refl v), (omega arith, tt))
latest_version-IsLatest v (x ∷ versions) =
    IsLatest-cons v (newer x (latest_version versions)) (x ∷ versions)
      (latest_version-IsLatest x versions)

compare_version_iff :
    (v : ℕ) (versions : List ℕ)
    → IsLatest v versions
    → (compare_version (some v) ≡ ok tt) ↔ IsLatest db_version versions
unfolding compare_version
compare_version_iff v versions (there, below) = (
  λ h.
      let same : v ≡ db_version = ground arith in
      subst (λ w. IsLatest w versions) same (there, below),
  λ (there', below').
      let same : v ≡ 2 = omega (
        arith,
        any_le v db_version versions there' below,
        any_le db_version v versions there below',
      ) in
      rw same refl,
)

compare_versions_iff :
    (versions : List ℕ)
    → (compare_version (latest_version versions) ≡ ok tt) ↔ IsLatest db_version versions
unfolding latest_version
compare_versions_iff [] = unfold compare_version in ground arith
compare_versions_iff (v ∷ versions) =
    compare_version_iff (newer v (latest_version versions)) (v ∷ versions)
      (latest_version-IsLatest v versions)

abbrev pub AllAnswered : (ℕ → Fate) → Type 0
AllAnswered fate =
    (fate 0 ≡ answered) × (fate 1 ≡ answered) × (fate 2 ≡ answered) × (fate 3 ≡ answered)

-- The check of the migrations passes exactly where every query was answered, the table of
-- migrations is there, and the latest version in it is the one that the code is written for.
pub check_migrations_iff :
    (fate : ℕ → Fate) (table : Option (List ℕ))
    → (check_migrations fate table ≡ ok tt) ↔ (
        AllAnswered fate
        × ((versions : List ℕ) × (table ≡ some versions) × IsLatest db_version versions))
unfolding check_migrations
check_migrations_iff fate none = ground arith
check_migrations_iff fate (some versions) = (
  λ h. (ground arith, (versions, refl, (compare_versions_iff versions).0 (ground arith))),
  λ (a, (versions', e, latest)).
      let same : versions' ≡ versions = cc in
      let passes : compare_version (latest_version versions) ≡ ok tt =
        (compare_versions_iff versions).1 (subst (IsLatest db_version) same latest) in
      ground (arith, a, passes),
)
