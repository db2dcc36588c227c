-- ===== src/Postgres/Tables.antt =====
-- lib/postgres-db/migrations and lib/postgres-db/src/lib.rs: the tables with their constraints, and
-- what a statement, a connection and a transaction do. The order of the rows of a table says
-- nothing. The server is the parameter `Server`; what becomes of each step of a method is an
-- argument.
use pheidippides.Prelude.{
  ℕ, ◌≤◌, Text, List, [], ◌∷◌, ◌++◌, Option, none, some, Bool, true, not, ◌||◌, ◌&&◌, ◌==◌, eq_nat,
  eq_text, any, take, drop, map, if◌then◌else◌, Exec, Result, ok, err, ◌≡◌, ◌⊎◌, inl, inr, refl,
}
use pheidippides.Prelude.Rows.{SameRows, IsOrdered}
use pheidippides.Types.{UserId, Timestamp, Message}

-- A row of `messages` has the columns of a `Message`: `from` is the column `sender`, and `to` the
-- column `receiver`.
pub record Db : Type 0 where
  pub users : List (UserId × Text)
  pub messages : List Message
  pub auth : List (UserId × Text)

pub data Error : Type 0 where
  pg_error : Error
  auth_info_parsing_error : Text → Error
  -- `Row::get` panics on a null.
  unexpected_null : Error

-- A step succeeds, or fails before it had an effect, or has its effect and the answer is lost.
pub data Fate : Type 0 where
  answered refused unanswered : Fate

abbrev pub run : {A : Type 0} → Fate → Exec Db Error A → Exec Db Error A
run answered call db = call db
run refused call db = (err pg_error, db)
run unanswered call db = (err pg_error, (call db).1)

-- `acquire`, and a statement that changes no table.
abbrev pub reach : Fate → Exec Db Error (Unit {0})
reach fate = run fate (λ db. (ok tt, db))

abbrev pub select : {A : Type 0} → Fate → (Db → A) → Exec Db Error A
select fate rows = run fate (λ db. (ok (rows db), db))

-- How the code leaves a transaction.
pub data Ending (A : Type 0) : Type 0 where
  commit rollback : A → Ending A

abbrev settle : {A : Type 0} → Fate → Db → Result Error (Ending A) → Db → Result Error A × Db
settle fate before (err e) after = (err e, before)
settle fate before (ok (rollback a)) after = (ok a, before)
settle fate before (ok (commit a)) after = run fate (λ _. (ok a, after)) before

-- A transaction that is dropped without `commit` is rolled back.
abbrev pub transaction : {A : Type 0} → Fate → Exec Db Error (Ending A) → Exec Db Error A
transaction fate body db = let (res, after) = body db in settle fate db res after

-- A transaction changes nothing, and what it returns was returned by a body that did not commit; or
-- it is what its body made of the tables, and the body wanted to commit that.
pub transaction_atomic :
    {A : Type 0} (fate : Fate) (body : Exec Db Error (Ending A)) (db : Db)
    → (((transaction fate body db).1 ≡ db)
        × ((a : A) → (transaction fate body db).0 ≡ ok a → (body db).0 ≡ ok (rollback a)))
      ⊎ ((a : A) × (body db ≡ (ok (commit a), (body db).1))
          × ((transaction fate body db).1 ≡ (body db).1))
transaction_atomic {A} fate body db = settled fate (body db).0 (body db).1
  where
    settled :
        (f : Fate) (res : Result Error (Ending A)) (after : Db)
        → (((settle f db res after).1 ≡ db)
            × ((a : A) → (settle f db res after).0 ≡ ok a → res ≡ ok (rollback a)))
          ⊎ ((a : A) × (◌≡◌ {A = Result Error (Ending A) × Db} (res, after) (ok (commit a), after))
              × ((settle f db res after).1 ≡ after))
    settled f (err e) after = inl (refl, λ a h. cc)
    settled f (ok (rollback b)) after = inl (refl, λ a h. cc)
    settled answered (ok (commit a)) after = inr (a, refl, refl)
    settled refused (ok (commit a)) after = inl (refl, λ a h. cc)
    settled unanswered (ok (commit a)) after = inr (a, refl, refl)

-- A value for a column `character varying(n)`: spaces past the end are cut off, anything else there
-- is an error.
abbrev all_spaces : Text → Bool
all_spaces [] = true
all_spaces (c ∷ s) = c == b' ' && all_spaces s

unfoldable pub varying : ℕ → Text → Option Text
varying n s = if all_spaces (drop n s) then some (take n s) else none

abbrev pub has_key : UserId → List (UserId × Text) → Bool
has_key id rows = any (λ (row : UserId × Text). row.0 == id) rows

-- The primary key of `users` and the constraint `users_username_key`.
abbrev put_user : UserId → Option Text → Exec Db Error (Unit {0})
put_user id none db = (err pg_error, db)
put_user id (some name) db =
    if has_key id db.users || any (λ (row : UserId × Text). row.1 == name) db.users
    then (err pg_error, db)
    else (ok tt, record db { users = db.users ++ (id, name) ∷ [] })

unfoldable pub insert_user : UserId → Text → Exec Db Error (Unit {0})
unfolding varying
insert_user id username = put_user id (varying 150 username)

-- The primary key of `messages` and its references to `users`. The instant is stored as the column
-- `timestamp with time zone` keeps it.
unfoldable pub insert_message : (Timestamp → Timestamp) → Message → Exec Db Error (Unit {0})
insert_message timestamptz m db =
    if any (λ (row : Message). row.id == m.id) db.messages
      || not (has_key m.from db.users && has_key m.to db.users)
    then (err pg_error, db)
    else (
      ok tt,
      record db { messages = db.messages ++ record m { timestamp = timestamptz m.timestamp } ∷ [] },
    )

-- The primary key of `auth` and its reference to `users`.
abbrev put_auth : UserId → Option Text → Exec Db Error (Unit {0})
put_auth id none db = (err pg_error, db)
put_auth id (some phc_string) db =
    if has_key id db.auth || not (has_key id db.users)
    then (err pg_error, db)
    else (ok tt, record db { auth = db.auth ++ (id, phc_string) ∷ [] })

unfoldable pub insert_auth : UserId → Text → Exec Db Error (Unit {0})
unfolding varying
insert_auth id phc_string = put_auth id (varying 250 phc_string)

abbrev pub with_phc : UserId → Text → UserId × Text → UserId × Text
with_phc id phc_string row = if row.0 == id then (row.0, phc_string) else row

abbrev set_auth : UserId → Option Text → Exec Db Error (Unit {0})
set_auth id none db = if has_key id db.auth then (err pg_error, db) else (ok tt, db)
set_auth id (some phc_string) db =
    (ok tt, record db { auth = map (with_phc id phc_string) db.auth })

unfoldable pub update_auth : UserId → Text → Exec Db Error (Unit {0})
unfolding varying
update_auth id phc_string = set_auth id (varying 250 phc_string)

abbrev pub NotOlder : Message → Message → Type 0
NotOlder a b = b.timestamp ≤ a.timestamp

abbrev pub NotLater : UserId × Timestamp → UserId × Timestamp → Type 0
NotLater a b = b.1 ≤ a.1

-- What depends on the server and on sqlx: `lower` in the server's locale, what is left of an instant
-- in a column `timestamp with time zone`, which has microseconds where the code has nanoseconds, and
-- in which order rows come that `order by` leaves equal.
pub record Server : Type 0 where
  pub lower : Text → Text
  pub timestamptz : Timestamp → Timestamp
  pub newest_first : List Message → List Message
  pub oldest_first : List Message → List Message
  pub latest_first : List (UserId × Timestamp) → List (UserId × Timestamp)
  pub newest_rows : (rows : List Message) → SameRows (newest_first rows) rows
  pub newest_order : (rows : List Message) → IsOrdered NotOlder (newest_first rows)
  pub oldest_rows : (rows : List Message) → SameRows (oldest_first rows) rows
  pub oldest_order : (rows : List Message) → IsOrdered (λ a b. NotOlder b a) (oldest_first rows)
  pub latest_rows : (rows : List (UserId × Timestamp)) → SameRows (latest_first rows) rows
  pub latest_order : (rows : List (UserId × Timestamp)) → IsOrdered NotLater (latest_first rows)
