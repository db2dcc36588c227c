-- ===== src/Tests/Postgres.antt =====
-- The store in Postgres at concrete inputs: a server that sorts by insertion.
use pheidippides.Prelude.{
  Text, ◌++◌, ℕ, codes, List, [], ◌∷◌, some, false, ok, if◌then◌else◌, ◌≡◌, ◌≢◌, refl, arith, ◌==◌,
  eq_nat, ◌⊎◌, to_lowercase, ◌↔◌,
}
use pheidippides.Types.{UserId, Message}
use pheidippides.MockDb
use pheidippides.DataAccess.Defaults
use pheidippides.Postgres.Tables.{Fate, answered, unanswered}
use pheidippides.Postgres.Queries.{
  fetch_last_messages_in_chat, fetch_users_messages_since, create_user, find_users_by_substring,
  fetch_users,
}
use pheidippides.Postgres.Pages.{fetch_last-refines, since-refines}
use pheidippides.Postgres.Writes.{Added, create_user_atomic}
use pheidippides.Postgres.Like.{IsPlain}
use pheidippides.Postgres.Search.{search-eq}
use pheidippides.Postgres.Integrity.{HasIntegrity}
use pheidippides.Postgres.Integrity.Steps.{Reach-HasIntegrity, next, here, signs_up}
use pheidippides.Postgres.Store.{IsLatest, db_version, AllAnswered}
use pheidippides.Http.Number.{to_string}
use pheidippides.Bin.{Postgres, Args, main, in_postgres, main-in_postgres_iff}
use pheidippides.Tests.Base.{same_text, store}
use pheidippides.Tests.Tables.{server, tables, log, tables-Represents, log-IsChronological}

fetch_last-refines_example :
    (page : List Message) × (fetch_last_messages_in_chat server same_text
        (λ _. answered)
        2
        3
        (some 13)
        tables
      ≡ (ok page, tables))
    × (MockDb.fetch_last_messages_in_chat 2 3 (some 13) store ≡ (ok page, store))
fetch_last-refines_example =
    fetch_last-refines server tables log store tables-Represents log-IsChronological same_text 2 3
      (some 13) refl

since-refines_example :
    (messages : List Message) × (fetch_users_messages_since server same_text
        (λ _. answered)
        2
        11
        tables
      ≡ (ok messages, tables))
    × (MockDb.fetch_users_messages_since 2 11 store ≡ (ok messages, store))
since-refines_example =
    since-refines server tables log store tables-Represents log-IsChronological same_text 2 11

-- The answer to the last step, `commit`, is lost.
abbrev last_lost : ℕ → Fate
last_lost n = if n == 4 then unanswered else answered

create_user_atomic_example :
    (((create_user server same_text last_lost 5 (codes "Dan") tables).1 ≡ tables)
      × ((i : UserId)
          → (create_user server same_text last_lost 5 (codes "Dan") tables).0 ≢ ok (some i)))
    ⊎ Added server same_text 5
        (codes "Dan")
        tables
        (create_user server same_text last_lost 5 (codes "Dan") tables).1
create_user_atomic_example = create_user_atomic server same_text last_lost 5 (codes "Dan") tables

an_IsPlain : IsPlain (to_lowercase same_text (codes "An"))
unfolding to_lowercase
an_IsPlain = ground arith

search-eq_example :
    find_users_by_substring server same_text (λ _. answered) (codes "An") tables
    ≡ Defaults.find_users_by_substring
        (fetch_users server same_text (λ _. answered))
        same_text
        (codes "An")
        tables
search-eq_example = search-eq server same_text (λ _. refl) (codes "An") tables an_IsPlain

-- The third query has no answer.
abbrev third_lost : ℕ → Fate
third_lost n = if n == 3 then unanswered else answered

abbrev one_database : Postgres ℕ
one_database = record {
  connect = λ url. some 0;
  fate = λ _. third_lost;
  versions = λ _. some (1 ∷ 2 ∷ []);
}

abbrev local_args : Args
local_args = record {
  host = codes "localhost";
  port = 80;
  db = some (codes "postgresql://db");
  mock = false;
}

main-in_postgres_iff_example :
    (main one_database local_args ≡ ok (in_postgres 0, codes "localhost:80")) ↔ (
      (false ≡ false)
      × ((url : Text) × (some (codes "postgresql://db") ≡ some url)
          × (one_database.connect url ≡ some 0))
      × AllAnswered third_lost
      × ((versions : List ℕ) × (some (1 ∷ 2 ∷ []) ≡ some versions) × IsLatest db_version versions)
      × (codes "localhost:80" ≡ codes "localhost" ++ (codes ":" ++ to_string 80)))
main-in_postgres_iff_example = main-in_postgres_iff one_database local_args 0 (codes "localhost:80")

tables-HasIntegrity : HasIntegrity tables
tables-HasIntegrity = record {
  users = ground arith;
  messages = ground arith;
  ends = ground arith;
  auth = ground arith;
  owners = ground arith;
}

Reach-HasIntegrity_example :
    HasIntegrity (create_user server same_text last_lost 5 (codes "Dan") tables).1
Reach-HasIntegrity_example =
    Reach-HasIntegrity server same_text some tables-HasIntegrity
      (next here (signs_up last_lost 5 (codes "Dan")))
