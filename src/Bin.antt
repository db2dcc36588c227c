-- ===== src/Bin.antt =====
-- bin/server/src/main.rs and lib/pheidippides-web/src/request_handler.rs: how the parts are put
-- together. Connecting to a database is the parameter `Postgres`.
pub mod Session
pub mod Run
pub mod Mock
use pheidippides.Prelude.{
  ℕ, Text, codes, ◌++◌, List, Option, none, some, Bool, false, if◌then◌else◌, Result, ok, err, ◌≡◌,
  ◌↔◌, refl, arith, Bool-cases, Option-cases, Result-cases, inl, inr, ap, ◌∙◌, subst,
}
use pheidippides.Prelude.Results.{◌>>=◌, ok_or}
use pheidippides.DataAccess.{DataAccess}
use pheidippides.Auth.{AuthService}
use pheidippides.Subscriptions.{Broadcast}
use pheidippides.Postgres.Tables.{Fate}
use pheidippides.Postgres.Store.{
  MigrationError, check_migrations, check_migrations_iff, AllAnswered, IsLatest, db_version,
}
use pheidippides.Http.Number.{to_string}
use pheidippides.Http.Server.{RequestHandler}
use pheidippides.Web.World.{External, Drawn, World}
use pheidippides.Web.Actions.{Pipe}
use pheidippides.Web.Routing.{route}

module _ {B D AE Salt Sender Receiver : Type 0} (broadcast : Broadcast Sender Receiver)
    (d : DataAccess B D) (auth : AuthService B AE Salt) (external : External) where
  -- `RequestHandler::handle`, which never fails.
  unfoldable pub handle :
      {F : Type 0} → Drawn Salt → RequestHandler (World B Sender) (Pipe Receiver) F
  handle drawn request w =
      let (response, after) = route broadcast d auth external drawn request w in
      (ok response, after)

pub record Args : Type 0 where
  pub host : Text
  pub port : ℕ
  pub db : Option Text
  pub mock : Bool

-- The databases that can be reached: what becomes of the queries of the check, and the versions in
-- the table of migrations.
pub record Postgres (Database : Type 0) : Type 0 where
  pub connect : Text → Option Database
  pub fate : Database → ℕ → Fate
  pub versions : Database → Option (List ℕ)

pub data StartError : Type 0 where
  no_connection_url : StartError
  could_not_connect : StartError
  migrations : MigrationError → StartError

pub data Store (Database : Type 0) : Type 0 where
  in_memory : Store Database
  in_postgres : Database → Store Database

abbrev checked : Result MigrationError (Unit {0}) → Result StartError (Unit {0})
checked (ok tt) = ok tt
checked (err e) = err (migrations e)

module _ {Database : Type 0} (postgres : Postgres Database) where
  abbrev connected : Option Text → Result StartError (Store Database)
  connected db = do
    url ← ok_or db no_connection_url
    database ← ok_or (postgres.connect url) could_not_connect
    _ ← checked (check_migrations (postgres.fate database) (postgres.versions database))
    ok (in_postgres database)

  -- The store that the server runs on, and its address.
  unfoldable pub main : Args → Result StartError (Store Database × Text)
  main args = do
    store ← (if args.mock then ok in_memory else connected args.db)
    ok (store, args.host ++ (codes ":" ++ to_string args.port))

  abbrev check : Database → Result MigrationError (Unit {0})
  check database = check_migrations (postgres.fate database) (postgres.versions database)

  checked-ok : (res : Result MigrationError (Unit {0})) → checked res ≡ ok tt → res ≡ ok tt
  checked-ok (ok tt) h = refl
  checked-ok (err e) h = cc

  connected_sound :
      (db : Option Text) (database : Database)
      → connected db ≡ ok (in_postgres database)
      → ((url : Text) × (db ≡ some url) × (postgres.connect url ≡ some database))
        × (check database ≡ ok tt)
  connected_sound none database h = cc
  connected_sound (some url) database h = elim (Option-cases (postgres.connect url)) [
    | inl e ↦ absurd (ground arith)
    | inr (found, e) ↦ elim (Result-cases (check found)) [
      | inr (x, f) ↦ absurd (ground arith)
      | inl (passed, f) ↦
          let same : found ≡ database = ground (arith, e, f, h) in
          ((url, refl, e ∙ ap some same), subst (λ x. check x ≡ ok tt) same f)
    ]
  ]

  connected_complete :
      (url : Text) (database : Database)
      → postgres.connect url ≡ some database
      → check database ≡ ok tt
      → connected (some url) ≡ ok (in_postgres database)
  connected_complete url database e c = ground (arith, e, c)

  -- The server runs on a database exactly where the mock was not asked for, the URL was given and
  -- could be connected to, the queries of the check were answered, and the latest migration of the
  -- database is the one that the code is written for; it then listens at the given host and port.
  pub main-in_postgres_iff :
      (args : Args) (database : Database) (addr : Text)
      → (main args ≡ ok (in_postgres database, addr)) ↔ (
          (args.mock ≡ false)
          × ((url : Text) × (args.db ≡ some url) × (postgres.connect url ≡ some database))
          × AllAnswered (postgres.fate database)
          × ((versions : List ℕ) × (postgres.versions database ≡ some versions)
              × IsLatest db_version versions)
          × (addr ≡ args.host ++ (codes ":" ++ to_string args.port)))
  unfolding main
  main-in_postgres_iff args database addr = (started, starts)
    where
      started :
          main args ≡ ok (in_postgres database, addr)
          → (args.mock ≡ false)
            × ((url : Text) × (args.db ≡ some url) × (postgres.connect url ≡ some database))
            × AllAnswered (postgres.fate database)
            × ((versions : List ℕ) × (postgres.versions database ≡ some versions)
                × IsLatest db_version versions)
            × (addr ≡ args.host ++ (codes ":" ++ to_string args.port))
      started h = elim (Bool-cases args.mock) [
        | inl e ↦ absurd (ground arith)
        | inr e ↦ elim (Result-cases (connected args.db)) [
          | inr (x, f) ↦ absurd (ground arith)
          | inl (store, f) ↦
              let (found, passed) = connected_sound args.db database (ground (arith, e, f, h)) in
              let (answers, versions) =
                (check_migrations_iff (postgres.fate database) (postgres.versions database)).0
                  passed in
              (e, found, answers, versions, ground (arith, e, f, h))
        ]
      ]

      starts :
          (args.mock ≡ false)
            × ((url : Text) × (args.db ≡ some url) × (postgres.connect url ≡ some database))
            × AllAnswered (postgres.fate database)
            × ((versions : List ℕ) × (postgres.versions database ≡ some versions)
                × IsLatest db_version versions)
            × (addr ≡ args.host ++ (codes ":" ++ to_string args.port))
          → main args ≡ ok (in_postgres database, addr)
      starts (m, (url, e, f), answers, versions, k) =
          let passed =
            (check_migrations_iff (postgres.fate database) (postgres.versions database)).1
              (answers, versions) in
          let opened = connected_complete url database f passed in ground (arith, m, e, opened, k)
