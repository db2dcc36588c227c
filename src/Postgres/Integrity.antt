-- ===== src/Postgres/Integrity.antt =====
-- lib/postgres-db/migrations and lib/postgres-db/src/lib.rs: the keys and references of the tables,
-- over every sequence of calls, whatever becomes of their steps.
pub mod Steps
use pheidippides.Prelude.{
  ℕ, Text, List, [], ◌∷◌, ◌++◌, Option, none, some, Bool, true, false, ◌==◌, ◌&&◌, ◌||◌, eq_nat,
  any, any-append, map, All, All-map, All-append, IsUnique, IsNew, IsUnique-append, IsNew-of_any,
  ok, err, ◌⊎◌, inl, inr, ◌≡◌, ◌≢◌, refl, subst, sym, ◌∙◌, arith, Bool-cases, Option-cases,
  Result-cases,
}
use pheidippides.Types.{UserId, Timestamp, Message}
use pheidippides.Auth.{AuthenticationInfo}
use pheidippides.Postgres.Tables.{
  Db, Fate, answered, refused, unanswered, Server, has_key, insert_message, insert_auth,
  update_auth, with_phc, varying, transaction, transaction_atomic, commit, reach, run,
}
use pheidippides.Postgres.Queries.{create_user, create_message, replace_auth, update_authentication}
use pheidippides.Postgres.Writes.{Added, create_user_atomic}

abbrev pub HasEnds : List (UserId × Text) → Message → Type 0
HasEnds users m = (has_key m.from users ≡ true) × (has_key m.to users ≡ true)

-- Ids are distinct, messages are between users, and a password belongs to a user.
pub record HasIntegrity (db : Db) : Type 0 where
  pub users : IsUnique {A = UserId × Text} (λ row. row.0) db.users
  pub messages : IsUnique {A = Message} (λ m. m.id) db.messages
  pub ends : All (HasEnds db.users) db.messages
  pub auth : IsUnique {A = UserId × Text} (λ row. row.0) db.auth
  pub owners : All (λ (row : UserId × Text). has_key row.0 db.users ≡ true) db.auth

has_key-append :
    (id : UserId) (rows more : List (UserId × Text))
    → has_key id rows ≡ true
    → has_key id (rows ++ more) ≡ true
has_key-append id rows more h =
    ground (arith, any-append (λ (row : UserId × Text). row.0 == id) rows more)

pub Added-HasIntegrity :
    (server : Server) (unicode : Text → Text) (id : UserId) (username : Text) (db db' : Db)
    → Added server unicode id username db db'
    → HasIntegrity db
    → HasIntegrity db'
Added-HasIntegrity server unicode id username db db' added h =
    subst HasIntegrity (sym added.after) (record {
      users =
          IsUnique-append {A = UserId × Text} (λ row. row.0) db.users (id, added.name) h.users
            (IsNew-of_any {A = UserId × Text} (λ row. row.0) id db.users added.new_id);
      messages = h.messages;
      ends =
          All-map (HasEnds db.users) _ db.messages
            (λ m (f, t). (has_key-append m.from db.users _ f, has_key-append m.to db.users _ t))
            h.ends;
      auth = h.auth;
      owners = All-map _ _ db.auth (λ row k. has_key-append row.0 db.users _ k) h.owners;
    })

pub insert_message-HasIntegrity :
    (timestamptz : Timestamp → Timestamp) (m : Message) (db : Db)
    → HasIntegrity db
    → HasIntegrity (insert_message timestamptz m db).1
unfolding insert_message
insert_message-HasIntegrity timestamptz m db h =
    elim (Bool-cases (any (λ (row : Message). row.id == m.id) db.messages)) [
      | inl e ↦ rw e h
      | inr e ↦ elim (Bool-cases (has_key m.from db.users && has_key m.to db.users)) [
        | inl f ↦
            rw (e, f)
              (record {
                users = h.users;
                messages =
                    IsUnique-append {A = Message} (λ m. m.id) db.messages _ h.messages
                      (IsNew-of_any {A = Message} (λ m. m.id) m.id db.messages e);
                ends =
                    All-append (HasEnds db.users) db.messages (_ ∷ []) h.ends
                      ((ground arith, ground arith), tt);
                auth = h.auth;
                owners = h.owners;
              })
        | inr f ↦ rw (e, f) h
      ]
    ]

pub insert_auth-HasIntegrity :
    (id : UserId) (phc : Text) (db : Db) → HasIntegrity db → HasIntegrity (insert_auth id phc db).1
unfolding insert_auth
insert_auth-HasIntegrity id phc db h = elim (Option-cases (varying 250 phc)) [
  | inl e ↦ rw e h
  | inr (cut, e) ↦ elim (Bool-cases (has_key id db.auth)) [
    | inl f ↦ rw (e, f) h
    | inr f ↦ elim (Bool-cases (has_key id db.users)) [
      | inl g ↦
          rw (e, f, g)
            (record {
              users = h.users;
              messages = h.messages;
              ends = h.ends;
              auth =
                  IsUnique-append {A = UserId × Text} (λ row. row.0) db.auth (id, cut) h.auth
                    (IsNew-of_any {A = UserId × Text} (λ row. row.0) id db.auth f);
              owners = All-append _ db.auth ((id, cut) ∷ []) h.owners (g, tt);
            })
      | inr g ↦ rw (e, f, g) h
    ]
  ]
]

with_phc-id : (id : UserId) (phc : Text) (row : UserId × Text) → (with_phc id phc row).0 ≡ row.0
with_phc-id id phc row = ground arith

IsNew-with_phc :
    (id : UserId) (phc : Text) (k : UserId) (rows : List (UserId × Text))
    → IsNew {A = UserId × Text} (λ row. row.0) k rows
    → IsNew {A = UserId × Text} (λ row. row.0) k (map (with_phc id phc) rows)
IsNew-with_phc id phc k [] h = tt
IsNew-with_phc id phc k (row ∷ rows) (n, more) =
    (λ p. n (sym (with_phc-id id phc row) ∙ p), IsNew-with_phc id phc k rows more)

IsUnique-with_phc :
    (id : UserId) (phc : Text) (rows : List (UserId × Text))
    → IsUnique {A = UserId × Text} (λ row. row.0) rows
    → IsUnique {A = UserId × Text} (λ row. row.0) (map (with_phc id phc) rows)
IsUnique-with_phc id phc [] u = tt
IsUnique-with_phc id phc (row ∷ rows) (n, u) = (
  subst (λ k. IsNew {A = UserId × Text} (λ row. row.0) k (map (with_phc id phc) rows))
      (sym (with_phc-id id phc row)) (IsNew-with_phc id phc row.0 rows n),
  IsUnique-with_phc id phc rows u,
)

owners-with_phc :
    (users : List (UserId × Text)) (id : UserId) (phc : Text) (rows : List (UserId × Text))
    → All (λ (row : UserId × Text). has_key row.0 users ≡ true) rows
    → All (λ (row : UserId × Text). has_key row.0 users ≡ true) (map (with_phc id phc) rows)
owners-with_phc users id phc [] a = tt
owners-with_phc users id phc (row ∷ rows) (a, more) = (
  subst (λ k. has_key k users ≡ true) (sym (with_phc-id id phc row)) a,
  owners-with_phc users id phc rows more,
)

pub update_auth-HasIntegrity :
    (id : UserId) (phc : Text) (db : Db) → HasIntegrity db → HasIntegrity (update_auth id phc db).1
unfolding update_auth
update_auth-HasIntegrity id phc db h = elim (Option-cases (varying 250 phc)) [
  | inl e ↦ elim (Bool-cases (has_key id db.auth)) [ inl f ↦ rw (e, f) h | inr f ↦ rw (e, f) h ]
  | inr (cut, e) ↦ rw e (record {
    users = h.users;
    messages = h.messages;
    ends = h.ends;
    auth = IsUnique-with_phc id cut db.auth h.auth;
    owners = owners-with_phc db.users id cut db.auth h.owners;
  })
]
