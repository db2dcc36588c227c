-- ===== src/Postgres/Listed.antt =====
-- lib/postgres-db/src/lib.rs and lib/mock-db/src/lib.rs: rows of partners as the users that each store
-- lists.
use pheidippides.Prelude.{
  Text, List, [], ◌∷◌, some, true, not, ◌==◌, eq_nat, map, keep, filter_map, All, ok, ◌≡◌, refl,
  sym, ap, ◌∙◌, arith, Bool-cases, Option-cases, inl, inr, nat_eq_iff, HashMap,
}
use pheidippides.Prelude.Maps
use pheidippides.Types.{UserId, User, Message, eq_user, user_eq_iff}
use pheidippides.MockDb.{to_record, named, chat_of, collect_new}
use pheidippides.MockDb.Chats.{is_other, collect_new-cons}
use pheidippides.Postgres.Tables.{has_key}
use pheidippides.Postgres.Queries.{left_join}
use pheidippides.Postgres.Integrity.{HasEnds}
use pheidippides.Postgres.Groups.{Row}
use pheidippides.Postgres.Partners.{pair_of, pairs, nub}

module _ (names : HashMap UserId Text) where
  -- A row as the user that the store in memory lists.
  abbrev pub user_of : Row → User
  user_of r = named names r.0

  user_of_iff : (a b : Row) → (user_of a == user_of b) ≡ (a.0 == b.0)
  unfolding named
  user_of_iff a b = elim (Bool-cases (a.0 == b.0)) [
    | inl same ↦
        (user_eq_iff (user_of a) (user_of b)).1 (ap (named names) ((nat_eq_iff a.0 b.0).0 same))
        ∙ sym same
    | inr other ↦ elim (Bool-cases (user_of a == user_of b)) [
      | inr differ ↦ differ ∙ sym other
      | inl same ↦
          let ids = ap (λ (x : User). x.id) ((user_eq_iff (user_of a) (user_of b)).0 same) in
          absurd (cc (other, (nat_eq_iff a.0 b.0).1 ids))
    ]
  ]

  keep-user_of :
      (r : Row) (rows : List Row)
      → keep (is_other (user_of r)) (map user_of rows)
        ≡ map user_of (keep (λ (x : Row). not (x.0 == r.0)) rows)
  unfolding is_other
  keep-user_of r [] = refl
  keep-user_of r (x ∷ rows) = ground (arith, keep-user_of r rows, user_of_iff x r)

  pub collect_new-nub :
      (rows : List Row) → collect_new [] (map user_of rows) ≡ map user_of (nub rows)
  unfolding collect_new
  collect_new-nub [] = refl
  collect_new-nub (r ∷ rows) =
      collect_new-cons (user_of r) [] (map user_of rows)
      ∙ ap (λ l. user_of r ∷ l)
          (ap (keep (is_other (user_of r))) (collect_new-nub rows) ∙ keep-user_of r (nub rows))

  pub filter_map-chat_of :
      (u : UserId) (ms : List Message)
      → filter_map (chat_of names u) (map to_record ms) ≡ map user_of (pairs u ms)
  unfolding chat_of
  filter_map-chat_of u [] = refl
  filter_map-chat_of u (m ∷ ms) = ground (arith, filter_map-chat_of u ms)

abbrev pub HasName : List (UserId × Text) → Row → Type 0
HasName users r = has_key r.0 users ≡ true

get-has_key :
    (id : UserId) (users : List (UserId × Text))
    → has_key id users ≡ true
    → (name : Text) × (Maps.get users id ≡ some name)
unfolding Maps.get
get-has_key id [] h = cc
get-has_key id ((i, name) ∷ users) h = elim (Bool-cases (i == id)) [
  | inl same ↦ (name, ground arith)
  | inr other ↦ let (n, e) = get-has_key id users (ground arith) in (n, ground arith)
]

pub All-named :
    (users : List (UserId × Text)) (u : UserId) (ms : List Message)
    → All (HasEnds users) ms
    → All (HasName users) (pairs u ms)
All-named users u [] a = tt
All-named users u (m ∷ ms) ((f, t), a) = elim (Option-cases (pair_of u m)) [
  | inl e ↦ rw (e, filter_map) (All-named users u ms a)
  | inr (r, e) ↦ rw (e, filter_map) (ground arith, All-named users u ms a)
]

pub left_join-named :
    (users : List (UserId × Text)) (names : HashMap UserId Text) (rows : List Row)
    → ((id : UserId) → Maps.get names id ≡ Maps.get users id)
    → All (HasName users) rows
    → left_join users rows ≡ ok (map (user_of names) rows)
unfolding left_join named
left_join-named users names [] same a = refl
left_join-named users names ((id, t) ∷ rows) same (h, a) =
    let (name, e) = get-has_key id users h in
    rw (e, same id ∙ e, left_join-named users names rows same a) refl
