-- ===== src/Types.antt =====
-- lib/pheidippides-messenger/src/lib.rs: users and messages. A `Uuid` is a number of 128 bits,
-- and an instant of `chrono` the number of its ticks; the code compares them and no more.
use pheidippides.Prelude.{
  ℕ, Text, PartialEq, nat_eq, text_eq, text_eq_iff, Bool, ◌&&◌, ◌↔◌, ◌≡◌, true, arith,
}

abbrev pub Uuid : Type 0
Uuid = ℕ

abbrev pub UserId : Type 0
UserId = Uuid

abbrev pub MessageId : Type 0
MessageId = Uuid

abbrev pub Timestamp : Type 0
Timestamp = ℕ

pub record User : Type 0 where
  pub username : Text
  pub id : UserId

pub record Message : Type 0 where
  pub id : MessageId
  pub from : UserId
  pub to : UserId
  pub message : Text
  pub timestamp : Timestamp

-- The derived `PartialEq` of `User`.
unfoldable pub user_eq : User → User → Bool
user_eq a b = text_eq a.username b.username && nat_eq a.id b.id

pub user_eq_iff : (a b : User) → (user_eq a b ≡ true) ↔ (a ≡ b)
unfolding user_eq
user_eq_iff a b = ground (arith, text_eq_iff a.username b.username)

instance abbrev pub eq_user : PartialEq User
eq_user = record { eq = user_eq; eq_iff = user_eq_iff }

-- Equality of all the fields.
message_eq : Message → Message → Bool
message_eq a b =
    nat_eq a.id b.id
    && nat_eq a.from b.from
    && nat_eq a.to b.to
    && text_eq a.message b.message
    && nat_eq a.timestamp b.timestamp

message_eq_iff : (a b : Message) → (message_eq a b ≡ true) ↔ (a ≡ b)
unfolding message_eq
message_eq_iff a b = ground (arith, text_eq_iff a.message b.message)

instance pub eq_message : PartialEq Message
eq_message = record { eq = message_eq; eq_iff = message_eq_iff }
