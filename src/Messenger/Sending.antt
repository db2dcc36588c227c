-- ===== src/Messenger/Sending.antt =====
-- lib/pheidippides-messenger/src/messenger.rs: sending a message.
use pheidippides.Prelude.{Text, eq_nat, [], ◌∷◌, ◌++◌, ok, err, ◌≡◌}
use pheidippides.Prelude.Maps
use pheidippides.Types.{UserId, MessageId, Timestamp, Message}
use pheidippides.DataAccess.{DataAccess}
use pheidippides.DataAccess.Laws.{LawfulLog}
use pheidippides.Auth.{AuthService}
use pheidippides.Subscriptions.{Broadcast, Handler}
use pheidippides.Subscriptions.Delivery.{Gets, copies}
use pheidippides.Messenger.{send_message, data_access, create_message_from_to}

module _ {B D A Salt Sender Receiver : Type 0} (broadcast : Broadcast Sender Receiver)
    (d : DataAccess B D) (auth : AuthService B A Salt) (lawful : LawfulLog B D d) (id : MessageId)
    (timestamp : Timestamp) (text : Text) (from to : UserId) (h : Handler B Sender) where
  abbrev sent : Message
  sent = record { id = id; from = from; to = to; message = text; timestamp = timestamp }

  -- The message is stored and heard.
  pub record IsSent (h' : Handler B Sender) : Type 0 where
    pub answer : send_message broadcast d auth id timestamp text from to h ≡ (ok id, h')
    pub stored : lawful.log h'.backend ≡ lawful.log h.backend ++ sent ∷ []
    pub heard :
        (w : UserId)
        → Gets broadcast
            (copies broadcast sent w)
            (Maps.get h.new_messages.inner w)
            (Maps.get h'.new_messages.inner w)

  -- The store refused the message, and no channel has it.
  pub record IsRefused (h' : Handler B Sender) : Type 0 where
    pub error : D
    pub refused : (d.create_message sent h.backend).0 ≡ err error
    pub answer :
        send_message broadcast d auth id timestamp text from to h
        ≡ (err (data_access (create_message_from_to from to) error), h')
    pub unheard : h'.new_messages ≡ h.new_messages
