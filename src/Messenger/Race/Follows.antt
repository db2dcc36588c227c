-- ===== src/Messenger/Race/Follows.antt =====
-- lib/pheidippides-messenger/src/messenger.rs and subscriptions_handler.rs: a receiver of a user's
-- channel, from where it is opened on, while senders are at work.
use pheidippides.Prelude.{
  arith, nat_eq_iff, List, [], ◌∷◌, ◌++◌, some, ◌==◌, eq_nat, All, All-middle, IsUnique,
  IsUnique-middle, ok, ◌≡◌, ◌≢◌, refl, sym, ap, ◌∙◌, subst, Bool-cases, inl, inr,
}
use mathlib.Core.List.{append-nil, append_assoc}
use pheidippides.Prelude.Maps
use pheidippides.Prelude.Maps.{get-insert, get-insert_self}
use pheidippides.Types.{UserId, Message}
use pheidippides.DataAccess.{DataAccess}
use pheidippides.DataAccess.Laws.{LawfulLog}
use pheidippides.Subscriptions.{
  Broadcast, Handler, handle_new_message, open_subscription, drop_subscription, entry_or_channel,
}
use pheidippides.Subscriptions.Delivery.{Gets, copies}
use pheidippides.Messenger.Race.{
  Progress, Step, stores, announces, joins, leaves, cleans, others, Run, here, next,
}
use pheidippides.Messenger.Race.Apart.{IsStored}
use pheidippides.Messenger.Race.Invariant.{
  Sound, Step-Sound, announced, open_subscription_lem, drop_subscription_lem,
  open_subscription-Sound, get-clean,
}
use pheidippides.Messenger.Race.Feed.{Hears, Hears-nil, Hears-again, Hears-stores, Hears-announces}

module _ {B D Sender Receiver : Type 0} (broadcast : Broadcast Sender Receiver) (d : DataAccess B D)
    (lawful : LawfulLog B D d) (u : UserId) (r : Receiver) where
  -- The receiver listens at the user's entry, and covers what was stored after `old`.
  pub record Follows (old : List Message) (s : Progress B Sender) : Type 0 where
    pub sender : Sender
    pub entry : Maps.get s.handler.new_messages.inner u ≡ some sender
    pub new : List Message
    pub log : lawful.log s.handler.backend ≡ old ++ new
    pub hears : Hears u (broadcast.log sender r) s.pending (lawful.log s.handler.backend) new

  pub Follows-again :
      {old : List Message} {s : Progress B Sender}
      → Follows old s
      → Follows (lawful.log s.handler.backend) s
  Follows-again f = record {
    sender = f.sender;
    entry = f.entry;
    new = [];
    log = sym (append-nil _);
    hears = Hears-again f.hears;
  }

  join :
      {s : Progress B Sender} (w : UserId) (r' : Receiver) (h : Handler B Sender)
      → open_subscription broadcast {B = B} {D = D} w s.handler ≡ (ok r', h)
      → r ≢ r'
      → (old : List Message) → Follows old s
      → Follows old (record s { handler = h })
  join {s} w r' h done n old f =
      let (backend, inner, same) = open_subscription_lem broadcast d lawful w r' s.handler h done in
      let before = s.handler.new_messages.inner in
      let last = entry_or_channel broadcast (Maps.get before w) in
      let set = get-insert before w u (broadcast.subscribe last).0 in
      elim (Bool-cases (w == u)) [
        | inl own ↦
            let found : last ≡ f.sender =
              ap (entry_or_channel broadcast)
                (ap (Maps.get before) ((nat_eq_iff w u).0 own) ∙ f.entry) in
            record {
              sender = (broadcast.subscribe last).0;
              entry = ap (λ x. Maps.get x u) inner ∙ set ∙ rw own refl;
              new = f.new;
              log = ap lawful.log backend ∙ f.log;
              hears =
                  rw (backend, broadcast.log-subscribe_other last r (λ p. n (p ∙ same)), found)
                    f.hears;
            }
        | inr other ↦ record {
          sender = f.sender;
          entry = ap (λ x. Maps.get x u) inner ∙ set ∙ rw other f.entry;
          new = f.new;
          log = ap lawful.log backend ∙ f.log;
          hears = rw backend f.hears;
        }
      ]

  leave :
      {s : Progress B Sender} (w : UserId) (r' : Receiver) (t : Sender)
      → Maps.get s.handler.new_messages.inner w ≡ some t
      → r ≢ r'
      → (old : List Message) → Follows old s
      → Follows old (record s { handler = drop_subscription broadcast w r' s.handler })
  leave {s} w r' t found n old f =
      let (backend, inner) = drop_subscription_lem broadcast d lawful w r' s.handler t found in
      let before = s.handler.new_messages.inner in
      let set = get-insert before w u (broadcast.drop_receiver t r') in
      elim (Bool-cases (w == u)) [
        | inl own ↦
            let same : t ≡ f.sender =
              ground (arith, ap (Maps.get before) ((nat_eq_iff w u).0 own), found, f.entry) in
            record {
              sender = broadcast.drop_receiver t r';
              entry = ap (λ x. Maps.get x u) inner ∙ set ∙ rw own refl;
              new = f.new;
              log = ap lawful.log backend ∙ f.log;
              hears = rw (backend, broadcast.log-drop_other t r r' n, same) f.hears;
            }
        | inr other ↦ record {
          sender = f.sender;
          entry = ap (λ x. Maps.get x u) inner ∙ set ∙ rw other f.entry;
          new = f.new;
          log = ap lawful.log backend ∙ f.log;
          hears = rw backend f.hears;
        }
      ]

  Step-Follows :
      {s t : Progress B Sender} (old : List Message)
      → Step broadcast d lawful r s t
      → Sound broadcast d lawful s
      → Follows old s
      → Follows old t
  Step-Follows {s} old (stores m b done new) i f =
      let log : lawful.log b ≡ lawful.log s.handler.backend ++ m ∷ [] =
        lawful.log-create_message m s.handler.backend b done in
      record {
        sender = f.sender;
        entry = f.entry;
        new = f.new ++ m ∷ [];
        log = log ∙ ap (λ l. l ++ m ∷ []) f.log ∙ append_assoc old f.new (m ∷ []);
        hears =
            subst (λ l. Hears u (broadcast.log f.sender r) (m ∷ s.pending) l (f.new ++ m ∷ []))
              (sym log) (Hears-stores m new f.hears);
      }
  Step-Follows {s} old (announces before m after e) i f =
      let (backend, heard) = announced broadcast d lawful m s.handler i.sound.up i.live in
      let after_m = (handle_new_message broadcast {B = B} {D = D} m s.handler).1 in
      let (t, there, _, log) =
        subst (λ o. Gets broadcast (copies broadcast m u) o (Maps.get after_m.new_messages.inner u))
          f.entry (heard u) in
      let waiting =
        IsUnique-middle {A = Message} (λ x. x.id) before m after
          (subst (IsUnique {A = Message} (λ x. x.id)) e i.waiting) in
      let stored =
        All-middle _ before m after
          (subst (All (IsStored (lawful.log s.handler.backend))) e i.stored) in
      record {
        sender = t;
        entry = there;
        new = f.new;
        log = ap lawful.log backend ∙ f.log;
        hears =
            rw (backend, log r)
              (Hears-announces before m after stored.0 waiting.1 (
                subst
                  (λ p. Hears u (broadcast.log f.sender r) p (lawful.log s.handler.backend) f.new) e
                  f.hears));
      }
  Step-Follows {s} old (joins w r' h done n) i f = join w r' h done n old f
  Step-Follows {s} old (leaves w r' t found more n) i f = leave w r' t found n old f
  Step-Follows {s} old cleans i f = record {
    sender = f.sender;
    entry = get-clean broadcast d lawful s u i ∙ f.entry;
    new = f.new;
    log = f.log;
    hears = f.hears;
  }
  Step-Follows {s} old (others b log) i f = record {
    sender = f.sender;
    entry = f.entry;
    new = f.new;
    log = log ∙ f.log;
    hears = subst (λ l. Hears u (broadcast.log f.sender r) s.pending l f.new) (sym log) f.hears;
  }

  pub Run-Follows :
      {s t : Progress B Sender} (old : List Message)
      → Run broadcast d lawful r s t
      → Sound broadcast d lawful s
      → Follows old s
      → Sound broadcast d lawful t × Follows old t
  Run-Follows old here i f = (i, f)
  Run-Follows old (next run step) i f =
      let (i', f') = Run-Follows old run i f in
      (Step-Sound broadcast d lawful r step i', Step-Follows old step i' f')

  pub open_subscription-Follows :
      (h h' : Handler B Sender) (pending : List Message)
      → Sound broadcast d lawful (record { handler = h; pending = pending })
      → open_subscription broadcast {B = B} {D = D} u h ≡ (ok r, h')
      → Sound broadcast d lawful (record { handler = h'; pending = pending })
        × Follows (lawful.log h.backend) (record { handler = h'; pending = pending })
  open_subscription-Follows h h' pending i done =
      let (backend, inner, same) = open_subscription_lem broadcast d lawful u r h h' done in
      let last = entry_or_channel broadcast (Maps.get h.new_messages.inner u) in
      let log =
        subst (λ x. broadcast.log (broadcast.subscribe last).0 x ≡ []) same
          (broadcast.log-subscribe last) in
      (
        open_subscription-Sound broadcast d lawful u r _ h' done i,
        record {
          sender = (broadcast.subscribe last).0;
          entry = rw inner (get-insert_self h.new_messages.inner u (broadcast.subscribe last).0);
          new = [];
          log = ap lawful.log backend ∙ sym (append-nil _);
          hears = rw log (Hears-nil u pending _);
        },
      )
