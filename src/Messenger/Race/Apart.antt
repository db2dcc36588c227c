-- ===== src/Messenger/Race/Apart.antt =====
-- lib/pheidippides-messenger/src/messenger.rs: lists of messages that are stored, and lists that
-- have no id in common.
use pheidippides.Prelude.{
  List, [], ◌∷◌, ◌++◌, true, ◌==◌, eq_nat, any, any-append, any-IsNew, All, All-middle, IsNew, ◌≡◌,
  sym, ap, arith, ==_refl,
}
use pheidippides.Types.{MessageId, Message}

abbrev pub IsStored : List Message → Message → Type 0
IsStored log m = any (λ (x : Message). x.id == m.id) log ≡ true

pub stored_later :
    (log : List Message) (m x : Message) → IsStored log x → IsStored (log ++ m ∷ []) x
stored_later log m x h = ground (arith, any-append (λ (y : Message). y.id == x.id) log (m ∷ []))

pub stored_last : (log : List Message) (m : Message) → IsStored (log ++ m ∷ []) m
stored_last log m =
    ground (arith, any-append (λ (y : Message). y.id == m.id) log (m ∷ []), ==_refl m.id)

-- A new id is the id of nothing that is stored.
pub IsNew-of_stored :
    (k : MessageId) (log xs : List Message)
    → IsNew {A = Message} (λ x. x.id) k log
    → All (IsStored log) xs
    → IsNew {A = Message} (λ x. x.id) k xs
IsNew-of_stored k log [] n a = tt
IsNew-of_stored k log (x ∷ xs) n (h, a) = (
  λ p. ground (
    arith,
    ap (λ i. any (λ (y : Message). y.id == i) log) p,
    any-IsNew {A = Message} (λ y. y.id) k log n,
  ),
  IsNew-of_stored k log xs n a,
)

-- No two messages of the two lists have one id.
abbrev pub AreApart : List Message → List Message → Type 0
AreApart heard pending = All (λ (y : Message). IsNew {A = Message} (λ x. x.id) y.id pending) heard

pub apart_cons :
    (m : Message) (heard pending : List Message)
    → IsNew {A = Message} (λ x. x.id) m.id heard
    → AreApart heard pending
    → AreApart heard (m ∷ pending)
apart_cons m [] pending n a = tt
apart_cons m (y ∷ heard) pending (n, ns) (a, more) =
    ((λ p. n (sym p), a), apart_cons m heard pending ns more)

pub apart_middle :
    (heard before : List Message) (m : Message) (after : List Message)
    → AreApart heard (before ++ m ∷ after)
    → IsNew {A = Message} (λ x. x.id) m.id heard × AreApart heard (before ++ after)
apart_middle [] before m after a = (tt, tt)
apart_middle (y ∷ heard) before m after (a, more) =
    let (n, rest) = All-middle _ before m after a in
    let (ns, rests) = apart_middle heard before m after more in
    ((λ p. n (sym p), ns), (rest, rests))
