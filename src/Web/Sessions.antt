-- ===== src/Web/Sessions.antt =====
-- lib/pheidippides-web/src/sessions.rs: the sessions of users who are logged in.
use pheidippides.Prelude.{Text, codes, Option, HashMap, Exec, Lock, ok, err, eq_text, if◌then◌else◌}
use pheidippides.Prelude.Maps
use pheidippides.Prelude.Maps.{get-insert, get-insert_self, get-remove, get-remove_self}
use pheidippides.Types.{UserId}

abbrev pub SessionId : Type 0
SessionId = Text

abbrev pub session_id_cookie : Text
session_id_cookie = codes "_pheidippides_sid"

pub record SessionInfo : Type 0 where
  pub user_id : UserId

-- The global `SESSION_INFO`.
abbrev pub Sessions : Type 0
Sessions = Lock (HashMap SessionId SessionInfo)

pub data Error : Type 0 where
  could_not_lock : Error

unfoldable pub update_session_info : SessionId → SessionInfo → Exec Sessions Error (Unit {0})
update_session_info session_id session_info s =
    if s.poisoned
    then (err could_not_lock, s)
    else (ok tt, record s { inner = Maps.insert s.inner session_id session_info })

unfoldable pub get_session_info : SessionId → Exec Sessions Error (Option SessionInfo)
get_session_info session_id s =
    if s.poisoned then (err could_not_lock, s) else (ok (Maps.get s.inner session_id), s)

unfoldable pub remove_session_info : SessionId → Exec Sessions Error (Unit {0})
remove_session_info session_id s =
    if s.poisoned
    then (err could_not_lock, s)
    else (ok tt, record s { inner = Maps.remove s.inner session_id })
