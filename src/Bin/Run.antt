-- ===== src/Bin/Run.antt =====
-- bin/server/src/main.rs and lib/pheidippides-web/src/request_handler.rs: the server from its start
-- on. The tasks of the connections are taken one after the other.
use pheidippides.Prelude.{ℕ, List, [], ◌∷◌, false}
use pheidippides.DataAccess.{DataAccess}
use pheidippides.Auth.{AuthService}
use pheidippides.Subscriptions.{Broadcast}
use pheidippides.Messenger
use pheidippides.Http.Builder.{Order}
use pheidippides.Http.Writer.{Writer}
use pheidippides.Http.Server.{Served, Turn, accept_loop, serve}
use pheidippides.Web.World.{External, Drawn, World}
use pheidippides.Web.Actions.{Pipe}
use pheidippides.Bin.{handle}

-- `RequestHandler::new`, with the sessions that are empty at first.
abbrev pub new : {B Sender Receiver : Type 0} → Broadcast Sender Receiver → B → World B Sender
new broadcast db_access = record {
  app = Messenger.new broadcast db_access;
  sessions = record { inner = []; poisoned = false };
}

module _ {B D A Salt Sender Receiver C E : Type 0} (F : Type 0)
    (broadcast : Broadcast Sender Receiver) (d : DataAccess B D) (auth : AuthService B A Salt)
    (external : External) (writer : Writer C E) (order : Order) where
  -- What the handler draws for a connection, what the connection sends, and its writing half.
  abbrev pub Connection : Type 0
  Connection = Drawn Salt × List ℕ × C

  unfoldable pub serve_all :
      List Connection → World B Sender → List (Served C E (Pipe Receiver)) × World B Sender
  serve_all [] w = ([], w)
  serve_all ((drawn, stream, c) ∷ connections) w =
      let (served, after) =
        serve {F = F} writer external.unicode order (handle broadcast d auth external drawn) stream
          c w in
      let (rest, last) = serve_all connections after in (served ∷ rest, last)

  -- `run_server` of the binary, for what happens at the listener.
  unfoldable pub run_server :
      B → List (Turn Connection) → List (Served C E (Pipe Receiver)) × World B Sender
  unfolding serve_all
  run_server data_access turns = serve_all (accept_loop turns) (new broadcast data_access)
