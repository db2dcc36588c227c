-- ===== src/Lib.antt =====
-- Verification of the messenger pheidippides: the application, its stores in memory and in
-- Postgres, its subscriptions, and the web server from the bytes of a request to those of a
-- response.
--
-- The program. A request comes in as bytes (lib/http-server), is routed by method and path to a
-- handler (lib/pheidippides-web), which authorizes the session that the cookie names, reads its
-- parameters (lib/pheidippides-utils) and calls the messenger (lib/pheidippides-messenger). The
-- messenger stands on two traits: the store (DataAccess) and the password service (AuthService,
-- which lib/pheidippides-auth implements over AuthStorage). lib/mock-db implements both store
-- traits in memory, and lib/postgres-db with SQL. A new message is stored and then announced on
-- the broadcast channels of its sender and its addressee; a feed of a browser is a task that
-- reads from such a channel.
--
-- Which file models what:
--   Types            lib/pheidippides-messenger/src/lib.rs: User, Message and ids
--   DataAccess       lib/pheidippides-messenger/src/data_access.rs: the trait; Defaults has its
--                    provided methods and Laws the contract that clients rely on
--   Auth             lib/pheidippides-messenger/src/authorization.rs and
--                    lib/pheidippides-auth/src/lib.rs: verify_user and create_user
--   MockDb           lib/mock-db/src/lib.rs: the tables and every method; Users, Messages, Chats,
--                    Auth and Accounts have the laws of each table, Reach what holds after any
--                    methods, and Fixture is the sample store of Db::new
--   AsyncUtils       lib/pheidippides-utils/src/async_utils.rs: the tasks between channels
--   Subscriptions    lib/pheidippides-messenger/src/subscriptions_handler.rs; Delivery is about
--                    announcements, Feed about subscriptions, Recovery about the cleanup job in
--                    every state that Soundness describes
--   Messenger        lib/pheidippides-messenger/src/messenger.rs; Accounts and Sending; Race is
--                    about senders and other tasks that run while a browser subscribes
--   Cookies          lib/pheidippides-utils/src/http.rs and utils.rs
--   FormData         lib/pheidippides-utils/src/serde/form_data.rs
--   Http             lib/http-server/src: Method (method.rs), Response (response.rs), Request
--                    (request.rs as far as it reads), Respond (Request::respond), Status and
--                    Builder (http_response.rs), EventSource (event_source.rs), Number and Utf8
--                    (the numbers and the bytes of texts), Headers (lines of headers), Writer
--                    (the connection that is written to), Server (server.rs); Printing, Serving,
--                    Reading and Delivery are about what is read back from what was written
--   Postgres         lib/postgres-db: Tables (the migrations and transactions), Queries and Store
--                    (src/lib.rs), Like (the operator of SQL); Integrity, Writes, Search, and Log,
--                    Pages and Chats, which compare the store with the one in memory; Groups,
--                    Distinct, Partners and Listed are about the rows of the chats
--   Web.Flow         lib/pheidippides-web/src/flow_controller.rs
--   Web.Sessions     lib/pheidippides-web/src/sessions.rs
--   Web.World        the state that handlers work on, and what is not in the repository
--   Web.Actions      lib/pheidippides-web/src/routing/actions.rs
--   Web.Pages        lib/pheidippides-web/src/routing/pages.rs, html.rs, json.rs, tools.rs
--   Web.Routing      lib/pheidippides-web/src/routing.rs: route; Access and Login
--   Bin              bin/server/src/main.rs and lib/pheidippides-web/src/request_handler.rs; Session
--                    is about a log-in from the bytes of a request to those of the next one,
--                    Run is the server from its start on, and Mock starts it with the sample
--                    store
--   Tests            each theorem at a concrete input
--
-- How state and operations are modelled. An operation is a function from a state to a result and
-- a new state; `?` is the bind of a do block, and what was written before an error stays written.
-- A mutex or a lock is a value with a flag that says whether it is poisoned; a method that holds
-- it until it returns is one step. A task is a function from the turns that it takes to what it
-- sends. A step of a database method, which is a connection, a statement or a commit, comes with
-- a fate: it is answered, it is refused, or it has its effect and the answer is lost; a
-- transaction that does not commit changes nothing. Values that the code draws (ids, times,
-- salts) are arguments.
--
-- Parameters. Argon2, the broadcast channel of tokio, the percent-decoding, the Unicode part of
-- to_lowercase, the templates, JSON, the parser of ids and the visitors that serde derives are
-- arguments; what is assumed of them stands in the records Argon2 and Broadcast. So are the order
-- in which a HashMap is visited (Order), a connection (Writer), and what depends on the database
-- server: lower, what a column keeps of an instant, and the order of rows that `order by` leaves
-- equal (Server). A visitor is a tree of the calls that it makes.
--
-- Bounds and fuel. A text is split with as much fuel as it has characters, and each piece but the
-- last ends with a separator. The header lines of a request are read with one round more than
-- there are bytes left, and each line takes at least one byte. A page holds 50 messages, and a
-- channel 100. Content-Length is parsed up to 2^64 - 1. Theorems that compare the two stores take
-- a log with no two messages at one instant, which the code does not enforce.
--
-- Not modelled: the command lines, the signal handler, binding an address, connecting to a
-- database, closing its pool and applying migrations, which only call clap, tokio and sqlx; that
-- Postgres refuses the character 0 in a text; two transactions at once, which the exclusive locks
-- of the code keep apart; two handlers that run at once, but for what happens while a browser
-- subscribes; limits of memory, so that the buffer for a body is always allocated, where `vec!`
-- panics above 2^63 - 1 bytes; how long the intervals of the cleanup job and of the keep-alive
-- lines are.
pub mod AsyncUtils
pub mod Auth
pub mod Bin
pub mod Cookies
pub mod DataAccess
pub mod FormData
pub mod Http
pub mod Messenger
pub mod MockDb
pub mod Postgres
pub mod Prelude
pub mod Subscriptions
pub mod Tests
pub mod Types
pub mod Web
