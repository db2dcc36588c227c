-- ===== src/Bin/Mock.antt =====
-- bin/server/src/main.rs with lib/mock-db/src/lib.rs: the server that is started with the sample store.
use pheidippides.Prelude.{eq_text}
use pheidippides.Prelude.Maps
use pheidippides.Messenger
use pheidippides.MockDb.Fixture
use pheidippides.FormData
use pheidippides.Cookies as Names
use pheidippides.Cookies.{Headers}
use pheidippides.Http.Writer.{Writer}
use pheidippides.Web.World.{World}
