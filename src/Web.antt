-- ===== src/Web.antt =====
-- lib/pheidippides-web/src: the web server's handlers.
pub mod Flow
pub mod Sessions
pub mod World
pub mod Actions
pub mod Pages
pub mod Routing
