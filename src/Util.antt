-- ===== src/Util.antt =====
-- src/ngx_http_php_util.c: the replacement of a text in a text. Replace has the functions; Replaced what
-- they give; Tests an example.
pub mod Replace
pub mod Replaced
mod Tests
