-- ===== src/Headers.antt =====
-- The headers of an answer as PHP code sets and reads them: src/php/impl/php_ngx_header.c,
-- src/ngx_http_php_header.c, `ngx_cookie_set` of src/php/impl/php_ngx_cookie.c, `ngx_status` and
-- `ngx_redirect` of src/php/impl/php_ngx_core.c. State has nginx's `headers_out`, Functions the
-- functions; Found is about reads behind writes, Redirect about redirects; Tests has examples.
pub mod State
pub mod Functions
pub mod Found
pub mod Redirect
mod Tests
