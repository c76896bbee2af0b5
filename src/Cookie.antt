-- ===== src/Cookie.antt =====
-- src/php/impl/php_ngx_cookie.c: the cookies that a request brings. Get has `ngx_cookie_get` and
-- `ngx_cookie_get_all`; Decode is about the loop over a header's text, Found about a request; Samples
-- has a comparison of texts for Tests.
pub mod Get
pub mod Decode
pub mod Found
pub mod Samples
mod Tests
