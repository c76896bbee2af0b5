-- ===== src/Sapi.antt =====
-- The callbacks of src/ngx_http_php_core.c for the PHP engine. Write has the one for output,
-- `ngx_http_php_code_ub_write`, Post `ngx_http_php_code_read_post`, Line
-- `ngx_http_php_code_header_handler`, Errors `ngx_php_error_cb`; Echo, Blocks, Added and Shown are about
-- them; Tests has examples.
pub mod Write
pub mod Echo
pub mod Post
pub mod Blocks
pub mod Line
pub mod Added
pub mod Errors
pub mod Shown
mod Tests
