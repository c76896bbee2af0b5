-- ===== src/Variable.antt =====
-- nginx's variables as PHP code reads and sets them: src/ngx_http_php_variable.c and
-- src/php/impl/php_ngx_var.c. Access has the functions, Found is about a read behind a write; Tests an
-- example.
pub mod Access
pub mod Found
mod Tests
