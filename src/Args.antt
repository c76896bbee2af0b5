-- ===== src/Args.antt =====
-- src/php/impl/php_ngx_core.c: the arguments of a request as a PHP array. Scan has the loop over a
-- text and the functions; Decode is about texts of `name=value` with `&` between them, Faults about
-- texts that are not; Tests examples.
pub mod Scan
pub mod Decode
pub mod Faults
pub mod Same
pub mod Samples
mod Tests
