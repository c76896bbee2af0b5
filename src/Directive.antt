-- ===== src/Directive.antt =====
-- src/ngx_http_php_directive.c, src/ngx_http_php_module.c and the code objects of
-- src/ngx_http_php_core.c: the directives, what they store, and how configurations are merged.
-- State has the configurations, Code the code objects, Setters, Blocks and Keepalive the setters,
-- Commands the table of directives, Merge and Register the module's part. Ready says when a
-- location finds its code; Keep, Inherit, Outcome, Equal, Reach and Paths are about the rest,
-- Source about a block's way to the PHP source; Tests has configurations and runs.
pub mod State
pub mod Code
pub mod Setters
pub mod Blocks
pub mod Keepalive
pub mod Commands
pub mod Merge
pub mod Register
pub mod Ready
pub mod Keep
pub mod Inherit
pub mod Outcome
pub mod Equal
pub mod Source
pub mod Reach
pub mod Paths
mod Tests
