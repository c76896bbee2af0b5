-- ===== src/ConfFile.antt =====
-- src/ngx_php_conf_file.c: the reader of `{ ... }` PHP blocks in the configuration. State has the
-- reader's state and environment, Token `ngx_php_conf_read_token`, Parse `ngx_php_conf_parse`. Spec
-- describes the split of a text at its closing brace; Inversion is about that split, Steps and
-- Turn about one turn of the loop, Refine about the whole loop, Result about the reader, Rounds
-- about the parser, Frame about what the reader leaves alone; Samples and Tests read a text.
pub mod State
pub mod Token
pub mod Spec
pub mod Inversion
pub mod Steps
pub mod Turn
pub mod Refine
pub mod Result
pub mod Parse
pub mod Rounds
pub mod Frame
pub mod Samples
mod Tests
