-- ===== src/ConfFile/State.antt =====
-- The parts of nginx's `ngx_conf_t`, `ngx_conf_file_t` and `ngx_buf_t` that the reader of
-- src/ngx_php_conf_file.c touches. Everything that nginx itself does is a field of `Env`.
use ngx_php.Prelude.{ℕ, Bool, List, Option, ◌++◌, ◌∷◌, []}
use ngx_php.Directive.State.{PhpConf}

abbrev pub Bytes : Type 0
Bytes = List ℕ

-- `ngx_str_t`: `len` need not be the number of bytes that `text` shows.
pub record Token : Type 0 where
  pub text : Bytes
  pub len : ℕ

-- The messages of `ngx_conf_log_error` and `ngx_log_error`.
pub data Message : Type 0 where
  eof_in_parameter eof_in_directive too_long short_read : Message
  open_failed stat_failed close_failed : Message
  unexpected_close eof_in_block block_in_option : Message

-- `ahead` is b->pos .. b->last and `held` is start .. b->pos, so `b->start + len` is where a
-- refill puts its bytes; `capacity` is b->end - b->start. `elts` is the memory of cf->args,
-- which setting `nelts` to 0 leaves as it is. `php_conf` is what
-- cf->ctx and cf->handler_conf lead to: the module's own configurations.
pub record Conf : Type 0 where
  pub held : Bytes
  pub ahead : Bytes
  pub capacity : ℕ
  pub offset : ℕ
  pub line : ℕ
  pub dump : Option Bytes
  pub nelts : ℕ
  pub elts : ℕ → Token
  pub fd_is_invalid : Bool
  pub logged : List Message
  pub php_conf : PhpConf

-- `ngx_read_file size offset` is `none` for NGX_ERROR, or the bytes read with the file's new
-- offset. `ngx_cpystrn src n` is what the destination holds after copying with limit `n`.
pub record Env : Type 0 where
  pub file_size : ℕ
  pub ngx_read_file : ℕ → ℕ → Option (Bytes × ℕ)
  pub ngx_array_push_succeeds : Bool
  pub ngx_pnalloc_succeeds : Bool
  pub ngx_cpystrn : Bytes → ℕ → Bytes

abbrev pub log_error : Message → Conf → Conf
log_error m c = record c { logged = c.logged ++ m ∷ [] }
