-- ===== src/Directive/Blocks.antt =====
-- The setters that src/ngx_http_php_directive.c hands to `ngx_php_conf_parse` for the directives
-- `*_by_php_block { ... }`: the block's text is their argument 0.
use ngx_php.Prelude.{ℕ, true, some, none, Option}
use ngx_php.Directive.State.{
  rewrite, access, content, log, header_filter, body_filter, inline_handler, PhpConf, MainConf,
}
use ngx_php.Directive.Code.{Memory, code_from_file, code_from_string}
use ngx_php.Directive.Setters.{Setter, set_once}
use ngx_php.ConfFile.State.{Conf, Env}
use ngx_php.ConfFile.Parse.{Reply, Host, parse}

unfoldable pub init_worker_block_phase_handler : Setter MainConf
unfolding set_once
init_worker_block_phase_handler m args c =
    set_once c.init_worker_inline_code (code_from_string m (args 0))
      (λ code. record c { init_worker_inline_code = some code; enabled_init_worker_handler = true })
      c

unfoldable pub rewrite_block_phase_handler : Setter PhpConf
unfolding set_once
rewrite_block_phase_handler m args c =
    set_once c.loc.rewrite_handler (code_from_string m (args 0))
      (λ code. record {
        main = record (c.main) { enabled_rewrite_handler = true };
        loc = record (c.loc) {
          rewrite_inline_code = some code;
          rewrite_handler = some (inline_handler rewrite);
        };
      })
      c

unfoldable pub access_block_phase_handler : Setter PhpConf
unfolding set_once
access_block_phase_handler m args c =
    set_once c.loc.access_handler (code_from_string m (args 0))
      (λ code. record {
        main = record (c.main) { enabled_access_handler = true };
        loc = record (c.loc) {
          access_inline_code = some code;
          access_handler = some (inline_handler access);
        };
      })
      c

unfoldable pub content_block_phase_handler : Setter PhpConf
unfolding set_once
content_block_phase_handler m args c =
    set_once c.loc.content_handler (code_from_string m (args 0))
      (λ code. record {
        main = record (c.main) { enabled_content_handler = true };
        loc = record (c.loc) {
          content_inline_code = some code;
          content_handler = some (inline_handler content);
        };
      })
      c

unfoldable pub log_block_phase_handler : Setter PhpConf
unfolding set_once
log_block_phase_handler m args c =
    set_once c.loc.log_handler (code_from_file m (args 0))
      (λ code. record {
        main = record (c.main) { enabled_log_handler = true };
        loc = record (c.loc) { log_code = some code; log_handler = some (inline_handler log) };
      })
      c

unfoldable pub header_filter_block_phase_handler : Setter PhpConf
unfolding set_once
header_filter_block_phase_handler m args c =
    set_once c.loc.header_filter_handler (code_from_string m (args 0))
      (λ code. record {
        main = record (c.main) { enabled_header_filter = true };
        loc = record (c.loc) {
          header_filter_inline_code = some code;
          header_filter_handler = some (inline_handler header_filter);
        };
      })
      c

unfoldable pub body_filter_block_phase_handler : Setter PhpConf
unfolding set_once
body_filter_block_phase_handler m args c =
    set_once c.loc.body_filter_handler (code_from_string m (args 0))
      (λ code. record {
        main = record (c.main) { enabled_body_filter = true };
        loc = record (c.loc) {
          body_filter_inline_code = some code;
          body_filter_handler = some (inline_handler body_filter);
        };
      })
      c

-- A setter as a directive's handler of the parser, `cf->handler`.
unfoldable pub as_handler : Setter PhpConf → Memory → Conf → Reply × Conf
as_handler set m c = let (rv, p) = set m c.elts c.php_conf in (rv, record c { php_conf = p })

-- A setter of the main configuration alone.
abbrev pub on_main : Setter MainConf → Setter PhpConf
on_main set m args p = let (rv, main) = set m args p.main in (rv, record p { main = main })

-- The body of every `ngx_http_php_<stage>_block_phase`: `*cf` with its handler set, parsed, and put
-- back. What `cf` points to stays as the parser left it.
unfoldable pub block_phase : Setter PhpConf → Memory → Host → Env → ℕ → Conf → Option (Reply × Conf)
unfolding as_handler
block_phase set m h e fuel c = parse (record h { handler = as_handler set m }) e fuel none c

unfoldable pub init_worker_block_phase : Memory → Host → Env → ℕ → Conf → Option (Reply × Conf)
unfolding block_phase
init_worker_block_phase = block_phase (on_main init_worker_block_phase_handler)

unfoldable pub rewrite_block_phase : Memory → Host → Env → ℕ → Conf → Option (Reply × Conf)
unfolding block_phase
rewrite_block_phase = block_phase rewrite_block_phase_handler

unfoldable pub access_block_phase : Memory → Host → Env → ℕ → Conf → Option (Reply × Conf)
unfolding block_phase
access_block_phase = block_phase access_block_phase_handler

unfoldable pub content_block_phase : Memory → Host → Env → ℕ → Conf → Option (Reply × Conf)
unfolding block_phase
content_block_phase = block_phase content_block_phase_handler

unfoldable pub log_block_phase : Memory → Host → Env → ℕ → Conf → Option (Reply × Conf)
unfolding block_phase
log_block_phase = block_phase log_block_phase_handler

unfoldable pub header_filter_block_phase : Memory → Host → Env → ℕ → Conf → Option (Reply × Conf)
unfolding block_phase
header_filter_block_phase = block_phase header_filter_block_phase_handler

unfoldable pub body_filter_block_phase : Memory → Host → Env → ℕ → Conf → Option (Reply × Conf)
unfolding block_phase
body_filter_block_phase = block_phase body_filter_block_phase_handler
