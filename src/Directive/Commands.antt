-- ===== src/Directive/Commands.antt =====
-- The table `ngx_http_php_commands` of src/ngx_http_php_module.c: each directive with its setter and
-- its `cmd->post`; and a run of directives, as nginx reads them one behind the other.
use ngx_php.Prelude.{Bool, true, false, some, List, [], ◌∷◌}
use ngx_php.Directive.State.{
  rewrite, access, content, log, opcode, stack, header_filter, body_filter, file_handler,
  inline_handler, PhpConf,
}
use ngx_php.Directive.Code.{Memory}
use ngx_php.Directive.Setters.{
  Args, Setter, ini_path, init_worker_inline_phase, rewrite_phase, access_phase, content_phase,
  rewrite_inline_phase, access_inline_phase, content_inline_phase, log_inline_phase,
  opcode_inline_phase, stack_inline_phase, header_filter_inline_phase, body_filter_inline_phase,
}
use ngx_php.Directive.Blocks.{
  on_main, init_worker_block_phase_handler, rewrite_block_phase_handler, access_block_phase_handler,
  content_block_phase_handler, log_block_phase_handler, header_filter_block_phase_handler,
  body_filter_block_phase_handler,
}
use ngx_php.ConfFile.Parse.{Reply, conf_ok, conf_error, message}

pub data Command : Type 0 where
  php_ini_path init_worker_by_php php_worker_init init_worker_by_php_block rewrite_by_php_file
        access_by_php_file content_by_php_file rewrite_by_php access_by_php content_by_php
        opcode_by_php stack_by_php log_by_php header_filter_by_php body_filter_by_php php_rewrite
        php_access php_content php_log php_header_filter php_body_filter rewrite_by_php_block
        access_by_php_block content_by_php_block log_by_php_block header_filter_by_php_block
        body_filter_by_php_block :
      Command

-- A command's setter; for a block, the one that gets the block's text.
unfoldable pub setter : Command → Setter PhpConf
unfolding ini_path init_worker_inline_phase init_worker_block_phase_handler rewrite_phase
    access_phase content_phase rewrite_inline_phase access_inline_phase content_inline_phase
    log_inline_phase opcode_inline_phase stack_inline_phase header_filter_inline_phase
    body_filter_inline_phase rewrite_block_phase_handler access_block_phase_handler
    content_block_phase_handler log_block_phase_handler header_filter_block_phase_handler
    body_filter_block_phase_handler
setter php_ini_path = on_main ini_path
setter init_worker_by_php = on_main init_worker_inline_phase
setter php_worker_init = on_main init_worker_inline_phase
setter init_worker_by_php_block = on_main init_worker_block_phase_handler
setter rewrite_by_php_file = rewrite_phase (some (file_handler rewrite))
setter access_by_php_file = access_phase (some (file_handler access))
setter content_by_php_file = content_phase (some (file_handler content))
setter rewrite_by_php = rewrite_inline_phase (some (inline_handler rewrite))
setter access_by_php = access_inline_phase (some (inline_handler access))
setter content_by_php = content_inline_phase (some (inline_handler content))
setter opcode_by_php = opcode_inline_phase (some (inline_handler opcode))
setter stack_by_php = stack_inline_phase (some (inline_handler stack))
setter log_by_php = log_inline_phase (some (inline_handler log))
setter header_filter_by_php = header_filter_inline_phase (some (inline_handler header_filter))
setter body_filter_by_php = body_filter_inline_phase (some (inline_handler body_filter))
setter php_rewrite = rewrite_inline_phase (some (inline_handler rewrite))
setter php_access = access_inline_phase (some (inline_handler access))
setter php_content = content_inline_phase (some (inline_handler content))
setter php_log = log_inline_phase (some (inline_handler log))
setter php_header_filter = header_filter_inline_phase (some (inline_handler header_filter))
setter php_body_filter = body_filter_inline_phase (some (inline_handler body_filter))
setter rewrite_by_php_block = rewrite_block_phase_handler
setter access_by_php_block = access_block_phase_handler
setter content_by_php_block = content_block_phase_handler
setter log_by_php_block = log_block_phase_handler
setter header_filter_by_php_block = header_filter_block_phase_handler
setter body_filter_by_php_block = body_filter_block_phase_handler

abbrev pub has_block : Command → Bool
has_block init_worker_by_php_block = true
has_block rewrite_by_php_block = true
has_block access_by_php_block = true
has_block content_by_php_block = true
has_block log_by_php_block = true
has_block header_filter_by_php_block = true
has_block body_filter_by_php_block = true
has_block _ = false

-- What nginx hears: the parser of blocks answers NGX_CONF_OK for any text of its handler.
abbrev pub heard : Bool → Reply → Reply
heard true (message text) = conf_ok
heard _ reply = reply

-- A directive of the file: its command, the memory found for it, its arguments.
pub record Line : Type 0 where
  pub command : Command
  pub memory : Memory
  pub args : Args

-- nginx goes on behind a directive that is answered by NGX_CONF_OK.
unfoldable pub go_on : (PhpConf → Reply × PhpConf) → Reply × PhpConf → Reply × PhpConf
go_on rest (conf_ok, p) = rest p
go_on rest (conf_error, p) = (conf_error, p)
go_on rest (message text, p) = (message text, p)

unfoldable pub apply : Line → PhpConf → Reply × PhpConf
unfolding setter
apply l p =
    let (reply, p') = setter l.command l.memory l.args p in (heard (has_block l.command) reply, p')

unfoldable pub configure : List Line → PhpConf → Reply × PhpConf
unfolding apply go_on
configure [] p = (conf_ok, p)
configure (l ∷ ls) p = go_on (configure ls) (apply l p)
