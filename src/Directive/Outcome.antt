-- ===== src/Directive/Outcome.antt =====
-- What a directive of a location answers, and what it changes.
use ngx_php.Prelude.{◌≡◌, ◌≢◌, ◌⊎◌, true, none, some, Option, arith}
use ngx_php.Directive.State.{
  Stage, rewrite, access, content, log, opcode, stack, header_filter, body_filter, HandlerPt,
  file_handler, inline_handler, Code, PhpConf, LocConf,
}
use ngx_php.Directive.Code.{Memory, code_from_file, code_from_string}
use ngx_php.Directive.Setters.{Args, is_duplicated, set_once, with_post}
use ngx_php.Directive.Ready.{handler_of, file_of, inline_of, enabled_of}
use ngx_php.Directive.Commands.{Command, setter}
use ngx_php.ConfFile.Parse.{conf_ok, conf_error, message}

-- The handler that a location's directive stands for.
abbrev pub runs : Command → Option HandlerPt
runs Command.rewrite_by_php_file = some (file_handler rewrite)
runs Command.access_by_php_file = some (file_handler access)
runs Command.content_by_php_file = some (file_handler content)
runs Command.rewrite_by_php = some (inline_handler rewrite)
runs Command.access_by_php = some (inline_handler access)
runs Command.content_by_php = some (inline_handler content)
runs Command.opcode_by_php = some (inline_handler opcode)
runs Command.stack_by_php = some (inline_handler stack)
runs Command.log_by_php = some (inline_handler log)
runs Command.header_filter_by_php = some (inline_handler header_filter)
runs Command.body_filter_by_php = some (inline_handler body_filter)
runs Command.php_rewrite = some (inline_handler rewrite)
runs Command.php_access = some (inline_handler access)
runs Command.php_content = some (inline_handler content)
runs Command.php_log = some (inline_handler log)
runs Command.php_header_filter = some (inline_handler header_filter)
runs Command.php_body_filter = some (inline_handler body_filter)
runs Command.rewrite_by_php_block = some (inline_handler rewrite)
runs Command.access_by_php_block = some (inline_handler access)
runs Command.content_by_php_block = some (inline_handler content)
runs Command.log_by_php_block = some (inline_handler log)
runs Command.header_filter_by_php_block = some (inline_handler header_filter)
runs Command.body_filter_by_php_block = some (inline_handler body_filter)
runs Command.php_ini_path = none
runs Command.init_worker_by_php = none
runs Command.php_worker_init = none
runs Command.init_worker_by_php_block = none

-- What a location's command makes its code of: a file or a text, in argument 1 or, for a block, 0.
abbrev pub made_code : Command → Memory → Args → Option Code
made_code Command.rewrite_by_php_file m args = code_from_file m (args 1)
made_code Command.access_by_php_file m args = code_from_file m (args 1)
made_code Command.content_by_php_file m args = code_from_file m (args 1)
made_code Command.log_by_php_block m args = code_from_file m (args 0)
made_code Command.rewrite_by_php_block m args = code_from_string m (args 0)
made_code Command.access_by_php_block m args = code_from_string m (args 0)
made_code Command.content_by_php_block m args = code_from_string m (args 0)
made_code Command.header_filter_by_php_block m args = code_from_string m (args 0)
made_code Command.body_filter_by_php_block m args = code_from_string m (args 0)
made_code _ m args = code_from_string m (args 1)

-- Where a location keeps the code of a command's handler: with the files or with the texts. The
-- block of the log phase is kept with the files.
abbrev pub kept_code : Command → HandlerPt → LocConf → Option Code
kept_code Command.log_by_php_block h c = c.log_code
kept_code _ (file_handler s) c = file_of s c
kept_code _ (inline_handler s) c = inline_of s c

abbrev pub stage_of : HandlerPt → Stage
stage_of (file_handler s) = s
stage_of (inline_handler s) = s

-- Two locations are alike at a stage.
abbrev pub AlikeAt : Stage → LocConf → LocConf → Type 0
AlikeAt s c d =
    (handler_of s c ≡ handler_of s d)
    × (file_of s c ≡ file_of s d)
    × (inline_of s c ≡ inline_of s d)

setter-others :
    (k : Command) (m : Memory) (args : Args) (p : PhpConf) (h : HandlerPt) (t : Stage)
    → runs k ≡ some h
    → t ≢ stage_of h
    → AlikeAt t (setter k m args p).1.loc p.loc
unfolding setter set_once with_post
setter-others k m args p h t r other = ground arith

-- A directive that stands for a handler, of any of the eight stages, with an argument or a block:
-- a stage that has a handler makes it a duplicate; where the stage is free, the answer is
-- NGX_CONF_ERROR exactly if no code can be made of the argument, and both leave all configurations as
-- they were; otherwise the answer is NGX_CONF_OK, the stage has that handler, the code that was made
-- is the one kept for it, and its phase is enabled. The other stages are as before in each case.
pub setter-outcome :
    (k : Command) (m : Memory) (args : Args) (p : PhpConf) (h : HandlerPt)
    → runs k ≡ some h
    → let (reply, p') = setter k m args p in
      ((handler_of (stage_of h) p.loc ≢ none) × (reply ≡ message is_duplicated) × (p' ≡ p)
        ⊎ (((handler_of (stage_of h) p.loc ≡ none)
              × (made_code k m args ≡ none)
              × (reply ≡ conf_error)
              × (p' ≡ p))
            ⊎ ((handler_of (stage_of h) p.loc ≡ none)
                × (made_code k m args ≢ none)
                × (reply ≡ conf_ok)
                × (handler_of (stage_of h) p'.loc ≡ some h)
                × (kept_code k h p'.loc ≡ made_code k m args)
                × (enabled_of (stage_of h) p'.main ≡ true))))
      × ((t : Stage) → t ≢ stage_of h → AlikeAt t p'.loc p.loc)
unfolding setter set_once with_post
setter-outcome k m args p h r = (ground arith, λ t other. setter-others k m args p h t r other)
