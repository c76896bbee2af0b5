-- ===== src/Directive/Tests.antt =====
-- The theorems about the directives at concrete configurations, and runs of directives.
use ngx_php.Prelude.{
  ◌≡◌, refl, ◌≢◌, ◌⊎◌, true, false, none, some, [], ◌∷◌, arith, length, if◌then◌else◌, ◌==◌,
}
use mathlib.Core.List.{Memᴰ}
use ngx_php.Prelude.Codes.{ngx_ok}
use ngx_php.Prelude.Text.{codes}
use ngx_php.Directive.State.{
  Bytes, Stage, Code, content, opcode, inline_handler, file_handler, PhpConf,
}
use ngx_php.Directive.Code.{Memory, c_string, code_from_file, code_from_string, is_rooted, with_id}
use ngx_php.Directive.Setters.{Args, set_once, with_post, is_duplicated}
use ngx_php.Directive.Blocks.{block_phase}
use ngx_php.Directive.Ready.{IsReady, handler_of, enabled_of}
use ngx_php.Directive.Commands.{
  content_by_php, content_by_php_file, content_by_php_block, log_by_php_block, opcode_by_php,
  setter, Command, Line, apply, go_on, configure, heard,
}
use ngx_php.Directive.Merge.{create_main_conf, create_loc_conf, merge_loc_conf}
use ngx_php.Directive.Inherit.{IsReadyInPhases, created-IsReady, merged-IsReady}
use ngx_php.Directive.Register.{Core, entry, module_init}
use ngx_php.Directive.Reach.{entries, located, located-reached}
use ngx_php.Directive.Equal.{block_phase-argument}
use ngx_php.Directive.Source.{Runs, IsCompiledAs, block-compiled}
use ngx_php.Handler.State.{Phase}
use ngx_php.Directive.Outcome.{AlikeAt, made_code, kept_code, setter-outcome}
use ngx_php.Directive.Paths.{terminated, Works}
use ngx_php.ConfFile.State.{Conf}
use ngx_php.ConfFile.Spec.{remaining}
use ngx_php.ConfFile.Parse.{conf_ok, conf_error, message, Host}
use ngx_php.ConfFile.Samples.{
  copy, serving, serving-Serves, serving-Copies, up_to_nul-append, at_start, at_start-Starts, body,
  behind, text, text-closing,
}

-- `/etc/`
abbrev prefix : Bytes
prefix = b'/' ∷ b'e' ∷ b't' ∷ b'c' ∷ b'/' ∷ []

abbrev found : Memory
found = record {
  pcalloc_code_succeeds = true;
  pcalloc_text_succeeds = true;
  pnalloc_id_succeeds = true;
  ngx_cpystrn = copy;
  conf_prefix = terminated prefix;
  random_id = b'0' ∷ [];
}

found-Works : Works found prefix
unfolding copy
found-Works = record {
  code_found = refl;
  text_found = refl;
  id_found = refl;
  prefix_is = refl;
  prefix_nul = ground arith;
  copies = λ src nul. ground (arith, up_to_nul-append src (0 ∷ []) nul, length src);
}

-- `echo;`
abbrev echo : Bytes
echo = b'e' ∷ b'c' ∷ b'h' ∷ b'o' ∷ b';' ∷ []

abbrev args : Bytes → Args
args src i = if i == 1 then terminated src else terminated []

abbrev fresh : PhpConf
fresh = record { main = create_main_conf; loc = create_loc_conf }

abbrev line_of : Command → Line
line_of k = record { command = k; memory = found; args = args echo }

merged-IsReady_example :
    let (_, p) = configure (line_of content_by_php ∷ []) fresh in
    let (prev', conf') = merge_loc_conf prefix 4096 create_loc_conf p.loc in
    IsReady conf' × IsReadyInPhases prev'
merged-IsReady_example =
    merged-IsReady prefix 4096 (line_of content_by_php ∷ []) create_main_conf create_loc_conf
      ((λ e. ground arith), tt) (λ s _. created-IsReady s)

-- The file of a location is dropped by the merge.
run_file :
    let (_, p) = configure (line_of content_by_php_file ∷ []) fresh in
    (p.loc.content_handler ≡ some (file_handler content))
    × ((merge_loc_conf prefix 4096 create_loc_conf p.loc).1.content_handler ≡ none)
unfolding configure apply go_on setter set_once with_post code_from_file with_id copy c_string
    is_rooted merge_loc_conf create_loc_conf
run_file = (refl, refl)

abbrev empty_core : Core
empty_core = record {
  post_read_handlers = [];
  rewrite_handlers = [];
  access_handlers = [];
  content_handlers = [];
  log_handlers = [];
  header_filters = [];
  body_filters = [];
}

echo_located :
    handler_of content (located prefix 4096 [] (line_of content_by_php ∷ []) create_loc_conf []).1
    ≡ some (inline_handler content)
unfolding located configure apply go_on setter set_once with_post code_from_string with_id copy
    c_string merge_loc_conf create_loc_conf
echo_located = refl

echo_located-set :
    handler_of content (located prefix 4096 [] (line_of content_by_php ∷ []) create_loc_conf []).1
    ≢ none
echo_located-set = rw echo_located (λ e. ground arith)

located-reached_example :
    let (m, _) = located prefix 4096 [] (line_of content_by_php ∷ []) create_loc_conf [] in
    let (rc, core') = module_init (λ _. true) m empty_core in
    (rc ≡ ngx_ok) × Memᴰ (entry content) (entries content core')
located-reached_example =
    located-reached prefix 4096 [] (line_of content_by_php ∷ []) create_loc_conf [] empty_core
      content echo_located-set

abbrev host : Host
host = record {
  ngx_open_file = λ _. none;
  ngx_fd_info_succeeds = true;
  ngx_alloc_succeeds = true;
  ngx_close_file_succeeds = true;
  ngx_dump_config = false;
  stack_dump = none;
  handler = λ c. (conf_error, c);
}

block_phase-argument_example :
    let (reply, p) = setter content_by_php found (args body) fresh in
    (d : Conf) × (block_phase (setter content_by_php_block) found host (serving text) 1 at_start
      ≡ some (heard true reply, d))
    × (d.php_conf ≡ p)
    × (remaining text d ≡ behind)
block_phase-argument_example =
    block_phase-argument content_by_php_block content_by_php found (args body) host (serving text)
      text at_start body behind 0 (serving-Serves text) (at_start-Starts text) (serving-Copies text)
      (ground arith) text-closing (omega arith) refl refl refl refl refl

-- The same memory with an id of 32 bytes.
abbrev long_id : Bytes
long_id = codes "0123456789abcdef0123456789abcdef"

abbrev found_long : Memory
found_long = record found { random_id = long_id }

found_long-Works : Works found_long prefix
found_long-Works = record {
  code_found = refl;
  text_found = refl;
  id_found = refl;
  prefix_is = refl;
  prefix_nul = ground arith;
  copies = found-Works.copies;
}

block-compiled_example :
    (d : Conf) × (code : Code) × (block_phase
        (setter content_by_php_block)
        found_long
        host
        (serving text)
        1
        at_start
      ≡ some (conf_ok, d))
    × (remaining text d ≡ behind)
    × (enabled_of content d.php_conf.main ≡ true)
    × Runs content code (merge_loc_conf prefix 4096 create_loc_conf d.php_conf.loc).1
    × IsCompiledAs Phase.content body code
unfolding create_loc_conf
block-compiled_example =
    block-compiled content_by_php_block content_by_php content Phase.content found_long host
      (serving text) text at_start body behind 0 prefix prefix 4096 create_loc_conf
      (serving-Serves text) (at_start-Starts text) (serving-Copies text) found_long-Works
      (ground arith) text-closing (omega arith) refl refl refl refl refl refl refl refl

log_block_accepted : (setter log_by_php_block found (λ _. terminated echo) fresh).0 ≡ conf_ok
unfolding setter set_once code_from_file with_id copy c_string is_rooted create_loc_conf
log_block_accepted = refl

setter-outcome_example :
    let (reply, p') = setter content_by_php found (args echo) fresh in
    (((handler_of content create_loc_conf ≢ none) × (reply ≡ message is_duplicated) × (p' ≡ fresh))
      ⊎ (((handler_of content create_loc_conf ≡ none)
            × (made_code content_by_php found (args echo) ≡ none)
            × (reply ≡ conf_error)
            × (p' ≡ fresh))
          ⊎ ((handler_of content create_loc_conf ≡ none)
              × (made_code content_by_php found (args echo) ≢ none)
              × (reply ≡ conf_ok)
              × (handler_of content p'.loc ≡ some (inline_handler content))
              × (kept_code content_by_php (inline_handler content) p'.loc
                  ≡ made_code content_by_php found (args echo))
              × (enabled_of content p'.main ≡ true))))
    × ((t : Stage) → t ≢ content → AlikeAt t p'.loc create_loc_conf)
setter-outcome_example =
    setter-outcome content_by_php found (args echo) fresh (inline_handler content) refl

-- A tracker's block is taken from the parent by a child without one.
run_tracker :
    let (_, p) = configure (line_of opcode_by_php ∷ []) fresh in
    let (prev', _) = merge_loc_conf prefix 4096 p.loc create_loc_conf in
    (prev'.opcode_handler ≡ some (inline_handler opcode)) × (prev'.opcode_inline_code ≡ none)
unfolding configure apply go_on setter set_once with_post code_from_string with_id copy c_string
    merge_loc_conf create_loc_conf
run_tracker = (refl, refl)
