-- ===== src/Directive/Source.antt =====
-- From the text of a block in nginx's configuration file to the PHP source of its function: the parser
-- of src/ngx_php_conf_file.c, the setters of src/ngx_http_php_directive.c, the merge of
-- src/ngx_http_php_module.c, and the source of src/ngx_http_php_zend_uthread.c.
use ngx_php.Prelude.{
  ℕ, suc, ◌<◌, ◌≡◌, refl, sym, ap, ◌∙◌, subst, true, false, Option, none, some, [], ◌++◌, arith,
  length,
}
use ngx_php.Directive.State.{
  Bytes, Stage, rewrite, access, content, header_filter, body_filter, inline_handler, Code,
  code_type_string, PhpConf, LocConf,
}
use ngx_php.Directive.Code.{Memory, code_from_string}
use ngx_php.Directive.Paths.{Works, terminated, code_from-text}
use ngx_php.Directive.Setters.{Args, set_once, with_post}
use ngx_php.Directive.Blocks.{block_phase}
use ngx_php.Directive.Ready.{handler_of, inline_of, enabled_of}
use ngx_php.Directive.Merge.{merge_loc_conf}
use ngx_php.Directive.Commands.{
  Command, rewrite_by_php_block, access_by_php_block, content_by_php_block,
  header_filter_by_php_block, body_filter_by_php_block, setter, heard,
}
use ngx_php.Directive.Equal.{twin, block_phase-argument}
use ngx_php.ConfFile.State.{Conf, Env}
use ngx_php.ConfFile.Token.{ngx_conf_buffer}
use ngx_php.ConfFile.Spec.{Serves, remaining, closing, IsNulFree}
use ngx_php.ConfFile.Result.{Starts, Copies}
use ngx_php.ConfFile.Parse.{Host, conf_ok}
use ngx_php.Handler.State.{Phase}
use ngx_php.Handler.Naming.{
  code_id_len, test_text, function_text, body_text, end_text, func_name, inline_source, inline_room,
  func_name-overruns,
}

-- The code that is made of a text.
abbrev pub code_of : Memory → Bytes → Code
code_of m body = record { code_type = code_type_string; text = body; code_id = m.random_id }

-- The stage of a directive with a block, and the phase of its function.
abbrev pub stage_of : Command → Option Stage
stage_of rewrite_by_php_block = some rewrite
stage_of access_by_php_block = some access
stage_of content_by_php_block = some content
stage_of header_filter_by_php_block = some header_filter
stage_of body_filter_by_php_block = some body_filter
stage_of _ = none

abbrev pub phase_of : Stage → Option Phase
phase_of rewrite = some Phase.rewrite
phase_of access = some Phase.access
phase_of content = some Phase.content
phase_of header_filter = some Phase.header_filter
phase_of body_filter = some Phase.body_filter
phase_of _ = none

-- A location that runs a code in a stage.
abbrev pub Runs : Stage → Code → LocConf → Type 0
Runs s code c = (handler_of s c ≡ some (inline_handler s)) × (inline_of s c ≡ some code)

setter-Runs :
    (b k : Command) (s : Stage) (m : Memory) (args : Args) (code : Code) (p : PhpConf)
    → twin b ≡ some k
    → stage_of b ≡ some s
    → handler_of s p.loc ≡ none
    → code_from_string m (args 1) ≡ some code
    → let (reply, q) = setter k m args p in
      (reply ≡ conf_ok) × Runs s code q.loc × (enabled_of s q.main ≡ true)
unfolding setter set_once with_post
setter-Runs b k s m args code p t at free made = ground arith

merge-Runs :
    (root : Bytes) (n : ℕ) (prev conf : LocConf) (s : Stage) (code : Code) (p : Phase)
    → phase_of s ≡ some p
    → Runs s code conf
    → Runs s code (merge_loc_conf root n prev conf).1
unfolding merge_loc_conf
merge-Runs root n prev conf s code p phase runs = ground arith

-- The text that PHP compiles for a block, and its length.
abbrev pub IsCompiledAs : Phase → Bytes → Code → Type 0
IsCompiledAs p body code =
    (inline_source p code.code_id code.text
      ≡ test_text
        ++ func_name p code.code_id
        ++ function_text
        ++ func_name p code.code_id
        ++ body_text
        ++ body
        ++ end_text)
    × (length (inline_source p code.code_id code.text) ≡ inline_room p code.text)

-- Under the conditions of `block_phase-argument`, for a block of the rewrite, access or content phase
-- or of a filter whose text is `body`, where memory is found for its code under the conditions of
-- `code_from-text`, with an id of 32 bytes, and the location has no handler for the stage yet: the directive answers NGX_CONF_OK, reading goes
-- on behind the block, and the stage is enabled; the location has after the merge with any parent the
-- stage's handler for blocks and a code whose source, as PHP compiles it, is `body` inside a function
-- of the code's name, and fills the memory asked for it to the last byte.
pub block-compiled :
    (b k : Command) (s : Stage) (phase : Phase) (m : Memory) (h : Host) (e : Env) (file : Bytes)
    (c : Conf) (body rest : Bytes) (fuel : ℕ) (prefix root : Bytes) (n : ℕ) (prev : LocConf)
    → Serves e file
    → Starts file c
    → Copies e
    → Works m prefix
    → IsNulFree body
    → closing 0 (remaining file c) ≡ some (body, rest)
    → length body < ngx_conf_buffer
    → e.ngx_array_push_succeeds ≡ true
    → e.ngx_pnalloc_succeeds ≡ true
    → c.fd_is_invalid ≡ false
    → twin b ≡ some k
    → stage_of b ≡ some s
    → phase_of s ≡ some phase
    → length m.random_id ≡ code_id_len
    → handler_of s c.php_conf.loc ≡ none
    → (d : Conf) × (code : Code) × (block_phase (setter b) m h e (suc fuel) c ≡ some (conf_ok, d))
      × (remaining file d ≡ rest)
      × (enabled_of s d.php_conf.main ≡ true)
      × Runs s code (merge_loc_conf root n prev d.php_conf.loc).1
      × IsCompiledAs phase body code
block-compiled b k s phase m h e file c body rest fuel prefix root n prev serves starts copies works
      nul cl small p1 p2 valid t at ph id free =
    let code = code_of m body in
    let args : Args = λ _. terminated body in
    let (_, _, made) = code_from-text m prefix 1 [] body works (omega arith, tt) nul in
    let (d, run, conf, left) =
      block_phase-argument b k m args h e file c body rest fuel serves starts copies nul cl small p1
        p2 valid t refl in
    let (ok, runs, enabled) = setter-Runs b k s m args code c.php_conf t at free made in
    let (source, fits, _) = func_name-overruns phase m.random_id body id in
    (
      d,
      code,
      run ∙ ap (λ r. some (heard true r, d)) ok,
      left,
      subst (λ q. enabled_of s q.main ≡ true) (sym conf) enabled,
      merge-Runs root n prev d.php_conf.loc s code phase ph
          (subst (λ q. Runs s code q.loc) (sym conf) runs),
      (source, fits),
    )
