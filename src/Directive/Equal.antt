-- ===== src/Directive/Equal.antt =====
-- The directives with a block and those with an argument do the same with the same text.
use ngx_php.Prelude.{
  ℕ, suc, ◌<◌, ◌≡◌, refl, sym, ap, ◌∙◌, true, false, none, some, Option, [], ◌∷◌, ◌++◌, arith,
  length,
}
use ngx_php.Directive.State.{Bytes, PhpConf, log}
use ngx_php.Directive.Code.{Memory, code_from_string}
use ngx_php.Directive.Setters.{Args, Setter, set_once, with_post}
use ngx_php.Directive.Blocks.{as_handler, block_phase}
use ngx_php.Directive.Ready.{FindsAt}
use ngx_php.Directive.Commands.{
  Command, init_worker_by_php, init_worker_by_php_block, rewrite_by_php, rewrite_by_php_block,
  access_by_php, access_by_php_block, content_by_php, content_by_php_block, header_filter_by_php,
  header_filter_by_php_block, body_filter_by_php, body_filter_by_php_block, log_by_php_block,
  setter, heard,
}
use ngx_php.ConfFile.State.{Conf, Env}
use ngx_php.ConfFile.Token.{ngx_conf_buffer, ngx_conf_block_done}
use ngx_php.ConfFile.Spec.{Serves, remaining, closing, IsNulFree}
use ngx_php.ConfFile.Result.{Starts, Copies}
use ngx_php.ConfFile.Rounds.{parse-run}
use ngx_php.ConfFile.Frame.{read_token-php_conf}
use ngx_php.ConfFile.Parse.{conf_ok, Host, hand_over}

-- The directive with an argument beside one with a block; `log_by_php_block` has none.
abbrev pub twin : Command → Option Command
twin init_worker_by_php_block = some init_worker_by_php
twin rewrite_by_php_block = some rewrite_by_php
twin access_by_php_block = some access_by_php
twin content_by_php_block = some content_by_php
twin header_filter_by_php_block = some header_filter_by_php
twin body_filter_by_php_block = some body_filter_by_php
twin _ = none

setter-twin :
    (b k : Command) (m : Memory) (block args : Args) (p : PhpConf)
    → twin b ≡ some k
    → (block 0).text ≡ (args 1).text
    → setter b m block p ≡ setter k m args p
unfolding setter set_once with_post code_from_string
setter-twin b k m block args p t h = ground arith

-- The handler's reply as the parser passes it on behind a block.
hand_over-heard :
    (h : Host) (set : Setter PhpConf) (m : Memory) (d : Conf)
    → let (reply, p) = set m d.elts d.php_conf in
      hand_over (record h { handler = as_handler set m }) ngx_conf_block_done d
      ≡ (heard true reply, record d { php_conf = p })
unfolding hand_over as_handler
hand_over-heard h set m d = ground arith

-- Over a file that the environment serves with its size and with whole reads inside it, and a
-- buffer of 4096 bytes, where memory is found, `ngx_cpystrn` behaves as documented, and the
-- configuration comes from a file: a directive with a block (`init_worker_by_php_block`, or that of
-- the rewrite, access or content phase or of a filter) whose text is `body`, of fewer than 4096
-- bytes without a NUL, fills the module's configurations like the directive with an argument of
-- that text, and goes on reading behind the block; the answer is the same but that a duplicate is
-- answered by NGX_CONF_OK.
pub block_phase-argument :
    (b k : Command) (m : Memory) (args : Args) (h : Host) (e : Env) (file : Bytes) (c : Conf)
    (body rest : Bytes) (fuel : ℕ)
    → Serves e file
    → Starts file c
    → Copies e
    → IsNulFree body
    → closing 0 (remaining file c) ≡ some (body, rest)
    → length body < ngx_conf_buffer
    → e.ngx_array_push_succeeds ≡ true
    → e.ngx_pnalloc_succeeds ≡ true
    → c.fd_is_invalid ≡ false
    → twin b ≡ some k
    → (args 1).text ≡ body ++ 0 ∷ []
    → let (reply, p) = setter k m args c.php_conf in
      (d : Conf) × (block_phase (setter b) m h e (suc fuel) c ≡ some (heard true reply, d))
      × (d.php_conf ≡ p)
      × (remaining file d ≡ rest)
unfolding block_phase
block_phase-argument b k m args h e file c body rest fuel s st cp nul cl small p1 p2 v t a =
    let h' = record h { handler = as_handler (setter b) m } in
    let (d, run, block, parsed) = parse-run h' e file s c st body rest cl small p1 p2 fuel v in
    let same : setter b m d.elts d.php_conf ≡ setter k m args c.php_conf =
      setter-twin b k m d.elts args d.php_conf t
        (block.code_text ∙ cp.copies body (b'}' ∷ []) nul ∙ sym a)
      ∙ ap (setter k m args) (read_token-php_conf e c d ngx_conf_block_done run) in
    (
      record d { php_conf = (setter k m args c.php_conf).1 },
      parsed
          ∙ ap some (hand_over-heard h (setter b) m d)
          ∙ ap (λ r. some (heard true r.0, record d { php_conf = r.1 })) same,
      refl,
      block.left,
    )

-- An accepted `log_by_php_block` leaves the log phase with a handler that does not find its block:
-- the text has gone to the place of a file.
pub log_block-not_ready :
    (m : Memory) (args : Args) (p : PhpConf)
    → FindsAt log p.loc
    → (setter log_by_php_block m args p).0 ≡ conf_ok
    → ¬ FindsAt log (setter log_by_php_block m args p).1.loc
unfolding setter set_once
log_block-not_ready m args p r ok found = ground arith
