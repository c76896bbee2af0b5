-- ===== src/Handler/Uthread.antt =====
-- src/ngx_http_php_zend_uthread.c: a PHP block runs as a generator. It is created by the first
-- call of its handler, resumed by events, and left by an exit.
use ngx_php.Prelude.{Bool, true, false, if◌then◌else◌}
use ngx_php.Prelude.Codes.{ℤ, ngx_ok, ngx_again, ngx_declined}
use ngx_php.Handler.State.{
  Phase, rewrite, access, content, log, header_filter, body_filter, Request, PhpCall, fails,
  bails_out, gives_true, gives_object, gives_other, World,
}

abbrev pub set_phase_status : ℤ → Request → Request
set_phase_status rc r = record r { ctx = record (r.ctx) { phase_status = rc } }

abbrev pub drop_closure : Request → Request
drop_closure r = record r { ctx = record (r.ctx) { generator_closure = false } }

abbrev same_phase : Phase → Phase → Bool
same_phase rewrite rewrite = true
same_phase access access = true
same_phase content content = true
same_phase log log = true
same_phase header_filter header_filter = true
same_phase body_filter body_filter = true
same_phase _ _ = false

module _ (w : World) where
  -- After the main function of the block has been called: what `valid` says of its generator.
  unfoldable pub settle_valid : Request → Request
  settle_valid r =
      let (result, r') = w.call_valid r in
      elim result [
        | fails ↦ r'
        | bails_out ↦ drop_closure r'
        | gives_true ↦ set_phase_status ngx_again r'
        | gives_object ↦ set_phase_status ngx_ok r'
        | gives_other ↦ set_phase_status ngx_ok r'
      ]

  -- What the call of the main function gave.
  unfoldable pub settle_main : PhpCall → Request → Request
  unfolding settle_valid
  settle_main bails_out r = drop_closure r
  settle_main gives_object r = if r.ctx.generator_closure then settle_valid r else r
  settle_main _ r = drop_closure r

  -- `ngx_http_php_zend_uthread_create`
  unfoldable pub uthread_create : Phase → Request → Request
  unfolding settle_main
  uthread_create phase r =
      if r.slot
      then (let called =
            w.call_main phase (record r { ctx = record (r.ctx) { generator_closure = true } }) in
          settle_main called.0 called.1)
      else r

  -- `zend_first_try { compile once; create } zend_end_try()`
  unfoldable pub compile_and_create : Phase → Request → Request
  unfolding uthread_create
  compile_and_create phase r =
      if r.compiled phase
      then uthread_create phase r
      else (let (bailed, r') = w.compile phase r in
          if bailed
          then r'
          else uthread_create phase
              (record r' { compiled = λ p. if same_phase p phase then true else r'.compiled p }))

  -- `ngx_http_php_zend_uthread_rewrite_inline_routine`, `..._access_inline_routine` and
  -- `..._content_inline_routine` are the same but for the phase.
  unfoldable pub inline_routine : Phase → Request → Request
  unfolding compile_and_create
  inline_routine phase r =
      compile_and_create phase
        (record (set_phase_status ngx_ok r) { php_request = r.id; request_status = ngx_declined })

  -- `ngx_http_php_zend_uthread_log_inline_routine`
  unfoldable pub log_inline_routine : Request → Request
  unfolding compile_and_create
  log_inline_routine r =
      compile_and_create log (record r { php_request = r.id; request_status = ngx_declined })

  -- `ngx_http_php_zend_uthread_header_filter_inline_routine` and `..._body_filter_...`
  unfoldable pub filter_inline_routine : Phase → Request → Request
  unfolding compile_and_create
  filter_inline_routine phase r = compile_and_create phase (record r { php_request = r.id })

  -- `ngx_http_php_zend_uthread_file_routine`
  unfoldable pub file_routine : Request → Request
  file_routine r =
      w.eval_file rewrite
        (record (set_phase_status ngx_ok r) { php_request = r.id; request_status = ngx_declined })

  -- After `next`: what `valid` says of the resumed generator.
  unfoldable pub settle_next : Request → Request
  settle_next r =
      let (result, r') = w.call_valid r in
      elim result [
        | fails ↦ r'
        | bails_out ↦ drop_closure r'
        | gives_true ↦ set_phase_status ngx_again r'
        | gives_object ↦ w.run_phases (drop_closure (set_phase_status ngx_ok r'))
        | gives_other ↦ w.run_phases (drop_closure (set_phase_status ngx_ok r'))
      ]

  -- What the call of `next` gave.
  unfoldable pub advance : PhpCall → Request → Request
  unfolding settle_next
  advance fails r = r
  advance bails_out r = drop_closure r
  advance _ r = if r.ctx.end_of_request then r else settle_next r

  -- `ngx_http_php_zend_uthread_resume`
  unfoldable pub uthread_resume : Request → Request
  unfolding advance
  uthread_resume r0 =
      let r = record r0 { php_request = r0.id } in
      if r.slot
      then (if r.ctx.generator_closure
          then (let called = w.call_next r in advance called.0 called.1)
          else if r.ctx.has_upstream
          then w.socket_clear r
          else r)
      else r

  -- The parts of `ngx_http_php_zend_uthread_exit` after its NULL check.
  exit_closure : Request → Request
  exit_closure r = if r.ctx.generator_closure then drop_closure (set_phase_status ngx_ok r) else r

  exit_upstream : Request → Request
  exit_upstream r = if r.ctx.has_upstream then w.socket_clear r else r

  exit_socket : Request → Request
  exit_socket r =
      if r.ctx.has_php_socket
      then record r { ctx = record (r.ctx) { has_php_socket = false } }
      else r

  -- `ngx_http_php_zend_uthread_exit`
  unfoldable pub uthread_exit : Request → Request
  unfolding exit_closure exit_upstream exit_socket
  uthread_exit r0 =
      let r = record r0 { php_request = r0.id } in
      if r.slot then w.run_phases (exit_socket (exit_upstream (exit_closure r))) else r
