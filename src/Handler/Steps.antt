-- ===== src/Handler/Steps.antt =====
-- The single steps of a handler and of the generator, each on the branch that is taken: a handler
-- of src/ngx_http_php_handler.c enters, reads the body, runs its routine; the routine of
-- src/ngx_http_php_zend_uthread.c compiles, calls the main function and asks `valid`.
use ngx_php.Prelude.{suc, ◌≡◌, refl, ap, Bool, true, false, not, ◌&&◌, some, arith}
use ngx_php.Prelude.Codes.{ℤ, ngx_ok, ngx_again, ngx_declined}
use ngx_php.Handler.State.{
  Phase, Method, Request, World, PhpCall, gives_true, gives_object, gives_other, output_content,
  zeroed_ctx,
}
use ngx_php.Handler.Uthread.{
  set_phase_status, drop_closure, settle_valid, settle_main, uthread_create, compile_and_create,
  settle_next, advance, uthread_resume, uthread_exit,
}
use ngx_php.Handler.Phases.{obtain_ctx, run_or_wait, with_ctx, body_or, check_ctx, Reply}

-- The request as a handler leaves it before the PHP code runs, with its own context or a new one,
-- and as a routine hands it over.
abbrev pub entered : Request → Request
entered r = record r { ctx = record (r.ctx) { output_type = output_content }; php_request = r.id }

abbrev pub fresh : Request → Request
fresh r = record r {
  slot = true;
  ctx = record zeroed_ctx { output_type = output_content };
  php_request = r.id;
}

abbrev pub begun : Request → Request
begun r = record r {
  ctx = record (r.ctx) { phase_status = ngx_ok; generator_closure = true };
  php_request = r.id;
  request_status = ngx_declined;
}

module _ (w : World) where
  pub settle_valid-ends :
      (s : Request)
      → w.call_valid s ≡ (gives_other, s)
      → settle_valid w s ≡ set_phase_status ngx_ok s
  unfolding settle_valid
  settle_valid-ends s h = rw (settle_valid, h, ap (λ (x : PhpCall × Request). x.1) h) refl

  pub settle_valid-waits :
      (s : Request)
      → w.call_valid s ≡ (gives_true, s)
      → settle_valid w s ≡ set_phase_status ngx_again s
  unfolding settle_valid
  settle_valid-waits s h = rw (settle_valid, h, ap (λ (x : PhpCall × Request). x.1) h) refl

  pub settle_next-ends :
      (s : Request)
      → w.call_valid s ≡ (gives_other, s)
      → settle_next w s ≡ w.run_phases (drop_closure (set_phase_status ngx_ok s))
  unfolding settle_next
  settle_next-ends s h = rw (settle_next, h, ap (λ (x : PhpCall × Request). x.1) h) refl

  pub settle_main-object :
      (s : Request)
      → s.ctx.generator_closure ≡ true
      → settle_main w gives_object s ≡ settle_valid w s
  unfolding settle_main
  settle_main-object s h = rw h refl

  pub uthread_create-main :
      (p : Phase) (r s : Request)
      → r.slot ≡ true
      → w.call_main p (record r { ctx = record (r.ctx) { generator_closure = true } })
        ≡ (gives_object, s)
      → s.ctx.generator_closure ≡ true
      → uthread_create w p r ≡ settle_valid w s
  unfolding uthread_create
  uthread_create-main p r s slot main closure = rw (main, slot) (settle_main-object s closure)

  pub compile_and_create-compiled :
      (p : Phase) (r : Request)
      → r.compiled p ≡ true
      → compile_and_create w p r ≡ uthread_create w p r
  unfolding compile_and_create
  compile_and_create-compiled p r h = rw h refl

  pub with_ctx-slot :
      (go : Request → Reply) (r : Request) → r.slot ≡ true → with_ctx w go r ≡ go (entered r)
  unfolding obtain_ctx
  with_ctx-slot go r h = rw h refl

  pub with_ctx-fresh :
      (go : Request → Reply) (r : Request)
      → r.slot ≡ false
      → w.pcalloc_succeeds ≡ true
      → with_ctx w go r ≡ go (fresh r)
  unfolding obtain_ctx
  with_ctx-fresh go r h k = rw (h, k) refl

  pub body_or-goes :
      (wanted : Method → Bool) (go : Request → Reply) (r : Request)
      → (wanted r.method && not r.ctx.read_request_body_done) ≡ false
      → body_or w wanted go r ≡ go r
  body_or-goes wanted go r h = rw h refl

  pub run_or_wait-runs :
      (routine : Request → Request) (out : Request → Reply) (r s : Request)
      → r.ctx.phase_status ≡ ngx_declined
      → routine r ≡ s
      → s.ctx.phase_status ≡ ngx_ok
      → run_or_wait w routine out r ≡ out s
  unfolding run_or_wait
  run_or_wait-runs routine out r s h k status = ground (arith, h, k, status)

  pub run_or_wait-suspends :
      (routine : Request → Request) (out : Request → Reply) (r s : Request)
      → r.ctx.phase_status ≡ ngx_declined
      → routine r ≡ s
      → s.ctx.phase_status ≡ ngx_again
      → run_or_wait w routine out r ≡ some (ngx_again, record s { main_count = suc s.main_count })
  unfolding run_or_wait
  run_or_wait-suspends routine out r s h k status = ground (arith, h, k, status)

  pub run_or_wait-resumed :
      (routine : Request → Request) (out : Request → Reply) (r : Request)
      → r.ctx.phase_status ≡ ngx_ok
      → run_or_wait w routine out r ≡ out r
  unfolding run_or_wait
  run_or_wait-resumed routine out r h = rw h refl

  pub run_or_wait-waits :
      (routine : Request → Request) (out : Request → Reply) (r : Request)
      → r.ctx.phase_status ≡ ngx_again
      → run_or_wait w routine out r ≡ some (ngx_again, record r { main_count = suc r.main_count })
  unfolding run_or_wait
  run_or_wait-waits routine out r h = rw h refl

  pub check_ctx-slot :
      (finish : ℤ → Request → ℤ × Request) (r : Request)
      → r.slot ≡ true
      → check_ctx w finish r ≡ some (finish r.request_status r)
  check_ctx-slot finish r h = rw h refl

  pub uthread_resume-next :
      (r s : Request)
      → r.slot ≡ true
      → r.ctx.generator_closure ≡ true
      → w.call_next (record r { php_request = r.id }) ≡ (gives_other, s)
      → s.ctx.end_of_request ≡ false
      → uthread_resume w r ≡ settle_next w s
  unfolding uthread_resume advance
  uthread_resume-next r s slot closure next more = rw (next, slot, closure, more) refl

  pub uthread_exit-wakes :
      (r : Request)
      → r.slot ≡ true
      → r.ctx.generator_closure ≡ true
      → r.ctx.has_upstream ≡ false
      → r.ctx.has_php_socket ≡ false
      → uthread_exit w r
        ≡ w.run_phases (drop_closure (set_phase_status ngx_ok (record r { php_request = r.id })))
  unfolding uthread_exit
  uthread_exit-wakes r slot closure upstream socket =
      ground (arith, slot, closure, upstream, socket)
