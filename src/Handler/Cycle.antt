-- ===== src/Handler/Cycle.antt =====
-- A block of PHP from the first call of its handler to the answer, over the handlers of the
-- rewrite, access and content phases in src/ngx_http_php_handler.c and the generator of
-- src/ngx_http_php_zend_uthread.c.
use ngx_php.Prelude.{◌≡◌, refl, ap, ◌∙◌, true, false, not, ◌&&◌, some, List}
use ngx_php.Prelude.Codes.{ngx_ok, ngx_declined, ngx_http_ok}
use ngx_php.Handler.State.{
  Bytes, Phase, rewrite, access, content, Request, World, zeroed_ctx, gives_object, gives_other,
}
use ngx_php.Handler.Uthread.{set_phase_status, inline_routine}
use ngx_php.Handler.Respond.{finish_early, finish_content_inline}
use ngx_php.Handler.Phases.{
  has_body, rewrite_inline_handler, access_inline_handler, content_inline_handler, body_or,
  run_or_wait, check_ctx,
}
use ngx_php.Handler.Output.{write_all}
use ngx_php.Handler.Writes.{written, write_all-frame}
use ngx_php.Handler.Steps.{
  entered, begun, settle_valid-ends, uthread_create-main, compile_and_create-compiled,
  with_ctx-slot, body_or-goes, run_or_wait-runs, check_ctx-slot,
}

-- The request behind a block that ran to its end, and behind the handler of a phase before the
-- content phase.
abbrev pub ran : (Phase → List Bytes) → Phase → Request → Request
ran code p r = set_phase_status ngx_ok (written (code p) (begun r))

abbrev pub passed : (Phase → List Bytes) → Phase → Request → Request
passed code p r = set_phase_status ngx_declined (ran code p (entered r))

abbrev pub reset_status : Request → Request
reset_status r = record r { request_status = ngx_ok }

-- The request behind the post-read handler.
abbrev pub prepared : Request → Request
prepared r = record r {
  slot = true;
  ctx = record zeroed_ctx { phase_status = ngx_declined; request_body_more = true };
  php_request = r.id;
}

-- The PHP code of each phase makes its writes and ends without a suspension.
module _ (w : World) (code : Phase → List Bytes)
    (main : (p : Phase) (s : Request) → w.call_main p s ≡ (gives_object, write_all (code p) s))
    (ends : (s : Request) → w.call_valid s ≡ (gives_other, s)) where
  routine-ran :
      (p : Phase) (r : Request)
      → r.slot ≡ true
      → r.compiled p ≡ true
      → inline_routine w p r ≡ ran code p r
  unfolding inline_routine
  routine-ran p r slot compiled =
      let s = record (set_phase_status ngx_ok r) {
        php_request = r.id;
        request_status = ngx_declined;
      } in
      let t = written (code p) (begun r) in
      compile_and_create-compiled w p s compiled
      ∙ uthread_create-main w p s t slot
          (main p (begun r) ∙ ap (λ t. (gives_object, t)) (write_all-frame (code p) (begun r) slot))
          refl
      ∙ settle_valid-ends w t (ends t)

  pub rewrite-passed :
      (r : Request)
      → r.slot ≡ true
      → r.compiled rewrite ≡ true
      → r.ctx.phase_status ≡ ngx_declined
      → (has_body r.method && not r.ctx.read_request_body_done) ≡ false
      → rewrite_inline_handler w r ≡ some (ngx_declined, passed code rewrite r)
  unfolding rewrite_inline_handler finish_early
  rewrite-passed r slot compiled status body =
      let out = check_ctx w (finish_early w ngx_ok) in
      let run = run_or_wait w (inline_routine w rewrite) out in
      with_ctx-slot w (body_or w has_body run) r slot
      ∙ body_or-goes w has_body run (entered r) body
      ∙ run_or_wait-runs w (inline_routine w rewrite) out (entered r) (ran code rewrite (entered r))
          status (routine-ran rewrite (entered r) slot compiled) refl
      ∙ check_ctx-slot w (finish_early w ngx_ok) (ran code rewrite (entered r)) slot

  pub access-passed :
      (r : Request)
      → r.slot ≡ true
      → r.compiled access ≡ true
      → r.ctx.phase_status ≡ ngx_declined
      → (has_body r.method && not r.ctx.read_request_body_done) ≡ false
      → access_inline_handler w r ≡ some (ngx_declined, passed code access r)
  unfolding access_inline_handler finish_early
  access-passed r slot compiled status body =
      let out = check_ctx w (finish_early w ngx_http_ok) in
      let run = run_or_wait w (inline_routine w access) out in
      with_ctx-slot w (body_or w has_body run) r slot
      ∙ body_or-goes w has_body run (entered r) body
      ∙ run_or_wait-runs w (inline_routine w access) out (entered r) (ran code access (entered r))
          status (routine-ran access (entered r) slot compiled) refl
      ∙ check_ctx-slot w (finish_early w ngx_http_ok) (ran code access (entered r)) slot

  pub content-ran :
      (r : Request)
      → r.slot ≡ true
      → r.compiled content ≡ true
      → r.ctx.phase_status ≡ ngx_declined
      → (has_body r.method && not r.ctx.read_request_body_done) ≡ false
      → content_inline_handler w r
        ≡ some (finish_content_inline w ngx_declined (ran code content (reset_status (entered r))))
  unfolding content_inline_handler
  content-ran r slot compiled status body =
      let out = check_ctx w (finish_content_inline w) in
      let run = run_or_wait w (inline_routine w content) out in
      let s = reset_status (entered r) in
      with_ctx-slot w (λ r. body_or w has_body run (reset_status r)) r slot
      ∙ body_or-goes w has_body run s body
      ∙ run_or_wait-runs w (inline_routine w content) out s (ran code content s) status
          (routine-ran content s slot compiled) refl
      ∙ check_ctx-slot w (finish_content_inline w) (ran code content s) slot
