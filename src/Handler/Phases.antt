-- ===== src/Handler/Phases.antt =====
-- The handlers of src/ngx_http_php_handler.c. A handler gives `none` where the code reads through
-- a context that is NULL.
use ngx_php.Prelude.{suc, Bool, true, false, not, ◌&&◌, ◌||◌, Option, none, some, if◌then◌else◌}
use ngx_php.Prelude.Codes.{
  ℤ, ◌==ℤ◌, geb_ℤ, ngx_ok, ngx_error, ngx_again, ngx_declined, ngx_http_ok,
  ngx_http_special_response,
}
use ngx_php.Handler.State.{
  rewrite, access, content, header_filter, body_filter, Method, post, put, delete, patch,
  output_content, Request, World, zeroed_ctx,
}
use ngx_php.Handler.Uthread.{inline_routine, log_inline_routine, filter_inline_routine}
use ngx_php.Handler.Respond.{finish_early, finish_content_file, finish_content_inline}

-- A return code and the request behind it.
abbrev pub Reply : Type 0
Reply = Option (ℤ × Request)

-- The methods whose body the handlers for blocks read first; the one for content files reads the
-- body of POST alone.
abbrev pub has_body : Method → Bool
has_body post = true
has_body put = true
has_body delete = true
has_body patch = true
has_body _ = false

abbrev pub is_post : Method → Bool
is_post post = true
is_post _ = false

abbrev pub set_more : Bool → Request → Request
set_more more r = record r { ctx = record (r.ctx) { request_body_more = more } }

module _ (w : World) where
  -- `ngx_http_php_post_read_handler`
  unfoldable pub post_read_handler : Request → ℤ × Request
  post_read_handler r0 =
      let r = record r0 { php_request = r0.id } in
      if r.slot
      then (ngx_ok, r)
      else if w.pcalloc_succeeds
      then (
        ngx_ok,
        record r {
          slot = true;
          ctx = record zeroed_ctx { phase_status = ngx_declined; request_body_more = true };
        },
      )
      else (ngx_error, r)

  -- The context at the head of a handler: the request's own, or a zeroed one.
  unfoldable pub obtain_ctx : Request → Option Request
  obtain_ctx r =
      if r.slot
      then some
          (record r { ctx = record (r.ctx) { output_type = output_content }; php_request = r.id })
      else if w.pcalloc_succeeds
      then some (record r {
        slot = true;
        ctx = record zeroed_ctx { output_type = output_content };
        php_request = r.id;
      })
      else none

  -- `ngx_http_php_rewrite_file_uthread_routine`, `..._access_file_...`, `..._content_file_...`
  unfoldable pub rewrite_file_routine : Request → Request
  rewrite_file_routine r = w.eval_file rewrite (record r {
    ctx = record (r.ctx) { rewrite_phase = true; phase_status = ngx_ok };
    php_request = r.id;
    request_status = ngx_declined;
  })

  unfoldable pub access_file_routine : Request → Request
  access_file_routine r = w.eval_file access (record r {
    ctx = record (r.ctx) { access_phase = true; phase_status = ngx_ok };
    php_request = r.id;
    request_status = ngx_declined;
  })

  unfoldable pub content_file_routine : Request → Request
  content_file_routine r = w.eval_file content (record r {
    ctx = record (r.ctx) { content_phase = true; phase_status = ngx_ok };
    php_request = r.id;
    request_status = ngx_ok;
  })

  -- Run the PHP code if the phase has not begun; then wait for it, or set the output.
  unfoldable pub run_or_wait : (Request → Request) → (Request → Reply) → Request → Reply
  run_or_wait routine set_output r =
      let r' = if r.ctx.phase_status ==ℤ ngx_declined then routine r else r in
      if r'.ctx.phase_status ==ℤ ngx_again
      then some (ngx_again, record r' { main_count = suc r'.main_count })
      else set_output r'

  -- `ctx = get_module_ctx` behind `set_output`: the file handlers read it unchecked.
  abbrev pub need_ctx : (ℤ → Request → ℤ × Request) → Request → Reply
  need_ctx finish r = if r.slot then some (finish r.request_status r) else none

  -- The handlers for blocks check it.
  abbrev pub check_ctx : (ℤ → Request → ℤ × Request) → Request → Reply
  check_ctx finish r = if r.slot then some (finish r.request_status r) else some (ngx_error, r)

  -- `if (method has a body && !ctx->read_request_body_done)`
  unfoldable pub read_body : Request → ℤ × Request
  read_body r =
      let (rc, r') = w.read_client_request_body (record r {
        body_in_single_buf = true;
        body_in_persistent_file = true;
        body_in_clean_file = true;
      }) in
      if rc ==ℤ ngx_error || geb_ℤ rc ngx_http_special_response
      then (rc, r')
      else if rc ==ℤ ngx_again
      then (
        ngx_again,
        record r' {
          ctx = record (r'.ctx) { request_body_more = true; read_request_body_done = false };
        },
      )
      else (rc, r')

  abbrev pub body_or : (Method → Bool) → (Request → Reply) → Request → Reply
  body_or wanted go r =
      if wanted r.method && not r.ctx.read_request_body_done then some (read_body r) else go r

  abbrev pub with_ctx : (Request → Reply) → Request → Reply
  with_ctx go r = elim (obtain_ctx r) [ none ↦ some (ngx_error, r) | some r' ↦ go r' ]

  unfoldable pub rewrite_file_handler : Request → Reply
  unfolding obtain_ctx run_or_wait rewrite_file_routine
  rewrite_file_handler =
      with_ctx (run_or_wait rewrite_file_routine (need_ctx (finish_early w ngx_ok)))

  unfoldable pub rewrite_inline_handler : Request → Reply
  unfolding obtain_ctx run_or_wait
  rewrite_inline_handler = with_ctx (
      body_or has_body (run_or_wait (inline_routine w rewrite) (check_ctx (finish_early w ngx_ok))))

  unfoldable pub access_file_handler : Request → Reply
  unfolding obtain_ctx run_or_wait access_file_routine
  access_file_handler =
      with_ctx (run_or_wait access_file_routine (need_ctx (finish_early w ngx_http_ok)))

  unfoldable pub access_inline_handler : Request → Reply
  unfolding obtain_ctx run_or_wait
  access_inline_handler = with_ctx (
      body_or has_body
        (run_or_wait (inline_routine w access) (check_ctx (finish_early w ngx_http_ok))))

  unfoldable pub content_file_handler : Request → Reply
  unfolding obtain_ctx run_or_wait content_file_routine
  content_file_handler = with_ctx λ r.
      body_or is_post (run_or_wait content_file_routine (need_ctx (finish_content_file w)))
        (record (set_more true r) { request_status = ngx_ok })

  unfoldable pub content_inline_handler : Request → Reply
  unfolding obtain_ctx run_or_wait
  content_inline_handler = with_ctx λ r.
      body_or has_body
        (run_or_wait (inline_routine w content) (check_ctx (finish_content_inline w)))
        (record r { request_status = ngx_ok })

  -- `ngx_http_php_log_inline_handler` and the filters' handlers for blocks.
  unfoldable pub log_inline_handler : Request → ℤ × Request
  log_inline_handler r = (ngx_ok, log_inline_routine w (record r { php_request = r.id }))

  unfoldable pub header_filter_inline_handler : Request → ℤ × Request
  header_filter_inline_handler r =
      (ngx_ok, filter_inline_routine w header_filter (record r { php_request = r.id }))

  unfoldable pub body_filter_inline_handler : Request → ℤ × Request
  body_filter_inline_handler r =
      (ngx_ok, filter_inline_routine w body_filter (record r { php_request = r.id }))
