-- ===== src/Handler/Waiting.antt =====
-- A handler of src/ngx_http_php_handler.c that waits for the body of its request, and
-- `ngx_http_php_read_request_body_callback` when it has come.
use ngx_php.Prelude.{
  suc, ◌<◌, ◌≡◌, refl, ap, ◌∙◌, true, false, not, ◌&&◌, ◌||◌, none, some, List, ◌∷◌, length,
  if◌then◌else◌,
}
use ngx_php.Prelude.Codes.{
  ℤ, ngx_ok, ngx_error, ngx_again, ngx_http_ok, ◌==ℤ◌, geb_ℤ, ngx_http_special_response,
}
use ngx_php.Handler.State.{Bytes, Phase, rewrite, access, content, RequestBody, Request, World}
use ngx_php.Handler.Uthread.{inline_routine}
use ngx_php.Handler.Respond.{finish_early, finish_content_inline}
use ngx_php.Handler.Phases.{
  has_body, rewrite_inline_handler, access_inline_handler, content_inline_handler, Reply, body_or,
  run_or_wait, check_ctx, read_body,
}
use ngx_php.Handler.Steps.{entered, with_ctx-slot}
use ngx_php.Handler.Body.{flat, read_request_body_callback, callback-body}
use ngx_php.Handler.Cycle.{reset_status}

-- A request whose body nginx has begun to read: it has one more holder, and the body so far.
abbrev pub asked : RequestBody → Request → Request
asked started r = record r { main_count = suc r.main_count; request_body = some started }

-- The request whose body has been asked for and is still to come, and with the body come in.
abbrev pub pending : RequestBody → Request → Request
pending started r = record (asked started r) {
  ctx = record (r.ctx) { request_body_more = true; read_request_body_done = false };
  body_in_single_buf = true;
  body_in_persistent_file = true;
  body_in_clean_file = true;
}

abbrev pub arrived : RequestBody → RequestBody → Request → Request
arrived started body r = record (pending started r) { request_body = some body }

-- What the handler makes of nginx's answer to its reading.
abbrev after_read : ℤ × Request → ℤ × Request
after_read (rc, r) =
    if rc ==ℤ ngx_error || geb_ℤ rc ngx_http_special_response
    then (rc, r)
    else if rc ==ℤ ngx_again
    then (
      ngx_again,
      record r {
        ctx = record (r.ctx) { request_body_more = true; read_request_body_done = false };
      },
    )
    else (rc, r)

module _ (w : World) (r : Request) (started : RequestBody)
    (again : (s : Request)
      → s.request_body ≡ none
      → w.read_client_request_body s ≡ (ngx_again, asked started s))
    (slot : r.slot ≡ true) (wanted : has_body r.method ≡ true)
    (unread : r.ctx.read_request_body_done ≡ false) (none_yet : r.request_body ≡ none) where
  read_body-pending :
      (s : Request) → s.request_body ≡ none → read_body w s ≡ (ngx_again, pending started s)
  unfolding read_body
  read_body-pending s no_body = ap after_read (
      again
        (record s {
          body_in_single_buf = true;
          body_in_persistent_file = true;
          body_in_clean_file = true;
        })
        no_body)

  body_or-reads :
      (go : Request → Reply) (s : Request)
      → has_body s.method ≡ true
      → s.ctx.read_request_body_done ≡ false
      → s.request_body ≡ none
      → body_or w has_body go s ≡ some (ngx_again, pending started s)
  body_or-reads go s h k no_body =
      rw (ap (λ b. b && not s.ctx.read_request_body_done) h ∙ ap not k)
        (ap some (read_body-pending s no_body))

  -- Where nginx, asked to read the body of a request that has none yet, takes one more hold of the
  -- request, begins a body and answers NGX_AGAIN: on such a request with a context, whose method
  -- has a body that has not been read, the three handlers for blocks give NGX_AGAIN, and
  -- beyond what nginx does only mark that they wait. When the body has come into memory and is not
  -- empty, the callback on a request in that state stores the text of the body's buffers in
  -- order, marks it as read, takes the mark of waiting away and runs the phases.
  pub body-arrives :
      (body : RequestBody) (first : Bytes) (rest : List Bytes)
      → body.bufs ≡ some (first, rest)
      → body.temp_file ≡ false
      → 0 < length (flat (first ∷ rest))
      → (rewrite_inline_handler w r ≡ some (ngx_again, pending started (entered r)))
        × (access_inline_handler w r ≡ some (ngx_again, pending started (entered r)))
        × (content_inline_handler w r
            ≡ some (ngx_again, pending started (reset_status (entered r))))
        × ((s : Request)
            → read_request_body_callback w (arrived started body s)
              ≡ w.run_phases (record (arrived started body s) {
                ctx = record (s.ctx) {
                  read_request_body_done = true;
                  request_body_ctx = flat (first ∷ rest);
                  request_body_more = false;
                };
              }))
  unfolding rewrite_inline_handler access_inline_handler content_inline_handler
  body-arrives body first rest bufs memory h =
      let early = λ (p : Phase) (out : ℤ → Request → ℤ × Request).
        run_or_wait w (inline_routine w p) (check_ctx w out) in
      let run = run_or_wait w (inline_routine w content) (check_ctx w (finish_content_inline w)) in
      (
        with_ctx-slot w (body_or w has_body (early rewrite (finish_early w ngx_ok))) r slot
            ∙ body_or-reads (early rewrite (finish_early w ngx_ok)) (entered r) wanted unread
                none_yet,
        with_ctx-slot w (body_or w has_body (early access (finish_early w ngx_http_ok))) r slot
            ∙ body_or-reads (early access (finish_early w ngx_http_ok)) (entered r) wanted unread
                none_yet,
        with_ctx-slot w (λ r. body_or w has_body run (reset_status r)) r slot
            ∙ body_or-reads run (reset_status (entered r)) wanted unread none_yet,
        λ s. callback-body w (arrived started body s) body first rest refl bufs memory h,
      )
