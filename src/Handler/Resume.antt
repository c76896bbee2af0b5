-- ===== src/Handler/Resume.antt =====
-- A content block that suspends once, over src/ngx_http_php_handler.c and
-- `ngx_http_php_zend_uthread_create` and `..._resume` of src/ngx_http_php_zend_uthread.c; and a
-- content block on a request that has no context.
use ngx_php.Prelude.{suc, ◌≡◌, refl, ap, ◌∙◌, true, false, not, ◌&&◌, none, some, inl, List, []}
use ngx_php.Prelude.Codes.{negsuc, ngx_ok, ngx_again}
use ngx_php.Handler.State.{Bytes, content, Request, World}
use ngx_php.Handler.Uthread.{set_phase_status, drop_closure, inline_routine, uthread_exit}
use ngx_php.Handler.Respond.{is_head, clear_slot, finish_content_inline, space}
use ngx_php.Handler.Phases.{has_body, content_inline_handler, body_or, run_or_wait, check_ctx}
use ngx_php.Handler.Output.{answer_of}
use ngx_php.Handler.Writes.{written, written-IsEnded, IsEnded-same}
use ngx_php.Handler.Steps.{
  entered, fresh, begun, with_ctx-slot, with_ctx-fresh, body_or-goes, run_or_wait-resumed,
  check_ctx-slot, uthread_exit-wakes,
}
use ngx_php.Handler.Cycle.{reset_status}
use ngx_php.Handler.Answer.{IsSent, finish_content_inline-sends}

module _ (w : World) (r : Request)
    (body : (has_body r.method && not r.ctx.read_request_body_done) ≡ false) where
  content-again :
      r.slot ≡ true
      → r.ctx.phase_status ≡ ngx_ok
      → content_inline_handler w r
        ≡ some (finish_content_inline w ngx_ok (reset_status (entered r)))
  unfolding content_inline_handler
  content-again slot status =
      let out = check_ctx w (finish_content_inline w) in
      let run = run_or_wait w (inline_routine w content) out in
      with_ctx-slot w (λ r. body_or w has_body run (reset_status r)) r slot
      ∙ body_or-goes w has_body run (reset_status (entered r)) body
      ∙ run_or_wait-resumed w (inline_routine w content) out (reset_status (entered r)) status
      ∙ check_ctx-slot w (finish_content_inline w) (reset_status (entered r)) slot

-- The request behind the first part of a block, as the handler leaves it, and behind the second.
abbrev pub suspended : List Bytes → Request → Request
suspended before r = set_phase_status ngx_again (written before (begun (reset_status (entered r))))

abbrev pub left_waiting : List Bytes → Request → Request
left_waiting before r = let s = suspended before r in record s { main_count = suc s.main_count }

abbrev pub woken : List Bytes → List Bytes → Request → Request
woken before after r =
    drop_closure (set_phase_status ngx_ok (written after (left_waiting before r)))

-- The request behind an exit from a block that waits.
abbrev pub exited : List Bytes → Request → Request
exited before r = drop_closure (set_phase_status ngx_ok (left_waiting before r))

-- Where nginx sends a header that has not been sent: for a content block that has written and
-- waits, with no socket in use, on a request with a context, the body read or not wanted, no answer
-- begun before the block, no header sent and not HEAD, leaving the block runs the phases on a
-- request whose handler then answers NGX_OK with what the block has written, or a space, whatever
-- the PHP code would do next.
pub exit-answers :
    (w : World) (before : List Bytes) (r : Request)
    → ((s : Request)
        → s.header_sent ≡ false
        → w.send_header s ≡ (ngx_ok, record s { header_sent = true }))
    → r.slot ≡ true
    → r.ctx.has_upstream ≡ false
    → r.ctx.has_php_socket ≡ false
    → (has_body r.method && not r.ctx.read_request_body_done) ≡ false
    → is_head r.method ≡ false
    → r.header_sent ≡ false
    → r.ctx.rputs_chain ≡ none
    → r.content_length_n ≡ negsuc 0
    → (ready : Request) × (sent : Request) × (uthread_exit w (left_waiting before r)
        ≡ w.run_phases ready)
      × (content_inline_handler w ready ≡ some (ngx_ok, clear_slot (w.output_filter sent)))
      × IsSent (answer_of before) r sent
exit-answers w before r sends slot upstream socket body method unsent chain n =
    let ready = exited before r in
    let s = reset_status (entered ready) in
    let answer =
      finish_content_inline-sends w sends (answer_of before) ngx_ok s (inl refl) method unsent (
        IsEnded-same (answer_of before) (written before r) s refl refl
          (written-IsEnded before r slot chain n)) in
    (
      ready,
      answer.0,
      uthread_exit-wakes w (left_waiting before r) slot refl upstream socket,
      content-again w ready body slot refl ∙ ap some answer.2,
      answer.1,
    )

-- Where nginx sends a header that has not been sent and memory is found: on a request with no
-- context (the slot is NULL, as behind an internal redirect), no length set, no header sent, whose
-- method has no body and is not HEAD, the content handler for blocks answers one space, with the
-- status set before or 200, whatever the PHP code is: the zeroed context has the phase status
-- NGX_OK.
pub fresh-space :
    (w : World) (r : Request)
    → ((s : Request)
        → s.header_sent ≡ false
        → w.send_header s ≡ (ngx_ok, record s { header_sent = true }))
    → r.slot ≡ false
    → w.pcalloc_succeeds ≡ true
    → has_body r.method ≡ false
    → is_head r.method ≡ false
    → r.header_sent ≡ false
    → r.content_length_n ≡ negsuc 0
    → (sent : Request) × (content_inline_handler w r
        ≡ some (ngx_ok, clear_slot (w.output_filter sent)))
      × IsSent space r sent
unfolding content_inline_handler
fresh-space w r sends slot alloc body method unsent n =
    let out = check_ctx w (finish_content_inline w) in
    let run = run_or_wait w (inline_routine w content) out in
    let s = reset_status (fresh r) in
    let answer =
      finish_content_inline-sends w sends space ngx_ok s (inl refl) method unsent
        (written-IsEnded [] s refl refl n) in
    (
      answer.0,
      with_ctx-fresh w (λ r. body_or w has_body run (reset_status r)) r slot alloc
          ∙ body_or-goes w has_body run s (rw body refl)
          ∙ run_or_wait-resumed w (inline_routine w content) out s refl
          ∙ check_ctx-slot w (finish_content_inline w) s refl
          ∙ ap some answer.2,
      answer.1,
    )
