-- ===== src/Handler/Tracker.antt =====
-- The handlers of src/ngx_http_php_handler.c that show the opcodes and the stack of a block, and
-- those that call the handler which a location has, if it has one. `ngx_php_run` is what the macros
-- NGX_HTTP_PHP_NGX_INIT and ..._SHUTDOWN with `ngx_php_ngx_run` between them do to the request.
use ngx_php.Prelude.{
  ◌≡◌, refl, ap, ◌∙◌, true, false, Option, none, some, inl, inr, ◌⊎◌, Bool-cases, List, arith, ◌==◌,
  if◌then◌else◌,
}
use ngx_php.Prelude.Codes.{negsuc, ngx_ok, ngx_error, ngx_declined}
use ngx_php.Handler.State.{Bytes, Ctx, Request, World, zeroed_ctx, output_opcode, output_stack}
use ngx_php.Handler.Respond.{
  is_head, default_status, fill_empty, end_chain, send_response, clear_slot,
}
use ngx_php.Handler.Phases.{Reply}
use ngx_php.Handler.Output.{write_all, IsEnded, answer_of}
use ngx_php.Handler.Writes.{written, write_all-frame, written-IsEnded}
use ngx_php.Handler.Answer.{
  header_sent-default, fill_empty-header_sent, fill_empty-method, IsEnded-default_status,
  status-sent, send_response-method, send_body-header,
}

-- `if (plcf->..._handler == NULL) return NGX_DECLINED; return plcf->..._handler(r);`
unfoldable pub dispatch : Option (Request → Reply) → Request → Reply
dispatch none r = some (ngx_declined, r)
dispatch (some handler) r = handler r

-- What each of the two sets in the context before the code runs.
abbrev pub set_opcode : Ctx → Ctx
set_opcode c = record c { output_type = output_opcode; opcode_logo = 0; request_body_more = true }

abbrev pub set_stack : Ctx → Ctx
set_stack c = record c {
  output_type = output_stack;
  stack_depth = 0;
  stack_logo = 0;
  request_body_more = true;
}

module _ (w : World) where
  -- The context of the request or a zeroed one; `none` where there is no memory.
  abbrev track_ctx : (Ctx → Ctx) → Request → Option Request
  track_ctx set r =
      if r.slot
      then some (record r { ctx = set r.ctx; php_request = r.id })
      else if w.pcalloc_succeeds
      then some (record r { slot = true; ctx = set zeroed_ctx; php_request = r.id })
      else none

  -- `chain = ctx->rputs_chain` of the context in the slot, and the answer.
  abbrev answer_track : Request → Reply
  answer_track r = if r.slot then some (send_response w false ngx_ok (fill_empty r)) else none

  -- The code runs on that request; without memory the handler fails.
  abbrev run_track : (Request → Request) → Request → Option Request → Reply
  run_track ngx_php_run r none = some (ngx_error, r)
  run_track ngx_php_run r (some s) = answer_track (ngx_php_run s)

  unfoldable pub opcode_inline_handler : (Request → Request) → Request → Reply
  opcode_inline_handler ngx_php_run r = run_track ngx_php_run r (track_ctx set_opcode r)

  unfoldable pub stack_inline_handler : (Request → Request) → Request → Reply
  stack_inline_handler ngx_php_run r = run_track ngx_php_run r (track_ctx set_stack r)

answer_track-slot :
    (w : World) (r : Request)
    → r.slot ≡ true
    → answer_track w r ≡ some (send_response w false ngx_ok (fill_empty r))
answer_track-slot w r h = rw h refl

-- What the filters get of such an answer.
abbrev pub IsTracked : Bytes → Request → Request → Type 0
IsTracked text before sent =
    IsEnded text sent
    × (sent.status ≡ (if before.status == 0 then 200 else before.status))
    × (sent.header_sent ≡ true)

module _ (w : World) (ngx_php_run : Request → Request) (texts : List Bytes)
    (writes : (s : Request) → ngx_php_run s ≡ write_all texts s)
    (sends : (s : Request)
      → s.header_sent ≡ false
      → w.send_header s ≡ (ngx_ok, record s { header_sent = true })) where
  answer_track_lem :
      (r : Request)
      → r.slot ≡ true
      → r.ctx.rputs_chain ≡ none
      → r.content_length_n ≡ negsuc 0
      → is_head r.method ≡ false
      → r.header_sent ≡ false
      → (sent : Request) × (answer_track w (ngx_php_run r)
          ≡ some (ngx_ok, clear_slot (w.output_filter sent)))
        × IsTracked (answer_of texts) r sent
  answer_track_lem r slot chain n method unsent =
      let s = written texts r in
      let q = fill_empty s in
      let sent = record (end_chain (default_status q)) { header_sent = true } in
      (
        sent,
        ap (answer_track w) (writes r ∙ write_all-frame texts r slot)
            ∙ answer_track-slot w s slot
            ∙ ap some (
                send_response-method w false ngx_ok q (ap is_head (fill_empty-method s) ∙ method)
                ∙ send_body-header w false ngx_ok (default_status q) (ngx_ok, sent)
                    (sends (end_chain (default_status q))
                      (header_sent-default q ∙ fill_empty-header_sent s ∙ unsent))),
        (
          IsEnded-default_status (answer_of texts) q (written-IsEnded texts r slot chain n),
          status-sent s,
          refl,
        ),
      )

  track_ctx_own :
      (set : Ctx → Ctx) (r : Request)
      → r.slot ≡ true
      → track_ctx w set r ≡ some (record r { ctx = set r.ctx; php_request = r.id })
  track_ctx_own set r h = rw h refl

  track_ctx_new :
      (set : Ctx → Ctx) (r : Request)
      → r.slot ≡ false
      → w.pcalloc_succeeds ≡ true
      → track_ctx w set r
        ≡ some (record r { slot = true; ctx = set zeroed_ctx; php_request = r.id })
  track_ctx_new set r h k = rw (h, k) refl

  -- The request that the code runs on has a slot and no answer begun.
  track_ctx-ready :
      (set : Ctx → Ctx) (r : Request)
      → ((c : Ctx) → (set c).rputs_chain ≡ c.rputs_chain)
      → (r.slot ≡ false) ⊎ (r.ctx.rputs_chain ≡ none)
      → w.pcalloc_succeeds ≡ true
      → (s : Request) × (track_ctx w set r ≡ some s)
        × (s.slot ≡ true)
        × (s.ctx.rputs_chain ≡ none)
        × (s.content_length_n ≡ r.content_length_n)
        × (s.method ≡ r.method)
        × (s.status ≡ r.status)
        × (s.header_sent ≡ r.header_sent)
  track_ctx-ready set r keeps empty alloc = elim (Bool-cases r.slot) [
    | inl own ↦ (
      record r { ctx = set r.ctx; php_request = r.id },
      track_ctx_own set r own,
      own,
      keeps r.ctx
          ∙ elim empty [ inl gone ↦ absurd (ground (arith, own, gone)) | inr chain ↦ chain ],
      refl,
      refl,
      refl,
      refl,
    )
    | inr none_ ↦ (
      record r { slot = true; ctx = set zeroed_ctx; php_request = r.id },
      track_ctx_new set r none_ alloc,
      refl,
      keeps zeroed_ctx,
      refl,
      refl,
      refl,
      refl,
    )
  ]

  run_track-answers :
      (set : Ctx → Ctx) (r : Request)
      → ((c : Ctx) → (set c).rputs_chain ≡ c.rputs_chain)
      → (r.slot ≡ false) ⊎ (r.ctx.rputs_chain ≡ none)
      → w.pcalloc_succeeds ≡ true
      → r.content_length_n ≡ negsuc 0
      → is_head r.method ≡ false
      → r.header_sent ≡ false
      → (sent : Request) × (run_track w ngx_php_run r (track_ctx w set r)
          ≡ some (ngx_ok, clear_slot (w.output_filter sent)))
        × IsTracked (answer_of texts) r sent
  run_track-answers set r keeps empty alloc n method unsent =
      let (s, e, slot, chain, len, same, status, head) = track_ctx-ready set r keeps empty alloc in
      let (sent, run, (ended, st, header)) =
        answer_track_lem s slot chain (len ∙ n) (ap is_head same ∙ method) (head ∙ unsent) in
      (
        sent,
        ap (run_track w ngx_php_run r) e ∙ run,
        (ended, st ∙ ap (λ k. if k == 0 then 200 else k) status, header),
      )

  -- On a request with memory for a context, no answer begun, no header sent and not HEAD, where
  -- nginx sends such a header: whatever texts the run writes, the opcode handler and the stack
  -- handler both give NGX_OK, having sent those texts, or a space, with their length and the status
  -- that was set or 200, and clear the slot.
  pub trackers-answer :
      (r : Request)
      → (r.slot ≡ false) ⊎ (r.ctx.rputs_chain ≡ none)
      → w.pcalloc_succeeds ≡ true
      → r.content_length_n ≡ negsuc 0
      → is_head r.method ≡ false
      → r.header_sent ≡ false
      → ((sent : Request) × (opcode_inline_handler w ngx_php_run r
            ≡ some (ngx_ok, clear_slot (w.output_filter sent)))
          × IsTracked (answer_of texts) r sent)
        × ((sent : Request) × (stack_inline_handler w ngx_php_run r
              ≡ some (ngx_ok, clear_slot (w.output_filter sent)))
            × IsTracked (answer_of texts) r sent)
  unfolding opcode_inline_handler stack_inline_handler
  trackers-answer r empty alloc n method unsent = (
    run_track-answers set_opcode r (λ c. refl) empty alloc n method unsent,
    run_track-answers set_stack r (λ c. refl) empty alloc n method unsent,
  )
