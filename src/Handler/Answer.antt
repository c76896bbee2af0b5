-- ===== src/Handler/Answer.antt =====
-- The answer behind the label `set_output` of the handlers in src/ngx_http_php_handler.c: what
-- reaches the body filters, and the return code.
use ngx_php.Prelude.{
  ◌≡◌, Bool, refl, sym, ap, ◌∙◌, subst, true, false, inl, inr, ◌⊎◌, Option-cases, arith, ◌==◌,
  if◌then◌else◌,
}
use ngx_php.Prelude.Codes.{ℤ, ngx_ok, ngx_error, ngx_declined, ◌==ℤ◌}
use ngx_php.Handler.State.{Bytes, Request, World}
use ngx_php.Handler.Uthread.{set_phase_status}
use ngx_php.Handler.Respond.{
  is_head, default_status, fill_empty, end_chain, end_request, send_body, send_response,
  finish_content_inline, clear_slot,
}
use ngx_php.Handler.Output.{IsEnded}

-- What the body filters get: the whole text on a chain that ends, the length of the text, and the
-- status that PHP set, or 200.
abbrev pub IsSent : Bytes → Request → Request → Type 0
IsSent text before sent =
    IsEnded text sent
    × (sent.status ≡ (if before.status == 0 then 200 else before.status))
    × (sent.header_sent ≡ true)
    × (sent.ctx.end_of_request ≡ true)

default_status-frame :
    (r : Request) → default_status r ≡ record r { status = if r.status == 0 then 200 else r.status }
default_status-frame r = ground arith

pub fill_empty-method : (r : Request) → (fill_empty r).method ≡ r.method
unfolding fill_empty
fill_empty-method r = ground arith

fill_empty-status : (r : Request) → (fill_empty r).status ≡ r.status
unfolding fill_empty
fill_empty-status r = ground arith

pub header_sent-default : (r : Request) → (default_status r).header_sent ≡ r.header_sent
header_sent-default r = ground arith

pub fill_empty-header_sent : (r : Request) → (fill_empty r).header_sent ≡ r.header_sent
unfolding fill_empty
fill_empty-header_sent r = ground arith

default_status-method : (r : Request) → (default_status r).method ≡ r.method
default_status-method r = ground arith

module _ (w : World) where
  -- Behind the header of an answer.
  abbrev after_header : Bool → ℤ → ℤ × Request → ℤ × Request
  after_header mark final (rc, r) =
      if rc ==ℤ ngx_ok then (final, clear_slot (w.output_filter (end_request mark r))) else (rc, r)

  pub send_body-header :
      (mark : Bool) (final : ℤ) (r : Request) (x : ℤ × Request)
      → w.send_header (end_chain r) ≡ x
      → send_body w mark final r ≡ after_header mark final x
  unfolding send_body
  send_body-header mark final r x h = ap (after_header mark final) h

  -- Behind the first header of a HEAD request.
  abbrev after_head : ℤ → ℤ × Request → ℤ × Request
  after_head final (rc, r) = if rc ==ℤ ngx_ok then send_body w true final r else (rc, r)

  send_response-is_head :
      (final : ℤ) (r : Request)
      → is_head r.method ≡ true
      → send_response w true final r ≡ after_head final (w.send_header (default_status r))
  unfolding send_response
  send_response-is_head final r h = rw (ap is_head (default_status-method r) ∙ h) refl

  pub send_response-method :
      (mark : Bool) (final : ℤ) (r : Request)
      → is_head r.method ≡ false
      → send_response w mark final r ≡ send_body w mark final (default_status r)
  unfolding send_response
  send_response-method mark final r h = rw (ap is_head (default_status-method r) ∙ h) refl

  finish_content_inline-sent :
      (rc : ℤ) (r : Request)
      → (rc ≡ ngx_ok) ⊎ (rc ≡ ngx_declined)
      → finish_content_inline w rc r
        ≡ send_response w true ngx_ok (fill_empty (set_phase_status ngx_declined r))
  unfolding finish_content_inline
  finish_content_inline-sent rc r (inl h) = rw h refl
  finish_content_inline-sent rc r (inr h) = rw h refl

pub IsEnded-default_status :
    (text : Bytes) (r : Request)
    → IsEnded text (end_chain r)
    → IsEnded text (end_chain (default_status r))
IsEnded-default_status text r h =
    subst (λ s. IsEnded text (end_chain s)) (sym (default_status-frame r)) h

fill_empty-phase :
    (rc : ℤ) (r : Request) → fill_empty (set_phase_status rc r) ≡ set_phase_status rc (fill_empty r)
unfolding fill_empty
fill_empty-phase rc r = elim (Option-cases r.ctx.rputs_chain) [
  | inl h ↦ rw h refl
  | inr (links, h) ↦ rw h refl
]

IsEnded-phase :
    (text : Bytes) (rc : ℤ) (r : Request)
    → IsEnded text (end_chain (fill_empty r))
    → IsEnded text (end_chain (fill_empty (set_phase_status rc r)))
IsEnded-phase text rc r h = subst (λ s. IsEnded text (end_chain s)) (sym (fill_empty-phase rc r)) h

pub status-sent :
    (r : Request)
    → (default_status (fill_empty r)).status ≡ (if r.status == 0 then 200 else r.status)
status-sent r =
    ap (λ (s : Request). s.status) (default_status-frame (fill_empty r))
    ∙ ap (λ n. if n == 0 then 200 else n) (fill_empty-status r)

module _ (w : World)
    (sends : (s : Request)
      → s.header_sent ≡ false
      → w.send_header s ≡ (ngx_ok, record s { header_sent = true })) where
  -- The text that stands on the chain is what an answer sends.
  pub finish_content_inline-sends :
      (text : Bytes) (rc : ℤ) (r : Request)
      → (rc ≡ ngx_ok) ⊎ (rc ≡ ngx_declined)
      → is_head r.method ≡ false
      → r.header_sent ≡ false
      → IsEnded text (end_chain (fill_empty r))
      → (sent : Request) × IsSent text r sent
        × (finish_content_inline w rc r ≡ (ngx_ok, clear_slot (w.output_filter sent)))
  finish_content_inline-sends text rc r code method unsent ended =
      let q = fill_empty (set_phase_status ngx_declined r) in
      let head_sent = record (end_chain (default_status q)) { header_sent = true } in
      (
        end_request true head_sent,
        (
          IsEnded-default_status text q (IsEnded-phase text ngx_declined r ended),
          status-sent (set_phase_status ngx_declined r),
          refl,
          refl,
        ),
        finish_content_inline-sent w rc r code
            ∙ send_response-method w true ngx_ok q
                (ap is_head (fill_empty-method (set_phase_status ngx_declined r)) ∙ method)
            ∙ send_body-header w true ngx_ok (default_status q) (ngx_ok, head_sent)
                (sends (end_chain (default_status q)) (
                  header_sent-default q
                  ∙ fill_empty-header_sent (set_phase_status ngx_declined r)
                  ∙ unsent)),
      )

-- nginx's header function sends a header once, and answers NGX_ERROR from then on.
module _ (w : World)
    (once : (s : Request)
      → s.header_sent ≡ false
      → w.send_header s ≡ (ngx_ok, record s { header_sent = true }))
    (again : (s : Request) → s.header_sent ≡ true → w.send_header s ≡ (ngx_error, s)) where
  head_sent-again :
      (final : ℤ) (r : Request)
      → r.header_sent ≡ true
      → send_body w true final r ≡ (ngx_error, end_chain r)
  head_sent-again final r h =
      send_body-header w true final r (ngx_error, end_chain r) (again (end_chain r) h)

  send_response-head :
      (final : ℤ) (r : Request)
      → is_head r.method ≡ true
      → r.header_sent ≡ false
      → send_response w true final r
        ≡ (ngx_error, end_chain (record (default_status r) { header_sent = true }))
  send_response-head final r h sent =
      let s = record (default_status r) { header_sent = true } in
      send_response-is_head w final r h
      ∙ ap (after_head w final) (once (default_status r) (header_sent-default r ∙ sent))
      ∙ head_sent-again final s refl

  -- With a header function that sends a header once and gives NGX_ERROR from then on: a HEAD
  -- request whose header has not been sent, answered by the content handler for blocks with NGX_OK
  -- or NGX_DECLINED, has its header sent, and then the handler gives NGX_ERROR, no body filter is
  -- called and the slot of the context is not cleared.
  pub finish_content_inline-head :
      (rc : ℤ) (r : Request)
      → (rc ≡ ngx_ok) ⊎ (rc ≡ ngx_declined)
      → is_head r.method ≡ true
      → r.header_sent ≡ false
      → finish_content_inline w rc r ≡ (
        ngx_error,
        end_chain (record (default_status (fill_empty (set_phase_status ngx_declined r))) {
          header_sent = true;
        }),
      )
  finish_content_inline-head rc r code h sent =
      let q = set_phase_status ngx_declined r in
      finish_content_inline-sent w rc r code
      ∙ send_response-head ngx_ok (fill_empty q) (ap is_head (fill_empty-method q) ∙ h)
          (fill_empty-header_sent q ∙ sent)
