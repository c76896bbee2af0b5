-- ===== src/Handler/Respond.antt =====
-- The answer that the phase handlers of src/ngx_http_php_handler.c give: the output chain of
-- src/ngx_http_php_output.c, and the part of each handler behind its label `set_output`.
use ngx_php.Prelude.{
  ℕ, ◌+◌, Bool, true, false, not, ◌&&◌, ◌||◌, Option, none, some, List, [], ◌∷◌, ◌++◌, length, ◌==◌,
  if◌then◌else◌,
}
use ngx_php.Prelude.Codes.{
  ℤ, pos, negsuc, ◌==ℤ◌, geb_ℤ, ngx_ok, ngx_error, ngx_declined, ngx_http_ok,
}
use ngx_php.Handler.State.{Bytes, Method, head, Link, Request, World, add_len}

abbrev pub is_head : Method → Bool
is_head head = true
is_head _ = false

-- `if (content_length_n == -1) content_length_n += len + 1; else content_length_n += len;`
abbrev pub count_length : ℕ → ℤ → ℤ
count_length len n = if n ==ℤ negsuc 0 then add_len n (len + 1) else add_len n len

abbrev pub new_link : Bytes → Link
new_link text = record { text = text; last_buf = false }

abbrev pub chain_of : Option (List Link) → List Link
chain_of none = []
chain_of (some links) = links

-- `ngx_http_php_set_output_chain`: one more link at the end, and its length counted.
unfoldable pub set_output_chain : Bytes → Request → Request
set_output_chain text r = record r {
  slot = true;
  ctx = record (r.ctx) { rputs_chain = some (chain_of r.ctx.rputs_chain ++ new_link text ∷ []) };
  content_length_n = count_length (length text) r.content_length_n;
}

abbrev pub space : Bytes
space = b' ' ∷ []

-- `if (ctx->rputs_chain == NULL) { … }`: an answer of one space.
unfoldable pub fill_empty : Request → Request
fill_empty r = elim r.ctx.rputs_chain [
  | some links ↦ r
  | none ↦ record r {
    ctx = record (r.ctx) { rputs_chain = some (new_link space ∷ []) };
    content_length_n = count_length 1 r.content_length_n;
  }
]

-- `(*chain->last)->buf->last_buf = 1`
abbrev pub mark_last : List Link → List Link
mark_last [] = []
mark_last (x ∷ []) = record x { last_buf = true } ∷ []
mark_last (x ∷ y ∷ ys) = x ∷ mark_last (y ∷ ys)

abbrev pub mark_chain : Option (List Link) → Option (List Link)
mark_chain none = none
mark_chain (some links) = some (mark_last links)

abbrev pub end_chain : Request → Request
end_chain r = record r { ctx = record (r.ctx) { rputs_chain = mark_chain r.ctx.rputs_chain } }

abbrev pub default_status : Request → Request
default_status r = if r.status == 0 then record r { status = 200 } else r

abbrev pub end_request : Bool → Request → Request
end_request mark r = if mark then record r { ctx = record (r.ctx) { end_of_request = true } } else r

abbrev pub clear_slot : Request → Request
clear_slot r = record r { slot = false }

module _ (w : World) where
  -- From `chain->last->buf->last_buf = 1` on: the header, and the body if that went well.
  unfoldable pub send_body : Bool → ℤ → Request → ℤ × Request
  send_body mark final r =
      let (rc, r') = w.send_header (end_chain r) in
      if rc ==ℤ ngx_ok
      then (final, clear_slot (w.output_filter (end_request mark r')))
      else (rc, r')

  -- From `if (!r->headers_out.status)` on. A HEAD request has its header sent here first.
  unfoldable pub send_response : Bool → ℤ → Request → ℤ × Request
  unfolding send_body
  send_response mark final r0 =
      let r = default_status r0 in
      if is_head r.method
      then (let (rc, r') = w.send_header r in
          if rc ==ℤ ngx_ok then send_body mark final r' else (rc, r'))
      else send_body mark final r

  -- `set_output` of the rewrite and access handlers, once the context is known to be there.
  unfoldable pub finish_early : ℤ → ℤ → Request → ℤ × Request
  unfolding send_response
  finish_early final rc r0 =
      let r = record r0 { ctx = record (r0.ctx) { phase_status = ngx_declined } } in
      if rc ==ℤ ngx_ok || rc ==ℤ ngx_http_ok
      then elim r.ctx.rputs_chain [
        | none ↦ (ngx_declined, r)
        | some links ↦ send_response true final r
      ]
      else (rc, r)

  -- `set_output` of the content handler for files.
  unfoldable pub finish_content_file : ℤ → Request → ℤ × Request
  unfolding send_response fill_empty
  finish_content_file rc r0 =
      let r = record r0 { ctx = record (r0.ctx) { phase_status = ngx_declined } } in
      if rc ==ℤ ngx_ok || rc ==ℤ ngx_declined
      then send_response true ngx_ok (fill_empty r)
      else if rc ==ℤ ngx_error || (geb_ℤ rc ngx_ok && not (rc ==ℤ ngx_ok))
      then (rc, r)
      else (ngx_ok, r)

  -- NGX_ERROR and the four redirects that the content handler for blocks returns as they are.
  abbrev pub is_returned : ℤ → Bool
  is_returned rc =
      rc ==ℤ ngx_error || rc ==ℤ pos 302 || rc ==ℤ pos 303 || rc ==ℤ pos 307 || rc ==ℤ pos 308

  -- `set_output` of the content handler for blocks.
  unfoldable pub finish_content_inline : ℤ → Request → ℤ × Request
  unfolding send_response fill_empty
  finish_content_inline rc r0 =
      let r = record r0 { ctx = record (r0.ctx) { phase_status = ngx_declined } } in
      if is_returned rc
      then (rc, r)
      else if geb_ℤ rc ngx_ok || rc ==ℤ ngx_declined
      then send_response true ngx_ok (fill_empty r)
      else (ngx_ok, r)
