-- ===== src/Handler/Body.antt =====
-- `ngx_http_php_read_request_body_callback` of src/ngx_http_php_handler.c: the body of a request,
-- from nginx's chain of buffers to one text.
use ngx_php.Prelude.{
  ℕ, ◌+◌, ◌<◌, ◌≡◌, ◌∙◌, true, false, none, some, List, [], ◌∷◌, ◌++◌, append-nil, append_assoc,
  arith, length, length-append, ◌==◌, if◌then◌else◌,
}
use ngx_php.Handler.State.{Bytes, RequestBody, Request, World}

-- `for (; cl; cl = cl->next) len += …`
abbrev pub total_length : ℕ → List Bytes → ℕ
total_length len [] = len
total_length len (b ∷ bs) = total_length (len + length b) bs

-- `p = ngx_copy(p, cl->buf->pos, …)` over the chain; `done` is what stands in front of `p`.
abbrev pub copy_all : Bytes → List Bytes → Bytes
copy_all done [] = done
copy_all done (b ∷ bs) = copy_all (done ++ b) bs

module _ (w : World) where
  -- The text is stored, and the phases run again if they wait for it.
  unfoldable pub store_body : Bytes → Request → Request
  store_body text r =
      let stored = record r { ctx = record (r.ctx) { request_body_ctx = text } } in
      if r.ctx.request_body_more
      then w.run_phases (record stored { ctx = record (stored.ctx) { request_body_more = false } })
      else stored

  -- The chain of buffers: one buffer is taken as it is, several are copied into one.
  unfoldable pub gather : Bytes → List Bytes → Request → Request
  unfolding store_body
  gather first [] r = if length first == 0 then w.run_phases r else store_body first r
  gather first (b ∷ bs) r =
      if total_length 0 (first ∷ b ∷ bs) == 0
      then w.run_phases r
      else store_body (copy_all [] (first ∷ b ∷ bs)) r

  unfoldable pub take_body : RequestBody → Request → Request
  unfolding gather
  take_body body r = elim body.bufs [
    | none ↦ w.run_phases r
    | some (first, rest) ↦ if body.temp_file then w.run_phases r else gather first rest r
  ]

  unfoldable pub read_request_body_callback : Request → Request
  unfolding take_body
  read_request_body_callback r0 =
      let r = record r0 { ctx = record (r0.ctx) { read_request_body_done = true } } in
      elim r.request_body [ none ↦ w.run_phases r | some body ↦ take_body body r ]

-- The bytes of the chain, in order.
abbrev pub flat : List Bytes → Bytes
flat [] = []
flat (b ∷ bs) = b ++ flat bs

pub copy_all-flat : (done : Bytes) (bs : List Bytes) → copy_all done bs ≡ done ++ flat bs
copy_all-flat done [] = simp append-nil
copy_all-flat done (b ∷ bs) = copy_all-flat (done ++ b) bs ∙ simp append_assoc

pub total_length-flat : (len : ℕ) (bs : List Bytes) → total_length len bs ≡ len + length (flat bs)
total_length-flat len [] = omega arith
total_length-flat len (b ∷ bs) =
    omega (arith, total_length-flat (len + length b) bs, length-append b (flat bs))

pub gather-flat :
    (w : World) (first : Bytes) (rest : List Bytes) (s : Request)
    → 0 < length (flat (first ∷ rest))
    → gather w first rest s ≡ store_body w (flat (first ∷ rest)) s
unfolding gather
gather-flat w first [] s h = ground (arith, append-nil first)
gather-flat w first (b ∷ bs) s h =
    ground (arith, total_length-flat 0 (first ∷ b ∷ bs), copy_all-flat [] (first ∷ b ∷ bs))

module _ (w : World) (r : Request) (body : RequestBody) (first : Bytes) (rest : List Bytes) where
  -- A body that is in memory and not empty: the callback stores the bytes of its buffers in their
  -- order as one text and marks the body as read, and it runs the phases, with that mark taken
  -- away, exactly if the request waits for its body.
  pub callback-body :
      r.request_body ≡ some body
      → body.bufs ≡ some (first, rest)
      → body.temp_file ≡ false
      → 0 < length (flat (first ∷ rest))
      → read_request_body_callback w r ≡ (
          if r.ctx.request_body_more
          then w.run_phases (record r {
            ctx = record (r.ctx) {
              read_request_body_done = true;
              request_body_ctx = flat (first ∷ rest);
              request_body_more = false;
            };
          })
          else record r {
            ctx = record (r.ctx) {
              read_request_body_done = true;
              request_body_ctx = flat (first ∷ rest);
            };
          })
  unfolding read_request_body_callback take_body store_body
  callback-body here bufs memory h = ground (
    arith,
    here,
    bufs,
    memory,
    gather-flat w first rest (record r { ctx = record (r.ctx) { read_request_body_done = true } })
        h,
  )
