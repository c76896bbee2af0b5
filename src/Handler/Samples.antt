-- ===== src/Handler/Samples.antt =====
-- Concrete requests for the handlers of src/ngx_http_php_handler.c, in worlds where PHP writes
-- fixed texts.
use ngx_php.Prelude.{
  suc, ◌≡◌, refl, true, false, none, some, List, [], ◌∷◌, ◌++◌, arith, ◌==◌, if◌then◌else◌,
}
use ngx_php.Prelude.Codes.{ℤ, negsuc, ngx_ok, ngx_error, ngx_again, ngx_declined}
use ngx_php.Handler.State.{
  Bytes, Phase, rewrite, access, content, get, head, post, RequestBody, Request, World, gives_true,
  gives_object, gives_other, zeroed_ctx,
}
use ngx_php.Handler.Output.{write_all}

abbrev pub hello : Bytes
hello = b'h' ∷ b'i' ∷ []

abbrev pub world : Bytes
world = b'w' ∷ []

abbrev pub echoes : Phase → List Bytes
echoes rewrite = []
echoes access = hello ∷ []
echoes content = world ∷ hello ∷ []
echoes _ = []

abbrev pub sends_header : Request → ℤ × Request
sends_header s = (ngx_ok, record s { header_sent = true })

-- A body of which nothing has come in.
abbrev pub nothing_yet : RequestBody
nothing_yet = record { temp_file = false; bufs = none }

-- PHP that writes and ends.
abbrev pub ending : World
ending = record {
  pcalloc_succeeds = true;
  eval_file = λ p s. s;
  compile = λ p s. (false, s);
  call_main = λ p s. (gives_object, write_all (echoes p) s);
  call_next = λ s. (gives_other, s);
  call_valid = λ s. (gives_other, s);
  socket_clear = λ s. s;
  send_header = sends_header;
  output_filter = λ s. s;
  read_client_request_body =
      λ s. (ngx_again, record s { main_count = suc s.main_count; request_body = some nothing_yet });
  run_phases = λ s. s;
}

-- PHP that waits once: while the request has one holder.
abbrev pub waiting_once : World
waiting_once = record ending {
  call_next = λ s. (gives_other, write_all (hello ∷ []) s);
  call_valid = λ s. (if s.main_count == 1 then gives_true else gives_other, s);
}

-- nginx's header function: one header for a request.
abbrev pub strict : World
strict = record ending {
  send_header = λ s. if s.header_sent then (ngx_error, s) else sends_header s;
}

abbrev pub request : Request
request = record {
  id = 7;
  slot = true;
  ctx = record zeroed_ctx { phase_status = ngx_declined; request_body_more = true };
  method = get;
  status = 0;
  content_length_n = negsuc 0;
  main_count = 1;
  body_in_single_buf = false;
  body_in_persistent_file = false;
  body_in_clean_file = false;
  request_body = none;
  header_sent = false;
  php_request = 0;
  request_status = ngx_ok;
  compiled = λ p. true;
}

abbrev pub posted : Request
posted = record request { method = post }

abbrev pub in_memory : RequestBody
in_memory = record { temp_file = false; bufs = some (hello, world ∷ []) }

abbrev pub waiting : Request
waiting = record request {
  ctx = record (request.ctx) { phase_status = ngx_again; read_request_body_done = true };
}

pub strict-once :
    (s : Request)
    → s.header_sent ≡ false
    → strict.send_header s ≡ (ngx_ok, record s { header_sent = true })
strict-once s h = rw h refl

pub strict-again : (s : Request) → s.header_sent ≡ true → strict.send_header s ≡ (ngx_error, s)
strict-again s h = ground (arith, h)

abbrev pub only_head : Request
only_head = record request { method = head }

-- The code id `0123456701234567…` of 32 bytes.
abbrev pub some_id : Bytes
some_id =
    let eight = b'0' ∷ b'1' ∷ b'2' ∷ b'3' ∷ b'4' ∷ b'5' ∷ b'6' ∷ b'7' ∷ [] in
    eight ++ eight ++ eight ++ eight
