-- ===== src/Handler/State.antt =====
-- The request of nginx as src/ngx_http_php_handler.c sees it, with its module context
-- (`ngx_http_php_ctx_t` of src/ngx_http_php_core.h) and the globals of the PHP embedding.
use ngx_php.Prelude.{ℕ, suc, ◌+◌, ◌-◌, Bool, false, Option, none, List, [], leb, if◌then◌else◌}
use ngx_php.Prelude.Codes.{ℤ, pos, negsuc, ngx_ok}

abbrev pub Bytes : Type 0
Bytes = List ℕ

pub data Phase : Type 0 where
  rewrite access content log header_filter body_filter : Phase

pub data Method : Type 0 where
  get head post put delete patch other_method : Method

pub data OutputType : Type 0 where
  output_none output_content output_opcode output_stack : OutputType

-- One link of the output chain: its text, and `buf->last_buf`.
pub record Link : Type 0 where
  pub text : Bytes
  pub last_buf : Bool

-- `ngx_http_php_ctx_t`; `rputs_chain` is `none` where the pointer is NULL, and the closure is
-- there or not.
pub record Ctx : Type 0 where
  pub rputs_chain : Option (List Link)
  pub request_body_ctx : Bytes
  pub request_body_more : Bool
  pub read_request_body_done : Bool
  pub output_type : OutputType
  pub opcode_logo : ℕ
  pub stack_logo : ℕ
  pub stack_depth : ℕ
  pub rewrite_phase : Bool
  pub access_phase : Bool
  pub content_phase : Bool
  pub phase_status : ℤ
  pub generator_closure : Bool
  pub has_upstream : Bool
  pub has_php_socket : Bool
  pub end_of_request : Bool

-- `ngx_http_request_body_t`; `bufs` is `none` where the pointer is NULL, else the bytes of the
-- first buffer of the chain, and those of the others.
pub record RequestBody : Type 0 where
  pub temp_file : Bool
  pub bufs : Option (Bytes × List Bytes)

-- `slot` says that the module's context of the request is not NULL; `ctx` is the memory of the
-- context, which handlers still read through their own pointer when the slot has been cleared.
pub record Request : Type 0 where
  pub id : ℕ
  pub slot : Bool
  pub ctx : Ctx
  pub method : Method
  pub status : ℕ
  pub content_length_n : ℤ
  pub main_count : ℕ
  pub body_in_single_buf : Bool
  pub body_in_persistent_file : Bool
  pub body_in_clean_file : Bool
  pub request_body : Option RequestBody
  pub header_sent : Bool
  pub php_request : ℕ
  pub request_status : ℤ
  pub compiled : Phase → Bool

-- `ngx_pcalloc(r->pool, sizeof(*ctx))`
abbrev pub zeroed_ctx : Ctx
zeroed_ctx = record {
  rputs_chain = none;
  request_body_ctx = [];
  request_body_more = false;
  read_request_body_done = false;
  output_type = output_none;
  opcode_logo = 0;
  stack_logo = 0;
  stack_depth = 0;
  rewrite_phase = false;
  access_phase = false;
  content_phase = false;
  phase_status = ngx_ok;
  generator_closure = false;
  has_upstream = false;
  has_php_socket = false;
  end_of_request = false;
}

-- `n + len` for an `off_t`.
abbrev pub add_len : ℤ → ℕ → ℤ
add_len (pos n) len = pos (n + len)
add_len (negsuc n) len = if leb (suc n) len then pos (len - suc n) else negsuc (n - len)

-- What a call of a PHP function through `ngx_http_php_call_user_function` does: it fails, it
-- leaves by `zend_bailout`, or it gives a value.
pub data PhpCall : Type 0 where
  fails bails_out gives_true gives_object gives_other : PhpCall

-- What nginx and PHP do for the handlers. Each may change the request; those that answer give a
-- return code beside it.
pub record World : Type 0 where
  pub pcalloc_succeeds : Bool
  pub eval_file : Phase → Request → Request
  pub compile : Phase → Request → Bool × Request
  pub call_main : Phase → Request → PhpCall × Request
  pub call_next : Request → PhpCall × Request
  pub call_valid : Request → PhpCall × Request
  pub socket_clear : Request → Request
  pub send_header : Request → ℤ × Request
  pub output_filter : Request → Request
  pub read_client_request_body : Request → ℤ × Request
  pub run_phases : Request → Request
