-- ===== src/Directive/State.antt =====
-- The configurations of src/ngx_http_php_module.h that the directives of
-- src/ngx_http_php_directive.c fill, and the code objects of src/ngx_http_php_core.h.
use ngx_php.Prelude.{ℕ, Bool, List, Option}

abbrev pub Bytes : Type 0
Bytes = List ℕ

-- The places where a location runs PHP: six phases and the two trackers.
pub data Stage : Type 0 where
  rewrite access content log opcode stack header_filter body_filter : Stage

-- `ngx_http_php_<stage>_file_handler`, `ngx_http_php_<stage>_inline_handler`
pub data HandlerPt : Type 0 where
  file_handler inline_handler : Stage → HandlerPt

pub data CodeType : Type 0 where
  code_type_file code_type_string : CodeType

-- `ngx_http_php_code_t`; `text` is `code.file` or `code.string` up to its NUL.
pub record Code : Type 0 where
  pub code_type : CodeType
  pub text : Bytes
  pub code_id : Bytes

-- `ngx_http_php_main_conf_t`; a code is `none` where the pointer is NGX_CONF_UNSET_PTR.
pub record MainConf : Type 0 where
  pub ini_path : Bytes
  pub init_code : Option Code
  pub init_inline_code : Option Code
  pub init_worker_inline_code : Option Code
  pub enabled_init_worker_handler : Bool
  pub enabled_rewrite_handler : Bool
  pub enabled_access_handler : Bool
  pub enabled_content_handler : Bool
  pub enabled_log_handler : Bool
  pub enabled_opcode_handler : Bool
  pub enabled_stack_handler : Bool
  pub enabled_header_filter : Bool
  pub enabled_body_filter : Bool

-- `ngx_http_php_loc_conf_t`; a handler is `none` where the pointer is NULL. `buffer_size` is `none`
-- where it is NGX_CONF_UNSET_SIZE.
pub record LocConf : Type 0 where
  pub document_root : Bytes
  pub rewrite_code : Option Code
  pub rewrite_inline_code : Option Code
  pub access_code : Option Code
  pub access_inline_code : Option Code
  pub content_code : Option Code
  pub content_inline_code : Option Code
  pub log_code : Option Code
  pub log_inline_code : Option Code
  pub opcode_inline_code : Option Code
  pub stack_inline_code : Option Code
  pub header_filter_code : Option Code
  pub header_filter_inline_code : Option Code
  pub body_filter_code : Option Code
  pub body_filter_inline_code : Option Code
  pub rewrite_handler : Option HandlerPt
  pub access_handler : Option HandlerPt
  pub content_handler : Option HandlerPt
  pub log_handler : Option HandlerPt
  pub opcode_handler : Option HandlerPt
  pub stack_handler : Option HandlerPt
  pub header_filter_handler : Option HandlerPt
  pub body_filter_handler : Option HandlerPt
  pub enabled_rewrite_inline_compile : Bool
  pub enabled_access_inline_compile : Bool
  pub enabled_content_inline_compile : Bool
  pub enabled_log_inline_compile : Bool
  pub enabled_header_filter_inline_compile : Bool
  pub enabled_body_filter_inline_compile : Bool
  pub buffer_size : Option ℕ

-- The two that a directive in a location reaches.
pub record PhpConf : Type 0 where
  pub main : MainConf
  pub loc : LocConf
