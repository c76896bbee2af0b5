-- ===== src/Directive/Merge.antt =====
-- The making and merging of configurations in src/ngx_http_php_module.c.
use ngx_php.Prelude.{ℕ, false, Option, none, some, []}
use ngx_php.Directive.State.{Bytes, HandlerPt, Code, MainConf, LocConf}

-- `ngx_http_php_create_main_conf` and `ngx_http_php_create_loc_conf`, when memory is found.
unfoldable pub create_main_conf : MainConf
create_main_conf = record {
  ini_path = [];
  init_code = none;
  init_inline_code = none;
  init_worker_inline_code = none;
  enabled_init_worker_handler = false;
  enabled_rewrite_handler = false;
  enabled_access_handler = false;
  enabled_content_handler = false;
  enabled_log_handler = false;
  enabled_opcode_handler = false;
  enabled_stack_handler = false;
  enabled_header_filter = false;
  enabled_body_filter = false;
}

unfoldable pub create_loc_conf : LocConf
create_loc_conf = record {
  document_root = [];
  rewrite_code = none;
  rewrite_inline_code = none;
  access_code = none;
  access_inline_code = none;
  content_code = none;
  content_inline_code = none;
  log_code = none;
  log_inline_code = none;
  opcode_inline_code = none;
  stack_inline_code = none;
  header_filter_code = none;
  header_filter_inline_code = none;
  body_filter_code = none;
  body_filter_inline_code = none;
  rewrite_handler = none;
  access_handler = none;
  content_handler = none;
  log_handler = none;
  opcode_handler = none;
  stack_handler = none;
  header_filter_handler = none;
  body_filter_handler = none;
  enabled_rewrite_inline_compile = false;
  enabled_access_inline_compile = false;
  enabled_content_inline_compile = false;
  enabled_log_inline_compile = false;
  enabled_header_filter_inline_compile = false;
  enabled_body_filter_inline_compile = false;
  buffer_size = none;
}

-- `if (conf->x == UNSET) conf->x = prev->x;`
abbrev pub inherited {ℓ} : {A : Type ℓ} → Option A → Option A → Option A
inherited none parent = parent
inherited (some a) parent = some a

-- `conf->x_handler`, which the same test on the inline code decides.
abbrev pub inherited_handler : Option Code → Option HandlerPt → Option HandlerPt → Option HandlerPt
inherited_handler none own parent = parent
inherited_handler (some _) own parent = own

abbrev pub or_default : ℕ → Option ℕ → Option ℕ
or_default d none = some d
or_default d (some n) = some n

-- `ngx_http_php_merge_loc_conf`: the parent and the child as they are afterwards. `root` is the
-- location's root, `pagesize` nginx's `ngx_pagesize`.
unfoldable pub merge_loc_conf : Bytes → ℕ → LocConf → LocConf → LocConf × LocConf
merge_loc_conf root pagesize prev conf = (
  record prev {
    opcode_inline_code = conf.opcode_inline_code;
    stack_inline_code = conf.stack_inline_code;
    enabled_rewrite_inline_compile = conf.enabled_rewrite_inline_compile;
    enabled_access_inline_compile = conf.enabled_access_inline_compile;
    enabled_content_inline_compile = conf.enabled_content_inline_compile;
    enabled_log_inline_compile = conf.enabled_log_inline_compile;
    enabled_header_filter_inline_compile = conf.enabled_header_filter_inline_compile;
    enabled_body_filter_inline_compile = conf.enabled_body_filter_inline_compile;
  },
  record conf {
    document_root = root;
    rewrite_code = inherited conf.rewrite_code prev.rewrite_code;
    rewrite_inline_code = inherited conf.rewrite_inline_code prev.rewrite_inline_code;
    rewrite_handler =
        inherited_handler conf.rewrite_inline_code conf.rewrite_handler prev.rewrite_handler;
    access_code = inherited conf.access_code prev.access_code;
    access_inline_code = inherited conf.access_inline_code prev.access_inline_code;
    access_handler =
        inherited_handler conf.access_inline_code conf.access_handler prev.access_handler;
    content_code = inherited conf.content_code prev.content_code;
    content_inline_code = inherited conf.content_inline_code prev.content_inline_code;
    content_handler =
        inherited_handler conf.content_inline_code conf.content_handler prev.content_handler;
    log_code = inherited conf.log_code prev.log_code;
    log_inline_code = inherited conf.log_inline_code prev.log_inline_code;
    log_handler = inherited_handler conf.log_inline_code conf.log_handler prev.log_handler;
    header_filter_code = inherited conf.header_filter_code prev.header_filter_code;
    header_filter_inline_code =
        inherited conf.header_filter_inline_code prev.header_filter_inline_code;
    header_filter_handler =
        inherited_handler conf.header_filter_inline_code conf.header_filter_handler
          prev.header_filter_handler;
    body_filter_code = inherited conf.body_filter_code prev.body_filter_code;
    body_filter_inline_code = inherited conf.body_filter_inline_code prev.body_filter_inline_code;
    body_filter_handler =
        inherited_handler conf.body_filter_inline_code conf.body_filter_handler
          prev.body_filter_handler;
    buffer_size = inherited conf.buffer_size (or_default pagesize prev.buffer_size);
  },
)
