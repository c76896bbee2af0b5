-- ===== src/Directive/Setters.antt =====
-- The setters of src/ngx_http_php_directive.c for directives that take their code as an argument.
use ngx_php.Prelude.{take, ℕ, true, Option, none, some, [], ◌∷◌}
use ngx_php.Directive.State.{Bytes, HandlerPt, Code, MainConf, PhpConf}
use ngx_php.Directive.Code.{Memory, code_from_file, code_from_string}
use ngx_php.ConfFile.State.{Token}
use ngx_php.ConfFile.Parse.{Reply, conf_ok, conf_error, message}

-- "is duplicated"
abbrev pub is_duplicated : Bytes
is_duplicated =
    b'i' ∷ b's' ∷ b' ' ∷ b'd' ∷ b'u' ∷ b'p' ∷ b'l' ∷ b'i' ∷ b'c' ∷ b'a' ∷ b't' ∷ b'e' ∷ b'd' ∷ []

-- `cf->args->elts`
abbrev pub Args : Type 0
Args = ℕ → Token

-- A setter, over the memory of cf->pool and the directive's arguments.
abbrev pub Setter : Type 0 → Type 0
Setter C = Memory → Args → C → Reply × C

-- What every setter of a code does: a place that is taken is a duplicate, a code that could not be
-- made is an error, and a code that was made is stored.
unfoldable pub set_once : {A C : Type 0} → Option A → Option Code → (Code → C) → C → Reply × C
set_once (some _) code store c = (message is_duplicated, c)
set_once none none store c = (conf_error, c)
set_once none (some code) store c = (conf_ok, store code)

-- `if (cmd->post == NULL) { return NGX_CONF_ERROR; }`
unfoldable pub with_post :
    {C : Type 0} → Option HandlerPt → (HandlerPt → C → Reply × C) → C → Reply × C
with_post none set c = (conf_error, c)
with_post (some post) set c = set post c

-- `ngx_http_php_ini_path`
unfoldable pub ini_path : Setter MainConf
ini_path m args c = elim c.ini_path [
  | [] ↦ (conf_ok, record c { ini_path = take (args 1).len (args 1).text })
  | _ ∷ _ ↦ (message is_duplicated, c)
]

unfoldable pub init_inline_phase : Setter MainConf
unfolding set_once
init_inline_phase m args c =
    set_once c.init_inline_code (code_from_string m (args 1))
      (λ code. record c { init_inline_code = some code }) c

unfoldable pub init_file_phase : Setter MainConf
unfolding set_once
init_file_phase m args c =
    set_once c.init_code (code_from_file m (args 1)) (λ code. record c { init_code = some code }) c

unfoldable pub init_worker_inline_phase : Setter MainConf
unfolding set_once
init_worker_inline_phase m args c =
    set_once c.init_worker_inline_code (code_from_string m (args 1))
      (λ code. record c { init_worker_inline_code = some code; enabled_init_worker_handler = true })
      c

-- The setters of a location's code; the first argument is `cmd->post`.
unfoldable pub rewrite_phase : Option HandlerPt → Setter PhpConf
unfolding set_once with_post
rewrite_phase post m args = with_post post λ h c.
    set_once c.loc.rewrite_handler (code_from_file m (args 1))
      (λ code. record {
        main = record (c.main) { enabled_rewrite_handler = true };
        loc = record (c.loc) { rewrite_code = some code; rewrite_handler = some h };
      })
      c

unfoldable pub access_phase : Option HandlerPt → Setter PhpConf
unfolding set_once with_post
access_phase post m args = with_post post λ h c.
    set_once c.loc.access_handler (code_from_file m (args 1))
      (λ code. record {
        main = record (c.main) { enabled_access_handler = true };
        loc = record (c.loc) { access_code = some code; access_handler = some h };
      })
      c

unfoldable pub content_phase : Option HandlerPt → Setter PhpConf
unfolding set_once with_post
content_phase post m args = with_post post λ h c.
    set_once c.loc.content_handler (code_from_file m (args 1))
      (λ code. record {
        main = record (c.main) { enabled_content_handler = true };
        loc = record (c.loc) { content_code = some code; content_handler = some h };
      })
      c

unfoldable pub log_phase : Option HandlerPt → Setter PhpConf
unfolding set_once with_post
log_phase post m args = with_post post λ h c.
    set_once c.loc.log_handler (code_from_file m (args 1))
      (λ code. record {
        main = record (c.main) { enabled_log_handler = true };
        loc = record (c.loc) { log_code = some code; log_handler = some h };
      })
      c

unfoldable pub rewrite_inline_phase : Option HandlerPt → Setter PhpConf
unfolding set_once with_post
rewrite_inline_phase post m args = with_post post λ h c.
    set_once c.loc.rewrite_handler (code_from_string m (args 1))
      (λ code. record {
        main = record (c.main) { enabled_rewrite_handler = true };
        loc = record (c.loc) { rewrite_inline_code = some code; rewrite_handler = some h };
      })
      c

unfoldable pub access_inline_phase : Option HandlerPt → Setter PhpConf
unfolding set_once with_post
access_inline_phase post m args = with_post post λ h c.
    set_once c.loc.access_handler (code_from_string m (args 1))
      (λ code. record {
        main = record (c.main) { enabled_access_handler = true };
        loc = record (c.loc) { access_inline_code = some code; access_handler = some h };
      })
      c

unfoldable pub content_inline_phase : Option HandlerPt → Setter PhpConf
unfolding set_once with_post
content_inline_phase post m args = with_post post λ h c.
    set_once c.loc.content_handler (code_from_string m (args 1))
      (λ code. record {
        main = record (c.main) { enabled_content_handler = true };
        loc = record (c.loc) { content_inline_code = some code; content_handler = some h };
      })
      c

unfoldable pub log_inline_phase : Option HandlerPt → Setter PhpConf
unfolding set_once with_post
log_inline_phase post m args = with_post post λ h c.
    set_once c.loc.log_handler (code_from_string m (args 1))
      (λ code. record {
        main = record (c.main) { enabled_log_handler = true };
        loc = record (c.loc) { log_inline_code = some code; log_handler = some h };
      })
      c

unfoldable pub opcode_inline_phase : Option HandlerPt → Setter PhpConf
unfolding set_once with_post
opcode_inline_phase post m args = with_post post λ h c.
    set_once c.loc.opcode_handler (code_from_string m (args 1))
      (λ code. record {
        main = record (c.main) { enabled_opcode_handler = true };
        loc = record (c.loc) { opcode_inline_code = some code; opcode_handler = some h };
      })
      c

unfoldable pub stack_inline_phase : Option HandlerPt → Setter PhpConf
unfolding set_once with_post
stack_inline_phase post m args = with_post post λ h c.
    set_once c.loc.stack_handler (code_from_string m (args 1))
      (λ code. record {
        main = record (c.main) { enabled_stack_handler = true };
        loc = record (c.loc) { stack_inline_code = some code; stack_handler = some h };
      })
      c

unfoldable pub header_filter_inline_phase : Option HandlerPt → Setter PhpConf
unfolding set_once with_post
header_filter_inline_phase post m args = with_post post λ h c.
    set_once c.loc.header_filter_handler (code_from_string m (args 1))
      (λ code. record {
        main = record (c.main) { enabled_header_filter = true };
        loc = record (c.loc) {
          header_filter_inline_code = some code;
          header_filter_handler = some h;
        };
      })
      c

unfoldable pub body_filter_inline_phase : Option HandlerPt → Setter PhpConf
unfolding set_once with_post
body_filter_inline_phase post m args = with_post post λ h c.
    set_once c.loc.body_filter_handler (code_from_string m (args 1))
      (λ code. record {
        main = record (c.main) { enabled_body_filter = true };
        loc = record (c.loc) { body_filter_inline_code = some code; body_filter_handler = some h };
      })
      c
