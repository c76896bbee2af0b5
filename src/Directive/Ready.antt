-- ===== src/Directive/Ready.antt =====
-- When a location can run what its directives ask for: each handler finds the code that it runs.
use ngx_php.Prelude.{◌≡◌, refl, Bool, true, Option, none, some}
use ngx_php.Directive.State.{
  Stage, rewrite, access, content, log, opcode, stack, header_filter, body_filter, HandlerPt,
  file_handler, inline_handler, Code, MainConf, LocConf,
}
use ngx_php.Directive.Setters.{set_once, with_post}
use ngx_php.ConfFile.Parse.{Reply}

-- A stage with no handler has no block of code; the handler for files has a file and no block to
-- run; the handler for blocks has a block.
abbrev pub Finds : Stage → Option HandlerPt → Option Code → Option Code → Type 0
Finds s none file none = Unit
Finds s none file (some _) = ⊥
Finds s (some (file_handler t)) (some _) none = t ≡ s
Finds s (some (file_handler t)) (some _) (some _) = ⊥
Finds s (some (file_handler t)) none _ = ⊥
Finds s (some (inline_handler t)) file (some _) = t ≡ s
Finds s (some (inline_handler t)) file none = ⊥

-- The fields of a stage; the trackers have no file.
abbrev pub handler_of : Stage → LocConf → Option HandlerPt
handler_of rewrite c = c.rewrite_handler
handler_of access c = c.access_handler
handler_of content c = c.content_handler
handler_of log c = c.log_handler
handler_of opcode c = c.opcode_handler
handler_of stack c = c.stack_handler
handler_of header_filter c = c.header_filter_handler
handler_of body_filter c = c.body_filter_handler

abbrev pub file_of : Stage → LocConf → Option Code
file_of rewrite c = c.rewrite_code
file_of access c = c.access_code
file_of content c = c.content_code
file_of log c = c.log_code
file_of opcode c = none
file_of stack c = none
file_of header_filter c = c.header_filter_code
file_of body_filter c = c.body_filter_code

abbrev pub inline_of : Stage → LocConf → Option Code
inline_of rewrite c = c.rewrite_inline_code
inline_of access c = c.access_inline_code
inline_of content c = c.content_inline_code
inline_of log c = c.log_inline_code
inline_of opcode c = c.opcode_inline_code
inline_of stack c = c.stack_inline_code
inline_of header_filter c = c.header_filter_inline_code
inline_of body_filter c = c.body_filter_inline_code

abbrev pub enabled_of : Stage → MainConf → Bool
enabled_of rewrite c = c.enabled_rewrite_handler
enabled_of access c = c.enabled_access_handler
enabled_of content c = c.enabled_content_handler
enabled_of log c = c.enabled_log_handler
enabled_of opcode c = c.enabled_opcode_handler
enabled_of stack c = c.enabled_stack_handler
enabled_of header_filter c = c.enabled_header_filter
enabled_of body_filter c = c.enabled_body_filter

abbrev pub FindsAt : Stage → LocConf → Type 0
FindsAt s c = Finds s (handler_of s c) (file_of s c) (inline_of s c)

abbrev pub IsReady : LocConf → Type 0
IsReady c = (s : Stage) → FindsAt s c

-- A handler has its phase enabled in the main configuration.
abbrev pub Enabled : Option HandlerPt → Bool → Type 0
Enabled none flag = Unit
Enabled (some _) flag = flag ≡ true

abbrev pub IsEnabled : MainConf → LocConf → Type 0
IsEnabled m c = (s : Stage) → Enabled (handler_of s c) (enabled_of s m)

-- A setter keeps what its store keeps at a free place.
module _ {C : Type 0} (Q : C → Type 0) where
  pub set_once-keeps :
      {A : Type 0} (slot : Option A) (code : Option Code) (store : Code → C) (c : C)
      → Q c
      → ((x : Code) → slot ≡ none → Q (store x))
      → Q (set_once slot code store c).1
  unfolding set_once
  set_once-keeps none none store c q stored = q
  set_once-keeps none (some x) store c q stored = stored x refl
  set_once-keeps (some a) code store c q stored = q

  pub with_post-keeps :
      (post : Option HandlerPt) (set : HandlerPt → C → Reply × C) (c : C)
      → Q c
      → ((h : HandlerPt) → post ≡ some h → Q (set h c).1)
      → Q (with_post post set c).1
  unfolding with_post
  with_post-keeps none set c q stored = q
  with_post-keeps (some h) set c q stored = stored h refl
