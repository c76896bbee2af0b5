-- ===== src/Directive/Register.antt =====
-- `ngx_http_php_init` and `ngx_http_php_handler_init` of src/ngx_http_php_module.c: the handlers
-- that the module gives to nginx's phases and filters.
use ngx_php.Prelude.{ℕ, Bool, List, [], ◌∷◌, ◌++◌, if◌then◌else◌}
use ngx_php.Prelude.Codes.{ℤ, ngx_ok, ngx_error}
use ngx_php.Directive.State.{
  Stage, rewrite, access, content, log, opcode, stack, header_filter, body_filter, MainConf,
}

-- `ngx_http_php_post_read_handler`, `ngx_http_php_<stage>_handler`, and handlers of other modules.
pub data Entry : Type 0 where
  post_read_entry : Entry
  entry : Stage → Entry
  other_entry : ℕ → Entry

-- The arrays `cmcf->phases[...].handlers`, and nginx's chains of filters from the top one down.
pub record Core : Type 0 where
  pub post_read_handlers : List Entry
  pub rewrite_handlers : List Entry
  pub access_handlers : List Entry
  pub content_handlers : List Entry
  pub log_handlers : List Entry
  pub header_filters : List Entry
  pub body_filters : List Entry

-- A push that fails, or the state behind it.
pub data Pushed : Type 0 where
  stopped pushed : Core → Pushed

-- Whether `ngx_array_push` finds memory for one more in an array.
abbrev pub Grows : Type 0
Grows = List Entry → Bool

module _ (grows : Grows) where
  -- `h = ngx_array_push(...); if (h == NULL) return NGX_ERROR; *h = ...` in each phase.
  unfoldable pub post_read_case : Core → Pushed
  post_read_case c =
      if grows c.post_read_handlers
      then pushed (record c { post_read_handlers = c.post_read_handlers ++ post_read_entry ∷ [] })
      else stopped c

  unfoldable pub rewrite_case : Core → Pushed
  rewrite_case c =
      if grows c.rewrite_handlers
      then pushed (record c { rewrite_handlers = c.rewrite_handlers ++ entry rewrite ∷ [] })
      else stopped c

  unfoldable pub access_case : Core → Pushed
  access_case c =
      if grows c.access_handlers
      then pushed (record c { access_handlers = c.access_handlers ++ entry access ∷ [] })
      else stopped c

  -- The content phase, for the content handler and the two trackers.
  unfoldable pub content_case : Stage → Core → Pushed
  content_case s c =
      if grows c.content_handlers
      then pushed (record c { content_handlers = c.content_handlers ++ entry s ∷ [] })
      else stopped c

  unfoldable pub log_case : Core → Pushed
  log_case c =
      if grows c.log_handlers
      then pushed (record c { log_handlers = c.log_handlers ++ entry log ∷ [] })
      else stopped c

  -- The loop over the five phases, from its last turn to its first.
  unfoldable pub from_log : MainConf → Core → Pushed
  unfolding log_case
  from_log m c = if m.enabled_log_handler then log_case c else pushed c

  unfoldable pub from_stack : MainConf → Core → Pushed
  unfolding from_log content_case
  from_stack m c = elim (if m.enabled_stack_handler then content_case stack c else pushed c) [
    | stopped d ↦ stopped d
    | pushed d ↦ from_log m d
  ]

  unfoldable pub from_opcode : MainConf → Core → Pushed
  unfolding from_stack content_case
  from_opcode m c = elim (if m.enabled_opcode_handler then content_case opcode c else pushed c) [
    | stopped d ↦ stopped d
    | pushed d ↦ from_stack m d
  ]

  unfoldable pub from_content : MainConf → Core → Pushed
  unfolding from_opcode content_case
  from_content m c = elim (if m.enabled_content_handler then content_case content c else pushed c) [
    | stopped d ↦ stopped d
    | pushed d ↦ from_opcode m d
  ]

  unfoldable pub from_access : MainConf → Core → Pushed
  unfolding from_content access_case
  from_access m c = elim (if m.enabled_access_handler then access_case c else pushed c) [
    | stopped d ↦ stopped d
    | pushed d ↦ from_content m d
  ]

  unfoldable pub from_rewrite : MainConf → Core → Pushed
  unfolding from_access rewrite_case
  from_rewrite m c = elim (if m.enabled_rewrite_handler then rewrite_case c else pushed c) [
    | stopped d ↦ stopped d
    | pushed d ↦ from_access m d
  ]

  unfoldable pub handler_init : MainConf → Core → Pushed
  unfolding from_rewrite post_read_case
  handler_init m c = elim (post_read_case c) [ stopped d ↦ stopped d | pushed d ↦ from_rewrite m d ]

  -- `ngx_http_php_header_filter_init` and `ngx_http_php_body_filter_init` put the module's filter
  -- on top of its chain.
  abbrev pub header_filter_init : Core → Core
  header_filter_init c = record c { header_filters = entry header_filter ∷ c.header_filters }

  abbrev pub body_filter_init : Core → Core
  body_filter_init c = record c { body_filters = entry body_filter ∷ c.body_filters }

  unfoldable pub module_init : MainConf → Core → ℤ × Core
  unfolding handler_init
  module_init m c = elim (handler_init m c) [
    | stopped d ↦ (ngx_error, d)
    | pushed d ↦
        let d' = if m.enabled_header_filter then header_filter_init d else d in
        (ngx_ok, if m.enabled_body_filter then body_filter_init d' else d')
  ]
