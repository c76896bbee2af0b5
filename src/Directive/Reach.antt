-- ===== src/Directive/Reach.antt =====
-- nginx reaches every handler that a location has.
use ngx_php.Prelude.{
  ◌≡◌, refl, ◌≢◌, Bool, true, false, Option, none, some, List, [], ◌∷◌, ◌++◌, arith, ℕ,
}
use ngx_php.Prelude.Codes.{ngx_ok}
use ngx_php.Directive.State.{
  Bytes, Stage, rewrite, access, content, log, opcode, stack, header_filter, body_filter, MainConf,
  LocConf, HandlerPt,
}
use ngx_php.Directive.Ready.{Enabled, IsEnabled, handler_of, enabled_of}
use mathlib.Core.List.{Memᴰ}
use mathlib.Core.List.Memᴰ
use ngx_php.Directive.Commands.{Line, configure}
use ngx_php.Directive.Keep.{configure-IsEnabled, configure-monotone}
use ngx_php.Directive.Merge.{create_main_conf, create_loc_conf, merge_loc_conf}
use ngx_php.Directive.Inherit.{created-IsEnabled, merge-Enabled}
use ngx_php.Directive.Register.{
  Entry, post_read_entry, entry, Core, from_rewrite, from_access, from_content, from_opcode,
  from_stack, from_log, handler_init, module_init, post_read_case, rewrite_case, access_case,
  content_case, log_case,
}

-- The entries that nginx calls for a stage.
abbrev pub entries : Stage → Core → List Entry
entries rewrite c = c.rewrite_handlers
entries access c = c.access_handlers
entries content c = c.content_handlers
entries opcode c = c.content_handlers
entries stack c = c.content_handlers
entries log c = c.log_handlers
entries header_filter c = c.header_filters
entries body_filter c = c.body_filters

abbrev pub added : Bool → Entry → List Entry → List Entry
added true e es = es ++ e ∷ []
added false e es = es

abbrev pub on_top : Bool → Entry → List Entry → List Entry
on_top true e es = e ∷ es
on_top false e es = es

-- What the start makes of each array and of the filters.
abbrev pub expected : MainConf → Core → Core
expected m c = record {
  post_read_handlers = c.post_read_handlers ++ post_read_entry ∷ [];
  rewrite_handlers = added m.enabled_rewrite_handler (entry rewrite) c.rewrite_handlers;
  access_handlers = added m.enabled_access_handler (entry access) c.access_handlers;
  content_handlers = added m.enabled_stack_handler (entry stack) (
      added m.enabled_opcode_handler (entry opcode)
        (added m.enabled_content_handler (entry content) c.content_handlers));
  log_handlers = added m.enabled_log_handler (entry log) c.log_handlers;
  header_filters = on_top m.enabled_header_filter (entry header_filter) c.header_filters;
  body_filters = on_top m.enabled_body_filter (entry body_filter) c.body_filters;
}

module_init-expected :
    (m : MainConf) (c : Core) → module_init (λ _. true) m c ≡ (ngx_ok, expected m c)
unfolding module_init handler_init post_read_case rewrite_case access_case content_case log_case
    from_rewrite from_access from_content from_opcode from_stack from_log
module_init-expected m c = ground arith

added-Mem : (b : Bool) (e : Entry) (es : List Entry) → b ≡ true → Memᴰ e (added b e es)
added-Mem b e es h = rw h (Memᴰ.append_right es (Memᴰ.head refl))

added-keeps : (b : Bool) (e f : Entry) (es : List Entry) → Memᴰ e es → Memᴰ e (added b f es)
added-keeps true e f es h = Memᴰ.append_left _ h
added-keeps false e f es h = h

on_top-Mem : (b : Bool) (e : Entry) (es : List Entry) → b ≡ true → Memᴰ e (on_top b e es)
on_top-Mem b e es h = rw h (Memᴰ.head refl)

enabled-Mem :
    (m : MainConf) (c : Core) (s : Stage)
    → enabled_of s m ≡ true
    → Memᴰ (entry s) (entries s (expected m c))
enabled-Mem m c rewrite h = added-Mem m.enabled_rewrite_handler _ c.rewrite_handlers h
enabled-Mem m c access h = added-Mem m.enabled_access_handler _ c.access_handlers h
enabled-Mem m c content h = added-keeps m.enabled_stack_handler _ (entry stack) _ (
    added-keeps m.enabled_opcode_handler _ (entry opcode) _
      (added-Mem m.enabled_content_handler _ c.content_handlers h))
enabled-Mem m c opcode h = added-keeps m.enabled_stack_handler _ (entry stack) _ (
    added-Mem m.enabled_opcode_handler _
      (added m.enabled_content_handler (entry content) c.content_handlers) h)
enabled-Mem m c stack h =
    added-Mem m.enabled_stack_handler _
      (added m.enabled_opcode_handler (entry opcode)
        (added m.enabled_content_handler (entry content) c.content_handlers))
      h
enabled-Mem m c log h = added-Mem m.enabled_log_handler _ c.log_handlers h
enabled-Mem m c header_filter h = on_top-Mem m.enabled_header_filter _ c.header_filters h
enabled-Mem m c body_filter h = on_top-Mem m.enabled_body_filter _ c.body_filters h

-- A location `own` under a parent, with directives `others` of other places behind it: the main
-- configuration at the end, and the location as it is merged. The configuration `away` is that of
-- the other place.
unfoldable pub located :
    Bytes → ℕ → List Line → List Line → LocConf → List Line → MainConf × LocConf
located root n parent own away others =
    let (_, p) = configure parent (record { main = create_main_conf; loc = create_loc_conf }) in
    let (_, q) = configure own (record { main = p.main; loc = create_loc_conf }) in
    let (_, z) = configure others (record { main = q.main; loc = away }) in
    (z.main, (merge_loc_conf root n p.loc q.loc).1)

Enabled-later :
    (o : Option HandlerPt) (b b' : Bool) → (b ≡ true → b' ≡ true) → Enabled o b → Enabled o b'
Enabled-later none b b' later e = e
Enabled-later (some h) b b' later e = later e

located-IsEnabled :
    (root : Bytes) (n : ℕ) (parent own : List Line) (away : LocConf) (others : List Line)
    → let (m, c) = located root n parent own away others in IsEnabled m c
unfolding located
located-IsEnabled root n parent own away others s =
    let p = configure parent (record { main = create_main_conf; loc = create_loc_conf }) in
    let q = configure own (record { main = p.1.main; loc = create_loc_conf }) in
    let later = λ (e : enabled_of s q.1.main ≡ true).
      configure-monotone others (record { main = q.1.main; loc = away }) s e in
    let on_parent =
      configure-IsEnabled parent (record { main = create_main_conf; loc = create_loc_conf })
        (created-IsEnabled create_main_conf) s in
    let on_own =
      configure-IsEnabled own (record { main = p.1.main; loc = create_loc_conf })
        (created-IsEnabled p.1.main) s in
    (merge-Enabled root n _ p.1.loc q.1.loc s
      (Enabled-later _ _ _ (λ e. later (configure-monotone own _ s e)) on_parent)
      (Enabled-later _ _ _ later on_own)).1

Enabled-set : (o : Option HandlerPt) (b : Bool) → o ≢ none → Enabled o b → b ≡ true
Enabled-set none b h e = absurd (h refl)
Enabled-set (some x) b h e = e

-- When memory is found, whatever other modules have registered: for any runs of directives of the
-- parent, the location, and of other places behind it, if the location has after the merge a
-- handler for a phase, a tracker or a filter, then the start of the module answers NGX_OK and the
-- module's entry for it stands in nginx's list for that phase or filter.
pub located-reached :
    (root : Bytes) (n : ℕ) (parent own : List Line) (away : LocConf) (others : List Line)
    (core : Core) (s : Stage)
    → handler_of s (located root n parent own away others).1 ≢ none
    → let (rc, core') = module_init (λ _. true) (located root n parent own away others).0 core in
      (rc ≡ ngx_ok) × Memᴰ (entry s) (entries s core')
located-reached root n parent own away others core s h =
    rw (module_init-expected (located root n parent own away others).0 core) (
      refl,
      enabled-Mem _ core s (Enabled-set _ _ h (located-IsEnabled root n parent own away others s)),
    )
