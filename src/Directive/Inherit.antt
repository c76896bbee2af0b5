-- ===== src/Directive/Inherit.antt =====
-- What a location has after `ngx_http_php_merge_loc_conf` of src/ngx_http_php_module.c.
use ngx_php.Prelude.{ℕ, ◌≡◌, Bool, true, false, none, arith, List}
use ngx_php.Directive.State.{Bytes, Stage, opcode, stack, MainConf, LocConf, PhpConf}
use ngx_php.Directive.Ready.{
  FindsAt, IsReady, Enabled, IsEnabled, handler_of, inline_of, enabled_of,
}
use ngx_php.Directive.Setters.{set_once, with_post}
use ngx_php.Directive.Commands.{
  Command, rewrite_by_php_file, access_by_php_file, content_by_php_file, setter, Line, configure,
}
use ngx_php.Directive.Keep.{All, configure-keeps, NoLogBlock, configure-IsReady}
use ngx_php.Directive.Merge.{create_loc_conf, merge_loc_conf}

-- The stages whose handler a location inherits.
abbrev pub is_phase : Stage → Bool
is_phase opcode = false
is_phase stack = false
is_phase _ = true

abbrev pub IsReadyInPhases : LocConf → Type 0
IsReadyInPhases c = (s : Stage) → is_phase s ≡ true → FindsAt s c

merge-FindsAt :
    (root : Bytes) (n : ℕ) (prev conf : LocConf) (s : Stage)
    → (is_phase s ≡ true → FindsAt s prev)
    → FindsAt s conf
    → FindsAt s (merge_loc_conf root n prev conf).1
unfolding merge_loc_conf
merge-FindsAt root n prev conf s p c = ground arith

merge-parent_FindsAt :
    (root : Bytes) (n : ℕ) (prev conf : LocConf) (s : Stage)
    → is_phase s ≡ true
    → FindsAt s prev
    → FindsAt s (merge_loc_conf root n prev conf).0
unfolding merge_loc_conf
merge-parent_FindsAt root n prev conf s p c = ground arith

pub merge-Enabled :
    (root : Bytes) (n : ℕ) (m : MainConf) (prev conf : LocConf) (s : Stage)
    → Enabled (handler_of s prev) (enabled_of s m)
    → Enabled (handler_of s conf) (enabled_of s m)
    → let (prev', conf') = merge_loc_conf root n prev conf in
      Enabled (handler_of s prev') (enabled_of s m) × Enabled (handler_of s conf') (enabled_of s m)
unfolding merge_loc_conf
merge-Enabled root n m prev conf s p c = ground arith

pub created-IsReady : IsReady create_loc_conf
unfolding create_loc_conf
created-IsReady s = ground arith

created-no_inline : (s : Stage) → inline_of s create_loc_conf ≡ none
unfolding create_loc_conf
created-no_inline s = ground arith

pub created-IsEnabled : (m : MainConf) → IsEnabled m create_loc_conf
unfolding create_loc_conf
created-IsEnabled m s = ground arith

-- Without `log_by_php_block`: a location that is filled by any run of directives and then merged
-- into a parent whose six phases are ready (a handler for files has a file and no block, one for
-- blocks has a block, each of its own phase, and a phase without a handler has no block) is ready
-- in all phases and in both trackers, and the parent's six phases stay ready for the next
-- location.
pub merged-IsReady :
    (root : Bytes) (n : ℕ) (ls : List Line) (m : MainConf) (prev : LocConf)
    → NoLogBlock ls
    → IsReadyInPhases prev
    → let (_, p) = configure ls (record { main = m; loc = create_loc_conf }) in
      let (prev', conf') = merge_loc_conf root n prev p.loc in IsReady conf' × IsReadyInPhases prev'
merged-IsReady root n ls m prev other r =
    let p : PhpConf = record { main = m; loc = create_loc_conf } in
    let q = configure-IsReady ls p other created-IsReady in
    (
      λ s. merge-FindsAt root n prev (configure ls p).1.loc s (r s) (q s),
      λ s phase. merge-parent_FindsAt root n prev (configure ls p).1.loc s phase (r s phase),
    )

abbrev pub IsFileCommand : Command → Type 0
IsFileCommand rewrite_by_php_file = Unit
IsFileCommand access_by_php_file = Unit
IsFileCommand content_by_php_file = Unit
IsFileCommand _ = ⊥

-- `rewrite_by_php_file`, `access_by_php_file` or `content_by_php_file`.
abbrev pub IsFileLine : Line → Type 0
IsFileLine l = IsFileCommand l.command

setter-no_inline :
    (l : Line) (p : PhpConf) (s : Stage)
    → IsFileLine l
    → inline_of s p.loc ≡ none
    → inline_of s (setter l.command l.memory l.args p).1.loc ≡ none
unfolding setter set_once with_post
setter-no_inline l p s f h = ground arith

configure-no_inline :
    (ls : List Line) (m : MainConf) (s : Stage)
    → All IsFileLine ls
    → inline_of s (configure ls (record { main = m; loc = create_loc_conf })).1.loc ≡ none
configure-no_inline ls m s f =
    configure-keeps (λ p. inline_of s p.loc ≡ none) IsFileLine
      (λ l p a q. setter-no_inline l p s a q) ls _ f (created-no_inline s)

merge-no_inline :
    (root : Bytes) (n : ℕ) (prev conf : LocConf) (s : Stage)
    → is_phase s ≡ true
    → inline_of s conf ≡ none
    → let (_, conf') = merge_loc_conf root n prev conf in
      (handler_of s conf' ≡ handler_of s prev) × (inline_of s conf' ≡ inline_of s prev)
unfolding merge_loc_conf
merge-no_inline root n prev conf s phase h = ground arith

-- A location whose directives are all `*_by_php_file`, in any number, has after the merge in each
-- of the six phases the handler and the block of its parent: its own file is never run, unless
-- the parent's handler is the one for files.
pub merged-loses_files :
    (root : Bytes) (n : ℕ) (ls : List Line) (m : MainConf) (prev : LocConf) (s : Stage)
    → is_phase s ≡ true
    → All IsFileLine ls
    → let (_, p) = configure ls (record { main = m; loc = create_loc_conf }) in
      let (_, conf') = merge_loc_conf root n prev p.loc in
      (handler_of s conf' ≡ handler_of s prev) × (inline_of s conf' ≡ inline_of s prev)
merged-loses_files root n ls m prev s phase f =
    merge-no_inline root n prev _ s phase (configure-no_inline ls m s f)

-- A tracker is not inherited: the child keeps its own handler and block. The parent keeps its
-- handler, while its block becomes the child's, so a child without one takes it away.
pub merge-trackers :
    (root : Bytes) (n : ℕ) (prev conf : LocConf) (s : Stage)
    → is_phase s ≡ false
    → let (prev', conf') = merge_loc_conf root n prev conf in
      (handler_of s conf' ≡ handler_of s conf)
      × (inline_of s conf' ≡ inline_of s conf)
      × (inline_of s prev' ≡ inline_of s conf)
      × (handler_of s prev' ≡ handler_of s prev)
unfolding merge_loc_conf
merge-trackers root n prev conf s t = ground arith
