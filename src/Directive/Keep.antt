-- ===== src/Directive/Keep.antt =====
-- What every directive of src/ngx_http_php_directive.c keeps, one by one and in a run of them.
use ngx_php.Prelude.{subst, sym, ◌∙◌, ◌≡◌, refl, ◌≢◌, none, arith, true, List, [], ◌∷◌}
use ngx_php.Directive.State.{Stage, PhpConf}
use ngx_php.Directive.Ready.{FindsAt, IsReady, Enabled, IsEnabled, handler_of, enabled_of}
use ngx_php.Directive.Setters.{Args, set_once, with_post}
use ngx_php.Directive.Code.{Memory}
use ngx_php.Directive.Commands.{Command, log_by_php_block, setter, Line, apply, go_on, configure}
use ngx_php.ConfFile.Parse.{Reply, conf_ok, conf_error, message}

setter-FindsAt :
    (k : Command) (m : Memory) (args : Args) (p : PhpConf) (s : Stage)
    → k ≢ log_by_php_block
    → FindsAt s p.loc
    → FindsAt s (setter k m args p).1.loc
unfolding setter set_once with_post
setter-FindsAt k m args p s other r = ground arith

setter-Enabled :
    (k : Command) (m : Memory) (args : Args) (p : PhpConf) (s : Stage)
    → Enabled (handler_of s p.loc) (enabled_of s p.main)
    → let (_, q) = setter k m args p in Enabled (handler_of s q.loc) (enabled_of s q.main)
unfolding setter set_once with_post
setter-Enabled k m args p s r = ground arith

setter-monotone :
    (k : Command) (m : Memory) (args : Args) (p : PhpConf) (s : Stage)
    → enabled_of s p.main ≡ true
    → enabled_of s (setter k m args p).1.main ≡ true
unfolding setter set_once with_post
setter-monotone k m args p s r = ground arith

setter-refuses :
    (k : Command) (m : Memory) (args : Args) (p : PhpConf)
    → (setter k m args p).0 ≢ conf_ok
    → (setter k m args p).1 ≡ p
unfolding setter set_once with_post
setter-refuses k m args p r = ground arith

setter-first :
    (k : Command) (m : Memory) (args : Args) (p : PhpConf) (s : Stage)
    → handler_of s p.loc ≢ none
    → handler_of s (setter k m args p).1.loc ≡ handler_of s p.loc
unfolding setter set_once with_post
setter-first k m args p s r = ground arith

-- A condition on every directive of a run.
abbrev pub All : (Line → Type 0) → List Line → Type 0
All A [] = Unit
All A (l ∷ ls) = A l × All A ls

go_on-keeps :
    (Q : PhpConf → Type 0) (rest : PhpConf → Reply × PhpConf) (r : Reply × PhpConf)
    → Q r.1
    → ((p : PhpConf) → Q p → Q (rest p).1)
    → Q (go_on rest r).1
unfolding go_on
go_on-keeps Q rest (conf_ok, p) q keeps = keeps p q
go_on-keeps Q rest (conf_error, p) q keeps = q
go_on-keeps Q rest (message text, p) q keeps = q

-- What each allowed directive keeps, a run of them keeps.
pub configure-keeps :
    (Q : PhpConf → Type 0) (A : Line → Type 0)
    → ((l : Line) (p : PhpConf) → A l → Q p → Q (setter l.command l.memory l.args p).1)
    → (ls : List Line) (p : PhpConf) → All A ls
    → Q p
    → Q (configure ls p).1
unfolding configure apply
configure-keeps Q A step [] p all q = q
configure-keeps Q A step (l ∷ ls) p all q =
    go_on-keeps Q (configure ls) (apply l p) (step l p all.0 q)
      (λ p' q'. configure-keeps Q A step ls p' all.1 q')

lines-All : (ls : List Line) → All (λ _. Unit) ls
lines-All [] = tt
lines-All (l ∷ ls) = (tt, lines-All ls)

-- No directive of the run is `log_by_php_block`.
abbrev pub NoLogBlock : List Line → Type 0
NoLogBlock = All (λ l. l.command ≢ log_by_php_block)

-- Any run of directives without `log_by_php_block`, refused ones among them or not, takes a
-- location whose handlers find the code they run to one whose handlers do: a stage with a
-- handler for files has a file and no block, one with a handler for blocks has a block, both of
-- that same stage, and a stage without a handler has no block.
pub configure-IsReady :
    (ls : List Line) (p : PhpConf) → NoLogBlock ls → IsReady p.loc → IsReady (configure ls p).1.loc
configure-IsReady ls p none_logs r =
    configure-keeps (λ p. IsReady p.loc) (λ l. l.command ≢ log_by_php_block)
      (λ l p other q s. setter-FindsAt l.command l.memory l.args p s other (q s)) ls p none_logs r

pub configure-IsEnabled :
    (ls : List Line) (p : PhpConf)
    → IsEnabled p.main p.loc
    → let (_, q) = configure ls p in IsEnabled q.main q.loc
configure-IsEnabled ls p e =
    configure-keeps (λ p. IsEnabled p.main p.loc) (λ _. Unit)
      (λ l p _ q s. setter-Enabled l.command l.memory l.args p s (q s)) ls p (lines-All ls) e

pub configure-monotone :
    (ls : List Line) (p : PhpConf) (s : Stage)
    → enabled_of s p.main ≡ true
    → enabled_of s (configure ls p).1.main ≡ true
configure-monotone ls p s e =
    configure-keeps (λ p. enabled_of s p.main ≡ true) (λ _. Unit)
      (λ l p _ q. setter-monotone l.command l.memory l.args p s q) ls p (lines-All ls) e

pub configure-first :
    (ls : List Line) (p : PhpConf) (s : Stage)
    → handler_of s p.loc ≢ none
    → handler_of s (configure ls p).1.loc ≡ handler_of s p.loc
configure-first ls p s h =
    configure-keeps (λ q. handler_of s q.loc ≡ handler_of s p.loc) (λ _. Unit)
      (λ l q _ e. setter-first l.command l.memory l.args q s (subst (λ o. o ≢ none) (sym e) h) ∙ e)
      ls p (lines-All ls) refl
