-- ===== src/ConfFile/Frame.antt =====
-- The reader of src/ngx_php_conf_file.c leaves the module's configurations as they are.
use ngx_php.Prelude.{ℕ, zero, suc, ◌≡◌, refl, [], ◌∷◌, arith}
use ngx_php.Prelude.Codes.{ℤ}
use ngx_php.Directive.State.{PhpConf}
use ngx_php.ConfFile.State.{Bytes, Conf, Env}
use ngx_php.ConfFile.Token.{
  Outcome, returned, out_of_fuel, wild_read, Turn, leave, read_on, ensure, refill, block_done, scan,
  read_token,
}

abbrev Leaves : PhpConf → Outcome → Type 0
Leaves p (returned rc d) = d.php_conf ≡ p
Leaves p out_of_fuel = Unit
Leaves p wild_read = Unit

abbrev LeavesTurn : PhpConf → Turn → Type 0
LeavesTurn p (leave rc d) = d.php_conf ≡ p
LeavesTurn p (read_on d) = d.php_conf ≡ p

ensure-LeavesTurn :
    (e : Env) (l : ℕ) (c : Conf) (xs : Bytes) → LeavesTurn c.php_conf (ensure e l c xs)
unfolding ensure refill
ensure-LeavesTurn e l c [] = ground arith
ensure-LeavesTurn e l c (x ∷ xs) = refl

block_done-Leaves : (e : Env) (c : Conf) → Leaves c.php_conf (block_done e c)
unfolding block_done
block_done-Leaves e c = ground arith

scan-Leaves :
    (e : Env) (l fuel deep : ℕ) (c : Conf) (p : PhpConf)
    → c.php_conf ≡ p
    → Leaves p (scan e l fuel deep c)
unfolding scan
scan-Leaves e l zero deep c p h = tt
scan-Leaves e l (suc fuel) deep c p h =
    grind (arith, h, ensure-LeavesTurn e l c c.ahead, scan-Leaves e l fuel, block_done-Leaves e)

read_token-Leaves : (e : Env) (c : Conf) → Leaves c.php_conf (read_token e c)
unfolding read_token
read_token-Leaves e c = scan-Leaves e _ _ 0 _ _ refl

-- A block or an error, whatever the reader returns: the module's configurations are the same.
pub read_token-php_conf :
    (e : Env) (c d : Conf) (rc : ℤ) → read_token e c ≡ returned rc d → d.php_conf ≡ c.php_conf
read_token-php_conf e c d rc h = rw h at (read_token-Leaves e c)
