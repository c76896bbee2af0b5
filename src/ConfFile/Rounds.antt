-- ===== src/ConfFile/Rounds.antt =====
-- The loop of `ngx_php_conf_parse` runs once, and what its caller is told.
use ngx_php.Prelude.{ℕ, suc, ◌<◌, ◌≡◌, refl, ◌∙◌, true, false, ◌⊎◌, none, some, arith, length}
use ngx_php.Prelude.Codes.{ℤ, ngx_error}
use ngx_php.ConfFile.State.{Bytes, Conf, Env}
use ngx_php.ConfFile.Token.{
  ngx_conf_buffer, ngx_conf_file_done, ngx_conf_block_done, Outcome, returned, out_of_fuel,
  wild_read, Turn, leave, read_on, read_token,
}
use ngx_php.ConfFile.Spec.{Serves, remaining, closing}
use ngx_php.ConfFile.Result.{Starts, Block, read_token-Block}
use ngx_php.ConfFile.Parse.{
  conf_ok, message, Host, Kind, parse_block, leaves, judge, read_rounds, hand_over, parse,
}

-- A code that `ngx_php_conf_read_token` returns.
abbrev pub IsTokenCode : ℤ → Type 0
IsTokenCode rc = (rc ≡ ngx_error) ⊎ ((rc ≡ ngx_conf_block_done) ⊎ (rc ≡ ngx_conf_file_done))

abbrev HasTokenCode : Outcome → Type 0
HasTokenCode (returned rc d) = IsTokenCode rc
HasTokenCode out_of_fuel = Unit
HasTokenCode wild_read = Unit

abbrev LeavesWithTokenCode : Turn → Type 0
LeavesWithTokenCode (leave rc d) = IsTokenCode rc
LeavesWithTokenCode (read_on d) = Unit

read_rounds-returned :
    (e : Env) (kind : Kind) (fuel : ℕ) (c d d' : Conf) (rc rc' : ℤ)
    → read_token e c ≡ returned rc d
    → judge kind rc d ≡ leaves rc' d'
    → read_rounds e kind (suc fuel) c ≡ some (rc', d')
unfolding read_rounds
read_rounds-returned e kind fuel c d d' rc rc' h j = ground (arith, h, j)

module _ (h : Host) (e : Env) (file : Bytes) (s : Serves e file) (c : Conf)
    (b : Starts file c) where
  module _ (body rest : Bytes) (text : closing 0 (remaining file c) ≡ some (body, rest))
      (small : length body < ngx_conf_buffer) (p1 : e.ngx_array_push_succeeds ≡ true)
      (p2 : e.ngx_pnalloc_succeeds ≡ true) where
    -- The reader's own result beside the parser's.
    pub parse-run :
        (fuel : ℕ)
        → c.fd_is_invalid ≡ false
        → (d : Conf) × (read_token e c ≡ returned ngx_conf_block_done d)
          × Block e file c d body rest
          × (parse h e (suc fuel) none c ≡ some (hand_over h ngx_conf_block_done d))
    unfolding parse judge
    parse-run fuel v =
        let (d, run, block) = read_token-Block e file s c b body rest text small p1 p2 in
        (
          d,
          run,
          block,
          ground (
            arith,
            v,
            read_rounds-returned e parse_block fuel c d d ngx_conf_block_done ngx_conf_block_done
                run refl,
          ),
        )

    -- Over a file that the environment serves with its size and with whole reads inside it, and a
    -- buffer of 4096 bytes, where memory is found and the configuration comes from a file: a block
    -- of fewer than 4096 bytes that closes reaches the directive's handler as one argument with
    -- the reader behind its brace, and the result is the handler's.
    pub parse-Block :
        (fuel : ℕ)
        → c.fd_is_invalid ≡ false
        → (d : Conf) × Block e file c d body rest
          × (parse h e (suc fuel) none c ≡ some (hand_over h ngx_conf_block_done d))
    parse-Block fuel v = let (d, run, block, parsed) = parse-run fuel v in (d, block, parsed)

    -- Under the conditions of `parse-Block`: when the directive's handler always refuses with a
    -- text, such as "is duplicated", the parser still answers NGX_CONF_OK.
    pub parse-message :
        (fuel : ℕ) (reason : Bytes)
        → c.fd_is_invalid ≡ false
        → ((d : Conf) → (h.handler d).0 ≡ message reason)
        → (d : Conf) × (parse h e (suc fuel) none c ≡ some (conf_ok, d))
    unfolding hand_over
    parse-message fuel reason v refuses =
        let (d, block, run) = parse-Block fuel v in
        ((h.handler d).1, run ∙ ground (arith, refuses d))
