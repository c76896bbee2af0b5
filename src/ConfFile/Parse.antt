-- ===== src/ConfFile/Parse.antt =====
-- `ngx_php_conf_parse` of src/ngx_php_conf_file.c: it opens a file or goes on in the current one,
-- reads one token, and hands it to the directive's handler.
use ngx_php.Prelude.{ℕ, zero, suc, Bool, true, false, Option, none, some, [], if◌then◌else◌}
use ngx_php.Prelude.Codes.{ℤ, ◌==ℤ◌, ngx_error}
use ngx_php.ConfFile.State.{
  Bytes, Conf, Env, log_error, open_failed, stat_failed, close_failed, unexpected_close,
  eof_in_block, block_in_option,
}
use ngx_php.ConfFile.Token.{
  returned, out_of_fuel, wild_read, read_token, ngx_conf_buffer, ngx_conf_block_start,
  ngx_conf_block_done, ngx_conf_file_done,
}

-- What a `char *` of nginx's configuration functions says: NGX_CONF_OK, NGX_CONF_ERROR or a text.
pub data Reply : Type 0 where
  conf_ok conf_error : Reply
  message : Bytes → Reply

-- What the parser is given: nginx's files and memory, and `cf->handler`. `stack_dump` is what the
-- `dump` field of the local `conf_file` holds before anything is stored there.
pub record Host : Type 0 where
  pub ngx_open_file : Bytes → Option Env
  pub ngx_fd_info_succeeds : Bool
  pub ngx_alloc_succeeds : Bool
  pub ngx_close_file_succeeds : Bool
  pub ngx_dump_config : Bool
  pub stack_dump : Option Bytes
  pub handler : Conf → Reply × Conf

pub data Kind : Type 0 where
  parse_file parse_block parse_param : Kind

-- One round of the loop: it leaves with a code, or reads another token.
pub data Round : Type 0 where
  leaves : ℤ → Conf → Round
  repeats : Conf → Round

-- `type == parse_block`, `type == parse_param`
is_block : Kind → Bool
is_block parse_block = true
is_block _ = false

is_param : Kind → Bool
is_param parse_param = true
is_param _ = false

unfoldable pub judge : Kind → ℤ → Conf → Round
unfolding is_block is_param
judge kind rc c =
    if rc ==ℤ ngx_error
    then leaves rc c
    else if rc ==ℤ ngx_conf_block_done
    then (if is_block kind then leaves rc c else leaves ngx_error (log_error unexpected_close c))
    else if rc ==ℤ ngx_conf_file_done
    then (if is_block kind then leaves ngx_error (log_error eof_in_block c) else leaves rc c)
    else if rc ==ℤ ngx_conf_block_start
    then (if is_param kind then leaves ngx_error (log_error block_in_option c) else repeats c)
    else repeats c

-- `for ( ;; )`; `none` if the fuel runs out, or the reader never returns.
unfoldable pub read_rounds : Env → Kind → ℕ → Conf → Option (ℤ × Conf)
unfolding judge
read_rounds e kind zero c = none
read_rounds e kind (suc fuel) c = elim (read_token e c) [
  | out_of_fuel ↦ none
  | wild_read ↦ none
  | returned rc d ↦ elim (judge kind rc d) [
    | leaves rc' d' ↦ some (rc', d')
    | repeats d' ↦ read_rounds e kind fuel d'
  ]
]

-- The local `conf_file` and `buf`, as set up for an opened file.
opened : Host → Conf → Conf
opened h c =
    let d = record c {
      held = [];
      ahead = [];
      capacity = ngx_conf_buffer;
      offset = 0;
      line = 1;
      dump = if h.ngx_dump_config then h.stack_dump else none;
      fd_is_invalid = false;
    } in
    if h.ngx_fd_info_succeeds then d else log_error stat_failed d

-- `cf->conf_file = prev`, and the error of a file that cannot be closed.
closed : Host → Conf → ℤ → Conf → ℤ × Conf
closed h prev rc c =
    let back = record c {
      held = prev.held;
      ahead = prev.ahead;
      capacity = prev.capacity;
      offset = prev.offset;
      line = prev.line;
      dump = prev.dump;
      fd_is_invalid = prev.fd_is_invalid;
    } in
    if h.ngx_close_file_succeeds then (rc, back) else (ngx_error, log_error close_failed back)

-- The end of the function: the handler is called on every path that comes here.
unfoldable pub hand_over : Host → ℤ → Conf → Reply × Conf
hand_over h rc c =
    let (rv, d) = h.handler c in
    elim rv [
      | conf_error ↦ (conf_error, d)
      | conf_ok ↦ (if rc ==ℤ ngx_error then conf_error else conf_ok, d)
      | message text ↦ (if rc ==ℤ ngx_error then conf_error else conf_ok, d)
    ]

after_rounds : (ℤ → Conf → ℤ × Conf) → Host → Option (ℤ × Conf) → Option (Reply × Conf)
after_rounds close h none = none
after_rounds close h (some (rc, c)) = some (let (rc', d) = close rc c in hand_over h rc' d)

parse_opened : Host → ℕ → Conf → Env → Option (Reply × Conf)
unfolding opened closed
parse_opened h fuel c e =
    if h.ngx_alloc_succeeds
    then after_rounds (closed h c) h (read_rounds e parse_file fuel (opened h c))
    else some (let (rc, d) = closed h c ngx_error (opened h c) in hand_over h rc d)

unfoldable pub kind_of : Conf → Kind
kind_of c = if c.fd_is_invalid then parse_param else parse_block

-- The function; `e` is the file that `cf->conf_file` stands for.
unfoldable pub parse : Host → Env → ℕ → Option Bytes → Conf → Option (Reply × Conf)
unfolding after_rounds parse_opened kind_of
parse h e fuel none c = after_rounds (λ rc d. (rc, d)) h (read_rounds e (kind_of c) fuel c)
parse h e fuel (some filename) c = elim (h.ngx_open_file filename) [
  | none ↦ some (conf_error, log_error open_failed c)
  | some file ↦ parse_opened h fuel c file
]
