-- ===== src/ConfFile/Token.antt =====
-- `ngx_php_conf_read_token` of src/ngx_php_conf_file.c: the loop that collects the text up to the
-- first brace that closes nothing, through a buffer that is refilled from the file.
use mathlib.Core.Option
use ngx_php.Prelude.{
  ℕ, zero, suc, ◌+◌, ◌-◌, Option, none, some, [], ◌∷◌, ◌++◌, ltb, leb, ◌==◌, if◌then◌else◌, length,
}
use ngx_php.Prelude.Codes.{ℤ, pos, ngx_error}
use ngx_php.ConfFile.State.{
  Bytes, Conf, Env, log_error, eof_in_parameter, eof_in_directive, too_long, short_read,
}

abbrev pub ngx_conf_block_start : ℤ
ngx_conf_block_start = pos 1

abbrev pub ngx_conf_block_done : ℤ
ngx_conf_block_done = pos 2

abbrev pub ngx_conf_file_done : ℤ
ngx_conf_file_done = pos 3

abbrev pub ngx_conf_buffer : ℕ
ngx_conf_buffer = 4096

-- `wild_read`: the code would read at b->last, past the bytes of the buffer.
pub data Outcome : Type 0 where
  returned : ℤ → Conf → Outcome
  out_of_fuel wild_read : Outcome

-- What one turn of the loop does next.
pub data Turn : Type 0 where
  leave : ℤ → Conf → Turn
  read_on : Conf → Turn

-- The file is at its end.
at_end : Conf → Turn
at_end c =
    if ltb 0 c.nelts
    then leave ngx_error
        (log_error (if c.fd_is_invalid then eof_in_parameter else eof_in_directive) c)
    else leave ngx_conf_file_done c

-- The bytes that a refill asks for.
unfoldable pub refill_size : Env → Conf → ℕ
refill_size e c =
    let left = e.file_size - c.offset in
    let room = c.capacity - length c.held in if ltb room left then room else left

-- What `ngx_read_file` returned for a request of `size` bytes.
accept : ℕ → Conf → Option (Bytes × ℕ) → Turn
accept size c none = leave ngx_error c
accept size c (some (chunk, offset)) =
    if length chunk == size
    then read_on
        (record c { ahead = chunk; offset = offset; dump = Option.map (λ d. d ++ chunk) c.dump })
    else leave ngx_error (log_error short_read (record c { offset = offset }))

-- `if (b->pos >= b->last)`
unfoldable pub refill : Env → ℕ → Conf → Turn
unfolding at_end accept
refill e start_line c =
    if leb e.file_size c.offset
    then at_end c
    else if length c.held == ngx_conf_buffer
    then leave ngx_error (log_error too_long (record c { line = start_line }))
    else accept (refill_size e c) c (e.ngx_read_file (refill_size e c) c.offset)

unfoldable pub ensure : Env → ℕ → Conf → Bytes → Turn
unfolding refill
ensure e start_line c [] = refill e start_line c
ensure e start_line c (ch ∷ rest) = read_on c

-- `ngx_array_push`, `ngx_pnalloc` and `ngx_cpystrn` at the closing brace.
unfoldable pub block_done : Env → Conf → Outcome
block_done e c =
    if e.ngx_array_push_succeeds
    then (let pushed = record c { nelts = suc c.nelts } in
        if e.ngx_pnalloc_succeeds
        then returned ngx_conf_block_done (record pushed {
          elts = λ i.
              if i == c.nelts
              then record { text = e.ngx_cpystrn c.held (length c.held); len = length c.held }
              else c.elts i;
        })
        else returned ngx_error pushed)
    else returned ngx_error c

-- `ch = *b->pos++`
abbrev pub take_byte : Conf → ℕ → Bytes → Conf
take_byte c ch rest = record c { held = c.held ++ ch ∷ []; ahead = rest }

-- The loop. `deep` is the number of open braces.
unfoldable pub scan : Env → ℕ → ℕ → ℕ → Conf → Outcome
unfolding ensure
scan e start_line zero deep c = out_of_fuel
scan e start_line (suc fuel) deep c = elim (ensure e start_line c c.ahead) [
  | leave rc d ↦ returned rc d
  | read_on d ↦ elim d.ahead [
    | [] ↦ wild_read
    | ch ∷ rest ↦
        let d' = take_byte d ch rest in
        let after_line = scan e start_line fuel deep (record d' { line = suc d'.line }) in
        let deeper = scan e start_line fuel (suc deep) d' in
        let shallower = scan e start_line fuel (deep - 1) d' in
        let other = scan e start_line fuel deep d' in
        if ch == b'\n'
        then after_line
        else if ch == b'{'
        then deeper
        else if ch == b'}'
        then (if deep == 0 then block_done e d' else shallower)
        else other
  ]
]

-- The function: `cf->args->nelts = 0`, `start = b->pos`, `start_line = line`, `deep = 0`, then the
-- loop, with a fuel of one turn for each byte that is left and one more.
unfoldable pub read_token : Env → Conf → Outcome
read_token e c =
    scan e c.line (suc (length c.ahead + (e.file_size - c.offset))) 0
      (record c { nelts = 0; held = [] })
