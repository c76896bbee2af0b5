-- ===== src/ConfFile/Result.antt =====
-- What `ngx_php_conf_read_token` of src/ngx_php_conf_file.c returns, for every text in its file.
use ngx_php.Prelude.{
  suc, ◌+◌, ◌-◌, ◌≤◌, ◌<◌, ◌≡◌, refl, ap, ◌∙◌, true, inl, inr, none, some, [], ◌∷◌, ◌++◌, arith,
  length, length-append, length-drop, drop, ◌==◌, if◌then◌else◌, Option-cases, Bool-cases,
}
use native.Mathlib.Decide.{dec_lt, dec_le}
use ngx_php.Prelude.Codes.{ℤ, ngx_error}
use ngx_php.ConfFile.State.{Bytes, Conf, Env}
use ngx_php.ConfFile.Token.{
  ngx_conf_buffer, ngx_conf_file_done, ngx_conf_block_done, returned, block_done, read_token,
}
use ngx_php.ConfFile.Spec.{Serves, remaining, closing, extent, count_lines, IsNulFree}
use ngx_php.ConfFile.Inversion.{extent-closing, extent-closing-none}
use ngx_php.ConfFile.Steps.{Fits}
use ngx_php.ConfFile.Refine.{Stops, GivesUp, scan-found, scan-missing, scan-overlong}

-- The state in which nginx hands its configuration file over.
pub record Starts (file : Bytes) (c : Conf) : Type 0 where
  pub whole : c.capacity ≡ ngx_conf_buffer
  pub room : length c.ahead ≤ ngx_conf_buffer
  pub inside : c.offset ≤ length file

-- The state after a block whose text, without its closing brace, is `body`.
pub record Block (e : Env) (file : Bytes) (c d : Conf) (body rest : Bytes) : Type 0 where
  pub code_text : (d.elts 0).text ≡ e.ngx_cpystrn (body ++ b'}' ∷ []) (suc (length body))
  pub code_len : (d.elts 0).len ≡ suc (length body)
  pub one_arg : d.nelts ≡ 1
  pub line_is : d.line ≡ c.line + count_lines body
  pub left : remaining file d ≡ rest

-- `ngx_cpystrn` copies the bytes in front of a limit and ends them by a NUL, if there is none
-- among them.
pub record Copies (e : Env) : Type 0 where
  pub copies :
      (src rest : Bytes)
      → IsNulFree src
      → e.ngx_cpystrn (src ++ rest) (suc (length src)) ≡ src ++ 0 ∷ []

module _ (e : Env) (file : Bytes) (s : Serves e file) (c : Conf) (b : Starts file c) where
  begin : Conf
  begin = record c { nelts = 0; held = [] }

  begin-Fits : Fits file begin
  unfolding begin
  begin-Fits = record {
    whole = b.whole;
    room = omega (arith, b.room);
    inside = b.inside;
    no_args = refl;
  }

  fuel-enough : length (remaining file c) < suc (length c.ahead + (e.file_size - c.offset))
  fuel-enough =
      omega (arith, length-append c.ahead (drop c.offset file), length-drop c.offset file, s.size)

  stored : Conf → Conf
  stored d = record d {
    nelts = suc d.nelts;
    elts = λ i.
        if i == d.nelts
        then record { text = e.ngx_cpystrn d.held (length d.held); len = length d.held }
        else d.elts i;
  }

  stored-Block :
      (d : Conf) (body rest : Bytes)
      → Stops file begin d body rest
      → Block e file c (stored d) body rest
  unfolding stored begin
  stored-Block d body rest p =
      let long : length d.held ≡ suc (length body) =
        omega (arith, ap length p.held, length-append body (b'}' ∷ [])) in
      record {
        code_text = ground (arith, p.fits.no_args, p.held, long);
        code_len = ground (arith, p.fits.no_args, long);
        one_arg = ap suc p.fits.no_args;
        line_is = p.line_is;
        left = p.left;
      }

  block_done-stored :
      (d : Conf)
      → e.ngx_array_push_succeeds ≡ true
      → e.ngx_pnalloc_succeeds ≡ true
      → block_done e d ≡ returned ngx_conf_block_done (stored d)
  unfolding stored block_done
  block_done-stored d p1 p2 = rw (p1, p2)

  -- Over a file that the environment serves with its size and with whole reads inside it, and a
  -- buffer of 4096 bytes, where memory is found: if the text still to read closes with a brace
  -- behind fewer than 4096 bytes, the reader gives NGX_CONF_BLOCK_DONE with one argument, the text
  -- before the brace as `ngx_cpystrn` copies it, its line count is advanced by the line ends in
  -- the block, and what is left to read begins behind the brace.
  pub read_token-Block :
      (body rest : Bytes)
      → closing 0 (remaining file c) ≡ some (body, rest)
      → length body < ngx_conf_buffer
      → e.ngx_array_push_succeeds ≡ true
      → e.ngx_pnalloc_succeeds ≡ true
      → (d : Conf) × (read_token e c ≡ returned ngx_conf_block_done d) × Block e file c d body rest
  unfolding read_token begin
  read_token-Block body rest h small p1 p2 =
      let (d, run, stops) =
        scan-found e file s c.line _ 0 begin (remaining file c) body rest begin-Fits refl h
          (omega arith) fuel-enough in
      (stored d, run ∙ block_done-stored d p1 p2, stored-Block d body rest stops)

  -- Over a file that the environment serves with its size and with whole reads inside it, and a
  -- buffer of 4096 bytes: a text still to read in which no brace closes the block, of at most 4096
  -- bytes, gives NGX_CONF_FILE_DONE with no argument, all read and all its line ends counted.
  pub read_token-file_done :
      closing 0 (remaining file c) ≡ none
      → length (remaining file c) ≤ ngx_conf_buffer
      → (d : Conf) × (read_token e c ≡ returned ngx_conf_file_done d)
        × (remaining file d ≡ [])
        × (d.nelts ≡ 0)
        × (d.line ≡ c.line + count_lines (remaining file c))
  unfolding read_token begin
  read_token-file_done h small =
      scan-missing e file s c.line _ 0 begin (remaining file c) begin-Fits refl h (omega arith)
        fuel-enough

  -- Over a file that the environment serves with its size and with whole reads inside it, and a
  -- buffer of 4096 bytes: if the closing brace, or the end of a text without one, lies behind more
  -- than 4096 bytes, the reader gives NGX_ERROR, its last message is that the parameter is too
  -- long, and the line is again the one where the block began.
  pub read_token-too_long :
      ngx_conf_buffer < extent 0 (remaining file c)
      → (d : Conf) × (read_token e c ≡ returned ngx_error d) × GivesUp c.line d
  unfolding read_token begin
  read_token-too_long h =
      scan-overlong e file s c.line _ 0 begin (remaining file c) begin-Fits refl (omega arith)
        (omega arith) fuel-enough

  -- Over a file that the environment serves with its size and with whole reads inside it, and a
  -- buffer of 4096 bytes, where memory is found and `ngx_cpystrn` behaves as documented: a block
  -- of fewer than 4096 bytes without a NUL gives as its argument exactly the text before the
  -- closing brace and a final NUL, and leaves the text behind the brace.
  pub read_token-code :
      (body rest : Bytes)
      → Copies e
      → IsNulFree body
      → closing 0 (remaining file c) ≡ some (body, rest)
      → length body < ngx_conf_buffer
      → e.ngx_array_push_succeeds ≡ true
      → e.ngx_pnalloc_succeeds ≡ true
      → (d : Conf) × (read_token e c ≡ returned ngx_conf_block_done d)
        × ((d.elts 0).text ≡ body ++ 0 ∷ [])
        × (remaining file d ≡ rest)
  read_token-code body rest k nul h small p1 p2 =
      let (d, run, block) = read_token-Block body rest h small p1 p2 in
      (d, run, block.code_text ∙ k.copies body (b'}' ∷ []) nul, block.left)

  block_done-returned : (d : Conf) → (rc : ℤ) × (d' : Conf) × (block_done e d ≡ returned rc d')
  unfolding block_done
  block_done-returned d = elim (Bool-cases e.ngx_array_push_succeeds) [
    | inl p1 ↦ elim (Bool-cases e.ngx_pnalloc_succeeds) [
      | inl p2 ↦ (ngx_conf_block_done, stored d, block_done-stored d p1 p2)
      | inr n2 ↦ (ngx_error, record d { nelts = suc d.nelts }, rw (p1, n2))
    ]
    | inr n1 ↦ (ngx_error, d, rw n1)
  ]

  -- Over a file that the environment serves with its size and with whole reads inside it, and a
  -- buffer of 4096 bytes: the reader returns a code with the fuel of one turn for each unread byte
  -- and one more, whether or not memory is found, and never reads behind the bytes of the buffer.
  pub read_token-returned : (rc : ℤ) × (d : Conf) × (read_token e c ≡ returned rc d)
  unfolding read_token begin
  read_token-returned = elim (Option-cases (closing 0 (remaining file c))) [
    | inl h ↦ elim (dec_le (length (remaining file c)) ngx_conf_buffer) [
      | yes small ↦
          let (d, run, _, _, _) = read_token-file_done h small in (ngx_conf_file_done, d, run)
      | no long ↦
          let (d, run, _) =
            read_token-too_long (omega (arith, extent-closing-none 0 (remaining file c) h)) in
          (ngx_error, d, run)
    ]
    | inr ((body, rest), h) ↦ elim (dec_lt (length body) ngx_conf_buffer) [
      | yes small ↦
          let (d, run, _) =
            scan-found e file s c.line _ 0 begin (remaining file c) body rest begin-Fits refl h
              (omega arith) fuel-enough in
          let (rc, d', done) = block_done-returned d in (rc, d', run ∙ done)
      | no long ↦
          let (d, run, _) =
            read_token-too_long (omega (arith, extent-closing 0 (remaining file c) body rest h)) in
          (ngx_error, d, run)
    ]
  ]
