-- ===== src/ConfFile/Steps.antt =====
-- One turn of the loop of `ngx_php_conf_read_token`: what the refill leaves in the buffer.
use mathlib.Core.Option
use ngx_php.Prelude.{
  ℕ, suc, ◌+◌, ◌-◌, ◌≤◌, ◌<◌, ◌≡◌, refl, ap, [], ◌∷◌, ◌++◌, arith, length, take, drop, length-take,
  length-drop, take-append-drop, drop-drop,
}
use ngx_php.Prelude.Codes.{ngx_error}
use ngx_php.ConfFile.State.{Bytes, Conf, Env, log_error, too_long}
use ngx_php.ConfFile.Token.{
  ngx_conf_buffer, ngx_conf_file_done, leave, read_on, refill_size, refill, ensure,
}
use ngx_php.ConfFile.Spec.{Serves, remaining}

-- The shape of the reader's state inside the loop.
pub record Fits (file : Bytes) (c : Conf) : Type 0 where
  pub whole : c.capacity ≡ ngx_conf_buffer
  pub room : length c.held + length c.ahead ≤ ngx_conf_buffer
  pub inside : c.offset ≤ length file
  pub no_args : c.nelts ≡ 0

-- `d` is `c` with bytes in the buffer: the byte `ch`, and `rest` behind it.
pub record Ready (file : Bytes) (c d : Conf) (ch : ℕ) (rest cs : Bytes) : Type 0 where
  pub fits : Fits file d
  pub ahead : d.ahead ≡ ch ∷ rest
  pub left : rest ++ drop d.offset file ≡ cs
  pub held : d.held ≡ c.held
  pub line : d.line ≡ c.line

module _ (e : Env) (file : Bytes) (s : Serves e file) where
  refill_size_bounds :
      (c : Conf)
      → Fits file c
      → c.offset < length file
      → length c.held < ngx_conf_buffer
      → (c.offset + refill_size e c ≤ length file)
        × (0 < refill_size e c)
        × (length c.held + refill_size e c ≤ ngx_conf_buffer)
  unfolding refill_size
  refill_size_bounds c f i h = ground (arith, s.size)

  abbrev refilled : Conf → Conf
  refilled c = record c {
    ahead = take (refill_size e c) (drop c.offset file);
    offset = c.offset + refill_size e c;
    dump = Option.map (λ d. d ++ take (refill_size e c) (drop c.offset file)) c.dump;
  }

  refill-refilled :
      (start_line : ℕ) (c : Conf)
      → Fits file c
      → c.offset < length file
      → length c.held < ngx_conf_buffer
      → refill e start_line c ≡ read_on (refilled c)
  unfolding refill
  refill-refilled start_line c f i h =
      let b = refill_size_bounds c f i h in
      ground (
        arith,
        s.size,
        s.reads (refill_size e c) c.offset b.0,
        length-take (refill_size e c) (drop c.offset file),
        length-drop c.offset file,
      )

  -- The first of the bytes of a refill, which are at least one.
  refilled-Ready :
      (c : Conf) (n : ℕ) (ch : ℕ) (cs : Bytes)
      → refill_size e c ≡ suc n
      → Fits file c
      → drop c.offset file ≡ ch ∷ cs
      → c.offset + refill_size e c ≤ length file
      → length c.held + refill_size e c ≤ ngx_conf_buffer
      → Ready file c (refilled c) ch (take n cs) cs
  refilled-Ready c n ch cs e1 f r b1 b2 = record {
    fits = record {
      whole = f.whole;
      room = omega (arith, length-take (refill_size e c) (drop c.offset file));
      inside = b1;
      no_args = f.no_args;
    };
    ahead = rw (e1, r);
    left = rw (drop-drop c.offset (refill_size e c) file, e1, r) (take-append-drop n cs);
    held = refl;
    line = refl;
  }

  -- A refill with room in the buffer and bytes in the file hands them over.
  refill-reads :
      (start_line : ℕ) (c : Conf) (ch : ℕ) (cs : Bytes)
      → Fits file c
      → drop c.offset file ≡ ch ∷ cs
      → length c.held < ngx_conf_buffer
      → (d : Conf) × (rest : Bytes) × (refill e start_line c ≡ read_on d)
        × Ready file c d ch rest cs
  refill-reads start_line c ch cs f r h =
      let more : c.offset < length file = omega (arith, ap length r, length-drop c.offset file) in
      let b = refill_size_bounds c f more h in
      (
        refilled c,
        take (refill_size e c - 1) cs,
        refill-refilled start_line c f more h,
        refilled-Ready c (refill_size e c - 1) ch cs (omega arith) f r b.0 b.2,
      )

  ensure-from :
      (start_line : ℕ) (c : Conf) (xs : Bytes) (ch : ℕ) (cs : Bytes)
      → c.ahead ≡ xs
      → Fits file c
      → xs ++ drop c.offset file ≡ ch ∷ cs
      → length c.held < ngx_conf_buffer
      → (d : Conf) × (rest : Bytes) × (ensure e start_line c xs ≡ read_on d)
        × Ready file c d ch rest cs
  unfolding ensure
  ensure-from start_line c [] ch cs a f r h = refill-reads start_line c ch cs f r h
  ensure-from start_line c (x ∷ xs) ch cs a f r h = (
    c,
    xs,
    refl,
    record { fits = f; ahead = ground arith; left = ground arith; held = refl; line = refl },
  )

  -- With text left and room in the buffer, the turn goes on with the next byte in the buffer.
  pub ensure-Ready :
      (start_line : ℕ) (c : Conf) (ch : ℕ) (cs : Bytes)
      → Fits file c
      → remaining file c ≡ ch ∷ cs
      → length c.held < ngx_conf_buffer
      → (d : Conf) × (rest : Bytes) × (ensure e start_line c c.ahead ≡ read_on d)
        × Ready file c d ch rest cs
  ensure-Ready start_line c ch cs f r h = ensure-from start_line c c.ahead ch cs refl f r h

  ensure-stop :
      (start_line : ℕ) (c : Conf) (xs : Bytes)
      → Fits file c
      → xs ++ drop c.offset file ≡ []
      → ensure e start_line c xs ≡ leave ngx_conf_file_done c
  unfolding ensure refill
  ensure-stop start_line c [] f r =
      ground (arith, s.size, ap length r, length-drop c.offset file, f.no_args)
  ensure-stop start_line c (x ∷ xs) f r = cc

  -- With no text left the turn reports the end of the file.
  pub ensure-file_done :
      (start_line : ℕ) (c : Conf)
      → Fits file c
      → remaining file c ≡ []
      → ensure e start_line c c.ahead ≡ leave ngx_conf_file_done c
  ensure-file_done start_line c f r = ensure-stop start_line c c.ahead f r

  ensure-full :
      (start_line : ℕ) (c : Conf) (xs : Bytes)
      → c.ahead ≡ xs
      → Fits file c
      → 0 < length (xs ++ drop c.offset file)
      → length c.held ≡ ngx_conf_buffer
      → ensure e start_line c xs
        ≡ leave ngx_error (log_error too_long (record c { line = start_line }))
  unfolding ensure refill
  ensure-full start_line c [] a f r h = ground (arith, s.size, length-drop c.offset file)
  ensure-full start_line c (x ∷ xs) a f r h = absurd (omega (arith, ap length a, f.room))

  -- With text left and a full buffer the turn gives up.
  pub ensure-too_long :
      (start_line : ℕ) (c : Conf)
      → Fits file c
      → 0 < length (remaining file c)
      → length c.held ≡ ngx_conf_buffer
      → ensure e start_line c c.ahead
        ≡ leave ngx_error (log_error too_long (record c { line = start_line }))
  ensure-too_long start_line c f r h = ensure-full start_line c c.ahead refl f r h
