-- ===== src/ConfFile/Turn.antt =====
-- One turn of the loop of `ngx_php_conf_read_token` as a whole: it takes one byte, or it ends.
use ngx_php.Prelude.{
  ℕ, suc, ◌<◌, ◌≡◌, ap, true, false, ◌&&◌, [], ◌∷◌, ◌++◌, arith, length, length-append, ◌==◌,
  if◌then◌else◌, Bool-cases, inl, inr,
}
use ngx_php.Prelude.Codes.{ngx_error}
use ngx_php.ConfFile.State.{Bytes, Conf, Env, log_error, too_long}
use ngx_php.ConfFile.Token.{
  ngx_conf_buffer, ngx_conf_file_done, returned, read_on, ensure, block_done, take_byte, scan,
}
use ngx_php.ConfFile.Spec.{Serves, remaining, depth_after}
use ngx_php.ConfFile.Steps.{Fits, Ready, ensure-Ready, ensure-file_done, ensure-too_long}

abbrev pub moved : ℕ → Conf → Conf
moved ch d = if ch == b'\n' then record d { line = suc d.line } else d

-- `d` is `c` after it took the byte `ch`; `cs` is what it has left.
pub record Took (file : Bytes) (c d : Conf) (ch : ℕ) (cs : Bytes) (line : ℕ) : Type 0 where
  pub fits : Fits file d
  pub left : remaining file d ≡ cs
  pub held : d.held ≡ c.held ++ ch ∷ []
  pub line_is : d.line ≡ line

module _ (e : Env) (file : Bytes) (start_line fuel deep : ℕ) where
  scan-Ready :
      (c d : Conf) (ch : ℕ) (rest cs : Bytes)
      → ensure e start_line c c.ahead ≡ read_on d
      → Ready file c d ch rest cs
      → scan e start_line (suc fuel) deep c ≡ (
          if ch == b'}' && deep == 0
          then block_done e (take_byte d ch rest)
          else scan e start_line fuel (depth_after ch deep) (moved ch (take_byte d ch rest)))
  unfolding scan
  scan-Ready c d ch rest cs g r = ground (arith, g, r.ahead)

pub length-Took :
    (file : Bytes) (c d : Conf) (ch : ℕ) (cs : Bytes) (line : ℕ)
    → Took file c d ch cs line
    → length d.held ≡ suc (length c.held)
length-Took file c d ch cs line t = omega (arith, ap length t.held, length-append c.held (ch ∷ []))

take_byte-Took :
    (file : Bytes) (c d : Conf) (ch : ℕ) (rest cs : Bytes)
    → Ready file c d ch rest cs
    → Took file c (take_byte d ch rest) ch cs c.line
take_byte-Took file c d ch rest cs r = record {
  fits = record {
    whole = r.fits.whole;
    room = omega (arith, r.fits.room, ap length r.ahead, length-append d.held (ch ∷ []));
    inside = r.fits.inside;
    no_args = r.fits.no_args;
  };
  left = r.left;
  held = ap (λ h. h ++ ch ∷ []) r.held;
  line_is = r.line;
}

moved-Took :
    (file : Bytes) (c d : Conf) (ch : ℕ) (cs : Bytes)
    → Took file c d ch cs c.line
    → Took file c (moved ch d) ch cs (if ch == b'\n' then suc c.line else c.line)
moved-Took file c d ch cs t = elim (Bool-cases (ch == b'\n')) [
  | inl y ↦ rw y (record {
    fits = record {
      whole = t.fits.whole;
      room = t.fits.room;
      inside = t.fits.inside;
      no_args = t.fits.no_args;
    };
    left = t.left;
    held = t.held;
    line_is = ap suc t.line_is;
  })
  | inr n ↦ rw n t
]

module _ (e : Env) (file : Bytes) (s : Serves e file) (start_line fuel deep : ℕ) (c : Conf) where
  -- The closing brace ends the loop.
  pub scan-close :
      (ch : ℕ) (cs : Bytes)
      → Fits file c
      → remaining file c ≡ ch ∷ cs
      → length c.held < ngx_conf_buffer
      → (ch == b'}' && deep == 0) ≡ true
      → (d : Conf) × (scan e start_line (suc fuel) deep c ≡ block_done e d)
        × Took file c d ch cs c.line
  scan-close ch cs f r h y =
      let (d, rest, g, ready) = ensure-Ready e file s start_line c ch cs f r h in
      (
        take_byte d ch rest,
        rw y at (scan-Ready e file start_line fuel deep c d ch rest cs g ready),
        take_byte-Took file c d ch rest cs ready,
      )

  -- Any other byte is taken, and the loop goes on.
  pub scan-next :
      (ch : ℕ) (cs : Bytes)
      → Fits file c
      → remaining file c ≡ ch ∷ cs
      → length c.held < ngx_conf_buffer
      → (ch == b'}' && deep == 0) ≡ false
      → (d : Conf) × (scan e start_line (suc fuel) deep c
          ≡ scan e start_line fuel (depth_after ch deep) d)
        × Took file c d ch cs (if ch == b'\n' then suc c.line else c.line)
  scan-next ch cs f r h n =
      let (d, rest, g, ready) = ensure-Ready e file s start_line c ch cs f r h in
      (
        moved ch (take_byte d ch rest),
        rw n at (scan-Ready e file start_line fuel deep c d ch rest cs g ready),
        moved-Took file c (take_byte d ch rest) ch cs (take_byte-Took file c d ch rest cs ready),
      )

  pub scan-file_done :
      Fits file c
      → remaining file c ≡ []
      → scan e start_line (suc fuel) deep c ≡ returned ngx_conf_file_done c
  unfolding scan
  scan-file_done f r = ground (arith, ensure-file_done e file s start_line c f r)

  pub scan-too_long :
      Fits file c
      → 0 < length (remaining file c)
      → length c.held ≡ ngx_conf_buffer
      → scan e start_line (suc fuel) deep c
        ≡ returned ngx_error (log_error too_long (record c { line = start_line }))
  unfolding scan
  scan-too_long f r h = ground (arith, ensure-too_long e file s start_line c f r h)
