-- ===== src/ConfFile/Refine.antt =====
-- The buffered loop of `ngx_php_conf_read_token` and the split of the whole text at its closing
-- brace, by induction on the fuel.
use native.Mathlib.Decide.{dec_lt}
use ngx_php.Prelude.{
  ℕ, zero, suc, ◌+◌, ◌≤◌, ◌<◌, ◌≡◌, refl, ap, ◌∙◌, inl, inr, none, some, List, [], ◌∷◌, ◌++◌, arith,
  length, append_assoc, ◌==◌, if◌then◌else◌,
}
use ngx_php.Prelude.Codes.{ngx_error}
use ngx_php.ConfFile.State.{Bytes, Conf, Env, Message, log_error, too_long}
use ngx_php.ConfFile.Token.{ngx_conf_buffer, ngx_conf_file_done, returned, block_done, scan}
use ngx_php.ConfFile.Spec.{Serves, remaining, depth_after, closing, extent, count_lines}
use ngx_php.ConfFile.Inversion.{closing-cons, closing-cons_none, extent-cons}
use ngx_php.ConfFile.Steps.{Fits}
use ngx_php.ConfFile.Turn.{Took, length-Took, scan-close, scan-next, scan-file_done, scan-too_long}

-- The loop, started at `c`, stops in `d` at the brace behind `body`.
pub record Stops (file : Bytes) (c d : Conf) (body rest : Bytes) : Type 0 where
  pub fits : Fits file d
  pub left : remaining file d ≡ rest
  pub held : d.held ≡ c.held ++ (body ++ b'}' ∷ [])
  pub line_is : d.line ≡ c.line + count_lines body

Took-Stops_here :
    (file : Bytes) (c d : Conf) (cs : Bytes) (ch : ℕ)
    → Took file c d ch cs c.line
    → ch ≡ b'}'
    → Stops file c d [] cs
Took-Stops_here file c d cs ch t y = record {
  fits = t.fits;
  left = t.left;
  held = t.held ∙ ap (λ x. c.held ++ x ∷ []) y;
  line_is = omega (arith, t.line_is);
}

Took-Stops :
    (file : Bytes) (c d d' : Conf) (cs body rest : Bytes) (ch : ℕ)
    → Took file c d ch cs (if ch == b'\n' then suc c.line else c.line)
    → Stops file d d' body rest
    → Stops file c d' (ch ∷ body) rest
Took-Stops file c d d' cs body rest ch t p = record {
  fits = p.fits;
  left = p.left;
  held = p.held ∙ rw (t.held, append_assoc);
  line_is = ground (arith, t.line_is, p.line_is);
}

-- The loop gave up on a text that is too long.
pub record GivesUp (start_line : ℕ) (d : Conf) : Type 0 where
  pub line_is : d.line ≡ start_line
  pub before : List Message
  pub message : d.logged ≡ before ++ too_long ∷ []

module _ (e : Env) (file : Bytes) (s : Serves e file) (start_line : ℕ) where
  pub scan-found :
      (fuel deep : ℕ) (c : Conf) (xs body rest : Bytes)
      → Fits file c
      → remaining file c ≡ xs
      → closing deep xs ≡ some (body, rest)
      → length c.held + length body < ngx_conf_buffer
      → length xs < fuel
      → (d : Conf) × (scan e start_line fuel deep c ≡ block_done e d) × Stops file c d body rest
  scan-found zero deep c xs body rest f r h small enough = absurd (omega arith)
  scan-found (suc fuel) deep c [] body rest f r h small enough = absurd (unfold closing in cc)
  scan-found (suc fuel) deep c (ch ∷ cs) body rest f r h small enough =
      elim (closing-cons deep ch cs body rest h) [
        | inl (y, none_yet, rest_is) ↦
            let (d, run, took) =
              scan-close e file s start_line fuel deep c ch cs f r (omega arith) y in
            (d, run, rw (none_yet, rest_is) (Took-Stops_here file c d cs ch took (ground arith)))
        | inr (n, more, body_is, later) ↦
            let (d, run, took) =
              scan-next e file s start_line fuel deep c ch cs f r (omega arith) n in
            let (d', run', stops) =
              scan-found fuel (depth_after ch deep) d cs more rest took.fits took.left later
                (omega (arith, length-Took file c d ch cs _ took, ap length body_is))
                (omega arith) in
            (d', run ∙ run', rw body_is (Took-Stops file c d d' cs more rest ch took stops))
      ]

  -- With no closing brace in a text that fits, the loop takes it all and reports the end of file.
  pub scan-missing :
      (fuel deep : ℕ) (c : Conf) (xs : Bytes)
      → Fits file c
      → remaining file c ≡ xs
      → closing deep xs ≡ none
      → length c.held + length xs ≤ ngx_conf_buffer
      → length xs < fuel
      → (d : Conf) × (scan e start_line fuel deep c ≡ returned ngx_conf_file_done d)
        × (remaining file d ≡ [])
        × (d.nelts ≡ 0)
        × (d.line ≡ c.line + count_lines xs)
  scan-missing zero deep c xs f r h small enough = absurd (omega arith)
  scan-missing (suc fuel) deep c [] f r h small enough =
      (c, scan-file_done e file s start_line fuel deep c f r, r, f.no_args, omega arith)
  scan-missing (suc fuel) deep c (ch ∷ cs) f r h small enough =
      let (n, later) = closing-cons_none deep ch cs h in
      let (d, run, took) = scan-next e file s start_line fuel deep c ch cs f r (omega arith) n in
      let (d', run', left, args, line) =
        scan-missing fuel (depth_after ch deep) d cs took.fits took.left later
          (omega (arith, length-Took file c d ch cs _ took)) (omega arith) in
      (d', run ∙ run', left, args, ground (arith, took.line_is, line))

  -- Past the size of the buffer the loop gives up, with the line where it began.
  pub scan-overlong :
      (fuel deep : ℕ) (c : Conf) (xs : Bytes)
      → Fits file c
      → remaining file c ≡ xs
      → ngx_conf_buffer < length c.held + extent deep xs
      → length c.held ≤ ngx_conf_buffer
      → length xs < fuel
      → (d : Conf) × (scan e start_line fuel deep c ≡ returned ngx_error d) × GivesUp start_line d
  scan-overlong zero deep c xs f r h small enough = absurd (omega arith)
  scan-overlong (suc fuel) deep c [] f r h small enough = absurd (unfold extent in omega arith)
  scan-overlong (suc fuel) deep c (ch ∷ cs) f r h small enough =
      elim (dec_lt (length c.held) ngx_conf_buffer) [
        | no full ↦ (
          log_error too_long (record c { line = start_line }),
          scan-too_long e file s start_line fuel deep c f (rw r (omega arith)) (omega arith),
          record { line_is = refl; before = c.logged; message = refl },
        )
        | yes room ↦
            let (n, more) = extent-cons deep ch cs (omega arith) in
            let (d, run, took) = scan-next e file s start_line fuel deep c ch cs f r room n in
            let longer = length-Took file c d ch cs _ took in
            let (d', run', up) =
              scan-overlong fuel (depth_after ch deep) d cs took.fits took.left
                (omega (arith, more, longer)) (omega (arith, longer)) (omega arith) in
            (d', run ∙ run', up)
      ]
