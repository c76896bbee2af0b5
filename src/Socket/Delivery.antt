-- ===== src/Socket/Delivery.antt =====
-- The loop of `ngx_http_php_socket_upstream_send` of src/ngx_http_php_socket.c loses no byte.
use ngx_php.Prelude.{
  ℕ, zero, suc, ◌≤◌, ◌<◌, ◌≡◌, refl, ap, ◌∙◌, ◌≢◌, ◌⊎◌, inl, inr, some, [], ◌++◌, append_assoc,
  append-nil, arith, length, take, drop, take-append-drop, take-length, Bool-cases, length-drop,
  ◌==◌,
}
use ngx_php.Prelude.Codes.{ℤ, pos, negsuc}
use ngx_php.Socket.State.{Bytes, Net}
use ngx_php.Socket.Send.{send_rounds}

-- `c->send` takes a prefix of what it is given, or nothing and says why. `delivered w c` is what
-- connection `c` has taken so far.
pub record Carries {N : Type 0} (net : Net N) (delivered : N → ℕ → Bytes) : Type 0 where
  pub takes :
      (w w' : N) (c k : ℕ) (b : Bytes)
      → net.c_send w c b ≡ (pos k, w')
      → (k ≤ length b) × (delivered w' c ≡ delivered w c ++ take k b)
  pub refuses :
      (w w' : N) (c k : ℕ) (b : Bytes)
      → net.c_send w c b ≡ (negsuc k, w')
      → delivered w' c ≡ delivered w c

-- A send of some bytes that does not fail takes at least one.
pub record Advances {N : Type 0} (net : Net N) : Type 0 where
  pub advances :
      (w w' : N) (c k : ℕ) (b : Bytes) → net.c_send w c b ≡ (pos k, w') → 0 < length b → 0 < k

Answer-cases :
    {N : Type 0} (r : ℤ × N)
    → ((k : ℕ) × (w : N) × (r ≡ (pos k, w))) ⊎ ((k : ℕ) × (w : N) × (r ≡ (negsuc k, w)))
Answer-cases (pos k, w) = inl (k, w, refl)
Answer-cases (negsuc k, w) = inr (k, w, refl)

-- What the loop gives: all is sent, or the last send refused.
abbrev pub IsEnd : ℤ → Bytes → Type 0
IsEnd (pos k) rest = rest ≡ []
IsEnd (negsuc k) rest = Unit

module _ {N : Type 0} (net : Net N) where
  rounds-refused :
      (fuel c k : ℕ) (w w' : N) (b : Bytes)
      → net.c_send w c b ≡ (negsuc k, w')
      → send_rounds net (suc fuel) c w b ≡ some (negsuc k, b, w')
  unfolding send_rounds
  rounds-refused fuel c k w w' b h = ground (arith, h)

  rounds-done :
      (fuel c : ℕ) (w w' : N) (b : Bytes)
      → net.c_send w c b ≡ (pos (length b), w')
      → send_rounds net (suc fuel) c w b ≡ some (pos (length b), [], w')
  unfolding send_rounds
  rounds-done fuel c w w' b h = ground (arith, h)

  rounds-more :
      (fuel c k : ℕ) (w w' : N) (b : Bytes)
      → net.c_send w c b ≡ (pos k, w')
      → k ≢ length b
      → send_rounds net (suc fuel) c w b ≡ send_rounds net fuel c w' (drop k b)
  unfolding send_rounds
  rounds-more fuel c k w w' b h ne = ground (arith, h, ne)

  module _ (delivered : N → ℕ → Bytes) (carries : Carries net delivered) (adv : Advances net) where
    pub send_rounds-delivers :
        (fuel c : ℕ) (w : N) (b : Bytes)
        → length b < fuel
        → (n : ℤ) × (rest : Bytes) × (w' : N) × (send_rounds net fuel c w b ≡ some (n, rest, w'))
          × (delivered w' c ++ rest ≡ delivered w c ++ b)
          × IsEnd n rest
    send_rounds-delivers zero c w b enough = absurd (omega arith)
    send_rounds-delivers (suc fuel) c w b enough = elim (Answer-cases (net.c_send w c b)) [
      | inr (k, w', h) ↦ (
        negsuc k,
        b,
        w',
        rounds-refused fuel c k w w' b h,
        ap (λ d. d ++ b) (carries.refuses w w' c k b h),
        tt,
      )
      | inl (k, w', h) ↦
          let (short, took) = carries.takes w w' c k b h in
          elim (Bool-cases (k == length b)) [
            | inl same_length ↦
                let all : k ≡ length b = ground (arith, same_length) in
                (
                  pos (length b),
                  [],
                  w',
                  rounds-done fuel c w w' b (h ∙ ap (λ k. (pos k, w')) all),
                  append-nil (delivered w' c)
                      ∙ took
                      ∙ ap (λ k. delivered w c ++ take k b) all
                      ∙ ap (λ x. delivered w c ++ x) (take-length b),
                  refl,
                )
            | inr differs ↦
                let some_left : k ≢ length b = ground (arith, differs) in
                let some_taken : 0 < k =
                  adv.advances w w' c k b h (omega (arith, short, some_left)) in
                let (n, rest, w2, run, same, end) =
                  send_rounds-delivers fuel c w' (drop k b)
                    (omega (arith, length-drop k b, some_taken, short)) in
                (
                  n,
                  rest,
                  w2,
                  rounds-more fuel c k w w' b h some_left ∙ run,
                  same
                      ∙ ap (λ d. d ++ drop k b) took
                      ∙ append_assoc (delivered w c) (take k b) (drop k b)
                      ∙ ap (λ x. delivered w c ++ x) (take-append-drop k b),
                  end,
                )
          ]
    ]
