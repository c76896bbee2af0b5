-- ===== src/ConfFile/Tests.antt =====
-- The theorems about src/ngx_php_conf_file.c at concrete files, and runs of the reader.
use ngx_php.Prelude.{ℕ, zero, suc, ◌≡◌, refl, ap, true, false, none, [], ◌∷◌, ◌++◌, arith}
use ngx_php.ConfFile.State.{Bytes, Conf}
use ngx_php.ConfFile.Token.{
  ngx_conf_block_done, returned, Outcome, scan, ensure, block_done, read_token, refill_size,
}
use ngx_php.Prelude.Codes.{ngx_error}
use ngx_php.ConfFile.Spec.{closing, extent}
use ngx_php.ConfFile.Refine.{GivesUp}
use ngx_php.ConfFile.Result.{Block, read_token-Block, read_token-too_long}
use ngx_php.ConfFile.Parse.{message, Host}
use ngx_php.ConfFile.Samples.{
  copy, serving, serving-Serves, at_start, at_start-Starts, body, behind, text, text-closing,
}

read_token-Block_example :
    (d : Conf) × (read_token (serving text) at_start ≡ returned ngx_conf_block_done d)
    × Block (serving text) text at_start d body behind
read_token-Block_example =
    read_token-Block (serving text) text (serving-Serves text) at_start (at_start-Starts text) body
      behind text-closing (omega arith) refl refl

open_block-closing : closing 0 body ≡ none
unfolding closing
open_block-closing = refl

-- A text of `n` letters.
letters : ℕ → Bytes
letters zero = []
letters (suc n) = b'a' ∷ letters n

extent-letters : (n : ℕ) → extent 0 (letters n) ≡ n
unfolding letters extent
extent-letters zero = refl
extent-letters (suc n) = ap suc (extent-letters n)

read_token-too_long_example :
    (d : Conf) × (read_token (serving (letters 5000)) at_start ≡ returned ngx_error d) × GivesUp 7 d
read_token-too_long_example =
    read_token-too_long (serving (letters 5000)) (letters 5000) (serving-Serves (letters 5000))
      at_start (at_start-Starts (letters 5000)) (omega (arith, extent-letters 5000))

abbrev duplicated : Bytes
duplicated = b'd' ∷ b'u' ∷ b'p' ∷ []

abbrev refusing : Host
refusing = record {
  ngx_open_file = λ _. none;
  ngx_fd_info_succeeds = true;
  ngx_alloc_succeeds = true;
  ngx_close_file_succeeds = true;
  ngx_dump_config = false;
  stack_dump = none;
  handler = λ c. (message duplicated, c);
}

abbrev code_of : Outcome → Bytes
code_of (returned rc d) = (d.elts 0).text
code_of _ = []

-- The reader run on the text.
run_text : code_of (read_token (serving text) at_start) ≡ body ++ 0 ∷ []
unfolding read_token scan ensure block_done copy refill_size
run_text = refl
