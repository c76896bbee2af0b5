-- ===== src/ConfFile/Samples.antt =====
-- A file, an environment that serves it and a state at its start, for the tests.
use ngx_php.Prelude.{
  ℕ, zero, suc, ◌+◌, ◌≡◌, refl, ap, true, false, none, some, [], ◌∷◌, ◌++◌, arith, length, take,
  drop, ◌==◌, if◌then◌else◌,
}
use ngx_php.Directive.Merge.{create_main_conf, create_loc_conf}
use ngx_php.ConfFile.State.{Bytes, Conf, Env}
use ngx_php.ConfFile.Token.{ngx_conf_buffer}
use ngx_php.ConfFile.Spec.{Serves, closing, IsNulFree}
use ngx_php.ConfFile.Result.{Starts, Copies}

-- `ngx_cpystrn`: at most `n - 1` bytes up to a NUL, and a NUL.
unfoldable pub up_to_nul : ℕ → Bytes → Bytes
up_to_nul zero src = []
up_to_nul (suc n) [] = []
up_to_nul (suc n) (ch ∷ src) = if ch == 0 then [] else ch ∷ up_to_nul n src

unfoldable pub copy : Bytes → ℕ → Bytes
unfolding up_to_nul
copy src zero = []
copy src (suc n) = up_to_nul n src ++ 0 ∷ []

abbrev pub serving : Bytes → Env
serving file = record {
  file_size = length file;
  ngx_read_file = λ n offset. some (take n (drop offset file), offset + n);
  ngx_array_push_succeeds = true;
  ngx_pnalloc_succeeds = true;
  ngx_cpystrn = copy;
}

pub serving-Serves : (file : Bytes) → Serves (serving file) file
serving-Serves file = record { size = refl; reads = λ n offset h. refl }

pub up_to_nul-append :
    (src rest : Bytes) → IsNulFree src → up_to_nul (length src) (src ++ rest) ≡ src
unfolding up_to_nul
up_to_nul-append [] rest nul = refl
up_to_nul-append (ch ∷ src) rest nul = ground (arith, up_to_nul-append src rest nul.1)

pub serving-Copies : (file : Bytes) → Copies (serving file)
unfolding copy
serving-Copies file = record {
  copies = λ src rest nul. ap (λ x. x ++ 0 ∷ []) (up_to_nul-append src rest nul);
}

abbrev pub at_start : Conf
at_start = record {
  held = [];
  ahead = [];
  capacity = ngx_conf_buffer;
  offset = 0;
  line = 7;
  dump = none;
  nelts = 1;
  elts = λ _. record { text = []; len = 0 };
  fd_is_invalid = false;
  logged = [];
  php_conf = record { main = create_main_conf; loc = create_loc_conf };
}

pub at_start-Starts : (file : Bytes) → Starts file at_start
at_start-Starts file = record { whole = refl; room = omega arith; inside = omega arith }

-- `{x}` and a newline, then the closing brace and the text behind it.
abbrev pub body : Bytes
body = b'{' ∷ b'x' ∷ b'}' ∷ b'\n' ∷ []

abbrev pub behind : Bytes
behind = b';' ∷ []

abbrev pub text : Bytes
text = b'{' ∷ b'x' ∷ b'}' ∷ b'\n' ∷ b'}' ∷ b';' ∷ []

pub text-closing : closing 0 text ≡ some (body, behind)
unfolding closing
text-closing = refl
