-- ===== src/Handler/Naming.antt =====
-- The names and the source text of a block's function, and the memory asked for them, in
-- src/ngx_http_php_zend_uthread.c; `code_id` is set in src/ngx_http_php_core.c.
use ngx_php.Prelude.{ℕ, ◌+◌, ◌*◌, ◌≡◌, refl, [], ◌∷◌, ◌++◌, suc, arith, length, length-append}
use ngx_php.Handler.State.{Bytes, Phase, rewrite, access, content, log, header_filter, body_filter}

-- `code->code_id.len`
abbrev pub code_id_len : ℕ
code_id_len = 32

-- The argument `func_prefix` of `ngx_http_php_zend_uthread_create`.
unfoldable pub func_prefix : Phase → Bytes
func_prefix rewrite =
    b'n' ∷ b'g' ∷ b'x' ∷ b'_' ∷ b'r' ∷ b'e' ∷ b'w' ∷ b'r' ∷ b'i' ∷ b't' ∷ b'e' ∷ []
func_prefix access = b'n' ∷ b'g' ∷ b'x' ∷ b'_' ∷ b'a' ∷ b'c' ∷ b'c' ∷ b'e' ∷ b's' ∷ b's' ∷ []
func_prefix content =
    b'n' ∷ b'g' ∷ b'x' ∷ b'_' ∷ b'c' ∷ b'o' ∷ b'n' ∷ b't' ∷ b'e' ∷ b'n' ∷ b't' ∷ []
func_prefix log = b'n' ∷ b'g' ∷ b'x' ∷ b'_' ∷ b'l' ∷ b'o' ∷ b'g' ∷ []
func_prefix header_filter =
    b'n' ∷ b'g' ∷ b'x' ∷ b'_' ∷ b'h' ∷ b'e' ∷ b'a' ∷ b'd' ∷ b'e' ∷ b'r' ∷ b'_' ∷ b'f' ∷ b'i' ∷ b'l'
    ∷ b't' ∷ b'e' ∷ b'r' ∷ []
func_prefix body_filter =
    b'n' ∷ b'g' ∷ b'x' ∷ b'_' ∷ b'b' ∷ b'o' ∷ b'd' ∷ b'y' ∷ b'_' ∷ b'f' ∷ b'i' ∷ b'l' ∷ b't' ∷ b'e'
    ∷ b'r' ∷ []

-- `ngx_sprintf(func_name.data, "%s_%V", func_prefix, code_id)`, and what it is written into.
unfoldable pub func_name : Phase → Bytes → Bytes
func_name p code_id = func_prefix p ++ b'_' ∷ code_id

unfoldable pub func_name_room : Phase → ℕ
func_name_room p = length (func_prefix p) + 32

-- The literal parts of the format: `if(!function_exists('`, `')){ function `, `(){ ` and ` } }`.
abbrev pub test_text : Bytes
test_text =
    b'i' ∷ b'f' ∷ b'(' ∷ b'!' ∷ b'f' ∷ b'u' ∷ b'n' ∷ b'c' ∷ b't' ∷ b'i' ∷ b'o' ∷ b'n' ∷ b'_' ∷ b'e'
    ∷ b'x' ∷ b'i' ∷ b's' ∷ b't' ∷ b's' ∷ b'(' ∷ 39 ∷ []

abbrev pub function_text : Bytes
function_text =
    39 ∷ b')' ∷ b')' ∷ b'{' ∷ b' ' ∷ b'f' ∷ b'u' ∷ b'n' ∷ b'c' ∷ b't' ∷ b'i' ∷ b'o' ∷ b'n' ∷ b' '
    ∷ []

abbrev pub body_text : Bytes
body_text = b'(' ∷ b')' ∷ b'{' ∷ b' ' ∷ []

abbrev pub end_text : Bytes
end_text = b' ' ∷ b'}' ∷ b' ' ∷ b'}' ∷ []

-- The format with a code id and a code in its places.
unfoldable pub inline_source : Phase → Bytes → Bytes → Bytes
inline_source p code_id code =
    test_text
    ++ (func_prefix p ++ b'_' ∷ code_id)
    ++ function_text
    ++ (func_prefix p ++ b'_' ∷ code_id)
    ++ body_text
    ++ code
    ++ end_text

-- `sizeof(…) - 1 + ngx_strlen(code) + 64`, where the literal is the format with empty places.
unfoldable pub inline_room : Phase → Bytes → ℕ
inline_room p code = length (inline_source p [] []) + length code + 64

length-inline_source :
    (p : Phase) (code_id code : Bytes)
    → length (inline_source p code_id code)
      ≡ 45 + (2 * length (func_prefix p) + 2 * length code_id + length code)
unfolding inline_source
length-inline_source p code_id code = simp length-append (omega arith)

-- For a code id of 32 bytes: the source of a block's function defines it under the name by which
-- the generator is created and fills the memory asked for it to the last byte, but that name is
-- one byte longer than the memory asked for the name.
pub func_name-overruns :
    (p : Phase) (code_id code : Bytes)
    → length code_id ≡ code_id_len
    → (inline_source p code_id code
        ≡ test_text
          ++ func_name p code_id
          ++ function_text
          ++ func_name p code_id
          ++ body_text
          ++ code
          ++ end_text)
      × (length (inline_source p code_id code) ≡ inline_room p code)
      × (length (func_name p code_id) ≡ suc (func_name_room p))
unfolding inline_source inline_room func_name func_name_room
func_name-overruns p code_id code h = (
  refl,
  omega (arith, length-inline_source p code_id code, length-inline_source p [] [], h),
  simp length-append (omega (arith, h)),
)
