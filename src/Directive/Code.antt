-- ===== src/Directive/Code.antt =====
-- `ngx_http_php_code_from_file` and `ngx_http_php_code_from_string` of src/ngx_http_php_core.c.
use ngx_php.Prelude.{
  ℕ, ◌+◌, Bool, false, ◌||◌, Option, none, some, [], ◌∷◌, ◌++◌, ◌==◌, length, if◌then◌else◌,
}
use ngx_php.Directive.State.{Bytes, CodeType, code_type_file, code_type_string, Code}
use ngx_php.ConfFile.State.{Token}

-- The memory of the configuration's pool, in the order in which the two functions ask for it, and
-- what they take from nginx. `ngx_cpystrn src n` is what the destination holds after copying with
-- limit `n`; `random_id` is the text that `ngx_sprintf` makes of four random numbers.
pub record Memory : Type 0 where
  pub pcalloc_code_succeeds : Bool
  pub pcalloc_text_succeeds : Bool
  pub pnalloc_id_succeeds : Bool
  pub ngx_cpystrn : Bytes → ℕ → Bytes
  pub conf_prefix : Token
  pub random_id : Bytes

-- The C string that begins a memory, and C's `strlen`.
unfoldable pub c_string : Bytes → Bytes
c_string [] = []
c_string (ch ∷ rest) = let tail = c_string rest in if ch == 0 then [] else ch ∷ tail

abbrev pub strlen : Bytes → ℕ
strlen text = length (c_string text)

-- `data[0] == '/' || data[0] == '$'`
unfoldable pub is_rooted : Bytes → Bool
is_rooted [] = false
is_rooted (ch ∷ rest) = ch == b'/' || ch == b'$'

-- The end of both: the type, and the id of 32 bytes.
unfoldable pub with_id : Memory → CodeType → Bytes → Option Code
with_id m type text =
    if m.pnalloc_id_succeeds
    then some (record { code_type = type; text = text; code_id = m.random_id })
    else none

-- `ngx_cpystrn` from a string of nginx, with its length and one more as the limit.
abbrev pub copied : Memory → Token → Bytes
copied m s = c_string (m.ngx_cpystrn s.text (s.len + 1))

-- `none` is NGX_CONF_UNSET_PTR.
unfoldable pub code_from_file : Memory → Token → Option Code
unfolding is_rooted with_id
code_from_file m path =
    if m.pcalloc_code_succeeds
    then if strlen path.text == 0
      then none
      else if m.pcalloc_text_succeeds
      then if is_rooted path.text
        then with_id m code_type_file (copied m path)
        else with_id m code_type_file (copied m m.conf_prefix ++ copied m path)
      else none
    else none

unfoldable pub code_from_string : Memory → Token → Option Code
unfolding with_id
code_from_string m str =
    if m.pcalloc_code_succeeds
    then if m.pcalloc_text_succeeds
      then with_id m code_type_string (c_string (m.ngx_cpystrn str.text (strlen str.text + 1)))
      else none
    else none
