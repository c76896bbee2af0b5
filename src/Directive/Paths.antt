-- ===== src/Directive/Paths.antt =====
-- What the two code functions of src/ngx_http_php_core.c make of a NUL-free text.
use ngx_php.Prelude.{
  ℕ, ◌+◌, ◌≡◌, refl, ap, ◌∙◌, true, none, some, [], ◌∷◌, ◌++◌, arith, length, if◌then◌else◌,
}
use ngx_php.Directive.State.{Bytes, code_type_file, code_type_string}
use ngx_php.Directive.Code.{Memory, c_string, is_rooted, with_id, code_from_file, code_from_string}
use ngx_php.ConfFile.State.{Token}
use ngx_php.ConfFile.Spec.{IsNulFree}

-- A text with its NUL.
abbrev pub terminated : Bytes → Token
terminated src = record { text = src ++ 0 ∷ []; len = length src }

-- Memory is found; `ngx_cpystrn` copies a text whose NUL stands at its limit; nginx's prefix is a
-- text without a NUL in it.
pub record Works (m : Memory) (prefix : Bytes) : Type 0 where
  pub code_found : m.pcalloc_code_succeeds ≡ true
  pub text_found : m.pcalloc_text_succeeds ≡ true
  pub id_found : m.pnalloc_id_succeeds ≡ true
  pub prefix_is : m.conf_prefix ≡ terminated prefix
  pub prefix_nul : IsNulFree prefix
  pub copies :
      (src : Bytes) → IsNulFree src → m.ngx_cpystrn (src ++ 0 ∷ []) (length src + 1) ≡ src ++ 0 ∷ []

c_string-terminated : (src : Bytes) → IsNulFree src → c_string (src ++ 0 ∷ []) ≡ src
unfolding c_string
c_string-terminated [] nul = refl
c_string-terminated (ch ∷ src) nul = ground (arith, c_string-terminated src nul.1)

copied_lem :
    (m : Memory) (prefix : Bytes) (w : Works m prefix) (src : Bytes)
    → IsNulFree src
    → c_string (m.ngx_cpystrn (src ++ 0 ∷ []) (length src + 1)) ≡ src
copied_lem m prefix w src nul = ap c_string (w.copies src nul) ∙ c_string-terminated src nul

-- The path that a file's text stands for.
abbrev pub resolved : Bytes → Bytes → Bytes
resolved prefix src = if is_rooted src then src else prefix ++ src

-- When memory is found and `ngx_cpystrn` behaves as documented: a path of at least one byte
-- without a NUL, whose first byte is `/` or `$`, becomes the code's file as it is, and any other is
-- put behind nginx's prefix; an empty path gives no code; and a text without a NUL, empty or not,
-- becomes the code's string as it is.
pub code_from-text :
    (m : Memory) (prefix : Bytes) (ch : ℕ) (path src : Bytes)
    → Works m prefix
    → IsNulFree (ch ∷ path)
    → IsNulFree src
    → (code_from_file m (terminated (ch ∷ path))
        ≡ some (record {
          code_type = code_type_file;
          text = resolved prefix (ch ∷ path);
          code_id = m.random_id;
        }))
      × (code_from_file m (terminated []) ≡ none)
      × (code_from_string m (terminated src)
          ≡ some (record { code_type = code_type_string; text = src; code_id = m.random_id }))
unfolding code_from_file code_from_string with_id is_rooted
code_from-text m prefix ch path src w nul nul' = (
  ground (
    arith,
    w.code_found,
    w.text_found,
    w.id_found,
    w.prefix_is,
    copied_lem m prefix w (ch ∷ path) nul,
    copied_lem m prefix w prefix w.prefix_nul,
    c_string-terminated (ch ∷ path) nul,
  ),
  ground (arith, w.code_found, c_string-terminated [] tt),
  ground (
    arith,
    w.code_found,
    w.text_found,
    w.id_found,
    copied_lem m prefix w src nul',
    c_string-terminated src nul',
  ),
)
