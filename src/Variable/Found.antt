-- ===== src/Variable/Found.antt =====
-- A read of a variable behind a write, over nginx's documented ways.
use ngx_php.Prelude.{ℕ, ◌≡◌, true, false, Option, some}
use ngx_php.Handler.State.{Bytes}
use ngx_php.Variable.Access.{Variable, Variables, Hash}

-- `ngx_http_get_variable` of an indexed variable gives its value in the request, if that is valid and
-- may be kept.
pub record GetsIndexed {R : Type 0} (nginx : Hash R) : Type 0 where
  pub gets :
      (r : Variables R) (name : Bytes) (hash : ℕ) (v : Variable)
      → nginx.hash_find hash name ≡ some v
      → v.indexed ≡ true
      → (r.values v.index).valid ≡ true
      → (r.values v.index).no_cacheable ≡ false
      → nginx.get_variable r name hash ≡ some (r.values v.index)

module _ {R : Type 0} (nginx : Hash R) where
  -- The variable that a name stands for.
  abbrev pub variable_of : Bytes → Option Variable
  variable_of name = nginx.hash_find (nginx.hash_strlow name).0 (nginx.hash_strlow name).1
