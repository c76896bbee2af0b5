-- ===== src/Variable/Access.antt =====
-- `ngx_http_php_var_get` and `ngx_http_php_var_set` of src/ngx_http_php_variable.c, and their callers
-- in src/php/impl/php_ngx_var.c. `none` is a read through NULL.
use ngx_php.Prelude.{ℕ, Bool, true, false, Option, none, some, ◌==◌, if◌then◌else◌}
use ngx_php.Handler.State.{Bytes}
use ngx_php.Headers.State.{Zval, is_null, is_string}

-- `ngx_http_variable_value_t`
pub record Value : Type 0 where
  pub valid : Bool
  pub not_found : Bool
  pub no_cacheable : Bool
  pub text : Bytes

-- `ngx_http_variable_t`: the flags NGX_HTTP_VAR_CHANGEABLE and NGX_HTTP_VAR_INDEXED, whether
-- `set_handler` is there, and `index`.
pub record Variable : Type 0 where
  pub changeable : Bool
  pub indexed : Bool
  pub has_set_handler : Bool
  pub index : ℕ

-- `r->variables`, and the rest of the request, which set handlers may write.
pub record Variables (R : Type 0) : Type 0 where
  pub values : ℕ → Value
  pub rest : R

-- What nginx does: `ngx_hash_strlow`, which writes the small letters over the name, the hash of the
-- variables, their set handlers, and `ngx_http_get_variable`.
pub record Hash (R : Type 0) : Type 0 where
  pub hash_strlow : Bytes → ℕ × Bytes
  pub hash_find : ℕ → Bytes → Option Variable
  pub set_handler : Variable → Value → Variables R → Variables R
  pub get_variable : Variables R → Bytes → ℕ → Option Value
  pub palloc_succeeds : Bool
  pub palloc_value_succeeds : Bool

-- What both ways to set a variable store.
abbrev pub stored : Bytes → Value
stored val = record { valid = true; not_found = false; no_cacheable = false; text = val }

module _ {R : Type 0} (nginx : Hash R) where
  unfoldable pub var_get : Bytes → Variables R → Option Value
  var_get name r =
      let (hash, name') = nginx.hash_strlow name in
      elim (nginx.get_variable r name' hash) [
        | none ↦ none
        | some var ↦ if var.not_found then none else some var
      ]

  -- `if (v) { … }`: 0 where the variable is set, else 1.
  unfoldable pub set_found : Variable → Bytes → Variables R → ℕ × Variables R
  set_found v val r =
      if v.changeable
      then if v.has_set_handler
        then if nginx.palloc_value_succeeds then (0, nginx.set_handler v (stored val) r) else (1, r)
        else if v.indexed
        then (0, record r { values = λ i. if i == v.index then stored val else r.values i })
        else (1, r)
      else (1, r)

  unfoldable pub var_set : Bytes → Bytes → Variables R → ℕ × Variables R
  unfolding set_found
  var_set key val r =
      if nginx.palloc_succeeds
      then (let (hash, key') = nginx.hash_strlow key in
          elim (nginx.hash_find hash key') [ none ↦ (1, r) | some v ↦ set_found v val r ])
      else (1, r)

  unfoldable pub ngx_var_get : Bytes → Variables R → Option Zval
  ngx_var_get key r = elim (var_get key r) [ none ↦ none | some var ↦ some (is_string var.text) ]

  -- The answer of `ngx_http_php_var_set` is dropped.
  unfoldable pub ngx_var_set : Bytes → Bytes → Variables R → Zval × Variables R
  ngx_var_set key val r = (is_null, (var_set key val r).1)

  -- The methods of the class `ngx_var` have the text of the functions.
  unfoldable pub var_get_method : Bytes → Variables R → Option Zval
  var_get_method key r = elim (var_get key r) [ none ↦ none | some var ↦ some (is_string var.text) ]

  unfoldable pub var_set_method : Bytes → Bytes → Variables R → Zval × Variables R
  var_set_method key val r = (is_null, (var_set key val r).1)
