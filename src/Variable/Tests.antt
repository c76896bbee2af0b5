-- ===== src/Variable/Tests.antt =====
-- A request with one indexed variable, `$a`, and one that may not be changed, `$b`.
use ngx_php.Prelude.{ℕ, true, false, Option, none, some, [], ◌==◌, if◌then◌else◌, length}
use ngx_php.Variable.Access.{Value, Variable, Variables, Hash}

abbrev indexed : Variable
indexed = record { changeable = true; indexed = true; has_set_handler = false; index = 3 }

abbrev constant : Variable
constant = record { changeable = false; indexed = true; has_set_handler = false; index = 4 }

-- The hash is the length of the name: 1 for `a`, 2 for `bb`.
abbrev find : ℕ → Option Variable
find hash = if hash == 1 then some indexed else if hash == 2 then some constant else none

abbrev value_of : Variables ℕ → Option Variable → Option Value
value_of r none = none
value_of r (some v) = some (r.values v.index)

abbrev hash : Hash ℕ
hash = record {
  hash_strlow = λ name. (length name, name);
  hash_find = λ hash name. find hash;
  set_handler = λ v x r. r;
  get_variable = λ r name hash. value_of r (find hash);
  palloc_succeeds = true;
  palloc_value_succeeds = true;
}

abbrev variables : Variables ℕ
variables = record {
  values = λ i. record { valid = true; not_found = false; no_cacheable = false; text = [] };
  rest = 0;
}
