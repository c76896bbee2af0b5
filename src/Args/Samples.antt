-- ===== src/Args/Samples.antt =====
-- Arrays that are association lists.
use ngx_php.Prelude.{refl, Option, none, some, List, [], ◌∷◌, equal, if◌then◌else◌}
use ngx_php.Handler.State.{Bytes}
use ngx_php.Args.Scan.{PhpArray}
use ngx_php.Args.Decode.{ArrayLaws}

abbrev pub Entries : Type 0
Entries = List (Bytes × Bytes)

abbrev pub find_in : Bytes → Entries → Option Bytes
find_in k [] = none
find_in k ((j, v) ∷ rest) = if equal k j then some v else find_in k rest

abbrev pub entries : PhpArray
entries = record {
  Array = Entries;
  array_init = [];
  add_assoc = λ k v array. (k, v) ∷ array;
  find = find_in;
}

pub entries-ArrayLaws : ArrayLaws entries
entries-ArrayLaws = record {
  find-array_init = λ k. refl;
  find-add_assoc = λ k j v array nk nj. refl;
}
