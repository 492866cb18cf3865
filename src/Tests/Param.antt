-- ===== src/Tests/Param.antt =====
-- Params of src/param.c with concrete names and values.
use stumpless.Base.{◌≡◌, refl, [], ◌∷◌, true, false, some, codes, arith}
use stumpless.World.{World}
use stumpless.Validate.Utf8.Accepted.{no_error}
use stumpless.Param.{Param, stumpless_new_param}
use stumpless.Param.Format.{IsConsistent}
use stumpless.Param.Parse.{
  stumpless_new_param_from_string, new_param_from_string-shown, new_param_from_string_leaks_mutex,
  new_param_from_string-empty,
}
use stumpless.Param.Load.{NewParam, stumpless_new_param-NewParam}

-- key="A"
abbrev param : Param
param = record {
  block = 0;
  name = codes "key";
  name_length = 3;
  terminated = true;
  value_block = 1;
  value = codes "A";
  value_length = 1;
  mutex = 0;
}

param-IsConsistent : IsConsistent param
param-IsConsistent = record { name_counted = refl; value_counted = refl }

-- The world that holds it.
abbrev with_param : World
with_param = record no_error { calls = 2; live = 1 ∷ 0 ∷ []; mutex_calls = 1; mutexes = 0 ∷ [] }

stumpless_new_param-NewParam_example :
    NewParam
      (codes "key")
      (codes "A")
      with_param
      (stumpless_new_param 72 (some (codes "key")) (some (codes "A")) with_param)
stumpless_new_param-NewParam_example =
    stumpless_new_param-NewParam 72 (codes "key") (codes "A") with_param (omega arith)

new_param_from_string-shown_example :
    (q : Param) × ((stumpless_new_param_from_string 72 (some (codes "key=\"A\"")) with_param).0
      ≡ some q)
    × (q.name ≡ codes "key")
    × (q.value ≡ codes "A")
    × IsConsistent q
    × (q.terminated ≡ false)
new_param_from_string-shown_example =
    new_param_from_string-shown 72 param with_param param-IsConsistent (ground arith) (omega arith)
      refl refl refl

new_param_from_string_leaks_mutex_example :
    let w' = (stumpless_new_param_from_string 72 (some []) with_param).1 in
    (w'.mutexes ≡ 1 ∷ with_param.mutexes) × (w'.live ≡ with_param.live)
new_param_from_string_leaks_mutex_example =
    new_param_from_string_leaks_mutex 72 [] with_param refl refl
      (new_param_from_string-empty 72 with_param refl refl)
