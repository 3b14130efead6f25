-- ===== src/Serving/Live/Tally.antt =====
-- How often an identifier stands in a queue.
use mini_gpt.Prelude.{
  ℕ, ◌+◌, ◌-◌, ◌≤◌, ◌<◌, ◌≡◌, String, true, List, [], ◌∷◌, ◌++◌, arith, bit, str_eq, eq_iff, length,
}
use mini_gpt.Serving.State.{holds, remove_one}

abbrev pub tally : String → List String → ℕ
tally id [] = 0
tally id (j ∷ js) = bit (str_eq j id) + tally id js

pub tally-append :
    (id : String) (xs ys : List String) → tally id (xs ++ ys) ≡ tally id xs + tally id ys
tally-append id [] ys = omega arith
tally-append id (x ∷ xs) ys = omega (arith, tally-append id xs ys)

pub tally-remove_one :
    (js : List String) (id j : String) → tally j (remove_one js id) ≡ tally j js - bit (str_eq id j)
tally-remove_one [] id j = omega arith
tally-remove_one (k ∷ js) id j =
    ground (arith, eq_iff k id, eq_iff k j, eq_iff id j, tally-remove_one js id j)

pub length-remove_one : (js : List String) (id : String) → length (remove_one js id) ≤ length js
length-remove_one [] id = omega arith
length-remove_one (k ∷ js) id = ground (arith, length-remove_one js id)

pub holds-tally : (js : List String) (id : String) → holds js id ≡ true → 0 < tally id js
holds-tally [] id h = cc
holds-tally (k ∷ js) id h = ground (arith, holds-tally js id)
