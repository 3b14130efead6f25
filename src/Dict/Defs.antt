-- ===== src/Dict/Defs.antt =====
-- The operations of a `dict` that the sources use. An iteration goes by insertion.
use mini_gpt.Prelude.{
  ℕ, ◌+◌, String, Option, none, some, Bool, true, false, List, [], ◌∷◌, ◌&&◌, ◌≡◌, str_eq,
  if◌then◌else◌,
}

abbrev pub Dict : Type 0 → Type 0
Dict V = List (String × V)

module _ {V : Type 0} where
  -- d.get(key)
  unfoldable pub get : Dict V → String → Option V
  get [] key = none
  get ((j, v) ∷ d) key = if str_eq j key then some v else get d key

  -- key in d
  unfoldable pub contains : Dict V → String → Bool
  contains [] key = false
  contains ((j, v) ∷ d) key = if str_eq j key then true else contains d key

  -- d[key] = value: a key that is there keeps its place, a new one goes to the end.
  unfoldable pub put : Dict V → String → V → Dict V
  put [] key value = (key, value) ∷ []
  put ((j, v) ∷ d) key value = if str_eq j key then (j, value) ∷ d else (j, v) ∷ put d key value

  -- del d[key], where the key is known to be there
  unfoldable pub delete : Dict V → String → Dict V
  delete [] key = []
  delete ((j, v) ∷ d) key = if str_eq j key then d else (j, v) ∷ delete d key

  -- tuple(d)
  unfoldable pub keys : Dict V → List String
  keys [] = []
  keys ((j, v) ∷ d) = j ∷ keys d

  -- A sum over d.values().
  unfoldable pub sum_values : (V → ℕ) → Dict V → ℕ
  sum_values f [] = 0
  sum_values f ((j, v) ∷ d) = f v + sum_values f d

  -- all(test(key, value) for key, value in d.items())
  unfoldable pub all_items : (String → V → Bool) → Dict V → Bool
  all_items p [] = true
  all_items p ((j, v) ∷ d) = p j v && all_items p d

  -- The number of entries.
  unfoldable pub size : Dict V → ℕ
  size [] = 0
  size ((j, v) ∷ d) = 1 + size d

  -- No key stands twice, as in every `dict`.
  abbrev pub IsDistinct : Dict V → Type 0
  IsDistinct [] = Unit
  IsDistinct ((j, v) ∷ d) = (contains d j ≡ false) × IsDistinct d

  -- `P` holds of every entry.
  abbrev pub Items : (String → V → Type 0) → Dict V → Type 0
  Items P [] = Unit
  Items P ((j, v) ∷ d) = P j v × Items P d
