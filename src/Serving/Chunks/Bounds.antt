-- ===== src/Serving/Chunks/Bounds.antt =====
-- The chunks that a chunked tick selects: their order, their lengths, and the limits they keep.
use mini_gpt.Prelude.{ℕ, ◌<◌, ◌≡◌, refl, String, List}
use mini_gpt.Dict.{get}
use mini_gpt.Prelude.{some}
use mini_gpt.Exec.{Ends, Ends-option, Result, returns, raises}
use mini_gpt.Serving.Types.{PrefillBatchConfig, Engine}
use mini_gpt.Serving.State.{state_of}
use mini_gpt.Serving.Chunks.{select_prefill}
use mini_gpt.Serving.Chunks.Selection.{Taken, GoodChunks}

module _ {T : Type 0} where
  pub known_state :
      (id : String) (e : Engine T)
      → Ends (λ s e'. (e' ≡ e) × (get e.states id ≡ some s)) (λ _ _. Unit {0}) (state_of id e)
  unfolding state_of
  known_state id e =
      Ends-option (get e.states id) (λ _. raises tt) (λ s found. returns (refl, found))

module _ (T : Type 0) (c : PrefillBatchConfig) (chunk_size block_size : ℕ) (excluded : List String)
    (positive : 0 < block_size) where
  abbrev Chosen :
      Engine T → ℕ → List ℕ → List String → Result (List (String × ℕ)) × Engine T → Type 0
  Chosen e budget lengths ids =
      Ends
        (λ chunks e'.
          (e' ≡ e)
          × (GoodChunks e c chunk_size block_size budget lengths chunks
              × Taken e c chunk_size block_size excluded budget lengths ids chunks))
        (λ _ _. Unit {0})

  abbrev ChosenFrom : List String → Type 0
  ChosenFrom ids =
      (budget : ℕ) (lengths : List ℕ) (e : Engine T)
      → Chosen e budget lengths ids
          (select_prefill c chunk_size block_size excluded budget lengths ids e)
