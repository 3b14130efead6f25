-- ===== src/Serving/Chunks/Selection.antt =====
-- What a selection of prefill chunks promises.
use mini_gpt.Prelude.{
  ℕ, ◌-◌, ◌≤◌, ◌≡◌, ◌⊎◌, refl, sym, ◌∙◌, ap, inl, inr, String, true, false, List, [], ◌∷◌, ◌++◌,
  arith,
}
use mathlib.Core.List.{append_assoc}
use mini_gpt.Dict.{get}
use mini_gpt.PagedKvCache.Types.{PagedKvCachePool, RequestTable}
use mini_gpt.Serving.Types.{RequestState}
use mini_gpt.Prelude.{length, some}
use mini_gpt.Serving.Types.{PrefillBatchConfig, Engine}
use mini_gpt.Serving.State.{holds}
use mini_gpt.Serving.Chunks.{sum, batch_fits}
use mini_gpt.Serving.Chunks.Length.{GoodChunk, Stops}

-- What is left of a request's prompt past its table in the pool, in the given engine.
pub record Remains {T : Type 0} (e : Engine T) (id : String) (remaining : ℕ) : Type 0 where
  pub state : RequestState T
  pub pool : PagedKvCachePool T
  pub table : RequestTable
  pub has_state : get e.states id ≡ some state
  pub has_pool : e.pool ≡ some pool
  pub has_table : get pool.tables id ≡ some table
  pub left : remaining ≡ length state.request.prompt_tokens - table.cache_length

-- How chunks come of a list of requests: in its order, with none of an excluded request. A request
-- is passed over where it is excluded, the budget is spent or its prompt is done, and the list is
-- left before its end only at a request of which no chunk can be taken.
pub data Taken {T : Type 0} (e : Engine T) (c : PrefillBatchConfig) (chunk_size block_size : ℕ)
    (excluded : List String) : ℕ → List ℕ → List String → List (String × ℕ) → Type 0 where
  taken_end : {b : ℕ} {l : List ℕ} → Taken e c chunk_size block_size excluded b l [] []
  leave :
      {b : ℕ} {l : List ℕ} {id : String} {ids : List String} {chunks : List (String × ℕ)}
      → (holds excluded id ≡ true) ⊎ ((b ≡ 0) ⊎ Remains e id 0)
      → Taken e c chunk_size block_size excluded b l ids chunks
      → Taken e c chunk_size block_size excluded b l (id ∷ ids) chunks
  stop_before :
      {b : ℕ} {l : List ℕ} {id : String} {ids : List String} {remaining : ℕ}
      → Remains e id remaining
      → Stops c chunk_size block_size b l remaining
      → Taken e c chunk_size block_size excluded b l (id ∷ ids) []
  take_next :
      {b : ℕ} {l : List ℕ} {id : String} {ids : List String} {n : ℕ} {chunks : List (String × ℕ)}
      → holds excluded id ≡ false
      → Taken e c chunk_size block_size excluded (b - n) (l ++ n ∷ []) ids chunks
      → Taken e c chunk_size block_size excluded b l (id ∷ ids) ((id, n) ∷ chunks)

-- The chunks that a selection returns, each admissible after those before it.
abbrev pub GoodChunks :
    {T : Type 0} → Engine T → PrefillBatchConfig → ℕ → ℕ → ℕ → List ℕ → List (String × ℕ) → Type 0
GoodChunks e c chunk_size block_size budget lengths [] = Unit
GoodChunks e c chunk_size block_size budget lengths ((id, n) ∷ chunks) =
    ((remaining : ℕ) × Remains e id remaining
      × GoodChunk c chunk_size block_size budget remaining lengths n)
    × GoodChunks e c chunk_size block_size (budget - n) (lengths ++ n ∷ []) chunks

abbrev pub lengths_of : List (String × ℕ) → List ℕ
lengths_of [] = []
lengths_of ((id, n) ∷ chunks) = n ∷ lengths_of chunks

pub GoodChunks-budget :
    {T : Type 0} (e : Engine T) (c : PrefillBatchConfig) (chunk_size block_size budget : ℕ)
    (lengths : List ℕ) (chunks : List (String × ℕ))
    → GoodChunks e c chunk_size block_size budget lengths chunks
    → sum (lengths_of chunks) ≤ budget
GoodChunks-budget e c k b budget lengths [] g = omega arith
GoodChunks-budget e c k b budget lengths ((id, n) ∷ chunks) ((r, left, g), gs) =
    omega
      (arith, g.within_budget, GoodChunks-budget e c k b (budget - n) (lengths ++ n ∷ []) chunks gs)

pub GoodChunks-fits :
    {T : Type 0} (e : Engine T) (c : PrefillBatchConfig) (chunk_size block_size budget : ℕ)
    (lengths : List ℕ) (chunks : List (String × ℕ))
    → GoodChunks e c chunk_size block_size budget lengths chunks
    → (chunks ≡ []) ⊎ (batch_fits c (lengths ++ lengths_of chunks) ≡ true)
GoodChunks-fits e c k b budget lengths [] g = inl refl
GoodChunks-fits e c k b budget lengths ((id, n) ∷ []) ((r, left, g), gs) = inr g.fits
GoodChunks-fits e c k b budget lengths ((id, n) ∷ (j, m) ∷ chunks) ((r, left, g), gs) =
    elim (GoodChunks-fits e c k b (budget - n) (lengths ++ n ∷ []) ((j, m) ∷ chunks) gs) [
      | inl p ↦ absurd (no_chunks p)
      | inr p ↦
          inr (sym (ap (batch_fits c) (append_assoc lengths (n ∷ []) (m ∷ lengths_of chunks))) ∙ p)
    ]
  where
    no_chunks : {x : String × ℕ} {xs : List (String × ℕ)} → x ∷ xs ≡ [] → ⊥
    no_chunks p = cc

-- What a selection of chunks promises.
pub record Selected {T : Type 0} (e : Engine T) (c : PrefillBatchConfig) (chunk_size block_size : ℕ)
    (excluded : List String) (budget : ℕ) (ids : List String) (chunks : List (String × ℕ))
    : Type 0 where
  pub each : GoodChunks e c chunk_size block_size budget [] chunks
  pub in_order : Taken e c chunk_size block_size excluded budget [] ids chunks
  pub within_budget : sum (lengths_of chunks) ≤ budget
  pub one_batch : (chunks ≡ []) ⊎ (batch_fits c (lengths_of chunks) ≡ true)
