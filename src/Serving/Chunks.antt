-- ===== src/Serving/Chunks.antt =====
-- src/minigpt/serving.py: which requests a chunked tick selects, within its token budget.
pub mod Length
pub mod Selection
pub mod Bounds
pub mod Tables
pub mod Growth
pub mod Charges
use mini_gpt.Prelude.{
  ℕ, zero, suc, ◌+◌, ◌-◌, ◌*◌, ◌%◌, min, max, String, Option, none, some, Bool, true, false, List,
  [], ◌∷◌, ◌++◌, ◌&&◌, ◌||◌, not, ltb, leb, ◌==◌, str_eq, if◌then◌else◌, length, take, drop,
}
use mini_gpt.Prelude.Int.{ℤ}
use mini_gpt.Exec.{Exec, Result, ok, err, Error, pure, raise, continue, ◌>>=◌, ◌>>◌}
use mini_gpt.PagedKvCache.Types.{PagedKvCachePool}
use mini_gpt.PagedKvCache.Reservation.{table_of}
use mini_gpt.Serving.Types.{RequestState, Ratio, PrefillBatchConfig, Engine}
use mini_gpt.Serving.State.{holds, is_recomputing, state_of}
use mini_gpt.Serving.Execute.{Executor}
use mini_gpt.Serving.Commit.{with_pool}
use mini_gpt.Serving.Pressure.{
  recompute_model_work, decode_model_work, ensure_operation_reservation,
}

abbrev pub index_of : String → List String → ℕ
index_of id [] = 0
index_of id (j ∷ js) = if str_eq j id then 0 else suc (index_of id js)

-- _rotate_chunked_ids
unfoldable pub rotate_chunked_ids : Option String → List String → List String
rotate_chunked_ids none ids = ids
rotate_chunked_ids (some cursor) ids =
    if holds ids cursor
    then drop (index_of cursor ids) ids ++ take (index_of cursor ids) ids
    else ids

abbrev pub sum : List ℕ → ℕ
sum [] = 0
sum (n ∷ ns) = n + sum ns

abbrev pub largest : List ℕ → ℕ
largest [] = 0
largest (n ∷ ns) = max n (largest ns)

-- len(candidate_lengths) * max(candidate_lengths)
abbrev pub padded_tokens : List ℕ → ℕ
padded_tokens lengths = length lengths * largest lengths

-- The batch fits the executor's limits. The ratio of padding is compared as a fraction.
unfoldable pub batch_fits : PrefillBatchConfig → List ℕ → Bool
batch_fits c lengths =
    leb (length lengths) c.max_batch_size
    && (leb (padded_tokens lengths) c.max_batch_tokens
        && leb ((padded_tokens lengths - sum lengths) * c.max_padding_ratio.denominator)
            (c.max_padding_ratio.numerator * padded_tokens lengths))

-- The tokens of a chunk: a whole number of blocks, or all that is left of the prompt.
unfoldable pub chunk_length : (chunk_size block_size budget remaining batch_tokens : ℕ) → ℕ
chunk_length chunk_size block_size budget remaining batch_tokens =
    let n = min (min chunk_size budget) (min remaining batch_tokens) in
    if ltb n remaining then n - n % block_size else n

-- What the loop of `_select_chunked_prefill` does with the next request: it selects a chunk of it,
-- passes it over, or ends.
pub data Choice : Type 0 where
  select : ℕ → Choice
  pass stop : Choice

unfoldable pub choose_chunk : PrefillBatchConfig → ℕ → ℕ → ℕ → List ℕ → ℕ → Choice
unfolding chunk_length batch_fits
choose_chunk c chunk_size block_size budget lengths remaining =
    let n = chunk_length chunk_size block_size budget remaining c.max_batch_tokens in
    if remaining == 0
    then pass
    else if n == 0
    then stop
    else if batch_fits c (lengths ++ n ∷ [])
    then select n
    else stop

module _ {T : Type 0} where
  -- len(prompt) - cache_length of the request's table
  unfoldable pub remaining_prompt : String → Exec (Engine T) ℕ
  unfolding state_of table_of
  remaining_prompt id = do
    s ← state_of id
    t ← with_pool (table_of id)
    pure (length s.request.prompt_tokens - t.cache_length)

  -- The loop of `_select_chunked_prefill`, from the lengths that were selected so far.
  unfoldable pub select_prefill :
      PrefillBatchConfig
      → ℕ
      → ℕ
      → List String
      → ℕ
      → List ℕ
      → List String
      → Exec (Engine T) (List (String × ℕ))
  unfolding remaining_prompt choose_chunk
  select_prefill c chunk_size block_size excluded budget lengths [] = pure []
  select_prefill c chunk_size block_size excluded budget lengths (id ∷ ids) =
      if holds excluded id || (budget == 0)
      then select_prefill c chunk_size block_size excluded budget lengths ids
      else (do
        remaining ← remaining_prompt id
        elim (choose_chunk c chunk_size block_size budget lengths remaining) [
          | stop ↦ pure []
          | pass ↦ select_prefill c chunk_size block_size excluded budget lengths ids
          | select n ↦ (do
            rest ←
                select_prefill c chunk_size block_size excluded (budget - n) (lengths ++ n ∷ []) ids
            pure ((id, n) ∷ rest))
        ])

  -- The work that a decode or a recomputation of the request is charged with.
  abbrev pub operation_work : ℕ → Option (PagedKvCachePool T) → RequestState T → ℕ
  operation_work block_size pool s =
      if is_recomputing s.status
      then recompute_model_work block_size s
      else decode_model_work block_size pool s

  -- The loop of `_select_chunked_decode`, with the budget that is left: the selected requests, their
  -- work, and the request that had to wait.
  unfoldable pub select_decode :
      Executor T → ℤ → ℕ → List String → Exec (Engine T) (List String × ℕ × Option String)
  unfolding state_of ensure_operation_reservation
  select_decode executor tick_time budget [] = pure ([], 0, none)
  select_decode executor tick_time budget (id ∷ ids) = do
    s ← state_of id
    work ← λ e. (ok (operation_work executor.block_size e.pool s), e)
    if ltb budget work then pure ([], 0, some id) else (do
      granted ← ensure_operation_reservation executor s tick_time true
      if granted
          then (do
            rest ← select_decode executor tick_time (budget - work) ids
            pure (id ∷ rest.0, work + rest.1, rest.2))
          else pure ([], 0, some id))
