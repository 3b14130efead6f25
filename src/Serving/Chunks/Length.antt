-- ===== src/Serving/Chunks/Length.antt =====
-- The length of a chunk, and when none is taken.
use mini_gpt.Prelude.{
  ℕ, ◌+◌, ◌-◌, ◌%◌, ◌≤◌, ◌<◌, ◌≡◌, ◌⊎◌, sym, inl, inr, min, true, false, List, [], ◌∷◌, ◌++◌, arith,
  ltb, Bool-cases,
}
use mathlib.Core.Path.{subst}
use mini_gpt.Exec.{Ends, Result, ok, err, returns, raises}
use mini_gpt.Serving.Types.{PrefillBatchConfig}
use mini_gpt.Serving.Chunks.{batch_fits, chunk_length, Choice, select, pass, stop, choose_chunk}

-- Whatever a call does: it returns, or it raises.
pub Ends-any : {S A : Type 0} (r : Result A × S) → Ends (λ _ _. Unit {0}) (λ _ _. Unit {0}) r
Ends-any (ok a, s) = returns tt
Ends-any (err x, s) = raises tt

-- The room for a chunk, whatever the prompt.
abbrev pub room : (chunk_size budget batch_tokens : ℕ) → ℕ
room chunk_size budget batch_tokens = min (min chunk_size budget) batch_tokens

-- What makes a chunk admissible after the chunks with the given lengths.
pub record GoodChunk (c : PrefillBatchConfig) (chunk_size block_size budget remaining : ℕ)
    (lengths : List ℕ) (n : ℕ) : Type 0 where
  pub progress : 0 < n
  pub within_chunk : n ≤ chunk_size
  pub within_budget : n ≤ budget
  pub within_prompt : n ≤ remaining
  pub whole_blocks : (n ≡ remaining) ⊎ (n % block_size ≡ 0)
  pub largest : (n ≡ remaining) ⊎ (room chunk_size budget c.max_batch_tokens < n + block_size)
  pub fits : batch_fits c (lengths ++ n ∷ []) ≡ true

-- Why no chunk of a request is taken, nor of any after it: there is room neither for a block nor
-- for the rest of its prompt, or the chunk for which there is room does not fit the batch.
abbrev pub Stops : PrefillBatchConfig → ℕ → ℕ → ℕ → List ℕ → ℕ → Type 0
Stops c chunk_size block_size budget lengths remaining =
    (0 < remaining)
    × ((room chunk_size budget c.max_batch_tokens < min block_size remaining)
        ⊎ ((n : ℕ) × ((n ≡ remaining)
              ⊎ (room chunk_size budget c.max_batch_tokens < n + block_size))
            × (batch_fits c (lengths ++ n ∷ []) ≡ false)))

whole_part : (n d : ℕ) → 0 < d → (n - n % d) % d ≡ 0
whole_part n d h = grind arith

chunk_length_bounds :
    (chunk_size block_size budget remaining batch_tokens : ℕ)
    → (chunk_length chunk_size block_size budget remaining batch_tokens ≤ chunk_size)
      × (chunk_length chunk_size block_size budget remaining batch_tokens ≤ budget)
      × (chunk_length chunk_size block_size budget remaining batch_tokens ≤ remaining)
unfolding chunk_length
chunk_length_bounds chunk_size block_size budget remaining batch_tokens = ground arith

chunk_length_whole :
    (chunk_size block_size budget remaining batch_tokens : ℕ)
    → 0 < block_size
    → (chunk_length chunk_size block_size budget remaining batch_tokens ≡ remaining)
      ⊎ (chunk_length chunk_size block_size budget remaining batch_tokens % block_size ≡ 0)
unfolding chunk_length
chunk_length_whole chunk_size block_size budget remaining batch_tokens h =
    elim (Bool-cases (ltb (min (min chunk_size budget) (min remaining batch_tokens)) remaining)) [
      | inl e ↦ inr (
          rw e (whole_part (min (min chunk_size budget) (min remaining batch_tokens)) block_size h))
      | inr e ↦ inl (rw e (ground arith))
    ]

whole_largest : (n d : ℕ) → 0 < d → n < (n - n % d) + d
whole_largest n d h = grind arith

chunk_length_largest :
    (chunk_size block_size budget remaining batch_tokens : ℕ)
    → 0 < block_size
    → (chunk_length chunk_size block_size budget remaining batch_tokens ≡ remaining)
      ⊎ (room chunk_size budget batch_tokens
          < chunk_length chunk_size block_size budget remaining batch_tokens + block_size)
unfolding chunk_length
chunk_length_largest chunk_size block_size budget remaining batch_tokens h =
    let n = min (min chunk_size budget) (min remaining batch_tokens) in
    elim (Bool-cases (ltb n remaining)) [
      | inl e ↦ inr (rw e (ground (arith, whole_largest n block_size h, e)))
      | inr e ↦ inl (rw e (ground arith))
    ]

chunk_length_none :
    (chunk_size block_size budget remaining batch_tokens : ℕ)
    → 0 < block_size
    → 0 < remaining
    → chunk_length chunk_size block_size budget remaining batch_tokens ≡ 0
    → room chunk_size budget batch_tokens < min block_size remaining
unfolding chunk_length
chunk_length_none chunk_size block_size budget remaining batch_tokens h some_left none_taken =
    let n = min (min chunk_size budget) (min remaining batch_tokens) in
    elim (Bool-cases (ltb n remaining)) [
      | inl e ↦ ground (arith, whole_largest n block_size h, e, none_taken)
      | inr e ↦ ground (arith, e, none_taken)
    ]

choice_length : Choice → ℕ
choice_length (select n) = n
choice_length pass = 0
choice_length stop = 0

module _ (c : PrefillBatchConfig) (chunk_size block_size budget : ℕ) (lengths : List ℕ)
    (remaining n : ℕ)
    (e : choose_chunk c chunk_size block_size budget lengths remaining ≡ select n) where
  chosen_length : n ≡ chunk_length chunk_size block_size budget remaining c.max_batch_tokens
  unfolding choose_chunk
  chosen_length = ground arith

  pub choose_chunk-GoodChunk :
      0 < block_size → GoodChunk c chunk_size block_size budget remaining lengths n
  unfolding choose_chunk
  choose_chunk-GoodChunk h =
      let bounds = chunk_length_bounds chunk_size block_size budget remaining c.max_batch_tokens in
      record {
        progress = ground arith;
        within_chunk = omega (arith, chosen_length, bounds.0);
        within_budget = omega (arith, chosen_length, bounds.1);
        within_prompt = omega (arith, chosen_length, bounds.2);
        whole_blocks =
            subst (λ m. (m ≡ remaining) ⊎ (m % block_size ≡ 0)) (sym chosen_length)
              (chunk_length_whole chunk_size block_size budget remaining c.max_batch_tokens h);
        largest =
            subst
              (λ m. (m ≡ remaining) ⊎ (room chunk_size budget c.max_batch_tokens < m + block_size))
              (sym chosen_length)
              (chunk_length_largest chunk_size block_size budget remaining c.max_batch_tokens h);
        fits = ground arith;
      }

module _ (c : PrefillBatchConfig) (chunk_size block_size budget : ℕ) (lengths : List ℕ)
    (remaining : ℕ) where
  pub passes_empty :
      choose_chunk c chunk_size block_size budget lengths remaining ≡ pass → remaining ≡ 0
  unfolding choose_chunk
  passes_empty e = ground arith

  stops_cases :
      choose_chunk c chunk_size block_size budget lengths remaining ≡ stop
      → (0 < remaining)
        × ((chunk_length chunk_size block_size budget remaining c.max_batch_tokens ≡ 0)
            ⊎ (batch_fits c (
                  lengths
                  ++ chunk_length chunk_size block_size budget remaining c.max_batch_tokens ∷ [])
                ≡ false))
  unfolding choose_chunk
  stops_cases e = ground arith

  pub choose_chunk-Stops :
      0 < block_size
      → choose_chunk c chunk_size block_size budget lengths remaining ≡ stop
      → Stops c chunk_size block_size budget lengths remaining
  choose_chunk-Stops h e =
      let (some_left, why) = stops_cases e in
      (
        some_left,
        elim why [
          | inl none_taken ↦ inl (
              chunk_length_none chunk_size block_size budget remaining c.max_batch_tokens h
                some_left none_taken)
          | inr unfit ↦ inr (
            _,
            chunk_length_largest chunk_size block_size budget remaining c.max_batch_tokens h,
            unfit,
          )
        ],
      )
