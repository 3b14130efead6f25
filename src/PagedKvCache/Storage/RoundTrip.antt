-- ===== src/PagedKvCache/Storage/RoundTrip.antt =====
-- What `_write_cache` scatters over the blocks, the gathering loop of `materialize` reads back.
use mini_gpt.Prelude.{
  ℕ, zero, suc, ◌+◌, ◌-◌, ◌*◌, ◌≤◌, ◌<◌, ◌≡◌, refl, sym, ◌∙◌, ap, min, some, List, [], ◌∷◌, ◌++◌,
  arith, ◌==◌, length, get_elem?, take, drop, take-append-drop, Bool-cases, inl, inr, if◌then◌else◌,
  some-eq,
}
use mathlib.Core.Path.{ap₂}
use mini_gpt.Prelude.Tally.{count}
use mini_gpt.PagedKvCache.Types.{Storage}
use mini_gpt.PagedKvCache.Blocks.{ceil_div}
use mini_gpt.PagedKvCache.Storage.{
  LayerKvCache, KvCache, row_or, write_rows, write_block, write_blocks, read_rows, gather,
}

module _ {T : Type 0} where
  row_or_get : (d : T) (xs : List T) (k : ℕ) → k < length xs → get_elem? xs k ≡ some (row_or d xs k)
  row_or_get d [] k h = elim h [ ]
  row_or_get d (x ∷ xs) zero h = refl
  row_or_get d (x ∷ xs) (suc k) h = row_or_get d xs k (omega arith)

  drop_get :
      (xs : List T) (m : ℕ) {x : T} → get_elem? xs m ≡ some x → drop m xs ≡ x ∷ drop (suc m) xs
  drop_get [] m e = cc
  drop_get (y ∷ xs) zero e = ap (λ z. z ∷ xs) (some-eq e)
  drop_get (y ∷ xs) (suc m) e = drop_get xs m e

  drop_all : (xs : List T) (m : ℕ) → length xs ≤ m → drop m xs ≡ []
  drop_all [] zero h = refl
  drop_all [] (suc m) h = refl
  drop_all (x ∷ xs) zero h = absurd (omega arith)
  drop_all (x ∷ xs) (suc m) h = drop_all xs m (omega arith)

  drop-drop : (xs : List T) (m n : ℕ) → drop n (drop m xs) ≡ drop (m + n) xs
  drop-drop xs zero n = ap (λ k. drop k xs) (omega arith)
  drop-drop [] (suc m) n = drop_all [] n (omega arith) ∙ sym (drop_all [] (suc m + n) (omega arith))
  drop-drop (x ∷ xs) (suc m) n = drop-drop xs m n ∙ ap (λ k. drop k (x ∷ xs)) (step m n)
    where
      step : (m n : ℕ) → suc (m + n) ≡ suc m + n
      step m n = omega arith

  read_rows-slice :
      (f : ℕ → T) (offset m n : ℕ) (rows : List T)
      → ((k : ℕ) → k < n → get_elem? rows (m + k) ≡ some (f (offset + k)))
      → read_rows f offset n ≡ take n (drop m rows)
  read_rows-slice f offset m zero rows h = refl
  read_rows-slice f offset m (suc n) rows h =
      let first : get_elem? rows m ≡ some (f offset) =
        ap (get_elem? rows) (omega arith)
        ∙ h 0 (omega arith)
        ∙ ap (λ k. some (f k)) (omega arith) in
      rw (drop_get rows m first) (
        ap (◌∷◌ (f offset)) (
          read_rows-slice f (offset + 1) (suc m) n rows (λ k l.
            ap (get_elem? rows) (omega arith)
            ∙ h (suc k) (omega arith)
            ∙ ap (λ j. some (f j)) (omega arith))))

  -- One of the two tensors, through the loop of `_write_cache`.
  write_side :
      (LayerKvCache T → List T) → KvCache T → ℕ → List ℕ → ℕ → ℕ → (ℕ → ℕ → ℕ → T) → ℕ → ℕ → ℕ → T
  write_side side cache bt [] cache_length position old = old
  write_side side cache bt (i ∷ is) cache_length position old =
      let used = min bt (cache_length - position) in
      write_side side cache bt is cache_length (position + used)
        (write_rows side cache i position used old)

  keys_written :
      (cache : KvCache T) (bt : ℕ) (is : List ℕ) (cache_length position : ℕ) (s : Storage T)
      → (write_blocks cache bt is cache_length position s).0.key_blocks
        ≡ write_side (λ l. l.key.rows) cache bt is cache_length position s.key_blocks
  unfolding write_blocks write_side
  keys_written cache bt [] cache_length position s = refl
  keys_written cache bt (i ∷ is) cache_length position s =
      keys_written cache bt is cache_length (position + min bt (cache_length - position))
        (write_block cache i position (min bt (cache_length - position)) s)

  values_written :
      (cache : KvCache T) (bt : ℕ) (is : List ℕ) (cache_length position : ℕ) (s : Storage T)
      → (write_blocks cache bt is cache_length position s).0.value_blocks
        ≡ write_side (λ l. l.value.rows) cache bt is cache_length position s.value_blocks
  unfolding write_blocks write_side
  values_written cache bt [] cache_length position s = refl
  values_written cache bt (i ∷ is) cache_length position s =
      values_written cache bt is cache_length (position + min bt (cache_length - position))
        (write_block cache i position (min bt (cache_length - position)) s)

  -- The loop fills the cache exactly if the blocks are long enough together.
  pub write_blocks_end :
      (cache : KvCache T) (bt : ℕ) (is : List ℕ) (cache_length position : ℕ) (s : Storage T)
      → position ≤ cache_length
      → cache_length ≤ position + length is * bt
      → (write_blocks cache bt is cache_length position s).1 ≡ cache_length
  unfolding write_blocks
  write_blocks_end cache bt [] cache_length position s h g = omega arith
  write_blocks_end cache bt (i ∷ is) cache_length position s h g =
      write_blocks_end cache bt is cache_length (position + min bt (cache_length - position))
        (write_block cache i position (min bt (cache_length - position)) s) (omega arith)
        (omega arith)

  write_side_other :
      (side : LayerKvCache T → List T) (cache : KvCache T) (bt : ℕ) (is : List ℕ)
      (cache_length position : ℕ) (old : ℕ → ℕ → ℕ → T) (l b o : ℕ)
      → count b is ≡ 0
      → write_side side cache bt is cache_length position old l b o ≡ old l b o
  unfolding write_side
  write_side_other side cache bt [] cache_length position old l b o h = refl
  write_side_other side cache bt (i ∷ is) cache_length position old l b o h =
      let used = min bt (cache_length - position) in
      write_side_other side cache bt is cache_length (position + used)
        (write_rows side cache i position used old) l b o (omega arith)
      ∙ ground arith

  write_rows_hit :
      (side : LayerKvCache T → List T) (cache : KvCache T) (i position used : ℕ)
      (old : ℕ → ℕ → ℕ → T) (l o : ℕ) {lay : LayerKvCache T}
      → get_elem? cache l ≡ some lay
      → o < used
      → write_rows side cache i position used old l i o
        ≡ row_or (old l i o) (side lay) (position + o)
  write_rows_hit side cache i position used old l o e h = ground arith

  written_rows :
      (side : LayerKvCache T → List T) (cache : KvCache T) (bt i : ℕ) (is : List ℕ)
      (cache_length position used : ℕ) (old : ℕ → ℕ → ℕ → T) (l : ℕ) {lay : LayerKvCache T}
      → get_elem? cache l ≡ some lay
      → count i is ≡ 0
      → position + used ≤ length (side lay)
      → read_rows
          (write_side side cache bt is cache_length
            (position + used)
            (write_rows side cache i position used old)
            l
            i)
          0
          used
        ≡ take used (drop position (side lay))
  written_rows side cache bt i is cache_length position used old l {lay} e here long =
      read_rows-slice _ 0 position used (side lay) λ k h.
        row_or_get (old l i k) (side lay) (position + k) (omega arith)
        ∙ ap some (
            sym (
              write_side_other side cache bt is cache_length (position + used)
                (write_rows side cache i position used old) l i (0 + k) here
              ∙ ap (write_rows side cache i position used old l i) (omega arith)
              ∙ write_rows_hit side cache i position used old l k e h))

  rest_rows :
      (f : ℕ → ℕ → T) (bt remaining remaining' : ℕ) (is : List ℕ) (rows : List T) (position : ℕ)
      → remaining ≡ remaining'
      → (remaining' ≡ 0 → length rows ≤ position)
      → gather f bt remaining' is ≡ drop position rows
      → (if remaining == 0 then [] else gather f bt remaining is) ≡ drop position rows
  rest_rows f bt remaining remaining' is rows position e z h = elim (Bool-cases (remaining == 0)) [
    | inl q ↦ rw q (sym (drop_all rows position (z (ground arith))))
    | inr q ↦ rw q (ap (λ k. gather f bt k is) e ∙ h)
  ]

  -- The rows come back, from the position that the loop stands at.
  gather-write_side :
      (side : LayerKvCache T → List T) (cache : KvCache T) (bt : ℕ) (is : List ℕ)
      (cache_length position : ℕ) (old : ℕ → ℕ → ℕ → T) (l : ℕ) {lay : LayerKvCache T}
      → get_elem? cache l ≡ some lay
      → length (side lay) ≡ cache_length
      → ((i : ℕ) → count i is ≤ 1)
      → position ≤ cache_length
      → cache_length ≤ position + length is * bt
      → gather
          (write_side side cache bt is cache_length position old l)
          bt
          (cache_length - position)
          is
        ≡ drop position (side lay)
  unfolding gather write_side
  gather-write_side side cache bt [] cache_length position old l {lay} e n once h g =
      sym (drop_all (side lay) position (omega (arith, n)))
  gather-write_side side cache bt (i ∷ is) cache_length position old l {lay} e n once h g =
      let used = min bt (cache_length - position) in
      let mid = write_rows side cache i position used old in
      let here : count i is ≡ 0 = ground (arith, once i) in
      let f = write_side side cache bt is cache_length (position + used) mid l in
      let first =
        ap (read_rows (f i) 0) (omega arith)
        ∙ written_rows side cache bt i is cache_length position used old l e here
            (omega (arith, n)) in
      let rest =
        rest_rows f bt (cache_length - position - min (cache_length - position) bt)
          (cache_length - (position + used)) is (side lay) (position + used) (omega arith)
          (λ z. omega (arith, n))
          (gather-write_side side cache bt is cache_length (position + used) mid l e n
            (λ j. omega (arith, once j)) (omega arith) (omega arith)) in
      ap₂ ◌++◌ first rest
      ∙ ap (◌++◌ (take used (drop position (side lay)))) (sym (drop-drop (side lay) position used))
      ∙ take-append-drop used (drop position (side lay))

module _ {T : Type 0} (cache : KvCache T) (bt : ℕ) (is : List ℕ) (n : ℕ) (s : Storage T) (l : ℕ)
    {lay : LayerKvCache T} (e : get_elem? cache l ≡ some lay) (once : (i : ℕ) → count i is ≤ 1)
    (enough : n ≤ length is * bt) where
  -- The keys of a layer that `_write_cache` scatters over distinct blocks, with room for all of
  -- them, are the keys that are gathered from these blocks in order.
  pub gather-keys :
      length lay.key.rows ≡ n
      → gather ((write_blocks cache bt is n 0 s).0.key_blocks l) bt n is ≡ lay.key.rows
  gather-keys h =
      ap (λ f. gather (f l) bt n is) (keys_written cache bt is n 0 s)
      ∙ ap (λ k. gather (write_side (λ x. x.key.rows) cache bt is n 0 s.key_blocks l) bt k is)
          (omega arith)
      ∙ gather-write_side (λ x. x.key.rows) cache bt is n 0 s.key_blocks l e h once (omega arith)
          (omega (arith, enough))

  -- The values of a layer that `_write_cache` scatters over distinct blocks, with room for all of
  -- them, are the values that are gathered from these blocks in order.
  pub gather-values :
      length lay.value.rows ≡ n
      → gather ((write_blocks cache bt is n 0 s).0.value_blocks l) bt n is ≡ lay.value.rows
  gather-values h =
      ap (λ f. gather (f l) bt n is) (values_written cache bt is n 0 s)
      ∙ ap (λ k. gather (write_side (λ x. x.value.rows) cache bt is n 0 s.value_blocks l) bt k is)
          (omega arith)
      ∙ gather-write_side (λ x. x.value.rows) cache bt is n 0 s.value_blocks l e h once
          (omega arith) (omega (arith, enough))

-- Enough blocks are asked for.
pub ceil_div_enough : (n d : ℕ) → 0 < d → n ≤ ceil_div n d * d
unfolding ceil_div
ceil_div_enough n d h = grind arith
