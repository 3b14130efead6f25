-- ===== src/PagedKvCache/Storage.antt =====
-- src/minigpt/paged_kv_cache.py: the K/V tensors. `_validate_cache`, `_write_cache`, `_write_token`,
-- `materialize` and the dense caches of minigpt/layers.py that they read.
pub mod RoundTrip
pub mod Validate
pub mod Tail
use mini_gpt.Prelude.{
  ℕ, zero, suc, ◌+◌, ◌-◌, min, String, Option, none, some, Bool, true, false, List, [], ◌∷◌, ◌++◌,
  ◌&&◌, ◌||◌, not, ltb, leb, ◌==◌, str_eq, if◌then◌else◌, length, get_elem?, map,
}
use mini_gpt.Exec.{Exec, Result, ok, err, invalid, capacity, ownership}
use mini_gpt.PagedKvCache.Types.{PagedKvCachePool, Storage, RequestTable}

-- A torch tensor of shape (batch, heads, length, head_size), by its rows along the third axis. The
-- row `rows[p]` is the slice `[0, :, p, :]`; `rank` is the number of axes.
pub record CacheTensor (T : Type 0) : Type 0 where
  pub rank : ℕ
  pub batch : ℕ
  pub heads : ℕ
  pub head_size : ℕ
  pub dtype : String
  pub device : String
  pub requires_grad : Bool
  pub rows : List T

pub record LayerKvCache (T : Type 0) : Type 0 where
  pub key : CacheTensor T
  pub value : CacheTensor T

abbrev pub KvCache : Type 0 → Type 0
KvCache T = List (LayerKvCache T)

-- The last checks of `_validate_cache`: there is a layer, and a token.
abbrev pub positive_length : Result (Option ℕ) → Result ℕ
positive_length (err e) = err e
positive_length (ok none) = err invalid
positive_length (ok (some n)) = if n == 0 then err invalid else ok n

module _ {T : Type 0} where
  abbrev pub same_shape : CacheTensor T → CacheTensor T → Bool
  same_shape x y =
      (x.rank == y.rank)
      && ((x.batch == y.batch)
          && ((x.heads == y.heads)
              && ((length x.rows == length y.rows) && (x.head_size == y.head_size))))

  -- The checks of `_validate_cache` on one layer.
  unfoldable pub layer_ok : PagedKvCachePool T → LayerKvCache T → Bool
  layer_ok p layer =
      same_shape layer.key layer.value
      && ((layer.key.rank == 4)
          && ((layer.key.batch == 1)
              && ((layer.key.heads == p.n_head)
                  && ((layer.key.head_size == p.head_size)
                      && ((str_eq layer.key.dtype p.dtype && str_eq layer.value.dtype p.dtype)
                          && ((str_eq layer.key.device p.device
                                && str_eq layer.value.device p.device)
                              && not (layer.key.requires_grad || layer.value.requires_grad)))))))

  -- `length` is the cache length of the layers before, if there were any.
  unfoldable pub validate_layers : PagedKvCachePool T → KvCache T → Option ℕ → Result (Option ℕ)
  unfolding layer_ok
  validate_layers p [] known = ok known
  validate_layers p (layer ∷ layers) none =
      let rest = validate_layers p layers (some (length layer.key.rows)) in
      if layer_ok p layer then rest else err invalid
  validate_layers p (layer ∷ layers) (some n) =
      let rest = validate_layers p layers (some n) in
      if layer_ok p layer && (length layer.key.rows == n) then rest else err invalid

  unfoldable pub validate_cache : KvCache T → PagedKvCachePool T → Result ℕ
  unfolding validate_layers
  validate_cache cache p =
      if length cache == p.n_layer
      then positive_length (validate_layers p cache none)
      else err invalid

  -- Row `i` of a tensor, or what is there where it has none.
  abbrev pub row_or : T → List T → ℕ → T
  row_or old [] i = old
  row_or old (x ∷ xs) zero = x
  row_or old (x ∷ xs) (suc i) = row_or old xs i

  -- blocks[layer, block_id, :, :used, :] = rows[position : position + used], for every layer
  abbrev pub write_rows :
      (LayerKvCache T → List T) → KvCache T → ℕ → ℕ → ℕ → (ℕ → ℕ → ℕ → T) → ℕ → ℕ → ℕ → T
  write_rows side cache block_id position used old layer b offset =
      if (b == block_id) && ltb offset used
      then elim (get_elem? cache layer) [
        | none ↦ old layer b offset
        | some l ↦ row_or (old layer b offset) (side l) (position + offset)
      ]
      else old layer b offset

  abbrev pub write_block : KvCache T → ℕ → ℕ → ℕ → Storage T → Storage T
  write_block cache block_id position used s = record {
    key_blocks = write_rows (λ l. l.key.rows) cache block_id position used s.key_blocks;
    value_blocks = write_rows (λ l. l.value.rows) cache block_id position used s.value_blocks;
  }

  -- The loop of `_write_cache`: the storage, and the position that it ends at.
  unfoldable pub write_blocks : KvCache T → ℕ → List ℕ → ℕ → ℕ → Storage T → Storage T × ℕ
  write_blocks cache block_tokens [] cache_length position s = (s, position)
  write_blocks cache block_tokens (i ∷ is) cache_length position s =
      let used = min block_tokens (cache_length - position) in
      write_blocks cache block_tokens is cache_length (position + used)
        (write_block cache i position used s)

  unfoldable pub write_cache : KvCache T → List ℕ → ℕ → Exec (PagedKvCachePool T) (Unit {0})
  unfolding write_blocks
  write_cache cache block_ids cache_length p =
      let written = write_blocks cache p.config.block_tokens block_ids cache_length 0 p.storage in
      let q = record p { storage = written.0 } in
      if written.1 == cache_length then (ok tt, q) else (err capacity, q)

  -- One row of every layer, from the given position of the cache to an offset of a block.
  abbrev pub write_row :
      (LayerKvCache T → List T) → KvCache T → ℕ → ℕ → ℕ → (ℕ → ℕ → ℕ → T) → ℕ → ℕ → ℕ → T
  write_row side cache block_id slot token_index old layer b offset =
      if (b == block_id) && (offset == slot)
      then elim (get_elem? cache layer) [
        | none ↦ old layer b offset
        | some l ↦ row_or (old layer b offset) (side l) token_index
      ]
      else old layer b offset

  -- _write_token; the index -1 of `append` is the last row.
  unfoldable pub write_token : KvCache T → ℕ → ℕ → ℕ → PagedKvCachePool T → PagedKvCachePool T
  write_token cache block_id offset token_index p = record p {
    storage = record {
      key_blocks =
          write_row (λ l. l.key.rows) cache block_id offset token_index p.storage.key_blocks;
      value_blocks =
          write_row (λ l. l.value.rows) cache block_id offset token_index p.storage.value_blocks;
    };
  }

  -- blocks[layer, block_id, :, :n, :], from an offset on
  abbrev pub read_rows : (ℕ → T) → ℕ → ℕ → List T
  read_rows f offset zero = []
  read_rows f offset (suc n) = f offset ∷ read_rows f (offset + 1) n

  -- The rows of one layer, in logical order: the inner loop of `materialize` and `request_view`.
  unfoldable pub gather : (ℕ → ℕ → T) → ℕ → ℕ → List ℕ → List T
  gather f block_tokens remaining [] = []
  gather f block_tokens remaining (i ∷ is) =
      let used = min remaining block_tokens in
      let rest = gather f block_tokens (remaining - used) is in
      read_rows (f i) 0 used ++ (if remaining - used == 0 then [] else rest)

  -- The keys and values of the layers from `layer` on.
  unfoldable pub gather_layers : Storage T → ℕ → RequestTable → ℕ → ℕ → List (List T × List T)
  unfolding gather
  gather_layers s block_tokens t layer zero = []
  gather_layers s block_tokens t layer (suc n) =
      (
        gather (s.key_blocks layer) block_tokens t.cache_length t.block_ids,
        gather (s.value_blocks layer) block_tokens t.cache_length t.block_ids,
      )
      ∷ gather_layers s block_tokens t (layer + 1) n
