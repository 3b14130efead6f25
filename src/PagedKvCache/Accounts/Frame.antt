-- ===== src/PagedKvCache/Accounts/Frame.antt =====
-- What an operation of the allocator leaves alone.
use mini_gpt.Prelude.{
  ℕ, ◌≡◌, ◌≢◌, refl, ◌∙◌, arith, String, some, List, [], ◌∷◌, bit, length, get_elem?, true,
}
use mini_gpt.Prelude.Tally.{total, count}
use mini_gpt.PagedKvCache.Types.{PhysicalBlock, PagedKvCachePool}
use mini_gpt.PagedKvCache.Blocks.{is_active}
use mini_gpt.PagedKvCache.Allocator.{owned_by}

-- The request tables, the tensors and the configuration are as they were.
pub record Same {T : Type 0} (p q : PagedKvCachePool T) : Type 0 where
  pub config : q.config ≡ p.config
  pub n_layer : q.n_layer ≡ p.n_layer
  pub prefix_cache_namespace : q.prefix_cache_namespace ≡ p.prefix_cache_namespace
  pub storage : q.storage ≡ p.storage
  pub tables : q.tables ≡ p.tables
  pub length_blocks : length q.blocks ≡ length p.blocks

-- Beside that, a block that is held is as it was, and no shared block became active or idle.
pub record Worked {T : Type 0} (held : ℕ → ℕ) (p q : PagedKvCachePool T) : Type 0 where
  pub same : Same p q
  pub frame : (j : ℕ) → held j ≢ 0 → get_elem? q.blocks j ≡ get_elem? p.blocks j
  pub active : total (λ b. bit (is_active b)) q.blocks ≡ total (λ b. bit (is_active b)) p.blocks

pub Same-trans : {T : Type 0} {p q r : PagedKvCachePool T} → Same p q → Same q r → Same p r
Same-trans s t = record {
  config = t.config ∙ s.config;
  n_layer = t.n_layer ∙ s.n_layer;
  prefix_cache_namespace = t.prefix_cache_namespace ∙ s.prefix_cache_namespace;
  storage = t.storage ∙ s.storage;
  tables = t.tables ∙ s.tables;
  length_blocks = t.length_blocks ∙ s.length_blocks;
}

pub Worked-refl : {T : Type 0} (held : ℕ → ℕ) (p : PagedKvCachePool T) → Worked held p p
Worked-refl held p = record {
  same = record {
    config = refl;
    n_layer = refl;
    prefix_cache_namespace = refl;
    storage = refl;
    tables = refl;
    length_blocks = refl;
  };
  frame = λ j h. refl;
  active = refl;
}

pub Worked-trans :
    {T : Type 0} {held held' : ℕ → ℕ} {p q r : PagedKvCachePool T}
    → Worked held p q
    → Worked held' q r
    → ((j : ℕ) → held j ≢ 0 → held' j ≢ 0)
    → Worked held p r
Worked-trans u v k = record {
  same = Same-trans u.same v.same;
  frame = λ j h. v.frame j (k j h) ∙ u.frame j h;
  active = v.active ∙ u.active;
}

-- A private block of the named owner stands at the index.
abbrev pub Owns : {T : Type 0} → List (PhysicalBlock T) → String → ℕ → Type 0
Owns {T} blocks owner i =
    (b : PhysicalBlock T) × (get_elem? blocks i ≡ some b) × (owned_by b owner ≡ true)

abbrev pub OwnsAll : {T : Type 0} → List (PhysicalBlock T) → String → List ℕ → Type 0
OwnsAll blocks owner [] = Unit
OwnsAll blocks owner (i ∷ is) = Owns blocks owner i × OwnsAll blocks owner is

pub OwnsAll-frame :
    {T : Type 0} (before after : List (PhysicalBlock T)) (owner : String) (is : List ℕ)
    → ((j : ℕ) → count j is ≢ 0 → get_elem? after j ≡ get_elem? before j)
    → OwnsAll before owner is
    → OwnsAll after owner is
OwnsAll-frame before after owner [] f h = tt
OwnsAll-frame before after owner (i ∷ is) f h = (
  (h.0.0, f i (λ e. absurd (ground arith)) ∙ h.0.1, h.0.2),
  OwnsAll-frame before after owner is (λ j n. f j (λ e. n (omega arith))) h.1,
)
