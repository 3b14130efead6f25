-- ===== src/PagedKvCache/Accounts/Evict/Step.antt =====
-- What one call of `_evict_one` does to the books.
use mini_gpt.Prelude.{
  ℕ, suc, ◌+◌, ◌≡◌, ◌≢◌, refl, sym, ◌∙◌, ap, String, Option, none, some, Bool, true, false, arith,
  bit, length, get_elem?, length-set, get_elem?-set_ne, get_elem?_bound, inl, inr, Bool-cases,
  List-cases, eq_iff, str_eq, some-eq,
}
use mathlib.Core.Path.{subst}
use mini_gpt.Prelude.Tally.{count, total, at-some, total-set}
use mini_gpt.Dict.{get, delete, contains-get, get-delete_ne, IsDistinct-delete, size-delete}
use mini_gpt.Exec.{Returns, returns}
use mini_gpt.PagedKvCache.Types.{PhysicalBlock, PagedKvCachePool, fresh_block}
use mini_gpt.PagedKvCache.Blocks.{is_free, is_active, is_evictable, references, heappush}
use mini_gpt.PagedKvCache.Allocator.{candidates, least, lex_ltb, evict_one, evict_block}
use mini_gpt.PagedKvCache.Accounts.{
  Books, Accounts-set, IsIndexed, bit_ne, bit_self, count-heappush, length-heappush,
}
use mini_gpt.PagedKvCache.Accounts.Frame.{Worked}
use mini_gpt.PagedKvCache.Accounts.Evict.{
  selected, selected_oldest, evict_one_none, evict_one-some, evictable_shared, length-candidates,
}

module _ {T : Type 0} where
  hash_of :
      (b : PhysicalBlock T) (index : _) (i : ℕ)
      → IsIndexed index b.prefix_hash i
      → (hash : String) × (b.prefix_hash ≡ some hash) × (get index hash ≡ some i)
  hash_of b index i h = go b.prefix_hash refl h
    where
      go :
          (o : Option String)
          → b.prefix_hash ≡ o
          → IsIndexed index o i
          → (hash : String) × (b.prefix_hash ≡ some hash) × (get index hash ≡ some i)
      go none e x = absurd x
      go (some hash) e x = (hash, e, x)

  module _ (p : PagedKvCachePool T) {held : ℕ → ℕ} (i : ℕ) (hash : String) (a : Books p held)
      {b : PhysicalBlock T} (here : get_elem? p.blocks i ≡ some b) (ev : is_evictable b ≡ true)
      (named : get p.prefix_index hash ≡ some i) where
    unheld : held i ≡ 0
    unheld =
        let r : references b ≡ 0 = ground arith in
        omega (arith, a.held_tally i, at-some references p.blocks i here)

    not_listed : count i p.free_blocks ≡ 0
    not_listed =
        let t = at-some (λ (c : PhysicalBlock T). bit (is_free c)) p.blocks i here in
        let u : bit (is_free b) ≡ 0 = ground arith in omega (arith, a.free_tally i)

    others :
        (h : String) (j : ℕ)
        → i ≢ j
        → get p.prefix_index h ≡ some j
        → get (delete p.prefix_index hash) h ≡ some j
    others h j ne e = elim (Bool-cases (str_eq hash h)) [
      | inl q ↦
          let same : hash ≡ h = (eq_iff hash h).0 q in
          absurd (ne (some-eq (sym named ∙ ap (get p.prefix_index) same ∙ e)))
      | inr q ↦ get-delete_ne p.prefix_index hash h q ∙ e
    ]

    pub evict_block-Books : Books (evict_block i hash p).1 held
    unfolding evict_block
    evict_block-Books =
        Accounts-set a i here fresh_block (heappush p.free_blocks i) (delete p.prefix_index hash)
          held (λ j ne. omega (arith, count-heappush j i p.free_blocks, bit_ne i j ne))
          (omega (arith, count-heappush i i p.free_blocks, bit_self i, not_listed)) (λ j ne. refl)
          unheld refl others (λ s. absurd (ground arith))
          (ground (arith, size-delete p.prefix_index hash, contains-get p.prefix_index hash))
          (IsDistinct-delete p.prefix_index hash a.index_distinct)

    pub evict_block-Worked : Worked held p (evict_block i hash p).1
    unfolding evict_block
    evict_block-Worked = record {
      same = record {
        config = refl;
        n_layer = refl;
        prefix_cache_namespace = refl;
        storage = refl;
        tables = refl;
        length_blocks = length-set p.blocks i fresh_block;
      };
      frame = λ j h. get_elem?-set_ne p.blocks i j _ (λ q. h (ap held (sym q) ∙ unheld));
      active =
          let u : bit (is_active b) ≡ 0 = ground arith in
          omega (
            arith,
            total-set (λ (c : PhysicalBlock T). bit (is_active c)) p.blocks i fresh_block
                (get_elem?_bound p.blocks i here),
            at-some (λ (c : PhysicalBlock T). bit (is_active c)) p.blocks i here,
          );
    }

    pub evict_block-evictable :
        total (λ b. bit (is_evictable b)) (evict_block i hash p).1.blocks + 1
        ≡ total (λ b. bit (is_evictable b)) p.blocks
    unfolding evict_block
    evict_block-evictable =
        let u : bit (is_evictable b) ≡ 1 = ground arith in
        omega (
          arith,
          total-set (λ (c : PhysicalBlock T). bit (is_evictable c)) p.blocks i fresh_block
              (get_elem?_bound p.blocks i here),
          at-some (λ (c : PhysicalBlock T). bit (is_evictable c)) p.blocks i here,
        )

  -- What an eviction did: to which block, and that no evictable block was older.
  pub record Evicted (p : PagedKvCachePool T) (held : ℕ → ℕ) (q : PagedKvCachePool T) : Type 0 where
    pub victim : ℕ
    pub block : PhysicalBlock T
    pub hash : String
    pub here : get_elem? p.blocks victim ≡ some block
    pub evictable : is_evictable block ≡ true
    pub hashed : block.prefix_hash ≡ some hash
    pub oldest :
        (j : ℕ) (b : PhysicalBlock T)
        → get_elem? p.blocks j ≡ some b
        → is_evictable b ≡ true
        → lex_ltb (b.last_used, j) (block.last_used, victim) ≡ false
    pub result : q ≡ (evict_block victim hash p).1
    pub accounts : Books q held
    pub worked : Worked held p q
    pub fewer :
        total (λ b. bit (is_evictable b)) q.blocks + 1 ≡ total (λ b. bit (is_evictable b)) p.blocks
    pub room : length q.free_blocks ≡ suc (length p.free_blocks)

  -- `False` comes with an unchanged pool that has nothing to evict.
  abbrev pub EvictOutcome : PagedKvCachePool T → (ℕ → ℕ) → Bool → PagedKvCachePool T → Type 0
  EvictOutcome p held true q = Evicted p held q
  EvictOutcome p held false q = (q ≡ p) × (total (λ b. bit (is_evictable b)) p.blocks ≡ 0)

  -- On a pool whose books are right `_evict_one` raises nothing. If it returns true, it emptied
  -- an evictable block, no evictable block was used longer ago, one more block is free, the books
  -- are right, and the blocks in use are untouched. If it returns false, no block was evictable
  -- and nothing changed.
  pub evict_one-EvictOutcome :
      (p : PagedKvCachePool T) (held : ℕ → ℕ)
      → Books p held
      → Returns (EvictOutcome p held) (evict_one p)
  unfolding evict_block
  evict_one-EvictOutcome p held a = elim (List-cases (candidates 0 p.blocks)) [
    | inl e ↦
        rw (evict_one_none p e)
          (returns (refl, omega (arith, length-candidates 0 p.blocks, ap length e)))
    | inr (c, cs, e) ↦
        let (b, here, ev, age) = selected p c cs e in
        let (hash, hashed, named) =
          hash_of b p.prefix_index (least c cs).1
            (a.indexed (least c cs).1 b here (evictable_shared b ev)) in
        rw (evict_one-some p c cs b hash e here hashed named) (
          returns (record {
            victim = (least c cs).1;
            block = b;
            hash = hash;
            here = here;
            evictable = ev;
            hashed = hashed;
            oldest = λ j x at ex.
                subst (λ n. lex_ltb (x.last_used, j) (n, (least c cs).1) ≡ false) (sym age)
                  (selected_oldest p c cs e j x at ex);
            result = refl;
            accounts = evict_block-Books p (least c cs).1 hash a here ev named;
            worked = evict_block-Worked p (least c cs).1 hash a here ev named;
            fewer = evict_block-evictable p (least c cs).1 hash a here ev named;
            room = length-heappush (least c cs).1 p.free_blocks;
          }))
  ]
