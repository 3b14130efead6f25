-- ===== src/PagedKvCache/Accounts/Return.antt =====
-- Giving private blocks back: `_return_blocks`.
use mini_gpt.Prelude.{
  ℕ, ◌+◌, ◌≡◌, refl, sym, ◌∙◌, ap, String, some, true, List, [], ◌∷◌, arith, bit, ◌==◌, length,
  get_elem?, length-set, get_elem?-set_ne, get_elem?_bound,
}
use mini_gpt.Prelude.Tally.{count, at-some, total-set}
use mini_gpt.Exec.{Ends-mono, Returns, returns}
use mini_gpt.PagedKvCache.Types.{PhysicalBlock, PagedKvCachePool, fresh_block}
use mini_gpt.PagedKvCache.Blocks.{is_free, is_active, references, heappush}
use mini_gpt.PagedKvCache.Allocator.{
  return_block, return_blocks, require_private_owner, block_at, owned_by,
}
use mini_gpt.PagedKvCache.Accounts.{
  Books, Books-congr, Accounts-set, bit_ne, bit_self, count-heappush, length-heappush,
}
use mini_gpt.PagedKvCache.Accounts.Frame.{Worked, Worked-refl, Worked-trans, OwnsAll, OwnsAll-frame}

module _ {T : Type 0} where
  module _ (p : PagedKvCachePool T) {held : ℕ → ℕ} (held' : ℕ → ℕ) (i : ℕ) (owner : String)
      (a : Books p held) (less : (j : ℕ) → held j ≡ bit (i == j) + held' j) {b : PhysicalBlock T}
      (here : get_elem? p.blocks i ≡ some b) (o : owned_by b owner ≡ true) where
    unheld : held' i ≡ 0
    unheld =
        let r : references b ≡ 1 = ground arith in
        omega (arith, less i, bit_self i, a.held_tally i, at-some references p.blocks i here)

    not_listed : count i p.free_blocks ≡ 0
    not_listed =
        let t = at-some (λ (c : PhysicalBlock T). bit (is_free c)) p.blocks i here in
        let u : bit (is_free b) ≡ 0 = ground arith in omega (arith, a.free_tally i)

    pub return_block-Books : Books (return_block i p).1 held'
    unfolding return_block
    return_block-Books =
        Accounts-set a i here fresh_block (heappush p.free_blocks i) p.prefix_index held'
          (λ j ne. omega (arith, count-heappush j i p.free_blocks, bit_ne i j ne))
          (omega (arith, count-heappush i i p.free_blocks, bit_self i, not_listed))
          (λ j ne. omega (arith, less j, bit_ne i j ne)) unheld refl (λ hash j ne h. h)
          (λ s. absurd (ground arith)) (ground arith) a.index_distinct

    pub return_block-Worked : Worked held' p (return_block i p).1
    unfolding return_block
    return_block-Worked = record {
      same = record {
        config = refl;
        n_layer = refl;
        prefix_cache_namespace = refl;
        storage = refl;
        tables = refl;
        length_blocks = length-set p.blocks i fresh_block;
      };
      frame = λ j h. get_elem?-set_ne p.blocks i j _ (λ q. h (ap held' (sym q) ∙ unheld));
      active =
          let u : bit (is_active b) ≡ 0 = ground arith in
          omega (
            arith,
            total-set (λ (c : PhysicalBlock T). bit (is_active c)) p.blocks i fresh_block
                (get_elem?_bound p.blocks i here),
            at-some (λ (c : PhysicalBlock T). bit (is_active c)) p.blocks i here,
          );
    }

  return_blocks_step :
      (p : PagedKvCachePool T) (i : ℕ) (is : List ℕ) (owner : String) {b : PhysicalBlock T}
      → get_elem? p.blocks i ≡ some b
      → owned_by b owner ≡ true
      → return_blocks (i ∷ is) owner p ≡ return_blocks is owner (return_block i p).1
  unfolding return_blocks require_private_owner block_at return_block
  return_blocks_step p i is owner here o = ground arith

  -- What `return_blocks` promises.
  pub record Returned (p : PagedKvCachePool T) (held : ℕ → ℕ) (is : List ℕ) (q : PagedKvCachePool T)
      : Type 0 where
    pub accounts : Books q held
    pub worked : Worked held p q
    pub room : length q.free_blocks ≡ length p.free_blocks + length is

  -- Private blocks of the named owner that the books count go back: `_return_blocks` raises
  -- nothing, the books are right without them, the heap is longer by their number, and the other
  -- blocks in use are untouched.
  pub return_blocks-Returned :
      (is : List ℕ) (owner : String) (p : PagedKvCachePool T) (held : ℕ → ℕ)
      → Books p (λ j. held j + count j is)
      → OwnsAll p.blocks owner is
      → Returns (λ _. Returned p held is) (return_blocks is owner p)
  return_blocks-Returned [] owner p held a o =
      unfold return_blocks in
      returns (record {
        accounts = Books-congr p (λ j. omega arith) a;
        worked = Worked-refl held p;
        room = omega arith;
      })
  return_blocks-Returned (i ∷ is) owner p held a (o, os) =
      let (b, here, owned) = o in
      let less : (j : ℕ) → held j + count j (i ∷ is) ≡ bit (i == j) + (held j + count j is) =
        λ j. omega arith in
      let w = return_block-Worked p (λ j. held j + count j is) i owner a less here owned in
      rw (return_blocks_step p i is owner here owned) (
        Ends-mono
          (return_blocks-Returned is owner (return_block i p).1 held
            (return_block-Books p (λ j. held j + count j is) i owner a less here owned)
            (OwnsAll-frame p.blocks (return_block i p).1.blocks owner is
              (λ j n. w.frame j (λ e. n (omega arith))) os))
          (λ _ q r. record {
            accounts = r.accounts;
            worked = Worked-trans (weaken w) r.worked (λ j h. h);
            room = unfold return_block in omega (arith, r.room, length-heappush i p.free_blocks);
          })
          (λ _ _ x. x))
    where
      weaken : {q : PagedKvCachePool T} → Worked (λ j. held j + count j is) p q → Worked held p q
      weaken w = record {
        same = w.same;
        frame = λ j h. w.frame j (λ e. h (omega arith));
        active = w.active;
      }
