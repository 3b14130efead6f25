-- ===== src/PagedKvCache/Accounts/Release.antt =====
-- `_release_table_blocks`: private blocks go back to the heap, shared ones lose a reference.
use mini_gpt.Prelude.{
  ℕ, suc, ◌+◌, ◌-◌, ◌≤◌, ◌≡◌, ◌≢◌, refl, ◌∙◌, some, String, true, false, List, [], ◌∷◌, arith, bit,
  ◌==◌, get_elem?, length-set, get_elem?_bound, inl, inr, Bool-cases,
}
use mini_gpt.Prelude.Tally.{count, total, at-some, total-set}
use mini_gpt.Exec.{Ends-mono, Returns, returns}
use mini_gpt.PagedKvCache.Types.{PhysicalBlock, PagedKvCachePool}
use mini_gpt.PagedKvCache.Blocks.{is_free, is_shared, is_active, references}
use mini_gpt.PagedKvCache.Allocator.{
  touch, return_block, return_blocks, release_block, release_table_blocks, require_private_owner,
  block_at, owned_by,
}
use mini_gpt.PagedKvCache.Accounts.{Books, Books-congr, Accounts-set, bit_ne, bit_self}
use mini_gpt.PagedKvCache.Accounts.Frame.{Same, Same-trans, Worked, Worked-refl}
use mini_gpt.PagedKvCache.Accounts.Return.{return_block-Books, return_block-Worked}
use mini_gpt.PagedKvCache.Accounts.Roles.{
  role_at, role_at-get, role_at-set, MayReleaseAll, MayReleaseAll-role,
}

module _ {T : Type 0} where
  -- What `release_table_blocks` promises.
  pub record Released (p : PagedKvCachePool T) (held : ℕ → ℕ) (q : PagedKvCachePool T)
      : Type 0 where
    pub accounts : Books q held
    pub same : Same p q
    pub roles : (j : ℕ) → held j ≢ 0 → role_at q.blocks j ≡ role_at p.blocks j
    pub active : total (λ b. bit (is_active b)) q.blocks ≤ total (λ b. bit (is_active b)) p.blocks

  abbrev unreferenced : PhysicalBlock T → PhysicalBlock T
  unreferenced b = record b { active_refcount = b.active_refcount - 1 }

  release_step_private :
      (p : PagedKvCachePool T) (i : ℕ) (is : List ℕ) (owner : String) {b : PhysicalBlock T}
      → get_elem? p.blocks i ≡ some b
      → owned_by b owner ≡ true
      → release_table_blocks (i ∷ is) owner p ≡ release_table_blocks is owner (return_block i p).1
  unfolding release_table_blocks release_block return_blocks require_private_owner block_at
      return_block
  release_step_private p i is owner here o = ground arith

  release_step_shared :
      (p : PagedKvCachePool T) (i : ℕ) (is : List ℕ) (owner : String) {b : PhysicalBlock T}
      → get_elem? p.blocks i ≡ some b
      → is_shared b ≡ true
      → (b.active_refcount == 0) ≡ false
      → release_table_blocks (i ∷ is) owner p
        ≡ release_table_blocks is owner (touch i (unreferenced b) p)
  unfolding release_table_blocks release_block block_at
  release_step_shared p i is owner here s n = ground arith

  module _ (p : PagedKvCachePool T) {held : ℕ → ℕ} (held' : ℕ → ℕ) (i : ℕ) (a : Books p held)
      (less : (j : ℕ) → held j ≡ bit (i == j) + held' j) {b : PhysicalBlock T}
      (here : get_elem? p.blocks i ≡ some b) (s : is_shared b ≡ true) where
    refcount : b.active_refcount ≡ suc (held' i)
    refcount =
        let r : references b ≡ b.active_refcount = ground arith in
        omega (arith, less i, bit_self i, a.held_tally i, at-some references p.blocks i here)

    not_listed : count i p.free_blocks ≡ 0
    not_listed =
        let t = at-some (λ (c : PhysicalBlock T). bit (is_free c)) p.blocks i here in
        let u : bit (is_free b) ≡ 0 = ground arith in omega (arith, a.free_tally i)

    touched : PhysicalBlock T
    touched = record b { active_refcount = b.active_refcount - 1; last_used = p.logical_clock + 1 }

    touch-Books : Books (touch i (unreferenced b) p) held'
    unfolding touch
    touch-Books =
        Accounts-set a i here
          (record b { active_refcount = b.active_refcount - 1; last_used = p.logical_clock + 1 })
          p.free_blocks p.prefix_index held' (λ j ne. refl) (ground (arith, not_listed))
          (λ j ne. omega (arith, less j, bit_ne i j ne)) (ground (arith, refcount))
          (ground (arith, a.well_formed i b here)) (λ hash j ne h. h) (λ _. a.indexed i b here s)
          refl a.index_distinct

    touch-active :
        total (λ b. bit (is_active b)) (touch i (unreferenced b) p).blocks
        ≤ total (λ b. bit (is_active b)) p.blocks
    unfolding touch
    touch-active =
        let b' : PhysicalBlock T = record b {
          active_refcount = b.active_refcount - 1;
          last_used = p.logical_clock + 1;
        } in
        let u : bit (is_active b') ≤ bit (is_active b) = ground (arith, refcount) in
        omega (
          arith,
          u,
          total-set (λ (c : PhysicalBlock T). bit (is_active c)) p.blocks i b'
              (get_elem?_bound p.blocks i here),
          at-some (λ (c : PhysicalBlock T). bit (is_active c)) p.blocks i here,
        )

    touch-Released : Released p held' (touch i (unreferenced b) p)
    unfolding touch
    touch-Released = record {
      accounts = touch-Books;
      same = record {
        config = refl;
        n_layer = refl;
        prefix_cache_namespace = refl;
        storage = refl;
        tables = refl;
        length_blocks = length-set p.blocks i _;
      };
      roles = λ j n. role_at-set p.blocks i _ here refl j;
      active = touch-active;
    }

  Released-trans :
      {p q r : PagedKvCachePool T} {held held' : ℕ → ℕ}
      → Released p held' q
      → Released q held r
      → ((j : ℕ) → held j ≢ 0 → held' j ≢ 0)
      → Released p held r
  Released-trans u v k = record {
    accounts = v.accounts;
    same = Same-trans u.same v.same;
    roles = λ j n. v.roles j n ∙ u.roles j (k j n);
    active = omega (arith, u.active, v.active);
  }

  return-Released :
      {p q : PagedKvCachePool T} {held : ℕ → ℕ} → Books q held → Worked held p q → Released p held q
  return-Released {p} {q} a w = record {
    accounts = a;
    same = w.same;
    roles = λ j n. role_at-get p.blocks q.blocks j (w.frame j n);
    active = omega (arith, w.active);
  }

  -- For listed blocks that are private to the owner or shared, and that the books count,
  -- `_release_table_blocks` raises nothing, the books are right without them, a block still
  -- referenced keeps its state and owner, and no more shared blocks are active than before.
  pub release_table_blocks-Released :
      (is : List ℕ) (owner : String) (p : PagedKvCachePool T) (held : ℕ → ℕ)
      → Books p (λ j. held j + count j is)
      → MayReleaseAll p.blocks owner is
      → Returns (λ _. Released p held) (release_table_blocks is owner p)
  release_table_blocks-Released [] owner p held a m =
      unfold release_table_blocks in
      returns {a = tt} {s = p}
        (return-Released (Books-congr p (λ j. omega arith) a) (Worked-refl held p))
  release_table_blocks-Released (i ∷ is) owner p held a ((b, here, m), ms) =
      let held' : ℕ → ℕ = λ j. held j + count j is in
      let less : (j : ℕ) → held j + count j (i ∷ is) ≡ bit (i == j) + held' j = λ j. omega arith in
      elim (Bool-cases (owned_by b owner)) [
        | inl o ↦
            let u : Released p held' (return_block i p).1 =
              return-Released (return_block-Books p held' i owner a less here o)
                (return_block-Worked p held' i owner a less here o) in
            rw (release_step_private p i is owner here o) (
              Ends-mono
                (release_table_blocks-Released is owner (return_block i p).1 held u.accounts (
                  MayReleaseAll-role p.blocks (return_block i p).1.blocks owner is
                    (λ j n. u.roles j (λ e. n (omega arith))) ms))
                (λ _ r v. Released-trans u v (λ j n e. n (omega arith))) (λ _ _ x. x))
        | inr o ↦
            let s : is_shared b ≡ true = ground arith in
            let u : Released p held' (touch i (unreferenced b) p) =
              touch-Released p held' i a less here s in
            rw
              (release_step_shared p i is owner here s
                (ground (arith, refcount p held' i a less here s)))
              (Ends-mono
                (release_table_blocks-Released is owner (touch i (unreferenced b) p) held u.accounts
                  (MayReleaseAll-role p.blocks (touch i (unreferenced b) p).blocks owner is
                    (λ j n. u.roles j (λ e. n (omega arith))) ms))
                (λ _ r v. Released-trans u v (λ j n e. n (omega arith))) (λ _ _ x. x))
      ]
