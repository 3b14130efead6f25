-- ===== src/PagedKvCache/Soundness/Release.antt =====
-- `release` on a sound pool.
use mini_gpt.Prelude.{◌≤◌, ◌≡◌, ap, String, none, some, arith}
use mini_gpt.Prelude.Tally.{count}
use mini_gpt.Dict.{
  get, delete, sum_values, sum_values-delete, IsDistinct-delete, Items-delete, Items-get,
}
use mini_gpt.Exec.{Ends-continue, Returns, returns, err, ownership, continue}
use mini_gpt.PagedKvCache.Types.{RequestTable, PagedKvCachePool}
use mini_gpt.PagedKvCache.Blocks.{protected_blocks}
use mini_gpt.PagedKvCache.Allocator.{release_table_blocks}
use mini_gpt.PagedKvCache.Checks.{occurrences, verify_invariants}
use mini_gpt.PagedKvCache.Requests.{release}
use mini_gpt.PagedKvCache.Accounts.{Books-congr}
use mini_gpt.PagedKvCache.Accounts.Release.{Released, release_table_blocks-Released}
use mini_gpt.PagedKvCache.Soundness.{TableSound, IsSound}
use mini_gpt.PagedKvCache.Soundness.Verify.{verify-IsSound}
use mini_gpt.PagedKvCache.Soundness.Tables.{IsSound-next, Items-roles, MayReleaseAll-of}

module _ {T : Type 0} where
  abbrev without : PagedKvCachePool T → String → PagedKvCachePool T
  without p id = record p { tables = delete p.tables id }

  -- What `release` promises: a sound pool, in which the request is gone and no other table changed.
  pub record LetGo (p : PagedKvCachePool T) (id : String) (q : PagedKvCachePool T) : Type 0 where
    pub sound : IsSound q
    pub tables : q.tables ≡ delete p.tables id
    pub protection : protected_blocks q ≤ protected_blocks p

  LetGo-of :
      (p q : PagedKvCachePool T) (id : String) (t : RequestTable)
      → IsSound p
      → get p.tables id ≡ some t
      → Released (without p id) (occurrences (delete p.tables id)) q
      → LetGo p id q
  unfolding protected_blocks
  LetGo-of p q id t s e r =
      let reserved = sum_values-delete (λ (u : RequestTable). u.reserved_blocks) p.tables id e in
      let tables' = Items-delete (TableSound p.config.block_tokens p.blocks) p.tables id s.tables in
      record {
        sound =
            IsSound-next p q (delete p.tables id) r.same.config r.same.length_blocks r.same.tables s
              r.accounts
              (Items-roles p.config.block_tokens p.blocks q.blocks (delete p.tables id) r.roles
                tables')
              (IsDistinct-delete p.tables id s.distinct)
              (omega (arith, r.active, reserved, s.within_pool));
        tables = r.same.tables;
        protection =
            omega
              (arith, r.active, reserved, ap (sum_values (λ t. t.reserved_blocks)) r.same.tables);
      }

  release_found :
      (p : PagedKvCachePool T) (id : String) (t : RequestTable)
      → get p.tables id ≡ some t
      → release id p
        ≡ continue
            (release_table_blocks t.block_ids id (without p id)).0
            (λ _. verify_invariants)
            (release_table_blocks t.block_ids id (without p id)).1
  unfolding release
  release_found p id t e = ground arith

  -- On a sound pool, releasing a request that has a table returns, with a sound pool in which
  -- that table is gone, the other tables are as they were, and no more blocks are protected.
  pub release-LetGo :
      (p : PagedKvCachePool T) (id : String) (t : RequestTable)
      → IsSound p
      → get p.tables id ≡ some t
      → Returns (λ _. LetGo p id) (release id p)
  unfolding occurrences
  release-LetGo p id t s e =
      let own = Items-get (TableSound p.config.block_tokens p.blocks) p.tables id s.tables e in
      rw (release_found p id t e) (
        Ends-continue (λ _. verify_invariants)
          (release_table_blocks-Released t.block_ids id (without p id)
            (occurrences (delete p.tables id))
            (Books-congr p
              (λ j. sum_values-delete (λ (u : RequestTable). count j u.block_ids) p.tables id e)
              s.accounts)
            (MayReleaseAll-of p.blocks id t.block_ids own.listed))
          (λ _ q r. let g = LetGo-of p q id t s e r in rw (verify-IsSound q g.sound) (returns g)))

  -- A request without a table is refused, and nothing changes.
  pub release_missing :
      (p : PagedKvCachePool T) (id : String)
      → get p.tables id ≡ none
      → release id p ≡ (err ownership, p)
  unfolding release
  release_missing p id e = ground arith
