-- ===== src/PagedKvCache/Soundness/Drain.antt =====
-- `release_all` on a sound pool.
use mini_gpt.Prelude.{
  ℕ, zero, suc, ◌+◌, ◌<◌, ◌≡◌, refl, sym, ◌∙◌, ap, String, some, Bool, true, false, List, [], ◌∷◌,
  arith, bit, length, str_eq, eq_iff, if◌then◌else◌,
}
use mathlib.Core.Path.{subst}
use mini_gpt.Prelude.Tally.{at, total}
use mini_gpt.Dict.{Dict, get, keys, delete}
use mini_gpt.Exec.{Ends-mono, Ends-continue, Returns, returns, continue, pure}
use mini_gpt.PagedKvCache.Types.{PhysicalBlock, PagedKvCachePool}
use mini_gpt.PagedKvCache.Blocks.{is_private, is_active, is_evictable, references, protected_blocks}
use mini_gpt.PagedKvCache.Allocator.{evict_one}
use mini_gpt.PagedKvCache.Checks.{occurrences, verify_invariants}
use mini_gpt.PagedKvCache.Requests.{release, release_each, evict_all, release_all}
use mini_gpt.PagedKvCache.Accounts.Evict.Step.{EvictOutcome, Evicted, evict_one-EvictOutcome}
use mini_gpt.PagedKvCache.Accounts.Acquire.{evictable, total-le-length}
use mini_gpt.PagedKvCache.Accounts.Roles.{role_at-get}
use mini_gpt.PagedKvCache.Soundness.{IsSound}
use mini_gpt.PagedKvCache.Soundness.Counts.{length_heap, states_partition, shared_partition}
use mini_gpt.PagedKvCache.Soundness.Verify.{verify-IsSound}
use mini_gpt.PagedKvCache.Soundness.Tables.{IsSound-next, Items-roles}
use mini_gpt.PagedKvCache.Soundness.Release.{release-LetGo}

no_keys : {V : Type 0} (m : Dict V) → keys m ≡ [] → m ≡ []
unfolding keys
no_keys [] e = refl
no_keys ((j, v) ∷ m) e = cc

first_key :
    {V : Type 0} (m : Dict V) (id : String) (ids : List String)
    → keys m ≡ id ∷ ids
    → (v : V) × (get m id ≡ some v) × (keys (delete m id) ≡ ids)
unfolding keys get delete
first_key [] id ids e = cc
first_key ((j, v) ∷ m) id ids e =
    let same : str_eq j id ≡ true = (eq_iff j id).1 (head_eq e) in (v, rw same, rw same (tail_eq e))
  where
    head_eq : {x y : String} {xs ys : List String} → x ∷ xs ≡ y ∷ ys → x ≡ y
    head_eq h = cc

    tail_eq : {x y : String} {xs ys : List String} → x ∷ xs ≡ y ∷ ys → xs ≡ ys
    tail_eq h = cc

module _ {T : Type 0} where
  Evicted-IsSound :
      (p q : PagedKvCachePool T) → IsSound p → Evicted p (occurrences p.tables) q → IsSound q
  unfolding protected_blocks
  Evicted-IsSound p q s x =
      IsSound-next p q p.tables x.worked.same.config x.worked.same.length_blocks
        x.worked.same.tables s x.accounts
        (Items-roles p.config.block_tokens p.blocks q.blocks p.tables
          (λ j k. role_at-get p.blocks q.blocks j (x.worked.frame j k)) s.tables)
        s.distinct (omega (arith, x.worked.active, s.within_pool))

  record Drained (p q : PagedKvCachePool T) : Type 0 where
    sound : IsSound q
    tables : q.tables ≡ p.tables
    idle : evictable q ≡ 0

  after_eviction :
      (fuel : ℕ) (p : PagedKvCachePool T)
      → IsSound p
      → evictable p < suc fuel
      → ((q : PagedKvCachePool T)
          → IsSound q
          → evictable q < fuel
          → Returns (λ _. Drained q) (evict_all fuel q))
      → (b : Bool) (q : PagedKvCachePool T) → EvictOutcome p (occurrences p.tables) b q
      → Returns (λ _. Drained p) ((if b then evict_all fuel else pure tt) q)
  after_eviction fuel p s h rec true q x =
      Ends-mono (rec q (Evicted-IsSound p q s x) (omega (arith, x.fewer)))
        (λ _ r d. record {
          sound = d.sound;
          tables = d.tables ∙ x.worked.same.tables;
          idle = d.idle;
        })
        (λ _ _ z. z)
  after_eviction fuel p s h rec false q x =
      returns (subst (Drained p) (sym x.0) (record { sound = s; tables = refl; idle = x.1 }))

  evict_step :
      (fuel : ℕ) (p : PagedKvCachePool T)
      → evict_all (suc fuel) p
        ≡ continue (evict_one p).0 (λ e. if e then evict_all fuel else pure tt) (evict_one p).1
  unfolding evict_all
  evict_step fuel p = refl

  release_step :
      (id : String) (ids : List String) (p : PagedKvCachePool T)
      → release_each (id ∷ ids) p
        ≡ continue (release id p).0 (λ _. release_each ids) (release id p).1
  unfolding release_each
  release_step id ids p = refl

  evict_all-Drained :
      (fuel : ℕ) (p : PagedKvCachePool T)
      → IsSound p
      → evictable p < fuel
      → Returns (λ _. Drained p) (evict_all fuel p)
  evict_all-Drained zero p s h = elim h [ ]
  evict_all-Drained (suc fuel) p s h = rw (evict_step fuel p) (
      Ends-continue (λ e. if e then evict_all fuel else pure tt)
        (evict_one-EvictOutcome p (occurrences p.tables) s.accounts)
        (after_eviction fuel p s h (λ q b l. evict_all-Drained fuel q b l)))

  release_each_all :
      (ids : List String) (p : PagedKvCachePool T)
      → IsSound p
      → keys p.tables ≡ ids
      → Returns (λ _ q. IsSound q × (q.tables ≡ [])) (release_each ids p)
  release_each_all [] p s e =
      unfold release_each in returns {a = tt} {s = p} (s, no_keys p.tables e)
  release_each_all (id ∷ ids) p s e =
      let (t, found, rest) = first_key p.tables id ids e in
      rw (release_step id ids p) (
        Ends-continue (λ _. release_each ids) (release-LetGo p id t s found)
          (λ _ q g. release_each_all ids q g.sound (ap keys g.tables ∙ rest)))

  -- Without a reference a block is neither private nor active.
  unreferenced_total :
      (bs : List (PhysicalBlock T))
      → ((i : ℕ) → 0 ≡ at references bs i)
      → total (λ b. bit (is_private b)) bs + total (λ b. bit (is_active b)) bs ≡ 0
  unreferenced_total [] h = refl
  unreferenced_total (b ∷ bs) h =
      let u : bit (is_private b) + bit (is_active b) ≡ 0 = ground (arith, h 0) in
      omega (arith, u, unreferenced_total bs (λ i. h (suc i)))

  -- What `release_all` promises.
  pub record Emptied (q : PagedKvCachePool T) : Type 0 where
    pub sound : IsSound q
    pub tables : q.tables ≡ []
    pub all_free : length q.free_blocks ≡ q.config.num_blocks

  Drained-Emptied : (p q : PagedKvCachePool T) → p.tables ≡ [] → Drained p q → Emptied q
  unfolding occurrences
  Drained-Emptied p q e d =
      let none_left : q.tables ≡ [] = d.tables ∙ e in
      record {
        sound = d.sound;
        tables = none_left;
        all_free = omega (
          arith,
          unreferenced_total q.blocks
              (λ i. sym (ap (λ m. occurrences m i) none_left) ∙ d.sound.accounts.held_tally i),
          d.idle,
          length_heap q.blocks q.free_blocks d.sound.accounts,
          states_partition q.blocks,
          shared_partition q.blocks,
          d.sound.full,
        );
      }

  -- On a sound pool `release_all` returns, with a sound pool that has no request table and in
  -- which every block is free.
  pub release_all-Emptied :
      (p : PagedKvCachePool T) → IsSound p → Returns (λ _. Emptied) (release_all p)
  release_all-Emptied p s =
      unfold release_all in
      Ends-continue _ (release_each_all (keys p.tables) p s refl) (λ _ q g.
        Ends-continue (λ _. verify_invariants)
          (evict_all-Drained (length q.blocks + 1) q g.0
            (omega (arith, total-le-length (λ b. is_evictable b) q.blocks)))
          (λ _ r d. let x = Drained-Emptied q r g.1 d in rw (verify-IsSound r x.sound) (returns x)))
