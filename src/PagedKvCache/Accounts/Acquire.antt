-- ===== src/PagedKvCache/Accounts/Acquire.antt =====
-- `_acquire_blocks`: evict while the heap is short, then take blocks off it.
use mini_gpt.Prelude.{
  ℕ, zero, suc, ◌+◌, ◌≤◌, ◌<◌, ◌≡◌, refl, sym, ◌∙◌, ap, String, Bool, true, false, List, [], ◌∷◌,
  arith, bit, length, inl, inr, ◌⊎◌, Bool-cases, ltb, ltb→lt, ltb→le, if◌then◌else◌,
}
use mathlib.Core.Path.{subst}
use mini_gpt.Prelude.Tally.{count, total}
use mini_gpt.Exec.{
  Ends, Ends-mono, Ends-continue, Returns, returns, raises, ok, err, Error, capacity, continue,
  pure,
}
use mini_gpt.PagedKvCache.Types.{PhysicalBlock, PagedKvCachePool}
use mini_gpt.PagedKvCache.Blocks.{is_evictable}
use mini_gpt.PagedKvCache.Allocator.{evict_one, evict_until, acquire_blocks, claim_blocks}
use mini_gpt.PagedKvCache.Accounts.{Books, Books-congr}
use mini_gpt.PagedKvCache.Accounts.Frame.{Worked, Worked-refl, Worked-trans, OwnsAll}
use mini_gpt.PagedKvCache.Accounts.Claim.{claim_blocks-Claimed}
use mini_gpt.PagedKvCache.Accounts.Evict.Step.{EvictOutcome, Evicted, evict_one-EvictOutcome}

module _ {T : Type 0} where
  abbrev pub evictable : PagedKvCachePool T → ℕ
  evictable p = total (λ b. bit (is_evictable b)) p.blocks

  -- After the eviction loop the heap is long enough, or nothing is left to evict.
  pub record MadeRoom (p : PagedKvCachePool T) (held : ℕ → ℕ) (count : ℕ) (q : PagedKvCachePool T)
      : Type 0 where
    pub accounts : Books q held
    pub worked : Worked held p q
    pub balance : length q.free_blocks + evictable q ≡ length p.free_blocks + evictable p
    pub done : (count ≤ length q.free_blocks) ⊎ (evictable q ≡ 0)

  MadeRoom-here :
      (p : PagedKvCachePool T) (held : ℕ → ℕ) (count : ℕ)
      → Books p held
      → (count ≤ length p.free_blocks) ⊎ (evictable p ≡ 0)
      → MadeRoom p held count p
  MadeRoom-here p held count a d = record {
    accounts = a;
    worked = Worked-refl held p;
    balance = refl;
    done = d;
  }

  MadeRoom-next :
      (p q r : PagedKvCachePool T) (held : ℕ → ℕ) (count : ℕ)
      → Evicted p held q
      → MadeRoom q held count r
      → MadeRoom p held count r
  MadeRoom-next p q r held count e m = record {
    accounts = m.accounts;
    worked = Worked-trans e.worked m.worked (λ j h. h);
    balance = omega (arith, m.balance, e.fewer, e.room);
    done = m.done;
  }

  evict_until_more :
      (fuel count : ℕ) (p : PagedKvCachePool T)
      → ltb (length p.free_blocks) count ≡ true
      → evict_until (suc fuel) count p
        ≡ continue
            (evict_one p).0
            (λ e. if e then evict_until fuel count else pure tt)
            (evict_one p).1
  unfolding evict_until
  evict_until_more fuel count p e = ground arith

  evict_until_done :
      (fuel count : ℕ) (p : PagedKvCachePool T)
      → ltb (length p.free_blocks) count ≡ false
      → evict_until (suc fuel) count p ≡ (ok tt, p)
  unfolding evict_until
  evict_until_done fuel count p e = ground arith

  after_evict :
      (fuel count : ℕ) (p : PagedKvCachePool T) (held : ℕ → ℕ)
      → Books p held
      → evictable p < suc fuel
      → ((q : PagedKvCachePool T)
          → Books q held
          → evictable q < fuel
          → Returns (λ _. MadeRoom q held count) (evict_until fuel count q))
      → (b : Bool) (q : PagedKvCachePool T) → EvictOutcome p held b q
      → Returns (λ _. MadeRoom p held count) ((if b then evict_until fuel count else pure tt) q)
  after_evict fuel count p held a h rec true q x =
      Ends-mono (rec q x.accounts (omega (arith, x.fewer)))
        (λ _ r m. MadeRoom-next p q r held count x m) (λ _ _ z. z)
  after_evict fuel count p held a h rec false q x =
      returns (subst (MadeRoom p held count) (sym x.0) (MadeRoom-here p held count a (inr x.1)))

  -- A round for each evictable block, and one more, is enough.
  pub evict_until-MadeRoom :
      (fuel count : ℕ) (p : PagedKvCachePool T) (held : ℕ → ℕ)
      → Books p held
      → evictable p < fuel
      → Returns (λ _. MadeRoom p held count) (evict_until fuel count p)
  evict_until-MadeRoom zero count p held a h = elim h [ ]
  evict_until-MadeRoom (suc fuel) count p held a h =
      elim (Bool-cases (ltb (length p.free_blocks) count)) [
        | inl e ↦ rw (evict_until_more fuel count p e) (
            Ends-continue (λ e. if e then evict_until fuel count else pure tt)
              (evict_one-EvictOutcome p held a)
              (after_evict fuel count p held a h
                (λ q b l. evict_until-MadeRoom fuel count q held b l)))
        | inr e ↦
            rw (evict_until_done fuel count p e)
              (returns (MadeRoom-here p held count a (inl (ltb→le _ _ e))))
      ]

  pub total-le-length :
      (f : PhysicalBlock T → Bool) (bs : List (PhysicalBlock T))
      → total (λ b. bit (f b)) bs ≤ length bs
  total-le-length f [] = omega arith
  total-le-length f (b ∷ bs) = ground (arith, total-le-length f bs)

  -- What `acquire_blocks` promises when it returns.
  pub record Acquired (p : PagedKvCachePool T) (held : ℕ → ℕ) (n : ℕ) (owner : String)
      (ids : List ℕ) (q : PagedKvCachePool T) : Type 0 where
    pub length-ids : length ids ≡ n
    pub accounts : Books q (λ j. held j + count j ids)
    pub worked : Worked held p q
    pub owns : OwnsAll q.blocks owner ids
    pub fits : n ≤ length p.free_blocks + evictable p

  -- And when it raises.
  pub record Refused (p : PagedKvCachePool T) (held : ℕ → ℕ) (n : ℕ) (e : Error)
      (q : PagedKvCachePool T) : Type 0 where
    pub is_capacity : e ≡ capacity
    pub accounts : Books q held
    pub worked : Worked held p q
    pub short : length p.free_blocks + evictable p < n

  acquire_step :
      (n : ℕ) (owner : String) (p : PagedKvCachePool T)
      → acquire_blocks (suc n) owner p
        ≡ continue
            (evict_until (length p.blocks + 1) (suc n) p).0
            (λ _ q.
              if ltb (length q.free_blocks) (suc n)
              then (err capacity, q)
              else claim_blocks (suc n) owner [] q)
            (evict_until (length p.blocks + 1) (suc n) p).1
  unfolding acquire_blocks
  acquire_step n owner p = refl

  claim_after :
      (n : ℕ) (owner : String) (p : PagedKvCachePool T) (held : ℕ → ℕ) (q : PagedKvCachePool T)
      → MadeRoom p held n q
      → Ends
          (Acquired p held n owner)
          (Refused p held n)
          (if ltb (length q.free_blocks) n then (err capacity, q) else claim_blocks n owner [] q)
  claim_after n owner p held q m = elim (Bool-cases (ltb (length q.free_blocks) n)) [
    | inl e ↦ rw e (
        raises (record {
          is_capacity = refl;
          accounts = m.accounts;
          worked = m.worked;
          short = omega (arith, ltb→lt _ _ e, m.balance, m.done);
        }))
    | inr e ↦ rw e (
        Ends-mono (claim_blocks-Claimed n owner [] q held m.accounts (ltb→le _ _ e))
          (λ ids r c. record {
            length-ids = ap length c.ids-new ∙ c.length-new;
            accounts = Books-congr r (λ j. ap (λ l. held j + count j l) c.ids-new) c.accounts;
            worked = Worked-trans m.worked c.worked (λ j h. h);
            owns = subst (OwnsAll r.blocks owner) (sym c.ids-new) c.owns;
            fits = omega (arith, ltb→le _ _ e, m.balance);
          })
          (λ _ _ x. absurd x))
  ]

  -- On a pool whose books are right `_acquire_blocks` either returns as many blocks as asked for,
  -- private to the owner, and the books count each of them once more, or it raises a capacity
  -- error, and then free and evictable blocks together were too few. Either way the books are
  -- right, and the blocks that were in use are untouched.
  pub acquire_blocks-Acquired :
      (n : ℕ) (owner : String) (p : PagedKvCachePool T) (held : ℕ → ℕ)
      → Books p held
      → Ends (Acquired p held n owner) (Refused p held n) (acquire_blocks n owner p)
  acquire_blocks-Acquired zero owner p held a =
      unfold acquire_blocks in
      returns {a = []} {s = p} (record {
        length-ids = refl;
        accounts = Books-congr p (λ j. omega arith) a;
        worked = Worked-refl held p;
        owns = tt;
        fits = omega arith;
      })
  acquire_blocks-Acquired (suc n) owner p held a = rw (acquire_step n owner p) (
      Ends-continue _
        (Ends-mono
          (evict_until-MadeRoom (length p.blocks + 1) (suc n) p held a
            (omega (arith, total-le-length (λ b. is_evictable b) p.blocks)))
          (λ _ _ m. m) (λ _ _ x. absurd x))
        (λ _ q m. claim_after (suc n) owner p held q m))
