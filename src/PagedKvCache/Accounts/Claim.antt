-- ===== src/PagedKvCache/Accounts/Claim.antt =====
-- Taking free blocks: the allocation loop of `_acquire_blocks`.
use mini_gpt.Prelude.{
  ℕ, zero, suc, ◌+◌, ◌≤◌, ◌≡◌, refl, sym, ◌∙◌, ap, String, some, true, List, [], ◌∷◌, ◌++◌, arith,
  bit, ◌==◌, length, get_elem?, length-set, get_elem?-set_ne, get_elem?-set_self, get_elem?_bound,
  List-cases, inl, inr, eq_iff,
}
use mathlib.Core.List.{append_assoc, append-nil}
use mini_gpt.Prelude.Tally.{count, at, at_pos, at-some, total-set}
use mini_gpt.Exec.{Ends-mono, Returns, returns}
use mini_gpt.PagedKvCache.Types.{PhysicalBlock, private, PagedKvCachePool}
use mini_gpt.PagedKvCache.Blocks.{is_free, is_active, references, block_ok}
use mini_gpt.PagedKvCache.Allocator.{claim_block, claim_blocks}
use mini_gpt.PagedKvCache.Accounts.{Books, Accounts-set, Books-congr, bit_ne, bit_self}
use mini_gpt.PagedKvCache.Accounts.Frame.{Worked, Worked-refl, Worked-trans, Owns, OwnsAll}

module _ {T : Type 0} where
  abbrev pub popped : PagedKvCachePool T → List ℕ → PagedKvCachePool T
  popped p rest = record p { free_blocks = rest }

  abbrev claimed : PhysicalBlock T → String → PhysicalBlock T
  claimed b owner = record b { state = private; owner_request_id = some owner }

  claimed_ok :
      (b : PhysicalBlock T) (owner : String)
      → is_free b ≡ true
      → block_ok b ≡ true
      → block_ok (claimed b owner) ≡ true
  claimed_ok b owner f h = ground arith

  pub head_free :
      (p : PagedKvCachePool T) {held : ℕ → ℕ} (i : ℕ) (rest : List ℕ)
      → Books p held
      → p.free_blocks ≡ i ∷ rest
      → (b : PhysicalBlock T) × (get_elem? p.blocks i ≡ some b) × (is_free b ≡ true)
  head_free p i rest a e =
      let t : count i (i ∷ rest) ≡ at (λ (b : PhysicalBlock T). bit (is_free b)) p.blocks i =
        ap (count i) (sym e) ∙ a.free_tally i in
      let (b, here, w) =
        at_pos (λ (b : PhysicalBlock T). bit (is_free b)) p.blocks i (omega (arith, bit_self i)) in
      (b, here, ground (arith, bit_self i))

  module _ (p : PagedKvCachePool T) {held : ℕ → ℕ} (i : ℕ) (rest : List ℕ) (owner : String)
      (a : Books p held) (e : p.free_blocks ≡ i ∷ rest) {b : PhysicalBlock T}
      (here : get_elem? p.blocks i ≡ some b) (f : is_free b ≡ true) where
    idle : held i ≡ 0
    idle = a.held_tally i ∙ at-some references p.blocks i here ∙ ground arith

    heap_at : (j : ℕ) → count j p.free_blocks ≡ bit (i == j) + count j rest
    heap_at j = ap (count j) e

    once : count i rest ≡ 0
    once =
        let t = at-some (λ (c : PhysicalBlock T). bit (is_free c)) p.blocks i here in
        let u : bit (is_free b) ≡ 1 = ap bit f in
        omega (arith, a.free_tally i, heap_at i, bit_self i)

    pub claim-Accounts : Books (claim_block i b owner (popped p rest)) (λ j. held j + bit (i == j))
    unfolding claim_block
    claim-Accounts =
        Accounts-set a i here (claimed b owner) rest p.prefix_index (λ j. held j + bit (i == j))
          (λ j ne. omega (arith, heap_at j, bit_ne i j ne)) once
          (λ j ne. omega (arith, bit_ne i j ne)) (omega (arith, idle, bit_self i))
          (claimed_ok b owner f (a.well_formed i b here)) (λ hash j ne h. h)
          (λ s. absurd (ground arith)) (ground arith) a.index_distinct

    pub claim-Worked : Worked held p (claim_block i b owner (popped p rest))
    unfolding claim_block
    claim-Worked = record {
      same = record {
        config = refl;
        n_layer = refl;
        prefix_cache_namespace = refl;
        storage = refl;
        tables = refl;
        length_blocks = length-set p.blocks i (claimed b owner);
      };
      frame = λ j h. get_elem?-set_ne p.blocks i j _ (λ q. h (ap held (sym q) ∙ idle));
      active =
          let u : bit (is_active b) ≡ 0 = ground arith in
          omega (
            arith,
            total-set (λ (c : PhysicalBlock T). bit (is_active c)) p.blocks i (claimed b owner)
                (get_elem?_bound p.blocks i here),
            at-some (λ (c : PhysicalBlock T). bit (is_active c)) p.blocks i here,
          );
    }

    pub claim-Owns : Owns (claim_block i b owner (popped p rest)).blocks owner i
    unfolding claim_block
    claim-Owns = (
      claimed b owner,
      get_elem?-set_self p.blocks i _ (get_elem?_bound p.blocks i here),
      (eq_iff owner owner).1 refl,
    )

  -- What `claim_blocks` promises.
  pub record Claimed (p : PagedKvCachePool T) (held : ℕ → ℕ) (n : ℕ) (owner : String)
      (acquired ids : List ℕ) (q : PagedKvCachePool T) : Type 0 where
    pub new : List ℕ
    pub ids-new : ids ≡ acquired ++ new
    pub length-new : length new ≡ n
    pub accounts : Books q (λ j. held j + count j new)
    pub worked : Worked held p q
    pub owns : OwnsAll q.blocks owner new
    pub rest : length q.free_blocks + n ≡ length p.free_blocks

  Claimed-cons :
      {p q r : PagedKvCachePool T} {held : ℕ → ℕ} {n : ℕ} {owner : String} {acquired ids : List ℕ}
      (i : ℕ)
      → Worked held p q
      → Owns q.blocks owner i
      → length q.free_blocks + 1 ≡ length p.free_blocks
      → Claimed q (λ j. held j + bit (i == j)) n owner (acquired ++ i ∷ []) ids r
      → Claimed p held (suc n) owner acquired ids r
  Claimed-cons {p} {q} {r} {held} {n} {owner} {acquired} i w o l c = record {
    new = i ∷ c.new;
    ids-new = c.ids-new ∙ append_assoc acquired (i ∷ []) c.new;
    length-new = ap suc c.length-new;
    accounts = record {
      free_tally = c.accounts.free_tally;
      held_tally = λ j. omega (arith, c.accounts.held_tally j);
      well_formed = c.accounts.well_formed;
      indexed = c.accounts.indexed;
      index_size = c.accounts.index_size;
      index_distinct = c.accounts.index_distinct;
    };
    worked = Worked-trans w c.worked (λ j h k. h (omega arith));
    owns = ((o.0, c.worked.frame i (λ k. absurd (omega (arith, bit_self i))) ∙ o.1, o.2), c.owns);
    rest = omega (arith, c.rest, l);
  }

  claim_blocks_step :
      (p : PagedKvCachePool T) (i : ℕ) (rest : List ℕ) (n : ℕ) (owner : String) (acquired : List ℕ)
      {b : PhysicalBlock T}
      → p.free_blocks ≡ i ∷ rest
      → get_elem? p.blocks i ≡ some b
      → is_free b ≡ true
      → claim_blocks (suc n) owner acquired p
        ≡ claim_blocks n owner (acquired ++ i ∷ []) (claim_block i b owner (popped p rest))
  unfolding claim_blocks
  claim_blocks_step p i rest n owner acquired e here f = ground arith

  -- With enough blocks on the heap the loop returns that many, now private to the owner.
  pub claim_blocks-Claimed :
      (n : ℕ) (owner : String) (acquired : List ℕ) (p : PagedKvCachePool T) (held : ℕ → ℕ)
      → Books p held
      → n ≤ length p.free_blocks
      → Returns (Claimed p held n owner acquired) (claim_blocks n owner acquired p)
  unfolding claim_blocks
  claim_blocks-Claimed zero owner acquired p held a h = returns (record {
    new = [];
    ids-new = sym (append-nil acquired);
    length-new = refl;
    accounts = Books-congr p (λ j. omega arith) a;
    worked = Worked-refl held p;
    owns = tt;
    rest = omega arith;
  })
  claim_blocks-Claimed (suc n) owner acquired p held a h = elim (List-cases p.free_blocks) [
    | inl e ↦ absurd (omega (arith, ap length e))
    | inr (i, rest, e) ↦
        let (b, here, f) = head_free p i rest a e in
        rw (claim_blocks_step p i rest n owner acquired e here f) (
          Ends-mono
            (claim_blocks-Claimed n owner (acquired ++ i ∷ [])
              (claim_block i b owner (popped p rest)) (λ j. held j + bit (i == j))
              (claim-Accounts p i rest owner a e here f)
              (unfold claim_block in omega (arith, ap length e)))
            (λ ids q c.
              Claimed-cons i (claim-Worked p i rest owner a e here f)
                (claim-Owns p i rest owner a e here f)
                (unfold claim_block in omega (arith, ap length e)) c)
            (λ _ _ x. x))
  ]
