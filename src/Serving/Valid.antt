-- ===== src/Serving/Valid.antt =====
-- What the checks of src/minigpt/serving.py establish of requests and configurations.
use mini_gpt.Prelude.{
  ℕ, suc, ◌≤◌, ◌<◌, ◌≡◌, refl, Option, none, some, Bool, true, false, arith, Bool-cases, inl, inr,
  ltb, leb, ltb→lt, leb→le, ◌&&◌, ◌||◌, not, is_none,
}
use mini_gpt.Prelude.Int.{ℤ, pos, negsuc}
use mini_gpt.Exec.{Result, ok, err, bad_config}
use mini_gpt.Serving.Types.{
  Ratio, positive_or_none, option_ℕ, SchedulerConfig, make_scheduler, same_presence, is_one,
}

-- How a check ends: with a value that satisfies the predicate, or as a bad configuration.
abbrev pub Checked : {A : Type 0} → (A → Type 0) → Result A → Type 0
Checked P (ok a) = P a
Checked P (err x) = x ≡ bad_config

pub record IsScheduler (c : SchedulerConfig) : Type 0 where
  pub active : 0 < c.max_active_requests
  pub cached : 0 < c.max_cached_tokens
  pub paired : is_none c.max_scheduled_tokens ≡ is_none c.prefill_chunk_tokens
  pub scheduled : (n : ℕ) → c.max_scheduled_tokens ≡ some n → 0 < n
  pub chunk : (n : ℕ) → c.prefill_chunk_tokens ≡ some n → 0 < n
  pub overcommit : c.kv_overcommit_ratio.denominator ≤ c.kv_overcommit_ratio.numerator
  pub divisor : 0 < c.kv_overcommit_ratio.denominator
  pub growth : c.lazy_kv_reservation ≡ true → c.kv_preemption ≡ true
  pub eager : c.lazy_kv_reservation ≡ false → is_one c.kv_overcommit_ratio ≡ true

pub and_left : (a b : Bool) → (a && b) ≡ true → a ≡ true
and_left true b e = refl
and_left false b e = cc

pub and_right : (a b : Bool) → (a && b) ≡ true → b ≡ true
and_right true b e = e
and_right false b e = cc

same-none :
    (a b : Option ℤ)
    → same_presence a b ≡ true
    → positive_or_none a ≡ true
    → positive_or_none b ≡ true
    → is_none (option_ℕ a) ≡ is_none (option_ℕ b)
same-none none none e p q = refl
same-none (some (pos n)) (some (pos m)) e p q = refl
same-none (some (negsuc n)) b e p q = cc
same-none (some (pos n)) (some (negsuc m)) e p q = cc
same-none none (some b) e p q = cc
same-none (some (pos n)) none e p q = cc

option_positive : (o : Option ℤ) → positive_or_none o ≡ true → (n : ℕ) → option_ℕ o ≡ some n → 0 < n
option_positive none p n e = cc
option_positive (some (pos m)) p n e = ground (arith, p, e)
option_positive (some (negsuc m)) p n e = cc

abbrev checks : Option ℤ → Option ℤ → Bool → Bool → Ratio → Bool
checks scheduled chunk preemption lazy ratio =
    same_presence scheduled chunk
    && (positive_or_none scheduled
        && (positive_or_none chunk
            && (ltb 0 ratio.denominator
                && (leb ratio.denominator ratio.numerator
                    && ((lazy || is_one ratio) && (not lazy || preemption))))))

lazy_preempts : (l p : Bool) → (not l || p) ≡ true → l ≡ true → p ≡ true
lazy_preempts true p e h = e
lazy_preempts false p e h = cc

eager_is_one : (l o : Bool) → (l || o) ≡ true → l ≡ false → o ≡ true
eager_is_one true o e h = cc
eager_is_one false o e h = e

sound-IsScheduler :
    (a c : ℕ) (scheduled chunk : Option ℤ) (preemption lazy : Bool) (ratio : Ratio)
    → checks scheduled chunk preemption lazy ratio ≡ true
    → IsScheduler (record {
      max_active_requests = suc a;
      max_cached_tokens = suc c;
      max_scheduled_tokens = option_ℕ scheduled;
      prefill_chunk_tokens = option_ℕ chunk;
      kv_preemption = preemption;
      lazy_kv_reservation = lazy;
      kv_overcommit_ratio = ratio;
    })
sound-IsScheduler a c scheduled chunk preemption lazy ratio passed =
    let paired = and_left _ _ passed in
    let rest1 = and_right (same_presence scheduled chunk) _ passed in
    let scheduled_ok = and_left _ _ rest1 in
    let rest2 = and_right (positive_or_none scheduled) _ rest1 in
    let chunk_ok = and_left _ _ rest2 in
    let rest3 = and_right (positive_or_none chunk) _ rest2 in
    let divisor = ltb→lt 0 ratio.denominator (and_left _ _ rest3) in
    let rest4 = and_right (ltb 0 ratio.denominator) _ rest3 in
    let overcommit = leb→le ratio.denominator ratio.numerator (and_left _ _ rest4) in
    let rest5 = and_right (leb ratio.denominator ratio.numerator) _ rest4 in
    record {
      active = omega arith;
      cached = omega arith;
      paired = same-none scheduled chunk paired scheduled_ok chunk_ok;
      scheduled = option_positive scheduled scheduled_ok;
      chunk = option_positive chunk chunk_ok;
      overcommit = overcommit;
      divisor = divisor;
      growth = lazy_preempts lazy preemption (and_right (lazy || is_one ratio) _ rest5);
      eager = eager_is_one lazy (is_one ratio) (and_left (lazy || is_one ratio) _ rest5);
    }

-- A configuration of the scheduler is refused as a bad one, or it is returned, and then its
-- limits are positive, a chunk length and a token budget are given both or neither, the
-- overcommit ratio is a fraction of at least one and is one where reservations are eager, and
-- lazy reservations come with preemption.
pub make_scheduler-IsScheduler :
    (active cached : ℤ) (scheduled chunk : Option ℤ) (preemption lazy : Bool) (ratio : Ratio)
    → Checked IsScheduler (make_scheduler active cached scheduled chunk preemption lazy ratio)
unfolding make_scheduler
make_scheduler-IsScheduler (pos (suc a)) (pos (suc c)) scheduled chunk preemption lazy ratio =
    elim (Bool-cases (checks scheduled chunk preemption lazy ratio)) [
      | inr failed ↦ rw failed refl
      | inl passed ↦ rw passed (sound-IsScheduler a c scheduled chunk preemption lazy ratio passed)
    ]
make_scheduler-IsScheduler active cached scheduled chunk preemption lazy ratio = refl
