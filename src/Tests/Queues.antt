-- ===== src/Tests/Queues.antt =====
-- Runs of the semaphore and the token bucket of packages/cron.
use nope.Prelude.{ℕ, refl, List, [], ◌∷◌, none, arith, false}
use nope.Cron.Semaphore as Semaphore
use nope.Cron.TokenBucket as TokenBucket

abbrev semaphore_ops : List Semaphore.Op
semaphore_ops = Semaphore.Op.acquires 1 ∷ Semaphore.Op.acquires 2 ∷ Semaphore.Op.releases ∷ []

settled_example :
    Semaphore.AtRest 1 (Semaphore.run (Semaphore.create 1) (Semaphore.settled semaphore_ops))
settled_example = Semaphore.settled-create-AtRest 1 semaphore_ops (omega arith)

abbrev full_semaphore : Semaphore.Semaphore
full_semaphore = record { limit = 1; current = 1; queue = 2 ∷ []; woken = []; holders = 1 }

abbrev bucket_options : TokenBucket.Options
bucket_options = record { capacity = 2; refill_rate = 1; refill_interval_ms = 100; burst = none }

abbrev bucket : TokenBucket.Bucket
bucket = record {
  options = bucket_options;
  tokens = 2;
  last_refill = 0;
  waiters = [];
  served = [];
  timer = false;
}

abbrev bucket_ops : List (ℕ × TokenBucket.Op)
bucket_ops =
    (1, TokenBucket.Op.takes 1) ∷ (2, TokenBucket.Op.takes 2) ∷ (3, TokenBucket.Op.takes 3) ∷ []

bucket_example :
    TokenBucket.Limits bucket_options (1 ∷ 2 ∷ 3 ∷ []) (TokenBucket.run bucket bucket_ops)
unfolding TokenBucket.create
bucket_example = TokenBucket.bucket-Limits bucket_options 0 bucket_ops refl
