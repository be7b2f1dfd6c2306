-- ===== src/Relay/Delays.antt =====
-- The delays between the sessions with the relay.
use native.Mathlib.Nat.{pow-le-pow_right, mul-le-mul_left}
use mac_agent.Base.{
  All, List, [], ◌∷◌, length, ◌+◌, add64, Bool, true, false, by_test, ◌*◌, ◌^◌, Int64, lt64, le64,
  ◌≤◌, ◌<◌, if◌then◌else◌, arith, ℕ,
}
use mac_agent.Relay.{Config, mul64, backoff, run}

-- `1 << n` for an attempt that is capped.
shift-le : (n : ℕ) → n ≤ 10 → 2 ^ n ≤ 1024
shift-le n h = pow-le-pow_right {n = 2} (omega arith) h

capped-le : (attempt : Int64) → attempt < 2 ^ 63 → (if lt64 10 attempt then 10 else attempt) ≤ 10
capped-le attempt h =
    by_test (λ n. n ≤ 10) (lt64 10 attempt) _ _ (λ t. omega arith) (λ t. ground (arith, t, h))

clipped-le :
    (longest delay : Int64)
    → longest < 2 ^ 63
    → delay < 2 ^ 63
    → (if lt64 longest delay then longest else delay) ≤ longest
clipped-le longest delay l d =
    by_test (λ n. n ≤ longest) (lt64 longest delay) _ _ (λ t. omega arith)
      (λ t. ground (arith, t, l, d))

drawn-le :
    (random : Int64 → Int64) (longest bounded : Int64)
    → ((n : Int64) → 0 < n → random n < n)
    → longest < 2 ^ 63
    → bounded ≤ longest
    → (if le64 bounded 1 then bounded else random bounded) ≤ longest
drawn-le random longest bounded law l b =
    by_test (λ n. n ≤ longest) (le64 bounded 1) _ _ (λ t. b)
      (λ t.
        let positive : 0 < bounded = ground (arith, t, l, b) in
        omega (arith, law bounded positive, b))

-- Without a wrap.
mul64-le : (shortest n : ℕ) → shortest < 2 ^ 53 → n ≤ 10 → mul64 shortest (2 ^ n) < 2 ^ 63
mul64-le shortest n small h =
    let product : shortest * 2 ^ n ≤ shortest * 1024 = mul-le-mul_left shortest (shift-le n h) in
    omega (arith, product)

-- One delay.
backoff-le :
    (random : Int64 → Int64) (c : Config) (attempt : Int64)
    → ((n : Int64) → 0 < n → random n < n)
    → c.min_backoff < 2 ^ 53
    → c.max_backoff < 2 ^ 63
    → attempt < 2 ^ 63
    → backoff random c attempt ≤ c.max_backoff
unfolding backoff
backoff-le random c attempt law small l a =
    drawn-le random c.max_backoff _ law l
      (clipped-le c.max_backoff _ l (mul64-le c.min_backoff _ small (capped-le attempt a)))

-- Each delay of `Run`, over fewer than 2 ^ 63 sessions, is at most the longest one that is configured,
-- and none is made negative by an overflow: for a shortest delay below 2 ^ 53 nanoseconds, which is
-- 104 days, and random numbers below the bound that is asked for.
pub run-le :
    (random : Int64 → Int64) (c : Config) (attempt : Int64) (sessions : List Bool)
    → ((n : Int64) → 0 < n → random n < n)
    → c.min_backoff < 2 ^ 53
    → c.max_backoff < 2 ^ 63
    → attempt + length sessions < 2 ^ 63
    → All (λ delay. delay ≤ c.max_backoff) (run random c attempt sessions)
unfolding run
run-le random c attempt [] law small l a = tt
run-le random c attempt (true ∷ sessions) law small l a = tt
run-le random c attempt (false ∷ sessions) law small l a = (
  backoff-le random c attempt law small l (omega arith),
  run-le random c (add64 attempt 1) sessions law small l (omega arith),
)
