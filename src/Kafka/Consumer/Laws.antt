-- ===== src/Kafka/Consumer/Laws.antt =====
-- pkg/kafka/consumer.go: how often a message is handled, how long that may take, and that a
-- message that cannot be handled does not stop the others.
use kfc_userapi.Prelude.{
  ℕ, zero, suc, ◌+◌, ◌-◌, ◌*◌, ◌^◌, ◌≤◌, ◌<◌, ◌≡◌, refl, ap, ◌∙◌, inl, inr, false, List, [], ◌∷◌,
  ◌||◌, Bool-cases, eqb, arith,
}
use kfc_userapi.Prelude.Int.{ℤ, pos, pos_part, int64, half64, int64_of_lt, *ℤ-pos}
use kfc_userapi.Domain.Result.{Result, ok, err}
use kfc_userapi.Domain.Errors.{GoError}
use kfc_userapi.Trace.{Trace}
use kfc_userapi.Kafka.Consumer.{
  Message, Event, handled, waited, paused, commit_called, Log, Backend, first_backoff, doubled,
  wait_then, after_commit, commit_message, after_call, retry, handle, Fetched, message,
  fetch_failed, consume,
}

-- how often the handler was called
abbrev pub calls : Log → ℕ
calls [] = 0
calls (handled msg ∷ log) = suc (calls log)
calls (_ ∷ log) = calls log

-- how long was waited between calls, in nanoseconds
abbrev pub waits : Log → ℕ
waits [] = 0
waits (waited t ∷ log) = pos_part t + waits log
waits (_ ∷ log) = waits log

-- the messages commit_called, the latest first
abbrev pub commits : Log → List Message
commits [] = []
commits (commit_called msg ∷ log) = msg ∷ commits log
commits (_ ∷ log) = commits log

doubled-pos : (b : ℕ) → b * 2 < half64 → doubled (pos b) ≡ pos (b * 2)
unfolding doubled
doubled-pos b h = ap int64 (*ℤ-pos b 2) ∙ int64_of_lt (b * 2) h

-- From `log` to `after` there were at most `n` calls and waits of at most `t`.
pub record IsBrief (n t : ℕ) (log after : Log) : Type 0 where
  pub few : calls after ≤ calls log + n
  pub short : waits after ≤ waits log + t

once : (msg : Message) (n t : ℕ) (log : Log) → IsBrief (suc n) t log (handled msg ∷ log)
once msg n t log = record { few = omega arith; short = omega arith }

power_pos : (n : ℕ) → 1 ≤ 2 ^ n
power_pos zero = omega arith
power_pos (suc n) = omega (arith, power_pos n)

-- The first wait and all later ones, with `p` for a power of two.
wait_fits : (b p t : ℕ) → 1 ≤ p → b * (2 * p) ≤ b + t → b ≤ t
wait_fits b zero t h k = absurd (omega arith)
wait_fits b (suc p) t h k = ground arith

pow_suc : (n : ℕ) → 2 ^ suc n ≡ 2 * 2 ^ n
pow_suc n = omega arith

pow_mono : (n m : ℕ) → n ≤ m → 2 ^ n ≤ 2 ^ m
pow_mono zero m h = power_pos m
pow_mono (suc n) zero h = omega arith
pow_mono (suc n) (suc m) h = omega (arith, pow_mono n m)

double_first : (b p : ℕ) → b * 2 * p ≡ b * (2 * p)
double_first b p = ground arith

eqb-suc : (n : ℕ) → eqb (suc n) 0 ≡ false
eqb-suc n = ground arith

module _ (env : Backend) (msg : Message) where
  wait_then-IsBrief :
      (left b t : ℕ) (e : GoError) (again : Trace Event (Unit {0})) (log : Log)
      → b ≤ t
      → ((l : Log) → IsBrief (suc left) (t - b) l (again l).1)
      → IsBrief (suc (suc left)) t log (wait_then env (pos b) e again (handled msg ∷ log)).1
  wait_then-IsBrief left b t e again log fits h =
      elim (Bool-cases (env.elapses (handled msg ∷ log) (pos b))) [
        | inl over ↦ rw over (
            let rest = h (waited (pos b) ∷ handled msg ∷ log) in
            record { few = omega (arith, rest.few); short = omega (arith, rest.short, fits) })
        | inr cut ↦ rw cut record { few = omega arith; short = omega (arith, fits) }
      ]

  after_call-IsBrief :
      (left b t : ℕ) (again : Trace Event (Unit {0})) (r : Result (Unit {0})) (log : Log)
      → b ≤ t
      → ((l : Log) → IsBrief (suc left) (t - b) l (again l).1)
      → IsBrief
          (suc (suc left))
          t
          log
          (after_call env (suc left) (pos b) again r (handled msg ∷ log)).1
  after_call-IsBrief left b t again (ok u) log fits h = once msg (suc left) t log
  after_call-IsBrief left b t again (err e) log fits h =
      elim (Bool-cases (env.is_stopped (handled msg ∷ log))) [
        | inl stopped ↦ rw (eqb-suc left, stopped) (once msg (suc left) t log)
        | inr on ↦ rw (eqb-suc left, on) (wait_then-IsBrief left b t e again log fits h)
      ]

  last-IsBrief :
      (b : ℤ) (t : ℕ) (again : Trace Event (Unit {0})) (r : Result (Unit {0})) (log : Log)
      → IsBrief 1 t log (after_call env 0 b again r (handled msg ∷ log)).1
  last-IsBrief b t again (ok u) log = once msg 0 t log
  last-IsBrief b t again (err e) log = once msg 0 t log

  retry-IsBrief :
      (left b t : ℕ) (log : Log)
      → b + t < half64
      → b * 2 ^ left ≤ b + t
      → IsBrief (suc left) t log (retry env (suc left) (pos b) msg log).1
  unfolding retry
  retry-IsBrief zero b t log small enough =
      last-IsBrief (pos b) t (retry env 0 (doubled (pos b)) msg) (env.handler log msg) log
  retry-IsBrief (suc left) b t log small enough =
      let fits = wait_fits b (2 ^ left) t (power_pos left) (rw (pow_suc left) at enough) in
      after_call-IsBrief left b t (retry env (suc left) (doubled (pos b)) msg) (env.handler log msg)
        log fits
        (λ l. rw (doubled-pos b (omega (arith, fits, small))) (
          retry-IsBrief left (b * 2) (t - b) l (omega (arith, fits, small))
            (rw (double_first b (2 ^ left)) (omega (arith, fits, rw (pow_suc left) at enough)))))

-- With n + 1 attempts, n below 34, a message is handled at most n + 1 times, and the waits
-- between are together at most 500 ms times 2^n - 1.
pub handle-IsBrief :
    (env : Backend) (msg : Message) (n : ℕ) (log : Log)
    → env.attempts ≡ pos (suc n)
    → n < 34
    → IsBrief (suc n) (500000000 * (2 ^ n - 1)) log (handle env msg log).1
unfolding handle
handle-IsBrief env msg n log attempts small = rw attempts (
    retry-IsBrief env msg n 500000000 (500000000 * (2 ^ n - 1)) log
      (omega (arith, pow_mono n 33, power_pos n)) (omega (arith, power_pos n)))

after_call-commits :
    (env : Backend) (msg : Message) (left : ℕ) (backoff : ℤ) (again : Trace Event (Unit {0}))
    (r : Result (Unit {0})) (log : Log)
    → ((l : Log) → commits (again l).1 ≡ commits l)
    → commits (after_call env left backoff again r (handled msg ∷ log)).1 ≡ commits log
after_call-commits env msg left backoff again (ok u) log h = refl
after_call-commits env msg left backoff again (err e) log h =
    elim (Bool-cases (eqb left 0 || env.is_stopped (handled msg ∷ log))) [
      | inl over ↦ rw over refl
      | inr on ↦ elim (Bool-cases (env.elapses (handled msg ∷ log) backoff)) [
        | inl elapsed ↦ rw (on, elapsed) (h (waited backoff ∷ handled msg ∷ log))
        | inr cut ↦ rw (on, cut) refl
      ]
    ]

retry-commits :
    (env : Backend) (msg : Message) (left : ℕ) (backoff : ℤ) (log : Log)
    → commits (retry env left backoff msg log).1 ≡ commits log
unfolding retry
retry-commits env msg zero backoff log = refl
retry-commits env msg (suc left) backoff log =
    after_call-commits env msg left backoff (retry env left (doubled backoff) msg)
      (env.handler log msg) log (λ l. retry-commits env msg left (doubled backoff) l)

-- The messages of all fetches that did not fail, put before those of before, the latest first.
abbrev pub fetched : List Fetched → List Message → List Message
fetched [] before = before
fetched (fetch_failed ∷ rest) before = fetched rest before
fetched (message msg ∷ rest) before = fetched rest (msg ∷ before)

after_commit-commits :
    (env : Backend) (r : Result (Unit {0})) (log : Log)
    → commits (after_commit env r log) ≡ commits log
after_commit-commits env (ok u) log = refl
after_commit-commits env (err e) log = refl

-- While the context is not done, CommitMessages is called for every message that is fetched, once
-- and in order, whatever its handler and the commits before answer and whichever fetches fail.
pub consume-commits :
    (env : Backend) (inputs : List Fetched) (log : Log)
    → ((l : Log) → env.is_stopped l ≡ false)
    → commits (consume env inputs log) ≡ fetched inputs (commits log)
unfolding consume handle
consume-commits env [] log running = refl
consume-commits env (fetch_failed ∷ rest) log running =
    rw (running log) (consume-commits env rest (paused ∷ log) running)
consume-commits env (message msg ∷ rest) log running =
    let after = (handle env msg log).1 in
    consume-commits env rest (commit_message env msg after) running
    ∙ ap (fetched rest) (
        after_commit-commits env (env.commit after msg) (commit_called msg ∷ after)
        ∙ ap (λ c. msg ∷ c) (retry-commits env msg (pos_part env.attempts) first_backoff log))
