-- ===== src/Kafka/Consumer.antt =====
-- The loop and the retries of pkg/kafka/consumer.go. The handler, the clock, the context and the
-- reader (github.com/segmentio/kafka-go) answer as parameters, which see all that happened before.
pub mod Laws
use kfc_userapi.Prelude.{
  ℕ, zero, suc, String, Bool, true, false, ◌||◌, List, [], ◌∷◌, if◌then◌else◌, eqb,
}
use kfc_userapi.Prelude.Int.{ℤ, pos, pos_part, ◌*ℤ◌, int64}
use kfc_userapi.Domain.Result.{Result, ok, err}
use kfc_userapi.Domain.Errors.{GoError}
use kfc_userapi.Trace.{Trace}

-- the key and the value of kafka.Message
pub record Message : Type 0 where
  pub key : String
  pub value : String

-- A call of the handler, a wait of so many nanoseconds between two calls, the second after a fetch
-- that failed, a call of CommitMessages, and its error in the log of the program.
pub data Event : Type 0 where
  handled : Message → Event
  waited : ℤ → Event
  paused : Event
  commit_called : Message → Event
  commit_failed : GoError → Event

abbrev pub Log : Type 0
Log = List Event

-- `attempts` is Consumer.attempts; `is_stopped` says that the context is done, and `elapses` that a
-- wait is over before the context is.
pub record Backend : Type 0 where
  pub attempts : ℤ
  pub handler : Log → Message → Result (Unit {0})
  pub commit : Log → Message → Result (Unit {0})
  pub is_stopped : Log → Bool
  pub elapses : Log → ℤ → Bool

-- 500 * time.Millisecond
abbrev pub first_backoff : ℤ
first_backoff = pos 500000000

-- backoff *= 2
unfoldable pub doubled : ℤ → ℤ
unfolding int64 ◌*ℤ◌
doubled backoff = int64 (backoff *ℤ pos 2)

module _ (env : Backend) where
  -- the select on the wait and the context; `again` is the rest of the loop
  abbrev pub wait_then : ℤ → GoError → Trace Event (Unit {0}) → Trace Event (Unit {0})
  wait_then backoff e again log =
      if env.elapses log backoff
      then again (waited backoff ∷ log)
      else (err e, waited backoff ∷ log)

  -- after a call of the handler, with `left` attempts to go
  abbrev pub after_call :
      ℕ → ℤ → Trace Event (Unit {0}) → Result (Unit {0}) → Trace Event (Unit {0})
  after_call left backoff again (ok u) log = (ok tt, log)
  after_call left backoff again (err e) log =
      if eqb left 0 || env.is_stopped log then (err e, log) else wait_then backoff e again log

  -- the loop of handle, with so many attempts to go
  unfoldable pub retry : ℕ → ℤ → Message → Trace Event (Unit {0})
  unfolding doubled
  retry zero backoff msg log = (ok tt, log)
  retry (suc left) backoff msg log =
      after_call left backoff (retry left (doubled backoff) msg) (env.handler log msg)
        (handled msg ∷ log)

  unfoldable pub handle : Message → Trace Event (Unit {0})
  unfolding retry
  handle msg = retry (pos_part env.attempts) first_backoff msg

-- what FetchMessage returns
pub data Fetched : Type 0 where
  message : Message → Fetched
  fetch_failed : Fetched

module _ (env : Backend) where
  -- the error of a commit is written to the log and dropped
  abbrev pub after_commit : Result (Unit {0}) → Log → Log
  after_commit (ok u) log = log
  after_commit (err e) log = commit_failed e ∷ log

  abbrev pub commit_message : Message → Log → Log
  commit_message msg log = after_commit (env.commit log msg) (commit_called msg ∷ log)

  -- The loop of Start: a commit is asked for whatever the handler says.
  unfoldable pub consume : List Fetched → Log → Log
  unfolding handle
  consume [] log = log
  consume (fetch_failed ∷ rest) log =
      if env.is_stopped log then log else consume rest (paused ∷ log)
  consume (message msg ∷ rest) log = consume rest (commit_message msg (handle env msg log).1)
