-- ===== src/Kafka/Tests.antt =====
-- The theorems on the consumer with five attempts and a handler that always fails.
use kfc_userapi.Prelude.{◌-◌, ◌*◌, ◌^◌, ◌≡◌, refl, false, true, [], ◌∷◌, arith}
use kfc_userapi.Prelude.Int.{pos}
use kfc_userapi.Domain.Errors.{plain}
use kfc_userapi.Domain.Result.{err}
use kfc_userapi.Kafka.Consumer.{Message, Backend, handle, message, fetch_failed, consume}
use kfc_userapi.Kafka.Consumer.Laws.{IsBrief, handle-IsBrief, commits, consume-commits}

abbrev broken : Backend
broken = record {
  attempts = pos 5;
  handler = λ log msg. err (plain "down");
  commit = λ log msg. err (plain "no coordinator");
  is_stopped = λ log. false;
  elapses = λ log t. true;
}

abbrev first : Message
first = record { key = "k1"; value = "e1" }

abbrev second : Message
second = record { key = "k2"; value = "e2" }

handle-IsBrief_example : IsBrief 5 (500000000 * (2 ^ 4 - 1)) [] (handle broken first []).1
handle-IsBrief_example = handle-IsBrief broken first 4 [] refl (omega arith)

consume-commits_example :
    commits (consume broken (message first ∷ fetch_failed ∷ message second ∷ []) [])
    ≡ second ∷ first ∷ []
consume-commits_example =
    consume-commits broken (message first ∷ fetch_failed ∷ message second ∷ []) [] (λ l. refl)
