-- ===== src/Live/Hub/Runs.antt =====
-- The runs of internal/sse/hub.go under its clients, the streams of internal/transport/http/handler
-- and the consumers of internal/consumer: a stream unsubscribes once, with the key it subscribed
-- with, and reads its own channel.
use kfc_userapi.Prelude.{ℕ, String, ◌≡◌, ◌≢◌, refl, ap, none, some, arith}
use kfc_userapi.Prelude.Options.{one_result}
use kfc_userapi.Live.Hub.{Hub, new_hub, subscribe, unsubscribe, publish, receive}
use kfc_userapi.Live.Hub.Contract.{
  Subscriptions, assign, Represents, subscribe-Represents, unsubscribe-Represents,
}
use kfc_userapi.Live.Hub.Delivery.{publish-delivers, receive-Represents}

-- The states that a run reaches, with the subscriptions that were made and not given up.
pub data Reached : Hub → Subscriptions → Type 0 where
  started : Reached new_hub (λ _. none)
  subscribed :
      {h : Hub} {subs : Subscriptions} (key : String)
      → Reached h subs
      → Reached (subscribe key h).1 (assign (subscribe key h).0 (some key) subs)
  unsubscribed :
      {h after : Hub} {subs : Subscriptions} (key : String) (i : ℕ)
      → subs i ≡ some key
      → unsubscribe key i h ≡ some after
      → Reached h subs
      → Reached after (assign i none subs)
  published :
      {h after : Hub} {subs : Subscriptions} (key payload : String) (n : ℕ)
      → publish key payload h ≡ some (after, n)
      → Reached h subs
      → Reached after subs
  received :
      {h after : Hub} {subs : Subscriptions} (i : ℕ) (payload : String)
      → receive i h ≡ some (payload, after)
      → Reached h subs
      → Reached after subs

new_hub-Represents : Represents new_hub (λ _. none)
unfolding new_hub
new_hub-Represents = record {
  global_is = λ i. refl;
  set_is = λ key miss i. refl;
  all_is = λ i. refl;
  global_once = tt;
  sets_once = tt;
  sets_map = tt;
  made = λ i key m. cc;
  live = λ i key m. cc;
  bounded = λ i. omega arith;
}

-- In every state that a run of the hub reaches, the sets hold exactly the channels that are
-- subscribed, each once and under the key it was subscribed with; no set is empty, no key has
-- two; the channels that are subscribed were made and are open; and no buffer holds more than
-- eight events.
pub reached-Represents : {h : Hub} {subs : Subscriptions} → Reached h subs → Represents h subs
reached-Represents started = new_hub-Represents
reached-Represents (subscribed {h = h} {subs = subs} key run) =
    subscribe-Represents h subs (reached-Represents run) key
reached-Represents (unsubscribed {h = h} {subs = subs} key i m done run) =
    let (after, same, kept) = unsubscribe-Represents h subs (reached-Represents run) key i m in
    rw (one_result same done) at kept
reached-Represents (published {h = h} {subs = subs} key payload n done run) =
    let (after, m, same, kept, each) =
      publish-delivers h subs (reached-Represents run) key payload in
    rw (ap (λ x. x.0) (one_result same done)) at kept
reached-Represents (received {h = h} {subs = subs} i payload done run) =
    receive-Represents h subs i (reached-Represents run) done

-- In every state that a run of the hub reaches, neither publishing an event nor giving up a
-- subscription that was made panics: no send to and no close of a closed channel.
pub reached_never_panics :
    {h : Hub} {subs : Subscriptions} (key payload : String) (i : ℕ) (own : String)
    → Reached h subs
    → subs i ≡ some own
    → (publish key payload h ≢ none) × (unsubscribe own i h ≢ none)
reached_never_panics {h = h} {subs = subs} key payload i own run m =
    let r = reached-Represents run in
    (
      λ p. cc (p, (publish-delivers h subs r key payload).2),
      λ p. cc (p, (unsubscribe-Represents h subs r own i m).1),
    )
