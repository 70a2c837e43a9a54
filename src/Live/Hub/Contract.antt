-- ===== src/Live/Hub/Contract.antt =====
-- What internal/sse/hub.go promises: a hub stands for the subscriptions, which say for each channel
-- under which key it is subscribed, if it is. The empty key subscribes to every restaurant.
use kfc_userapi.Prelude.{
  ℕ, ◌≤◌, ◌<◌, String, ◌==◌, eq_refl, ◌≡◌, refl, sym, ap, ◌∙◌, inl, inr, Bool, true, false, not,
  ◌||◌, Option, none, some, List, [], ◌∷◌, ◌++◌, if◌then◌else◌, ltb, eqb, Bool-cases, Option-cases,
  arith,
}
use kfc_userapi.Prelude.Lists.{length}
use kfc_userapi.Live.Hub.{
  Channel, one_more, capacity, Hub, has, remove, put, set_of, all_of, remove_from, subscribe,
  with_closed, unsubscribe, try_send, send_all,
}
use kfc_userapi.Live.Hub.Sets.{
  same_key, key_sym, Distinct, has-remove, remove-Distinct, IsMap, set_of-add_to, all_of-add_to,
  add_to-Distinct, add_to-IsMap, set_of-remove_from, remove_from-IsMap, all_of-remove_from,
  remove_from-Distinct,
}

-- the key under which each channel is subscribed
abbrev pub Subscriptions : Type 0
Subscriptions = ℕ → Option String

abbrev pub assign : ℕ → Option String → Subscriptions → Subscriptions
assign i o subs j = if eqb i j then o else subs j

abbrev pub is_under : String → Option String → Bool
is_under key none = false
is_under key (some k) = k == key

abbrev pub is_keyed : Option String → Bool
is_keyed none = false
is_keyed (some k) = not (k == "")

-- An event for `key` is for the subscriber: one of the two keys is empty, or they are equal.
abbrev pub is_for : String → Option String → Bool
is_for key none = false
is_for key (some k) = key == "" || k == "" || k == key

-- What an event does to the channel of a subscriber.
abbrev pub offered : String → Channel → Channel
offered payload c =
    if ltb (length c.buffer) capacity
    then record { buffer = c.buffer ++ payload ∷ []; is_closed = false }
    else c

pub record Represents (h : Hub) (subs : Subscriptions) : Type 0 where
  pub global_is : (i : ℕ) → has i h.global ≡ is_under "" (subs i)
  pub set_is :
      (key : String)
      → (key == "") ≡ false
      → (i : ℕ) → has i (set_of key h.by_restaurant) ≡ is_under key (subs i)
  pub all_is : (i : ℕ) → has i (all_of h.by_restaurant) ≡ is_keyed (subs i)
  pub global_once : Distinct h.global
  pub sets_once : Distinct (all_of h.by_restaurant)
  pub sets_map : IsMap h.by_restaurant
  pub made : (i : ℕ) (key : String) → subs i ≡ some key → i < h.next
  pub live : (i : ℕ) (key : String) → subs i ≡ some key → (h.channel i).is_closed ≡ false
  pub bounded : (i : ℕ) → length (h.channel i).buffer ≤ capacity

try_send-open :
    (payload : String) (c : Channel)
    → c.is_closed ≡ false
    → try_send payload c ≡ some (offered payload c, ltb (length c.buffer) capacity)
unfolding try_send
try_send-open payload c h = elim (Bool-cases (ltb (length c.buffer) capacity)) [
  | inl room ↦ rw (h, room) refl
  | inr full ↦ rw (h, full) refl
]

eqb→eq : (i j : ℕ) → eqb i j ≡ true → i ≡ j
eqb→eq i j h = ground arith

-- What a round of sends leaves in the channels.
pub record IsSent (payload : String) (ids : List ℕ) (before after : ℕ → Channel) : Type 0 where
  pub each : (i : ℕ) → after i ≡ (if has i ids then offered payload (before i) else before i)

put_open :
    (i j : ℕ) (c : Channel) (ids : List ℕ) (channels : ℕ → Channel)
    → has i ids ≡ false
    → has j ids ≡ true
    → (channels j).is_closed ≡ false
    → (put i c channels j).is_closed ≡ false
put_open i j c ids channels h k o = ground arith

put_each :
    (payload : String) (i j : ℕ) (ids : List ℕ) (before after : ℕ → Channel)
    → has i ids ≡ false
    → after j ≡ (
        if has j ids
        then offered payload (put i (offered payload (before i)) before j)
        else put i (offered payload (before i)) before j)
    → after j ≡ (if has j (i ∷ ids) then offered payload (before j) else before j)
put_each payload i j ids before after h k = elim (Bool-cases (eqb i j)) [
  | inl hit ↦ rw hit (
      (rw (hit, ap (λ x. has x ids) (sym (eqb→eq i j hit)) ∙ h) at k)
      ∙ ap (λ x. offered payload (before x)) (eqb→eq i j hit))
  | inr miss ↦ rw miss (rw miss at k)
]

pub send_all-IsSent :
    (payload : String) (ids : List ℕ) (channels : ℕ → Channel) (n : ℕ)
    → Distinct ids
    → ((i : ℕ) → has i ids ≡ true → (channels i).is_closed ≡ false)
    → (after : ℕ → Channel) × (m : ℕ) × (send_all payload ids (channels, n) ≡ some (after, m))
      × IsSent payload ids channels after
unfolding send_all
send_all-IsSent payload [] channels n once live = (channels, n, refl, record { each = λ i. refl })
send_all-IsSent payload (i ∷ ids) channels n once live =
    let (after, m, h, sent) =
      send_all-IsSent payload ids (put i (offered payload (channels i)) channels)
        (one_more (ltb (length (channels i).buffer) capacity) n) once.1
        (λ j k.
          put_open i j (offered payload (channels i)) ids channels once.0 k
            (live j (ground (arith, k)))) in
    (
      after,
      m,
      rw (try_send-open payload (channels i) (live i (ground arith))) h,
      record { each = λ j. put_each payload i j ids channels after once.0 (sent.each j) },
    )

-- The operations keep what the hub stands for.
module _ (h : Hub) (subs : Subscriptions) (r : Represents h subs) where
  unused : subs h.next ≡ none
  unused = elim (Option-cases (subs h.next)) [
    | inl nothing ↦ nothing
    | inr (key, some_key) ↦ absurd (omega (arith, r.made h.next key some_key))
  ]

  fresh_global : has h.next h.global ≡ false
  fresh_global = r.global_is h.next ∙ ap (is_under "") unused

  fresh_sets : has h.next (all_of h.by_restaurant) ≡ false
  fresh_sets = r.all_is h.next ∙ ap is_keyed unused

  fresh_set : (k : String) → (k == "") ≡ false → has h.next (set_of k h.by_restaurant) ≡ false
  fresh_set k miss = r.set_is k miss h.next ∙ ap (is_under k) unused

  pub subscribe-Represents :
      (key : String) → Represents (subscribe key h).1 (assign (subscribe key h).0 (some key) subs)
  unfolding subscribe
  subscribe-Represents key = elim (Bool-cases (key == "")) [
    | inl all ↦ rw all record {
      global_is = λ i. ground (arith, r.global_is i, all);
      set_is = λ k miss i.
          ground
            (arith, r.set_is k miss i, fresh_set k miss, same_key key "" k all, key_sym k "" miss);
      all_is = λ i. ground (arith, r.all_is i, all, fresh_sets);
      global_once = (fresh_global, r.global_once);
      sets_once = r.sets_once;
      sets_map = r.sets_map;
      made = λ i k m. ground (arith, r.made i k);
      live = λ i k m. ground (arith, r.live i k);
      bounded = λ i. ground (arith, r.bounded i);
    }
    | inr one ↦ rw one record {
      global_is = λ i. ground (arith, r.global_is i, one, fresh_global);
      set_is = λ k miss i. ground (
        arith,
        r.set_is k miss i,
        fresh_set k miss,
        ap (has i) (set_of-add_to k key h.next h.by_restaurant),
      );
      all_is =
          λ i. ground (arith, r.all_is i, fresh_sets, all_of-add_to i key h.next h.by_restaurant);
      global_once = r.global_once;
      sets_once = add_to-Distinct key h.next h.by_restaurant fresh_sets r.sets_once;
      sets_map = add_to-IsMap key h.next h.by_restaurant r.sets_map;
      made = λ i k m. ground (arith, r.made i k);
      live = λ i k m. ground (arith, r.live i k);
      bounded = λ i. ground (arith, r.bounded i);
    }
  ]

  pub unsubscribe-Represents :
      (key : String) (i : ℕ)
      → subs i ≡ some key
      → (after : Hub) × (unsubscribe key i h ≡ some after) × Represents after (assign i none subs)
  unfolding unsubscribe
  unsubscribe-Represents key i m = elim (Bool-cases (key == "")) [
    | inl all ↦
        rw (all, r.live i key m)
          (
            with_closed i record h { global = remove i h.global },
            refl,
            record {
              global_is = λ j. ground (arith, r.global_is j, has-remove i j h.global);
              set_is = λ k miss j.
                  ground (arith, r.set_is k miss j, m, same_key key "" k all, key_sym k "" miss);
              all_is = λ j. ground (arith, r.all_is j, m, all);
              global_once = remove-Distinct i h.global r.global_once;
              sets_once = r.sets_once;
              sets_map = r.sets_map;
              made = λ j k g. ground (arith, r.made j k);
              live = λ j k g. ground (arith, r.live j k);
              bounded = λ j. ground (arith, r.bounded j);
            },
          )
    | inr one ↦
        rw (one, r.live i key m)
          (
            with_closed i record h { by_restaurant = remove_from key i h.by_restaurant },
            refl,
            record {
              global_is = λ j. ground (arith, r.global_is j, m, one);
              set_is = λ k miss j. ground (
                arith,
                r.set_is k miss j,
                m,
                ap (has j) (set_of-remove_from k key i h.by_restaurant r.sets_map),
                has-remove i j (set_of k h.by_restaurant),
              );
              all_is = λ j. ground (
                arith,
                r.all_is j,
                all_of-remove_from j key i h.by_restaurant r.sets_once
                    (r.set_is key one i ∙ ap (is_under key) m ∙ eq_refl key),
              );
              global_once = r.global_once;
              sets_once =
                  remove_from-Distinct key i h.by_restaurant
                    (r.set_is key one i ∙ ap (is_under key) m ∙ eq_refl key) r.sets_once;
              sets_map = remove_from-IsMap key i h.by_restaurant r.sets_map;
              made = λ j k g. ground (arith, r.made j k);
              live = λ j k g. ground (arith, r.live j k);
              bounded = λ j. ground (arith, r.bounded j);
            },
          )
  ]
