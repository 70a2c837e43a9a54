-- ===== src/Live/Hub/Delivery.antt =====
-- Publish and the reads of internal/sse/hub.go: who receives an event, and what a run of the hub
-- keeps.
use kfc_userapi.Prelude.{
  ℕ, ◌≤◌, String, ◌==◌, ◌≡◌, refl, sym, ap, ◌∙◌, inl, inr, Bool, true, false, Option, none, some,
  List, [], ◌∷◌, if◌then◌else◌, ltb, Bool-cases, arith,
}
use kfc_userapi.Prelude.Lists.{length, length-append}
use kfc_userapi.Prelude.Options.{bind-eq-some, one_result}
use kfc_userapi.Live.Hub.{
  Channel, capacity, Hub, has, set_of, all_of, publish, recipients, receive, first_of, with_rest,
}
use kfc_userapi.Live.Hub.Sets.{same_key, Distinct, has-append, append-Distinct, append-IsApart}
use kfc_userapi.Live.Hub.Contract.{
  Subscriptions, is_under, is_for, offered, Represents, send_all-IsSent,
}

offered-bounded :
    (payload : String) (c : Channel)
    → length c.buffer ≤ capacity
    → length (offered payload c).buffer ≤ capacity
offered-bounded payload c h = elim (Bool-cases (ltb (length c.buffer) capacity)) [
  | inl room ↦ rw room (ground (arith, length-append c.buffer (payload ∷ [])))
  | inr full ↦ rw full h
]

offered-is_closed :
    (payload : String) (c : Channel) → c.is_closed ≡ false → (offered payload c).is_closed ≡ false
offered-is_closed payload c h = ground arith

set_in-all_of :
    (key : String) (sets : List (String × List ℕ))
    → Distinct (all_of sets)
    → Distinct (set_of key sets)
set_in-all_of key [] h = tt
set_in-all_of key ((k, ids) ∷ sets) h =
    let parts = append-IsApart ids (all_of sets) h in
    elim (Bool-cases (k == key)) [
      | inl hit ↦ rw hit parts.left
      | inr miss ↦ rw miss (set_in-all_of key sets parts.right)
    ]

one_key :
    (key : String) (o : Option String)
    → (key == "") ≡ false
    → is_under key o ≡ true
    → is_under "" o ≡ false
one_key key none one m = refl
one_key key (some k) one m = same_key k key "" m ∙ one

live_recipient :
    (key : String) (o : Option String) → is_for key o ≡ true → (k : String) × (o ≡ some k)
live_recipient key none h = cc
live_recipient key (some k) h = (k, refl)

sent-is_closed :
    (payload : String) (b : Bool) (c : Channel)
    → c.is_closed ≡ false
    → (if b then offered payload c else c).is_closed ≡ false
sent-is_closed payload true c h = offered-is_closed payload c h
sent-is_closed payload false c h = h

sent-bounded :
    (payload : String) (b : Bool) (c : Channel)
    → length c.buffer ≤ capacity
    → length (if b then offered payload c else c).buffer ≤ capacity
sent-bounded payload true c h = offered-bounded payload c h
sent-bounded payload false c h = h

module _ (h : Hub) (subs : Subscriptions) (r : Represents h subs) where
  recipients-is_for : (key : String) (i : ℕ) → has i (recipients key h) ≡ is_for key (subs i)
  recipients-is_for key i = elim (Bool-cases (key == "")) [
    | inl all ↦ rw all (
        ground
          (arith, has-append i h.global (all_of h.by_restaurant), r.global_is i, r.all_is i, all))
    | inr one ↦ rw one (
        ground (
          arith,
          has-append i (set_of key h.by_restaurant) h.global,
          r.global_is i,
          r.set_is key one i,
          one,
        ))
  ]

  recipients-Distinct : (key : String) → Distinct (recipients key h)
  recipients-Distinct key = elim (Bool-cases (key == "")) [
    | inl all ↦ rw all (
        append-Distinct h.global (all_of h.by_restaurant) r.global_once r.sets_once
          (λ i m. ground (arith, r.global_is i, r.all_is i)))
    | inr one ↦ rw one (
        append-Distinct (set_of key h.by_restaurant) h.global
          (set_in-all_of key h.by_restaurant r.sets_once) r.global_once
          (λ i m. r.global_is i ∙ one_key key (subs i) one (sym (r.set_is key one i) ∙ m)))
  ]

  recipient_live :
      (key : String) (i : ℕ) → has i (recipients key h) ≡ true → (h.channel i).is_closed ≡ false
  recipient_live key i m =
      let (k, under) = live_recipient key (subs i) (sym (recipients-is_for key i) ∙ m) in
      r.live i k under

  sent-Represents :
      (payload : String) (b : ℕ → Bool) (channels : ℕ → Channel)
      → ((i : ℕ) → channels i ≡ (if b i then offered payload (h.channel i) else h.channel i))
      → Represents (record h { channel = channels }) subs
  sent-Represents payload b channels each = record {
    global_is = r.global_is;
    set_is = r.set_is;
    all_is = r.all_is;
    global_once = r.global_once;
    sets_once = r.sets_once;
    sets_map = r.sets_map;
    made = r.made;
    live = λ i k m. rw (each i) (sent-is_closed payload (b i) (h.channel i) (r.live i k m));
    bounded = λ i. rw (each i) (sent-bounded payload (b i) (h.channel i) (r.bounded i));
  }

  publish-Delivers :
      (key payload : String)
      → (after : Hub) × (n : ℕ) × (publish key payload h ≡ some (after, n))
        × Represents after subs
        × ((i : ℕ)
            → after.channel i
              ≡ (if is_for key (subs i) then offered payload (h.channel i) else h.channel i))
  unfolding publish
  publish-Delivers key payload =
      let (channels, n, run, sent) =
        send_all-IsSent payload (recipients key h) h.channel 0 (recipients-Distinct key)
          (recipient_live key) in
      (
        record h { channel = channels },
        n,
        rw run refl,
        sent-Represents payload (λ i. has i (recipients key h)) channels sent.each,
        λ i.
            sent.each i
            ∙ ap (λ b. if b then offered payload (h.channel i) else h.channel i)
                (recipients-is_for key i),
      )

-- On a hub that stands for given subscriptions, publishing for a key does not panic, keeps the
-- subscriptions, and offers the event once to the channel of every subscriber for whom it is,
-- that is when the key of the event or of the subscriber is empty or both are equal; an offer
-- appends the event unless eight are waiting. Every other channel stays as it is.
pub publish-delivers :
    (h : Hub) (subs : Subscriptions)
    → Represents h subs
    → (key payload : String)
    → (after : Hub) × (n : ℕ) × (publish key payload h ≡ some (after, n))
      × Represents after subs
      × ((i : ℕ)
          → after.channel i
            ≡ (if is_for key (subs i) then offered payload (h.channel i) else h.channel i))
publish-delivers h subs r key payload = publish-Delivers h subs r key payload

first_of-length :
    (xs rest : List String) (x : String) (n : ℕ)
    → first_of xs ≡ some (x, rest)
    → length xs ≤ n
    → length rest ≤ n
first_of-length [] rest x n h k = cc
first_of-length (y ∷ xs) rest x n h k = ground arith

rest-Represents :
    (h : Hub) (subs : Subscriptions) (i : ℕ) (payload : String) (rest : List String)
    → Represents h subs
    → first_of (h.channel i).buffer ≡ some (payload, rest)
    → Represents (with_rest i h (payload, rest)).1 subs
rest-Represents h subs i payload rest r first =
    let shorter = first_of-length (h.channel i).buffer rest payload capacity first (r.bounded i) in
    record {
      global_is = r.global_is;
      set_is = r.set_is;
      all_is = r.all_is;
      global_once = r.global_once;
      sets_once = r.sets_once;
      sets_map = r.sets_map;
      made = r.made;
      live = λ j k m. ground (arith, r.live j k);
      bounded = λ j. ground (arith, r.bounded j, shorter);
    }

pub receive-Represents :
    (h : Hub) (subs : Subscriptions) (i : ℕ) {payload : String} {after : Hub}
    → Represents h subs
    → receive i h ≡ some (payload, after)
    → Represents after subs
unfolding receive
receive-Represents h subs i r run =
    let (taken, first, result) =
      bind-eq-some (first_of (h.channel i).buffer) (λ t. some (with_rest i h t)) run in
    rw (← ap (λ x. x.1) (one_result refl result)) (rest-Represents h subs i taken.0 taken.1 r first)
