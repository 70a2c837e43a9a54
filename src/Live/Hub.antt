-- ===== src/Live/Hub.antt =====
-- The event hub of internal/sse/hub.go. Channels are references: numbers in order of making, with
-- a store that holds each one's buffer. A panic is `none`. Go's maps iterate in any order; here a
-- set is the list of its members, and every member is handled once.
mod Sets
pub mod Contract
pub mod Delivery
pub mod Runs
use kfc_userapi.Prelude.{
  ℕ, suc, ◌+◌, String, ◌==◌, Bool, true, false, not, ◌&&◌, ◌||◌, Option, none, some, List, [], ◌∷◌,
  ◌++◌, if◌then◌else◌, ltb, eqb,
}
use kfc_userapi.Prelude.Lists.{length}
use kfc_userapi.Prelude.Options.{◌>>=◌}

-- chan []byte, with the capacity that Subscribe gives it
pub record Channel : Type 0 where
  pub buffer : List String
  pub is_closed : Bool

abbrev pub capacity : ℕ
capacity = 8

abbrev pub fresh_channel : Channel
fresh_channel = record { buffer = []; is_closed = false }

-- the hub with the store of channels: the next channel to make, and the content of all
pub record Hub : Type 0 where
  pub by_restaurant : List (String × List ℕ)
  pub global : List ℕ
  pub next : ℕ
  pub channel : ℕ → Channel

unfoldable pub new_hub : Hub
new_hub = record { by_restaurant = []; global = []; next = 0; channel = λ _. fresh_channel }

abbrev pub has : ℕ → List ℕ → Bool
has i [] = false
has i (x ∷ xs) = eqb x i || has i xs

abbrev pub remove : ℕ → List ℕ → List ℕ
remove i [] = []
remove i (x ∷ xs) = if eqb x i then remove i xs else x ∷ remove i xs

abbrev pub put : ℕ → Channel → (ℕ → Channel) → ℕ → Channel
put i c channels j = if eqb i j then c else channels j

-- h.byRestaurant[key], where a missing key reads as the empty set
abbrev pub set_of : String → List (String × List ℕ) → List ℕ
set_of key [] = []
set_of key ((k, ids) ∷ sets) = if k == key then ids else set_of key sets

-- the members of all sets
abbrev pub all_of : List (String × List ℕ) → List ℕ
all_of [] = []
all_of ((k, ids) ∷ sets) = ids ++ all_of sets

-- h.byRestaurant[key][ch] = struct{}{}, where a missing set is made first
abbrev pub add_to : String → ℕ → List (String × List ℕ) → List (String × List ℕ)
add_to key i [] = (key, i ∷ []) ∷ []
add_to key i ((k, ids) ∷ sets) =
    if k == key then (k, i ∷ ids) ∷ sets else (k, ids) ∷ add_to key i sets

-- a set that is left empty is deleted
abbrev pub keep_set : String → List ℕ → List (String × List ℕ) → List (String × List ℕ)
keep_set k [] sets = sets
keep_set k (x ∷ ids) sets = (k, x ∷ ids) ∷ sets

abbrev pub remove_from : String → ℕ → List (String × List ℕ) → List (String × List ℕ)
remove_from key i [] = []
remove_from key i ((k, ids) ∷ sets) =
    if k == key then keep_set k (remove i ids) sets else (k, ids) ∷ remove_from key i sets

unfoldable pub subscribe : String → Hub → ℕ × Hub
subscribe key h =
    let made = put h.next fresh_channel h.channel in
    if key == ""
    then (h.next, record h { global = h.next ∷ h.global; next = suc h.next; channel = made })
    else (
      h.next,
      record h {
        by_restaurant = add_to key h.next h.by_restaurant;
        next = suc h.next;
        channel = made;
      },
    )

abbrev pub with_closed : ℕ → Hub → Hub
with_closed i h = record h { channel = put i record (h.channel i) { is_closed = true } h.channel }

-- close(ch), which panics on a closed channel
abbrev pub close : ℕ → Hub → Option Hub
close i h = if (h.channel i).is_closed then none else some (with_closed i h)

unfoldable pub unsubscribe : String → ℕ → Hub → Option Hub
unsubscribe key i h =
    if key == ""
    then close i record h { global = remove i h.global }
    else close i record h { by_restaurant = remove_from key i h.by_restaurant }

-- trySend: a closed channel panics, a full one drops the event.
unfoldable pub try_send : String → Channel → Option (Channel × Bool)
try_send payload c =
    if c.is_closed
    then none
    else if ltb (length c.buffer) capacity
    then some (record { buffer = c.buffer ++ payload ∷ []; is_closed = false }, true)
    else some (c, false)

abbrev pub one_more : Bool → ℕ → ℕ
one_more true n = suc n
one_more false n = n

-- the loops of Publish over a set, with the number of events delivered
unfoldable pub send_all : String → List ℕ → (ℕ → Channel) × ℕ → Option ((ℕ → Channel) × ℕ)
unfolding try_send
send_all payload [] (channels, delivered) = some (channels, delivered)
send_all payload (i ∷ ids) (channels, delivered) = do
  (c, sent) ← try_send payload (channels i)
  send_all payload ids (put i c channels, one_more sent delivered)

abbrev pub with_channels : Hub → (ℕ → Channel) × ℕ → Hub × ℕ
with_channels h (channels, delivered) = (record h { channel = channels }, delivered)

-- the subscribers that Publish sends to, in its order
abbrev pub recipients : String → Hub → List ℕ
recipients key h =
    if key == "" then h.global ++ all_of h.by_restaurant else set_of key h.by_restaurant ++ h.global

unfoldable pub publish : String → String → Hub → Option (Hub × ℕ)
unfolding send_all
publish key payload h = do
  sent ← send_all payload (recipients key h) (h.channel, 0)
  some (with_channels h sent)

-- payload, ok := <-sub on an open channel: the oldest event, or nothing to read yet
abbrev pub first_of : List String → Option (String × List String)
first_of [] = none
first_of (payload ∷ rest) = some (payload, rest)

abbrev pub with_rest : ℕ → Hub → String × List String → String × Hub
with_rest i h (payload, rest) =
    (payload, record h { channel = put i record (h.channel i) { buffer = rest } h.channel })

unfoldable pub receive : ℕ → Hub → Option (String × Hub)
receive i h = do taken ← first_of (h.channel i).buffer; some (with_rest i h taken)
