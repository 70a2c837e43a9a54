-- ===== src/Devices/Codes/Laws.antt =====
-- ReplaceRestaurantCodes of internal/repository/pairing_repo.go, by the commands that Redis is given.
use Prim.Native.String.{◌++◌}
use kfc_userapi.Prelude.{String, ◌≡◌, refl, ap, List, [], ◌∷◌, map}
use kfc_userapi.Prelude.Int.{ℤ}
use kfc_userapi.Domain.Errors.{wrap}
use kfc_userapi.Domain.Result.{Result, ok, err}
use kfc_userapi.Trace.{◌>>=◌, lift, map_error-eq-ok, bind-eq-ok, call, or_else}
use kfc_userapi.Devices.Calls.{
  Write, set, del, s_add, expire, get_members, write, Log, Calls, Backend, pipeline,
}
use kfc_userapi.Devices.Codes.{
  RestaurantCodeEntry, restaurant_key, both_keys, append_writes, redis_del, add_entry, entry_writes,
  new_set, replace_restaurant_codes,
}

-- the keys of the codes with these serial numbers
abbrev pub keys_of : List String → List String
keys_of [] = []
keys_of (s ∷ ss) = ("pair:code:" ++ s) ∷ ("pair:meta:" ++ s) ∷ keys_of ss

both_keys_lem : (ss : List String) → both_keys ss ≡ keys_of ss
both_keys_lem [] = refl
both_keys_lem (s ∷ ss) =
    ap (λ ks. ("pair:code:" ++ s) ∷ ("pair:meta:" ++ s) ∷ ks) (both_keys_lem ss)

-- the new set of the serial numbers of a restaurant, after the old one is deleted
abbrev pub set_anew : String → ℤ → List RestaurantCodeEntry → List Write
set_anew key ttl [] = del (key ∷ []) ∷ []
set_anew key ttl (e ∷ es) =
    del (key ∷ []) ∷ s_add key (map (λ x. x.serial) (e ∷ es)) ∷ expire key ttl ∷ []

module _ (env : Backend) where
  -- The writes for the entries, before `rest`: for each the hash of its code and its metadata, for the
  -- lifetime.
  pub data AreWrites (ttl : ℤ) (rest : List Write)
      : List RestaurantCodeEntry → List Write → Type 0 where
    no_entry : AreWrites ttl rest [] rest
    entry :
        {es : List RestaurantCodeEntry} {ws : List Write} (e : RestaurantCodeEntry) (json : String)
        → env.encode_meta e.meta ≡ ok json
        → AreWrites ttl rest es ws
        → AreWrites ttl rest (e ∷ es) (
            set ("pair:code:" ++ e.serial) e.code_hash ttl
            ∷ set ("pair:meta:" ++ e.serial) json ttl
            ∷ ws)

  -- Redis has deleted these keys; for none of them, no command is sent.
  pub data AreDropped : List String → Log → Log → Type 0 where
    nothing : {log : Log} → AreDropped [] log log
    confirmed :
        {log : Log} (k : String) (ks : List String)
        → env.write log (del (k ∷ ks)) ≡ ok tt
        → AreDropped (k ∷ ks) log (write (del (k ∷ ks)) ∷ log)

  -- The codes that Redis had for the restaurant are deleted, and one pipeline has written the entries
  -- and the set of their serial numbers.
  pub record IsReplaced (restaurant_id : String) (entries : List RestaurantCodeEntry) (ttl : ℤ)
      (log : Log) : Type 0 where
    pub old_serials : List String
    pub listed : env.get_members log ("pair:restaurant:" ++ restaurant_id) ≡ ok old_serials
    pub dropped_at : Log
    pub dropped :
        AreDropped
          (keys_of old_serials)
          (get_members ("pair:restaurant:" ++ restaurant_id) ∷ log)
          dropped_at
    pub writes : List Write
    pub are_writes :
        AreWrites ttl (set_anew ("pair:restaurant:" ++ restaurant_id) ttl entries) entries writes
    pub written : env.pipeline dropped_at writes ≡ ok tt

  redis_del-AreDropped :
      (ks : List String) (log : Log)
      → (redis_del env ks log).0 ≡ ok tt
      → AreDropped ks log (redis_del env ks log).1
  redis_del-AreDropped [] log h = nothing
  redis_del-AreDropped (k ∷ ks) log h = confirmed k ks (map_error-eq-ok _ _ h)

  add_entry-AreWrites :
      (ttl : ℤ) (rest : List Write) (e : RestaurantCodeEntry) (es : List RestaurantCodeEntry)
      (json : Result String) (others : Result (List Write)) (codes : List Write)
      → env.encode_meta e.meta ≡ json
      → ((ws : List Write) → others ≡ ok ws → AreWrites ttl rest es (append_writes ws rest))
      → add_entry env ttl e json others ≡ ok codes
      → AreWrites ttl rest (e ∷ es) (append_writes codes rest)
  add_entry-AreWrites ttl rest e es (err x) others codes j f h = cc
  add_entry-AreWrites ttl rest e es (ok json) (err x) codes j f h = cc
  add_entry-AreWrites ttl rest e es (ok json) (ok ws) codes j f h =
      let same : set ("pair:code:" ++ e.serial) e.code_hash ttl
            ∷ set ("pair:meta:" ++ e.serial) json ttl
            ∷ ws
          ≡ codes =
        cc in
      rw (← same) (entry e json j (f ws refl))

  entry_writes-AreWrites :
      (ttl : ℤ) (rest : List Write) (entries : List RestaurantCodeEntry) (codes : List Write)
      → entry_writes env ttl entries ≡ ok codes
      → AreWrites ttl rest entries (append_writes codes rest)
  unfolding entry_writes
  entry_writes-AreWrites ttl rest [] codes h = let same : [] ≡ codes = cc in rw (← same) no_entry
  entry_writes-AreWrites ttl rest (e ∷ es) codes h =
      add_entry-AreWrites ttl rest e es (env.encode_meta e.meta) (entry_writes env ttl es) codes
        refl (λ ws k. entry_writes-AreWrites ttl rest es ws k) h

  set_anew_lem :
      (key : String) (ttl : ℤ) (entries : List RestaurantCodeEntry)
      → del (key ∷ []) ∷ new_set env key ttl entries ≡ set_anew key ttl entries
  set_anew_lem key ttl [] = refl
  set_anew_lem key ttl (e ∷ es) = refl

  abbrev send : String → List RestaurantCodeEntry → ℤ → List Write → Calls (Unit {0})
  send key entries ttl codes =
      let writes = append_writes codes (del (key ∷ []) ∷ new_set env key ttl entries) in
      call (pipeline writes) (λ log. env.pipeline log writes) (wrap "redis pipeline write batch")

  abbrev drop_then : String → List RestaurantCodeEntry → ℤ → List String → Calls (Unit {0})
  drop_then key entries ttl old =
      or_else (wrap "delete old codes") (redis_del env (both_keys old)) >>= λ _.
      lift (entry_writes env ttl entries) >>= send key entries ttl

  pub replace-IsReplaced :
      (restaurant_id : String) (entries : List RestaurantCodeEntry) (ttl : ℤ) (log : Log)
      → (replace_restaurant_codes env restaurant_id entries ttl log).0 ≡ ok tt
      → IsReplaced restaurant_id entries ttl log
  unfolding replace_restaurant_codes
  replace-IsReplaced restaurant_id entries ttl log h =
      let key = restaurant_key restaurant_id in
      let (old, e1, h1) =
        bind-eq-ok (call (get_members key) (λ l. env.get_members l key) (wrap "read old serials"))
          (drop_then key entries ttl) log h in
      let listed_at : Log = get_members key ∷ log in
      let (_, e2, h2) =
        bind-eq-ok (or_else (wrap "delete old codes") (redis_del env (both_keys old)))
          (λ _. lift (entry_writes env ttl entries) >>= send key entries ttl) listed_at h1 in
      let dropped_at = (redis_del env (both_keys old) listed_at).1 in
      let (codes, e3, h3) =
        bind-eq-ok (lift (entry_writes env ttl entries)) (send key entries ttl) dropped_at h2 in
      let dropped = redis_del-AreDropped (both_keys old) listed_at (map_error-eq-ok _ _ e2) in
      let rest = del (key ∷ []) ∷ new_set env key ttl entries in
      let are = entry_writes-AreWrites ttl rest entries codes e3 in
      record {
        old_serials = old;
        listed = map_error-eq-ok _ _ e1;
        dropped_at = dropped_at;
        dropped = rw (both_keys_lem old) at dropped;
        writes = append_writes codes rest;
        are_writes = rw (← set_anew_lem key ttl entries) are;
        written = map_error-eq-ok _ _ h3;
      }
