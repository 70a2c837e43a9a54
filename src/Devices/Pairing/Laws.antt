-- ===== src/Devices/Pairing/Laws.antt =====
-- `CacheCodes` of internal/service/pairing_service.go: when and as what a batch is stored.
use kfc_userapi.Prelude.{
  ℕ, suc, true, String, ◌==◌, ◌≡◌, ◌≢◌, refl, ap, ◌∙◌, not, ◌||◌, List, [], ◌∷◌,
}
use kfc_userapi.Prelude.Int.{ℤ, ltb_ℤ, ◌-ℤ◌}
use kfc_userapi.Prelude.Lists.{length}
use kfc_userapi.Domain.Result.{ok, require, require-eq-ok}
use kfc_userapi.Trace.{◌>>=◌, lift, map_error-eq-ok, bind-eq-ok}
use kfc_userapi.Devices.Calls.{Log, Calls, Backend, read_clock}
use kfc_userapi.Devices.Codes.{RestaurantCodeEntry, replace_restaurant_codes}
use kfc_userapi.Devices.Codes.Laws.{IsReplaced, replace-IsReplaced}
use kfc_userapi.Devices.Auth.Laws.{given}
use kfc_userapi.Devices.Pairing.{
  CodeEntry, CacheCodesRequest, required, in_the_past, not_empty, read_time, hashed, entry_of,
  entries_of, cache_codes,
}

module _ (env : Backend) (req : CacheCodesRequest) where
  -- The entry that is stored for a code: its serial number, device and type, the restaurant and the
  -- expiry of the batch, and a hash that bcrypt has made of the code.
  pub record IsEntry (c : CodeEntry) (e : RestaurantCodeEntry) : Type 0 where
    pub serial_given : c.serial_number ≢ ""
    pub code_given : c.code ≢ ""
    pub serial : e.serial ≡ c.serial_number
    pub hashed_at : Log
    pub code_hashed : env.hash_code hashed_at c.code ≡ ok e.code_hash
    pub device : e.meta.device_id ≡ c.device_id
    pub device_type : e.meta.device_type ≡ c.device_type
    pub restaurant : e.meta.restaurant_id ≡ req.restaurant_id
    pub expiry : e.meta.expires_at ≡ req.expires_at

  -- entry by entry
  pub data AreEntries : List CodeEntry → List RestaurantCodeEntry → Type 0 where
    no_codes : AreEntries [] []
    one_code :
        {c : CodeEntry} {e : RestaurantCodeEntry} {cs : List CodeEntry}
        {es : List RestaurantCodeEntry}
        → IsEntry c e
        → AreEntries cs es
        → AreEntries (c ∷ cs) (e ∷ es)

  AreEntries-length :
      {cs : List CodeEntry} {es : List RestaurantCodeEntry}
      → AreEntries cs es
      → length es ≡ length cs
  AreEntries-length no_codes = refl
  AreEntries-length (one_code h hs) = ap suc (AreEntries-length hs)

  abbrev with_hash : CodeEntry → String → RestaurantCodeEntry
  with_hash c h = record {
    serial = c.serial_number;
    code_hash = h;
    meta = record {
      device_id = c.device_id;
      device_type = c.device_type;
      restaurant_id = req.restaurant_id;
      expires_at = req.expires_at;
    };
  }

  entry_of-IsEntry :
      (c : CodeEntry) (log : Log) (e : RestaurantCodeEntry)
      → (entry_of env req c log).0 ≡ ok e
      → IsEntry c e
  unfolding entry_of
  entry_of-IsEntry c log e h =
      let (_, e1, h1) =
        bind-eq-ok (lift (require (not (c.serial_number == "" || c.code == "")) required))
          (λ _. hashed env c.code >>= λ x. lift (ok (with_hash c x))) log h in
      let (x, e2, h2) = bind-eq-ok (hashed env c.code) (λ x. lift (ok (with_hash c x))) log h1 in
      let same : with_hash c x ≡ e = cc in
      let full = given c.serial_number c.code (require-eq-ok _ _ e1) in
      rw (← same) (record {
        serial_given = full.0;
        code_given = full.1;
        serial = refl;
        hashed_at = log;
        code_hashed = map_error-eq-ok _ _ e2;
        device = refl;
        device_type = refl;
        restaurant = refl;
        expiry = refl;
      })

  entries_of-AreEntries :
      (cs : List CodeEntry) (log : Log) (es : List RestaurantCodeEntry)
      → (entries_of env req cs log).0 ≡ ok es
      → AreEntries cs es
  unfolding entries_of
  entries_of-AreEntries [] log es h = let same : es ≡ [] = cc in rw same no_codes
  entries_of-AreEntries (c ∷ cs) log es h =
      let (e, e1, h1) =
        bind-eq-ok (entry_of env req c)
          (λ e. entries_of env req cs >>= λ rest. lift (ok (e ∷ rest))) log h in
      let (rest, e2, h2) =
        bind-eq-ok (entries_of env req cs) (λ rest. lift (ok (e ∷ rest))) (entry_of env req c log).1
          h1 in
      let same : es ≡ e ∷ rest = cc in
      rw same (one_code (entry_of-IsEntry c log e e1) (entries_of-AreEntries cs _ rest e2))

  -- The batch was stored as a whole: an entry for each code, in place of all codes of the restaurant.
  pub record IsCached (log : Log) (n : ℕ) : Type 0 where
    pub live : ltb_ℤ (env.clock log) req.expires_at ≡ true
    pub entries : List RestaurantCodeEntry
    pub made : AreEntries req.codes entries
    pub stored_at : Log
    pub replaced :
        IsReplaced env req.restaurant_id entries
          (req.expires_at -ℤ env.clock (read_clock ∷ log))
          stored_at
    pub count : n ≡ length req.codes

  abbrev stored_batch : ℤ → List RestaurantCodeEntry → Calls ℕ
  stored_batch later entries =
      replace_restaurant_codes env req.restaurant_id entries (req.expires_at -ℤ later) >>= λ _.
      lift (ok (length entries))

  abbrev dated : Calls ℕ
  dated = read_time env >>= λ later. entries_of env req req.codes >>= stored_batch later

  cache_codes_lem :
      (log : Log)
      → cache_codes env req log
        ≡ (lift (not_empty req.codes) >>= λ _. read_time env >>= λ now.
              lift (require (ltb_ℤ now req.expires_at) in_the_past) >>= λ _. dated)
            log
  unfolding cache_codes
  cache_codes_lem log = refl

-- A batch of codes is taken only if it expires in the future, and no code and no serial number is
-- empty. Then Redis has deleted the codes that it had for the restaurant, one pipeline has
-- written one entry for each code, with a hash that bcrypt has made of it, and the set of the
-- serial numbers, for the time that is left, and the number of codes is returned.
pub cache_codes-IsCached :
    (env : Backend) (req : CacheCodesRequest) (log : Log) (n : ℕ)
    → (cache_codes env req log).0 ≡ ok n
    → IsCached env req log n
cache_codes-IsCached env req log n h =
    let (_, e0, h0) =
      bind-eq-ok (lift (not_empty req.codes))
        (λ _. read_time env >>= λ now.
          lift (require (ltb_ℤ now req.expires_at) in_the_past) >>= λ _. dated env req)
        log (rw (cache_codes_lem env req log) at h) in
    let (_, e1, h1) =
      bind-eq-ok (lift (require (ltb_ℤ (env.clock log) req.expires_at) in_the_past))
        (λ _. dated env req) (read_clock ∷ log) h0 in
    let later = env.clock (read_clock ∷ log) in
    let at_entries = read_clock ∷ read_clock ∷ log in
    let (entries, e2, h2) =
      bind-eq-ok (entries_of env req req.codes) (stored_batch env req later) at_entries h1 in
    let stored_at = (entries_of env req req.codes at_entries).1 in
    let (_, e3, h3) =
      bind-eq-ok (replace_restaurant_codes env req.restaurant_id entries (req.expires_at -ℤ later))
        (λ _. lift (ok (length entries))) stored_at h2 in
    let made = entries_of-AreEntries env req req.codes at_entries entries e2 in
    let counted : n ≡ length entries = cc in
    record {
      live = require-eq-ok _ _ e1;
      entries = entries;
      made = made;
      stored_at = stored_at;
      replaced =
          replace-IsReplaced env req.restaurant_id entries (req.expires_at -ℤ later) stored_at e3;
      count = counted ∙ AreEntries-length env req made;
    }
