-- ===== src/Menus/Cache/Scans.antt =====
-- The loop of Invalidate of internal/repository/menu_cache_repo.go over the cached menus: it ends,
-- and what it has deleted by then.
use kfc_userapi.Prelude.{
  ℕ, zero, suc, ◌+◌, ◌≤◌, ◌<◌, String, ◌==◌, eq_iff, ◌≡◌, ◌≢◌, refl, ap, ◌∙◌, inl, inr, true, false,
  Option, none, some, List, [], ◌∷◌, Bool-cases, eqb, arith,
}
use kfc_userapi.Prelude.Lists.{length}
use kfc_userapi.Domain.Errors.{GoError, wrap}
use kfc_userapi.Domain.Result.{Result, ok, err, Result-cases}
use kfc_userapi.Trace.{map_error-eq-ok}
use kfc_userapi.Menus.Calls.{set, del, scan, read_clock, Log, Backend}
use kfc_userapi.Menus.Cache.{
  is_redis_nil, scanned, redis_del, del_keys, scan_loop, menu_key, mark_key, all_restaurants,
  twice_max_ttl, invalidate_menu,
}

-- how many scans were called
abbrev pub scans : Log → ℕ
scans [] = 0
scans (scan cursor ∷ log) = suc (scans log)
scans (_ ∷ log) = scans log

-- What SCAN documents of a store of bounded size: an iteration ends. After `n` scans the cursor
-- that comes back is 0.
abbrev pub IsEnding : {F : Type 0} → Backend F → ℕ → Type 0
IsEnding env n =
    (log : Log) (cursor next : ℕ) (keys : List String)
    → n ≤ scans log
    → env.scan log cursor ≡ ok (keys, next)
    → next ≡ 0

eqb-zero : (n : ℕ) → eqb n 0 ≡ true → n ≡ 0
eqb-zero n h = ground arith

sum_assoc : (a b c : ℕ) → a + b + c ≡ a + (b + c)
sum_assoc a b c = omega arith

nothing_found :
    {keys : List String} {next : ℕ} (r : Result (List String × ℕ))
    → r ≡ ok ([], 0)
    → r ≡ ok (keys, next)
    → next ≡ 0
nothing_found r h k = cc

-- While the cursor is not 0, the bound is not reached and there is fuel left.
rest_left :
    (n fuel called next : ℕ)
    → eqb next 0 ≡ false
    → n < suc fuel + called
    → (n ≤ called → next ≡ 0)
    → (0 < fuel) × (n < fuel + suc called)
rest_left n fuel called next on enough ends = (ground arith, ground arith)

module _ {F : Type 0} (env : Backend F) where
  -- The keys were deleted by one DEL that names them all, and Redis has confirmed it; for no keys, no
  -- command is sent.
  pub data Deleted : List String → Log → Log → Type 0 where
    nothing : {log : Log} → Deleted [] log log
    confirmed :
        {log : Log} (k : String) (ks : List String)
        → env.del log (k ∷ ks) ≡ ok tt
        → Deleted (k ∷ ks) log (del (k ∷ ks) ∷ log)

  del_keys-Deleted :
      (keys : List String) (log : Log)
      → (del_keys env keys log).0 ≡ ok tt
      → Deleted keys log (del_keys env keys log).1
  del_keys-Deleted [] log h = nothing
  del_keys-Deleted (k ∷ ks) log h = confirmed k ks (map_error-eq-ok _ _ (map_error-eq-ok _ _ h))

  -- An iteration from a cursor, in which the keys that each scan found were deleted, up to the
  -- cursor 0; with the log after it and the number of keys.
  pub data Swept : ℕ → Log → Log → ℕ → Type 0 where
    last :
        {cursor : ℕ} {log after : Log} (keys : List String)
        → scanned (env.scan log cursor) ≡ ok (keys, 0)
        → Deleted keys (scan cursor ∷ log) after
        → Swept cursor log after (length keys)
    more :
        {cursor : ℕ} {log rest after : Log} (keys : List String) (next total : ℕ)
        → scanned (env.scan log cursor) ≡ ok (keys, next)
        → Deleted keys (scan cursor ∷ log) rest
        → Swept next rest after total
        → Swept cursor log after (length keys + total)

  -- A run of the loop: Redis failed, or the iteration is complete.
  pub data Ended (cursor : ℕ) (log : Log) (before : ℕ) : Result (Option ℕ) → Log → Type 0 where
    failed : (e : GoError) (after : Log) → Ended cursor log before (err e) after
    complete :
        (after : Log) (total : ℕ)
        → Swept cursor log after total
        → Ended cursor log before (ok (some (before + total))) after

  scanned-ends :
      (n cursor next : ℕ) (keys : List String) (log : Log) (answer : Result (List String × ℕ))
      → IsEnding env n
      → n ≤ scans log
      → env.scan log cursor ≡ answer
      → scanned answer ≡ ok (keys, next)
      → next ≡ 0
  scanned-ends n cursor next keys log (ok found) ending enough h k =
      ending log cursor next keys enough (h ∙ k)
  scanned-ends n cursor next keys log (err e) ending enough h k =
      elim (Bool-cases (is_redis_nil e)) [
        | inl gone ↦ nothing_found (ok ([], 0)) refl (rw gone at k)
        | inr other ↦ absurd (cc (rw other at k))
      ]

  scans-del_keys : (keys : List String) (log : Log) → scans (del_keys env keys log).1 ≡ scans log
  scans-del_keys [] log = refl
  scans-del_keys (k ∷ keys) log = refl

  more-Ended :
      (cursor next before : ℕ) (keys : List String) (log : Log) {r : Result (Option ℕ)}
      {after : Log}
      → scanned (env.scan log cursor) ≡ ok (keys, next)
      → (del_keys env keys (scan cursor ∷ log)).0 ≡ ok tt
      → Ended next (del_keys env keys (scan cursor ∷ log)).1 (before + length keys) r after
      → Ended cursor log before r after
  more-Ended cursor next before keys log h d (failed e after) = failed e after
  more-Ended cursor next before keys log h d (complete after total swept) =
      rw (sum_assoc before (length keys) total) (
        complete after (length keys + total)
          (more keys next total h (del_keys-Deleted keys (scan cursor ∷ log) d) swept))

  module _ (n : ℕ) (ending : IsEnding env n) where
    scan_loop-Ended :
        (fuel cursor before : ℕ) (log : Log)
        → 0 < fuel
        → n < fuel + scans log
        → Ended cursor log before
            (scan_loop env fuel cursor before log).0
            (scan_loop env fuel cursor before log).1
    unfolding scan_loop
    scan_loop-Ended zero cursor before log some_fuel enough = absurd (omega arith)
    scan_loop-Ended (suc fuel) cursor before log some_fuel enough =
        elim (Result-cases (scanned (env.scan log cursor))) [
          | inl (e, h) ↦ rw h (failed e (scan cursor ∷ log))
          | inr ((keys, next), h) ↦ elim (Result-cases (del_keys env keys (scan cursor ∷ log)).0) [
            | inl (e, d) ↦ rw (h, d) (failed e (del_keys env keys (scan cursor ∷ log)).1)
            | inr (u, d) ↦ elim (Bool-cases (eqb next 0)) [
              | inl over ↦
                  rw (h, d, over)
                    (complete (del_keys env keys (scan cursor ∷ log)).1 (length keys) (
                      last keys (h ∙ ap (λ c. ok (keys, c)) (eqb-zero next over))
                        (del_keys-Deleted keys (scan cursor ∷ log) d)))
              | inr on ↦
                  rw (h, d, on)
                    (let (left, enough_left) = rest_left n fuel (scans log) next on enough (λ k.
                        scanned-ends n cursor next keys log (env.scan log cursor) ending k refl
                          h) in
                      more-Ended cursor next before keys log h d (
                        scan_loop-Ended fuel next (before + length keys)
                          (del_keys env keys (scan cursor ∷ log)).1 left
                          (rw (scans-del_keys keys (scan cursor ∷ log)) enough_left)))
            ]
          ]
        ]

  abbrev pub marked : String → Log
  marked id = set (mark_key id) (env.decimal (env.clock [])) twice_max_ttl ∷ read_clock ∷ []

  -- How the invalidation of all menus ends: the mark could not be set, or the loop ended.
  pub data AllDropped : Result (Option ℕ) → Log → Type 0 where
    unmarked : (e : GoError) → AllDropped (err e) (marked all_restaurants)
    looped :
        (r : Result (Option ℕ)) (after : Log)
        → Ended 0 (marked all_restaurants) 0 r after
        → AllDropped r after

-- If the cursor that SCAN returns is 0 after n scans, the invalidation of all menus, given fuel n
-- + 1 and from an empty log, ends: with an error of Redis, or after an iteration up to the cursor
-- 0 in which Redis confirmed, after every scan that found keys, one DEL of all of them; the total
-- is their number.
pub invalidate_menu-AllDropped :
    {F : Type 0} (env : Backend F) (n : ℕ)
    → IsEnding env n
    → let x = invalidate_menu env (suc n) "" [] in AllDropped env x.0 x.1
unfolding invalidate_menu
invalidate_menu-AllDropped env n ending =
    let key = mark_key all_restaurants in
    let now = env.decimal (env.clock []) in
    elim (Result-cases (env.set (read_clock ∷ []) key now twice_max_ttl)) [
      | inl (e, h) ↦ rw h (unmarked (wrap "mark menu invalidation" e))
      | inr (u, h) ↦ rw h (
          looped (scan_loop env (suc n) 0 0 (marked env all_restaurants)).0
            (scan_loop env (suc n) 0 0 (marked env all_restaurants)).1
            (scan_loop-Ended env n ending (suc n) 0 0 (marked env all_restaurants) (omega arith)
              (omega arith)))
    ]

AllDropped-returns :
    {F : Type 0} (env : Backend F) (r : Result (Option ℕ)) (after : Log)
    → AllDropped env r after
    → r ≢ ok none
AllDropped-returns env r after (unmarked e) h = cc
AllDropped-returns env r after (looped _ _ (failed e _)) h = cc
AllDropped-returns env r after (looped _ _ (complete _ total swept)) h = cc

one_returns :
    {F : Type 0} (env : Backend F) (n : ℕ) (id : String)
    → (id == "") ≡ false
    → (invalidate_menu env (suc n) id []).0 ≢ ok none
unfolding invalidate_menu
one_returns env n id one =
    elim (Result-cases
      (env.set (read_clock ∷ []) (mark_key id) (env.decimal (env.clock [])) twice_max_ttl)) [
        | inl (e, h) ↦ λ k. cc (rw (one, h) at k)
        | inr (u, h) ↦ elim (Result-cases (redis_del env (menu_key id ∷ []) (marked env id)).0) [
          | inl (e, d) ↦ λ k. cc (rw (one, h, d) at k)
          | inr (v, d) ↦ λ k. cc (rw (one, h, d) at k)
        ]
      ]

-- The invalidation comes back, for one restaurant as for all.
pub invalidate_menu_returns :
    {F : Type 0} (env : Backend F) (n : ℕ) (id : String)
    → IsEnding env n
    → (invalidate_menu env (suc n) id []).0 ≢ ok none
invalidate_menu_returns env n id ending = elim (Bool-cases (id == "")) [
  | inl all ↦ rw ((eq_iff id "").0 all) (
      AllDropped-returns env (invalidate_menu env (suc n) "" []).0
        (invalidate_menu env (suc n) "" []).1 (invalidate_menu-AllDropped env n ending))
  | inr one ↦ one_returns env n id one
]
