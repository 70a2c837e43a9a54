-- ===== src/Orders/Kitchen/Laws.antt =====
-- `UpdateFromKitchen` of internal/service/order_service.go: which calls it makes.
use Prim.Native.String.{◌++◌}
use kfc_userapi.Prelude.{
  String, ◌==◌, eq_iff, ◌≡◌, ◌≢◌, refl, true, false, inl, inr, [], ◌∷◌, Bool-cases,
}
use kfc_userapi.Domain.Result.{ok, Result-cases}
use kfc_userapi.Domain.Money.{Floats}
use kfc_userapi.Domain.Order.{ProtoOrder}
use kfc_userapi.Domain.Device.{DeviceTokenClaims}
use kfc_userapi.Orders.Calls.{
  UpdateOrderStatusRequest, get_order, update_order_status, Log, Backend,
}
use kfc_userapi.Orders.Checkout.Outcome.{IsQuiet}
use kfc_userapi.Orders.Kitchen.{is_kitchen_status, update_from_kitchen, cancelled}

module _ (fl : Floats) (env : Backend fl.Float) (device : DeviceTokenClaims)
    (order_id status : String) where
  -- The order was read and belongs to the device's restaurant; only then was its status set, to one
  -- that the kitchen may set, on behalf of the device.
  pub record IsUpdate (r : UpdateOrderStatusRequest) (before : Log) : Type 0 where
    pub current : ProtoOrder
    pub read : env.get_order [] order_id ≡ ok current
    pub own : current.restaurant_id ≡ device.restaurant_id
    pub read_first : before ≡ get_order order_id ∷ []
    pub id : r.id ≡ order_id
    pub status_asked : r.status ≡ status
    pub allowed : is_kitchen_status r.status ≡ true
    pub not_cancelled : r.status ≢ cancelled
    pub actor : r.actor ≡ "device:" ++ device.device_id

  -- Either nothing is changed, or the status of that one order is.
  pub data Change (log : Log) : Type 0 where
    unchanged : IsQuiet log → Change log
    changed :
        (r : UpdateOrderStatusRequest) (before : Log)
        → IsUpdate r before
        → log ≡ update_order_status r ∷ before
        → Change log

not_cancelled_lem : (s : String) → is_kitchen_status s ≡ true → s ≢ cancelled
unfolding is_kitchen_status
not_cancelled_lem s h e = let f : false ≡ true = rw e at h in cc

-- The log after the guards: the call that changes the order is the second and last one.
module _ (fl : Floats) (env : Backend fl.Float) (device : DeviceTokenClaims)
    (order_id status : String) where
  after_guards :
      (o : ProtoOrder)
      → is_kitchen_status status ≡ true
      → env.get_order [] order_id ≡ ok o
      → (o.restaurant_id == device.restaurant_id) ≡ true
      → (update_from_kitchen fl env device order_id status []).1
        ≡ update_order_status
            (record { id = order_id; status = status; actor = "device:" ++ device.device_id })
          ∷ get_order order_id
          ∷ []
  unfolding update_from_kitchen
  after_guards o good f own =
      elim (Result-cases (
        env.update_order_status (get_order order_id ∷ [])
          (record { id = order_id; status = status; actor = "device:" ++ device.device_id }))) [
            | inl (e, g) ↦ rw (good, f, own, g) refl
            | inr (u, g) ↦ rw (good, f, own, g) refl
          ]

-- A kitchen screen changes no order, or only the one that was asked for, after reading that it
-- belongs to the restaurant of the screen, to the requested status, which is a status of the
-- kitchen and never `cancelled`.
pub update_from_kitchen-Change :
    (fl : Floats) (env : Backend fl.Float) (device : DeviceTokenClaims) (order_id status : String)
    → Change fl env device order_id status (update_from_kitchen fl env device order_id status []).1
unfolding update_from_kitchen
update_from_kitchen-Change fl env device order_id status =
    elim (Bool-cases (is_kitchen_status status)) [
      | inr bad ↦ rw bad (unchanged tt)
      | inl good ↦ elim (Result-cases (env.get_order [] order_id)) [
        | inl (e, f) ↦ rw (good, f) (unchanged (tt, tt))
        | inr (o, f) ↦ elim (Bool-cases (o.restaurant_id == device.restaurant_id)) [
          | inr foreign ↦ rw (good, f, foreign) (unchanged (tt, tt))
          | inl own ↦
              changed
                (record { id = order_id; status = status; actor = "device:" ++ device.device_id })
                (get_order order_id ∷ [])
                (record {
                  current = o;
                  read = f;
                  own = (eq_iff o.restaurant_id device.restaurant_id).0 own;
                  read_first = refl;
                  id = refl;
                  status_asked = refl;
                  allowed = good;
                  not_cancelled = not_cancelled_lem status good;
                  actor = refl;
                })
                (after_guards fl env device order_id status o good f own)
        ]
      ]
    ]
