-- ===== src/Domain/Order/Laws.antt =====
-- What leaves the service on the public screens.
use kfc_userapi.Prelude.{String, ◌≡◌, refl, List}
use kfc_userapi.Prelude.Int.{ℤ}
use kfc_userapi.Domain.Money.{Floats}
use kfc_userapi.Domain.Order.{ProtoLine, ProtoOrder, order_view_from_proto, to_public, to_display}

-- The tracking page does not depend on the phone, the device, the member or the hold of an order;
-- the hall display does not depend on these either, nor on the name, the note, the lines, the
-- subtotal or the total.
order_views_private :
    (fl : Floats) (o : ProtoOrder) (phone device member hold name note : String)
    (lines : List ProtoLine) (subtotal total : ℤ)
    → (to_public (
          order_view_from_proto fl (record o {
            customer_phone = phone;
            device_id = device;
            member_id = member;
            loyalty_hold_id = hold;
          }))
        ≡ to_public (order_view_from_proto fl o))
      × (to_display (
            order_view_from_proto fl (record o {
              customer_phone = phone;
              device_id = device;
              member_id = member;
              loyalty_hold_id = hold;
              customer_name = name;
              note = note;
              lines = lines;
              subtotal = subtotal;
              total = total;
            }))
          ≡ to_display (order_view_from_proto fl o))
unfolding to_public to_display order_view_from_proto
order_views_private fl o phone device member hold name note lines subtotal total = (refl, refl)
