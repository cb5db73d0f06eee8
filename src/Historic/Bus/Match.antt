-- ===== src/Historic/Bus/Match.antt =====
-- Which entry of the table of a driver `wb_match_device` finds.
use fpga_config_space.Base.{
  eq-false, List, [], ◌∷◌, ◌++◌, ◌≡◌, ◌≢◌, refl, sym, none, some, Bool, true, false, ◌&&◌, ◌||◌,
  ◌==◌, ==_iff,
}
use fpga_config_space.Historic.Sdwb.{Wbd}
use fpga_config_space.Historic.Bus.{
  WbDeviceId, wb_any_vendor, wb_no_class, fits, match_loop, wb_match_device,
}

-- The entry of zeros at the end of a table.
abbrev pub last_id : WbDeviceId
last_id = record { vendor = 0; device = 0; dev_class = 0 }

-- A table whose entries ask for a vendor, and not for a class.
pub data IsVendored : List WbDeviceId → Type 0 where
  nil : IsVendored []
  cons :
      (id : WbDeviceId) (ids : List WbDeviceId)
      → id.vendor ≢ 0
      → id.dev_class ≡ wb_no_class
      → IsVendored ids
      → IsVendored (id ∷ ids)

and-false : (b : Bool) → (b && false) ≡ false
and-false true = refl
and-false false = refl

unfitting :
    (id : WbDeviceId) (wbd : Wbd)
    → id.dev_class ≡ wb_no_class
    → wbd.device ≢ 0
    → fits 0 id wbd ≡ false
unfitting id wbd c d = rw (
  (==_iff id.dev_class wb_no_class).1 c,
  eq-false 0 wbd.device (λ e. d (sym e)),
  and-false ((id.vendor == wb_any_vendor) || (id.vendor == wbd.vendor)),
)

-- A driver whose table asks for vendors and devices, and for no class, gets no device whose number is
-- not 0: whatever vendors, devices or wildcards its entries give.
pub wb_match_device-none :
    (ids : List WbDeviceId) (wbd : Wbd)
    → IsVendored ids
    → wbd.device ≢ 0
    → wb_match_device (some (ids ++ (last_id ∷ []))) wbd ≡ none
unfolding wb_match_device match_loop
wb_match_device-none [] wbd t d = refl
wb_match_device-none (id ∷ ids) wbd (IsVendored.cons _ _ v c t) d =
    rw (eq-false id.vendor 0 v, unfitting id wbd c d) (wb_match_device-none ids wbd t d)
