-- ===== src/Historic/Tests.antt =====
-- Runs of the models of the historic driver and its generator at concrete inputs.
use fpga_config_space.Base.{
  ℕ, List, [], ◌∷◌, ◌++◌, ◌≡◌, refl, Bool, true, none, some, copies, arith,
}
use fpga_config_space.Endian.{little, big}
use fpga_config_space.Historic.Sdwb.{Wbd, sdwb_create_device, wbd_of}
use fpga_config_space.Historic.Sdwb.RoundTrip.{IsSized, as_read, wbd_of-create}
use fpga_config_space.Historic.Bus.{
  WbBus, WbDeviceId, wb_any_device, wb_no_class, wb_register_bus, wb_match_device,
}
use fpga_config_space.Historic.Bus.Scan.{IsTabled, IsWhole, wb_register_bus-IsWhole}
use fpga_config_space.Historic.Bus.Match.{IsVendored, last_id, wb_match_device-none}
use fpga_config_space.Historic.Image.{Entry, image, generate}
use fpga_config_space.Historic.Image.Scanned.{AreSized, read_of, fake_bus, image-IsTabled}

-- A device whose vendor name is too long for its field.
abbrev timer : Wbd
timer = record {
  vendor = 0xbabe;
  device = 7;
  wbd_version = 0;
  hdl_base = 0x10000;
  hdl_size = 0x100;
  wbd_flags = 1;
  hdl_class = 2;
  hdl_version = 3;
  hdl_date = 0x20110309;
  vendor_name = copies 20 0x41;
  device_name = 0x54 ∷ 0x42 ∷ [];
}

timer-IsSized : IsSized timer
timer-IsSized = record {
  vendor = omega arith;
  device = omega arith;
  hdl_base = omega arith;
  hdl_size = omega arith;
  wbd_flags = omega arith;
  hdl_class = omega arith;
  hdl_version = omega arith;
  hdl_date = omega arith;
}

wbd_of-create_example : wbd_of big (sdwb_create_device big 1 2 timer) ≡ as_read big 1 2 timer
wbd_of-create_example = wbd_of-create big 1 2 timer timer-IsSized

abbrev memory : List ℕ
memory = copies 32 0x5a

-- The same with a name that the generator has room for.
abbrev clock : Wbd
clock = record timer { vendor_name = copies 15 0x41 }

clock-IsSized : IsSized clock
clock-IsSized = record {
  vendor = omega arith;
  device = omega arith;
  hdl_base = omega arith;
  hdl_size = omega arith;
  wbd_flags = omega arith;
  hdl_class = omega arith;
  hdl_version = omega arith;
  hdl_date = omega arith;
}

-- A name of 20 bytes is written behind its array.
name_overflow : generate little memory (record { major = 1; minor = 0; wbd = timer } ∷ []) ≡ none
unfolding generate
name_overflow = refl

abbrev entries : List Entry
entries =
    record { major = 1; minor = 0; wbd = clock } ∷ record { major = 1; minor = 1; wbd = clock } ∷ []

entries-AreSized : AreSized entries
entries-AreSized =
    AreSized.cons _ _ clock-IsSized (omega arith) (omega arith)
      (AreSized.cons _ _ clock-IsSized (omega arith) (omega arith) AreSized.nil)

abbrev firmware : List ℕ
firmware = image little memory entries

abbrev unused_bus : WbBus
unused_bus = record { devices = []; ndev = 0; devno = 4; registered = 4 ∷ [] }

entries-IsTabled : IsTabled little (fake_bus firmware []) 0 (read_of little entries)
entries-IsTabled = image-IsTabled little memory [] entries refl entries-AreSized (omega arith)

wb_register_bus-IsWhole_example :
    (r : ℕ × Bool × WbBus) × (wb_register_bus little (fake_bus firmware []) true 3 0 unused_bus
      ≡ some r)
    × IsWhole (fake_bus firmware []) (4 ∷ []) unused_bus (read_of little entries) r
wb_register_bus-IsWhole_example =
    wb_register_bus-IsWhole little (fake_bus firmware []) 3 0 unused_bus (read_of little entries)
      entries-IsTabled (omega arith)

-- The vendor of the device, and any device of it.
abbrev any_timer : WbDeviceId
any_timer = record { vendor = 0xbabe; device = wb_any_device; dev_class = wb_no_class }

wb_match_device-none_example :
    wb_match_device (some ((any_timer ∷ []) ++ (last_id ∷ []))) timer ≡ none
wb_match_device-none_example =
    wb_match_device-none (any_timer ∷ []) timer
      (IsVendored.cons any_timer [] (omega arith) refl IsVendored.nil) (omega arith)
