-- ===== src/Bus/Factory.antt =====
-- src/sim/bus_emulator.py: `create_can_bus`. What python-can opens, or raises, for a channel is an
-- argument, and so is whether the `time` module has the attribute CLOCK_REALTIME.
use can_sentinental.Prelude.{Bool, ◌&&◌, ◌||◌, if◌then◌else◌, Result, ok, raise}
use can_sentinental.Prelude.Text.{Text, codes, text_eq}
use can_sentinental.Bus.{VirtualCanBus, new_bus}

pub data AnyBus (B A : Type 0) : Type 0 where
  socketcan_bus : B → AnyBus B A
  virtual_bus : VirtualCanBus A → AnyBus B A

module _ {B A : Type 0} where
  abbrev or_virtual : Result B → AnyBus B A
  or_virtual (ok bus) = socketcan_bus bus
  or_virtual (raise e) = virtual_bus new_bus

  unfoldable pub create_can_bus : (Text → Result B) → Bool → Text → Text → AnyBus B A
  create_can_bus open_bus has_clock_realtime channel interface =
      if text_eq interface (codes "socketcan")
        || (text_eq interface (codes "auto") && has_clock_realtime)
      then or_virtual (open_bus channel)
      else virtual_bus new_bus
