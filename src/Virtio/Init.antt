-- ===== src/Virtio/Init.antt =====
-- fs/virtio.c: virtio_blk_init.
use tiny_riscv_os.Prelude.{ℕ, ◌≡◌, refl, ap, ◌∙◌, arith, ◌∷◌, bit_or, subst, sym}
use tiny_riscv_os.Buddy.{Buddy}
use tiny_riscv_os.Bytes.{Bytes}
use tiny_riscv_os.Virtio.{
  Log, Ring, Shared, Device, status, device_features_sel, driver_features, driver_features_sel,
  device_acknowledge, device_driver, device_features_ok, or_status, virtio_blk_driver_init,
  virtio_blk_feature_init, queue_registers,
}
use tiny_riscv_os.Virtio.Registers.{value_of}
use tiny_riscv_os.Virtio.Command.{Serves, IsIdle, IsReady}

-- The writes to the registers before the first request.
abbrev pub set_up : Device → ℕ → Log → Log
set_up d pages log =
    queue_registers pages (virtio_blk_feature_init d (virtio_blk_driver_init d log))

-- `Status |= flag` where the value of Status is known.
or_status_known :
    (d : Device)
    → Serves d
    → (log : Log) (flag x : ℕ) → value_of log status ≡ x
    → or_status d log flag ≡ (status, bit_or x flag) ∷ log
or_status_known d promise log flag x e =
    ap (λ y. (status, bit_or y flag) ∷ log) (promise.status_back log ∙ e)

-- What has been written when the queue is set up, the newest first.
abbrev writes : Log → Log
writes log =
    (status, 11)
    ∷ (driver_features, 0)
    ∷ (driver_features_sel, 1)
    ∷ (driver_features, 0x3000_0200)
    ∷ (driver_features_sel, 0)
    ∷ (device_features_sel, 1)
    ∷ (device_features_sel, 0)
    ∷ (status, 3)
    ∷ (status, 1)
    ∷ (status, 0)
    ∷ log

set_up-writes :
    (d : Device)
    → Serves d
    → (pages : ℕ) (log : Log) → set_up d pages log ≡ queue_registers pages (writes log)
unfolding virtio_blk_driver_init virtio_blk_feature_init
set_up-writes d promise pages log =
    let known = or_status_known d promise in
    ap (queue_registers pages) (
      rw
        (
          known ((status, 0) ∷ log) device_acknowledge 0 refl,
          known ((status, 1) ∷ (status, 0) ∷ log) device_driver 1 refl,
        )
        (known _ device_features_ok 3 refl))

writes-IsReady :
    (s : Shared) (log : Log) (pages : ℕ) (ring : Ring)
    → IsIdle ring
    → IsReady (record s { log = queue_registers pages (writes log); ring_at = pages; ring = ring })
unfolding queue_registers
writes-IsReady s log pages ring idle = record {
  idle = idle;
  configured = record {
    selected = refl;
    size = refl;
    ready = refl;
    desc = omega arith;
    avail = omega arith;
    used = omega arith;
    features_low = refl;
    features_high = refl;
  };
  status_bits = refl;
}

-- The device is then set up, whatever was written before.
pub set_up-IsReady :
    (d : Device)
    → Serves d
    → (s : Shared) (log : Log) (pages : ℕ) (ring : Ring) → IsIdle ring
    → IsReady (record s { log = set_up d pages log; ring_at = pages; ring = ring })
set_up-IsReady d promise s log pages ring idle =
    subst (λ l. IsReady (record s { log = l; ring_at = pages; ring = ring }))
      (sym (set_up-writes d promise pages log)) (writes-IsReady s log pages ring idle)
