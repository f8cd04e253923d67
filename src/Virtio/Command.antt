-- ===== src/Virtio/Command.antt =====
-- fs/virtio.c: what a request of the driver looks like to the device, and what a device promises for
-- such a request, as the documentation of virtio has it.
use tiny_riscv_os.Prelude.{
  ℕ, zero, suc, ◌+◌, ◌%◌, ◌^◌, ◌≤◌, ◌<◌, ◌≡◌, refl, ◌∷◌, ◌==◌, if◌then◌else◌, update, bit_or, arith,
}
use tiny_riscv_os.Buddy.{word}
use tiny_riscv_os.Mm.{va2pa}
use tiny_riscv_os.FatIo.{memcpy_between}
use tiny_riscv_os.Virtio.Registers.{value_of, IsConfigured}
use tiny_riscv_os.Virtio.{
  queue_notify, status, device_driver_ok, Log, Desc, Ring, Shared, Device, virtio_queue_size,
  virtio_blk_sector_size, virtio_blk_t_in, chain, virtio_blk_cmd,
}

-- The descriptor that the device starts at: it looks at the slot behind those it has used.
abbrev pub head : Shared → Desc
head s = s.ring.desc (s.ring.avail_ring (s.ring.used_idx % virtio_queue_size))

abbrev pub second : Shared → Desc
second s = s.ring.desc (head s).next

abbrev pub third : Shared → Desc
third s = s.ring.desc (second s).next

-- The device has been set up, with the status bits acknowledge, driver, driver-ok and features-ok, and
-- has been notified. It finds one request more than it has used: a header, a buffer of a sector, which
-- it may write to for a read, and a byte for the result.
pub record IsWaiting (s : Shared) (type sector buf : ℕ) : Type 0 where
  pub earlier : Log
  pub notified : s.log ≡ (queue_notify, 0) ∷ earlier
  pub running : value_of s.log status ≡ 15
  pub configured : IsConfigured s
  pub one_more : s.ring.avail_idx ≡ (s.ring.used_idx + 1) % 2 ^ 16
  pub header_addr : (head s).addr ≡ va2pa s.req_at
  pub header_len : (head s).len ≡ 16
  pub header_flags : (head s).flags ≡ 1
  pub buffer_addr : (second s).addr ≡ va2pa buf
  pub buffer_len : (second s).len ≡ 512
  pub buffer_flags : (second s).flags ≡ (if type == 0 then 3 else 1)
  pub result_addr : (third s).addr ≡ va2pa s.status_at
  pub result_len : (third s).len ≡ 1
  pub result_flags : (third s).flags ≡ 2
  pub request_type : s.req.type ≡ type
  pub request_sector : s.req.sector ≡ sector

-- What the request does: it moves the bytes of one sector, has the result 0, and is counted as used.
abbrev pub served : Shared → ℕ → ℕ → ℕ → Shared
served s type sector buf = record s {
  ring = record (s.ring) { used_idx = (s.ring.used_idx + 1) % 2 ^ 16 };
  result = 0;
  mem =
      if type == virtio_blk_t_in
      then memcpy_between s.mem buf (s.disk sector) 0 virtio_blk_sector_size
      else s.mem;
  disk =
      if type == virtio_blk_t_in
      then s.disk
      else update s.disk sector (memcpy_between (s.disk sector) 0 s.mem buf virtio_blk_sector_size);
}

abbrev pub iterate {ℓ} : {A : Type ℓ} → ℕ → (A → A) → A → A
iterate zero f a = a
iterate (suc n) f a = iterate n f (f a)

-- Status reads back as it was written: the device accepts the features and needs no reset. A request
-- that waits for a sector within the capacity is served after some steps, and not counted as used
-- before.
pub record Serves (d : Device) : Type 0 where
  pub status_back : (log : Log) → d.status_read log ≡ value_of log status
  pub steps : Shared → ℕ → ℕ → ℕ → ℕ
  pub done :
      (s : Shared) (type sector buf : ℕ)
      → type ≤ 1
      → sector < d.capacity
      → buf + virtio_blk_sector_size ≤ word
      → IsWaiting s type sector buf
      → iterate (steps s type sector buf) d.step s ≡ served s type sector buf
  pub busy :
      (s : Shared) (type sector buf : ℕ)
      → type ≤ 1
      → sector < d.capacity
      → buf + virtio_blk_sector_size ≤ word
      → IsWaiting s type sector buf
      → (i : ℕ) → i < steps s type sector buf
      → (iterate i d.step s).ring.used_idx ≡ s.ring.used_idx

-- No request is waiting, and every slot names descriptor 0.
pub record IsIdle (r : Ring) : Type 0 where
  pub small : r.used_idx < 2 ^ 16
  pub none_waits : r.avail_idx ≡ r.used_idx
  pub slots : (i : ℕ) → i < virtio_queue_size → r.avail_ring i ≡ 0

-- The driver may make a request: the device is set up, but for the status bit driver-ok, which may
-- be there or not, and the ring is idle.
pub record IsReady (s : Shared) : Type 0 where
  pub idle : IsIdle s.ring
  pub configured : IsConfigured s
  pub status_bits : bit_or (value_of s.log status) device_driver_ok ≡ 15

pub cmd_slots :
    (d : Device) (s : Shared) (type sector buf : ℕ)
    → IsReady s
    → (i : ℕ) → i < virtio_queue_size
    → (virtio_blk_cmd d s type sector buf).ring.avail_ring i ≡ 0
unfolding virtio_blk_cmd
cmd_slots d s type sector buf r i l = ground (arith, r.idle.slots i l)

module _ (d : Device) (promise : Serves d) (s : Shared) (type sector buf : ℕ) (r : IsReady s) where
  written : bit_or (d.status_read s.log) device_driver_ok ≡ 15
  written = rw (promise.status_back s.log) r.status_bits

  pub virtio_blk_cmd-running : value_of (virtio_blk_cmd d s type sector buf).log status ≡ 15
  unfolding virtio_blk_cmd
  virtio_blk_cmd-running = written

  pub virtio_blk_cmd-IsConfigured : IsConfigured (virtio_blk_cmd d s type sector buf)
  unfolding virtio_blk_cmd
  virtio_blk_cmd-IsConfigured =
      let c = r.configured in
      record {
        selected = rw written c.selected;
        size = rw written c.size;
        ready = rw written c.ready;
        desc = rw written c.desc;
        avail = rw written c.avail;
        used = rw written c.used;
        features_low = rw written c.features_low;
        features_high = rw written c.features_high;
      }

pub virtio_blk_cmd-IsWaiting :
    (d : Device)
    → Serves d
    → (s : Shared) (type sector buf : ℕ) → IsReady s
    → type ≤ 1
    → sector < 2 ^ 32
    → IsWaiting (virtio_blk_cmd d s type sector buf) type sector buf
unfolding virtio_blk_cmd chain
virtio_blk_cmd-IsWaiting d promise s type sector buf r t l =
    let c = virtio_blk_cmd d s type sector buf in
    let slot =
      cmd_slots d s type sector buf r (s.ring.used_idx % virtio_queue_size) (omega arith) in
    let e : type % 2 ^ 32 ≡ type = omega arith in
    record {
      earlier = _;
      notified = refl;
      running = virtio_blk_cmd-running d promise s type sector buf r;
      configured = virtio_blk_cmd-IsConfigured d promise s type sector buf r;
      one_more = omega (arith, r.idle.none_waits);
      header_addr = rw slot refl;
      header_len = rw slot refl;
      header_flags = rw slot refl;
      buffer_addr = rw slot refl;
      buffer_len = rw slot refl;
      buffer_flags = rw slot (rw e (ground arith));
      result_addr = rw slot refl;
      result_len = rw slot refl;
      result_flags = rw slot refl;
      request_type = e;
      request_sector = omega arith;
    }
