-- ===== src/Virtio.antt =====
-- fs/virtio.c: the driver of the virtio block device. The device is a parameter: what it answers
-- to a read of its Status, its capacity in sectors, and a step of its own, which it may make
-- whenever the driver polls. The registers are known by the writes to them, the newest first; the
-- ring, the request, its result and the buffers are the memory that driver and device share.
-- Virtio/Registers reads the writes as the device does, Virtio/Command says what a request must
-- look like and what a device promises; Virtio/Poll, Virtio/Sector and Virtio/Init hold the
-- proofs.
mod Registers
mod Command
mod Poll
mod Sector
mod Init
mod Tests
use tiny_riscv_os.Prelude.{
  ℕ, zero, suc, ◌+◌, ◌-◌, ◌*◌, ◌/◌, ◌%◌, ◌^◌, List, [], ◌∷◌, Bool, Option, none, some, ◌==◌, ◌&&◌,
  if◌then◌else◌, update, bit_and, bit_or,
}
use tiny_riscv_os.Result.{Result, ok, halted, stuck, ◌>>=◌, or_stuck}
use tiny_riscv_os.Buddy.{Buddy, word}
use tiny_riscv_os.Mm.{pgsize, va2pa, alloc_pages}
use tiny_riscv_os.Bytes.{Bytes}

-- The registers of `struct virtio_regs` that the driver writes.
pub data Reg : Type 0 where
  status device_features_sel driver_features driver_features_sel : Reg
  queue_sel queue_num queue_ready queue_notify : Reg
  queue_desc_low queue_desc_high queue_avail_low queue_avail_high queue_used_low queue_used_high :
      Reg

abbrev pub Log : Type 0
Log = List (Reg × ℕ)

-- `struct virtio_desc`
pub record Desc : Type 0 where
  pub addr : ℕ
  pub len : ℕ
  pub flags : ℕ
  pub next : ℕ

-- What the three pages of a ring hold.
pub record Ring : Type 0 where
  pub desc : ℕ → Desc
  pub avail_flags : ℕ
  pub avail_idx : ℕ
  pub avail_ring : ℕ → ℕ
  pub used_idx : ℕ

-- `struct virtio_blk_req`, which the driver has at the address `req_at`.
pub record Request : Type 0 where
  pub type : ℕ
  pub sector : ℕ

-- What driver and device share, with the contents of the disk; `ring_at` is the address of the pages
-- of the ring, `status_at` that of virtio_blk_status, and `result` what stands there.
pub record Shared : Type 0 where
  pub log : Log
  pub ring_at : ℕ
  pub ring : Ring
  pub req_at : ℕ
  pub req : Request
  pub status_at : ℕ
  pub result : ℕ
  pub mem : Bytes
  pub disk : ℕ → Bytes

pub record Device : Type 0 where
  pub status_read : Log → ℕ
  pub capacity : ℕ
  pub step : Shared → Shared

abbrev pub device_acknowledge : ℕ
device_acknowledge = 1

abbrev pub device_driver : ℕ
device_driver = 2

abbrev pub device_driver_ok : ℕ
device_driver_ok = 4

abbrev pub device_features_ok : ℕ
device_features_ok = 8

abbrev pub virtio_queue_size : ℕ
virtio_queue_size = 16

abbrev pub virtio_blk_sector_size : ℕ
virtio_blk_sector_size = 512

abbrev pub virtq_desc_f_next : ℕ
virtq_desc_f_next = 1

abbrev pub virtq_desc_f_write : ℕ
virtq_desc_f_write = 2

abbrev pub virtq_avail_f_no_interrupt : ℕ
virtq_avail_f_no_interrupt = 1

abbrev pub virtio_blk_t_in : ℕ
virtio_blk_t_in = 0

abbrev pub virtio_blk_t_out : ℕ
virtio_blk_t_out = 1

-- `Status |= flag`
abbrev pub or_status : Device → Log → ℕ → Log
or_status d log flag = (status, bit_or (d.status_read log) flag) ∷ log

unfoldable pub virtio_blk_driver_init : Device → Log → Log
virtio_blk_driver_init d log =
    or_status d (or_status d ((status, 0) ∷ log) device_acknowledge) device_driver

unfoldable pub virtio_blk_feature_init : Device → Log → Log
virtio_blk_feature_init d log =
    let log' : Log =
      (driver_features, 0)
      ∷ (driver_features_sel, 1)
      ∷ (driver_features, 0x3000_0200)
      ∷ (driver_features_sel, 0)
      ∷ (device_features_sel, 1)
      ∷ (device_features_sel, 0)
      ∷ log in
    or_status d log' device_features_ok

-- The loop over the descriptors: n of them from i on, each is the `next` of the one before.
unfoldable pub link_descs : ℕ → ℕ → (ℕ → Desc) → ℕ → Desc
link_descs zero i desc = desc
link_descs (suc n) i desc =
    link_descs n (i + 1) (update desc (i - 1) (record (desc (i - 1)) { next = i }))

-- The registers that tell the device where the ring lies.
unfoldable pub queue_registers : ℕ → Log → Log
queue_registers pages log =
    let avail = va2pa (pages + pgsize) in
    let desc = va2pa pages in
    let used = va2pa (pages + 2 * pgsize) in
    (queue_ready, 1)
    ∷ (queue_used_high, used / 2 ^ 32)
    ∷ (queue_used_low, used % 2 ^ 32)
    ∷ (queue_desc_high, desc / 2 ^ 32)
    ∷ (queue_desc_low, desc % 2 ^ 32)
    ∷ (queue_avail_high, avail / 2 ^ 32)
    ∷ (queue_avail_low, avail % 2 ^ 32)
    ∷ (queue_num, virtio_queue_size)
    ∷ (queue_sel, 0)
    ∷ log

-- What is stored in the pages of a new ring.
unfoldable pub start_ring : Ring → Ring
start_ring ring = record ring {
  avail_flags = virtq_avail_f_no_interrupt;
  desc = link_descs (virtio_queue_size - 1) 1 ring.desc;
}

-- `held` is what the pages of a new ring hold: they are not cleared.
unfoldable pub virtio_blk_queue_init : (ℕ → Ring) → Buddy → Log → Option (Log × ℕ × Ring × Buddy)
virtio_blk_queue_init held frames log = elim (alloc_pages frames 3) [
  | none ↦ none
  | some (pages, frames') ↦
      some (queue_registers pages log, pages, start_ring (held pages), frames')
]

-- The three descriptors of a request.
unfoldable pub chain : Shared → ℕ → ℕ → ℕ → Desc
chain s type buf =
    let header : Desc = record {
      addr = va2pa s.req_at;
      len = 16;
      flags = virtq_desc_f_next;
      next = 1;
    } in
    let sector : Desc = record {
      addr = va2pa buf;
      len = virtio_blk_sector_size;
      flags =
          if type == virtio_blk_t_in
          then bit_or virtq_desc_f_write virtq_desc_f_next
          else virtq_desc_f_next;
      next = 2;
    } in
    let result : Desc = record (s.ring.desc 2) {
      addr = va2pa s.status_at;
      len = 1;
      flags = virtq_desc_f_write;
    } in
    update (update (update s.ring.desc 0 header) 1 sector) 2 result

-- `type` and `sector` are 32 bits wide, and `idx` is 16.
unfoldable pub virtio_blk_cmd : Device → Shared → ℕ → ℕ → ℕ → Shared
virtio_blk_cmd d s type sector buf =
    let ring : Ring = s.ring in
    record s {
      req = record { type = type % 2 ^ 32; sector = sector % 2 ^ 32 };
      ring = record ring {
        desc = chain s (type % 2 ^ 32) buf;
        avail_ring = update ring.avail_ring ((ring.avail_idx + 1) % virtio_queue_size) 0;
        avail_idx = (ring.avail_idx + 1) % 2 ^ 16;
      };
      log = (queue_notify, 0) ∷ or_status d s.log device_driver_ok;
    }

-- The loop that waits for the device, on fuel.
unfoldable pub poll : ℕ → Device → Shared → ℕ → Result Shared
poll zero d s original_idx = stuck
poll (suc fuel) d s original_idx =
    let rest = poll fuel d (d.step s) original_idx in
    if s.ring.used_idx == original_idx then rest else ok s

unfoldable pub virtio_blk_read_sector : ℕ → Device → Shared → ℕ → ℕ → Result Shared
virtio_blk_read_sector fuel d s sector buf =
    poll fuel d (virtio_blk_cmd d s virtio_blk_t_in sector buf) s.ring.used_idx

unfoldable pub virtio_blk_write_sector : ℕ → Device → Shared → ℕ → ℕ → Result Shared
virtio_blk_write_sector fuel d s sector buf =
    poll fuel d (virtio_blk_cmd d s virtio_blk_t_out sector buf) s.ring.used_idx

-- virtio_blk_config_init has no effect; `buf` is the address of the buffer on the stack.
unfoldable pub virtio_blk_init :
    ℕ → Device → (ℕ → Ring) → Buddy → Shared → ℕ → Result (Shared × Buddy)
virtio_blk_init fuel d held frames s buf =
    let log = virtio_blk_feature_init d (virtio_blk_driver_init d s.log) in
    or_stuck (virtio_blk_queue_init held frames log) >>= λ (log', pages, ring, frames').
    virtio_blk_read_sector fuel d (record s { log = log'; ring_at = pages; ring = ring }) 0 buf
    >>= λ s'.
        if s'.mem (buf + 510) == 0x55 && s'.mem (buf + 511) == 0xaa
        then ok (s', frames')
        else halted

abbrev pub id_virtio_blk : ℕ
id_virtio_blk = 2

abbrev pub virtio_start : ℕ
virtio_start = 0x1000_1000

abbrev pub virtio_size : ℕ
virtio_size = 0x1000

abbrev pub virtio_count : ℕ
virtio_count = 8

abbrev pub io_to_virt : ℕ → ℕ
io_to_virt pa = (pa + 0xffff_ffc8_0000_0000) % word

-- virtio_dev_test on n addresses from the i-th on; `device_id` is what in32 reads there, and `regs`
-- the address in virtio_blk_regs.
unfoldable pub find_device : ℕ → ℕ → (ℕ → ℕ) → ℕ → ℕ
find_device zero i device_id regs = regs
find_device (suc n) i device_id regs =
    let addr = io_to_virt (virtio_start + i * virtio_size) in
    find_device n (i + 1) device_id (if device_id addr == id_virtio_blk then addr else regs)

-- The device is `d`, wherever it is found.
unfoldable pub virtio_dev_init :
    ℕ → Device → (ℕ → ℕ) → (ℕ → Ring) → Buddy → Shared → ℕ → Result (Shared × Buddy)
virtio_dev_init fuel d device_id held frames s buf =
    if find_device virtio_count 0 device_id 0 == 0
    then ok (s, frames)
    else virtio_blk_init fuel d held frames s buf
