-- ===== src/Virtio/Sector.antt =====
-- fs/virtio.c: virtio_blk_read_sector and virtio_blk_write_sector with a device that keeps its
-- promise. They are what FatIo takes the block device to be.
use tiny_riscv_os.Prelude.{
  ℕ, ◌+◌, ◌-◌, ◌%◌, ◌^◌, ◌≤◌, ◌<◌, ◌≡◌, ◌≢◌, refl, ap, ◌∙◌, update, update_ne, update_self, arith,
}
use tiny_riscv_os.Result.{ok, ◌>>=◌}
use tiny_riscv_os.Buddy.{word}
use tiny_riscv_os.Bytes.{Bytes}
use tiny_riscv_os.FatIo.{memcpy_between}
use tiny_riscv_os.Virtio.{
  Shared, Device, virtio_blk_sector_size, virtio_queue_size, chain, virtio_blk_cmd,
  virtio_blk_read_sector, virtio_blk_write_sector,
}
use tiny_riscv_os.Virtio.Command.{head, served, Serves, IsReady}
use tiny_riscv_os.Virtio.Poll.{poll-served, served-IsReady}

-- With a device that keeps its promise and has the sector, and a driver that has set it up and may
-- make a request, virtio_blk_read_sector ends, for a sector below 2^32 and a buffer below 2^64:
-- the buffer then holds the bytes of the sector, the rest of memory and the disk are as they were,
-- and the driver may make a request again.
pub virtio_blk_read_sector_lem :
    (d : Device)
    → Serves d
    → (s : Shared) (sector buf : ℕ) → IsReady s
    → sector < 2 ^ 32
    → sector < d.capacity
    → buf + virtio_blk_sector_size ≤ word
    → (n : ℕ) × (s' : Shared) × ((fuel : ℕ)
        → n < fuel
        → virtio_blk_read_sector fuel d s sector buf ≡ ok s')
      × (s'.mem ≡ memcpy_between s.mem buf (s.disk sector) 0 virtio_blk_sector_size)
      × (s'.disk ≡ s.disk)
      × IsReady s'
unfolding virtio_blk_read_sector virtio_blk_cmd
virtio_blk_read_sector_lem d promise s sector buf ready small held fits =
    let c = virtio_blk_cmd d s 0 sector buf in
    (
      promise.steps c 0 sector buf,
      served c 0 sector buf,
      poll-served d promise s 0 sector buf ready (omega arith) small held fits,
      refl,
      refl,
      served-IsReady d promise s 0 sector buf ready (omega arith) small held fits,
    )

-- With a device that keeps its promise and has the sector, and a driver that has set it up and may
-- make a request, virtio_blk_write_sector ends, for a sector below 2^32 and a buffer below 2^64:
-- the sector then holds the bytes of the buffer, the other sectors and memory are as they were,
-- and the driver may make a request again.
pub virtio_blk_write_sector_lem :
    (d : Device)
    → Serves d
    → (s : Shared) (sector buf : ℕ) → IsReady s
    → sector < 2 ^ 32
    → sector < d.capacity
    → buf + virtio_blk_sector_size ≤ word
    → (n : ℕ) × (s' : Shared) × ((fuel : ℕ)
        → n < fuel
        → virtio_blk_write_sector fuel d s sector buf ≡ ok s')
      × (s'.disk
          ≡ update s.disk sector
              (memcpy_between (s.disk sector) 0 s.mem buf virtio_blk_sector_size))
      × (s'.mem ≡ s.mem)
      × IsReady s'
unfolding virtio_blk_write_sector virtio_blk_cmd
virtio_blk_write_sector_lem d promise s sector buf ready small held fits =
    let c = virtio_blk_cmd d s 1 sector buf in
    (
      promise.steps c 1 sector buf,
      served c 1 sector buf,
      poll-served d promise s 1 sector buf ready (omega arith) small held fits,
      refl,
      refl,
      served-IsReady d promise s 1 sector buf ready (omega arith) small held fits,
    )

-- A sector below 2^32 that has been written from one buffer is read back into another: both calls
-- end, and the second buffer holds the bytes of the first, if the device keeps its promise and has
-- the sector, the driver has set it up and may make a request, and the buffers lie below 2^64.
pub read_sector-write_sector :
    (d : Device)
    → Serves d
    → (s : Shared) (sector from to : ℕ) → IsReady s
    → sector < 2 ^ 32
    → sector < d.capacity
    → from + virtio_blk_sector_size ≤ word
    → to + virtio_blk_sector_size ≤ word
    → (n : ℕ) × (s' : Shared) × ((fuel : ℕ)
        → n < fuel
        → (virtio_blk_write_sector fuel d s sector from >>= λ s1.
            virtio_blk_read_sector fuel d s1 sector to)
          ≡ ok s')
      × ((i : ℕ) → i < virtio_blk_sector_size → s'.mem (to + i) ≡ s.mem (from + i))
read_sector-write_sector d promise s sector from to ready small held fits fits' =
    let (n1, s1, ends1, disk1, mem1, ready1) =
      virtio_blk_write_sector_lem d promise s sector from ready small held fits in
    let (n2, s2, ends2, mem2, disk2, ready2) =
      virtio_blk_read_sector_lem d promise s1 sector to ready1 small held fits' in
    (
      n1 + n2,
      s2,
      (λ fuel l. rw (ends1 fuel (omega arith)) (ends2 fuel (omega arith))),
      λ i l.
          let stored : s1.disk sector i ≡ s.mem (from + i) =
            ap (λ (k : ℕ → Bytes). k sector i) disk1 ∙ ground arith in
          let loaded : s2.mem (to + i) ≡ s1.disk sector i =
            let e : to + i - to ≡ i = omega arith in
            ap (λ (m : Bytes). m (to + i)) mem2 ∙ ground (arith, ap (s1.disk sector) e) in
          loaded ∙ stored,
    )

-- If no request is waiting, virtio_blk_cmd stores 0 in the slot of the available ring at avail_idx + 1,
-- and leaves the other slots as they were, among them the one that the device looks at next: where
-- that slot names a descriptor from 3 on, the device starts at what this descriptor held before, and
-- not at the header of the request.
pub virtio_blk_cmd-stale :
    (d : Device) (s : Shared) (type sector buf slot : ℕ)
    → s.ring.avail_idx ≡ s.ring.used_idx
    → s.ring.avail_ring (s.ring.used_idx % virtio_queue_size) ≡ slot
    → 3 ≤ slot
    → ((virtio_blk_cmd d s type sector buf).ring.avail_ring
          ((s.ring.avail_idx + 1) % virtio_queue_size)
        ≡ 0)
      × ((i : ℕ)
          → (s.ring.avail_idx + 1) % virtio_queue_size ≢ i
          → (virtio_blk_cmd d s type sector buf).ring.avail_ring i ≡ s.ring.avail_ring i)
      × (head (virtio_blk_cmd d s type sector buf) ≡ s.ring.desc slot)
unfolding virtio_blk_cmd chain
virtio_blk_cmd-stale d s type sector buf slot same at l =
    let next = (s.ring.avail_idx + 1) % virtio_queue_size in
    let others = update_ne s.ring.avail_ring next 0 in
    let kept : (virtio_blk_cmd d s type sector buf).ring.avail_ring
          (s.ring.used_idx % virtio_queue_size)
        ≡ slot =
      others (s.ring.used_idx % virtio_queue_size) (λ e. omega (arith, e, same)) ∙ at in
    (update_self s.ring.avail_ring next 0, others, rw kept (ground arith))
