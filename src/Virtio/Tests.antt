-- ===== src/Virtio/Tests.antt =====
-- fs/virtio.c with a device that serves a request in one step, and an empty ring.
use tiny_riscv_os.Prelude.{
  ℕ, ◌+◌, ◌%◌, ◌^◌, ◌≤◌, ◌<◌, ◌≡◌, ◌≢◌, refl, ap, ◌∙◌, [], ◌==◌, ◌||◌, false, if◌then◌else◌, update,
  arith,
}
use tiny_riscv_os.Result.{ok, ◌>>=◌}
use tiny_riscv_os.Buddy.{Buddy, word, refresh}
use tiny_riscv_os.Mm.{va2pa, pa2va, pfn2phys}
use tiny_riscv_os.Bytes.{Bytes}
use tiny_riscv_os.FatIo.{memcpy_between}
use tiny_riscv_os.Virtio.{
  status, Ring, Shared, Device, virtio_blk_read_sector, virtio_blk_write_sector, virtio_blk_cmd,
}
use tiny_riscv_os.Virtio.Command.{head, second, served, IsWaiting, Serves, IsIdle, IsReady}
use tiny_riscv_os.Virtio.Sector.{
  virtio_blk_read_sector_lem, read_sector-write_sector, virtio_blk_cmd-stale,
}
use tiny_riscv_os.Virtio.Init.{set_up, set_up-IsReady}
use tiny_riscv_os.Virtio.Registers.{value_of}

-- The device reads the request and the address of the buffer, if a request waits.
abbrev serve_next : Shared → Shared
serve_next s =
    let next = served s s.req.type s.req.sector (pa2va (second s).addr) in
    if s.ring.avail_idx == s.ring.used_idx then s else next

abbrev prompt_device : Device
prompt_device = record {
  status_read = λ log. value_of log status;
  capacity = 100;
  step = serve_next;
}

pa2va-va2pa : (a : ℕ) → a < word → pa2va (va2pa a) ≡ a
unfolding pa2va va2pa
pa2va-va2pa a l = omega arith

serve_next_lem :
    (s : Shared) (type sector buf : ℕ)
    → buf + 512 ≤ word
    → IsWaiting s type sector buf
    → serve_next s ≡ served s type sector buf
serve_next_lem s type sector buf fits w =
    let at : pa2va (second s).addr ≡ buf = ap pa2va w.buffer_addr ∙ pa2va-va2pa buf (omega arith) in
    let pending : (s.ring.avail_idx == s.ring.used_idx) ≡ false =
      let one_more = w.one_more in ground arith in
    rw (pending, at, w.request_type, w.request_sector) refl

prompt_device-Serves : Serves prompt_device
prompt_device-Serves = record {
  status_back = λ log. refl;
  steps = λ s type sector buf. 1;
  done = λ s type sector buf known held fits w. serve_next_lem s type sector buf fits w;
  busy =
      λ s type sector buf known held fits w i l. let first : i ≡ 0 = omega arith in rw first refl;
}

-- The disk is full of the number of each sector, with a signature in sector 0.
abbrev disk : ℕ → Bytes
disk sector a = if sector == 0 then (if a == 510 then 0x55 else 0xaa) else sector % 2 ^ 8

abbrev empty_ring : Ring
empty_ring = record {
  desc = λ i. record { addr = 0; len = 0; flags = 0; next = 0 };
  avail_flags = 0;
  avail_idx = 0;
  avail_ring = λ i. 0;
  used_idx = 0;
}

abbrev boot : Shared
boot = record {
  log = [];
  ring_at = 0;
  ring = empty_ring;
  req_at = 0xffff_ffe0_0020_0000;
  req = record { type = 0; sector = 0 };
  status_at = 0xffff_ffe0_0020_0010;
  result = 255;
  mem = λ a. a % 2 ^ 8;
  disk = disk;
}

empty_ring-IsIdle : IsIdle empty_ring
empty_ring-IsIdle = record { small = omega arith; none_waits = refl; slots = λ i l. refl }

-- The device is set up with a ring in frame 4.
abbrev started : Shared
started = record boot {
  log = set_up prompt_device (pa2va (pfn2phys 4)) [];
  ring_at = pa2va (pfn2phys 4);
}

started-IsReady : IsReady started
started-IsReady =
    set_up-IsReady prompt_device prompt_device-Serves boot [] (pa2va (pfn2phys 4)) empty_ring
      empty_ring-IsIdle

virtio_blk_read_sector_lem_example :
    (n : ℕ) × (s' : Shared) × ((fuel : ℕ)
      → n < fuel
      → virtio_blk_read_sector fuel prompt_device started 7 4096 ≡ ok s')
    × (s'.mem ≡ memcpy_between started.mem 4096 (disk 7) 0 512)
    × (s'.disk ≡ disk)
    × IsReady s'
virtio_blk_read_sector_lem_example =
    virtio_blk_read_sector_lem prompt_device prompt_device-Serves started 7 4096 started-IsReady
      (omega arith) (omega arith) (omega arith)

read_sector-write_sector_example :
    (n : ℕ) × (s' : Shared) × ((fuel : ℕ)
      → n < fuel
      → (virtio_blk_write_sector fuel prompt_device started 7 4100 >>= λ s1.
          virtio_blk_read_sector fuel prompt_device s1 7 9000)
        ≡ ok s')
    × ((i : ℕ) → i < 512 → s'.mem (9000 + i) ≡ (4100 + i) % 2 ^ 8)
read_sector-write_sector_example =
    read_sector-write_sector prompt_device prompt_device-Serves started 7 4100 9000 started-IsReady
      (omega arith) (omega arith) (omega arith) (omega arith)

-- The upper four of eight frames are free.
abbrev bits : ℕ → ℕ
bits i = if i == 0 || i == 2 then 4 else 0

abbrev frames : Buddy
frames = record { size = 8; bitmap = bits; ref_cnt = λ i. 0 }

abbrev frames_left : Buddy
frames_left = record {
  size = 8;
  bitmap = refresh (update bits 2 0) 0;
  ref_cnt = update (λ i. 0) 4 1;
}

-- A ring whose slot for the first request names descriptor 9.
abbrev stale : Shared
stale = record boot { ring = record empty_ring { avail_ring = λ i. if i == 0 then 9 else 0 } }

virtio_blk_cmd-stale_example :
    ((virtio_blk_cmd prompt_device stale 0 7 4096).ring.avail_ring 1 ≡ 0)
    × ((i : ℕ)
        → 1 ≢ i
        → (virtio_blk_cmd prompt_device stale 0 7 4096).ring.avail_ring i ≡ stale.ring.avail_ring i)
    × (head (virtio_blk_cmd prompt_device stale 0 7 4096) ≡ stale.ring.desc 9)
virtio_blk_cmd-stale_example =
    virtio_blk_cmd-stale prompt_device stale 0 7 4096 9 refl refl (omega arith)
