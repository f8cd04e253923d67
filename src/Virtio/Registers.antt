-- ===== src/Virtio/Registers.antt =====
-- The registers of a virtio device, and what the writes of fs/virtio.c have made of them.
use tiny_riscv_os.Prelude.{ℕ, ◌+◌, ◌*◌, ◌^◌, ◌≡◌, Bool, [], ◌∷◌, ◌==◌, ◌&&◌, if◌then◌else◌}
use tiny_riscv_os.Mm.{pgsize, va2pa}
use tiny_riscv_os.Virtio.{
  Reg, status, device_features_sel, driver_features, driver_features_sel, queue_sel, queue_num,
  queue_ready, queue_notify, queue_desc_low, queue_desc_high, queue_avail_low, queue_avail_high,
  queue_used_low, queue_used_high, Log, Shared,
}

-- Where the documentation of virtio has each register.
abbrev pub offset : Reg → ℕ
offset device_features_sel = 0x014
offset driver_features = 0x020
offset driver_features_sel = 0x024
offset queue_sel = 0x030
offset queue_num = 0x038
offset queue_ready = 0x044
offset queue_notify = 0x050
offset status = 0x070
offset queue_desc_low = 0x080
offset queue_desc_high = 0x084
offset queue_avail_low = 0x090
offset queue_avail_high = 0x094
offset queue_used_low = 0x0a0
offset queue_used_high = 0x0a4

-- A zero in Status resets the device.
abbrev resets : Reg → ℕ → Bool
resets r x = offset r == offset status && x == 0

-- What a register holds after the writes: the newest one, and zero after a reset.
abbrev pub value_of : Log → Reg → ℕ
value_of [] r = 0
value_of ((q, x) ∷ log) r =
    if offset q == offset r then x else if resets q x then 0 else value_of log r

-- The features accepted under a selector.
abbrev pub features_of : Log → ℕ → ℕ
features_of [] sel = 0
features_of ((q, x) ∷ log) sel =
    if resets q x
    then 0
    else if offset q == offset driver_features && value_of log driver_features_sel == sel
    then x
    else features_of log sel

-- An address in two registers.
abbrev pub address_of : Log → Reg → Reg → ℕ
address_of log low high = value_of log low + 2 ^ 32 * value_of log high

-- The device has the addresses of queue 0 and its size, has been told that the queue may be used, and
-- knows the features that the driver accepts.
pub record IsConfigured (s : Shared) : Type 0 where
  pub selected : value_of s.log queue_sel ≡ 0
  pub size : value_of s.log queue_num ≡ 16
  pub ready : value_of s.log queue_ready ≡ 1
  pub desc : address_of s.log queue_desc_low queue_desc_high ≡ va2pa s.ring_at
  pub avail : address_of s.log queue_avail_low queue_avail_high ≡ va2pa (s.ring_at + pgsize)
  pub used : address_of s.log queue_used_low queue_used_high ≡ va2pa (s.ring_at + 2 * pgsize)
  pub features_low : features_of s.log 0 ≡ 0x3000_0200
  pub features_high : features_of s.log 1 ≡ 0
