-- ===== src/Virtio/Poll.antt =====
-- fs/virtio.c: the loop that waits for the device, once a request has been made.
use tiny_riscv_os.Prelude.{
  ℕ, zero, suc, ◌+◌, ◌%◌, ◌^◌, ◌≤◌, ◌<◌, ◌≡◌, ◌≢◌, refl, ap, ◌∙◌, ◌==◌, true, bit_or, arith,
}
use tiny_riscv_os.Result.{ok}
use tiny_riscv_os.Buddy.{word}
use tiny_riscv_os.Virtio.{
  Shared, Device, device_driver_ok, virtio_blk_sector_size, virtio_blk_cmd, poll,
}
use tiny_riscv_os.Virtio.Command.{
  served, iterate, Serves, IsReady, cmd_slots, virtio_blk_cmd-running, virtio_blk_cmd-IsConfigured,
  virtio_blk_cmd-IsWaiting,
}

poll-iterate :
    (n fuel : ℕ) (d : Device) (s : Shared) (o : ℕ)
    → n < fuel
    → ((i : ℕ) → i < n → (iterate i d.step s).ring.used_idx ≡ o)
    → (iterate n d.step s).ring.used_idx ≢ o
    → poll fuel d s o ≡ ok (iterate n d.step s)
unfolding poll
poll-iterate n zero d s o l b e = absurd (omega arith)
poll-iterate zero (suc fuel) d s o l b e = ground (arith, e)
poll-iterate (suc n) (suc fuel) d s o l b e =
    let rest =
      poll-iterate n fuel d (d.step s) o (omega arith) (λ i h. b (suc i) (omega arith)) e in
    let waits : s.ring.used_idx ≡ o = b 0 (omega arith) in
    let test : (s.ring.used_idx == o) ≡ true = ground (arith, waits) in rw (test, rest) refl

-- A request of a ready driver is served within some number of rounds, and leaves it ready.
module _ (d : Device) (promise : Serves d) (s : Shared) (type sector buf : ℕ) (ready : IsReady s)
    (known : type ≤ 1) (small : sector < 2 ^ 32) (held : sector < d.capacity)
    (fits : buf + virtio_blk_sector_size ≤ word) where
  pub poll-served :
      (fuel : ℕ)
      → promise.steps (virtio_blk_cmd d s type sector buf) type sector buf < fuel
      → poll fuel d (virtio_blk_cmd d s type sector buf) s.ring.used_idx
        ≡ ok (served (virtio_blk_cmd d s type sector buf) type sector buf)
  unfolding virtio_blk_cmd
  poll-served fuel l =
      let c = virtio_blk_cmd d s type sector buf in
      let n = promise.steps c type sector buf in
      let waiting = virtio_blk_cmd-IsWaiting d promise s type sector buf ready known small in
      let end = promise.done c type sector buf known held fits waiting in
      let counted : (iterate n d.step c).ring.used_idx ≡ (s.ring.used_idx + 1) % 2 ^ 16 =
        ap (λ (q : Shared). q.ring.used_idx) end in
      poll-iterate n fuel d c s.ring.used_idx l
        (promise.busy c type sector buf known held fits waiting)
        (λ e. omega (arith, e, counted, ready.idle.small))
      ∙ ap (λ (q : Shared). ok q) end

  pub served-IsReady : IsReady (served (virtio_blk_cmd d s type sector buf) type sector buf)
  unfolding virtio_blk_cmd
  served-IsReady = record {
    idle = record {
      small = omega arith;
      none_waits = omega (arith, ready.idle.none_waits);
      slots = cmd_slots d s type sector buf ready;
    };
    configured =
        let c = virtio_blk_cmd-IsConfigured d promise s type sector buf ready in
        record {
          selected = c.selected;
          size = c.size;
          ready = c.ready;
          desc = c.desc;
          avail = c.avail;
          used = c.used;
          features_low = c.features_low;
          features_high = c.features_high;
        };
    status_bits =
        ap (λ x. bit_or x device_driver_ok)
          (virtio_blk_cmd-running d promise s type sector buf ready)
        ∙ refl;
  }
