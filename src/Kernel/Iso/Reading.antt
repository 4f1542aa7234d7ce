-- ===== src/Kernel/Iso/Reading.antt =====
-- `iso9660_read`: the bytes of a file that arrive, and those that do not.
use hexos.Base.{ℕ, ◌+◌, ◌*◌, ◌/◌, ◌<◌, ◌≤◌, ◌≡◌, ltb, if◌then◌else◌}
use hexos.Libc.Memory.{Memory}
use hexos.Kernel.Iso.Records.{IsoNode, Services}

-- The least multiple of 2048 from `n` on.
abbrev pub whole_blocks : ℕ → ℕ
whole_blocks n = (n + 2047) / 2048 * 2048

-- The number of bytes that `iso9660_read` copies.
abbrev pub read_size : IsoNode → ℕ → ℕ
read_size node size = if ltb node.node_length size then node.node_length else size

module _ (services : Services) where
  open services use {Heap, kalloc, kfree, read_block}

  -- What a block device does for one block: the bytes `disc` of the block come into the buffer, and
  -- nothing else changes.
  pub record ReadsBlocks (disc : ℕ → ℕ → ℕ) : Type 0 where
    pub arrives :
        (dev buffer block k : ℕ) (m : Memory)
        → k < 2048
        → read_block dev buffer 1 block m (buffer + k) ≡ disc block k
    pub behind :
        (dev buffer block k : ℕ) (m : Memory)
        → 2048 ≤ k
        → read_block dev buffer 1 block m (buffer + k) ≡ m (buffer + k)
