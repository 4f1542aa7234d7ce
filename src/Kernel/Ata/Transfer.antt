-- ===== src/Kernel/Ata/Transfer.antt =====
-- What the data port gives comes into memory, a word after the other.
use hexos.Base.{
  within, ℕ, zero, suc, ◌+◌, ◌*◌, ◌/◌, ◌%◌, ◌^◌, ◌<◌, ◌≡◌, refl, ap, ◌∙◌, arith, false,
}
use native.Mathlib.Nat.{add-zero, zero-add}
use hexos.Libc.Memory.{Memory, store}
use hexos.Kernel.Ata.Driver.{Machine, Kernel, data_port, read_words}

module _ (machine : Machine) where
  -- The devices after `n` words have been read from the unit `id`, and the word that comes then.
  abbrev pub drained : ℕ → ℕ → machine.ports.Dev → machine.ports.Dev
  drained zero id d = d
  drained (suc n) id d = drained n id (machine.inw (data_port id) d).1

  abbrev pub word_after : ℕ → ℕ → machine.ports.Dev → ℕ
  word_after n id d = (machine.inw (data_port id) (drained n id d)).0

  -- The words stand in memory from `buffer` on, the low byte first, and nothing else differs.
  pub record Transferred (n id buffer : ℕ) (d : machine.ports.Dev) (m m' : Memory) : Type 0 where
    pub low : (k : ℕ) → k < n → m' (buffer + 2 * k) ≡ word_after k id d % 2 ^ 8
    pub high : (k : ℕ) → k < n → m' (buffer + 2 * k + 1) ≡ word_after k id d / 2 ^ 8 % 2 ^ 8
    pub frame : (x : ℕ) → within buffer (2 * n) x ≡ false → m' x ≡ m x

  -- The memory with one word stored.
  abbrev stored : ℕ → ℕ → Memory → Memory
  stored buffer word m = store (buffer + 1) (word / 2 ^ 8 % 2 ^ 8) (store buffer (word % 2 ^ 8) m)

  module _ (n id buffer : ℕ) (d : machine.ports.Dev) (m m' : Memory) where
    abbrev OneOn : Type 0
    OneOn =
        Transferred n id (buffer + 2) (machine.inw (data_port id) d).1
          (stored buffer (word_after 0 id d) m) m'

    low_of : OneOn → (k : ℕ) → k < suc n → m' (buffer + 2 * k) ≡ word_after k id d % 2 ^ 8
    low_of t zero lt = ap m' (omega arith) ∙ t.frame buffer (ground arith) ∙ ground arith
    low_of t (suc k) lt = ap m' (omega arith) ∙ t.low k (omega arith)

    high_of :
        OneOn → (k : ℕ) → k < suc n → m' (buffer + 2 * k + 1) ≡ word_after k id d / 2 ^ 8 % 2 ^ 8
    high_of t zero lt = ap m' (omega arith) ∙ t.frame (buffer + 1) (ground arith) ∙ ground arith
    high_of t (suc k) lt = ap m' (omega arith) ∙ t.high k (omega arith)

  pub read_words-Transferred :
      (n id buffer : ℕ) (w : Kernel machine)
      → (m : Memory) × (read_words machine n id buffer w
          ≡ record w { dev = drained n id w.dev; memory = m })
        × Transferred n id buffer w.dev w.memory m
  unfolding read_words
  read_words-Transferred zero id buffer w = (
    w.memory,
    refl,
    record {
      low = λ k lt. absurd (omega arith);
      high = λ k lt. absurd (omega arith);
      frame = λ x out. refl;
    },
  )
  read_words-Transferred (suc n) id buffer w =
      let d = (machine.inw (data_port id) w.dev).1 in
      let m1 = stored buffer (word_after 0 id w.dev) w.memory in
      let (m, ran, t) =
        read_words-Transferred n id (buffer + 2) (record w { dev = d; memory = m1 }) in
      (
        m,
        ran,
        record {
          low = low_of n id buffer w.dev w.memory m t;
          high = high_of n id buffer w.dev w.memory m t;
          frame = λ x out. t.frame x (ground arith) ∙ ground arith;
        },
      )

  -- Reading goes on where it stopped.
  pub read_words-add :
      (a b id buffer : ℕ) (w : Kernel machine)
      → read_words machine b id (buffer + 2 * a) (read_words machine a id buffer w)
        ≡ read_words machine (a + b) id buffer w
  unfolding read_words
  read_words-add zero b id buffer w = rw (zero-add, add-zero) refl
  read_words-add (suc a) b id buffer w =
      let next : buffer + 2 * suc a ≡ buffer + 2 + 2 * a = omega arith in
      let count : suc a + b ≡ suc (a + b) = omega arith in
      rw (next, count) (read_words-add a b id (buffer + 2) _)
