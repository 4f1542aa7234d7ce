-- ===== src/Kernel/Mem/Paging/Fill.antt =====
-- The inner loop of `paging_init`: the entries of one page table.
use hexos.Base.{
  ℕ, zero, suc, ◌+◌, ◌*◌, ◌^◌, ◌<◌, ◌≤◌, ◌≡◌, ◌≢◌, refl, ◌∙◌, arith, ◌==◌, Bool-cases, inl, inr,
  u32, ◌>>◌,
}
use hexos.Kernel.Mem.Pages.{page_addr}
use hexos.Kernel.Mem.Paging.{fill_table, word_at, update, set_address, set_read_write, set_present}

-- An entry that is present and writable and holds page frame `frame`.
abbrev pub entry_of : ℕ → ℕ
entry_of frame = frame * 4096 + 3

pub word_at-page :
    (p i : ℕ) → i < 1024 → page_addr (p + 1) ≤ 2 ^ 32 → word_at (page_addr p + 4 * i) ≡ p * 1024 + i
word_at-page p i lt span = omega arith

-- The entries from `j` on are those of the frames from `1024 * d + j` on, and no other word changes.
pub fill_table-Filled :
    (n j p d : ℕ) (words : ℕ → ℕ)
    → page_addr (p + 1) ≤ 2 ^ 32
    → j + n ≤ 1024
    → d < 1024
    → ((i : ℕ) → j ≤ i → i < 1024 → words (p * 1024 + i) ≡ 0)
    → ((i : ℕ)
        → j ≤ i
        → i < j + n
        → fill_table n (page_addr p) d j words (p * 1024 + i) ≡ entry_of (1024 * d + i))
      × ((k : ℕ)
          → ((i : ℕ) → j ≤ i → i < j + n → k ≢ p * 1024 + i)
          → fill_table n (page_addr p) d j words k ≡ words k)
unfolding fill_table
fill_table-Filled zero j p d words span room small empty =
    (λ i le lt. absurd (omega arith), λ k away. refl)
fill_table-Filled (suc n) j p d words span room small empty =
    let here : word_at (page_addr p + 4 * j) ≡ p * 1024 + j = word_at-page p j (omega arith) span in
    let frame : u32 (4194304 * d + 4096 * j) >> 12 ≡ 1024 * d + j = omega arith in
    let none_set : words (p * 1024 + j) ≡ 0 = empty j (omega arith) (omega arith) in
    let next =
      update (page_addr p + 4 * j)
        (λ e. set_address (u32 (4194304 * d + 4096 * j) >> 12) (set_read_write (set_present e)))
        words in
    let stays : (k : ℕ) → k ≢ p * 1024 + j → next k ≡ words k = λ k ne. rw here (ground arith) in
    let (set_later, kept) =
      fill_table-Filled n (j + 1) p d next span (omega arith) small
        (λ i le lt. stays (p * 1024 + i) (λ e. omega arith) ∙ empty i (omega arith) lt) in
    let set_here : next (p * 1024 + j) ≡ entry_of (1024 * d + j) =
      rw (here, frame, none_set) (ground arith) in
    (
      λ i le lt. elim (Bool-cases (i == j)) [
        | inl this ↦
            let same : i ≡ j = ground arith in
            rw same (kept (p * 1024 + j) (λ l le' lt' e. omega arith) ∙ set_here)
        | inr past ↦ set_later i (ground arith) (omega arith)
      ],
      λ k away.
          kept k (λ i le lt. away i (omega arith) (omega arith))
          ∙ stays k (λ e. away j (omega arith) (omega arith) e),
    )
