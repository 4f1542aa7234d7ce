-- ===== src/Libc/Number/Reverse.antt =====
-- `reverse` reverses the first characters of a string.
use hexos.Base.{
  put, ℕ, zero, suc, ◌+◌, ◌-◌, ◌<◌, ◌≤◌, ◌≡◌, refl, ap, ◌∙◌, arith, true, ◌&&◌, if◌then◌else◌,
  if-cases, Bool-cases, inl, inr, ◌⊎◌, ltb, leb,
}
use hexos.Libc.Number.{Text, reverse_loop, reverse}

mirror :
    (start end i : ℕ) (str : Text)
    → end ≤ start
    → str i ≡ (if leb start i && leb i end then str (start + end - i) else str i)
mirror start end i str h =
    if-cases (λ (x : ℕ). str i ≡ x) (leb start i && leb i end) (λ inside. ap str (ground arith))
      (λ outside. refl)

reverse_loop-lem :
    (n start end : ℕ) (str : Text) (i : ℕ)
    → end ≤ start + n
    → reverse_loop n start end str i
      ≡ (if leb start i && leb i end then str (start + end - i) else str i)
unfolding reverse_loop
reverse_loop-lem zero start end str i h = mirror start end i str (omega arith)
reverse_loop-lem (suc n) start end str i h = elim (Bool-cases (ltb start end)) [
  | inl more ↦
      let lt : start < end = ground arith in
      rw more (
        reverse_loop-lem n (start + 1) (end - 1) swapped i (omega arith)
        ∙ if-cases
            (λ (x : ℕ). x ≡ (if leb start i && leb i end then str (start + end - i) else str i))
            (leb (start + 1) i && leb i (end - 1))
            (λ inner.
              let all : (leb start i && leb i end) ≡ true = ground arith in
              let same : start + 1 + (end - 1) - i ≡ start + end - i = omega arith in
              rw (all, same) (ground arith))
            (λ outer.
              if-cases (λ (x : ℕ). swapped i ≡ x) (leb start i && leb i end)
                (λ edge. at_edge lt (ground arith)) (λ out. ground arith)))
  | inr done ↦ rw done (mirror start end i str (ground arith))
]
  where
    swapped : Text
    swapped = put end (str start) (put start (str end) str)

    at_edge : start < end → (i ≡ start) ⊎ (i ≡ end) → swapped i ≡ str (start + end - i)
    at_edge lt (inl first) =
        let place : start + end - i ≡ end = omega arith in rw place (ground arith)
    at_edge lt (inr last) =
        let place : start + end - i ≡ start = omega arith in rw place (ground arith)

-- `reverse` mirrors the first `length` characters, and leaves the others as they were.
pub reverse_lem :
    (length : ℕ) (str : Text) (i : ℕ)
    → reverse length str i ≡ (if ltb i length then str (length - 1 - i) else str i)
unfolding reverse
reverse_lem length str i =
    reverse_loop-lem length 0 (length - 1) str i (omega arith)
    ∙ if-cases
        (λ (x : ℕ).
          (if leb 0 i && leb i (length - 1) then str (0 + (length - 1) - i) else str i) ≡ x)
        (ltb i length)
        (λ inside.
          let all : (leb 0 i && leb i (length - 1)) ≡ true = ground arith in
          rw all (ap str (omega arith)))
        (λ outside.
          if-cases (λ (x : ℕ). x ≡ str i) (leb 0 i && leb i (length - 1))
            (λ both. ap str (ground arith)) (λ other. refl))
