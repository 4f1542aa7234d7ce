-- ===== src/Kernel/List/Tests.antt =====
-- The list functions on a memory with two lists: 10, 20 and 30 at address 1, 40 at address 2.
use hexos.Base.{ℕ, ◌≡◌, refl, some, List, [], ◌∷◌, arith, ◌==◌, if◌then◌else◌}
use hexos.Base.Int.{pos}
use hexos.Kernel.List.{Node, Ends, Store, push_priority, remove}
use hexos.Kernel.List.Seg.{Linked, nil, cons, IsList}
use hexos.Kernel.List.Pop.{Taken}
use hexos.Kernel.List.Remove.{remove-Taken}
use hexos.Kernel.List.Priority.{place, push_priority-place}

abbrev entry : ℕ → ℕ → ℕ → ℕ → Node
entry next prev list pri = record { next = next; prev = prev; list = list; priority = pos pri }

abbrev nodes : ℕ → Node
nodes a =
    if a == 10
    then entry 20 0 1 7
    else if a == 20
    then entry 30 10 1 5
    else if a == 30
    then entry 0 20 1 5
    else if a == 40
    then entry 0 0 2 0
    else entry 0 0 0 0

abbrev heads : ℕ → Ends
heads l =
    if l == 1
    then record { head = 10; tail = 30 }
    else if l == 2
    then record { head = 40; tail = 40 }
    else record { head = 0; tail = 0 }

abbrev memory : Store
memory = record { node = nodes; ends = heads }

abbrev three : List ℕ
three = 10 ∷ 20 ∷ 30 ∷ []

node_10 : Linked memory 1 0 10 20
node_10 = record { ne_null = omega arith; prev_eq = refl; list_eq = refl; next_eq = refl }

node_20 : Linked memory 1 10 20 30
node_20 = record { ne_null = omega arith; prev_eq = refl; list_eq = refl; next_eq = refl }

node_30 : Linked memory 1 20 30 0
node_30 = record { ne_null = omega arith; prev_eq = refl; list_eq = refl; next_eq = refl }

node_40 : Linked memory 2 0 40 0
node_40 = record { ne_null = omega arith; prev_eq = refl; list_eq = refl; next_eq = refl }

three-IsList : IsList memory 1 three
three-IsList = record {
  links = cons node_10 (cons node_20 (cons node_30 nil));
  distinct = (refl, (refl, (refl, tt)));
}

one-IsList : IsList memory 2 (40 ∷ [])
one-IsList = record { links = cons node_40 nil; distinct = (refl, tt) }

remove-Taken_example : (t : Store) × (remove 20 memory ≡ some t) × Taken 1 20 (10 ∷ 30 ∷ []) t
remove-Taken_example = remove-Taken 1 20 (10 ∷ []) (30 ∷ []) (omega arith) three-IsList

push_priority-place_example :
    (t : Store) × (push_priority 4 1 50 (pos 6) memory ≡ some t)
    × IsList t 1 (10 ∷ 50 ∷ 20 ∷ 30 ∷ [])
unfolding place
push_priority-place_example =
    push_priority-place 4 1 50 (pos 6) (omega arith) three-IsList refl (omega arith)
