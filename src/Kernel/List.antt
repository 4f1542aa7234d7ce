-- ===== src/Kernel/List.antt =====
-- kernel/kernel/list.c and kernel/include/kernel/list.h: doubly linked lists through nodes that lie
-- inside the listed objects. A pointer is its address, and address 0 is the null pointer.
pub mod Seg
pub mod Push
pub mod Pop
pub mod Remove
pub mod Priority
mod Tests
use hexos.Base.{
  ℕ, zero, suc, ◌+◌, ◌-◌, Bool, true, false, Option, none, some, if◌then◌else◌, ◌==◌, ltb,
}
use hexos.Base.Int.{ℤ, pos, ltb_ℤ}

abbrev pub null : ℕ
null = 0

-- `struct list_node`
pub record Node : Type 0 where
  pub next : ℕ
  pub prev : ℕ
  pub list : ℕ
  pub priority : ℤ

-- `struct list`
pub record Ends : Type 0 where
  pub head : ℕ
  pub tail : ℕ

-- The memory that the functions read and write: the nodes and the list heads, by address.
pub record Store : Type 0 where
  pub node : ℕ → Node
  pub ends : ℕ → Ends

-- `*p = f(*p)` at a node and at a list head
abbrev pub on_node : ℕ → (Node → Node) → Store → Store
on_node p f s = record s { node = λ a. if a == p then f (s.node p) else s.node a }

abbrev pub on_ends : ℕ → (Ends → Ends) → Store → Store
on_ends l f s = record s { ends = λ a. if a == l then f (s.ends l) else s.ends a }

abbrev pub set_next : ℕ → ℕ → Store → Store
set_next p q = on_node p (λ n. record n { next = q })

abbrev pub set_prev : ℕ → ℕ → Store → Store
set_prev p q = on_node p (λ n. record n { prev = q })

abbrev pub set_list : ℕ → ℕ → Store → Store
set_list p l = on_node p (λ n. record n { list = l })

abbrev pub set_head : ℕ → ℕ → Store → Store
set_head l p = on_ends l (λ e. record e { head = p })

abbrev pub set_tail : ℕ → ℕ → Store → Store
set_tail l p = on_ends l (λ e. record e { tail = p })

-- `if (p) f(s)`
abbrev pub unless_null : ℕ → (Store → Store) → Store → Store
unless_null p f s = if p == null then s else f s

abbrev pub when_null : ℕ → (Store → Store) → Store → Store
when_null p f s = if p == null then f s else s

unfoldable pub push_head : ℕ → ℕ → Store → Store
push_head list node s =
    let head = (s.ends list).head in
    let s1 = on_node node (λ n. record n { next = head; prev = null; priority = pos 0 }) s in
    let s2 = unless_null head (set_prev head node) s1 in
    let s3 = set_head list node s2 in
    let s4 = when_null (s3.ends list).tail (set_tail list node) s3 in set_list node list s4

unfoldable pub push_tail : ℕ → ℕ → Store → Store
push_tail list node s =
    let tail = (s.ends list).tail in
    let s1 = on_node node (λ n. record n { prev = tail; next = null; priority = pos 0 }) s in
    let s2 = unless_null tail (set_next tail node) s1 in
    let s3 = set_tail list node s2 in
    let s4 = when_null (s3.ends list).head (set_head list node) s3 in set_list node list s4

-- The body of the loop's `if`: `node` goes in front of `n`.
unfoldable pub insert_before : ℕ → ℕ → ℤ → ℕ → Store → Store
insert_before list node pri n s =
    let before = (s.node n).prev in
    let s1 = on_node node (λ m. record m { next = n; prev = before; priority = pri }) s in
    let before' = (s1.node n).prev in
    let s2 = if before' == null then set_head list node s1 else set_next before' node s1 in
    set_list node list (set_prev n node s2)

-- `pri > n->priority || i > 5000`
abbrev pub goes_before : ℤ → Node → ℕ → Bool
goes_before pri n i = if ltb_ℤ n.priority pri then true else ltb 5000 i

-- The `for` loop, on fuel: it ends at the null pointer with `list_push_tail`.
unfoldable pub push_priority_loop : ℕ → ℕ → ℕ → ℤ → ℕ → ℕ → Store → Option Store
push_priority_loop zero list node pri n i s = none
push_priority_loop (suc fuel) list node pri n i s =
    let rest = push_priority_loop fuel list node pri (s.node n).next (i + 1) s in
    if n == null
    then some (push_tail list node s)
    else if goes_before pri (s.node n) i
    then some (insert_before list node pri n s)
    else rest

unfoldable pub push_priority : ℕ → ℕ → ℕ → ℤ → Store → Option Store
push_priority fuel list node pri s =
    let head = (s.ends list).head in
    let searched = push_priority_loop fuel list node pri head 0 s in
    if head == null then some (push_head list node s) else searched

-- `result->next = result->prev = 0; result->list = 0;`
abbrev pub detach : ℕ → Store → Store
detach p = on_node p (λ n. record n { next = null; prev = null; list = null })

unfoldable pub pop_head : ℕ → Store → ℕ × Store
pop_head list s =
    let result = (s.ends list).head in
    let head = (s.node result).next in
    let s1 = set_head list head s in
    let s2 = unless_null head (set_prev head null) s1 in
    let s3 = when_null head (set_tail list null) s2 in
    if result == null then (result, s) else (result, detach result s3)

unfoldable pub pop_tail : ℕ → Store → ℕ × Store
pop_tail list s =
    let result = (s.ends list).tail in
    let tail = (s.node result).prev in
    let s1 = set_tail list tail s in
    let s2 = unless_null tail (set_next tail null) s1 in
    let s3 = when_null tail (set_head list null) s2 in
    if result == null then (result, s) else (result, detach result s3)

-- `none` is a write through a null pointer.
unfoldable pub unlink : ℕ → Store → Option Store
unlink node s =
    let s1 = set_prev (s.node node).next (s.node node).prev s in
    let s2 = set_next (s1.node node).prev (s1.node node).next s1 in
    if (s.node node).next == null
    then none
    else if (s1.node node).prev == null
    then none
    else some (detach node s2)

unfoldable pub remove : ℕ → Store → Option Store
remove node s =
    let l = (s.node node).list in
    if l == null
    then some s
    else if (s.ends l).head == node
    then some (pop_head l s).1
    else if (s.ends l).tail == node
    then some (pop_tail l s).1
    else unlink node s
