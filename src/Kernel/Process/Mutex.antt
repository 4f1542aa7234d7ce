-- ===== src/Kernel/Process/Mutex.antt =====
-- kernel/kernel/mutex.c: a lock whose waiting processes sleep in a list.
use hexos.Base.{
  ℕ, ◌≡◌, refl, Bool, true, false, List, [], ◌∷◌, ◌++◌, if◌then◌else◌, if-cases, ap, sym,
}
use hexos.Kernel.Process.{Sched, Switch, wait, wakeup}
use hexos.Kernel.Process.Wakeup.{Queues, MarkedReady, wakeup-Queues}

pub record Mutex : Type 0 where
  pub locked : Bool
  pub waitqueue : ℕ

-- What a round of `mutex_lock`'s loop comes to: the lock is taken, or the process waits, and goes
-- through the loop again once it is switched to.
pub data Lock : Type 0 where
  taken : Mutex → Sched → Lock
  blocked : Mutex → Switch → Lock

unfoldable pub lock : List (Sched → Sched) → Mutex → Sched → Lock
lock handlers m s =
    let off = record s { interrupts = false } in
    if m.locked
    then blocked m (wait m.waitqueue handlers off)
    else taken (record m { locked = true }) (record off { interrupts = true })

unfoldable pub unlock : Mutex → Sched → Mutex × Sched
unlock m s =
    let woken = wakeup m.waitqueue (record s { interrupts = false }) in
    (record m { locked = false }, record woken { interrupts = true })

-- While a mutex is locked no process takes it; `mutex_unlock` gets the process that has waited longest
-- ready, marks no other, and the next process that runs `mutex_lock` takes the mutex.
pub unlock-hands_over :
    (m : Mutex) (s : Sched) (y : ℕ) (xs ys : List ℕ) (handlers : List (Sched → Sched))
    → m.locked ≡ true
    → Queues s m.waitqueue xs (y ∷ ys)
    → (lock handlers m s ≡ blocked m (wait m.waitqueue handlers (record s { interrupts = false })))
      × Queues (unlock m s).1 m.waitqueue (xs ++ y ∷ []) ys
      × MarkedReady (y ∷ []) s (unlock m s).1
      × ((t : Sched) → lock handlers (unlock m s).0 t ≡ taken m (record t { interrupts = true }))
unfolding lock unlock
unlock-hands_over m s y xs ys handlers locked v =
    let off : Queues (record s { interrupts = false }) m.waitqueue xs (y ∷ ys) = record {
      ready_list = v.ready_list;
      wait_list = v.wait_list;
      ne_ready = v.ne_ready;
      apart = v.apart;
    } in
    let (q, states) = wakeup-Queues (record s { interrupts = false }) m.waitqueue y xs ys off in
    (
      if-cases (λ r. r ≡ blocked m (wait m.waitqueue handlers (record s { interrupts = false })))
          m.locked (λ yes_locked. refl) (λ free. cc),
      record {
        ready_list = q.ready_list;
        wait_list = q.wait_list;
        ne_ready = q.ne_ready;
        apart = q.apart;
      },
      states,
      λ t. ap (λ l. taken (record m { locked = l }) (record t { interrupts = true })) (sym locked),
    )
