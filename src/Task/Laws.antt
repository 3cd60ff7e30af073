-- ===== src/Task/Laws.antt =====
-- The creation of a task, and the switch to the next one.
use evos.Base.{
  get_elem?, some, checked, Option, none, ◌∷◌, [], List, ◌>>=◌, ℕ, ◌<◌, ◌≡◌, ◌≢◌, sym, ap, ◌∙◌, inl,
  inr, true, false, Result, ok, panic, first_part, ok_injective, arith, length, get_or, set,
  get_or-set_self, get_or-set_ne,
}
use evos.Paging.{get_page, Paging}
use evos.Task.Turns.{next_turn}
use evos.Task.{
  Task, Launch, find_next_task, task_switch, copy_to_physical, task_user_stack_bottom, zero_task,
  Tasks, new_task, find_available_task, prepare_memory, task_create,
}
use evos.Task.Table.{is_alive, find_available_task_lem}

module _ {Allocator : Type 0}
    (kmalloc_ap : ℕ → Paging Allocator → Result (ℕ × ℕ × Paging Allocator)) where
  -- When task_create succeeds, with a table of 256 slots, the new pid is the first slot without a
  -- task; that slot then holds a task with this pid and the registers of a new task, every other
  -- slot is what it was, and so is the current task.
  pub task_create_lem :
      (image image_size pid : ℕ) (t t' : Tasks) (s s' : Paging Allocator)
      → length t.tasks ≡ 256
      → task_create kmalloc_ap image image_size (t, s) ≡ ok (pid, t', s')
      → (pid < 256)
        × (is_alive t.tasks pid ≡ false)
        × ((j : ℕ) → j < pid → is_alive t.tasks j ≡ true)
        × ((directory : ℕ) × (get_or t'.tasks pid zero_task ≡ new_task pid directory))
        × ((j : ℕ) → j ≢ pid → get_or t'.tasks j zero_task ≡ get_or t.tasks j zero_task)
        × (t'.current_task ≡ t.current_task)
  unfolding task_create
  task_create_lem image image_size pid t t' s s' size e =
      let (free, found, e1) = first_part (find_available_task t.tasks) _ e in
      let ((directory, s1), prepared, e2) = first_part (prepare_memory kmalloc_ap image s) _ e1 in
      let same : free ≡ pid = cc in
      let made : record t { tasks = set t.tasks free (new_task free directory) } ≡ t' = cc in
      let table : t'.tasks ≡ set t.tasks pid (new_task pid directory) =
        sym (ap (λ (u : Tasks). u.tasks) made)
        ∙ ap (λ i. set t.tasks i (new_task i directory)) same in
      elim (find_available_task_lem t.tasks size) [
        | inl (all, full) ↦ let both : panic ≡ ok free = sym full ∙ found in cc
        | inr (first, at, low, empty, below) ↦
            let here : first ≡ pid = ok_injective (sym at ∙ found) ∙ same in
            let low' : pid < 256 = omega arith in
            (
              low',
              rw (sym here) empty,
              rw (sym here) below,
              (
                directory,
                ap (λ l. get_or l pid zero_task) table
                    ∙ get_or-set_self t.tasks pid (new_task pid directory) zero_task (omega arith),
              ),
              λ j ne.
                  ap (λ l. get_or l j zero_task) table
                  ∙ get_or-set_ne t.tasks pid j (new_task pid directory) zero_task
                      (λ e. ne (sym e)),
              sym (ap (λ (u : Tasks). u.current_task) made),
            )
      ]

module _ {Allocator : Type 0}
    (kmalloc_ap : ℕ → Paging Allocator → Result (ℕ × ℕ × Paging Allocator)) where
  found_at {ℓ} : {A : Type ℓ} (o : Option A) (a : A) → checked o ≡ ok a → o ≡ some a
  found_at none a e = cc
  found_at (some b) a e = ap some (ok_injective e)

  -- When task_switch succeeds, the table has taken the next turn, both interrupt controllers are
  -- told that the interrupt is over, and the processor is given the stack and the instruction
  -- that the task of this turn was saved with.
  pub task_switch_lem :
      (t t' : Tasks) (s s' : Paging Allocator) (launch : Launch) (ports : List (ℕ × ℕ))
      → task_switch kmalloc_ap (t, s) ≡ ok (launch, ports, t', s')
      → (next_turn t ≡ ok t')
        × (ports ≡ (0x20, 0x20) ∷ (0xA0, 0x20) ∷ [])
        × ((task : Task) × (get_elem? t.tasks t'.current_task ≡ some task)
            × (launch.stack ≡ task.saved_state.esp)
            × (launch.instruction ≡ task.saved_state.eip))
  unfolding task_switch next_turn
  task_switch_lem t t' s s' launch ports e =
      let (next_task, found, e1) = first_part (find_next_task t) _ e in
      let (task, there, e2) = first_part (checked (get_elem? t.tasks next_task)) _ e1 in
      let ((page, s1), got, e3) =
        first_part (get_page kmalloc_ap task_user_stack_bottom false task.page_directory s) _ e2 in
      let (ptr, some_page, e4) = first_part (checked page) _ e3 in
      let (s2, copied, e5) = first_part (copy_to_physical _ _ s1) _ e4 in
      let both = ok_injective e5 in
      let turn : record t { current_task = next_task } ≡ t' =
        ap (λ (x : Launch × List (ℕ × ℕ) × Tasks × Paging Allocator). x.2) both in
      let told : (0x20, 0x20) ∷ (0xA0, 0x20) ∷ [] ≡ ports =
        ap (λ (x : Launch × List (ℕ × ℕ) × Tasks × Paging Allocator). x.1) both in
      let same : next_task ≡ t'.current_task = ap (λ (u : Tasks). u.current_task) turn in
      let began : task.saved_state.esp ≡ launch.stack =
        ap (λ (x : Launch × List (ℕ × ℕ) × Tasks × Paging Allocator). x.0.stack) both in
      let goes : task.saved_state.eip ≡ launch.instruction =
        ap (λ (x : Launch × List (ℕ × ℕ) × Tasks × Paging Allocator). x.0.instruction) both in
      (
        ap (λ x. x >>= λ n. ok (record t { current_task = n })) found ∙ ap ok turn,
        sym told,
        (
          task,
          ap (get_elem? t.tasks) (sym same) ∙ found_at (get_elem? t.tasks next_task) task there,
          sym began,
          sym goes,
        ),
      )
