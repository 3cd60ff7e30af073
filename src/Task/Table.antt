-- ===== src/Task/Table.antt =====
-- The two searches in the table of tasks.
use evos.Base.{
  ℕ, zero, suc, ◌+◌, ◌-◌, ◌%◌, ◌≤◌, ◌<◌, ◌≡◌, refl, sym, ◌⊎◌, inl, inr, Bool, true, false, List, ok,
  panic, fault, if◌then◌else◌, arith, Bool-cases, get_or, length, get_elem?-eq-get_or,
  get_elem?_past, u32, minus_one, ℕ_discrete, dec_lt,
}
use evos.Task.{
  Task, zero_task, Tasks, find_available_from, find_available_task, find_next_from, find_next_task,
}

-- Whether the slot `i` of the table holds a task.
abbrev pub is_alive : List Task → ℕ → Bool
is_alive tasks i = (get_or tasks i zero_task).alive

-- `d` slots further round the table.
abbrev pub round_from : ℕ → ℕ → ℕ
round_from start d = (start + d) % 256

find_available_step :
    (tasks : List Task) (rounds i : ℕ)
    → i < length tasks
    → find_available_from tasks (suc rounds) i
      ≡ (if is_alive tasks i then find_available_from tasks rounds (i + 1) else ok i)
unfolding find_available_from
find_available_step tasks rounds i inside =
    rw (get_elem?-eq-get_or tasks i zero_task inside)
      (elim (Bool-cases (is_alive tasks i)) [ inl e ↦ rw e refl | inr e ↦ rw e refl ])

find_available_from_lem :
    (tasks : List Task) (rounds i : ℕ)
    → length tasks ≡ 256
    → i + rounds ≡ 256
    → ((j : ℕ) → j < i → is_alive tasks j ≡ true)
    → (((j : ℕ) → j < 256 → is_alive tasks j ≡ true) × (find_available_from tasks rounds i ≡ panic))
      ⊎ ((pid : ℕ) × (find_available_from tasks rounds i ≡ ok pid)
          × (pid < 256)
          × (is_alive tasks pid ≡ false)
          × ((j : ℕ) → j < pid → is_alive tasks j ≡ true))
unfolding find_available_from
find_available_from_lem tasks zero i size e below = inl (λ j h. below j (omega arith), refl)
find_available_from_lem tasks (suc rounds) i size e below =
    let step = find_available_step tasks rounds i (omega arith) in
    elim (Bool-cases (is_alive tasks i)) [
      | inl used ↦
          rw (step, used)
            (find_available_from_lem tasks rounds (i + 1) size (omega arith) (λ j h.
              elim (ℕ_discrete j i) [ yes same ↦ rw same used | no other ↦ below j (omega arith) ]))
      | inr free ↦ rw (step, free) (inr (i, refl, omega arith, free, below))
    ]

-- In a table of 256 slots, find_available_task returns the first slot without a task, and panics
-- when there is none.
pub find_available_task_lem :
    (tasks : List Task)
    → length tasks ≡ 256
    → (((j : ℕ) → j < 256 → is_alive tasks j ≡ true) × (find_available_task tasks ≡ panic))
      ⊎ ((pid : ℕ) × (find_available_task tasks ≡ ok pid)
          × (pid < 256)
          × (is_alive tasks pid ≡ false)
          × ((j : ℕ) → j < pid → is_alive tasks j ≡ true))
unfolding find_available_task
find_available_task_lem tasks size =
    find_available_from_lem tasks 256 0 size (omega arith) (λ j h. absurd (omega arith))

find_next_step :
    (tasks : List Task) (rounds next : ℕ)
    → next < length tasks
    → next < 256
    → find_next_from tasks (suc rounds) next
      ≡ (if is_alive tasks next then ok next else find_next_from tasks rounds (round_from next 1))
unfolding find_next_from
find_next_step tasks rounds next inside small =
    let exact : u32 (next + 1) % 256 ≡ round_from next 1 = omega arith in
    rw (get_elem?-eq-get_or tasks next zero_task inside, exact)
      (elim (Bool-cases (is_alive tasks next)) [ inl e ↦ rw e refl | inr e ↦ rw e refl ])

-- The first task, from `start` on round the table, within `rounds` slots.
abbrev pub IsNext : List Task → ℕ → ℕ → ℕ → Type 0
IsNext tasks rounds start pid =
    (d : ℕ) × (d < rounds)
    × (pid ≡ round_from start d)
    × (is_alive tasks pid ≡ true)
    × ((e : ℕ) → e < d → is_alive tasks (round_from start e) ≡ false)

dead_from :
    (tasks : List Task) (n start : ℕ)
    → start < 256
    → is_alive tasks start ≡ false
    → ((d : ℕ) → d < n → is_alive tasks (round_from (round_from start 1) d) ≡ false)
    → (d : ℕ) → d < n + 1
    → is_alive tasks (round_from start d) ≡ false
dead_from tasks n start small dead later zero h =
    let same : round_from start 0 ≡ start = omega arith in rw same dead
dead_from tasks n start small dead later (suc d) h =
    let same : round_from start (suc d) ≡ round_from (round_from start 1) d = omega arith in
    rw same (later d (omega arith))

find_next_from_lem :
    (tasks : List Task) (rounds start : ℕ)
    → length tasks ≡ 256
    → start < 256
    → (((d : ℕ) → d < rounds → is_alive tasks (round_from start d) ≡ false)
        × (find_next_from tasks rounds start ≡ ok minus_one))
      ⊎ ((pid : ℕ) × (find_next_from tasks rounds start ≡ ok pid) × IsNext tasks rounds start pid)
unfolding find_next_from
find_next_from_lem tasks zero start size small = inl (λ d h. absurd (omega arith), refl)
find_next_from_lem tasks (suc rounds) start size small =
    let step = find_next_step tasks rounds start (omega arith) small in
    elim (Bool-cases (is_alive tasks start)) [
      | inl here ↦
          rw (step, here)
            (inr (start, refl, (0, omega arith, omega arith, here, λ e h. absurd (omega arith))))
      | inr dead ↦
          rw (step, dead)
            (elim (find_next_from_lem tasks rounds (round_from start 1) size (omega arith)) [
              | inl (none_left, e) ↦
                  inl
                    ((λ k h. dead_from tasks rounds start small dead none_left k (omega arith)), e)
              | inr (pid, e, (d, near, at, alive, between)) ↦ inr (
                pid,
                e,
                (
                  d + 1,
                  omega arith,
                  omega arith,
                  alive,
                  dead_from tasks d start small dead between,
                ),
              )
            ])
    ]

anywhere :
    (tasks : List Task) (start : ℕ)
    → start < 256
    → ((d : ℕ) → d < 256 → is_alive tasks (round_from start d) ≡ false)
    → (d : ℕ) → d < 256
    → is_alive tasks d ≡ false
anywhere tasks start small dead d h =
    let same : round_from start ((d + 256 - start) % 256) ≡ d = omega arith in
    rw (sym same) (dead ((d + 256 - start) % 256) (omega arith))

-- In a table of 256 slots: when the slot behind the current one is past the table's end,
-- find_next_task reads behind the table. Otherwise it returns the first slot with a task, from
-- that slot on round the table, or -1 when there is no task at all.
pub find_next_task_lem :
    (t : Tasks)
    → length t.tasks ≡ 256
    → ((256 ≤ u32 (t.current_task + 1)) × (find_next_task t ≡ fault))
      ⊎ (((d : ℕ) → d < 256 → is_alive t.tasks d ≡ false) × (find_next_task t ≡ ok minus_one))
      ⊎ ((pid : ℕ) × (find_next_task t ≡ ok pid)
          × IsNext t.tasks 256 (u32 (t.current_task + 1)) pid)
unfolding find_next_task find_next_from
find_next_task_lem t size = elim (dec_lt (u32 (t.current_task + 1)) 256) [
  | yes small ↦ elim (find_next_from_lem t.tasks 256 (u32 (t.current_task + 1)) size small) [
    | inl (dead, e) ↦
        inr (inl ((λ d h. anywhere t.tasks (u32 (t.current_task + 1)) small dead d h), e))
    | inr found ↦ inr (inr found)
  ]
  | no past ↦
      inl (omega arith, rw (get_elem?_past t.tasks (u32 (t.current_task + 1)) (omega arith)) refl)
]
