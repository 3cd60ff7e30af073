-- ===== src/Task/Turns.antt =====
-- Every task gets its turn.
use evos.Base.{
  ℕ, zero, suc, ◌+◌, ◌-◌, ◌%◌, ◌≤◌, ◌<◌, ◌≡◌, ◌≢◌, refl, sym, ap, ◌∙◌, inl, inr, true, false, List,
  Result, ok, ◌>>=◌, arith, length, u32, ℕ_discrete, dec_lt,
}
use evos.Task.{Task, Tasks, find_next_task}
use evos.Task.Table.{is_alive, round_from, find_next_task_lem}

-- What `task_switch` does to the table: the next task becomes the current one.
unfoldable pub next_turn : Tasks → Result Tasks
next_turn t = find_next_task t >>= λ next_task. ok (record t { current_task = next_task })

unfoldable pub turns : ℕ → Tasks → Result Tasks
turns zero t = ok t
turns (suc n) t = next_turn t >>= turns n

next_turn-ok :
    (t : Tasks) (pid : ℕ)
    → find_next_task t ≡ ok pid
    → next_turn t ≡ ok (record t { current_task = pid })
unfolding next_turn
next_turn-ok t pid e = rw e refl

-- The first of the slots from `start` is at most as far as a task.
nearest :
    (tasks : List Task) (start d distance p : ℕ)
    → ((e : ℕ) → e < d → is_alive tasks (round_from start e) ≡ false)
    → round_from start distance ≡ p
    → is_alive tasks p ≡ true
    → d ≤ distance
nearest tasks start d distance p between at alive = elim (dec_lt distance d) [
  | yes nearer ↦
      let dead = between distance nearer in
      let here : is_alive tasks (round_from start distance) ≡ true =
        ap (is_alive tasks) at ∙ alive in
      cc
  | no further ↦ omega arith
]

-- The task `p` becomes the current one within `n` turns.
abbrev pub IsReached : Tasks → ℕ → ℕ → Type 0
IsReached t p n = (t' : Tasks) × (turns n t ≡ ok t') × (t'.current_task ≡ p) × (t'.tasks ≡ t.tasks)

one_more :
    (t : Tasks) (pid p n : ℕ)
    → find_next_task t ≡ ok pid
    → IsReached (record t { current_task = pid }) p n
    → IsReached t p (suc n)
unfolding turns
one_more t pid p n e (t', run, at, same) = (t', rw (next_turn-ok t pid e) run, at, same)

another : (tasks : List Task) (i j : ℕ) → is_alive tasks i ≡ true → is_alive tasks j ≡ false → i ≢ j
another tasks i j alive dead same =
    let here : is_alive tasks j ≡ true = ap (is_alive tasks) (sym same) ∙ alive in cc

reached :
    (limit distance p : ℕ) (t : Tasks)
    → length t.tasks ≡ 256
    → is_alive t.tasks 255 ≡ false
    → is_alive t.tasks p ≡ true
    → u32 (t.current_task + 1) < 256
    → round_from (u32 (t.current_task + 1)) distance ≡ p
    → distance < limit
    → distance < 256
    → (n : ℕ) × (0 < n) × (n ≤ suc distance) × IsReached t p n
unfolding turns
reached zero distance p t size spare alive small at enough near = absurd (omega arith)
reached (suc limit) distance p t size spare alive small at enough near =
    elim (find_next_task_lem t size) [
      | inl (past, e) ↦ absurd (omega arith)
      | inr (inl (dead, e)) ↦ let gone = dead p (omega arith) in cc
      | inr (inr (pid, e, (d, close, here, lives, between))) ↦
          let start = u32 (t.current_task + 1) in
          let closest = nearest t.tasks start d distance p between at alive in
          let next = record t { current_task = pid } in
          elim (ℕ_discrete d distance) [
            | yes same ↦
                (1, omega arith, omega arith, one_more t pid p 0 e (next, refl, omega arith, refl))
            | no before ↦
                let not_last = another t.tasks pid 255 lives spare in
                let (n, some_turn, few, rest) =
                  reached limit (distance - d - 1) p next size spare alive (omega arith)
                    (omega arith) (omega arith) (omega arith) in
                (suc n, omega arith, omega arith, one_more t pid p n e rest)
          ]
    ]

-- In a table of 256 slots whose last one is free, with the slot behind the current task in the
-- table: every task becomes the current one after at least one and at most 256 turns, none of
-- which faults, and the table stays as it is.
pub round_robin :
    (t : Tasks) (p : ℕ)
    → length t.tasks ≡ 256
    → is_alive t.tasks 255 ≡ false
    → u32 (t.current_task + 1) < 256
    → p < 256
    → is_alive t.tasks p ≡ true
    → (n : ℕ) × (0 < n) × (n ≤ 256) × IsReached t p n
round_robin t p size spare small low alive =
    let start = u32 (t.current_task + 1) in
    let distance = (p + 256 - start) % 256 in
    let (n, some_turn, few, rest) =
      reached 256 distance p t size spare alive small (omega arith) (omega arith) (omega arith) in
    (n, some_turn, omega arith, rest)
