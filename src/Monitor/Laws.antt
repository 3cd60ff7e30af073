-- ===== src/Monitor/Laws.antt =====
-- The cursor, the words that a character changes, and the whole screen after a scroll.
use evos.Base.{
  ℕ, ◌+◌, ◌-◌, ◌*◌, ◌/◌, ◌≤◌, ◌<◌, ◌≡◌, refl, ◌∙◌, inl, inr, List, [], ◌∷◌, ◌++◌, ok, first_part,
  arith, ◌==◌, length, set, length-set, u16, sub32, Bool, if◌then◌else◌, Bool-cases,
}
use evos.Monitor.{
  Monitor, fb_word, grey_on_black, move_cursor, copy_up, scroll, put_word, put_value, next_line,
  put_with, put, write, write_with, write_status, fb_attr,
}
use evos.Monitor.Scroll.{length-copy_up, length-fill_blank}

-- The cursor is on the screen, and the screen has 25 lines of 80 words.
unfoldable pub IsValid : Monitor → Type 0
IsValid m = (length m.video_buffer ≡ 2000) × (m.cur_x < 80) × (m.cur_y < 25)

-- Between the character and the new line: the cursor is at most one step past a line's end, or at the
-- start of the line below the screen.
abbrev pub IsMoved : Monitor → Type 0
IsMoved m =
    (length m.video_buffer ≡ 2000) × (m.cur_x ≤ 80) × (m.cur_y ≤ 25) × (m.cur_y ≡ 25 → m.cur_x < 80)

-- After the new line: the cursor may be below the screen.
abbrev pub IsWrapped : Monitor → Type 0
IsWrapped m = (length m.video_buffer ≡ 2000) × (m.cur_x < 80) × (m.cur_y ≤ 25)

put_word-IsMoved :
    (m : Monitor) (word : ℕ)
    → IsValid m
    → (next : Monitor) × (put_word m word ≡ ok next) × IsMoved next
unfolding put_word IsValid
put_word-IsMoved m word (size, column, line) = (
  record m {
    video_buffer = set m.video_buffer (m.cur_y * 80 + m.cur_x) word;
    cur_x = u16 (m.cur_x + 1);
  },
  ground arith,
  (
    length-set m.video_buffer (m.cur_y * 80 + m.cur_x) word ∙ size,
    omega arith,
    omega arith,
    λ e. absurd (omega arith),
  ),
)

put_value-IsMoved :
    (m : Monitor) (value attributes : ℕ)
    → IsValid m
    → (next : Monitor) × (put_value m value attributes ≡ ok next) × IsMoved next
unfolding put_value IsValid
put_value-IsMoved m value attributes (size, column, line) = elim (Bool-cases (value == 8)) [
  | inl a ↦ (
    record m { cur_x = m.cur_x - 1 },
    rw a refl,
    (size, omega arith, omega arith, λ e. omega arith),
  )
  | inr a ↦ elim (Bool-cases (value == 9)) [
    | inl b ↦ (
      record m { cur_x = u16 ((m.cur_x + 8) / 8 * 8) },
      rw (a, b) refl,
      (size, omega arith, omega arith, λ e. absurd (omega arith)),
    )
    | inr b ↦ elim (Bool-cases (value == 13)) [
      | inl c ↦ (
        record m { cur_x = 0 },
        rw (a, b, c) refl,
        (size, omega arith, omega arith, λ e. omega arith),
      )
      | inr c ↦ elim (Bool-cases (value == 10)) [
        | inl d ↦ (
          record m { cur_x = 0; cur_y = u16 (m.cur_y + 1) },
          rw (a, b, c, d) refl,
          (size, omega arith, omega arith, λ e. omega arith),
        )
        | inr d ↦
            rw (a, b, c, d) (put_word-IsMoved m (fb_word value attributes) (size, column, line))
      ]
    ]
  ]
]

next_line-IsWrapped : (m : Monitor) → IsMoved m → IsWrapped (next_line m)
unfolding next_line
next_line-IsWrapped m (size, column, line, last) = ground arith

scroll-IsValid : (m : Monitor) → IsWrapped m → IsValid (scroll m)
unfolding scroll IsValid
scroll-IsValid m (size, column, line) = ground (
  arith,
  length-fill_blank 80 1920 (copy_up 1920 0 m.video_buffer),
  length-copy_up 1920 0 m.video_buffer,
)

-- Every character leaves the cursor on the screen, and is written on it.
pub put_with-IsValid :
    (m : Monitor) (value attributes : ℕ)
    → IsValid m
    → (next : Monitor) × (put_with m value attributes ≡ ok next) × IsValid next
unfolding put_with move_cursor IsValid
put_with-IsValid m value attributes v =
    let moved = put_value-IsMoved m value attributes v in
    (
      move_cursor (scroll (next_line moved.0)),
      rw (moved.1) refl,
      scroll-IsValid (next_line moved.0) (next_line-IsWrapped moved.0 moved.2),
    )

-- From a screen of 25 lines of 80 words with the cursor on it, `monitor_write` writes any string
-- without leaving the screen, and the cursor ends on the screen.
pub write-IsValid :
    (m : Monitor) (str : List ℕ)
    → IsValid m
    → (next : Monitor) × (write m str ≡ ok next) × IsValid next
unfolding write put
write-IsValid m [] v = (m, refl, v)
write-IsValid m (c ∷ str) v =
    let one = put_with-IsValid m c grey_on_black v in
    let rest = write-IsValid one.0 str one.2 in (rest.0, rw (one.1) rest.1, rest.2)

-- What stands before is written first.
pub write-append :
    (m next : Monitor) (xs ys : List ℕ) → write m xs ≡ ok next → write m (xs ++ ys) ≡ write next ys
unfolding write
write-append m next [] ys e = let same : m ≡ next = cc in rw same refl
write-append m next (x ∷ xs) ys e =
    let (one, wrote, rest) = first_part (put m x) _ e in rw wrote (write-append one next xs ys rest)

write_with-IsValid :
    (m : Monitor) (str : List ℕ) (attr : ℕ)
    → IsValid m
    → (next : Monitor) × (write_with m str attr ≡ ok next) × IsValid next
unfolding write_with
write_with-IsValid m [] attr v = (m, refl, v)
write_with-IsValid m (c ∷ str) attr v =
    let one = put_with-IsValid m c attr v in
    let rest = write_with-IsValid one.0 str attr one.2 in (rest.0, rw (one.1) rest.1, rest.2)

-- A status of at most 78 characters leaves the cursor on the screen, whatever line it is written in.
pub write_status-IsValid :
    (m : Monitor) (str : List ℕ) (success : Bool)
    → IsValid m
    → length str ≤ 78
    → (next : Monitor) × (write_status m str success ≡ ok next) × IsValid next
unfolding write_status put IsValid
write_status-IsValid m str success (size, column, line) short =
    let start = record m { cur_x = u16 (sub32 80 (length str + 2)) } in
    let attr = if success then fb_attr 2 0 else fb_attr 4 0 in
    let opened = put_with-IsValid start 91 grey_on_black (size, omega arith, line) in
    let body = write_with-IsValid opened.0 str attr opened.2 in
    let closed = put_with-IsValid body.0 93 grey_on_black body.2 in
    (closed.0, rw (opened.1, body.1) closed.1, closed.2)
