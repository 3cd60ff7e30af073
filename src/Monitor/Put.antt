-- ===== src/Monitor/Put.antt =====
-- The screen after one printed character: what each word holds, and where the cursor is.
use evos.Base.{
  ℕ, ◌+◌, ◌*◌, ◌<◌, ◌≡◌, ◌≢◌, sym, ap, ok, arith, ltb, leb, ◌==◌, if◌then◌else◌, length, get_or,
  set, length-set, get_or-set_self, get_or-set_ne, u16,
}
use evos.Monitor.{
  Monitor, fb_word, blank, move_cursor, copy_up, scroll, put_word, put_value, next_line, put_with,
}
use evos.Monitor.Scroll.{
  length-copy_up, fill_blank_outside, fill_blank_inside, copy_up_outside, copy_up_inside,
}
use evos.Monitor.Laws.{IsValid, put_with-IsValid}

abbrev pub word_at : Monitor → ℕ → ℕ
word_at m j = get_or m.video_buffer j 0

abbrev pub position : Monitor → ℕ
position m = 80 * m.cur_y + m.cur_x

-- A byte that is neither a backspace, nor a tab, a line feed or a carriage return.
abbrev pub IsPrinted : ℕ → Type 0
IsPrinted c = (c ≢ 8) × (c ≢ 9) × (c ≢ 10) × (c ≢ 13)

-- The screen moves up by a line.
pub scroll_lem :
    (m : Monitor)
    → length m.video_buffer ≡ 2000
    → m.cur_y ≡ 25
    → (j : ℕ)
    → word_at (scroll m) j
      ≡ (if ltb j 1920 then word_at m (j + 80) else if ltb j 2000 then blank else word_at m j)
unfolding scroll
scroll_lem m size line j = ground (
  arith,
  fill_blank_outside 80 1920 j (copy_up 1920 0 m.video_buffer),
  fill_blank_inside 80 1920 j (copy_up 1920 0 m.video_buffer),
  copy_up_inside 1920 0 j m.video_buffer,
  copy_up_outside 1920 0 j m.video_buffer,
  length-copy_up 1920 0 m.video_buffer,
)

position-scroll : (m : Monitor) → m.cur_y ≡ 25 → position (scroll m) ≡ 1920 + m.cur_x
unfolding scroll
position-scroll m line = ground arith

-- The monitor between the character and the scroll.
abbrev written : Monitor → ℕ → ℕ → Monitor
written m c attr = next_line (record m {
  video_buffer = set m.video_buffer (m.cur_y * 80 + m.cur_x) (fb_word c attr);
  cur_x = u16 (m.cur_x + 1);
})

put_with-written :
    (m : Monitor) (c attr : ℕ)
    → IsValid m
    → IsPrinted c
    → put_with m c attr ≡ ok (move_cursor (scroll (written m c attr)))
unfolding put_with put_value put_word IsValid
put_with-written m c attr (size, column, line) (a, b, d, e) = ground arith

word_at-written :
    (m : Monitor) (c attr j : ℕ)
    → IsValid m
    → word_at (written m c attr) j ≡ (if j == position m then fb_word c attr else word_at m j)
unfolding IsValid next_line
word_at-written m c attr j (size, column, line) = ground (
  arith,
  get_or-set_self m.video_buffer (m.cur_y * 80 + m.cur_x) (fb_word c attr) 0,
  get_or-set_ne m.video_buffer (m.cur_y * 80 + m.cur_x) j (fb_word c attr) 0,
  ap (get_or (set m.video_buffer (m.cur_y * 80 + m.cur_x) (fb_word c attr))) {x = j}
      {y = m.cur_y * 80 + m.cur_x},
)

position-written :
    (m : Monitor) (c attr : ℕ)
    → IsValid m
    → (position (written m c attr) ≡ position m + 1)
      × (length (written m c attr).video_buffer ≡ 2000)
      × ((written m c attr).cur_x < 80)
unfolding IsValid next_line
position-written m c attr (size, column, line) =
    ground (arith, length-set m.video_buffer (m.cur_y * 80 + m.cur_x) (fb_word c attr))

put_with-eq-IsValid :
    (m : Monitor) (c attr : ℕ) {next : Monitor}
    → IsValid m
    → put_with m c attr ≡ ok next
    → IsValid next
put_with-eq-IsValid m c attr {next} v e =
    let valid = put_with-IsValid m c attr v in
    let same : valid.0 ≡ next = cc in rw (sym same) valid.2

-- With the cursor on the screen, before its last position: a character other than a backspace,
-- tab, line feed or carriage return stands in the word under the cursor; the cursor goes to the
-- next position, stays on the screen, and no other word changes.
pub put_with_lem :
    (m : Monitor) (c attr : ℕ)
    → IsValid m
    → IsPrinted c
    → position m < 1999
    → (next : Monitor) × (put_with m c attr ≡ ok next)
      × IsValid next
      × (position next ≡ position m + 1)
      × ((j : ℕ) → word_at next j ≡ (if j == position m then fb_word c attr else word_at m j))
unfolding scroll move_cursor
put_with_lem m c attr v printed room =
    let after = position-written m c attr v in
    let same : scroll (written m c attr) ≡ written m c attr = ground arith in
    (
      move_cursor (scroll (written m c attr)),
      put_with-written m c attr v printed,
      put_with-eq-IsValid m c attr v (put_with-written m c attr v printed),
      rw same after.0,
      λ j. rw same (word_at-written m c attr j v),
    )

-- With the cursor in the last position of the screen, a character other than a backspace, tab,
-- line feed or carriage return scrolls: every line goes up by one, the character is the last of
-- line 23, line 24 is blank and the cursor stands at its start.
pub put_with_last :
    (m : Monitor) (c attr : ℕ)
    → IsValid m
    → IsPrinted c
    → position m ≡ 1999
    → (next : Monitor) × (put_with m c attr ≡ ok next)
      × (position next ≡ 1920)
      × ((j : ℕ)
          → j < 2000
          → word_at next j ≡ (
              if leb 1920 j
              then blank
              else if j == 1919
              then fb_word c attr
              else word_at m (j + 80)))
unfolding move_cursor
put_with_last m c attr v printed last =
    let after = position-written m c attr v in
    let below : (written m c attr).cur_y ≡ 25 = omega (arith, after.0, after.2) in
    (
      move_cursor (scroll (written m c attr)),
      put_with-written m c attr v printed,
      omega (arith, position-scroll (written m c attr) below, after.0),
      λ j h. ground (
        arith,
        scroll_lem (written m c attr) after.1 below j,
        word_at-written m c attr (j + 80) v,
      ),
    )
