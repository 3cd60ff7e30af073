-- ===== src/Monitor/Status.antt =====
-- A status at the right edge of the line.
use evos.Base.{
  ℕ, suc, ◌+◌, ◌-◌, ◌*◌, ◌≤◌, ◌<◌, ◌≡◌, refl, ap, Bool, List, [], ◌∷◌, All, ok, fault, arith, ltb,
  leb, ◌==◌, ◌&&◌, if◌then◌else◌, length, get_or, u16, sub32,
}
use evos.Monitor.{
  Monitor, fb_word, fb_attr, grey_on_black, put_word, put_value, put_with, put, write_with,
  write_status,
}
use evos.Monitor.Laws.{IsValid}
use evos.Monitor.Put.{word_at, position, IsPrinted, put_with_lem}

get_or-shift : (c : ℕ) (str : List ℕ) (k i : ℕ) → k ≡ suc i → get_or (c ∷ str) k 0 ≡ get_or str i 0
get_or-shift c str k i e = rw e refl

bracket-IsPrinted : IsPrinted 91 × IsPrinted 93
bracket-IsPrinted = (
  (λ e. omega arith, λ e. omega arith, λ e. omega arith, λ e. omega arith),
  (λ e. omega arith, λ e. omega arith, λ e. omega arith, λ e. omega arith),
)

-- Printed characters before the last position go one behind the other, and touch no other word.
write_with_lem :
    (m : Monitor) (str : List ℕ) (attr : ℕ)
    → IsValid m
    → All IsPrinted str
    → position m + length str ≤ 1999
    → (next : Monitor) × (write_with m str attr ≡ ok next)
      × IsValid next
      × (position next ≡ position m + length str)
      × ((j : ℕ)
          → word_at next j ≡ (
              if leb (position m) j && ltb j (position m + length str)
              then fb_word (get_or str (j - position m) 0) attr
              else word_at m j))
unfolding write_with
write_with_lem m [] attr v printed room = (m, refl, v, omega arith, λ j. ground arith)
write_with_lem m (c ∷ str) attr v (here, printed) room =
    let one = put_with_lem m c attr v here (omega arith) in
    let rest = write_with_lem one.0 str attr one.2 printed (omega (arith, one.3)) in
    (
      rest.0,
      rw one.1 rest.1,
      rest.2,
      omega (arith, one.3, rest.3),
      λ j. ground (
        arith,
        one.3,
        one.4 j,
        rest.4 j,
        get_or-shift c str (j - position m) (j - position one.0),
        ap (λ k. get_or (c ∷ str) k 0) {x = j - position m} {y = 0},
      ),
    )

-- A status of at most 78 characters, none of them a backspace, tab, line feed or carriage return,
-- with the cursor in a line of the screen above the last one: the line ends with the characters
-- between brackets, in green for a success and in red for a failure; no other word changes, and
-- the cursor goes to the start of the next line.
pub write_status_lem :
    (m : Monitor) (str : List ℕ) (success : Bool)
    → IsValid m
    → All IsPrinted str
    → length str ≤ 78
    → m.cur_y < 24
    → let start = 80 * m.cur_y + 78 - length str in
      let attr = if success then fb_attr 2 0 else fb_attr 4 0 in
      (next : Monitor) × (write_status m str success ≡ ok next)
      × (next.cur_x ≡ 0)
      × (next.cur_y ≡ m.cur_y + 1)
      × ((j : ℕ)
          → word_at next j ≡ (
              if j == start
              then fb_word 91 grey_on_black
              else if ltb start j && leb j (start + length str)
              then fb_word (get_or str (j - suc start) 0) attr
              else if j == suc (start + length str)
              then fb_word 93 grey_on_black
              else word_at m j))
unfolding write_status put IsValid
write_status_lem m str success (size, column, line) printed room above =
    let start = record m { cur_x = u16 (sub32 80 (length str + 2)) } in
    let attr = if success then fb_attr 2 0 else fb_attr 4 0 in
    let opened =
      put_with_lem start 91 grey_on_black (size, omega arith, line) bracket-IsPrinted.0
        (omega arith) in
    let body = write_with_lem opened.0 str attr opened.2 printed (omega (arith, opened.3)) in
    let closed =
      put_with_lem body.0 93 grey_on_black body.2 bracket-IsPrinted.1
        (omega (arith, opened.3, body.3)) in
    let column_after : closed.0.cur_x < 80 = closed.2.1 in
    (
      closed.0,
      rw (opened.1, body.1) closed.1,
      omega (arith, opened.3, body.3, closed.3),
      omega (arith, opened.3, body.3, closed.3),
      λ j. ground (
        arith,
        opened.3,
        body.3,
        opened.4 j,
        body.4 j,
        closed.4 j,
        ap (λ k. get_or str k 0) {x = j - position opened.0}
            {y = j - suc (80 * m.cur_y + 78 - length str)},
      ),
    )

-- A status of more than 78 characters, and at most 60000, wraps the column round: with the cursor
-- in any line of the screen, the first character is written behind the screen.
pub write_status_long :
    (m : Monitor) (str : List ℕ) (success : Bool)
    → IsValid m
    → 78 < length str
    → length str ≤ 60000
    → write_status m str success ≡ fault
unfolding write_status put put_with put_value put_word IsValid
write_status_long m str success (size, column, line) long short = ground arith
