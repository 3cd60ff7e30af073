-- ===== src/Monitor.antt =====
-- src/monitor.c: the text screen. A char is its byte; the screen is the 2000 words at 0xB8000 that
-- the code means to write, so a write behind them is a fault; `outs` is the log of the port writes.
pub mod Scroll
pub mod Laws
pub mod Put
pub mod Status
pub mod Numbers
mod Examples
use evos.Base.{
  ◌>>=◌, ℕ, zero, suc, ◌+◌, ◌-◌, ◌*◌, ◌/◌, ◌%◌, ◌^◌, Bool, true, List, [], ◌∷◌, ◌++◌, Result, ok,
  fault, ltb, leb, ◌==◌, if◌then◌else◌, length, get_or, set, u8, u16, u32, sub32, ◌<<<◌, ◌>>>◌,
  bit_and, bit_or, not, ◌&&◌,
}

pub record Monitor : Type 0 where
  pub video_buffer : List ℕ
  pub cur_x : ℕ
  pub cur_y : ℕ
  pub outs : List (ℕ × ℕ)

-- `(uint16_t)(ch)`: a char is signed.
abbrev pub sign_extended : ℕ → ℕ
sign_extended ch = if ltb ch 128 then ch else ch + 0xFF00

unfoldable pub fb_word : ℕ → ℕ → ℕ
fb_word ch at = u16 (bit_or (at <<< 8) (sign_extended ch))

unfoldable pub fb_attr : ℕ → ℕ → ℕ
fb_attr fg bg = bit_or (u8 bg <<< 4) (u8 fg)

abbrev pub grey_on_black : ℕ
grey_on_black = fb_attr 7 0

abbrev pub blank : ℕ
blank = fb_word 32 grey_on_black

unfoldable pub move_cursor : Monitor → Monitor
move_cursor m =
    let position = u16 (80 * m.cur_y + m.cur_x) in
    record m {
      outs =
          m.outs
          ++ ((0x3D4, 14)
              ∷ (0x3D5, position >>> 8)
              ∷ (0x3D4, 15)
              ∷ (0x3D5, bit_and position 0xFF)
              ∷ []);
    }

-- The first loop of `scroll`, for `count` more steps from `i` on.
unfoldable pub copy_up : ℕ → ℕ → List ℕ → List ℕ
copy_up zero i buffer = buffer
copy_up (suc count) i buffer = copy_up count (suc i) (set buffer i (get_or buffer (i + 80) 0))

-- The second loop, and the loop of `monitor_clear`.
unfoldable pub fill_blank : ℕ → ℕ → List ℕ → List ℕ
fill_blank zero i buffer = buffer
fill_blank (suc count) i buffer = fill_blank count (suc i) (set buffer i blank)

unfoldable pub scroll : Monitor → Monitor
scroll m =
    if m.cur_y == 25
    then record m { video_buffer = fill_blank 80 1920 (copy_up 1920 0 m.video_buffer); cur_y = 24 }
    else m

-- `*location = word; cur_x++;`
unfoldable pub put_word : Monitor → ℕ → Result Monitor
put_word m word =
    let location = m.cur_y * 80 + m.cur_x in
    if ltb location (length m.video_buffer)
    then ok
        (record m { video_buffer = set m.video_buffer location word; cur_x = u16 (m.cur_x + 1) })
    else fault

-- The branches of `__monitor_put` on the character; `& ~7` clears three digits.
unfoldable pub put_value : Monitor → ℕ → ℕ → Result Monitor
put_value m value attributes =
    if value == 0x08
    then ok (record m { cur_x = m.cur_x - 1 })
    else if value == 9
    then ok (record m { cur_x = u16 ((m.cur_x + 8) / 8 * 8) })
    else if value == 13
    then ok (record m { cur_x = 0 })
    else if value == 10
    then ok (record m { cur_x = 0; cur_y = u16 (m.cur_y + 1) })
    else put_word m (fb_word value attributes)

-- `if (cur_x >= 80)`
unfoldable pub next_line : Monitor → Monitor
next_line m = if leb 80 m.cur_x then record m { cur_x = 0; cur_y = u16 (m.cur_y + 1) } else m

-- `__monitor_put`
unfoldable pub put_with : Monitor → ℕ → ℕ → Result Monitor
put_with m value attributes = do
  moved ← put_value m value attributes
  ok (move_cursor (scroll (next_line moved)))

-- `monitor_put`
unfoldable pub put : Monitor → ℕ → Result Monitor
put m value = put_with m value grey_on_black

-- `monitor_clear`; the cursor stays where it is.
unfoldable pub clear : Monitor → Monitor
clear m = move_cursor (record m { video_buffer = fill_blank 2000 0 m.video_buffer })

-- `monitor_write` of the bytes before the terminating zero
unfoldable pub write : Monitor → List ℕ → Result Monitor
write m [] = ok m
write m (c ∷ str) = do next ← put m c; write next str

-- `letters[nibble]`
abbrev pub hex_letter : ℕ → ℕ
hex_letter nibble = if ltb nibble 10 then 48 + nibble else 87 + nibble

-- The loop of `monitor_write_hex`, with `count` steps left: `i` is 4 * (count - 1).
unfoldable pub write_nibbles : Monitor → ℕ → ℕ → Result Monitor
write_nibbles m value zero = ok m
write_nibbles m value (suc count) = do
  next ← put m (hex_letter (value / 2 ^ (4 * count) % 16))
  write_nibbles next value count

unfoldable pub write_hex : Monitor → ℕ → Result Monitor
write_hex m value = write_nibbles m value 8

-- The loop of `monitor_write_dec`, with `count` steps left: `i` is 10 ^ (count - 1).
unfoldable pub write_decimals : Monitor → ℕ → ℕ → Bool → Result Monitor
write_decimals m value zero had_digit = ok m
write_decimals m value (suc count) had_digit =
    elim (digit == 0 && (not had_digit && not (count == 0))) [
      | Bool.true ↦ write_decimals m value count had_digit
      | Bool.false ↦ do next ← put m (48 + digit); write_decimals next value count true
    ]
  where
    digit : ℕ
    digit = value / 10 ^ count % 10

unfoldable pub write_dec : Monitor → ℕ → Result Monitor
write_dec m value = write_decimals m value 10 Bool.false

-- The loop of `monitor_write_status`
unfoldable pub write_with : Monitor → List ℕ → ℕ → Result Monitor
write_with m [] attr = ok m
write_with m (c ∷ str) attr = do next ← put_with m c attr; write_with next str attr

unfoldable pub write_status : Monitor → List ℕ → Bool → Result Monitor
write_status m str success = do
  let attr = if success then fb_attr 2 0 else fb_attr 4 0
  let len = length str + 2
  opened ← put (record m { cur_x = u16 (sub32 80 len) }) 91
  written ← write_with opened str attr
  put written 93
