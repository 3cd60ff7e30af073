-- ===== src/Str/Vsprintf/Examples.antt =====
-- Formats at concrete inputs.
use evos.Base.{map, ◌≡◌, refl, List, [], ◌∷◌, ok, fault}
use evos.Str.{
  strlen, number_loop, prefix_chars, is_negative, magnitude, finish_number, append_number,
  skip_atoi,
}
use evos.Str.Vsprintf.{
  number, text, parse_flags, field_width, convert, convert_number, convert_text, next_field,
  vsprintf_loop, vsprintf,
}
use evos.Str.Vsprintf.Laws.{written}
use evos.Str.Vsprintf.Items.{
  to_left, with_zeros, with_prefix, decimal, hex, Item, plain, numeral, string, other, piece_of,
}

-- "%-4s|%#x" of "ab" and 255 is "ab  |0xff".
run :
    vsprintf (37 ∷ 45 ∷ 52 ∷ 115 ∷ 124 ∷ 37 ∷ 35 ∷ 120 ∷ []) (text (97 ∷ 98 ∷ []) ∷ number 255 ∷ [])
    ≡ ok (97 ∷ 98 ∷ 32 ∷ 32 ∷ 124 ∷ 48 ∷ 120 ∷ 102 ∷ 102 ∷ 0 ∷ [], 10)
unfolding vsprintf vsprintf_loop next_field parse_flags field_width skip_atoi convert convert_text
    strlen convert_number append_number number_loop magnitude is_negative finish_number prefix_chars
run = refl

-- A format that ends with "%".
percent_at_end : vsprintf (97 ∷ 37 ∷ []) [] ≡ fault
unfolding vsprintf vsprintf_loop next_field parse_flags field_width
percent_at_end = refl

-- "%-4s|%#x%05d%%" with "ab", 255 and -1
abbrev items : List Item
items =
    string (to_left ∷ []) (4 ∷ []) (97 ∷ 98 ∷ [])
    ∷ plain 124
    ∷ numeral (with_prefix ∷ []) [] hex 255
    ∷ numeral (with_zeros ∷ []) (5 ∷ []) decimal 0xFFFFFFFF
    ∷ other [] [] 37
    ∷ []

format_run :
    written (map piece_of items)
    ≡ 37 ∷ 45 ∷ 52 ∷ 115 ∷ 124 ∷ 37 ∷ 35 ∷ 120 ∷ 37 ∷ 48 ∷ 53 ∷ 100 ∷ 37 ∷ 37 ∷ []
format_run = refl
