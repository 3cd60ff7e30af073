-- ===== src/Panic/Lines.antt =====
-- The lines that a panic shows.
use evos.Base.{
  true, ℕ, ◌+◌, ◌^◌, ◌<◌, ◌≡◌, ◌≢◌, refl, ap, List, [], ◌∷◌, ◌++◌, map, All, All-append, ok, arith,
  length, length-append,
}
use mathlib.Core.List.{append_assoc}
use evos.Monitor.{Monitor, write}
use evos.Monitor.Laws.{IsValid}
use evos.Str.{digit_char}
use evos.Str.Vsprintf.{Arg, number, text, no_flags}
use evos.Str.Vsprintf.Laws.{Piece, literal, field, meaning}
use evos.Str.Vsprintf.Fields.{
  IsWritten, digits_nonzero, length-digits, convert_string, convert_pointer, convert_decimal,
}
use evos.Printk.{printk}
use evos.Printk.Plain.{is_plain}
use evos.Printk.Laws.{printk_lem}
use evos.Panic.{Site, frame_format, panic_format}

-- A text behind another, char by char, as vsprintf appends it.
abbrev pub appended : List ℕ → List ℕ → List ℕ
appended front [] = front
appended front (c ∷ str) = appended (front ++ c ∷ []) str

-- A fixed text without zeros in front of another.
pub nonzero_append :
    (str rest : List ℕ)
    → is_plain str ≡ true
    → All (λ c. c ≢ 0) rest
    → All (λ c. c ≢ 0) (str ++ rest)
unfolding is_plain
nonzero_append [] rest plain all = all
nonzero_append (c ∷ str) rest plain all =
    ((λ e. ground arith), nonzero_append str rest (ground arith) all)

-- A C string that fits the buffer of printk with what stands around it.
abbrev pub IsShort : ℕ → List ℕ → Type 0
IsShort limit str = All (λ c. c ≢ 0) str × (length str < limit)

-- "  [0x<digits>] <name>\n"
abbrev pub frame_line : List ℕ → List ℕ → List ℕ
frame_line ds name = 32 ∷ 32 ∷ 91 ∷ 48 ∷ 120 ∷ (map digit_char ds ++ (93 ∷ 32 ∷ (name ++ 10 ∷ [])))

frame_pieces : List Piece
frame_pieces =
    literal 32
    ∷ literal 32
    ∷ literal 91
    ∷ field (35 ∷ 48 ∷ []) (8 ∷ []) 120
    ∷ literal 93
    ∷ literal 32
    ∷ field [] [] 115
    ∷ literal 10
    ∷ []

frame_meaning :
    (eip : ℕ) (name : List ℕ)
    → eip < 2 ^ 32
    → (ds : List ℕ) × IsWritten 16 eip ds
      × (meaning frame_pieces (number eip ∷ text name ∷ []) [] ≡ ok (frame_line ds name))
unfolding frame_pieces
frame_meaning eip name word =
    let (ds, digits, shows) = convert_pointer eip (text name ∷ []) (32 ∷ 32 ∷ 91 ∷ []) word in
    let front = 32 ∷ 32 ∷ 91 ∷ 48 ∷ 120 ∷ map digit_char ds in
    let named = convert_string name no_flags [] ((front ++ 93 ∷ []) ++ 32 ∷ []) refl in
    (
      ds,
      digits,
      rw (shows, named) (ap (λ t. ok (32 ∷ 32 ∷ 91 ∷ 48 ∷ 120 ∷ t)) (simp append_assoc refl)),
    )

frame_nonzero : (ds name : List ℕ) → All (λ c. c ≢ 0) name → All (λ c. c ≢ 0) (frame_line ds name)
unfolding is_plain
frame_nonzero ds name h =
    let rest = 93 ∷ 32 ∷ (name ++ 10 ∷ []) in
    let named =
      nonzero_append (93 ∷ 32 ∷ []) (name ++ 10 ∷ []) refl
        (All-append (λ c. c ≢ 0) name (10 ∷ []) h (nonzero_append (10 ∷ []) [] refl tt)) in
    nonzero_append (32 ∷ 32 ∷ 91 ∷ 48 ∷ 120 ∷ []) (map digit_char ds ++ rest) refl
      (All-append (λ c. c ≢ 0) (map digit_char ds) rest (digits_nonzero ds) named)

frame_length : (ds name : List ℕ) → length (frame_line ds name) ≡ 8 + length ds + length name
frame_length ds name = omega (
  arith,
  length-append (map digit_char ds) (93 ∷ 32 ∷ (name ++ 10 ∷ [])),
  length-append name (10 ∷ []),
  length-digits ds,
)

-- The line of one frame.
pub frame_lem :
    (eip : ℕ) (name : List ℕ) (m : Monitor)
    → IsValid m
    → eip < 2 ^ 32
    → IsShort 4000 name
    → (ds : List ℕ) × (next : Monitor) × IsWritten 16 eip ds
      × (printk frame_format (number eip ∷ text name ∷ []) m ≡ ok (0, next))
      × (write m (frame_line ds name) ≡ ok next)
      × IsValid next
unfolding frame_pieces
frame_lem eip name m v word (nonzero, short) =
    let (ds, digits, means) = frame_meaning eip name word in
    let few = digits.3 in
    let (next, printed, wrote, valid) =
      printk_lem frame_pieces (number eip ∷ text name ∷ []) m (frame_line ds name) v (ground arith)
        means (frame_nonzero ds name nonzero) (omega (arith, frame_length ds name)) in
    (ds, next, digits, printed, wrote, valid)

-- "\n\rKernel panic\n'" and "' in file "
abbrev pub panic_words : List ℕ
panic_words =
    10 ∷ 13 ∷ 75 ∷ 101 ∷ 114 ∷ 110 ∷ 101 ∷ 108 ∷ 32 ∷ 112 ∷ 97 ∷ 110 ∷ 105 ∷ 99 ∷ 10 ∷ 39 ∷ []

abbrev pub file_words : List ℕ
file_words = 39 ∷ 32 ∷ 105 ∷ 110 ∷ 32 ∷ 102 ∷ 105 ∷ 108 ∷ 101 ∷ 32 ∷ []

-- "\n\rKernel panic\n'<func>' in file <file>:<digits>: <msg>\n"
abbrev pub header_text : Site → List ℕ → List ℕ → List ℕ
header_text site ds msg =
    panic_words
    ++ (site.func
        ++ (file_words
            ++ (site.file ++ (58 ∷ (map digit_char ds ++ (58 ∷ 32 ∷ (msg ++ 10 ∷ [])))))))

header_pieces : List Piece
header_pieces =
    map literal panic_words
    ++ field [] [] 115
      ∷ (map literal file_words
          ++ field [] [] 115
            ∷ literal 58
            ∷ field [] [] 100
            ∷ literal 58
            ∷ literal 32
            ∷ field [] [] 115
            ∷ literal 10
            ∷ [])

abbrev pub panic_args : Site → List ℕ → List Arg
panic_args site msg = text site.func ∷ text site.file ∷ number site.line ∷ text msg ∷ []

header_meaning :
    (site : Site) (msg : List ℕ)
    → site.line < 2 ^ 31
    → (ds : List ℕ) × IsWritten 10 site.line ds
      × (meaning header_pieces (panic_args site msg) [] ≡ ok (header_text site ds msg))
unfolding header_pieces
header_meaning site msg low =
    let named =
      convert_string site.func no_flags (text site.file ∷ number site.line ∷ text msg ∷ [])
        panic_words refl in
    let at = appended (panic_words ++ site.func) file_words in
    let filed = convert_string site.file no_flags (number site.line ∷ text msg ∷ []) at refl in
    let (ds, digits, shows) =
      convert_decimal site.line (text msg ∷ []) ((at ++ site.file) ++ 58 ∷ []) low in
    let said =
      convert_string msg no_flags []
        (((((at ++ site.file) ++ 58 ∷ []) ++ map digit_char ds) ++ 58 ∷ []) ++ 32 ∷ []) refl in
    (ds, digits, rw (named, filed, shows, said) (ap ok (simp append_assoc refl)))

-- A text without zeros that the buffer of printk has room for.
abbrev pub IsText : Site → List ℕ → Type 0
IsText site msg =
    All (λ c. c ≢ 0) site.func
    × All (λ c. c ≢ 0) site.file
    × All (λ c. c ≢ 0) msg
    × (length site.func + length site.file + length msg < 3000)
    × (site.line < 2 ^ 31)

header_length :
    (site : Site) (ds msg : List ℕ)
    → length (header_text site ds msg)
      ≡ 30 + length site.func + length site.file + length ds + length msg
header_length site ds msg =
    let last = 58 ∷ 32 ∷ (msg ++ 10 ∷ []) in
    let line = 58 ∷ (map digit_char ds ++ last) in
    let rest = file_words ++ (site.file ++ line) in
    omega (
      arith,
      length-append msg (10 ∷ []),
      length-append (map digit_char ds) last,
      length-append site.file line,
      length-append site.func rest,
      length-digits ds,
    )

header_nonzero :
    (site : Site) (ds msg : List ℕ) → IsText site msg → All (λ c. c ≢ 0) (header_text site ds msg)
unfolding is_plain
header_nonzero site ds msg (func, file, message, short, low) =
    let last = 58 ∷ 32 ∷ (msg ++ 10 ∷ []) in
    let line = 58 ∷ (map digit_char ds ++ last) in
    let end =
      nonzero_append (58 ∷ 32 ∷ []) (msg ++ 10 ∷ []) refl
        (All-append (λ c. c ≢ 0) msg (10 ∷ []) message (nonzero_append (10 ∷ []) [] refl tt)) in
    let numbered =
      nonzero_append (58 ∷ []) (map digit_char ds ++ last) refl
        (All-append (λ c. c ≢ 0) (map digit_char ds) last (digits_nonzero ds) end) in
    let filed =
      nonzero_append file_words (site.file ++ line) refl
        (All-append (λ c. c ≢ 0) site.file line file numbered) in
    nonzero_append panic_words (site.func ++ (file_words ++ (site.file ++ line))) refl
      (All-append (λ c. c ≢ 0) site.func (file_words ++ (site.file ++ line)) func filed)

pub header_lem :
    (site : Site) (msg : List ℕ) (m : Monitor)
    → IsValid m
    → IsText site msg
    → (ds : List ℕ) × (next : Monitor) × IsWritten 10 site.line ds
      × (printk panic_format (panic_args site msg) m ≡ ok (0, next))
      × (write m (header_text site ds msg) ≡ ok next)
      × IsValid next
unfolding header_pieces
header_lem site msg m v fits =
    let (ds, digits, means) = header_meaning site msg fits.4 in
    let few = digits.3 in
    let short = fits.3 in
    let (next, printed, wrote, valid) =
      printk_lem header_pieces (panic_args site msg) m (header_text site ds msg) v (ground arith)
        means (header_nonzero site ds msg fits) (omega (arith, header_length site ds msg)) in
    (ds, next, digits, printed, wrote, valid)
