-- ===== src/Panic/PageFault/Lines.antt =====
-- The lines that a page fault shows.
use evos.Base.{
  ℕ, ◌+◌, ◌^◌, ◌≤◌, ◌<◌, ◌≡◌, ◌≢◌, refl, ap, true, List, [], ◌∷◌, ◌++◌, map, All, All-append, ok,
  arith, length, length-append, ◌==◌, if◌then◌else◌, Bool-cases, inl, inr,
}
use mathlib.Core.List.{append_assoc}
use evos.Base.Bits.{bit}
use evos.Monitor.{Monitor, write}
use evos.Monitor.Laws.{IsValid}
use evos.Str.{digit_char}
use evos.Str.Vsprintf.{number, text, no_flags}
use evos.Str.Vsprintf.Laws.{Piece, literal, field, meaning}
use evos.Str.Vsprintf.Fields.{
  IsWritten, digits_nonzero, length-digits, convert_string, convert_address, convert_hex,
}
use evos.Printk.{printk}
use evos.Panic.Lines.{appended, nonzero_append}
use evos.Printk.Laws.{printk_lem}
use evos.Printk.Plain.{is_plain, is_plain-IsPlain, printk_plain}
use evos.Panic.PageFault.{
  fault_format, eip_format, reserved_text, fetch_text, present_text, access_text, mode_text,
  show_note,
}

-- "Page-fault: page ", "present; failed on ", " in " and "-mode at 0x"
abbrev pub page_words : List ℕ
page_words =
    80 ∷ 97 ∷ 103 ∷ 101 ∷ 45 ∷ 102 ∷ 97 ∷ 117 ∷ 108 ∷ 116 ∷ 58 ∷ 32 ∷ 112 ∷ 97 ∷ 103 ∷ 101 ∷ 32 ∷ []

abbrev pub failed_words : List ℕ
failed_words =
    112 ∷ 114 ∷ 101 ∷ 115 ∷ 101 ∷ 110 ∷ 116 ∷ 59 ∷ 32 ∷ 102 ∷ 97 ∷ 105 ∷ 108 ∷ 101 ∷ 100 ∷ 32 ∷ 111
    ∷ 110 ∷ 32 ∷ []

abbrev pub in_words : List ℕ
in_words = 32 ∷ 105 ∷ 110 ∷ 32 ∷ []

abbrev pub mode_words : List ℕ
mode_words = 45 ∷ 109 ∷ 111 ∷ 100 ∷ 101 ∷ 32 ∷ 97 ∷ 116 ∷ 32 ∷ 48 ∷ 120 ∷ []

fault_pieces : List Piece
fault_pieces =
    map literal page_words
    ++ field [] [] 115
      ∷ (map literal failed_words
          ++ field [] [] 115
            ∷ (map literal in_words
                ++ field [] [] 115
                  ∷ (map literal mode_words ++ field (48 ∷ []) (8 ∷ []) 120 ∷ literal 10 ∷ [])))

-- "-mode at 0x<digits>\n", and the whole line
abbrev pub mode_part : List ℕ → List ℕ
mode_part ds = mode_words ++ (map digit_char ds ++ 10 ∷ [])

abbrev pub fault_text : List ℕ → List ℕ → List ℕ → List ℕ → List ℕ
fault_text present access mode ds =
    page_words ++ (present ++ (failed_words ++ (access ++ (in_words ++ (mode ++ mode_part ds)))))

fault_meaning :
    (present access mode : List ℕ) (address : ℕ)
    → address < 2 ^ 32
    → (ds : List ℕ) × IsWritten 16 address ds
      × (meaning fault_pieces (text present ∷ text access ∷ text mode ∷ number address ∷ []) []
          ≡ ok (fault_text present access mode ds))
unfolding fault_pieces
fault_meaning present access mode address word =
    let first =
      convert_string present no_flags (text access ∷ text mode ∷ number address ∷ []) page_words
        refl in
    let at = appended (page_words ++ present) failed_words in
    let second = convert_string access no_flags (text mode ∷ number address ∷ []) at refl in
    let at' = appended (at ++ access) in_words in
    let third = convert_string mode no_flags (number address ∷ []) at' refl in
    let (ds, digits, shows) = convert_hex address [] (appended (at' ++ mode) mode_words) word in
    (ds, digits, rw (first, second, third, shows) (ap ok (simp append_assoc refl)))

-- A text of at most twenty chars.
abbrev pub IsBrief : List ℕ → Type 0
IsBrief str = All (λ c. c ≢ 0) str × (length str ≤ 20)

fault_nonzero :
    (present access mode ds : List ℕ)
    → IsBrief present
    → IsBrief access
    → IsBrief mode
    → All (λ c. c ≢ 0) (fault_text present access mode ds)
unfolding is_plain
fault_nonzero present access mode ds (h1, l1) (h2, l2) (h3, l3) =
    let end =
      All-append (λ c. c ≢ 0) (map digit_char ds) (10 ∷ []) (digits_nonzero ds)
        (nonzero_append (10 ∷ []) [] refl tt) in
    let last = nonzero_append mode_words (map digit_char ds ++ 10 ∷ []) refl end in
    let third = All-append (λ c. c ≢ 0) mode (mode_part ds) h3 last in
    let more = in_words ++ (mode ++ mode_part ds) in
    let second =
      All-append (λ c. c ≢ 0) access more h2
        (nonzero_append in_words (mode ++ mode_part ds) refl third) in
    let most = failed_words ++ (access ++ more) in
    let first =
      All-append (λ c. c ≢ 0) present most h1
        (nonzero_append failed_words (access ++ more) refl second) in
    nonzero_append page_words (present ++ most) refl first

fault_length :
    (present access mode ds : List ℕ)
    → length (fault_text present access mode ds)
      ≡ 52 + length present + length access + length mode + length ds
fault_length present access mode ds =
    let more = in_words ++ (mode ++ mode_part ds) in
    omega (
      arith,
      length-append (map digit_char ds) (10 ∷ []),
      length-append mode (mode_part ds),
      length-append access more,
      length-append present (failed_words ++ (access ++ more)),
      length-digits ds,
    )

pub fault_line :
    (present access mode : List ℕ) (address : ℕ) (m : Monitor)
    → IsBrief present
    → IsBrief access
    → IsBrief mode
    → address < 2 ^ 32
    → IsValid m
    → (ds : List ℕ) × (next : Monitor) × IsWritten 16 address ds
      × (printk fault_format (text present ∷ text access ∷ text mode ∷ number address ∷ []) m
          ≡ ok (0, next))
      × (write m (fault_text present access mode ds) ≡ ok next)
      × IsValid next
unfolding fault_pieces
fault_line present access mode address m b1 b2 b3 word v =
    let (ds, digits, means) = fault_meaning present access mode address word in
    let (few, l1, l2, l3) : (length ds ≤ 62)
        × (length present ≤ 20)
        × (length access ≤ 20)
        × (length mode ≤ 20) =
      (digits.3, b1.1, b2.1, b3.1) in
    let (next, printed, wrote, valid) =
      printk_lem fault_pieces (text present ∷ text access ∷ text mode ∷ number address ∷ []) m
        (fault_text present access mode ds) v (ground arith) means
        (fault_nonzero present access mode ds b1 b2 b3)
        (omega (arith, fault_length present access mode ds)) in
    (ds, next, digits, printed, wrote, valid)

-- "At eip="
abbrev pub eip_words : List ℕ
eip_words = 65 ∷ 116 ∷ 32 ∷ 101 ∷ 105 ∷ 112 ∷ 61 ∷ []

-- "At eip=0x<digits>\n"
abbrev pub eip_text : List ℕ → List ℕ
eip_text ds = eip_words ++ 48 ∷ 120 ∷ (map digit_char ds ++ 10 ∷ [])

eip_pieces : List Piece
eip_pieces = map literal eip_words ++ field [] [] 112 ∷ literal 10 ∷ []

pub eip_line :
    (eip : ℕ) (m : Monitor)
    → eip < 2 ^ 32
    → IsValid m
    → (ds : List ℕ) × (next : Monitor) × IsWritten 16 eip ds
      × (printk eip_format (number eip ∷ []) m ≡ ok (0, next))
      × (write m (eip_text ds) ≡ ok next)
      × IsValid next
unfolding eip_pieces is_plain
eip_line eip m word v =
    let (ds, digits, shows) = convert_address eip [] eip_words word in
    let few : length ds ≤ 62 = digits.3 in
    let end =
      All-append (λ c. c ≢ 0) (map digit_char ds) (10 ∷ []) (digits_nonzero ds)
        (nonzero_append (10 ∷ []) [] refl tt) in
    let (next, printed, wrote, valid) =
      printk_lem eip_pieces (number eip ∷ []) m (eip_text ds) v (ground arith) (rw shows refl)
        (nonzero_append (eip_words ++ 48 ∷ 120 ∷ []) (map digit_char ds ++ 10 ∷ []) refl end)
        (omega (arith, length-append (map digit_char ds) (10 ∷ []), length-digits ds)) in
    (ds, next, digits, printed, wrote, valid)

-- The text of a note, if it is shown.
abbrev pub note_text : ℕ → List ℕ → List ℕ
note_text value note = if value == 0 then [] else note

pub note_lem :
    (value : ℕ) (note : List ℕ) (m : Monitor)
    → is_plain note ≡ true
    → length note < 4096
    → IsValid m
    → (next : Monitor) × (show_note value note m ≡ ok next)
      × (write m (note_text value note) ≡ ok next)
      × IsValid next
unfolding show_note write
note_lem value note m plain short v = elim (Bool-cases (value == 0)) [
  | inl e ↦ (m, rw e refl, rw e refl, v)
  | inr e ↦
      let (next, printed, wrote, valid) =
        printk_plain note [] m v (is_plain-IsPlain note plain) short in
      (next, rw (e, printed) refl, rw e wrote, valid)
]

pub notes_plain : (is_plain reserved_text ≡ true) × (is_plain fetch_text ≡ true)
unfolding is_plain
notes_plain = (refl, refl)

pub texts-IsBrief :
    (err : ℕ) → IsBrief (present_text err) × IsBrief (access_text err) × IsBrief (mode_text err)
texts-IsBrief err = (
  elim (Bool-cases (bit err 0 == 0)) [ inl e ↦ rw e (ground arith) | inr e ↦ rw e (ground arith) ],
  elim (Bool-cases (bit err 1 == 0)) [ inl e ↦ rw e (ground arith) | inr e ↦ rw e (ground arith) ],
  elim (Bool-cases (bit err 2 == 0)) [ inl e ↦ rw e (ground arith) | inr e ↦ rw e (ground arith) ],
)
