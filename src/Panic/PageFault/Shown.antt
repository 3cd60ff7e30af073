-- ===== src/Panic/PageFault/Shown.antt =====
-- What a page fault shows for each bit of the error code, and that the handler chooses these texts.
use evos.Base.{ℕ, arith, false, zero, suc, ◌≡◌, refl, List, [], ◌∷◌, ◌==◌, if◌then◌else◌}
use evos.Panic.PageFault.{
  not_text, read_text, write_text, kernel_text, user_text, reserved_text, fetch_text,
}
use evos.Panic.PageFault.Lines.{note_text}

-- "NOT " for 0, and nothing otherwise
abbrev pub present_shown : ℕ → List ℕ
present_shown zero = 78 ∷ 79 ∷ 84 ∷ 32 ∷ []
present_shown (suc more) = []

pub present_chosen : (value : ℕ) → present_shown value ≡ (if value == 0 then not_text else [])
present_chosen zero = refl
present_chosen (suc more) =
    let some_bit : (suc more == 0) ≡ false = ground arith in rw some_bit refl

-- "read" for 0, and "write" otherwise
abbrev pub access_shown : ℕ → List ℕ
access_shown zero = 114 ∷ 101 ∷ 97 ∷ 100 ∷ []
access_shown (suc more) = 119 ∷ 114 ∷ 105 ∷ 116 ∷ 101 ∷ []

pub access_chosen :
    (value : ℕ) → access_shown value ≡ (if value == 0 then read_text else write_text)
access_chosen zero = refl
access_chosen (suc more) = let some_bit : (suc more == 0) ≡ false = ground arith in rw some_bit refl

-- "kernel" for 0, and "user" otherwise
abbrev pub mode_shown : ℕ → List ℕ
mode_shown zero = 107 ∷ 101 ∷ 114 ∷ 110 ∷ 101 ∷ 108 ∷ []
mode_shown (suc more) = 117 ∷ 115 ∷ 101 ∷ 114 ∷ []

pub mode_chosen : (value : ℕ) → mode_shown value ≡ (if value == 0 then kernel_text else user_text)
mode_chosen zero = refl
mode_chosen (suc more) = let some_bit : (suc more == 0) ≡ false = ground arith in rw some_bit refl

-- nothing for 0, and "Also trampled reserved bits" with a new line otherwise
abbrev pub reserved_shown : ℕ → List ℕ
reserved_shown zero = []
reserved_shown (suc more) =
    65 ∷ 108 ∷ 115 ∷ 111 ∷ 32 ∷ 116 ∷ 114 ∷ 97 ∷ 109 ∷ 112 ∷ 108 ∷ 101 ∷ 100 ∷ 32 ∷ 114 ∷ 101 ∷ 115
    ∷ 101 ∷ 114 ∷ 118 ∷ 101 ∷ 100 ∷ 32 ∷ 98 ∷ 105 ∷ 116 ∷ 115 ∷ 10 ∷ []

pub reserved_chosen : (value : ℕ) → reserved_shown value ≡ note_text value reserved_text
reserved_chosen zero = refl
reserved_chosen (suc more) =
    let some_bit : (suc more == 0) ≡ false = ground arith in rw some_bit refl

-- nothing for 0, and "Error occurred during op-fetch" with a new line otherwise
abbrev pub fetch_shown : ℕ → List ℕ
fetch_shown zero = []
fetch_shown (suc more) =
    69 ∷ 114 ∷ 114 ∷ 111 ∷ 114 ∷ 32 ∷ 111 ∷ 99 ∷ 99 ∷ 117 ∷ 114 ∷ 114 ∷ 101 ∷ 100 ∷ 32 ∷ 100 ∷ 117
    ∷ 114 ∷ 105 ∷ 110 ∷ 103 ∷ 32 ∷ 111 ∷ 112 ∷ 45 ∷ 102 ∷ 101 ∷ 116 ∷ 99 ∷ 104 ∷ 10 ∷ []

pub fetch_chosen : (value : ℕ) → fetch_shown value ≡ note_text value fetch_text
fetch_chosen zero = refl
fetch_chosen (suc more) = let some_bit : (suc more == 0) ≡ false = ground arith in rw some_bit refl
