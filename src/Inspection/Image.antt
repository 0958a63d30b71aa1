-- ===== src/Inspection/Image.antt =====
-- amr_warehouse_sim/inspection/visual_evaluator.py: the pixels of a camera frame, and the share of
-- red ones. A byte is a number, and a ratio is the two numbers that it is the quotient of.
pub mod Reds
pub mod Bounds
use Prim.Native.Char.{code}
use amr_warehouse_navigation.Common.{
  Bool, true, false, not, ◌&&◌, ◌||◌, Option, none, some, List, [], ◌∷◌, ◌++◌, String, ℕ, zero, suc,
  ◌+◌, ◌*◌, ◌-◌, ◌/◌, ◌%◌, if◌then◌else◌, ltb, leb, nat_eq, Outcome, returned, raised, length,
}
use amr_warehouse_navigation.Common.Int.{ℤ, pos, pos_part, leb_ℤ}

pub data ImageError : Type 0 where
  -- `InvalidImageError`, with the reasons that it is raised for
  unsupported_encoding dimensions_not_positive step_too_small data_truncated : ImageError
  packed_length_invalid : ImageError
  -- `ValueError` and `IndexError`
  bad_threshold out_of_range : ImageError

pub record Frame : Type 0 where
  pub width : ℕ
  pub height : ℕ
  pub encoding : String
  pub step : ℕ
  pub data_bytes : List ℕ

-- The bytes of a pixel, and where its red, green and blue stand.
pub record Layout : Type 0 where
  pub bytes_per_pixel : ℕ
  pub red : ℕ
  pub green : ℕ
  pub blue : ℕ

abbrev lower_code : ℕ → ℕ
lower_code c = if leb 65 c && leb c 90 then c + 32 else c

-- `encoding.lower()`, of which only the letters of the known encodings matter.
abbrev pub lower : String → List ℕ
lower String.[] = []
lower (String.◌∷◌ c s) = lower_code (code c) ∷ lower s

abbrev pub same_codes : List ℕ → List ℕ → Bool
same_codes [] [] = true
same_codes (a ∷ rest) (b ∷ rest') = nat_eq a b && same_codes rest rest'
same_codes _ _ = false

-- `_ENCODINGS`
unfoldable pub layout_of : String → Option Layout
layout_of encoding =
    let name = lower encoding in
    if same_codes name (lower "rgb8")
    then some (record { bytes_per_pixel = 3; red = 0; green = 1; blue = 2 })
    else if same_codes name (lower "bgr8")
    then some (record { bytes_per_pixel = 3; red = 2; green = 1; blue = 0 })
    else if same_codes name (lower "rgba8")
    then some (record { bytes_per_pixel = 4; red = 0; green = 1; blue = 2 })
    else if same_codes name (lower "bgra8")
    then some (record { bytes_per_pixel = 4; red = 2; green = 1; blue = 0 })
    else none

abbrev pub take : {A : Type 0} → ℕ → List A → List A
take zero xs = []
take (suc n) [] = []
take (suc n) (x ∷ xs) = x ∷ take n xs

abbrev pub drop : {A : Type 0} → ℕ → List A → List A
drop zero xs = xs
drop (suc n) [] = []
drop (suc n) (x ∷ xs) = drop n xs

-- `xs[i]`
abbrev pub byte_at : List ℕ → ℕ → Outcome ImageError ℕ
byte_at [] i = raised out_of_range
byte_at (x ∷ xs) zero = returned x
byte_at (x ∷ xs) (suc i) = byte_at xs i

abbrev pub and_then :
    {A B : Type 0} → Outcome ImageError A → (A → Outcome ImageError B) → Outcome ImageError B
and_then (returned a) f = f a
and_then (raised e) f = raised e

-- The pixels of a row from an offset on. The output is filled from its start without a gap, so it
-- is the list of what is written.
unfoldable pub decode_row : Layout → List ℕ → ℕ → ℕ → Outcome ImageError (List ℕ)
decode_row l row zero offset = returned []
decode_row l row (suc pixels) offset = and_then (byte_at row (offset + l.red)) (λ r.
    and_then (byte_at row (offset + l.green)) (λ g. and_then (byte_at row (offset + l.blue)) (λ b.
      and_then (decode_row l row pixels (offset + l.bytes_per_pixel))
        (λ rest. returned (r ∷ g ∷ b ∷ rest)))))

abbrev pub row_bytes : ℕ → ℕ → ℕ → List ℕ → List ℕ
row_bytes step minimum_step row_index xs = take minimum_step (drop (row_index * step) xs)

-- The rows from an index on.
unfoldable pub decode_rows : Layout → Frame → ℕ → ℕ → Outcome ImageError (List ℕ)
decode_rows l f zero row_index = returned []
decode_rows l f (suc rows) row_index =
    and_then
      (decode_row l (row_bytes f.step (f.width * l.bytes_per_pixel) row_index f.data_bytes) f.width
        0)
      (λ row. and_then (decode_rows l f rows (row_index + 1)) (λ rest. returned (row ++ rest)))

abbrev pub decode_as : Frame → Option Layout → Outcome ImageError (List ℕ)
decode_as f none = raised ImageError.unsupported_encoding
decode_as f (some l) =
    if nat_eq f.width 0 || nat_eq f.height 0
    then raised ImageError.dimensions_not_positive
    else if ltb f.step (f.width * l.bytes_per_pixel)
    then raised ImageError.step_too_small
    else if ltb (length f.data_bytes) (f.step * f.height)
    then raised ImageError.data_truncated
    else decode_rows l f f.height 0

unfoldable pub decode_rgb_bytes : Frame → Outcome ImageError (List ℕ)
decode_rgb_bytes f = decode_as f (layout_of f.encoding)

-- `red >= 150 and red >= green + 35 and red >= blue + 35`
abbrev pub is_red_dominant : ℕ → ℕ → ℕ → Bool
is_red_dominant red green blue = leb 150 red && leb (green + 35) red && leb (blue + 35) red

-- The red pixels of packed bytes; a pixel that breaks off cannot be read.
unfoldable pub count_red : List ℕ → Outcome ImageError ℕ
count_red [] = returned 0
count_red (red ∷ green ∷ blue ∷ rest) =
    and_then (count_red rest) (λ n. returned (if is_red_dominant red green blue then n + 1 else n))
count_red _ = raised out_of_range

-- The threshold in thousandths.
pub record VisualEvaluation : Type 0 where
  pub red_pixels : ℕ
  pub pixels : ℕ
  pub threshold : ℤ
  pub warning : Bool

-- `finding`, `severity` and `reason` of an evaluation.
abbrev finding_of : Bool → String
finding_of true = "warning"
finding_of false = "pass"

abbrev severity_of : Bool → Option String
severity_of true = some "warning"
severity_of false = none

abbrev reason_of : Bool → String
reason_of true = "red_ratio_above_threshold"
reason_of false = "red_ratio_within_threshold"

-- `ratio > threshold`, multiplied out.
abbrev pub is_above : ℕ → ℕ → ℤ → Bool
is_above red pixels threshold = ltb (pos_part threshold * pixels) (red * 1000)

unfoldable pub evaluate_red_ratio : List ℕ → ℤ → Outcome ImageError VisualEvaluation
evaluate_red_ratio rgb threshold =
    if nat_eq (length rgb) 0 || not (nat_eq (length rgb % 3) 0)
    then raised ImageError.packed_length_invalid
    else if not (leb_ℤ (pos 0) threshold && leb_ℤ threshold (pos 1000))
    then raised ImageError.bad_threshold
    else and_then (count_red rgb) (λ n. returned (record {
      red_pixels = n;
      pixels = length rgb / 3;
      threshold = threshold;
      warning = is_above n (length rgb / 3) threshold;
    }))
