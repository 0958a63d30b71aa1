-- ===== src/Inspection/Image/Bounds.antt =====
-- A frame that is decoded is read within its bytes.
use amr_warehouse_navigation.Common.{
  Bool, true, false, not, ◌⊎◌, inl, inr, ◌∙◌, Bool-cases, ◌&&◌, ◌||◌, ◌≡◌, refl, ap, Option, none,
  some, List, [], ◌∷◌, ◌++◌, String, ℕ, zero, suc, ◌+◌, ◌*◌, ◌-◌, ◌/◌, ◌%◌, ◌≤◌, ◌<◌, if◌then◌else◌,
  ltb, nat_eq, arith, if_cases, Outcome, returned, raised, length,
}
use amr_warehouse_navigation.Common.Int.{pos, leb_ℤ}
use amr_warehouse_navigation.Inspection.Image.Reds.{
  nth, reds, reds_read, reds_of_row, reds_of_rows, IsNamed, HasNames, IsLayout, count_red-reds,
  reds-append, reds_read-reds_of_row, layout_of-HasNames,
}
use amr_warehouse_navigation.Inspection.Image.{
  ImageError, Frame, Layout, layout_of, lower, same_codes, take, drop, byte_at, and_then,
  decode_row, row_bytes, decode_rows, decode_as, decode_rgb_bytes, is_red_dominant,
  VisualEvaluation, is_above, evaluate_red_ratio,
}

-- So many bytes have been returned, and so many red pixels in them.
abbrev Full : ℕ → ℕ → Outcome ImageError (List ℕ) → Type 0
Full n k (raised e) = ⊥
Full n k (returned xs) = (length xs ≡ n) × (reds xs ≡ k)

-- A byte within the list is read.
and_then_byte :
    (P : Outcome ImageError (List ℕ) → Type 0) (xs : List ℕ) (i : ℕ)
    (f : ℕ → Outcome ImageError (List ℕ))
    → i < length xs
    → P (f (nth xs i))
    → P (and_then (byte_at xs i) f)
and_then_byte P [] i f h k = let never : ⊥ = omega arith in absurd never
and_then_byte P (x ∷ xs) zero f h k = k
and_then_byte P (x ∷ xs) (suc i) f h k = and_then_byte P xs i f (omega arith) k

and_then_full :
    (P : Outcome ImageError (List ℕ) → Type 0) (n k : ℕ) (m : Outcome ImageError (List ℕ))
    (f : List ℕ → Outcome ImageError (List ℕ))
    → Full n k m
    → ((xs : List ℕ) → length xs ≡ n → reds xs ≡ k → P (f xs))
    → P (and_then m f)
and_then_full P n k (raised e) f h more = absurd h
and_then_full P n k (returned xs) f h more = more xs h.0 h.1

abbrev HasLayout : Option Layout → Type 0
HasLayout none = Unit
HasLayout (some l) = IsLayout l

decode_row-Full :
    (l : Layout) (row : List ℕ) (pixels offset : ℕ)
    → IsLayout l
    → offset + pixels * l.bytes_per_pixel ≤ length row
    → Full (pixels * 3) (reds_read l row pixels offset) (decode_row l row pixels offset)
unfolding decode_row
decode_row-Full l row zero offset inside h = (refl, refl)
decode_row-Full l row (suc pixels) offset inside h =
    let P = Full (suc pixels * 3) (reds_read l row (suc pixels) offset) in
    and_then_byte P row (offset + l.red) _ (omega arith) (
      and_then_byte P row (offset + l.green) _ (omega arith) (
        and_then_byte P row (offset + l.blue) _ (omega arith) (
          and_then_full P (pixels * 3) (reds_read l row pixels (offset + l.bytes_per_pixel)) _ _
            (decode_row-Full l row pixels (offset + l.bytes_per_pixel) inside (omega arith))
            (λ rest e k. (omega arith, rw k refl)))))

length-drop : (n : ℕ) (xs : List ℕ) → length (drop n xs) ≡ length xs - n
length-drop zero xs = omega arith
length-drop (suc n) [] = omega arith
length-drop (suc n) (x ∷ xs) = omega (arith, length-drop n xs)

length-take : (n : ℕ) (xs : List ℕ) → n ≤ length xs → length (take n xs) ≡ n
length-take zero xs h = refl
length-take (suc n) [] h = omega arith
length-take (suc n) (x ∷ xs) h = ap suc (length-take n xs (omega arith))

length-append : (xs ys : List ℕ) → length (xs ++ ys) ≡ length xs + length ys
length-append [] ys = omega arith
length-append (x ∷ xs) ys = omega (arith, length-append xs ys)

decode_rows-Full :
    (l : Layout) (f : Frame) (rows row_index : ℕ)
    → IsNamed (lower f.encoding) l
    → IsLayout l
    → f.width * l.bytes_per_pixel ≤ f.step
    → row_index * f.step + rows * f.step ≤ length f.data_bytes
    → Full (rows * (f.width * 3)) (reds_of_rows f rows row_index) (decode_rows l f rows row_index)
unfolding decode_rows
decode_rows-Full l f zero row_index named good wide enough = (omega arith, refl)
decode_rows-Full l f (suc rows) row_index named good wide enough =
    let m = f.width * l.bytes_per_pixel in
    let row = row_bytes f.step m row_index f.data_bytes in
    let whole : length row ≡ m =
      length-take m (drop (row_index * f.step) f.data_bytes)
        (omega (arith, length-drop (row_index * f.step) f.data_bytes)) in
    let own : reds_read l row f.width 0 ≡ reds_of_row f row_index f.width 0 =
      reds_read-reds_of_row f l named good row_index f.width 0 0 (omega arith) (omega arith) in
    let P = Full (suc rows * (f.width * 3)) (reds_of_rows f (suc rows) row_index) in
    and_then_full P (f.width * 3) (reds_read l row f.width 0) _ _
      (decode_row-Full l row f.width 0 good (omega arith))
      (λ first e k.
        and_then_full P (rows * (f.width * 3)) (reds_of_rows f rows (row_index + 1)) _ _
          (decode_rows-Full l f rows (row_index + 1) named good wide (omega arith))
          (λ rest e' k'. (
            omega (arith, length-append first rest),
            reds-append f.width first rest e ∙ rw (k, k', own) refl,
          )))

-- The reasons for which a frame is refused.
abbrev is_refusal : ImageError → Bool
is_refusal ImageError.unsupported_encoding = true
is_refusal ImageError.dimensions_not_positive = true
is_refusal ImageError.step_too_small = true
is_refusal ImageError.data_truncated = true
is_refusal _ = false

-- A frame is refused for a reason, or its pixels are all there, three bytes for each, and as many
-- of them red as in the frame.
abbrev pub Decodes : Frame → Outcome ImageError (List ℕ) → Type 0
Decodes f (raised e) = is_refusal e ≡ true
Decodes f (returned rgb) =
    (length rgb ≡ f.width * f.height * 3)
    × (0 < f.width * f.height)
    × (reds rgb ≡ reds_of_rows f f.height 0)

Full-Decodes :
    (f : Frame) (m : Outcome ImageError (List ℕ))
    → Full (f.height * (f.width * 3)) (reds_of_rows f f.height 0) m
    → 0 < f.width * f.height
    → Decodes f m
Full-Decodes f (raised e) h some_pixels = absurd h
Full-Decodes f (returned rgb) h some_pixels = (omega (arith, h.0), some_pixels, h.1)

positive_product : (a b : ℕ) → (nat_eq a 0 || nat_eq b 0) ≡ false → 0 < a * b
positive_product zero b h = let never : ⊥ = ground arith in absurd never
positive_product (suc a) zero h = let never : ⊥ = ground arith in absurd never
positive_product (suc a) (suc b) h = omega arith

decode_as-Decodes :
    (f : Frame) (layout : Option Layout)
    → HasLayout layout
    → HasNames (lower f.encoding) layout
    → Decodes f (decode_as f layout)
decode_as-Decodes f none known named = refl
decode_as-Decodes f (some l) known named =
    if_cases (Decodes f) (nat_eq f.width 0 || nat_eq f.height 0) _ _ (λ empty. refl)
      (λ solid.
        if_cases (Decodes f) (ltb f.step (f.width * l.bytes_per_pixel)) _ _ (λ narrow. refl)
          (λ wide.
            if_cases (Decodes f) (ltb (length f.data_bytes) (f.step * f.height)) _ _ (λ short. refl)
              (λ whole.
                Full-Decodes f (decode_rows l f f.height 0)
                  (decode_rows-Full l f f.height 0 named known (ground arith) (enough whole))
                  (positive_product f.width f.height solid))))
  where
    enough :
        ltb (length f.data_bytes) (f.step * f.height) ≡ false
        → 0 * f.step + f.height * f.step ≤ length f.data_bytes
    enough h = let fits : f.step * f.height ≤ length f.data_bytes = ground arith in omega arith

-- Every known encoding has its colours within a pixel.
layout_of-HasLayout : (encoding : String) → HasLayout (layout_of encoding)
unfolding layout_of
layout_of-HasLayout encoding =
    let name = lower encoding in
    if_cases HasLayout (same_codes name (lower "rgb8")) _ _ (λ rgb. omega arith)
      (λ other.
        if_cases HasLayout (same_codes name (lower "bgr8")) _ _ (λ bgr. omega arith)
          (λ other'.
            if_cases HasLayout (same_codes name (lower "rgba8")) _ _ (λ rgba. omega arith)
              (λ other''.
                if_cases HasLayout (same_codes name (lower "bgra8")) _ _ (λ bgra. omega arith)
                  (λ unknown. tt))))

pub decode_rgb_bytes-Decodes : (f : Frame) → Decodes f (decode_rgb_bytes f)
unfolding decode_rgb_bytes
decode_rgb_bytes-Decodes f =
    decode_as-Decodes f (layout_of f.encoding) (layout_of-HasLayout f.encoding)
      (layout_of-HasNames f.encoding)

reds-bound : (n : ℕ) (rgb : List ℕ) → length rgb ≡ n * 3 → reds rgb ≤ n
reds-bound n [] h = omega arith
reds-bound n (r ∷ []) h = let never : ⊥ = omega arith in absurd never
reds-bound n (r ∷ g ∷ []) h = let never : ⊥ = omega arith in absurd never
reds-bound zero (r ∷ g ∷ b ∷ rest) h = let never : ⊥ = omega arith in absurd never
reds-bound (suc n) (r ∷ g ∷ b ∷ rest) h =
    one_at_most (is_red_dominant r g b) (reds rest) (reds-bound n rest (omega arith))
  where
    one_at_most : (x : Bool) (k : ℕ) → k ≤ n → (if x then 1 else 0) + k ≤ suc n
    one_at_most true k h = omega arith
    one_at_most false k h = omega arith

-- An evaluation of all the pixels of a frame, with the red ones counted, and a warning exactly
-- where their share is above so many thousandths.
abbrev pub Evaluates : Frame → ℕ → Outcome ImageError VisualEvaluation → Type 0
Evaluates f thousandths (raised e) = is_refusal e ≡ true
Evaluates f thousandths (returned v) =
    (v.pixels ≡ f.width * f.height)
    × (v.red_pixels ≡ reds_of_rows f f.height 0)
    × (v.red_pixels ≤ v.pixels)
    × (v.threshold ≡ pos thousandths)
    × (((v.warning ≡ true) × (thousandths * v.pixels < v.red_pixels * 1000))
        ⊎ ((v.warning ≡ false) × (v.red_pixels * 1000 ≤ thousandths * v.pixels)))

warns :
    (red pixels thousandths : ℕ)
    → ((is_above red pixels (pos thousandths) ≡ true) × (thousandths * pixels < red * 1000))
      ⊎ ((is_above red pixels (pos thousandths) ≡ false) × (red * 1000 ≤ thousandths * pixels))
warns red pixels thousandths =
    let bar = thousandths * pixels in
    elim (Bool-cases (ltb bar (red * 1000))) [
      | inl above ↦ inl (above, ground arith)
      | inr below ↦ inr (below, ground arith)
    ]

evaluated :
    (f : Frame) (thousandths : ℕ) (rgb : List ℕ)
    → thousandths ≤ 1000
    → length rgb ≡ f.width * f.height * 3
    → 0 < f.width * f.height
    → reds rgb ≡ reds_of_rows f f.height 0
    → Evaluates f thousandths (evaluate_red_ratio rgb (pos thousandths))
unfolding evaluate_red_ratio
evaluated f thousandths rgb within size some_pixels red =
    let third : length rgb / 3 ≡ f.width * f.height = omega arith in
    let thirds : length rgb ≡ length rgb / 3 * 3 = omega arith in
    let packed : (nat_eq (length rgb) 0 || not (nat_eq (length rgb % 3) 0)) ≡ false =
      (let even : length rgb % 3 ≡ 0 = omega arith in
        let some_bytes : 0 < length rgb = omega arith in ground arith) in
    let allowed : (leb_ℤ (pos 0) (pos thousandths) && leb_ℤ (pos thousandths) (pos 1000)) ≡ true =
      ground arith in
    rw (packed, allowed, count_red-reds (length rgb / 3) rgb thirds)
      (third, red, reds-bound (length rgb / 3) rgb thirds, refl, warns (reds rgb) _ thousandths)

decoded-Evaluates :
    (f : Frame) (thousandths : ℕ) (m : Outcome ImageError (List ℕ))
    → thousandths ≤ 1000
    → Decodes f m
    → Evaluates f thousandths (and_then m (λ rgb. evaluate_red_ratio rgb (pos thousandths)))
decoded-Evaluates f thousandths (raised e) within h = h
decoded-Evaluates f thousandths (returned rgb) within (size, some_pixels, red) =
    evaluated f thousandths rgb within size some_pixels red

-- With a threshold from 0 to 1, in thousandths, the evaluation of a decoded frame never reads
-- outside the bytes: the frame is refused for its encoding, its dimensions, its step or the bytes
-- that are missing, or it is evaluated on width times height pixels. The red pixels are those of
-- the frame whose bytes, found by the letters of the encoding's name, have red at 150 or more and
-- at least 35 above green and blue; no more of them are counted than there are pixels, and the
-- warning is given exactly where their share is above the threshold.
pub evaluate_red_ratio-decode_rgb_bytes :
    (f : Frame) (thousandths : ℕ)
    → thousandths ≤ 1000
    → Evaluates f thousandths
        (and_then (decode_rgb_bytes f) (λ rgb. evaluate_red_ratio rgb (pos thousandths)))
evaluate_red_ratio-decode_rgb_bytes f thousandths within =
    decoded-Evaluates f thousandths (decode_rgb_bytes f) within (decode_rgb_bytes-Decodes f)
