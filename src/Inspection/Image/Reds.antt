-- ===== src/Inspection/Image/Reds.antt =====
-- The red pixels of a frame, described by its bytes and by the name of its encoding.
use amr_warehouse_navigation.Common.{
  Bool, true, false, ◌≡◌, refl, ap, ◌∙◌, sym, subst, Option, none, some, List, [], ◌∷◌, ◌++◌,
  String, ℕ, zero, suc, ◌+◌, ◌*◌, ◌≤◌, ◌<◌, if◌then◌else◌, leb, nat_eq, arith, if_cases, length,
  returned,
}
use amr_warehouse_navigation.Inspection.Image.{
  Frame, Layout, layout_of, lower, same_codes, take, drop, row_bytes, is_red_dominant, count_red,
}

-- Where a code stands in a text.
abbrev pub index_of : ℕ → List ℕ → ℕ
index_of c [] = 0
index_of c (x ∷ xs) = if nat_eq x c then 0 else index_of c xs + 1

-- The byte at a place, 0 beyond the end.
abbrev pub nth : List ℕ → ℕ → ℕ
nth [] i = 0
nth (x ∷ xs) zero = x
nth (x ∷ xs) (suc i) = nth xs i

-- Encodings are named for the order of their bytes, one letter for each, up to an '8': the byte of
-- a colour in pixel j of row i, by the letter.
abbrev pub colour : Frame → ℕ → ℕ → ℕ → ℕ
colour f letter i j =
    let name = lower f.encoding in
    nth f.data_bytes (i * f.step + j * index_of 56 name + index_of letter name)

-- Red is 150 or more, and 35 or more above green ('g', 103) and blue ('b', 98).
abbrev pub red_at : Frame → ℕ → ℕ → ℕ
red_at f i j =
    if leb 150 (colour f 114 i j)
    then (if leb (colour f 103 i j + 35) (colour f 114 i j)
        then (if leb (colour f 98 i j + 35) (colour f 114 i j) then 1 else 0)
        else 0)
    else 0

-- The red ones of so many pixels of row i, from pixel j on.
abbrev pub reds_of_row : Frame → ℕ → ℕ → ℕ → ℕ
reds_of_row f i zero j = 0
reds_of_row f i (suc pixels) j = red_at f i j + reds_of_row f i pixels (j + 1)

-- The red ones of so many rows, from row i on.
abbrev pub reds_of_rows : Frame → ℕ → ℕ → ℕ
reds_of_rows f zero i = 0
reds_of_rows f (suc rows) i = reds_of_row f i f.width 0 + reds_of_rows f rows (i + 1)

-- A layout has its colours where the name of the encoding has their letters.
pub record IsNamed (name : List ℕ) (l : Layout) : Type 0 where
  pub red : l.red ≡ index_of 114 name
  pub green : l.green ≡ index_of 103 name
  pub blue : l.blue ≡ index_of 98 name
  pub whole : l.bytes_per_pixel ≡ index_of 56 name

abbrev pub HasNames : List ℕ → Option Layout → Type 0
HasNames name none = Unit
HasNames name (some l) = IsNamed name l

same_codes-≡ : (xs ys : List ℕ) → same_codes xs ys ≡ true → xs ≡ ys
same_codes-≡ [] [] h = refl
same_codes-≡ [] (y ∷ ys) h = cc
same_codes-≡ (x ∷ xs) [] h = cc
same_codes-≡ (x ∷ xs) (y ∷ ys) h =
    let head : x ≡ y = ground arith in
    let rest : same_codes xs ys ≡ true = ground arith in rw (head, same_codes-≡ xs ys rest) refl

known_layout :
    (name known : List ℕ) (l : Layout)
    → IsNamed known l
    → same_codes name known ≡ true
    → IsNamed name l
known_layout name known l h same = subst (λ n. IsNamed n l) (sym (same_codes-≡ name known same)) h

pub layout_of-HasNames : (encoding : String) → HasNames (lower encoding) (layout_of encoding)
unfolding layout_of
layout_of-HasNames encoding =
    let name = lower encoding in
    if_cases (HasNames name) (same_codes name (lower "rgb8")) _ _
      (known_layout name (lower "rgb8") _
        (record { red = refl; green = refl; blue = refl; whole = refl }))
      (λ other.
        if_cases (HasNames name) (same_codes name (lower "bgr8")) _ _
          (known_layout name (lower "bgr8") _
            (record { red = refl; green = refl; blue = refl; whole = refl }))
          (λ other'.
            if_cases (HasNames name) (same_codes name (lower "rgba8")) _ _
              (known_layout name (lower "rgba8") _
                (record { red = refl; green = refl; blue = refl; whole = refl }))
              (λ other''.
                if_cases (HasNames name) (same_codes name (lower "bgra8")) _ _
                  (known_layout name (lower "bgra8") _
                    (record { red = refl; green = refl; blue = refl; whole = refl }))
                  (λ unknown. tt))))

-- The red pixels of packed bytes.
abbrev pub reds : List ℕ → ℕ
reds (r ∷ g ∷ b ∷ rest) = (if is_red_dominant r g b then 1 else 0) + reds rest
reds _ = 0

pub count_red-reds :
    (n : ℕ) (rgb : List ℕ) → length rgb ≡ n * 3 → count_red rgb ≡ returned (reds rgb)
unfolding count_red
count_red-reds n [] h = refl
count_red-reds n (r ∷ []) h = let never : ⊥ = omega arith in absurd never
count_red-reds n (r ∷ g ∷ []) h = let never : ⊥ = omega arith in absurd never
count_red-reds zero (r ∷ g ∷ b ∷ rest) h = let never : ⊥ = omega arith in absurd never
count_red-reds (suc n) (r ∷ g ∷ b ∷ rest) h =
    rw (count_red-reds n rest (omega arith))
      (ap returned (one_more (is_red_dominant r g b) (reds rest)))
  where
    one_more : (x : Bool) (k : ℕ) → (if x then k + 1 else k) ≡ (if x then 1 else 0) + k
    one_more true k = omega arith
    one_more false k = omega arith

pub reds-append :
    (n : ℕ) (row rest : List ℕ) → length row ≡ n * 3 → reds (row ++ rest) ≡ reds row + reds rest
reds-append n [] rest h = omega arith
reds-append n (r ∷ []) rest h = let never : ⊥ = omega arith in absurd never
reds-append n (r ∷ g ∷ []) rest h = let never : ⊥ = omega arith in absurd never
reds-append zero (r ∷ g ∷ b ∷ row) rest h = let never : ⊥ = omega arith in absurd never
reds-append (suc n) (r ∷ g ∷ b ∷ row) rest h = omega (arith, reds-append n row rest (omega arith))

-- The red ones of so many pixels that a layout reads in a row, from an offset on.
abbrev pub reds_read : Layout → List ℕ → ℕ → ℕ → ℕ
reds_read l row zero offset = 0
reds_read l row (suc pixels) offset =
    (if is_red_dominant (nth row (offset + l.red)) (nth row (offset + l.green))
        (nth row (offset + l.blue))
      then 1
      else 0)
    + reds_read l row pixels (offset + l.bytes_per_pixel)

nth-drop : (n k : ℕ) (xs : List ℕ) → nth (drop n xs) k ≡ nth xs (n + k)
nth-drop zero k xs = ap (nth xs) (omega arith)
nth-drop (suc n) k [] = refl
nth-drop (suc n) k (x ∷ xs) =
    let next : suc (n + k) ≡ suc n + k = omega arith in nth-drop n k xs ∙ ap (nth (x ∷ xs)) next

nth-take : (n k : ℕ) (xs : List ℕ) → k < n → nth (take n xs) k ≡ nth xs k
nth-take zero k xs h = let never : ⊥ = omega arith in absurd never
nth-take (suc n) k [] h = refl
nth-take (suc n) zero (x ∷ xs) h = refl
nth-take (suc n) (suc k) (x ∷ xs) h = nth-take n k xs (omega arith)

-- A byte that is read in a row of the frame.
nth-row_bytes :
    (step most i k : ℕ) (xs : List ℕ)
    → k < most
    → nth (row_bytes step most i xs) k ≡ nth xs (i * step + k)
nth-row_bytes step most i k xs h = nth-take most k (drop (i * step) xs) h ∙ nth-drop (i * step) k xs

-- The offsets of a layout stand within its pixel.
abbrev pub IsLayout : Layout → Type 0
IsLayout l =
    (l.red < l.bytes_per_pixel) × (l.green < l.bytes_per_pixel) × (l.blue < l.bytes_per_pixel)

nested :
    (r g b : ℕ)
    → ◌≡◌ {A = ℕ}
        (if is_red_dominant r g b then 1 else 0)
        (if leb 150 r then (if leb (g + 35) r then (if leb (b + 35) r then 1 else 0) else 0) else 0)
nested r g b = ground arith

module _ (f : Frame) (l : Layout) (named : IsNamed (lower f.encoding) l) (inside : IsLayout l)
    (i : ℕ) where
  abbrev row : List ℕ
  row = row_bytes f.step (f.width * l.bytes_per_pixel) i f.data_bytes

  -- A byte of a pixel, by the letter of its colour.
  read_colour :
      (letter place j offset : ℕ)
      → offset ≡ j * l.bytes_per_pixel
      → place ≡ index_of letter (lower f.encoding)
      → offset + place < f.width * l.bytes_per_pixel
      → nth row (offset + place) ≡ colour f letter i j
  read_colour letter place j offset at own fit =
      let pixel : j * l.bytes_per_pixel ≡ j * index_of 56 (lower f.encoding) =
        ap (λ b. j * b) named.whole in
      nth-row_bytes f.step (f.width * l.bytes_per_pixel) i (offset + place) f.data_bytes fit
      ∙ ap (nth f.data_bytes) (omega arith)

  pub reds_read-reds_of_row :
      (pixels j offset : ℕ)
      → offset ≡ j * l.bytes_per_pixel
      → offset + pixels * l.bytes_per_pixel ≤ f.width * l.bytes_per_pixel
      → reds_read l row pixels offset ≡ reds_of_row f i pixels j
  reds_read-reds_of_row zero j offset at fit = refl
  reds_read-reds_of_row (suc pixels) j offset at fit =
      rw
        (
          read_colour 114 l.red j offset at named.red (omega arith),
          read_colour 103 l.green j offset at named.green (omega arith),
          read_colour 98 l.blue j offset at named.blue (omega arith),
          nested (colour f 114 i j) (colour f 103 i j) (colour f 98 i j),
          reds_read-reds_of_row pixels (j + 1) (offset + l.bytes_per_pixel) (omega arith)
              (omega arith),
        )
        refl
