-- ===== src/Item/Pixmaps.antt =====
-- internal/item/pixmap.go: `decodePixmaps`, whose loop runs over what `pixmapFields` read, `none`
-- where it could not. A width and a height are int64; the budget is an int that is not negative.
use sysc_tray.Dbusval.{Value, tuple, elements, int_in, bytes_in}
use sysc_tray.Prelude.{
  ℕ, ◌+◌, ◌*◌, ◌%◌, ◌^◌, ◌≤◌, ◌≡◌, Bool, true, not, ◌&&◌, List, [], ◌∷◌, Option, none, some, arith,
  leb, ◌==◌, if◌then◌else◌, All, length, Text, ℤ, pos, negsuc, map, Option-cases, inl, inr,
}
use sysc_tray.Protocol.Types.{Pixmap, max_pixmap_dimension}
use sysc_tray.Protocol.Pixmaps.{IsPixmap, set_bytes, area_bound}

pub record Candidate : Type 0 where
  pub width : ℤ
  pub height : ℤ
  pub argb : Text

-- The side as a number, 0 where it is not positive.
side : ℤ → ℕ
side (pos n) = n
side (negsuc n) = 0

-- The guards of the loop, with the bytes that were taken before.
fits : ℕ → ℕ → Candidate → Bool
unfolding side
fits budget total c =
    let w = side c.width in
    let h = side c.height in
    not (w == 0)
    && (not (h == 0)
        && (leb w max_pixmap_dimension
            && (leb h max_pixmap_dimension
                && (((w * h * 4) % 2 ^ 64 == length c.argb)
                    && leb (total + length c.argb) budget))))

to_pixmap : Candidate → Pixmap
unfolding side
to_pixmap c = record { width = side c.width; height = side c.height; argb = c.argb }

decode_from : ℕ → ℕ → List (Option Candidate) → List Pixmap
unfolding fits to_pixmap
decode_from budget total [] = []
decode_from budget total (none ∷ cs) = decode_from budget total cs
decode_from budget total (some c ∷ cs) =
    let skipped = decode_from budget total cs in
    let rest = decode_from budget (total + length c.argb) cs in
    if fits budget total c then to_pixmap c ∷ rest else skipped

pub decode_pixmaps : List (Option Candidate) → ℕ → List Pixmap
unfolding decode_from
decode_pixmaps cs budget = decode_from budget 0 cs

fits-IsPixmap :
    (budget total : ℕ) (c : Candidate) → fits budget total c ≡ true → IsPixmap (to_pixmap c)
unfolding fits to_pixmap
fits-IsPixmap budget total c h = ground (arith, area_bound (side c.width) (side c.height))

fits_budget :
    (budget total : ℕ) (c : Candidate) → fits budget total c ≡ true → total + length c.argb ≤ budget
unfolding fits
fits_budget budget total c h = ground arith

decode_from-valid :
    (budget total : ℕ) (cs : List (Option Candidate))
    → total ≤ budget
    → All IsPixmap (decode_from budget total cs)
      × (total + set_bytes (decode_from budget total cs) ≤ budget)
unfolding decode_from to_pixmap
decode_from-valid budget total [] le = ground arith
decode_from-valid budget total (none ∷ cs) le = decode_from-valid budget total cs le
decode_from-valid budget total (some c ∷ cs) le = ground (
  arith,
  fits-IsPixmap budget total c,
  fits_budget budget total c,
  decode_from-valid budget total cs le,
  decode_from-valid budget (total + length c.argb) cs,
)

-- Whatever an application offers, the pixmaps taken from it are valid, and have at most the budget's
-- bytes in all.
pub decode_pixmaps_valid :
    (cs : List (Option Candidate)) (budget : ℕ)
    → All IsPixmap (decode_pixmaps cs budget) × (set_bytes (decode_pixmaps cs budget) ≤ budget)
unfolding decode_pixmaps
decode_pixmaps_valid cs budget = ground (arith, decode_from-valid budget 0 cs)

candidate_of : Option ℤ → Option ℤ → Option Text → Option Candidate
candidate_of (some w) (some h) (some b) = some (record { width = w; height = h; argb = b })
candidate_of w h b = none

-- `pixmapFields`
pub pixmap_fields : Value → Option Candidate
unfolding candidate_of
pixmap_fields v = elim (tuple v 3) [
  | some (w ∷ h ∷ b ∷ rest) ↦ candidate_of (int_in w) (int_in h) (bytes_in b)
  | _ ↦ none
]

-- `decodePixmaps` on a value of the bus.
pub decode_value : Value → ℕ → List Pixmap
unfolding decode_pixmaps
decode_value v budget = elim (elements v) [
  | none ↦ []
  | some vs ↦ decode_pixmaps (map pixmap_fields vs) budget
]

pub decode_value_valid :
    (v : Value) (budget : ℕ)
    → All IsPixmap (decode_value v budget) × (set_bytes (decode_value v budget) ≤ budget)
unfolding decode_value
decode_value_valid v budget = elim (Option-cases (elements v)) [
  | inl bad ↦ rw (bad, decode_value) (tt, omega arith)
  | inr (vs, good) ↦ rw (good, decode_value) (decode_pixmaps_valid (map pixmap_fields vs) budget)
]
