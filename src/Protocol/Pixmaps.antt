-- ===== src/Protocol/Pixmaps.antt =====
-- protocol/validate.go: pixmaps, icons and tooltips.
use sysc_tray.Prelude.{
  ℕ, ◌+◌, ◌*◌, ◌%◌, ◌^◌, ◌<◌, ◌≤◌, ◌≡◌, refl, ◌↔◌, true, not, ◌||◌, List, [], ◌∷◌, arith, ltb, ◌==◌,
  Result, ok, ◌>>◌, require, length, All, sum_by,
}
use sysc_tray.Protocol.Types.{
  Pixmap, Icon, Tooltip, max_text_bytes, max_tooltip_bytes, max_pixmap_dimension,
  max_pixmap_bytes_per_item,
}
use sysc_tray.Protocol.Errors.{Error, Check, pixmap_dimensions, pixmap_data_mismatch, pixmap_budget}
use sysc_tray.Protocol.Fields.{validate_text, IsText, validate_text-optional}

pub validate_pixmap : Pixmap → Check
validate_pixmap p =
    require
      (not (
        (p.width == 0)
        || ((p.height == 0)
            || (ltb max_pixmap_dimension p.width || ltb max_pixmap_dimension p.height))))
      pixmap_dimensions
    >> require (length p.argb == (p.width * p.height * 4) % 2 ^ 64) pixmap_data_mismatch
    >> require (not (ltb max_pixmap_bytes_per_item (length p.argb))) pixmap_budget

pub validate_pixmaps : List Pixmap → Check
validate_pixmaps [] = ok tt
validate_pixmaps (p ∷ ps) = validate_pixmap p >> validate_pixmaps ps

pub validate_icon : Icon → Check
validate_icon i =
    validate_text i.name max_text_bytes true
    >> validate_text i.theme_path max_text_bytes true
    >> validate_pixmaps i.pixmaps

pub validate_tooltip : Tooltip → Check
validate_tooltip t =
    validate_text t.icon_name max_text_bytes true
    >> validate_text t.title max_tooltip_bytes true
    >> validate_text t.description max_tooltip_bytes true
    >> validate_pixmaps t.pixmaps

-- `*total += uint64(len(pixmap.ARGB))` over one set, each pixmap validated first.
pub add_pixmaps : ℕ → List Pixmap → Result Error ℕ
add_pixmaps total [] = ok total
add_pixmaps total (p ∷ ps) = validate_pixmap p >> add_pixmaps ((total + length p.argb) % 2 ^ 64) ps

-- A pixmap whose sides are within the limit and whose bytes are four for each pixel.
pub record IsPixmap (p : Pixmap) : Type 0 where
  pub wide : 0 < p.width
  pub high : 0 < p.height
  pub width_limit : p.width ≤ max_pixmap_dimension
  pub height_limit : p.height ≤ max_pixmap_dimension
  pub filled : length p.argb ≡ p.width * p.height * 4

pub area_bound : (w h : ℕ) → w ≤ 512 → h ≤ 512 → w * h ≤ 262144
area_bound w h p q = grind arith

-- A pixmap passes exactly when its sides are from 1 to 512 and its bytes are four for each pixel:
-- the product cannot wrap, and the byte budget of one item is met by every such pixmap.
pub validate_pixmap_iff : (p : Pixmap) → (validate_pixmap p ≡ ok tt) ↔ IsPixmap p
unfolding validate_pixmap
validate_pixmap_iff p = ground (arith, area_bound p.width p.height)

pub validate_pixmaps_iff : (ps : List Pixmap) → (validate_pixmaps ps ≡ ok tt) ↔ All IsPixmap ps
unfolding validate_pixmaps
validate_pixmaps_iff [] = (λ h. tt, λ h. refl)
validate_pixmaps_iff (p ∷ ps) = ground (arith, validate_pixmap_iff p, validate_pixmaps_iff ps)

pub record IsIcon (i : Icon) : Type 0 where
  pub name : IsText max_text_bytes i.name
  pub theme_path : IsText max_text_bytes i.theme_path
  pub pixmaps : All IsPixmap i.pixmaps

pub validate_icon_iff : (i : Icon) → (validate_icon i ≡ ok tt) ↔ IsIcon i
unfolding validate_icon
validate_icon_iff i = ground (
  arith,
  validate_text-optional i.name max_text_bytes,
  validate_text-optional i.theme_path max_text_bytes,
  validate_pixmaps_iff i.pixmaps,
)

pub record IsTooltip (t : Tooltip) : Type 0 where
  pub icon_name : IsText max_text_bytes t.icon_name
  pub title : IsText max_tooltip_bytes t.title
  pub description : IsText max_tooltip_bytes t.description
  pub pixmaps : All IsPixmap t.pixmaps

pub validate_tooltip_iff : (t : Tooltip) → (validate_tooltip t ≡ ok tt) ↔ IsTooltip t
unfolding validate_tooltip
validate_tooltip_iff t = ground (
  arith,
  validate_text-optional t.icon_name max_text_bytes,
  validate_text-optional t.title max_tooltip_bytes,
  validate_text-optional t.description max_tooltip_bytes,
  validate_pixmaps_iff t.pixmaps,
)

-- The bytes of a set.
abbrev pub set_bytes : List Pixmap → ℕ
set_bytes = sum_by (λ p. length p.argb)

pub add_pixmaps_lem :
    (total : ℕ) (ps : List Pixmap)
    → total < 2 ^ 64
    → All IsPixmap ps
    → add_pixmaps total ps ≡ ok ((total + set_bytes ps) % 2 ^ 64)
unfolding add_pixmaps
add_pixmaps_lem total [] h a = ground arith
add_pixmaps_lem total (p ∷ ps) h a =
    ground (arith, validate_pixmap_iff p, add_pixmaps_lem ((total + length p.argb) % 2 ^ 64) ps)
