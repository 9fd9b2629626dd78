-- ===== src/Protocol/Snapshots.antt =====
-- protocol/validate.go: `Snapshot.Validate`.
use sysc_tray.Prelude.{
  ℕ, ◌+◌, ◌%◌, ◌^◌, ◌≤◌, ◌≡◌, ◌↔◌, not, List, [], ◌∷◌, arith, ltb, ok, ◌>>=◌, ◌>>◌, require, length,
  All, Distinct, Apart, Apart-nil, Apart-cons, contains, contains_iff_Fresh, sum_by, map,
}
use sysc_tray.Protocol.Types.{Item, ItemKey, Snapshot, max_items, max_pixmap_bytes_aggregate}
use sysc_tray.Protocol.Errors.{Check, too_many_items, duplicate_item, aggregate_budget}
use sysc_tray.Protocol.Fields.{key_eq, key_eq_iff}
use sysc_tray.Protocol.Items.{
  IconOrder, validate_item, validate_item_iff, IsItem, pixmap_bytes, pixmap_bytes_lem,
  carried_bytes,
}

-- `seen` and `aggregate` are the loop's variables.
validate_items : IconOrder → List ItemKey → ℕ → List Item → Check
validate_items order seen aggregate [] = ok tt
validate_items order seen aggregate (i ∷ is) =
    let rest = λ (total : ℕ). validate_items order (i.key ∷ seen) total is in
    validate_item order i >> require (not (contains key_eq i.key seen)) duplicate_item >> (do
      bytes ← pixmap_bytes i
      let total = (aggregate + bytes) % 2 ^ 64
      require (not (ltb max_pixmap_bytes_aggregate total)) aggregate_budget
      rest total)

unfoldable pub validate_snapshot : IconOrder → Snapshot → Check
unfolding validate_items
validate_snapshot order s =
    require (not (ltb max_items (length s.items))) too_many_items
    >> validate_items order [] 0 s.items

-- The uint64 total of an item.
abbrev pub item_bytes : Item → ℕ
item_bytes i = carried_bytes i % 2 ^ 64

abbrev pub item_keys : List Item → List ItemKey
item_keys = map (λ i. i.key)

pub record IsSnapshot (s : Snapshot) : Type 0 where
  pub few : length s.items ≤ max_items
  pub valid : All IsItem s.items
  pub keys : Distinct (item_keys s.items)
  pub budget : sum_by item_bytes s.items ≤ max_pixmap_bytes_aggregate

validate_items_iff :
    (order : IconOrder) (seen : List ItemKey) (aggregate : ℕ) (is : List Item)
    → aggregate ≤ max_pixmap_bytes_aggregate
    → (validate_items order seen aggregate is ≡ ok tt) ↔ (
        All IsItem is
        × Distinct (item_keys is)
        × Apart seen (item_keys is)
        × (aggregate + sum_by item_bytes is ≤ max_pixmap_bytes_aggregate))
unfolding validate_items
validate_items_iff order seen aggregate [] h = ground arith
validate_items_iff order seen aggregate (i ∷ is) h = ground (
  arith,
  validate_item_iff order i,
  pixmap_bytes_lem i,
  contains_iff_Fresh key_eq key_eq_iff i.key seen,
  Apart-cons i.key seen (item_keys is),
  validate_items_iff order (i.key ∷ seen) (aggregate + item_bytes i) is,
)

-- A snapshot passes exactly when it has at most 128 items, all of them valid, no key twice, and at
-- most 8 MiB of pixmap bytes in total.
pub validate_snapshot_iff :
    (order : IconOrder) (s : Snapshot) → (validate_snapshot order s ≡ ok tt) ↔ IsSnapshot s
unfolding validate_snapshot
validate_snapshot_iff order s =
    ground (arith, validate_items_iff order [] 0 s.items, Apart-nil (item_keys s.items))
