-- ===== src/MenuTree/Folds.antt =====
-- A walk over a list of entries by any visit that follows the rules of `Visits`.
use sysc_tray.Prelude.{
  ◌+◌, ◌≤◌, ◌≡◌, refl, ◌⊎◌, ◌↔◌, true, List, [], ◌∷◌, ◌++◌, arith, Result, ok, err, ◌>>=◌, is_ok,
  length, All, Distinct, Apart, Apart-nil, Apart-cons,
}
use sysc_tray.Prelude.Shuffles.{
  Shuffle, Shuffle-length, Shuffle-sum_by, Shuffle-All, Shuffle-Distinct, Shuffle-map,
}
use sysc_tray.Protocol.Types.{max_menu_nodes, max_menu_icon_bytes}
use sysc_tray.MenuTree.{
  Entry, IsEntry, FitsInt, Walk, advance, IsWalk, Admits, entry_ids, icon_bytes,
}

-- A visit goes on to the next state when the walk admits the entry, and fails when it does not.
abbrev pub Visits {ℓ} : {E : Type ℓ} → (Walk → Entry → Result E Walk) → Type ℓ
Visits {E = E} visit =
    (w : Walk) (e : Entry)
    → IsWalk w
    → FitsInt e
    → ((visit w e ≡ ok (advance w e)) × Admits w e)
      ⊎ (((x : E) × (visit w e ≡ err x)) × ¬ Admits w e)

-- The entries that a walk can take one after the other.
pub record Accepts (w : Walk) (es : List Entry) : Type 0 where
  pub valid : All IsEntry es
  pub ids : Distinct (entry_ids es)
  pub apart : Apart w.seen (entry_ids es)
  pub nodes : w.nodes + length es ≤ max_menu_nodes
  pub icons : w.icons + icon_bytes es ≤ max_menu_icon_bytes

module _ {ℓ} {E : Type ℓ} (visit : Walk → Entry → Result E Walk) where
  unfoldable pub visit_all : Walk → List Entry → Result E Walk
  visit_all w [] = ok w
  visit_all w (e ∷ es) = visit w e >>= λ w'. visit_all w' es

  bind_visit_all :
      (r : Result E Walk) (ys : List Entry) (xs : List Entry)
      → ((w : Walk) → visit_all w (xs ++ ys) ≡ (visit_all w xs >>= λ w'. visit_all w' ys))
      → (r >>= λ w. visit_all w (xs ++ ys))
        ≡ ((r >>= λ w. visit_all w xs) >>= λ w'. visit_all w' ys)
  bind_visit_all (ok w) ys xs ih = ih w
  bind_visit_all (err x) ys xs ih = refl

  pub visit_all-append :
      (w : Walk) (xs ys : List Entry)
      → visit_all w (xs ++ ys) ≡ (visit_all w xs >>= λ w'. visit_all w' ys)
  unfolding visit_all
  visit_all-append w [] ys = refl
  visit_all-append w (x ∷ xs) ys =
      bind_visit_all (visit w x) ys xs (λ w'. visit_all-append w' xs ys)

module _ {ℓ} {E : Type ℓ} (visit : Walk → Entry → Result E Walk) (visits : Visits visit) where
  -- A walk over a list of entries succeeds exactly when it can take them all.
  pub visit_all_iff :
      (w : Walk) (es : List Entry)
      → IsWalk w
      → All FitsInt es
      → (is_ok (visit_all visit w es) ≡ true) ↔ Accepts w es
  unfolding visit_all
  visit_all_iff w [] v h = ground arith
  visit_all_iff w (e ∷ es) v h = ground (
    arith,
    visits w e,
    Apart-cons e.fields.id w.seen (entry_ids es),
    visit_all_iff (advance w e) es,
  )

-- The order of the entries does not matter.
pub Accepts-Shuffle :
    (w : Walk) {xs ys : List Entry} → w.seen ≡ [] → Shuffle xs ys → Accepts w xs → Accepts w ys
Accepts-Shuffle w {xs} {ys} fresh s a = record {
  valid = Shuffle-All IsEntry s a.valid;
  ids = Shuffle-Distinct (Shuffle-map (λ (e : Entry). e.fields.id) s) a.ids;
  apart = rw fresh (Apart-nil (entry_ids ys));
  nodes = omega (arith, Shuffle-length s, a.nodes);
  icons = omega (arith, Shuffle-sum_by (λ (e : Entry). length e.fields.icon_data) s, a.icons);
}
