-- ===== src/Protocol/Menus/Accepted.antt =====
-- What `Menu.Validate` accepts.
use sysc_tray.Prelude.{
  ℕ, suc, ◌≡◌, refl, ◌↔◌, arith, Result, ok, err, ◌>>=◌, All, Apart-nil, pos, eq_ℤ, eq_ℤ_iff,
  contains_iff_Fresh,
}
use sysc_tray.Protocol.Types.{MenuNode, MenuNodes, node, nil, cons, fields, Menu, max_text_bytes}
use sysc_tray.Protocol.Fields.{validate_text-optional}
use sysc_tray.MenuTree.{entries, entries_all, IsMenu, FitsInt, Walk, start, entry_ids}
use sysc_tray.MenuTree.Folds.{Visits, Accepts, visit_all, visit_all-append, visit_all_iff}
use sysc_tray.Protocol.Menus.{visit, validate_node, validate_nodes, validate_menu}

visit-Visits : Visits visit
unfolding visit
visit-Visits w e v h = ground (
  arith,
  validate_text-optional e.fields.label max_text_bytes,
  validate_text-optional e.fields.icon_name max_text_bytes,
  contains_iff_Fresh eq_ℤ eq_ℤ_iff e.fields.id w.seen,
)

bind_ext {ℓ} :
    {E A B : Type ℓ} (r : Result E A) (f g : A → Result E B)
    → ((a : A) → f a ≡ g a)
    → (r >>= f) ≡ (r >>= g)
bind_ext (ok a) f g h = h a
bind_ext (err e) f g h = refl

-- The recursion is the walk over the entries, parents first.
mutual
  unfolding validate_node entries visit_all

  validate_node-visit_all :
      (d : ℕ) (w : Walk) (n : MenuNode) → validate_node d w n ≡ visit_all visit w (entries d n)
  validate_node-visit_all d w (node f ns) =
      bind_ext (visit w (record { depth = d; fields = f })) _ _
        (λ w'. validate_nodes-visit_all (suc d) w' ns)

  validate_nodes-visit_all :
      (d : ℕ) (w : Walk) (ns : MenuNodes)
      → validate_nodes d w ns ≡ visit_all visit w (entries_all d ns)
  validate_nodes-visit_all d w nil = refl
  validate_nodes-visit_all d w (cons n ns) =
      rw (validate_node-visit_all d w n, visit_all-append visit w (entries d n) (entries_all d ns))
        (bind_ext (visit_all visit w (entries d n)) _ _ (λ w'. validate_nodes-visit_all d w' ns))

pub IsMenu-Accepts :
    (m : Menu) → IsMenu m ↔ (((fields m.root).id ≡ pos 0) × Accepts start (entries 0 m.root))
IsMenu-Accepts m = ground (arith, Apart-nil (entry_ids (entries 0 m.root)))

-- The protocol's validator passes a menu exactly when it is bounded: root 0, distinct non-negative
-- IDs, at most 8 levels below the root, 512 nodes and 2 MiB of icons, valid texts and known modes.
pub validate_menu_iff :
    (m : Menu) → All FitsInt (entries 0 m.root) → (validate_menu m ≡ ok tt) ↔ IsMenu m
unfolding validate_menu
validate_menu_iff m h = ground (
  arith,
  eq_ℤ_iff (fields m.root).id (pos 0),
  validate_node-visit_all 0 start m.root,
  visit_all_iff visit visit-Visits start (entries 0 m.root),
  IsMenu-Accepts m,
)
