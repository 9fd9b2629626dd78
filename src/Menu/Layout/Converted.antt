-- ===== src/Menu/Layout/Converted.antt =====
-- What `convertLayout` of internal/menu/model.go builds from the layout of an application.
use sysc_tray.Prelude.{
  ℕ, zero, suc, ◌+◌, ◌≤◌, ◌<◌, ◌≡◌, refl, subst, ◌⊎◌, List, [], ◌∷◌, length, length-append, arith,
  Option, none, some, Result, ok, err, inl, inr, Bool-cases, Option-cases, ltb,
}
use sysc_tray.Dbusval.{Value}
use sysc_tray.Protocol.Types.{
  NodeFields, MenuNode, MenuNodes, node, nil, cons, Menu, max_menu_depth, max_menu_nodes,
}
use sysc_tray.MenuTree.{entries, entries_all}
use sysc_tray.Menu.Layout.{
  LayoutError, Frame, convert_node, source_children, push_children, run, rounds, finish,
  convert_layout,
}
use sysc_tray.Menu.Layout.Trees.{snoc, append_at, append_in, count_at}
use sysc_tray.Menu.Layout.Growing.{Mirrors, Growing, grown, waiting, step, after, Growing-Mirrors}

convert_node-cases :
    (v : Value)
    → ((e : LayoutError) × (convert_node v ≡ err e)) ⊎ ((f : NodeFields) × (convert_node v ≡ ok f))
convert_node-cases v =
    elim (convert_node v)
      as (λ r. ((e : LayoutError) × (r ≡ err e)) ⊎ ((f : NodeFields) × (r ≡ ok f))) [
        | err e ↦ inl (e, refl)
        | ok f ↦ inr (f, refl)
      ]

mutual
  unfolding append_at entries snoc

  size-append_at :
      (d : ℕ) (path : List ℕ) (f : NodeFields) (t : MenuNode)
      → length (entries d (append_at path (node f nil) t)) ≤ suc (length (entries d t))
  size-append_at d [] f (node g ns) = omega (arith, size-snoc (suc d) f ns)
  size-append_at d (i ∷ path) f (node g ns) = omega (arith, size-append_in (suc d) i path f ns)

  size-snoc :
      (d : ℕ) (f : NodeFields) (ns : MenuNodes)
      → length (entries_all d (snoc ns (node f nil))) ≤ suc (length (entries_all d ns))
  size-snoc d f nil = omega arith
  size-snoc d f (cons m ms) = omega (
    arith,
    size-snoc d f ms,
    length-append (entries d m) (entries_all d (snoc ms (node f nil))),
    length-append (entries d m) (entries_all d ms),
  )

  size-append_in :
      (d i : ℕ) (path : List ℕ) (f : NodeFields) (ns : MenuNodes)
      → length (entries_all d (append_in i path (node f nil) ns)) ≤ suc (length (entries_all d ns))
  size-append_in d i path f nil = omega arith
  size-append_in d zero path f (cons m ms) = omega (
    arith,
    size-append_at d path f m,
    length-append (entries d (append_at path (node f nil) m)) (entries_all d ms),
    length-append (entries d m) (entries_all d ms),
  )
  size-append_in d (suc i) path f (cons m ms) = omega (
    arith,
    size-append_in d i path f ms,
    length-append (entries d m) (entries_all d (append_in i path (node f nil) ms)),
    length-append (entries d m) (entries_all d ms),
  )

-- The fuel is enough: a round for each node that the count admits and one more.
run-terminates :
    (fuel nodes : ℕ) (tree : MenuNode) (stack : List Frame)
    → nodes ≤ max_menu_nodes
    → max_menu_nodes < nodes + fuel
    → ¬ (run fuel nodes tree stack ≡ none)
unfolding run
run-terminates fuel nodes tree [] le h = ground arith
run-terminates zero nodes tree (x ∷ stack) le h = omega arith
run-terminates (suc fuel) nodes tree (x ∷ stack) le h = elim (convert_node-cases x.source) [
  | inl (e, bad) ↦ ground arith
  | inr (f, good) ↦ ground (
    arith,
    run-terminates fuel (suc nodes) (append_at x.target (node f nil) tree)
        (after (count_at x.target tree) x stack),
  )
]

run-Mirrors :
    (fuel nodes : ℕ) (v : Value) (tree root : MenuNode) (stack : List Frame)
    → Growing 0 [] v tree stack
    → run fuel nodes tree stack ≡ some (ok root)
    → Mirrors 0 v root
unfolding run
run-Mirrors fuel nodes v tree root [] g h =
    subst (Mirrors 0 v) (ground arith) (Growing-Mirrors [] refl g)
run-Mirrors zero nodes v tree root (x ∷ stack) g h = ground arith
run-Mirrors (suc fuel) nodes v tree root (x ∷ stack) g h =
    elim (Bool-cases (ltb max_menu_depth x.depth)) [
      | inl deep ↦ ground arith
      | inr shallow ↦ elim (convert_node-cases x.source) [
        | inl (e, bad) ↦ ground arith
        | inr (f, good) ↦
            let (q, at, g') = step x stack (x ∷ stack) f refl good (ground arith) g in
            run-Mirrors fuel (suc nodes) v (append_at q (node f nil) tree) root
              (after (count_at q tree) x stack) g'
              (subst
                (λ path.
                  run fuel (suc nodes) (append_at path (node f nil) tree)
                    (after (count_at path tree) x stack)
                  ≡ some (ok root))
                at (ground arith))
      ]
    ]

run-size :
    (fuel nodes : ℕ) (tree root : MenuNode) (stack : List Frame)
    → nodes ≤ max_menu_nodes
    → length (entries 0 tree) ≤ nodes
    → run fuel nodes tree stack ≡ some (ok root)
    → length (entries 0 root) ≤ max_menu_nodes
unfolding run
run-size fuel nodes tree root [] le sized h = ground arith
run-size zero nodes tree root (x ∷ stack) le sized h = ground arith
run-size (suc fuel) nodes tree root (x ∷ stack) le sized h = elim (convert_node-cases x.source) [
  | inl (e, bad) ↦ ground arith
  | inr (f, good) ↦ ground (
    arith,
    size-append_at 0 x.target f tree,
    run-size fuel (suc nodes) (append_at x.target (node f nil) tree) root
        (after (count_at x.target tree) x stack),
  )
]

first_frames : Value → List Frame
first_frames layout = push_children (source_children layout) [] 1 []

start : NodeFields → Value → Option (Result LayoutError MenuNode)
start f layout = run rounds 1 (node f nil) (first_frames layout)

-- The conversion of a layout always ends.
pub convert_layout-terminates :
    (revision : ℕ) (layout : Value) → ¬ (convert_layout revision layout ≡ none)
unfolding convert_layout start first_frames
convert_layout-terminates revision layout = elim (convert_node-cases layout) [
  | inl (e, bad) ↦ λ h. ground arith
  | inr (f, good) ↦ elim (Option-cases (start f layout)) [
    | inl bad ↦
        absurd (
          run-terminates rounds 1 (node f nil) (first_frames layout) (omega arith) (omega arith)
            bad)
    | inr (r, found) ↦ λ h. ground arith
  ]
]

-- A menu that the conversion of a layout returns has the revision of the layout and mirrors it: each
-- node is read from the node of the layout at its place, with the children in their order and none
-- left out. It has at most 512 nodes, and none below depth 8.
pub convert_layout-Mirrors :
    (revision : ℕ) (layout : Value) (m : Menu)
    → convert_layout revision layout ≡ some (ok m)
    → (m.revision ≡ revision)
      × Mirrors 0 layout m.root
      × (length (entries 0 m.root) ≤ max_menu_nodes)
unfolding convert_layout finish start first_frames entries
convert_layout-Mirrors revision layout m h = elim (convert_node-cases layout) [
  | inl (e, bad) ↦ ground arith
  | inr (f, good) ↦ elim (Option-cases (start f layout)) [
    | inl bad ↦ ground arith
    | inr (err e, found) ↦ ground arith
    | inr (ok root, found) ↦ ground (
      arith,
      run-Mirrors rounds 1 layout (node f nil) root (first_frames layout)
          (grown good (omega arith) (waiting refl)) found,
      run-size rounds 1 (node f nil) root (first_frames layout) (omega arith) (omega arith) found,
    )
  ]
]
