-- ===== src/Menu/Validate/Agreement.antt =====
-- The stack walk of internal/menu/validate.go always ends, and agrees with the recursive walk of
-- protocol/validate.go.
use sysc_tray.Prelude.{
  ℕ, zero, suc, ◌+◌, ◌<◌, ◌≤◌, ◌≡◌, refl, sym, ◌∙◌, inl, inr, ◌↔◌, true, false, List, [], ◌∷◌, ◌++◌,
  Option, some, arith, Result, ok, err, ◌>>=◌, is_ok, All, pos, eq_ℤ, eq_ℤ_iff, contains_iff_Fresh,
  Text, Bool-cases,
}
use mathlib.Core.List.{append_assoc, append-nil}
use sysc_tray.Prelude.Shuffles.{
  Shuffle, nil as shuffle_nil, cons as shuffle_cons, trans, Shuffle-sym, Shuffle-append_comm,
  Shuffle-append_left, Shuffle-append_right, Shuffle-All,
}
use sysc_tray.Protocol.Types.{
  MenuNode, MenuNodes, node, nil, cons, fields, Menu, max_text_bytes, max_menu_nodes,
}
use sysc_tray.Protocol.Fields.{IsText}
use sysc_tray.Protocol.Menus.{validate_menu}
use sysc_tray.Protocol.Menus.Accepted.{validate_menu_iff, IsMenu-Accepts}
use sysc_tray.MenuTree.{Entry, entries, entries_all, IsMenu, FitsInt, Walk, start}
use sysc_tray.MenuTree.Folds.{Visits, Accepts, Accepts-Shuffle, visit_all, visit_all_iff}
use sysc_tray.Menu.Validate.{
  Error, Check, root_identity, validate_text, visit, Frame, push, frame_entry, frame_children, run,
  rounds, finish, validate_with, validate,
}

validate_text_iff : (t : Text) → (validate_text t ≡ ok tt) ↔ IsText max_text_bytes t
unfolding validate_text
validate_text_iff t = ground arith

visit-Visits : Visits visit
unfolding visit
visit-Visits w e v h = ground (
  arith,
  validate_text_iff e.fields.label,
  validate_text_iff e.fields.icon_name,
  contains_iff_Fresh eq_ℤ eq_ℤ_iff e.fields.id w.seen,
)

-- The nodes of a tree in the order in which the stack gives them back: the last child first.
mutual
  popped : ℕ → MenuNode → List Entry
  popped d (node f ns) = record { depth = d; fields = f } ∷ popped_all (suc d) ns

  popped_all : ℕ → MenuNodes → List Entry
  popped_all d nil = []
  popped_all d (cons n ns) = popped_all d ns ++ popped d n

popped_stack : List Frame → List Entry
popped_stack [] = []
popped_stack (x ∷ stack) = popped x.depth x.target ++ popped_stack stack

mutual
  unfolding popped entries

  popped-Shuffle : (d : ℕ) (n : MenuNode) → Shuffle (popped d n) (entries d n)
  popped-Shuffle d (node f ns) = shuffle_cons _ (popped_all-Shuffle (suc d) ns)

  popped_all-Shuffle : (d : ℕ) (ns : MenuNodes) → Shuffle (popped_all d ns) (entries_all d ns)
  popped_all-Shuffle d nil = shuffle_nil
  popped_all-Shuffle d (cons n ns) = trans (Shuffle-append_comm (popped_all d ns) (popped d n)) (
      trans (Shuffle-append_right (popped_all d ns) (popped-Shuffle d n))
        (Shuffle-append_left (entries d n) (popped_all-Shuffle d ns)))

popped_stack-push :
    (d : ℕ) (ns : MenuNodes) (stack : List Frame)
    → popped_stack (push d ns stack) ≡ popped_all d ns ++ popped_stack stack
unfolding push popped_stack popped
popped_stack-push d nil stack = refl
popped_stack-push d (cons n ns) stack =
    popped_stack-push d ns (record { target = n; depth = d } ∷ stack)
    ∙ sym (append_assoc (popped_all d ns) (popped d n) (popped_stack stack))

visit-nodes :
    (w w' : Walk) (e : Entry)
    → visit w e ≡ ok w'
    → (w'.nodes ≡ suc w.nodes) × (w'.nodes ≤ max_menu_nodes)
unfolding visit
visit-nodes w w' e h = ground arith

settle :
    (r : Result Error Walk) (k : Walk → Option (Result Error Walk)) (g : Walk → Result Error Walk)
    → ((w : Walk) → r ≡ ok w → k w ≡ some (g w))
    → elim r [ err e ↦ some (err e) | ok w ↦ k w ] ≡ some (r >>= g)
settle (ok w) k g h = h w refl
settle (err e) k g h = refl

popped-frame :
    (d : ℕ) (n : MenuNode) → popped d n ≡ frame_entry d n ∷ popped_all (suc d) (frame_children n)
unfolding popped frame_entry frame_children
popped-frame d (node f ns) = refl

-- With a round for each node that the limit still admits and one more, the loop ends, and its
-- result is that of the walk over the nodes as they come off the stack.
run-visit_all :
    (fuel : ℕ) (w : Walk) (stack : List Frame)
    → w.nodes ≤ max_menu_nodes
    → max_menu_nodes < fuel + w.nodes
    → run fuel w stack ≡ some (visit_all visit w (popped_stack stack))
unfolding run visit_all popped_stack
run-visit_all zero w stack h k = absurd (omega arith)
run-visit_all (suc fuel) w [] h k = refl
run-visit_all (suc fuel) w (current ∷ stack) h k = rw (popped-frame current.depth current.target) (
    settle (visit w (frame_entry current.depth current.target)) _ _ (λ w' e.
      let n = visit-nodes w w' (frame_entry current.depth current.target) e in
      rw (← popped_stack-push (suc current.depth) (frame_children current.target) stack) (
        run-visit_all fuel w' (push (suc current.depth) (frame_children current.target) stack) n.1
          (omega (arith, n.0, k)))))

module _ (m : Menu) where
  -- The order in which the stack gives the nodes back.
  stack_order : List Entry
  stack_order = popped_stack (record { target = m.root; depth = 0 } ∷ [])

  stack_order-Shuffle : Shuffle stack_order (entries 0 m.root)
  unfolding stack_order popped_stack
  stack_order-Shuffle = rw (append-nil (popped 0 m.root)) (popped-Shuffle 0 m.root)

  validate_run :
      (fuel : ℕ)
      → max_menu_nodes < fuel
      → validate_with fuel m ≡ elim (eq_ℤ (fields m.root).id (pos 0)) [
        | false ↦ some (err root_identity)
        | true ↦ some (finish (visit_all visit start stack_order))
      ]
  unfolding validate_with stack_order
  validate_run fuel h =
      ground (arith, run-visit_all fuel start (record { target = m.root; depth = 0 } ∷ []))

  stack-Accepts :
      All FitsInt (entries 0 m.root)
      → (is_ok (visit_all visit start stack_order) ≡ true) ↔ Accepts start (entries 0 m.root)
  stack-Accepts h =
      let fits = Shuffle-All FitsInt (Shuffle-sym stack_order-Shuffle) h in
      let walk = visit_all_iff visit visit-Visits start stack_order (omega arith) fits in
      (
        λ r. Accepts-Shuffle start refl stack_order-Shuffle (walk.0 r),
        λ a. walk.1 (Accepts-Shuffle start refl (Shuffle-sym stack_order-Shuffle) a),
      )

  -- The loop over the stack ends for every tree within 513 rounds, however large the tree is, and
  -- more rounds give the same result.
  pub validate_ends :
      (fuel : ℕ)
      → max_menu_nodes < fuel
      → (r : Check) × (validate m ≡ some r) × (validate_with fuel m ≡ some r)
  unfolding validate
  validate_ends fuel h = elim (Bool-cases (eq_ℤ (fields m.root).id (pos 0))) [
    | inl e ↦ (
      finish (visit_all visit start stack_order),
      rw (validate_run rounds (omega arith), e),
      rw (validate_run fuel h, e),
    )
    | inr e ↦
        (err root_identity, rw (validate_run rounds (omega arith), e), rw (validate_run fuel h, e))
  ]

  -- The reader's validator passes a menu exactly when it is bounded, as the protocol's does.
  pub validate_iff : All FitsInt (entries 0 m.root) → (validate m ≡ some (ok tt)) ↔ IsMenu m
  unfolding validate finish
  validate_iff h = ground (
    arith,
    validate_run rounds,
    eq_ℤ_iff (fields m.root).id (pos 0),
    stack-Accepts h,
    IsMenu-Accepts m,
  )

  -- The walk with the stack, which visits the last child first, and the recursive walk accept the
  -- same menus.
  pub validate-agrees :
      All FitsInt (entries 0 m.root) → (validate m ≡ some (ok tt)) ↔ (validate_menu m ≡ ok tt)
  validate-agrees h = (
    λ e. (validate_menu_iff m h).1 ((validate_iff h).0 e),
    λ e. (validate_iff h).1 ((validate_menu_iff m h).0 e),
  )
