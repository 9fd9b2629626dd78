-- ===== src/Menu/Layout/Growing.antt =====
-- The worklist of internal/menu/model.go while it runs: the tree mirrors the layout but for the
-- frames on the stack, whose targets lie on the path from the root to the last node.
use sysc_tray.Prelude.{
  ℕ, suc, ◌+◌, ◌≤◌, ◌≡◌, refl, sym, ◌∙◌, ap, subst, List, [], ◌∷◌, ◌++◌, ◌⊎◌, inl, inr, arith, ok,
}
use mathlib.Core.List.{append_assoc, append-nil}
use sysc_tray.Dbusval.{Value}
use sysc_tray.Protocol.Types.{NodeFields, MenuNode, MenuNodes, node, nil, cons, max_menu_depth}
use sysc_tray.Menu.Layout.{Frame, convert_node, source_children, push_children}
use sysc_tray.Menu.Layout.Trees.{snoc, count, append_at, append_in, count_at, count_in}

-- A tree whose nodes are read from the nodes of a layout, child by child and in their order.
mutual
  pub data Mirrors : ℕ → Value → MenuNode → Type 0 where
    mirror :
        {d : ℕ}
        → {v : Value} → {f : NodeFields} → {ns : MenuNodes} → convert_node v ≡ ok f
        → d ≤ max_menu_depth
        → MirrorsAll (suc d) (source_children v) ns
        → Mirrors d v (node f ns)

  pub data MirrorsAll : ℕ → List Value → MenuNodes → Type 0 where
    end : {d : ℕ} → MirrorsAll d [] nil
    both :
        {d : ℕ}
        → {c : Value} → {cs : List Value} → {n : MenuNode} → {ns : MenuNodes} → Mirrors d c n
        → MirrorsAll d cs ns
        → MirrorsAll d (c ∷ cs) (cons n ns)

mutual
  pub data Growing : ℕ → List ℕ → Value → MenuNode → List Frame → Type 0 where
    grown :
        {d : ℕ}
        → {p : List ℕ} → {v : Value} → {f : NodeFields} → {ns : MenuNodes} → {s : List Frame}
        → convert_node v ≡ ok f
        → d ≤ max_menu_depth
        → GrowingIn (suc d) p 0 (source_children v) ns s
        → Growing d p v (node f ns) s

  pub data GrowingIn : ℕ → List ℕ → ℕ → List Value → MenuNodes → List Frame → Type 0 where
    waiting :
        {d : ℕ}
        → {p : List ℕ} → {i : ℕ} → {cs : List Value} → {s : List Frame}
        → s ≡ push_children cs p d []
        → GrowingIn d p i cs nil s
    done :
        {d : ℕ}
        → {p : List ℕ} → {i : ℕ} → {c : Value} → {cs : List Value} → {n : MenuNode}
        → {ns : MenuNodes} → {s : List Frame} → Mirrors d c n
        → GrowingIn d p (suc i) cs ns s
        → GrowingIn d p i (c ∷ cs) (cons n ns) s
    last :
        {d : ℕ}
        → {p : List ℕ} → {i : ℕ} → {c : Value} → {cs : List Value} → {n : MenuNode}
        → {s t : List Frame} → Growing d (p ++ i ∷ []) c n s
        → t ≡ s ++ push_children cs p d []
        → GrowingIn d p i (c ∷ cs) (cons n nil) t

push_children-append :
    (cs : List Value) (p : List ℕ) (d : ℕ) (s t : List Frame)
    → push_children cs p d (s ++ t) ≡ push_children cs p d s ++ t
unfolding push_children
push_children-append [] p d s t = refl
push_children-append (c ∷ cs) p d s t =
    ap (λ r. record { source = c; target = p; depth = d } ∷ r) (push_children-append cs p d s t)

nothing_waits :
    (d : ℕ) (p : List ℕ) (cs : List Value) → [] ≡ push_children cs p d [] → MirrorsAll d cs nil
unfolding push_children
nothing_waits d p [] e = end
nothing_waits d p (c ∷ cs) e = ground arith

append-empty : {A : Type 0} (s t : List A) → [] ≡ s ++ t → (s ≡ []) × ([] ≡ t)
append-empty [] t e = (refl, e)
append-empty (x ∷ s) t e = ground arith

cons_injective : {A : Type 0} {x y : A} {s t : List A} → x ∷ s ≡ y ∷ t → (x ≡ y) × (s ≡ t)
cons_injective e = ground arith

-- A tree with nothing on the stack is complete.
mutual
  pub Growing-Mirrors :
      {d : ℕ} {p : List ℕ} {v : Value} {t : MenuNode} (s : List Frame)
      → s ≡ []
      → Growing d p v t s
      → Mirrors d v t
  Growing-Mirrors s e (grown h le g) = mirror h le (GrowingIn-MirrorsAll s e g)

  GrowingIn-MirrorsAll :
      {d i : ℕ} {p : List ℕ} {cs : List Value} {ns : MenuNodes} (s : List Frame)
      → s ≡ []
      → GrowingIn d p i cs ns s
      → MirrorsAll d cs ns
  GrowingIn-MirrorsAll s e (waiting {cs = cs} h) = nothing_waits _ _ cs (sym e ∙ h)
  GrowingIn-MirrorsAll s e (done m g) = both m (GrowingIn-MirrorsAll s e g)
  GrowingIn-MirrorsAll s e (last {cs = cs} {s = t} g h) =
      let (none_left, rest) = append-empty t _ (sym e ∙ h) in
      both (Growing-Mirrors t none_left g) (nothing_waits _ _ cs rest)

-- The stack once the children of a frame's node are pushed; the node is child n of its target.
abbrev pub after : ℕ → Frame → List Frame → List Frame
after n x rest = push_children (source_children x.source) (x.target ++ n ∷ []) (suc x.depth) rest

-- The frame on the top is the next child of its target.
opened :
    {d : ℕ} {p : List ℕ} (i : ℕ) (cs : List Value) (x : Frame) (rest : List Frame) (f : NodeFields)
    → x ∷ rest ≡ push_children cs p d []
    → convert_node x.source ≡ ok f
    → x.depth ≤ max_menu_depth
    → (x.target ≡ p) × GrowingIn d p i cs (cons (node f nil) nil) (after i x rest)
unfolding push_children
opened i [] x rest f e h le = ground arith
opened {d} {p} i (c ∷ cs) x rest f e h le =
    let (top, under) = cons_injective e in
    (
      ap (λ y. y.target) top,
      subst
          (λ y.
            convert_node y.source ≡ ok f
            → y.depth ≤ max_menu_depth
            → GrowingIn d p i (c ∷ cs) (cons (node f nil) nil) (after i y rest))
          (sym top)
          (λ h' le'. last (grown h' le' (waiting refl)) (
            ap (push_children (source_children c) (p ++ i ∷ []) (suc d)) under
            ∙ push_children-append (source_children c) _ _ [] _))
          h le,
    )

mutual
  unfolding append_at count_at snoc count

  -- A round puts the node of the frame on the top under its target, and its children on the stack.
  pub step :
      {d : ℕ} {p : List ℕ} {v : Value} {t : MenuNode} (x : Frame) (rest s : List Frame)
      (f : NodeFields)
      → s ≡ x ∷ rest
      → convert_node x.source ≡ ok f
      → x.depth ≤ max_menu_depth
      → Growing d p v t s
      → (q : List ℕ) × (x.target ≡ p ++ q)
        × Growing d p v (append_at q (node f nil) t) (after (count_at q t) x rest)
  step {d} {p} {v} x rest s f e h le (grown {f = parent} {ns = ns} conv d_le g) =
      elim (step_in x rest s f e h le g) [
        | inl (at, g') ↦ (
          [],
          at ∙ sym (append-nil _),
          subst (λ k. Growing d p v (node parent (snoc ns (node f nil))) (after k x rest))
              (omega arith) (grown conv d_le g'),
        )
        | inr (j, q, at, g') ↦ (j ∷ q, at ∙ ap (λ k. p ++ k ∷ q) (omega arith), grown conv d_le g')
      ]

  step_in :
      {d i : ℕ} {p : List ℕ} {cs : List Value} {ns : MenuNodes} (x : Frame) (rest s : List Frame)
      (f : NodeFields)
      → s ≡ x ∷ rest
      → convert_node x.source ≡ ok f
      → x.depth ≤ max_menu_depth
      → GrowingIn d p i cs ns s
      → ((x.target ≡ p) × GrowingIn d p i cs (snoc ns (node f nil)) (after (i + count ns) x rest))
        ⊎ ((j : ℕ) × (q : List ℕ) × (x.target ≡ p ++ (i + j) ∷ q)
            × GrowingIn d p i cs (append_in j q (node f nil) ns) (after (count_in j q ns) x rest))
  step_in {d} {i} {p} x rest s f e h le (waiting {cs = cs} k) =
      let (at, g') = opened i cs x rest f (sym e ∙ k) h le in
      inl (
        at,
        subst (λ k. GrowingIn d p i cs (cons (node f nil) nil) (after k x rest)) (omega arith) g',
      )
  step_in {d} {i} {p} x rest s f e h le (done {cs = cs} {ns = ns} m g) =
      elim (step_in x rest s f e h le g) [
        | inl (at, g') ↦ inl (
          at,
          done m (
              subst (λ k. GrowingIn d p (suc i) cs (snoc ns (node f nil)) (after k x rest))
                (omega arith) g'),
        )
        | inr (j, q, at, g') ↦
            inr (suc j, q, subst (λ k. x.target ≡ p ++ k ∷ q) (omega arith) at, done m g')
      ]
  step_in {d} {i} {p} x rest s f e h le (last {cs = cs} {s = []} g k) =
      let (at, g') = opened (suc i) cs x rest f (sym e ∙ k) h le in
      inl (
        at,
        done (Growing-Mirrors [] refl g) (
            subst (λ k. GrowingIn d p (suc i) cs (cons (node f nil) nil) (after k x rest))
              (omega arith) g'),
      )
  step_in {d} {i} {p} x rest s f e h le (last {cs = cs} {s = y ∷ t} g k) =
      let (top, under) = cons_injective (sym k ∙ e) in
      let (q, at, g') = step x t (y ∷ t) f (ap (λ z. z ∷ t) top) h le g in
      inr (
        0,
        q,
        at ∙ append_assoc p (i ∷ []) q ∙ ap (λ k. p ++ k ∷ q) (omega arith),
        last g' (
            ap (push_children (source_children x.source) _ _) (sym under)
            ∙ push_children-append (source_children x.source) _ _ t _),
      )
