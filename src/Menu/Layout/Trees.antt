-- ===== src/Menu/Layout/Trees.antt =====
-- A tree that grows at a path: `current.target.Children = append(...)` of internal/menu/model.go.
use sysc_tray.Prelude.{ℕ, zero, suc, List, [], ◌∷◌}
use sysc_tray.Protocol.Types.{MenuNode, MenuNodes, node, nil, cons}

unfoldable pub snoc : MenuNodes → MenuNode → MenuNodes
snoc nil n = cons n nil
snoc (cons m ms) n = cons m (snoc ms n)

unfoldable pub count : MenuNodes → ℕ
count nil = 0
count (cons m ms) = suc (count ms)

-- The node goes behind the last child of the node at the path.
unfoldable mutual
  unfolding snoc

  pub append_at : List ℕ → MenuNode → MenuNode → MenuNode
  append_at [] n (node f ns) = node f (snoc ns n)
  append_at (i ∷ path) n (node f ns) = node f (append_in i path n ns)

  pub append_in : ℕ → List ℕ → MenuNode → MenuNodes → MenuNodes
  append_in i path n nil = nil
  append_in zero path n (cons m ms) = cons (append_at path n m) ms
  append_in (suc i) path n (cons m ms) = cons m (append_in i path n ms)

-- How many children the node at the path has.
unfoldable mutual
  unfolding count

  pub count_at : List ℕ → MenuNode → ℕ
  count_at [] (node f ns) = count ns
  count_at (i ∷ path) (node f ns) = count_in i path ns

  pub count_in : ℕ → List ℕ → MenuNodes → ℕ
  count_in i path nil = 0
  count_in zero path (cons m ms) = count_at path m
  count_in (suc i) path (cons m ms) = count_in i path ms
