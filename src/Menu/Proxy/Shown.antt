-- ===== src/Menu/Proxy/Shown.antt =====
-- What the reader of internal/menu/proxy.go publishes, and for which trees it lets a command through.
use sysc_tray.Prelude.{
  some_injective, option_clash, ℕ, ◌≡◌, ◌≢◌, inl, inr, refl, sym, subst, ap, ◌∙◌, arith, true,
  false, ◌&&◌, List, [], ◌∷◌, ◌++◌, Option, none, some, Text, text_eq, Result, ok, err, ltb, All,
  All-append, Bool-cases,
}
use sysc_tray.Dbusval.{Value, word, Signal, as_string, Reply, canceled, deadline, failed, replied}
use sysc_tray.Protocol.Types.{ItemKey, Menu}
use sysc_tray.Menu.Validate.{validate, Check}
use sysc_tray.Menu.Validate.Agreement.{validate_ends}
use sysc_tray.Menu.Layout.{LayoutError, convert_layout}
use sysc_tray.Menu.Layout.Converted.{convert_layout-terminates, convert_layout-Mirrors}
use sysc_tray.Menu.Proxy.{
  Loss, owner_left, read_failed, malformed, bad_layout, invalid_tree, Update, Proxy, started, Told,
  trigger, loss, announcement, Announcement, owner_changes, layout_updated, properties_updated,
  unknown, owner_change, layout_update, handle, store_tree, convert_tree, layout_reply, refresh,
  round, Step, signal, reply, take_step, then_told, run,
}

-- The tree that was published last.
newer : Option Menu → Result Loss Menu → Option Menu
newer o (err e) = o
newer o (ok m) = some m

pub latest : Option Menu → List Update → Option Menu
unfolding newer
latest o [] = o
latest o (u ∷ us) = latest (newer o u.menu) us

latest-append :
    (o : Option Menu) (us vs : List Update) → latest o (us ++ vs) ≡ latest (latest o us) vs
unfolding latest
latest-append o [] vs = refl
latest-append o (u ∷ us) vs = latest-append (newer o u.menu) us vs

-- The revision of a proxy is that of the tree, or 0 before there is one.
pub record Records (p : Proxy) (o : Option Menu) : Type 0 where
  pub unseen : o ≡ none → (p.revision ≡ 0) × (p.known ≡ false)
  pub seen : (m : Menu) → o ≡ some m → (m.revision ≡ p.revision) × (p.known ≡ true)

pub record IsUpdate (k : ItemKey) (u : Update) : Type 0 where
  pub key : u.key ≡ k
  pub valid : (m : Menu) → u.menu ≡ ok m → validate m ≡ some (ok tt)

-- What a step leaves in order.
record IsStep (k : ItemKey) (o : Option Menu) (t : Told) : Type 0 where
  key : t.0.key ≡ k
  records : Records t.0 (latest o t.1)
  updates : All (IsUpdate k) t.1

loss-IsUpdate : (k : ItemKey) (e : Loss) → IsUpdate k (loss k e)
unfolding loss
loss-IsUpdate k e = record { key = refl; valid = λ m h. ground arith }

ok_injective : {a b : Menu} → ◌≡◌ {A = Result Loss Menu} (ok a) (ok b) → a ≡ b
ok_injective h = ground arith

-- The result of a refresh is there, and in order.
Ends : ItemKey → Option Menu → Option Told → Type 0
Ends k o none = ⊥
Ends k o (some t) = IsStep k o t

module _ (p : Proxy) (o : Option Menu) (known : Records p o) where
  idle-IsStep : IsStep p.key o (p, [])
  unfolding latest
  idle-IsStep = record { key = refl; records = known; updates = tt }

  trigger-IsStep : IsStep p.key o (trigger p, [])
  unfolding latest trigger
  trigger-IsStep = record {
    key = refl;
    records = record { unseen = known.unseen; seen = known.seen };
    updates = tt;
  }

  loss-IsStep : (e : Loss) → IsStep p.key o (p, loss p.key e ∷ [])
  unfolding latest loss newer
  loss-IsStep e = record { key = refl; records = known; updates = (loss-IsUpdate p.key e, tt) }

  owner_change-IsStep : (body : List Value) → IsStep p.key o (owner_change p body)
  unfolding owner_change
  owner_change-IsStep [] = idle-IsStep
  owner_change-IsStep (a ∷ []) = idle-IsStep
  owner_change-IsStep (a ∷ b ∷ []) = idle-IsStep
  owner_change-IsStep (a ∷ b ∷ c ∷ []) =
      elim (Bool-cases (text_eq (as_string a) p.key.owner && text_eq (as_string c) [])) [
        | inl left ↦ rw left (loss-IsStep owner_left)
        | inr here ↦ rw here idle-IsStep
      ]
  owner_change-IsStep (a ∷ b ∷ c ∷ d ∷ rest) = idle-IsStep

  layout_update-IsStep : (body : List Value) → IsStep p.key o (layout_update p body, [])
  unfolding layout_update
  layout_update-IsStep (word n ∷ rest) = elim (Bool-cases (p.known && ltb n p.revision)) [
    | inl old ↦ rw old idle-IsStep
    | inr new ↦ rw new trigger-IsStep
  ]
  layout_update-IsStep _ = idle-IsStep

  handle-IsStep : (s : Signal) → IsStep p.key o (handle p s)
  unfolding handle
  handle-IsStep s = go (announcement s.name)
    where
      go :
          (a : Announcement)
          → IsStep p.key o (elim a [
            | owner_changes ↦ owner_change p s.body
            | layout_updated ↦ (layout_update p s.body, [])
            | properties_updated ↦ (trigger p, [])
            | unknown ↦ (p, [])
          ])
      go owner_changes = owner_change-IsStep s.body
      go layout_updated = layout_update-IsStep s.body
      go properties_updated = trigger-IsStep
      go unknown = idle-IsStep

  store_tree-Ends :
      (revision : ℕ) (tree : Menu) (r : Option Check)
      → tree.revision ≡ revision
      → validate tree ≡ r
      → r ≢ none
      → Ends p.key o (store_tree p revision tree r)
  unfolding Ends store_tree latest newer
  store_tree-Ends revision tree none same h there = there refl
  store_tree-Ends revision tree (some (err e)) same h there = loss-IsStep invalid_tree
  store_tree-Ends revision tree (some (ok t)) same h there = record {
    key = refl;
    records = record {
      unseen = λ e. absurd (option_clash e);
      seen = λ m e. (ap (λ n. n.revision) (sym (some_injective e)) ∙ same, refl);
    };
    updates = (
      record {
        key = refl;
        valid = λ m e. subst (λ n. validate n ≡ some (ok tt)) (ok_injective e) h;
      },
      tt,
    );
  }

  convert_tree-Ends :
      (revision : ℕ) (layout : Value) (r : Option (Result LayoutError Menu))
      → convert_layout revision layout ≡ r
      → Ends p.key o (convert_tree p revision r)
  unfolding Ends convert_tree
  convert_tree-Ends revision layout none h = convert_layout-terminates revision layout h
  convert_tree-Ends revision layout (some (err e)) h = loss-IsStep bad_layout
  convert_tree-Ends revision layout (some (ok tree)) h =
      let (r, ended, same) = validate_ends tree 513 (omega arith) in
      store_tree-Ends revision tree (validate tree)
        (convert_layout-Mirrors revision layout tree h).0 refl (λ e. ground arith)

  layout_reply-Ends : (body : List Value) → Ends p.key o (layout_reply p body)
  unfolding Ends layout_reply
  layout_reply-Ends (word n ∷ layout ∷ []) =
      convert_tree-Ends n layout (convert_layout n layout) refl
  layout_reply-Ends _ = loss-IsStep malformed

  refresh-Ends : (r : Reply) → Ends p.key o (refresh p r)
  unfolding Ends refresh
  refresh-Ends canceled = idle-IsStep
  refresh-Ends deadline = loss-IsStep read_failed
  refresh-Ends failed = loss-IsStep read_failed
  refresh-Ends (replied body) = layout_reply-Ends body

take_step-Ends :
    (p : Proxy) (o : Option Menu) (s : Step) → Records p o → Ends p.key o (take_step p s)
unfolding take_step Ends round
take_step-Ends p o (signal s) known = handle-IsStep p o known s
take_step-Ends p o (reply r) known = elim (Bool-cases p.dirty) [
  | inl dirty ↦ rw dirty (
      refresh-Ends (record p { dirty = false }) o
        (record { unseen = known.unseen; seen = known.seen }) r)
  | inr clean ↦ rw clean (
      idle-IsStep (record p { dirty = false }) o
        (record { unseen = known.unseen; seen = known.seen }))
]

-- From a reader whose revision is that of the tree published last, or 0 before the first: whatever
-- signals and replies arrive, in whatever order, it never hangs in one of them; what it publishes
-- is of its key, each tree passes the validator, and the revision that it keeps is still that of
-- the tree published last, or 0 before the first.
pub run_lem :
    (p : Proxy) (o : Option Menu) (ss : List Step)
    → Records p o
    → (p' : Proxy) × (us : List Update) × (run p ss ≡ some (p', us))
      × (p'.key ≡ p.key)
      × Records p' (latest o us)
      × All (IsUpdate p.key) us
unfolding run then_told Ends latest
run_lem p o [] known = (p, [], refl, refl, known, tt)
run_lem p o (s ∷ ss) known =
    go (take_step p s) (take_step-Ends p o s known) (λ p1 us1 h. run_lem p1 (latest o us1) ss h)
  where
    Lasts : Proxy → Option Menu → Option Told → Type 0
    Lasts q o t =
        (p' : Proxy) × (us : List Update) × (t ≡ some (p', us))
        × (p'.key ≡ q.key)
        × Records p' (latest o us)
        × All (IsUpdate q.key) us

    go :
        (t : Option Told)
        → Ends p.key o t
        → ((p1 : Proxy) (us1 : List Update)
            → Records p1 (latest o us1)
            → Lasts p1 (latest o us1) (run p1 ss))
        → Lasts p o (elim t [ none ↦ none | some (p1, us1) ↦ then_told us1 (run p1 ss) ])
    go none h later = elim h [ ]
    go (some (p1, us1)) h later =
        let (p', us, ran, key, records, updates) = later p1 us1 h.records in
        (
          p',
          us1 ++ us,
          rw ran refl,
          key ∙ h.key,
          subst (Records p') (sym (latest-append o us1 us)) records,
          All-append (IsUpdate p.key) us1 us h.updates
              (subst (λ k. All (IsUpdate k) us) h.key updates),
        )

pub started-Records : (k : ItemKey) (path : Text) → Records (started k path) none
started-Records k path = record {
  unseen = λ e. (refl, refl);
  seen = λ m e. absurd (option_clash (sym e));
}

-- A reader that has lived through some steps goes on so.
pub HasRun : ItemKey → Proxy → Type 0
HasRun k p = (p.key ≡ k) × (o : Option Menu) × Records p o

pub started-HasRun : (k : ItemKey) (path : Text) → HasRun k (started k path)
unfolding HasRun
started-HasRun k path = (refl, none, started-Records k path)

pub run-HasRun :
    (k : ItemKey) (p p' : Proxy) (ss : List Step) (us : List Update)
    → HasRun k p
    → run p ss ≡ some (p', us)
    → HasRun k p'
unfolding HasRun
run-HasRun k p p' ss us (same, o, known) h =
    let (q, vs, ran, key, records, updates) = run_lem p o ss known in
    let e = some_injective (sym ran ∙ h) in
    (
      subst (λ t. t.0.key ≡ k) e (key ∙ same),
      latest o us,
      subst (λ t. Records t.0 (latest o t.1)) e records,
    )

pub HasRun-key : (k : ItemKey) (p : Proxy) → HasRun k p → p.key ≡ k
unfolding HasRun
HasRun-key k p h = h.0
