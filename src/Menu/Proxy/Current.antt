-- ===== src/Menu/Proxy/Current.antt =====
-- Which commands of internal/menu/proxy.go reach the application.
use sysc_tray.Prelude.{
  some_injective, ℕ, ◌≡◌, ◌⊎◌, ◌↔◌, inl, inr, refl, sym, subst, ap, ◌∙◌, arith, List, [], ◌∷◌,
  Option, none, some, Text, codes, ℤ, ◌==◌, Bool-cases,
}
use sysc_tray.Dbusval.{Value, CallsOnly, word, BusCall, Reply}
use sysc_tray.Protocol.Types.{ItemKey, Menu}
use sysc_tray.Protocol.Fields.{key_eq, key_eq_iff}
use sysc_tray.Menu.Proxy.{
  Update, Proxy, started, check, menu_call, event_checked, event, select, opened, closed,
  about_to_show, show_checked, Step, run,
}
use sysc_tray.Menu.Proxy.Shown.{latest, Records, started-Records, run_lem}

-- The revision that a presenter can know: that of the tree, or 0 before there is one.
pub IsDrawn : Option Menu → ℕ → Type 0
IsDrawn none revision = 0 ≡ revision
IsDrawn (some m) revision = m.revision ≡ revision

Records-IsDrawn :
    (p : Proxy) (o : Option Menu) (revision : ℕ)
    → Records p o
    → (p.revision ≡ revision) ↔ IsDrawn o revision
unfolding IsDrawn
Records-IsDrawn p none revision h = ground (arith, (h.unseen refl).0)
Records-IsDrawn p (some m) revision h = ground (arith, (h.seen m refl).0)

event_checked-call :
    (p : Proxy) (k : ItemKey) (revision timestamp : ℕ) (id : ℤ) (name : Text) (r : Reply)
    → let o = event p k revision id name timestamp r in
      ((k ≡ p.key)
        × (p.revision ≡ revision)
        × (b : BusCall) × (o.calls ≡ b ∷ [])
        × (b.destination ≡ p.key.owner))
      ⊎ (¬ ((k ≡ p.key) × (p.revision ≡ revision)) × (o.calls ≡ []))
unfolding event event_checked check menu_call
event_checked-call p k revision timestamp id name r = elim (Bool-cases (key_eq k p.key)) [
  | inl same ↦ rw same (elim (Bool-cases (p.revision == revision)) [
    | inl current ↦ rw current (
        inl (
          (key_eq_iff k p.key).0 same,
          ground arith,
          menu_call p (codes "Event") (
              Value.int id ∷ Value.text name ∷ Value.variant (Value.text []) ∷ word timestamp ∷ []),
          refl,
          refl,
        ))
    | inr stale ↦ rw stale (inr (λ h. ground arith, refl))
  ])
  | inr other ↦ rw other (inr (λ h. ground (arith, (key_eq_iff k p.key).1 h.0), refl))
]

-- After any run of a reader: an event that a presenter sends makes one call, to the owner of the
-- reader's key, exactly if it names that key and the revision of the tree that was published last;
-- before any tree was published, exactly if it names the key and revision 0. Otherwise nothing is
-- called.
pub event_lem :
    (k k' : ItemKey) (path name : Text) (ss : List Step) (p : Proxy) (us : List Update)
    (revision timestamp : ℕ) (id : ℤ) (r : Reply)
    → run (started k path) ss ≡ some (p, us)
    → let o = event p k' revision id name timestamp r in
      ((k' ≡ k)
        × IsDrawn (latest none us) revision
        × (b : BusCall) × (o.calls ≡ b ∷ [])
        × (b.destination ≡ k.owner))
      ⊎ (¬ ((k' ≡ k) × IsDrawn (latest none us) revision) × (o.calls ≡ []))
event_lem k k' path name ss p us revision timestamp id r h =
    let (p', us', ran, key', records', updates) =
      run_lem (started k path) none ss (started-Records k path) in
    let e = some_injective (sym ran ∙ h) in
    let key : p.key ≡ k = subst (λ t. t.0.key ≡ k) e key' in
    let records = subst (λ t. Records t.0 (latest none t.1)) e records' in
    let (to, from) = Records-IsDrawn p (latest none us) revision records in
    elim (event_checked-call p k' revision timestamp id name r) [
      | inl (same, current, b, called, sent) ↦
          inl (same ∙ key, to current, b, called, sent ∙ ap (λ j. j.owner) key)
      | inr (refused, quiet) ↦ inr (λ d. refused (d.0 ∙ sym key, from d.1), quiet)
    ]

event-CallsOnly :
    (p : Proxy) (k : ItemKey) (revision timestamp : ℕ) (id : ℤ) (name : Text) (r : Reply)
    → CallsOnly k.owner (event p k revision id name timestamp r).calls
unfolding CallsOnly
event-CallsOnly p k revision timestamp id name r =
    elim (event_checked-call p k revision timestamp id name r) [
      | inl (same, current, b, called, sent) ↦ inr (b, called, sent ∙ ap (λ j. j.owner) (sym same))
      | inr (refused, quiet) ↦ inl quiet
    ]

pub select-CallsOnly :
    (p : Proxy) (k : ItemKey) (revision timestamp : ℕ) (id : ℤ) (r : Reply)
    → CallsOnly k.owner (select p k revision id timestamp r).calls
unfolding select
select-CallsOnly p k revision timestamp id r =
    event-CallsOnly p k revision timestamp id (codes "clicked") r

pub opened-CallsOnly :
    (p : Proxy) (k : ItemKey) (revision : ℕ) (id : ℤ) (r : Reply)
    → CallsOnly k.owner (opened p k revision id r).calls
unfolding opened
opened-CallsOnly p k revision id r = event-CallsOnly p k revision 0 id (codes "opened") r

pub closed-CallsOnly :
    (p : Proxy) (k : ItemKey) (revision : ℕ) (id : ℤ) (r : Reply)
    → CallsOnly k.owner (closed p k revision id r).calls
unfolding closed
closed-CallsOnly p k revision id r = event-CallsOnly p k revision 0 id (codes "closed") r

pub about_to_show-CallsOnly :
    (p : Proxy) (k : ItemKey) (revision : ℕ) (id : ℤ) (r : Reply)
    → CallsOnly k.owner (about_to_show p k revision id r).calls
unfolding about_to_show show_checked check menu_call CallsOnly
about_to_show-CallsOnly p k revision id r = elim (Bool-cases (key_eq k p.key)) [
  | inl same ↦ rw same (elim (Bool-cases (p.revision == revision)) [
    | inl current ↦ rw current (
        inr (
          menu_call p (codes "AboutToShow") (Value.int id ∷ []),
          refl,
          ap (λ j. j.owner) (sym ((key_eq_iff k p.key).0 same)),
        ))
    | inr stale ↦ rw stale (inl refl)
  ])
  | inr other ↦ rw other (inl refl)
]
