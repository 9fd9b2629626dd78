-- ===== src/Item/Proxy/Read.antt =====
-- What the reader of internal/item/proxy.go publishes and calls.
use sysc_tray.Prelude.{
  ℕ, ◌+◌, ◌≤◌, ◌≡◌, ◌≢◌, ◌↔◌, ◌⊎◌, inl, inr, refl, arith, Bool, true, false, ◌||◌, List, [], ◌∷◌,
  Option, none, some, Text, codes, text_eq, Result, ok, err, ℤ, ◌==◌, All, length, Bool-cases,
  subst, ap, sym,
}
use sysc_tray.Dbusval.{
  Value, CallsOnly, Signal, BusCall, Reply, canceled, deadline, failed, replied,
}
use sysc_tray.Protocol.Types.{ItemKey, Item, stale_item, ScrollOrientation}
use sysc_tray.Protocol.Fields.{key_eq, key_eq_iff}
use sysc_tray.Protocol.Items.{IconOrder, validate_item}
use sysc_tray.Protocol.Errors.{Check}
use sysc_tray.Item.Limiter.{Limiter, Use, reserve, reserve_wait}
use sysc_tray.Item.Model.{Props, normalize}
use sysc_tray.Item.Model.Accepted.{normalize-key}
use sysc_tray.Item.Proxy.{
  Loss, owner_left, read_failed, undecodable, invalid_state, Reading, Proxy, trigger, left_bus,
  loss, pump, publish_props, publish_body, refresh, invoke, activate, secondary_activate, scroll,
  item_call, await, after,
}

-- A reading is of the proxy's key, and an item in it passes the protocol's validator.
pub record IsReading (order : IconOrder) (k : ItemKey) (r : Reading) : Type 0 where
  pub key : r.key ≡ k
  pub item : (i : Item) → r.read ≡ ok i → (i.key ≡ k) × (validate_item order i ≡ ok tt)

loss-IsReading : (order : IconOrder) (k : ItemKey) (e : Loss) → IsReading order k (loss k e)
unfolding loss
loss-IsReading order k e = record { key = refl; item = λ i h. ground arith }

ok_injective : {i j : Item} → ◌≡◌ {A = Result Loss Item} (ok i) (ok j) → i ≡ j
ok_injective h = ground arith

module _ (path_valid : Text → Bool) (order : IconOrder) where
  publish_props-IsReading :
      (k : ItemKey) (props : Props) → IsReading order k (publish_props path_valid order k props)
  unfolding publish_props
  publish_props-IsReading k props = go (validate_item order (normalize path_valid k props)) refl
    where
      go :
          (r : Check)
          → validate_item order (normalize path_valid k props) ≡ r
          → IsReading order k (elim r [
            | err e ↦ loss k invalid_state
            | ok t ↦ record { key = k; read = ok (normalize path_valid k props) }
          ])
      go (err e) h = loss-IsReading order k invalid_state
      go (ok t) h = record {
        key = refl;
        item = λ i same.
            subst (λ i. (i.key ≡ k) × (validate_item order i ≡ ok tt)) (ok_injective same)
              (normalize-key path_valid k props, h);
      }

  publish_body-IsReading :
      (k : ItemKey) (props : Option Props)
      → IsReading order k (publish_body path_valid order k props)
  unfolding publish_body
  publish_body-IsReading k none = loss-IsReading order k undecodable
  publish_body-IsReading k (some props) = publish_props-IsReading k props

  module _ (store : List Value → Option Props) where
    -- Whatever the bus answers, a refresh publishes at most one reading, of the proxy's key; an item in it
    -- has that key and passes the protocol's validator. Another refresh is scheduled only by a timeout
    -- of a proxy that is not closed.
    pub refresh_lem :
        (p : Proxy) (r : Reply)
        → let (p', rs) = refresh path_valid order store p r in
          All (IsReading order p.key) rs
          × (length rs ≤ 1)
          × (p'.key ≡ p.key)
          × ((p'.dirty ≡ true) ↔ ((p.dirty ≡ true) ⊎ ((r ≡ deadline) × (p.cancelled ≡ false))))
    unfolding refresh trigger
    refresh_lem p canceled = (tt, omega arith, refl, ground arith)
    refresh_lem p deadline = elim (Bool-cases p.cancelled) [
      | inl ended ↦ rw ended (tt, omega arith, refl, ground arith)
      | inr live ↦ rw live (tt, omega arith, refl, ground arith)
    ]
    refresh_lem p failed =
        ((loss-IsReading order p.key read_failed, tt), omega arith, refl, ground arith)
    refresh_lem p (replied body) =
        ((publish_body-IsReading p.key (store body), tt), omega arith, refl, ground arith)

-- Whether a signal tells that the owner left the bus.
pub departures : Text → List Signal → Bool
departures owner [] = false
departures owner (s ∷ ss) = left_bus owner s || departures owner ss

-- However many signals arrive, the loss of the item is published once, and exactly if one of them
-- tells that its owner left the bus; the pump publishes nothing else.
pub pump_lem :
    (p : Proxy) (ss : List Signal)
    → ((departures p.key.owner ss ≡ true) × ((pump p ss).1 ≡ loss p.key owner_left ∷ []))
      ⊎ ((departures p.key.owner ss ≡ false) × ((pump p ss).1 ≡ []))
unfolding pump departures trigger
pump_lem p [] = inr (refl, refl)
pump_lem p (s ∷ ss) = elim (Bool-cases (left_bus p.key.owner s)) [
  | inl left ↦ rw left (inl (refl, refl))
  | inr here ↦ rw here (elim (Bool-cases (text_eq s.path p.key.object_path)) [
    | inl its ↦ rw its (pump_lem (trigger p) ss)
    | inr other ↦ rw other (pump_lem p ss)
  ])
]

-- A command for the generation that the proxy reads makes exactly one call, whatever its answer is, to
-- the owner and the object of its key; a command for any other key makes none and is told stale_item.
pub invoke_lem :
    (p : Proxy) (k : ItemKey) (member : Text) (args : List Value) (reply : Reply)
    → let o = invoke p k member args reply in
      ((k ≡ p.key)
        × (b : BusCall) × (o.calls ≡ b ∷ [])
        × (b.destination ≡ k.owner)
        × (b.path ≡ k.object_path)
        × (b.arguments ≡ args))
      ⊎ ((k ≢ p.key) × (o.calls ≡ []) × (o.answer ≡ err stale_item))
unfolding invoke item_call
invoke_lem p k member args reply = elim (Bool-cases (key_eq k p.key)) [
  | inl same ↦
      let e = (key_eq_iff k p.key).0 same in
      rw same (
        inl (
          e,
          item_call p member args,
          refl,
          ap (λ j. j.owner) (sym e),
          ap (λ j. j.object_path) (sym e),
          refl,
        ))
  | inr other ↦ inr (ground (arith, key_eq_iff k p.key), ground arith, ground arith)
]

invoke-CallsOnly :
    (p : Proxy) (k : ItemKey) (member : Text) (args : List Value) (reply : Reply)
    → CallsOnly k.owner (invoke p k member args reply).calls
unfolding CallsOnly
invoke-CallsOnly p k member args reply = elim (invoke_lem p k member args reply) [
  | inl (same, b, called, sent, at, with_args) ↦ inr (b, called, sent)
  | inr (other, quiet, answer) ↦ inl quiet
]

pub activate-CallsOnly :
    (p : Proxy) (k : ItemKey) (x y : ℤ) (reply : Reply)
    → CallsOnly k.owner (activate p k x y reply).calls
unfolding activate
activate-CallsOnly p k x y reply = invoke-CallsOnly p k _ _ reply

pub secondary_activate-CallsOnly :
    (p : Proxy) (k : ItemKey) (x y : ℤ) (reply : Reply)
    → CallsOnly k.owner (secondary_activate p k x y reply).calls
unfolding secondary_activate
secondary_activate-CallsOnly p k x y reply = invoke-CallsOnly p k _ _ reply

pub scroll-CallsOnly :
    (p : Proxy) (k : ItemKey) (delta : ℤ) (o : ScrollOrientation) (reply : Reply)
    → CallsOnly k.owner (scroll p k delta o reply).calls
unfolding scroll CallsOnly
scroll-CallsOnly p k delta ScrollOrientation.vertical reply =
    invoke-CallsOnly p k (codes "Scroll") (Value.int delta ∷ Value.text (codes "vertical") ∷ [])
      reply
scroll-CallsOnly p k delta ScrollOrientation.horizontal reply =
    invoke-CallsOnly p k (codes "Scroll") (Value.int delta ∷ Value.text (codes "horizontal") ∷ [])
      reply
scroll-CallsOnly p k delta _ reply = inl refl

-- A refresh that the limiter holds back is admitted at the end of the wait that it was told, if no
-- other item was admitted meanwhile.
pub await_second :
    (k : ItemKey) (l : Limiter) (now : ℕ) (rest : List (List Use × ℕ))
    → (await k l (([], now) ∷ ([], now + (reserve k now l).1) ∷ rest)).1 ≡ true
unfolding await after
await_second k l now rest = elim (Bool-cases ((reserve k now l).1 == 0)) [
  | inl free ↦ rw free refl
  | inr held ↦
      let (same, later) = reserve_wait k now l (ground arith) in rw (held, same, later) refl
]
