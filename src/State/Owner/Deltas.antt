-- ===== src/State/Owner/Deltas.antt =====
-- The owner's contract with a presenter: what it sends is what changed. A presenter's state is the
-- published item of each address, and a message changes it as its payload says.
use sysc_tray.Prelude.{
  ℕ, ◌+◌, ◌%◌, ◌^◌, ◌≡◌, refl, ap, sym, inl, inr, true, false, List, [], ◌∷◌, ◌++◌, Option, none,
  some, arith, if◌then◌else◌, Bool-cases,
}
use mathlib.Core.Path.{fun_ext}
use mathlib.Core.List.{append-nil, append_assoc}
use sysc_tray.Protocol.Types.{Kind, Item}
use sysc_tray.State.Maps.{
  Address, address_eq, address_eq_iff, address_of, lookup, delete, put, remove_first, lookup-delete,
  lookup-put,
}
use sysc_tray.State.Owner.{Env, Entry, Owner, Payload, Message, deliver, publish, retire}
use sysc_tray.State.Owner.Steps.{publish-items, publish-sequence}

-- What a presenter knows: the item that it shows for each address.
abbrev pub View : Type 0
View = Address → Option Item

unfoldable pub shown : Option Entry → Option Item
shown none = none
shown (some e) = if e.published then some e.item else none

unfoldable pub view : List (Address × Entry) → View
unfolding shown
view m a = shown (lookup a m)

-- A presenter's reaction to one message.
unfoldable pub apply : Payload → View → View
apply (Payload.item i) v a = if address_eq (address_of i.key) a then some i else v a
apply (Payload.removed r) v a = if address_eq (address_of r.key) a then none else v a
apply (Payload.menu m) v a = v a

unfoldable pub replay : List Message → View → View
replay [] v = v
replay (m ∷ ms) v = replay ms (apply m.payload v)

-- The messages are numbered without a gap from the first number to the last.
unfoldable pub Follows : ℕ → List Message → ℕ → Type 0
Follows s [] t = t ≡ s
Follows s (m ∷ ms) t = (m.sequence ≡ (s + 1) % 2 ^ 64) × Follows m.sequence ms t

replay-append : (ms ns : List Message) (v : View) → replay (ms ++ ns) v ≡ replay ns (replay ms v)
unfolding replay
replay-append [] ns v = refl
replay-append (m ∷ ms) ns v = replay-append ms ns (apply m.payload v)

Follows-append :
    (s t u : ℕ) (ms ns : List Message) → Follows s ms t → Follows t ns u → Follows s (ms ++ ns) u
unfolding Follows
Follows-append s t u [] ns f g = rw f at g
Follows-append s t u (m ∷ ms) ns f g = (f.0, Follows-append m.sequence t u ms ns f.1 g)

pub view-put :
    (k : Address) (e : Entry) (m : List (Address × Entry)) (a : Address)
    → view (put k e m) a ≡ (if address_eq k a then shown (some e) else view m a)
unfolding view
view-put k e m a = ground (arith, lookup-put k a e m)

pub view_hidden :
    (a : Address) (e : Entry) (m : List (Address × Entry))
    → lookup a m ≡ some e
    → e.published ≡ false
    → view m a ≡ none
unfolding view
view_hidden a e m known hidden = ground arith

pub view_absent : (a : Address) (m : List (Address × Entry)) → lookup a m ≡ none → view m a ≡ none
unfolding view
view_absent a m h = ground arith

pub view-delete :
    (k : Address) (m : List (Address × Entry)) (a : Address)
    → view (delete k m) a ≡ (if address_eq k a then none else view m a)
unfolding view
view-delete k m a = ground (arith, lookup-delete k a m)

-- A sink that reports success has queued the message behind all that it took before.
abbrev pub IsRecorder : {W : Type 0} → Env W → (ℕ → W → List Message) → Type 0
IsRecorder {W} env received =
    (id : ℕ) (m : Message) (w : W)
    → (env.send id m w).1 ≡ true
    → received id (env.send id m w).0 ≡ received id w ++ m ∷ []

-- What one or more operations sent to the presenter on sink `id`, and what that means to it.
pub record Delta {W : Type 0} (received : ℕ → W → List Message) (id : ℕ) (o : Owner) (w : W)
    (o' : Owner) (w' : W) : Type 0 where
  pub messages : List Message
  pub queued : received id w' ≡ received id w ++ messages
  pub numbered : Follows o.sequence messages o'.sequence
  pub views : view o'.items ≡ replay messages (view o.items)

module _ {W : Type 0} (received : ℕ → W → List Message) (id : ℕ) where
  -- Nothing was sent, and nothing has changed for a presenter.
  pub silent :
      (o o' : Owner) (w : W)
      → o'.sequence ≡ o.sequence
      → ((a : Address) → view o'.items a ≡ view o.items a)
      → Delta received id o w o' w
  unfolding Follows replay
  silent o o' w s v = record {
    messages = [];
    queued = sym (append-nil (received id w));
    numbered = s;
    views = fun_ext v;
  }

  pub Delta-trans :
      {o p q : Owner} {w x y : W}
      → Delta received id o w p x
      → Delta received id p x q y
      → Delta received id o w q y
  Delta-trans {o} {p} {q} {w} {x} {y} d e = record {
    messages = d.messages ++ e.messages;
    queued = cc (d.queued, e.queued, append_assoc (received id w) d.messages e.messages);
    numbered =
        Follows-append o.sequence p.sequence q.sequence d.messages e.messages d.numbered e.numbered;
    views = cc (d.views, e.views, replay-append d.messages e.messages (view o.items));
  }

module _ {W : Type 0} (env : Env W) (received : ℕ → W → List Message)
    (records : IsRecorder env received) (id : ℕ) where
  deliver-queued :
      (m : Message) (o : Owner) (w : W)
      → (deliver env m id o w).0.sink ≡ some id
      → received id (deliver env m id o w).1 ≡ received id w ++ m ∷ []
  unfolding deliver
  deliver-queued m o w h = ground (arith, records id m w)

  publish-deliver :
      (kind : Kind) (p : Payload) (o : Owner) (w : W)
      → o.sink ≡ some id
      → publish env kind p o w ≡ (
          let next = (o.sequence + 1) % 2 ^ 64 in
          deliver env
            (record { kind = kind; sequence = next; payload = p })
            id
            (record o { sequence = next })
            w)
  unfolding publish
  publish-deliver kind p o w h = ground arith

  -- A publication that says what has changed since `o`.
  pub published :
      (kind : Kind) (p : Payload) (o o1 : Owner) (w : W)
      → o1.sink ≡ some id
      → o1.sequence ≡ o.sequence
      → (publish env kind p o1 w).0.sink ≡ some id
      → ((a : Address) → view o1.items a ≡ apply p (view o.items) a)
      → Delta received id o w (publish env kind p o1 w).0 (publish env kind p o1 w).1
  unfolding Follows replay
  published kind p o o1 w connected same still change =
      let next = (o1.sequence + 1) % 2 ^ 64 in
      let m : Message = record { kind = kind; sequence = next; payload = p } in
      record {
        messages = m ∷ [];
        queued = rw (publish-deliver kind p o1 w connected) (
            deliver-queued m (record o1 { sequence = next }) w
              (rw (publish-deliver kind p o1 w connected) at still));
        numbered = (ap (λ (n : ℕ). (n + 1) % 2 ^ 64) same, publish-sequence env kind p o1 w);
        views = rw (publish-items env kind p o1 w) (fun_ext change);
      }

  pub retire-Delta :
      (a : Address) (e : Entry) (o : Owner) (w : W)
      → address_of e.key ≡ a
      → lookup a o.items ≡ some e
      → o.sink ≡ some id
      → (retire env a e o w).0.sink ≡ some id
      → Delta received id o w (retire env a e o w).0 (retire env a e o w).1
  unfolding retire apply
  retire-Delta a e o w at_a known connected still = elim (Bool-cases e.published) [
    | inl live ↦
        rw (live, retire)
          (published Kind.item_removed (Payload.removed (record { key = e.key })) o
            (record o { items = delete a o.items; order = remove_first a o.order }) w connected refl
            (rw (live, retire) at still) (λ b. rw at_a (view-delete a o.items b)))
    | inr hidden ↦
        rw (hidden, retire)
          (silent received id o
            (record o { items = delete a o.items; order = remove_first a o.order }) w refl
            (λ b.
              ground (arith, view-delete a o.items b, view_hidden a e o.items, address_eq_iff a b)))
  ]
