-- ===== src/Watcher/Attach/Balanced.antt =====
-- internal/watcher/attach.go: a host takes back what it asked of the bus, and what it told its observer.
use mathlib.Core.List.{append_assoc, append-nil}
use sysc_tray.Prelude.{
  ◌≡◌, ◌≤◌, subst, ◌<◌, ◌^◌, ◌⊎◌, inl, inr, refl, sym, ap, ◌∙◌, arith, Bool, true, false, List, [],
  ◌∷◌, ◌++◌, Option, none, some, if◌then◌else◌, if_elim, Text, Result, ok, err, length,
  length-append,
}
use sysc_tray.Matches.{Rule, Asked, adds}
use sysc_tray.Matches.Balance.{added_times, removed_times}
use sysc_tray.Watcher.Registry.{Event, Observed, stop, Rises}
use sysc_tray.Watcher.Telling.{additions, removals, told_evenly}
use sysc_tray.Watcher.Address.{Key}
use sysc_tray.Prelude.Shuffles.{Shuffle, Shuffle-append_right}
use sysc_tray.Watcher.Client.{new_client, attached_client, Happening, run, close as close_client}
use sysc_tray.Watcher.Client.Attached.{run-Observed, run-append, run-nil, close_lem}
use sysc_tray.Watcher.Attach.{
  Answers, Host, new_host, AttachError, no_watcher, no_registrations_watch, no_owner_watch,
  not_registered, Attached, registrations_rule, names_rule, watch, interleave, live, read_items,
  register, attach, close,
}

-- The first rules of the host, granted both.
abbrev both : List Asked
both = adds registrations_rule true ∷ adds names_rule true ∷ []

Watched : Host × Result AttachError (Unit {0}) → Type 0
Watched (h, r) =
    ((r ≡ ok tt) × (h.client ≡ attached_client) × (h.closed ≡ false) × (h.asked ≡ both))
    ⊎ ((e : AttachError) × (r ≡ err e)
        × (h.client ≡ new_client)
        × (h.closed ≡ false)
        × (h.signals ≡ false)
        × ((q : Rule) → added_times q h.asked ≡ removed_times q h.asked))

watch-Watched : (a : Answers) → Watched (watch a new_host)
unfolding watch Watched added_times removed_times
watch-Watched a =
    if_elim Watched a.owned _ _
      (λ owned.
        if_elim Watched a.grants_registrations _ _
          (λ one.
            if_elim Watched a.grants_owner _ _ (λ two. inl (refl, refl, refl, refl))
              (λ e. inr (no_owner_watch, refl, refl, refl, refl, λ q. omega arith)))
          (λ e. inr (no_registrations_watch, refl, refl, refl, refl, λ q. refl)))
      (λ e. inr (no_watcher, refl, refl, refl, refl, λ q. refl))

-- What the pump and `attach` hand to a host whose first calls are granted.
fed : Option (List (List Happening × Text × (Text → Option Text))) → List Happening
fed none = []
fed (some entries) = interleave entries

-- All that it handles until it is closed.
unfoldable pub handled : Answers → List Happening → List Happening → List Happening
unfolding fed
handled a early later = early ++ ((if a.registers then fed a.entries else []) ++ later)

module _ (path_valid : Text → Bool) where
  -- The host has handled these since it was attached, and has told these events.
  record IsFed (hs : List Happening) (h : Host) (es : List Event) : Type 0 where
    client : h.client ≡ (run path_valid attached_client hs).0
    events : es ≡ (run path_valid attached_client hs).1
    closed : h.closed ≡ false
    asked : h.asked ≡ both

  run-attached :
      (hs : List Happening)
      → length hs < 2 ^ 64
      → (run path_valid attached_client hs).0.attached ≡ true
  run-attached hs room = (run-Observed path_valid attached_client hs tt (omega arith)).1

  live-IsFed :
      (hs is : List Happening) (h : Host) (es : List Event)
      → length hs < 2 ^ 64
      → IsFed hs h es
      → let (h', fs) = live path_valid is h in IsFed (hs ++ is) h' (es ++ fs)
  unfolding live
  live-IsFed hs is h es room f =
      let both_runs = run-append path_valid attached_client hs is in
      let attached = run-attached hs room in
      record {
        client = ground (arith, both_runs, attached, f.client);
        events = ground (arith, both_runs, attached, f.client, f.events);
        closed = ground (arith, f.closed);
        asked = ground (arith, f.asked);
      }

  -- The host at the end with all its changes, and that it holds nothing.
  Over : Host → List Event → Type 0
  Over h es =
      ((q : Rule) → added_times q h.asked ≡ removed_times q h.asked)
      × (h.signals ≡ false)
      × (h.client.items ≡ [])
      × Observed 0 [] es h.client.generation h.client.items
      × Rises 0 es

  close-Over :
      (hs : List Happening) (h : Host) (es : List Event)
      → length hs < 2 ^ 64
      → IsFed hs h es
      → let (h', fs) = close path_valid h in Over h' (es ++ fs)
  unfolding close Over added_times removed_times
  close-Over hs h es room f =
      let c = (run path_valid attached_client hs).0 in
      let (seen, rises, empty) = close_lem path_valid hs room in
      let ends = close_client path_valid h.client in
      let attached = run-attached hs room in
      if_elim (λ (x : Host × List Event). Over x.0 (es ++ x.1)) h.closed _ _
        (λ e. absurd (ground (arith, f.closed)))
        (λ e.
          if_elim (λ (x : Host × List Event). Over x.0 (es ++ x.1)) h.client.attached _ _
            (λ on. (
              λ q. rw f.asked (omega arith),
              refl,
              rw f.client empty,
              rw (f.client, f.events) seen,
              rw (f.client, f.events) rises,
            ))
            (λ off. absurd (ground (arith, f.client, attached))))

  -- Nothing more is handled.
  IsFed-nil :
      (hs : List Happening) (h : Host) (es : List Event) → IsFed hs h es → IsFed (hs ++ []) h es
  IsFed-nil hs h es f = rw (append-nil hs) f

  read-IsFed :
      (o : Option (List (List Happening × Text × (Text → Option Text)))) (hs : List Happening)
      (h : Host) (es : List Event)
      → length hs < 2 ^ 64
      → IsFed hs h es
      → let (h', r, fs) = read_items path_valid h o in IsFed (hs ++ fed o) h' (es ++ fs)
  unfolding read_items fed
  read-IsFed none hs h es room f = rw (append-nil es) (IsFed-nil hs h es f)
  read-IsFed (some entries) hs h es room f = live-IsFed hs (interleave entries) h es room f

  answered-IsFed :
      (b : Bool) (a : Answers) (hs : List Happening) (h : Host) (es : List Event)
      → length hs < 2 ^ 64
      → IsFed hs h es
      → let (h', r, fs) = read_items path_valid h a.entries in
        let x : Attached = if b then (h', r, es ++ fs) else (h, err not_registered, es) in
        IsFed (hs ++ (if b then fed a.entries else [])) x.0 x.2
  answered-IsFed true a hs h es room f = read-IsFed a.entries hs h es room f
  answered-IsFed false a hs h es room f = IsFed-nil hs h es f

  Ending : List Happening → Attached → Type 0
  Ending later (h, r, es) =
      let (h', fs) = live path_valid later h in
      let (h'', gs) = close path_valid h' in Over h'' ((es ++ fs) ++ gs)

  fed-Ending :
      (hs later : List Happening) (x : Attached)
      → length (hs ++ later) < 2 ^ 64
      → IsFed hs x.0 x.2
      → Ending later x
  unfolding Ending
  fed-Ending hs later (h, r, es) room f =
      let g = live-IsFed hs later h es (omega (arith, length-append hs later)) f in
      let (h', fs) = live path_valid later h in close-Over (hs ++ later) h' (es ++ fs) room g

  -- A host that is not attached handles and tells nothing.
  idle-Ending :
      (later : List Happening) (h : Host) (r : Result AttachError (Unit {0}))
      → h.client ≡ new_client
      → h.closed ≡ false
      → h.signals ≡ false
      → ((q : Rule) → added_times q h.asked ≡ removed_times q h.asked)
      → Ending later (h, r, [])
  unfolding Ending live close Over
  idle-Ending later h r client unclosed silent even =
      let P = λ (x : Host × List Event). Over x.0 x.1 in
      if_elim (λ (y : Host × List Event). let (k, gs) = close path_valid y.0 in Over k (y.1 ++ gs))
        h.client.attached _ _ (λ on. absurd (ground arith))
        (λ off.
          if_elim P h.closed _ _ (λ shut. absurd (ground arith))
            (λ unshut.
              if_elim P h.client.attached _ _ (λ on. absurd (ground arith))
                (λ e. (even, silent, rw client refl, rw client stop, tt))))

  register-Ending :
      (a : Answers) (early later : List Happening) (x : Host × Result AttachError (Unit {0}))
      → length (handled a early later) < 2 ^ 64
      → Watched x
      → Ending later (register path_valid a early x)
  unfolding register Watched handled
  register-Ending a early later (h, ok u) room (inl (good, client, unclosed, asked)) =
      let extra = if a.registers then fed a.entries else [] in
      let l = live path_valid early h in
      let total = length-append early (extra ++ later) in
      let f : IsFed [] h [] = record {
        client = client ∙ sym (ap (λ t. t.0) (run-nil path_valid attached_client));
        events = sym (ap (λ t. t.1) (run-nil path_valid attached_client));
        closed = unclosed;
        asked = asked;
      } in
      let g =
        answered-IsFed a.registers a early l.0 l.1 (omega arith)
          (live-IsFed [] early h [] (omega arith) f) in
      fed-Ending (early ++ extra) later (register path_valid a early (h, ok u))
        (rw (append_assoc early extra later) room) g
  register-Ending a early later (h, err e) room (inl (good, client, unclosed, asked)) =
      absurd (ground arith)
  register-Ending a early later (h, err e) room (inr (e', bad, client, unclosed, silent, even)) =
      idle-Ending later h (err e) client unclosed silent even
  register-Ending a early later (h, ok u) room (inr (e', bad, rest, unclosed, silent, even)) =
      absurd (ground arith)

  -- The changes of the host, in their order.
  attach-Over :
      (a : Answers) (early later : List Happening)
      → length (handled a early later) < 2 ^ 64
      → Ending later (attach path_valid a early new_host)
  unfolding attach
  attach-Over a early later room =
      register-Ending a early later (watch a new_host) room (watch-Watched a)

  -- A new host that attaches, to whatever point the bus lets it come, then handles signals if it got so far,
  -- and is closed, with fewer than 2 ^ 64 items and signals in any order: each rule was taken back as often
  -- as it was granted and no signals are read any more; each item that was added had a free address and
  -- the next generation, each one that was taken out was there, and in the end none is left. In whatever
  -- order the observer was told of the changes before the close, in the end it was told of each key as
  -- often that it is removed as that it is added, and that is at most once.
  pub attach-close :
      (a : Answers) (early later : List Happening) (told : List Event)
      → length (handled a early later) < 2 ^ 64
      → (let (h, r, es) = attach path_valid a early new_host in
          let (h', fs) = live path_valid later h in Shuffle (es ++ fs) told)
      → let (h, r, es) = attach path_valid a early new_host in
        let (h', fs) = live path_valid later h in
        let (h'', gs) = close path_valid h' in
        ((q : Rule) → added_times q h''.asked ≡ removed_times q h''.asked)
        × (h''.signals ≡ false)
        × (h''.client.items ≡ [])
        × Observed 0 [] ((es ++ fs) ++ gs) h''.client.generation h''.client.items
        × ((k : Key)
            → (additions k (told ++ gs) ≡ removals k (told ++ gs)) × (additions k (told ++ gs) ≤ 1))
  unfolding Ending Over
  attach-close a early later told room order =
      let x = attach path_valid a early new_host in
      let y = live path_valid later x.0 in
      let z = close path_valid y.0 in
      let (even, silent, empty, changes, rises) = attach-Over a early later room in
      let all = (x.2 ++ y.1) ++ z.1 in
      (
        even,
        silent,
        empty,
        changes,
        λ k.
            told_evenly k z.0.client.generation all (told ++ z.1)
              (subst (Observed 0 [] all z.0.client.generation) empty changes)
              (Shuffle-append_right z.1 order),
      )
