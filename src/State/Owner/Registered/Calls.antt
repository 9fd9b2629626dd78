-- ===== src/State/Owner/Registered/Calls.antt =====
-- Which keys can be registered after a sequence of calls of internal/state/owner.go.
use sysc_tray.Prelude.{◌≡◌, refl, ◌∙◌, arith, Bool, true, false, not, ◌&&◌, ◌||◌, List, [], ◌∷◌}
use sysc_tray.Protocol.Types.{ItemKey}
use sysc_tray.Protocol.Fields.{key_eq}
use sysc_tray.State.Owner.{Env, Owner, submit}
use sysc_tray.State.Owner.Steps.{Call, adds, updates, updates_menu, removes, step, run}
use sysc_tray.State.Owner.Registered.{
  registered, add-registered, add-stopped, update-registered, update_menu-registered,
  remove-registered, remove-stopped,
}

-- Whether a key is registered after a call at most, of whether it was before.
unfoldable pub after : Call → ItemKey → Bool → Bool
after (adds k) j r = key_eq k j || r
after (updates k i) j r = r
after (updates_menu k m) j r = r
after (removes k) j r = r && not (key_eq k j)

unfoldable pub after_all : List Call → ItemKey → Bool → Bool
unfolding after
after_all [] j r = r
after_all (c ∷ cs) j r = after_all cs j (after c j r)

after_all_mono :
    (cs : List Call) (j : ItemKey) (r r' : Bool)
    → (r ≡ true → r' ≡ true)
    → after_all cs j r ≡ true
    → after_all cs j r' ≡ true
unfolding after after_all
after_all_mono [] j r r' f h = f h
after_all_mono (adds k ∷ cs) j r r' f h = after_all_mono cs j _ _ (ground (arith, f)) h
after_all_mono (updates k i ∷ cs) j r r' f h = after_all_mono cs j r r' f h
after_all_mono (updates_menu k m ∷ cs) j r r' f h = after_all_mono cs j r r' f h
after_all_mono (removes k ∷ cs) j r r' f h = after_all_mono cs j _ _ (ground (arith, f)) h

module _ {W : Type 0} (env : Env W) where
  step-registered :
      (c : Call) (j : ItemKey) (o : Owner) (w : W)
      → o.stopped ≡ false
      → registered j (step env c o w).0 ≡ true
      → after c j (registered j o) ≡ true
  unfolding step submit after
  step-registered (adds k) j o w live h = ground (arith, add-registered env k j o w)
  step-registered (updates k i) j o w live h = ground (arith, update-registered env k j i o w)
  step-registered (updates_menu k m) j o w live h =
      ground (arith, update_menu-registered env k j m o w)
  step-registered (removes k) j o w live h = ground (arith, remove-registered env k j o w)

  step-stopped : (c : Call) (o : Owner) (w : W) → (step env c o w).0.stopped ≡ o.stopped
  unfolding step submit
  step-stopped (adds k) o w = ground (arith, add-stopped env k o w)
  step-stopped (updates k i) o w = ground (arith, update-registered env k k i o w)
  step-stopped (updates_menu k m) o w = ground (arith, update_menu-registered env k k m o w)
  step-stopped (removes k) o w = ground (arith, remove-stopped env k o w)

  pub run-stopped : (cs : List Call) (o : Owner) (w : W) → (run env cs o w).0.stopped ≡ o.stopped
  unfolding run
  run-stopped [] o w = refl
  run-stopped (c ∷ cs) o w = let p = step env c o w in run-stopped cs p.0 p.1 ∙ step-stopped c o w

  pub run-registered :
      (cs : List Call) (j : ItemKey) (o : Owner) (w : W)
      → o.stopped ≡ false
      → registered j (run env cs o w).0 ≡ true
      → after_all cs j (registered j o) ≡ true
  unfolding run after_all
  run-registered [] j o w live h = h
  run-registered (c ∷ cs) j o w live h =
      let p = step env c o w in
      after_all_mono cs j (registered j p.0) (after c j (registered j o))
        (step-registered c j o w live) (run-registered cs j p.0 p.1 (step-stopped c o w ∙ live) h)
