-- ===== src/Presenter/Socket/Left.antt =====
-- internal/presenter/server.go: what `listenRuntime` leaves when it fails.
use sysc_tray.Prelude.{
  ℕ, ◌≡◌, refl, ◌∙◌, arith, Bool, true, false, [], Option, none, some, if_elim, Text, Result, ok,
  err, is_ok, text_eq,
}
use sysc_tray.Presenter.Socket.{
  Lookup, found, absent, unreadable, Files, Paths, SocketError, owner_only, owner_rw,
  runtime_subdir, socket_name, directory_safe, socket_safe, join, remove_dead, stale,
  remove_stale_socket, abandon, confirm, secure, open_socket, at_directory, make_directory,
  at_absolute, listen_runtime,
}

-- `listens` is whether the service listens, on the socket that it makes: only the calls for that change it.
pub record Watches {W : Type 0} (files : Files W) (listens : W → Bool) : Type 0 where
  pub mkdir : (p : Text) (w : W) → listens (files.mkdir p w).0 ≡ listens w
  pub remove : (p : Text) (w : W) → listens (files.remove p w).0 ≡ listens w
  pub chmod : (p : Text) (m : ℕ) (w : W) → listens (files.chmod p m w).0 ≡ listens w
  pub listen :
      (p : Text) (w : W) → (files.listen p w).1 ≡ true → listens (files.listen p w).0 ≡ true
  pub refused :
      (p : Text) (w : W) → (files.listen p w).1 ≡ false → listens (files.listen p w).0 ≡ listens w
  pub close_listener : (p : Text) (w : W) → listens (files.close_listener p w) ≡ false

module _ (paths : Paths) {W : Type 0} (files : Files W) (listens : W → Bool)
    (watches : Watches files listens) where
  -- The service listens exactly if there is no error.
  abbrev Told {ℓ} : {A : Type ℓ} → W × Result SocketError A → Type 0
  Told x = listens x.0 ≡ is_ok x.1

  abandoned : (p : Text) (w : W) → listens (abandon paths files p w) ≡ false
  unfolding abandon
  abandoned p w = watches.remove p (files.close_listener p w) ∙ watches.close_listener p w

  stale-listens :
      (uid : ℕ) (p : Text) (w : W) (l : Lookup)
      → listens (stale paths files uid p w l).0 ≡ listens w
  unfolding stale remove_dead
  stale-listens uid p w absent = refl
  stale-listens uid p w unreadable = refl
  stale-listens uid p w (found i) = ground (arith, watches.remove p w)

  confirm-Told :
      (p : Text) (w : W) (r : Result SocketError (Unit {0}))
      → listens w ≡ true
      → Told (confirm paths files p w r)
  unfolding confirm
  confirm-Told p w (err e) h = abandoned p w
  confirm-Told p w (ok u) h = h

  secure-Told : (uid : ℕ) (p : Text) (w : W) → listens w ≡ true → Told (secure paths files uid p w)
  unfolding secure
  secure-Told uid p w h =
      let c = (files.chmod p owner_rw w).0 in
      if_elim Told (files.chmod p owner_rw w).1 _ _
        (λ can.
          confirm-Told p c (socket_safe uid (files.lstat p c)) (watches.chmod p owner_rw w ∙ h))
        (λ cannot. abandoned p c)

  open_socket-Told :
      (uid : ℕ) (p : Text) (w : W) (r : Result SocketError (Unit {0}))
      → listens w ≡ false
      → Told (open_socket paths files uid p (w, r))
  unfolding open_socket
  open_socket-Told uid p w (err e) h = h
  open_socket-Told uid p w (ok u) h =
      if_elim Told (files.listen p w).1 _ _
        (λ can. secure-Told uid p (files.listen p w).0 (watches.listen p w can))
        (λ cannot. watches.refused p w cannot ∙ h)

  at_directory-Told :
      (uid : ℕ) (dir : Text) (w : W) (r : Result SocketError (Unit {0}))
      → listens w ≡ false
      → Told (at_directory paths files uid dir w r)
  unfolding at_directory
  at_directory-Told uid dir w (err e) h = h
  at_directory-Told uid dir w (ok u) h =
      let p = join paths dir socket_name in
      let s = remove_stale_socket paths files p uid w in
      open_socket-Told uid p s.0 s.1
        (unfold remove_stale_socket in (stale-listens uid p w (files.lstat p w) ∙ h))

  make_directory-Told :
      (uid : ℕ) (dir : Text) (w : W) (r : Result SocketError (Unit {0}))
      → listens w ≡ false
      → Told (make_directory paths files uid dir w r)
  unfolding make_directory
  make_directory-Told uid dir w (err e) h = h
  make_directory-Told uid dir w (ok u) h =
      let made = (files.mkdir dir w).0 in
      if_elim Told (files.mkdir dir w).1 _ _
        (λ can.
          at_directory-Told uid dir made (directory_safe uid owner_only (files.lstat dir made))
            (watches.mkdir dir w ∙ h))
        (λ cannot. watches.mkdir dir w ∙ h)

  at_absolute-Told :
      (uid : ℕ) (w : W) (o : Option Text)
      → listens w ≡ false
      → Told (at_absolute paths files uid w o)
  unfolding at_absolute
  at_absolute-Told uid w none h = h
  at_absolute-Told uid w (some abs) h =
      make_directory-Told uid (join paths abs runtime_subdir) w _ h

  -- Where only listening and its end change whether the service listens: after listenRuntime it listens
  -- exactly if that succeeded. A failure at any point leaves no open listener.
  pub listen_runtime-listens :
      (uid : ℕ) (runtime_dir : Text) (w : W)
      → listens w ≡ false
      → let (w', r) = listen_runtime paths files runtime_dir uid w in listens w' ≡ is_ok r
  unfolding listen_runtime
  listen_runtime-listens uid runtime_dir w h =
      if_elim Told (text_eq runtime_dir []) _ _ (λ e. h)
        (λ e. at_absolute-Told uid w (paths.absolute runtime_dir) h)
