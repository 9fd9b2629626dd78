-- ===== src/Presenter/Socket/Secure.antt =====
-- internal/presenter/server.go: what was found on the way when `listenRuntime` succeeds, and what it
-- leaves when it fails.
use sysc_tray.Prelude.{
  ℕ, ◌≡◌, refl, sym, subst, arith, true, false, List, [], ◌∷◌, some, Option-cases, Bool-cases, inl,
  inr, ◌⊎◌, Text, Result, ok, err, ◌>>=◌, All,
}
use sysc_tray.Presenter.Socket.{
  Info, Lookup, found, absent, unreadable, Files, Paths, SocketError, owner_only, owner_rw,
  runtime_subdir, socket_name, slash, split_from, trim_slash, skips, directory_safe, insecure,
  socket_safe, component_safe, join, walk, reject_symlink_components, remove_dead, stale,
  remove_stale_socket, confirm, secure, open_socket, at_directory, make_directory, at_absolute,
  listen_runtime,
}

-- A directory of the user that nobody else can enter.
pub record IsPrivate (uid : ℕ) (i : Info) : Type 0 where
  pub link : i.is_link ≡ false
  pub dir : i.is_dir ≡ true
  pub mode : i.permissions ≡ owner_only
  pub user : i.uid ≡ uid

-- A socket of the user that nobody else can use.
pub record IsOwnSocket (uid : ℕ) (i : Info) : Type 0 where
  pub link : i.is_link ≡ false
  pub socket : i.is_socket ≡ true
  pub mode : i.permissions ≡ owner_rw
  pub user : i.uid ≡ uid

-- The entry is there and is as `P` says.
abbrev pub Finds : (Info → Type 0) → Lookup → Type 0
Finds P l = (i : Info) × (l ≡ found i) × P i

abbrev pub IsNoLink : Info → Type 0
IsNoLink i = i.is_link ≡ false

-- The paths that lead to a path, a part longer each.
pub prefixes : Paths → Text → List Text → List Text
unfolding skips join
prefixes paths current [] = []
prefixes paths current (part ∷ parts) =
    let longer = join paths current part ∷ prefixes paths (join paths current part) parts in
    let same = prefixes paths current parts in elim (skips part) [ true ↦ same | false ↦ longer ]

pub ancestors : Paths → Text → List Text
unfolding prefixes split_from trim_slash
ancestors paths path = prefixes paths (slash ∷ []) (split_from [] (trim_slash (paths.clean path)))

directory_safe-Finds :
    (uid : ℕ) (l : Lookup) → directory_safe uid owner_only l ≡ ok tt → Finds (IsPrivate uid) l
unfolding directory_safe
directory_safe-Finds uid absent h = absurd (ground arith)
directory_safe-Finds uid unreadable h = absurd (ground arith)
directory_safe-Finds uid (found i) h = (
  i,
  refl,
  record { link = ground arith; dir = ground arith; mode = ground arith; user = ground arith },
)

insecure-IsOwnSocket : (uid : ℕ) (i : Info) → insecure uid i ≡ false → IsOwnSocket uid i
unfolding insecure
insecure-IsOwnSocket uid i h = record {
  link = ground arith;
  socket = ground arith;
  mode = ground arith;
  user = ground arith;
}

socket_safe-Finds : (uid : ℕ) (l : Lookup) → socket_safe uid l ≡ ok tt → Finds (IsOwnSocket uid) l
unfolding socket_safe
socket_safe-Finds uid absent h = absurd (ground arith)
socket_safe-Finds uid unreadable h = absurd (ground arith)
socket_safe-Finds uid (found i) h = (i, refl, insecure-IsOwnSocket uid i (ground arith))

component_safe-Finds : (l : Lookup) → component_safe l ≡ ok tt → Finds IsNoLink l
unfolding component_safe
component_safe-Finds absent h = absurd (ground arith)
component_safe-Finds unreadable h = absurd (ground arith)
component_safe-Finds (found i) h = (i, refl, ground arith)

then-ok :
    {A B : Type 0} (m : Result SocketError A) (f : A → Result SocketError B) (b : B)
    → (m >>= f) ≡ ok b
    → (a : A) × (m ≡ ok a) × (f a ≡ ok b)
then-ok (ok a) f b h = (a, refl, h)
then-ok (err e) f b h = absurd (ground arith)

module _ (paths : Paths) (current part : Text) (parts : List Text) where
  prefixes_skip :
      skips part ≡ true → prefixes paths current (part ∷ parts) ≡ prefixes paths current parts
  unfolding prefixes
  prefixes_skip h = ground arith

  prefixes_part :
      skips part ≡ false
      → prefixes paths current (part ∷ parts)
        ≡ join paths current part ∷ prefixes paths (join paths current part) parts
  unfolding prefixes
  prefixes_part h = ground arith

module _ (paths : Paths) {W : Type 0} (files : Files W) where
  walk-All :
      (current : Text) (parts : List Text) (w : W)
      → walk paths files current parts w ≡ ok tt
      → All (λ p. Finds IsNoLink (files.lstat p w)) (prefixes paths current parts)
  unfolding walk
  walk-All current [] w h = unfold prefixes in tt
  walk-All current (part ∷ parts) w h =
      let current' = join paths current part in
      elim (Bool-cases (skips part)) [
        | inl skip ↦
            subst (All (λ p. Finds IsNoLink (files.lstat p w)))
              (sym (prefixes_skip paths current part parts skip))
              (walk-All current parts w (ground arith))
        | inr new ↦
            let (u, plain, onward) =
              then-ok (component_safe (files.lstat current' w))
                (λ u. walk paths files current' parts w) tt (ground arith) in
            subst (All (λ p. Finds IsNoLink (files.lstat p w)))
              (sym (prefixes_part paths current part parts new))
              (
                component_safe-Finds (files.lstat current' w) (ground arith),
                walk-All current' parts w onward,
              )
      ]

  -- At the path is nothing, or a socket of the user at which nobody answers.
  abbrev pub IsFree : ℕ → Text → W → Type 0
  IsFree uid path w =
      (files.lstat path w ≡ absent)
      ⊎ (Finds (IsOwnSocket uid) (files.lstat path w) × (files.dial path w ≡ false))

  stale-IsFree :
      (uid : ℕ) (path : Text) (w : W) (l : Lookup)
      → (stale paths files uid path w l).1 ≡ ok tt
      → (l ≡ absent) ⊎ (Finds (IsOwnSocket uid) l × (files.dial path w ≡ false))
  unfolding stale remove_dead
  stale-IsFree uid path w absent h = inl refl
  stale-IsFree uid path w unreadable h = absurd (ground arith)
  stale-IsFree uid path w (found i) h =
      inr ((i, refl, insecure-IsOwnSocket uid i (ground arith)), ground arith)

  confirm-ok :
      (path : Text) (w : W) (r : Result SocketError (Unit {0})) {w' : W} {p : Text}
      → confirm paths files path w r ≡ (w', ok p)
      → (r ≡ ok tt) × (p ≡ path) × (w' ≡ w)
  unfolding confirm
  confirm-ok path w (err e) h = absurd (ground arith)
  confirm-ok path w (ok u) h = ground arith

  secure-Finds :
      (uid : ℕ) (path : Text) (w : W) {w' : W} {p : Text}
      → secure paths files uid path w ≡ (w', ok p)
      → (p ≡ path) × Finds (IsOwnSocket uid) (files.lstat path w')
  unfolding secure
  secure-Finds uid path w {w'} {p} h =
      let c = (files.chmod path owner_rw w).0 in
      elim (Bool-cases (files.chmod path owner_rw w).1) [
        | inr cannot ↦ absurd (ground arith)
        | inl can ↦
            let (good, named, last) =
              confirm-ok path c (socket_safe uid (files.lstat path c)) {w' = w'} {p = p}
                (ground arith) in
            (
              named,
              subst (λ (x : W). Finds (IsOwnSocket uid) (files.lstat path x)) (sym last)
                  (socket_safe-Finds uid (files.lstat path c) good),
            )
      ]

  open_socket-Finds :
      (uid : ℕ) (path : Text) (w : W) (r : Result SocketError (Unit {0})) {w' : W} {p : Text}
      → open_socket paths files uid path (w, r) ≡ (w', ok p)
      → (r ≡ ok tt) × (p ≡ path) × Finds (IsOwnSocket uid) (files.lstat path w')
  unfolding open_socket
  open_socket-Finds uid path w (err e) h = absurd (ground arith)
  open_socket-Finds uid path w (ok u) {w'} {p} h =
      let l = (files.listen path w).0 in
      elim (Bool-cases (files.listen path w).1) [
        | inr cannot ↦ absurd (ground arith)
        | inl can ↦
            let (named, own) = secure-Finds uid path l {w' = w'} {p = p} (ground arith) in
            (refl, named, own)
      ]

  at_directory-Finds :
      (uid : ℕ) (dir : Text) (w : W) (r : Result SocketError (Unit {0})) {w' : W} {p : Text}
      → at_directory paths files uid dir w r ≡ (w', ok p)
      → (r ≡ ok tt)
        × (p ≡ join paths dir socket_name)
        × IsFree uid p w
        × Finds (IsOwnSocket uid) (files.lstat p w')
  unfolding at_directory
  at_directory-Finds uid dir w (err e) h = absurd (ground arith)
  at_directory-Finds uid dir w (ok u) {w'} {p} h =
      let path = join paths dir socket_name in
      let s = remove_stale_socket paths files path uid w in
      let (cleared, named, own) = open_socket-Finds uid path s.0 s.1 {w' = w'} {p = p} h in
      let free =
        stale-IsFree uid path w (files.lstat path w) (unfold remove_stale_socket in cleared) in
      (
        refl,
        named,
        subst (λ q. IsFree uid q w) (sym named) free,
        subst (λ q. Finds (IsOwnSocket uid) (files.lstat q w')) (sym named) own,
      )

  make_directory-Finds :
      (uid : ℕ) (dir : Text) (w : W) (r : Result SocketError (Unit {0})) {w' : W} {p : Text}
      → make_directory paths files uid dir w r ≡ (w', ok p)
      → let made = (files.mkdir dir w).0 in
        (r ≡ ok tt)
        × (p ≡ join paths dir socket_name)
        × Finds (IsPrivate uid) (files.lstat dir made)
        × IsFree uid p made
        × Finds (IsOwnSocket uid) (files.lstat p w')
  unfolding make_directory
  make_directory-Finds uid dir w (err e) h = absurd (ground arith)
  make_directory-Finds uid dir w (ok u) {w'} {p} h =
      let made = (files.mkdir dir w).0 in
      elim (Bool-cases (files.mkdir dir w).1) [
        | inr cannot ↦ absurd (ground arith)
        | inl can ↦
            let (safe, named, free, own) =
              at_directory-Finds uid dir made (directory_safe uid owner_only (files.lstat dir made))
                {w' = w'} {p = p} (ground arith) in
            (refl, named, directory_safe-Finds uid (files.lstat dir made) safe, free, own)
      ]

  reject-All :
      (path : Text) (w : W)
      → reject_symlink_components paths files path w ≡ ok tt
      → All (λ p. Finds IsNoLink (files.lstat p w)) (ancestors paths path)
  unfolding reject_symlink_components ancestors
  reject-All path w h = walk-All (slash ∷ []) (split_from [] (trim_slash (paths.clean path))) w h

  at_absolute-Finds :
      (uid : ℕ) (w : W) (abs : Text) {w' : W} {p : Text}
      → at_absolute paths files uid w (some abs) ≡ (w', ok p)
      → let dir = join paths abs runtime_subdir in
        let made = (files.mkdir dir w).0 in
        All (λ q. Finds IsNoLink (files.lstat q w)) (ancestors paths abs)
        × Finds (IsPrivate uid) (files.lstat abs w)
        × Finds (IsPrivate uid) (files.lstat dir made)
        × (p ≡ join paths dir socket_name)
        × IsFree uid p made
        × Finds (IsOwnSocket uid) (files.lstat p w')
  unfolding at_absolute
  at_absolute-Finds uid w abs {w'} {p} h =
      let dir = join paths abs runtime_subdir in
      let own_dir = directory_safe uid owner_only (files.lstat abs w) in
      let (passed, named, private_dir, free, own) =
        make_directory-Finds uid dir w
          (reject_symlink_components paths files abs w >>= λ u. own_dir) {w' = w'} {p = p} h in
      let (u, plain, safe) =
        then-ok (reject_symlink_components paths files abs w) (λ u. own_dir) tt passed in
      (
        reject-All abs w plain,
        directory_safe-Finds uid (files.lstat abs w) safe,
        private_dir,
        named,
        free,
        own,
      )

  -- When listenRuntime succeeds, then, each as it was found at its time: no part of the path of the
  -- runtime directory is a symbolic link; that directory and the one of the service in it are directories
  -- of the user with mode 0700; at the path of the socket was nothing, or a socket of the user with mode
  -- 0600 at which nobody answered; and in the end there is a socket of the user with mode 0600.
  pub listen_runtime-IsOwnSocket :
      (uid : ℕ) (runtime_dir : Text) (w w' : W) (p : Text)
      → listen_runtime paths files runtime_dir uid w ≡ (w', ok p)
      → (abs : Text) × (paths.absolute runtime_dir ≡ some abs)
        × All (λ q. Finds IsNoLink (files.lstat q w)) (ancestors paths abs)
        × Finds (IsPrivate uid) (files.lstat abs w)
        × (let dir = join paths abs runtime_subdir in
            let made = (files.mkdir dir w).0 in
            Finds (IsPrivate uid) (files.lstat dir made)
            × (p ≡ join paths dir socket_name)
            × IsFree uid p made
            × Finds (IsOwnSocket uid) (files.lstat p w'))
  unfolding listen_runtime at_absolute
  listen_runtime-IsOwnSocket uid runtime_dir w w' p h =
      elim (Option-cases (paths.absolute runtime_dir)) [
        | inl bad ↦ absurd (ground arith)
        | inr (abs, good) ↦
            let (plain, above, within, named, free, own) =
              at_absolute-Finds uid w abs {w' = w'} {p = p} (ground arith) in
            (abs, good, plain, above, (within, named, free, own))
      ]
