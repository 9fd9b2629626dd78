-- ===== src/Presenter/Socket.antt =====
-- internal/presenter/server.go: `listenRuntime`, which makes the socket, with its checks. The file system
-- is a world `W` with the calls of `Files`; Abs and Clean of path/filepath are those of `Paths`.
pub mod Secure
pub mod Left
use sysc_tray.Prelude.{
  ℕ, Bool, true, false, not, ◌&&◌, ◌||◌, ◌==◌, List, [], ◌∷◌, ◌++◌, Option, none, some,
  if◌then◌else◌, Text, codes, text_eq, Result, ok, err, ◌>>=◌,
}

-- What `Lstat` tells: the kind in the mode, the permissions and `fileUID`.
pub record Info : Type 0 where
  pub is_link : Bool
  pub is_dir : Bool
  pub is_socket : Bool
  pub permissions : ℕ
  pub uid : ℕ

pub data Lookup : Type 0 where
  found : Info → Lookup
  absent unreadable : Lookup

pub record Files (W : Type 0) : Type 0 where
  pub lstat : Text → W → Lookup
  -- Whether the directory was made, or was there.
  pub mkdir : Text → W → W × Bool
  pub remove : Text → W → W × Bool
  -- Whether somebody answers at the socket.
  pub dial : Text → W → Bool
  pub listen : Text → W → W × Bool
  pub close_listener : Text → W → W
  pub chmod : Text → ℕ → W → W × Bool

pub record Paths : Type 0 where
  pub absolute : Text → Option Text
  pub clean : Text → Text

pub data SocketError : Type 0 where
  no_runtime_dir no_absolute_path not_inspected symlink_component unsafe_directory : SocketError
  not_created unsafe_socket unsafe_existing already_active not_removed : SocketError
  not_listening not_secured : SocketError

abbrev pub owner_only : ℕ
owner_only = 448

abbrev pub owner_rw : ℕ
owner_rw = 384

abbrev pub runtime_subdir : Text
runtime_subdir = codes "sysc-tray"

abbrev pub socket_name : Text
socket_name = codes "presenter.v1.sock"

abbrev pub slash : ℕ
slash = 47

-- `strings.Split` at the separator, behind what was read of a part.
split_from : Text → Text → List Text
split_from part [] = part ∷ []
split_from part (c ∷ t) =
    let closed = part ∷ split_from [] t in
    let longer = split_from (part ++ c ∷ []) t in
    elim (c == slash) [ true ↦ closed | false ↦ longer ]

-- `strings.TrimPrefix` of the separator.
trim_slash : Text → Text
trim_slash [] = []
trim_slash (c ∷ t) = if c == slash then t else c ∷ t

skips : Text → Bool
skips part = text_eq part [] || text_eq part (codes ".")

-- `validateDirectory`
directory_safe : ℕ → ℕ → Lookup → Result SocketError (Unit {0})
directory_safe uid mode absent = err not_inspected
directory_safe uid mode unreadable = err not_inspected
directory_safe uid mode (found i) =
    if i.is_link || (not i.is_dir || (not (i.permissions == mode) || not (i.uid == uid)))
    then err unsafe_directory
    else ok tt

insecure : ℕ → Info → Bool
insecure uid i =
    not i.is_socket || (i.is_link || (not (i.permissions == owner_rw) || not (i.uid == uid)))

-- `validateSocket`
socket_safe : ℕ → Lookup → Result SocketError (Unit {0})
unfolding insecure
socket_safe uid absent = err not_inspected
socket_safe uid unreadable = err not_inspected
socket_safe uid (found i) = if insecure uid i then err unsafe_socket else ok tt

component_safe : Lookup → Result SocketError (Unit {0})
component_safe absent = err not_inspected
component_safe unreadable = err not_inspected
component_safe (found i) = if i.is_link then err symlink_component else ok tt

module _ (paths : Paths) where
  -- `filepath.Join` of two parts of which the first is not empty.
  pub join : Text → Text → Text
  join a b = paths.clean (a ++ slash ∷ b)

  module _ {W : Type 0} (files : Files W) where
    -- The loop of `rejectSymlinkComponents`.
    walk : Text → List Text → W → Result SocketError (Unit {0})
    unfolding skips component_safe join
    walk current [] w = ok tt
    walk current (part ∷ parts) w =
        let rest = component_safe (files.lstat (join current part) w) >>= λ u.
        walk (join current part) parts w in
        let skipped = walk current parts w in elim (skips part) [ true ↦ skipped | false ↦ rest ]

    pub reject_symlink_components : Text → W → Result SocketError (Unit {0})
    unfolding walk split_from trim_slash
    reject_symlink_components path w =
        walk (slash ∷ []) (split_from [] (trim_slash (paths.clean path))) w

    -- `os.Remove` of a socket at which nobody answers.
    remove_dead : Text → W → W × Result SocketError (Unit {0})
    remove_dead path w =
        if files.dial path w
        then (w, err already_active)
        else (let (w', gone) = files.remove path w in (w', if gone then ok tt else err not_removed))

    stale : ℕ → Text → W → Lookup → W × Result SocketError (Unit {0})
    unfolding insecure remove_dead
    stale uid path w absent = (w, ok tt)
    stale uid path w unreadable = (w, err not_inspected)
    stale uid path w (found i) =
        if insecure uid i then (w, err unsafe_existing) else remove_dead path w

    pub remove_stale_socket : Text → ℕ → W → W × Result SocketError (Unit {0})
    unfolding stale
    remove_stale_socket path uid w = stale uid path w (files.lstat path w)

    -- What the source does with the socket when it cannot be secured.
    pub abandon : Text → W → W
    abandon path w = (files.remove path (files.close_listener path w)).0

    confirm : Text → W → Result SocketError (Unit {0}) → W × Result SocketError Text
    unfolding abandon
    confirm path w (err e) = (abandon path w, err e)
    confirm path w (ok u) = (w, ok path)

    -- `Chmod` and `validateSocket`.
    secure : ℕ → Text → W → W × Result SocketError Text
    unfolding confirm socket_safe
    secure uid path w =
        let (w', can) = files.chmod path owner_rw w in
        if can
        then confirm path w' (socket_safe uid (files.lstat path w'))
        else (abandon path w', err not_secured)

    open_socket : ℕ → Text → W × Result SocketError (Unit {0}) → W × Result SocketError Text
    unfolding secure
    open_socket uid path (w, err e) = (w, err e)
    open_socket uid path (w, ok u) =
        let (w', can) = files.listen path w in
        if can then secure uid path w' else (w', err not_listening)

    at_directory : ℕ → Text → W → Result SocketError (Unit {0}) → W × Result SocketError Text
    unfolding open_socket remove_stale_socket join
    at_directory uid dir w (err e) = (w, err e)
    at_directory uid dir w (ok u) =
        let path = join dir socket_name in open_socket uid path (remove_stale_socket path uid w)

    -- From `Mkdir` on.
    make_directory : ℕ → Text → W → Result SocketError (Unit {0}) → W × Result SocketError Text
    unfolding at_directory directory_safe
    make_directory uid dir w (err e) = (w, err e)
    make_directory uid dir w (ok u) =
        let (w', there) = files.mkdir dir w in
        if there
        then at_directory uid dir w' (directory_safe uid owner_only (files.lstat dir w'))
        else (w', err not_created)

    at_absolute : ℕ → W → Option Text → W × Result SocketError Text
    unfolding make_directory reject_symlink_components join
    at_absolute uid w none = (w, err no_absolute_path)
    at_absolute uid w (some abs) =
        make_directory uid (join abs runtime_subdir) w (
          reject_symlink_components abs w >>= λ u.
          directory_safe uid owner_only (files.lstat abs w))

    -- `listenRuntime`: the path of the socket that listens.
    unfoldable pub listen_runtime : Text → ℕ → W → W × Result SocketError Text
    unfolding at_absolute
    listen_runtime dir uid w =
        if text_eq dir [] then (w, err no_runtime_dir) else at_absolute uid w (paths.absolute dir)
