-- ===== src/Watcher/Address.antt =====
-- internal/watcher/address.go: the addresses of items. `path_valid` stands for ObjectPath.IsValid of
-- the bus library, and `resolve` for the answer of the bus to GetNameOwner, `none` being an error.
use sysc_tray.Prelude.{
  ℕ, ◌≡◌, ◌≢◌, refl, sym, subst, Bool, true, false, not, ◌&&◌, ◌||◌, [], ◌∷◌, ◌++◌, Option, none,
  some, arith, ◌==◌, ltb, if◌then◌else◌, Text, codes, text_eq, has_prefix, length, Result, ok, err,
  ◌>>=◌, ◌>>◌, require, All, Option-cases, inl, inr,
}

pub record Key : Type 0 where
  pub owner : Text
  pub object_path : Text
  pub generation : ℕ

pub record Address : Type 0 where
  pub owner : Text
  pub object_path : Text

pub data AddressError : Type 0 where
  empty_argument invalid_path not_unique not_a_name unresolved : AddressError

abbrev pub default_item_path : Text
default_item_path = codes "/StatusNotifierItem"

-- `Address.String`
unfoldable pub address_text : Address → Text
address_text a = a.owner ++ a.object_path

unfoldable pub address_eq : Address → Address → Bool
address_eq a b = text_eq a.owner b.owner && text_eq a.object_path b.object_path

-- strings.HasSuffix for one byte.
ends_with : ℕ → Text → Bool
ends_with c [] = false
ends_with c (d ∷ []) = c == d
ends_with c (d ∷ e ∷ s) = ends_with c (e ∷ s)

has_byte : ℕ → Text → Bool
has_byte c [] = false
has_byte c (d ∷ s) = (c == d) || has_byte c s

unfoldable pub is_unique_name : Text → Bool
is_unique_name name = has_prefix name (codes ":") && ltb 1 (length name)

pub is_bus_name : Text → Bool
unfolding is_unique_name ends_with has_byte
is_bus_name name =
    is_unique_name name
    || (has_byte 46 name && (not (has_prefix name (codes ".")) && not (ends_with 46 name)))

-- The texts before and from the first "/": strings.Index and the slices.
split : Text → Text × Option Text
split [] = ([], none)
split (c ∷ s) =
    let (name, path) = split s in if c == 47 then ([], some (c ∷ s)) else (c ∷ name, path)

path_or_default : Option Text → Text
path_or_default none = default_item_path
path_or_default (some p) = p

resolved : Option Text → Result AddressError Text
resolved none = err unresolved
resolved (some owner) = if is_unique_name owner then ok owner else err not_unique

module _ (path_valid : Text → Bool) (resolve : Text → Option Text) where
  pub resolve_registration : Text → Text → Result AddressError Address
  unfolding is_unique_name is_bus_name resolved
  resolve_registration sender argument =
      if text_eq argument []
      then err empty_argument
      else if has_prefix argument (codes "/")
      then (require (path_valid argument) invalid_path
          >> require (is_unique_name sender) not_unique
          >> ok (record { owner = sender; object_path = argument }))
      else (require (is_bus_name argument) not_a_name >> resolved (resolve argument) >>= λ owner.
          ok (record { owner = owner; object_path = default_item_path }))

  owner_of : Text → Result AddressError Text
  unfolding is_unique_name resolved
  owner_of name = if is_unique_name name then ok name else resolved (resolve name)

  pub parse_registered_item : Text → Result AddressError Address
  unfolding split path_or_default owner_of
  parse_registered_item entry =
      if text_eq entry []
      then err empty_argument
      else (let (name, rest) = split entry in
          let path = path_or_default rest in
          require (path_valid path) invalid_path >> owner_of name >>= λ owner.
          ok (record { owner = owner; object_path = path }))

-- An owner that is a unique name, and a path that the bus accepts.
pub record IsAddress (path_valid : Text → Bool) (a : Address) : Type 0 where
  pub unique : is_unique_name a.owner ≡ true
  pub path : path_valid a.object_path ≡ true

abbrev pub NoSlash : Text → Type 0
NoSlash = All (λ c. c ≢ 47)

module _ (path_valid : Text → Bool) (default_valid : path_valid default_item_path ≡ true)
    (resolve : Text → Option Text) where
  -- Whatever the bus answers, a registration that is accepted has a unique owner and a valid path.
  pub resolve_registration-IsAddress :
      (sender argument : Text) (a : Address)
      → resolve_registration path_valid resolve sender argument ≡ ok a
      → IsAddress path_valid a
  unfolding resolve_registration resolved
  resolve_registration-IsAddress sender argument a h = elim (Option-cases (resolve argument)) [
    | inl missing ↦ ground arith
    | inr (owner, found) ↦ ground arith
  ]

  pub parse_registered_item-IsAddress :
      (entry : Text) (a : Address)
      → parse_registered_item path_valid resolve entry ≡ ok a
      → IsAddress path_valid a
  unfolding parse_registered_item owner_of resolved
  parse_registered_item-IsAddress entry a h = elim (Option-cases (resolve (split entry).0)) [
    | inl missing ↦ ground arith
    | inr (owner, found) ↦ ground arith
  ]

  split-append : (s t : Text) → NoSlash s → split (s ++ 47 ∷ t) ≡ (s, some (47 ∷ t))
  unfolding split
  split-append [] t h = refl
  split-append (c ∷ s) t h = ground (arith, split-append s t)

  slash_first : (t : Text) → has_prefix t (codes "/") ≡ true → (s : Text) × (t ≡ 47 ∷ s)
  unfolding has_prefix
  slash_first [] h = absurd (ground arith)
  slash_first (c ∷ t) h = (t, ground arith)

  split-address_text :
      (a : Address)
      → NoSlash a.owner
      → has_prefix a.object_path (codes "/") ≡ true
      → split (address_text a) ≡ (a.owner, some a.object_path)
  unfolding address_text
  split-address_text a bare slash =
      let (s, e) = slash_first a.object_path slash in
      subst (λ p. split (a.owner ++ p) ≡ (a.owner, some p)) (sym e) (split-append a.owner s bare)

  address_text-set :
      (owner path : Text) → is_unique_name owner ≡ true → text_eq (owner ++ path) [] ≡ false
  unfolding is_unique_name text_eq
  address_text-set [] path h = ground arith
  address_text-set (c ∷ owner) path h = refl

  -- For a library that accepts the default path: the text that is published for an address is read
  -- back as that address by a host of the watcher, whatever the bus answers, for an owner that is
  -- a unique name without a slash and a valid path with one in front.
  pub parse_registered_item-address_text :
      (a : Address)
      → IsAddress path_valid a
      → NoSlash a.owner
      → has_prefix a.object_path (codes "/") ≡ true
      → parse_registered_item path_valid resolve (address_text a) ≡ ok a
  unfolding parse_registered_item owner_of resolved path_or_default address_text
  parse_registered_item-address_text a h bare slash =
      rw
        (
          address_text-set a.owner a.object_path h.unique,
          split-address_text a bare slash,
          h.path,
          h.unique,
        )
        refl

  path-set : (path : Text) → has_prefix path (codes "/") ≡ true → text_eq path [] ≡ false
  unfolding has_prefix text_eq
  path-set [] h = ground arith
  path-set (c ∷ path) h = refl

  -- A path is registered for its sender.
  pub resolve_registration-path :
      (a : Address)
      → IsAddress path_valid a
      → has_prefix a.object_path (codes "/") ≡ true
      → resolve_registration path_valid resolve a.owner a.object_path ≡ ok a
  unfolding resolve_registration
  resolve_registration-path a h slash =
      rw (path-set a.object_path slash, slash, h.path, h.unique) refl
