-- ===== src/Dbusval.antt =====
-- internal/dbusval/value.go: the readers of values that the bus decoder made. `Value` has a
-- constructor for each shape of a Go value that they tell apart, and `other` for the rest. An invalid
-- reflect.Value and a nil interface are both `nil`, so `Any` is the identity; every field that the
-- decoder fills can be read, so CanInterface holds.
use sysc_tray.Prelude.{
  ℕ, ◌≡◌, ◌⊎◌, Bool, List, [], ◌∷◌, map, Option, none, some, arith, ltb, if◌then◌else◌, Text, ℤ,
  pos, codes, length, take, length-take, refl, All, Option-cases, inl, inr,
}

mutual
  -- `text` is a string, `path` a dbus.ObjectPath, whose kind is a string too; `word` is
  -- an uint32, which the menu reader asks for, and `uint` any other unsigned number; `table` is a map from
  -- names to variants or to anything, here without the variant; `pointer` is one that is not nil.
  pub data Value : Type 0 where
    nil other : Value
    text path bytes : Text → Value
    boolean : Bool → Value
    int : ℤ → Value
    uint word : ℕ → Value
    list struct : Values → Value
    table : Fields → Value
    variant pointer : Value → Value

  pub data Values : Type 0 where
    end : Values
    item : Value → Values → Values

  pub data Fields : Type 0 where
    empty : Fields
    field : Text → Value → Fields → Fields

-- A signal of the bus, as the connection hands it out.
pub record Signal : Type 0 where
  pub name : Text
  pub path : Text
  pub body : List Value

-- A method call to an application, and how it ends.
pub record BusCall : Type 0 where
  pub destination : Text
  pub path : Text
  pub method : Text
  pub arguments : List Value

pub data Reply : Type 0 where
  canceled deadline failed : Reply
  replied : List Value → Reply

-- No call, or one to a destination.
unfoldable pub CallsOnly : Text → List BusCall → Type 0
CallsOnly owner calls = (calls ≡ []) ⊎ ((b : BusCall) × (calls ≡ b ∷ []) × (b.destination ≡ owner))

abbrev pub name_owner_changed : Text
name_owner_changed = codes "org.freedesktop.DBus.NameOwnerChanged"

-- `.(string)`, whose zero value stands where it fails: an object path is not one.
unfoldable pub as_string : Value → Text
as_string (text t) = t
as_string v = []

-- `Indirect`
pub indirect : Value → Value
indirect (variant v) = indirect v
indirect (pointer v) = indirect v
indirect v = v

pub items_of : Values → List Value
items_of end = []
items_of (item v vs) = v ∷ items_of vs

unfoldable pub fields_of : Fields → List (Text × Value)
fields_of empty = []
fields_of (field name v fs) = (name, v) ∷ fields_of fs

-- The loop of `Tuple` and of `Elements`; an element of a byte array is an uint8.
array_of : Value → Option (List Value)
unfolding items_of
array_of (list vs) = some (items_of vs)
array_of (bytes bs) = some (map uint bs)
array_of v = none

parts_of : Value → Option (List Value)
unfolding array_of items_of
parts_of (struct vs) = some (items_of vs)
parts_of v = array_of v

unfoldable pub tuple : Value → ℕ → Option (List Value)
unfolding indirect parts_of
tuple v want = elim (parts_of (indirect v)) [
  | none ↦ none
  | some vs ↦ if ltb (length vs) want then none else some (map indirect (take want vs))
]

unfoldable pub elements : Value → Option (List Value)
unfolding indirect array_of
elements v = elim (array_of (indirect v)) [ none ↦ none | some vs ↦ some (map indirect vs) ]

-- `String`
pub string_in : Value → Text
string_in (text t) = t
string_in (path t) = t
string_in v = []

-- `Bool`
pub bool_in : Value → Bool → Bool
bool_in (boolean b) fallback = b
bool_in v fallback = fallback

-- `Int`
unfoldable pub int_in : Value → Option ℤ
int_in (int z) = some z
int_in (uint n) = if ltb 4294967295 n then none else some (pos n)
int_in (word n) = if ltb 4294967295 n then none else some (pos n)
int_in v = none

-- `Bytes`
pub bytes_in : Value → Option Text
bytes_in (bytes b) = some b
bytes_in v = none

unfoldable pub string_of : Value → Text
unfolding indirect string_in
string_of v = string_in (indirect v)

unfoldable pub bool_of : Value → Bool → Bool
unfolding indirect bool_in
bool_of v fallback = bool_in (indirect v) fallback

pub int_of : Value → Option ℤ
unfolding indirect int_in
int_of v = int_in (indirect v)

pub bytes_of : Value → Option Text
unfolding indirect bytes_in
bytes_of v = bytes_in (indirect v)

-- Whether a value is no variant and no pointer.
abbrev pub IsDirect : Value → Type 0
IsDirect (variant v) = ⊥
IsDirect (pointer v) = ⊥
IsDirect v = Unit {0}

indirect-IsDirect : (v : Value) → IsDirect (indirect v)
unfolding indirect
indirect-IsDirect (variant v) = indirect-IsDirect v
indirect-IsDirect (pointer v) = indirect-IsDirect v
indirect-IsDirect nil = tt
indirect-IsDirect other = tt
indirect-IsDirect (text t) = tt
indirect-IsDirect (path t) = tt
indirect-IsDirect (bytes t) = tt
indirect-IsDirect (boolean b) = tt
indirect-IsDirect (int z) = tt
indirect-IsDirect (uint n) = tt
indirect-IsDirect (word n) = tt
indirect-IsDirect (list vs) = tt
indirect-IsDirect (struct vs) = tt
indirect-IsDirect (table fs) = tt

All-indirect : (vs : List Value) → All IsDirect (map indirect vs)
All-indirect [] = tt
All-indirect (v ∷ vs) = (indirect-IsDirect v, All-indirect vs)

length-indirect : (vs : List Value) → length (map indirect vs) ≡ length vs
length-indirect [] = refl
length-indirect (v ∷ vs) = omega (arith, length-indirect vs)

-- A tuple that is read has exactly the fields that were asked for, each behind all variants and
-- pointers, however deep they are: an index below `want` is always in range.
pub tuple_lem :
    (v : Value) (want : ℕ) (vs : List Value)
    → tuple v want ≡ some vs
    → (length vs ≡ want) × All IsDirect vs
unfolding tuple
tuple_lem v want vs h = elim (Option-cases (parts_of (indirect v))) [
  | inl bad ↦ ground arith
  | inr (ps, good) ↦
      ground
        (arith, All-indirect (take want ps), length-indirect (take want ps), length-take want ps)
]
