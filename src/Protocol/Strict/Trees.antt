-- ===== src/Protocol/Strict/Trees.antt =====
-- JSON values as trees, and the tokens that encoding/json gives for them: what the scan of
-- protocol/frame.go is compared with.
use sysc_tray.Prelude.{List, [], ◌∷◌, ◌++◌, Text, Distinct}
use sysc_tray.Protocol.Strict.{
  Decoder, open_object, close_object, open_array, close_array, text, scalar,
}

mutual
  pub data Value : Type 0 where
    string : Text → Value
    atom : Value
    array : Elements → Value
    object : Fields → Value

  pub data Elements : Type 0 where
    no_elements : Elements
    element : Value → Elements → Elements

  pub data Fields : Type 0 where
    no_fields : Fields
    field : Text → Value → Fields → Fields

unfoldable mutual
  pub emit : Value → Decoder
  emit (string t) = text t ∷ []
  emit atom = scalar ∷ []
  emit (array es) = open_array ∷ emit_elements es
  emit (object fs) = open_object ∷ emit_fields fs

  pub emit_elements : Elements → Decoder
  emit_elements no_elements = close_array ∷ []
  emit_elements (element v es) = emit v ++ emit_elements es

  pub emit_fields : Fields → Decoder
  emit_fields no_fields = close_object ∷ []
  emit_fields (field k v fs) = text k ∷ (emit v ++ emit_fields fs)

abbrev pub keys : Fields → List Text
keys no_fields = []
keys (field k v fs) = k ∷ keys fs

-- No object in the value has a key twice.
unfoldable mutual
  pub Unique : Value → Type 0
  Unique (string t) = Unit
  Unique atom = Unit
  Unique (array es) = UniqueElements es
  Unique (object fs) = Distinct (keys fs) × UniqueFields fs

  pub UniqueElements : Elements → Type 0
  UniqueElements no_elements = Unit
  UniqueElements (element v es) = Unique v × UniqueElements es

  pub UniqueFields : Fields → Type 0
  UniqueFields no_fields = Unit
  UniqueFields (field k v fs) = Unique v × UniqueFields fs
