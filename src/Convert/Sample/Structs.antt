-- ===== src/Convert/Sample/Structs.antt =====
-- The maps of structpb, written out for the tests.
use bloem_plugin_sdk.Base.{ℕ, [], ◌∷◌, Result, ok, err, ◌>>=◌, ◌≡◌, refl}
use bloem_plugin_sdk.Values.{
  Value, Values, ValueFields, Any, Anys, Entries, text, slice, object, bool,
}
use bloem_plugin_sdk.Messages.{Struct}
use bloem_plugin_sdk.Convert.{Metadata}
use bloem_plugin_sdk.Convert.Whole.{IsWholeValue, AreWholeValues, AreWholeFields, IsWholeStruct}

abbrev mutual
  to_any : Value → Any
  to_any Value.unset = Any.nil
  to_any Value.null_value = Any.nil
  to_any (Value.number_value n) = Any.float64 n
  to_any (Value.string_value s) = text s
  to_any (Value.bool_value b) = bool b
  to_any (Value.struct_value m) = object (to_entries m)
  to_any (Value.list_value vs) = slice (to_anys vs)

  to_anys : Values → Anys
  to_anys Values.nil = Anys.no_items
  to_anys (Values.cons v vs) = Anys.item (to_any v) (to_anys vs)

  to_entries : ValueFields → Entries
  to_entries ValueFields.end = Entries.no_entries
  to_entries (ValueFields.field k v m) = Entries.entry k (to_any v) (to_entries m)

abbrev mutual
  of_any : Any → Result ℕ Value
  of_any Any.nil = ok Value.null_value
  of_any (Any.bool b) = ok (Value.bool_value b)
  of_any (Any.float64 n) = ok (Value.number_value n)
  of_any (Any.text s) = ok (Value.string_value s)
  of_any (Any.texts ss) = err 0
  of_any (Any.slice vs) = of_anys vs >>= λ us. ok (Value.list_value us)
  of_any (Any.maps ms) = err 0
  of_any (Any.object m) = of_entries m >>= λ w. ok (Value.struct_value w)

  of_anys : Anys → Result ℕ Values
  of_anys Anys.no_items = ok Values.nil
  of_anys (Anys.item v vs) = of_any v >>= λ u. of_anys vs >>= λ us. ok (Values.cons u us)

  of_entries : Entries → Result ℕ ValueFields
  of_entries Entries.no_entries = ok ValueFields.end
  of_entries (Entries.entry k v m) =
      of_any v >>= λ u. of_entries m >>= λ w. ok (ValueFields.field k u w)

mutual
  of_any-to_any : (v : Value) → IsWholeValue v → of_any (to_any v) ≡ ok v
  of_any-to_any Value.unset whole = absurd whole
  of_any-to_any Value.null_value whole = refl
  of_any-to_any (Value.number_value n) whole = refl
  of_any-to_any (Value.string_value s) whole = refl
  of_any-to_any (Value.bool_value b) whole = refl
  of_any-to_any (Value.struct_value m) whole = rw (of_entries-to_entries m whole) refl
  of_any-to_any (Value.list_value vs) whole = rw (of_anys-to_anys vs whole) refl

  of_anys-to_anys : (vs : Values) → AreWholeValues vs → of_anys (to_anys vs) ≡ ok vs
  of_anys-to_anys Values.nil whole = refl
  of_anys-to_anys (Values.cons v vs) whole =
      rw (of_any-to_any v whole.0, of_anys-to_anys vs whole.1) refl

  of_entries-to_entries : (m : ValueFields) → AreWholeFields m → of_entries (to_entries m) ≡ ok m
  of_entries-to_entries ValueFields.end whole = refl
  of_entries-to_entries (ValueFields.field k v m) whole =
      rw (of_any-to_any v whole.0, of_entries-to_entries m whole.1) refl

abbrev pub as_map : Struct → Metadata
as_map [] = []
as_map ((k, v) ∷ s) = (k, to_any v) ∷ as_map s

abbrev pub new_struct : Metadata → Result ℕ Struct
new_struct [] = ok []
new_struct ((k, v) ∷ m) = of_any v >>= λ u. new_struct m >>= λ s. ok ((k, u) ∷ s)

pub new_struct-as_map : (s : Struct) → IsWholeStruct s → new_struct (as_map s) ≡ ok s
new_struct-as_map [] whole = refl
new_struct-as_map ((k, v) ∷ s) whole =
    rw (of_any-to_any v whole.0, new_struct-as_map s whole.1) refl
