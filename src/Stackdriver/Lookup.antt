-- ===== src/Stackdriver/Lookup.antt =====
-- The attributes of a span as a map: which value each key has, and how many are dropped.
use opentelemetry_rust_contr.Common.{
  ℕ, ◌+◌, ◌≤◌, List, [], ◌∷◌, ◌++◌, length, ltb, not, ◌&&◌, Option, none, some, if◌then◌else◌,
  arith,
}
use opentelemetry_rust_contr.Common.Text.{Str, str_eq}
use opentelemetry_rust_contr.Stackdriver.{Sdk, AttributeValue, SpanAttributes, Value, insert}
use opentelemetry_rust_contr.Stackdriver.Attributes.{
  SemConv, key_map, gcp_key, value_from, dropped, push_attribute, push_all, attributes_new,
}

module _ {V : Type 0} where
  length-insert : (key : Str) (v : V) (m : List (Str × V)) → length (insert key v m) ≤ 1 + length m
  unfolding insert
  length-insert key v [] = omega arith
  length-insert key v ((k, w) ∷ m) = ground (arith, length-insert key v m)

module _ (sdk : Sdk) (semconv : SemConv) where
  -- The pairs that are pushed, in order.
  unfoldable pub pushed :
      List (Str × Value sdk) → Option (List (Str × Value sdk)) → List (Str × Value sdk)
  pushed attributes none = attributes
  pushed attributes (some resource) = resource ++ attributes

  -- The value of the last pair whose key is at most 128 bytes long and goes by the name `k`.
  unfoldable pub last_value : Str → List (Str × Value sdk) → Option AttributeValue
  last_value k [] = none
  last_value k ((key, value) ∷ more) = elim (last_value k more) [
    | some v ↦ some v
    | none ↦
        if not (ltb 128 (length key)) && str_eq (gcp_key (key_map semconv) key) k
        then some (value_from sdk value)
        else none
  ]

  unfoldable pub too_long : List (Str × Value sdk) → ℕ
  too_long [] = 0
  too_long ((key, value) ∷ more) = (if ltb 128 (length key) then 1 else 0) + too_long more

  unfoldable pub or_else : Option AttributeValue → Option AttributeValue → Option AttributeValue
  or_else none o = o
  or_else (some v) o = some v

  -- Room for all: neither limit is met.
  HasRoom : List (Str × Value sdk) → SpanAttributes → Type 0
  HasRoom more attrs =
      (length attrs.attribute_map + length more ≤ 32)
      × (attrs.dropped_attributes_count + length more ≤ 32)

  abbrev nothing : SpanAttributes
  nothing = record { attribute_map = []; dropped_attributes_count = 0 }

  push_attribute-bound :
      (key : Str) (value : Value sdk) (attrs : SpanAttributes)
      → length attrs.attribute_map ≤ 32
      → length (push_attribute sdk semconv key value attrs).attribute_map ≤ 32
  unfolding push_attribute dropped
  push_attribute-bound key value attrs h = ground (
    arith,
    length-insert (gcp_key (key_map semconv) key) (value_from sdk value) attrs.attribute_map,
  )

  push_all-bound :
      (more : List (Str × Value sdk)) (attrs : SpanAttributes)
      → length attrs.attribute_map ≤ 32
      → length (push_all sdk semconv more attrs).attribute_map ≤ 32
  unfolding push_all
  push_all-bound [] attrs h = h
  push_all-bound ((key, value) ∷ more) attrs h =
      push_all-bound more _ (push_attribute-bound key value attrs h)

  -- However many attributes there are, at most 32 are exported.
  pub attributes_new-bound :
      (attributes : List (Str × Value sdk)) (resource : Option (List (Str × Value sdk)))
      → length (attributes_new sdk semconv attributes resource).attribute_map ≤ 32
  unfolding attributes_new
  attributes_new-bound attributes none = push_all-bound attributes nothing (omega arith)
  attributes_new-bound attributes (some resource) =
      push_all-bound attributes _ (push_all-bound resource nothing (omega arith))
