-- ===== src/Graph/Maps.antt =====
-- What the maps of properties hold after they are written.
use code_rag.Common.{
  String, true, false, some, [], ◌∷◌, ◌≡◌, refl, ◌∙◌, ap, arith, str_eq, str_eq_iff, Option-cases,
  inl, inr, if◌then◌else◌,
}
use code_rag.Graph.Types.{
  Values, Properties, find_property, property, set_property, put_properties, set_default, matches,
}
use code_rag.Graph.Repository.{last_value, has_key, IsIdentity}

module _ (V : Values) where
  open V use {Value}

  pub find-set_property :
      (key other : String) (v : Value) (props : Properties V)
      → find_property V (set_property V key v props) other
        ≡ (if str_eq key other then some v else find_property V props other)
  unfolding find_property set_property
  find-set_property key other v [] = refl
  find-set_property key other v ((k, u) ∷ props) = ground (
    arith,
    str_eq_iff k key,
    str_eq_iff k other,
    str_eq_iff key other,
    find-set_property key other v props,
  )

  find-put_properties :
      (new props : Properties V) (key : String)
      → has_key V new key ≡ false
      → find_property V (put_properties V new props) key ≡ find_property V props key
  unfolding put_properties has_key
  find-put_properties [] props key h = refl
  find-put_properties ((k, v) ∷ new) props key h = ground (
    arith,
    find-set_property k key v props,
    find-put_properties new (set_property V k v props) key,
  )

  pub property-set_property :
      (key other : String) (v : Value) (props : Properties V)
      → property V (set_property V key v props) other
        ≡ (if str_eq key other then v else property V props other)
  unfolding property
  property-set_property key other v props = ground (arith, find-set_property key other v props)

  pub property-put_properties :
      (new props : Properties V) (key : String)
      → property V (put_properties V new props) key ≡ last_value V new key (property V props key)
  unfolding put_properties last_value
  property-put_properties [] props key = refl
  property-put_properties ((k, v) ∷ new) props key =
      property-put_properties new (set_property V k v props) key
      ∙ ap (last_value V new key) (property-set_property k key v props)

  -- A default changes nothing that is there.
  find-set_default :
      (key other : String) (v u : Value) (props : Properties V)
      → find_property V props other ≡ some u
      → find_property V (set_default V key v props) other ≡ some u
  unfolding set_default
  find-set_default key other v u props h = elim (Option-cases (find_property V props key)) [
    | inl missing ↦ ground (arith, str_eq_iff key other, find-set_property key other v props)
    | inr (x, there) ↦ ground arith
  ]

  pub property-set_default :
      (key other : String) (v : Value) (props : Properties V)
      → str_eq key other ≡ false
      → property V (set_default V key v props) other ≡ property V props other
  unfolding set_default
  property-set_default key other v props h = elim (Option-cases (find_property V props key)) [
    | inl missing ↦ ground (arith, property-set_property key other v props)
    | inr (x, there) ↦ ground arith
  ]

  -- Entries that are all in a map match it.
  abbrev pub IsIn : Properties V → Properties V → Type 0
  IsIn [] props = Unit {0}
  IsIn ((k, v) ∷ filters) props =
      (find_property V props k ≡ some v) × (V.deep_equal v v ≡ true) × IsIn filters props

  pub matches-IsIn :
      (filters props : Properties V) → IsIn filters props → matches V filters props ≡ true
  unfolding matches property
  matches-IsIn [] props h = refl
  matches-IsIn ((k, v) ∷ filters) props h = ground (arith, matches-IsIn filters props)

  pub put_properties-IsIn :
      (identity properties props : Properties V)
      → IsIdentity V identity properties
      → IsIn identity (put_properties V identity props)
  unfolding put_properties
  put_properties-IsIn [] properties props h = tt
  put_properties-IsIn ((k, v) ∷ identity) properties props h = (
    find-put_properties identity (set_property V k v props) k h.1
        ∙ ground (arith, find-set_property k k v props, str_eq_iff k k),
    h.3,
    put_properties-IsIn identity properties (set_property V k v props) h.4,
  )

  -- Later writes to other keys keep it so.
  pub IsIn-put_properties :
      (identity properties props : Properties V)
      → IsIdentity V identity properties
      → IsIn identity props
      → IsIn identity (put_properties V properties props)
  IsIn-put_properties [] properties props h k = tt
  IsIn-put_properties ((key, v) ∷ identity) properties props h i = (
    find-put_properties properties props key h.0 ∙ i.0,
    i.1,
    IsIn-put_properties identity properties props h.4 i.2,
  )

  pub IsIn-set_default :
      (identity props : Properties V) (key : String) (v : Value)
      → IsIn identity props
      → IsIn identity (set_default V key v props)
  IsIn-set_default [] props key v i = tt
  IsIn-set_default ((k, u) ∷ identity) props key v i =
      (find-set_default key k v u props i.0, i.1, IsIn-set_default identity props key v i.2)

  -- A map that matched still does after writes to other keys.
  pub matches-put_properties :
      (identity properties props : Properties V) (v u : Value)
      → IsIdentity V identity properties
      → matches V identity (
          set_property V "updated_at" v
            (set_property V "updated_at" u (put_properties V properties props)))
        ≡ matches V identity props
  unfolding matches property
  matches-put_properties [] properties props v u h = refl
  matches-put_properties ((k, x) ∷ identity) properties props v u h = ground (
    arith,
    str_eq_iff "updated_at" k,
    str_eq_iff k "updated_at",
    find-set_property "updated_at" k v
        (set_property V "updated_at" u (put_properties V properties props)),
    find-set_property "updated_at" k u (put_properties V properties props),
    find-put_properties properties props k,
    matches-put_properties identity properties props v u h.4,
  )
