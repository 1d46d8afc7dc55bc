-- ===== src/OpenApi/Relabel.antt =====
-- A definition is made for one `ref` or another: its references are those for the identity, relabelled.
use cloud_native_tour.Common.{
  true, ◌||◌, ◌≡◌, refl, ap, ◌∙◌, inl, inr, Bool-cases, List, [], ◌∷◌, ◌++◌, map, All, Option, none,
  some,
}
use Prim.Native.String.{String}
use text.Mathlib.Text.{◌==◌}
use mathlib.Core.List.{map-append}
use cloud_native_tour.OpenApi.Schema.{
  SchemaProps, Schema, schema_of, Properties, none_left, property, Element, no_element, items,
  additional_properties, OpenApiDefinition, Library,
}
use cloud_native_tour.OpenApi.References.{
  references, property_references, element_references, find_definition, has_property,
  required_names, properties_of, optional_list,
}

-- The library whose `ref` is the name itself.
abbrev pub names : {R : Type 0} → Library R → Library String
names lib = record {
  ref = λ s. s;
  schema_type = lib.schema_type;
  schema_format = lib.schema_format;
}

abbrev pub option_map : {A B : Type 0} → (A → B) → Option A → Option B
option_map f none = none
option_map f (some x) = some (f x)

abbrev pub relabel_props : {A B : Type 0} → (A → B) → SchemaProps A → SchemaProps B
relabel_props f p = record {
  types = p.types;
  format = p.format;
  default = p.default;
  reference = option_map f p.reference;
  required = p.required;
  extensions = p.extensions;
}

unfoldable mutual
  pub relabel : {A B : Type 0} → (A → B) → Schema A → Schema B
  relabel f (schema_of p properties inside) =
      schema_of (relabel_props f p) (relabel_properties f properties) (relabel_element f inside)

  pub relabel_properties : {A B : Type 0} → (A → B) → Properties A → Properties B
  relabel_properties f none_left = none_left
  relabel_properties f (property name s rest) =
      property name (relabel f s) (relabel_properties f rest)

  pub relabel_element : {A B : Type 0} → (A → B) → Element A → Element B
  relabel_element f no_element = no_element
  relabel_element f (items s) = items (relabel f s)
  relabel_element f (additional_properties s) = additional_properties (relabel f s)

abbrev pub relabel_definition : {A B : Type 0} → (A → B) → OpenApiDefinition A → OpenApiDefinition B
relabel_definition f d = record { schema = relabel f d.schema; dependencies = d.dependencies }

abbrev pub relabelled :
    {A B : Type 0}
    → (A → B)
    → List (String × OpenApiDefinition A)
    → List (String × OpenApiDefinition B)
relabelled f = map (λ (name, d). (name, relabel_definition f d))

optional_list-relabel :
    {A B : Type 0} (f : A → B) (o : Option A)
    → optional_list (option_map f o) ≡ map f (optional_list o)
optional_list-relabel f none = refl
optional_list-relabel f (some x) = refl

mutual
  unfolding references relabel

  pub references-relabel :
      {A B : Type 0} (f : A → B) (s : Schema A) → references (relabel f s) ≡ map f (references s)
  references-relabel f (schema_of p properties inside) =
      rw
        (
          property_references-relabel f properties,
          element_references-relabel f inside,
          map-append,
          map-append,
        )
        (ap
          (λ xs.
            xs ++ (map f (property_references properties) ++ map f (element_references inside)))
          (optional_list-relabel f p.reference))

  property_references-relabel :
      {A B : Type 0} (f : A → B) (ps : Properties A)
      → property_references (relabel_properties f ps) ≡ map f (property_references ps)
  property_references-relabel f none_left = refl
  property_references-relabel f (property name s rest) =
      rw (references-relabel f s, property_references-relabel f rest, map-append) refl

  element_references-relabel :
      {A B : Type 0} (f : A → B) (e : Element A)
      → element_references (relabel_element f e) ≡ map f (element_references e)
  element_references-relabel f no_element = refl
  element_references-relabel f (items s) = references-relabel f s
  element_references-relabel f (additional_properties s) = references-relabel f s

has_property-relabel :
    {A B : Type 0} (f : A → B) (name : String) (ps : Properties A)
    → has_property name (relabel_properties f ps) ≡ has_property name ps
unfolding has_property relabel
has_property-relabel f name none_left = refl
has_property-relabel f name (property other s rest) =
    ap (λ b. (other == name) || b) (has_property-relabel f name rest)

pub find-relabelled :
    {A B : Type 0} (f : A → B) (name : String) (xs : List (String × OpenApiDefinition A))
    → find_definition name (relabelled f xs)
      ≡ option_map (relabel_definition f) (find_definition name xs)
unfolding find_definition
find-relabelled f name [] = refl
find-relabelled f name ((other, d) ∷ rest) = elim (Bool-cases (other == name)) [
  | inl same ↦ rw (same, find_definition) refl
  | inr different ↦ rw (different, find_definition) (find-relabelled f name rest)
]

pub required_relabel :
    {A B : Type 0} (f : A → B) (s : Schema A)
    → All (λ name. has_property name (properties_of s) ≡ true) (required_names s)
    → All
        (λ name. has_property name (properties_of (relabel f s)) ≡ true)
        (required_names (relabel f s))
unfolding relabel
required_relabel f (schema_of p properties inside) h = present p.required h
  where
    present :
        (names : List String)
        → All (λ name. has_property name properties ≡ true) names
        → All (λ name. has_property name (relabel_properties f properties) ≡ true) names
    present [] h = tt
    present (name ∷ rest) h = (has_property-relabel f name properties ∙ h.0, present rest h.1)
