-- ===== src/OpenApi/References.antt =====
-- What a definition refers to, and what the builder of kube-openapi relies on: where a schema refers to
-- a type, the definition lists it as a dependency, and there is a definition for it; what is required is
-- a property.
use cloud_native_tour.Common.{
  Bool, true, false, ◌||◌, ◌≡◌, List, [], ◌∷◌, ◌++◌, All, Option, none, some, if◌then◌else◌,
}
use Prim.Native.String.{String}
use text.Mathlib.Text.{◌==◌}
use cloud_native_tour.OpenApi.Schema.{
  Schema, schema_of, Properties, none_left, property, Element, no_element, items,
  additional_properties, OpenApiDefinition, Library,
}

abbrev pub optional_list {ℓ} : {A : Type ℓ} → Option A → List A
optional_list none = []
optional_list (some x) = x ∷ []

-- The references in a schema, at any depth.
unfoldable mutual
  pub references : {R : Type 0} → Schema R → List R
  references (schema_of p properties inside) =
      optional_list p.reference ++ (property_references properties ++ element_references inside)

  pub property_references : {R : Type 0} → Properties R → List R
  property_references none_left = []
  property_references (property name s rest) = references s ++ property_references rest

  pub element_references : {R : Type 0} → Element R → List R
  element_references no_element = []
  element_references (items s) = references s
  element_references (additional_properties s) = references s

-- Go's lookup in the map of definitions.
unfoldable pub find_definition {ℓ} : {A : Type ℓ} → String → List (String × A) → Option A
find_definition name [] = none
find_definition name ((other, d) ∷ rest) =
    if other == name then some d else find_definition name rest

unfoldable pub listed : String → List String → Bool
listed name [] = false
listed name (other ∷ rest) = (other == name) || listed name rest

unfoldable pub has_property : {R : Type 0} → String → Properties R → Bool
has_property name none_left = false
has_property name (property other s rest) = (other == name) || has_property name rest

-- A reference that the builder can follow.
pub record Resolves {R : Type 0} (lib : Library R)
    (definitions : List (String × OpenApiDefinition R)) (d : OpenApiDefinition R) (r : R)
    : Type 0 where
  pub name : String
  pub is_reference : r ≡ lib.ref name
  pub is_dependency : listed name d.dependencies ≡ true
  pub target : OpenApiDefinition R
  pub is_defined : find_definition name definitions ≡ some target

abbrev pub required_names : {R : Type 0} → Schema R → List String
required_names (schema_of p properties inside) = p.required

abbrev pub properties_of : {R : Type 0} → Schema R → Properties R
properties_of (schema_of p properties inside) = properties

pub record IsClosed {R : Type 0} (lib : Library R)
    (definitions : List (String × OpenApiDefinition R)) (d : OpenApiDefinition R) : Type 0 where
  pub resolved : All (Resolves lib definitions d) (references d.schema)
  pub required_present :
      All (λ name. has_property name (properties_of d.schema) ≡ true) (required_names d.schema)
