-- ===== src/OpenApi/Schema.antt =====
-- The types of k8s.io/kube-openapi that the generated OpenAPI definitions fill, with the fields that they
-- fill but the descriptions. `R` is spec.Ref.
use cloud_native_tour.Common.{ℕ, Bool, List, [], ◌∷◌, Option, none, some}
use Prim.Native.String.{String}

-- What the definitions call: the callback `ref`, and OpenAPISchemaType and OpenAPISchemaFormat of a type
-- of k8s.io/apimachinery.
pub record Library (R : Type 0) : Type 0 where
  pub ref : String → R
  pub schema_type : String → List String
  pub schema_format : String → String

-- An interface{}.
pub data Value : Type 0 where
  text : String → Value
  number : ℕ → Value
  bool : Bool → Value
  empty_map : Value
  texts : List String → Value

-- spec.SchemaProps and spec.VendorExtensible, but for the schemas inside; a field that is not given has
-- its zero value.
pub record SchemaProps (R : Type 0) : Type 0 where
  pub types : List String
  pub format : String
  pub default : Option Value
  pub reference : Option R
  pub required : List String
  pub extensions : List (String × Value)

mutual
  -- spec.Schema: its properties, in the order of the literal, and what is inside it otherwise.
  pub data Schema (R : Type 0) : Type 0 where
    schema_of : SchemaProps R → Properties R → Element R → Schema R

  pub data Properties (R : Type 0) : Type 0 where
    none_left : Properties R
    property : String → Schema R → Properties R → Properties R

  -- Items, or AdditionalProperties, which the definitions allow.
  pub data Element (R : Type 0) : Type 0 where
    no_element : Element R
    items : Schema R → Element R
    additional_properties : Schema R → Element R

-- common.OpenAPIDefinition
pub record OpenApiDefinition (R : Type 0) : Type 0 where
  pub schema : Schema R
  pub dependencies : List String

abbrev pub string_type : List String
string_type = "string" ∷ []

abbrev pub object_type : List String
object_type = "object" ∷ []

abbrev pub array_type : List String
array_type = "array" ∷ []

abbrev pub integer_type : List String
integer_type = "integer" ∷ []

abbrev pub boolean_type : List String
boolean_type = "boolean" ∷ []

infixr 5 ◌⊕◌
module _ {R : Type 0} where
  abbrev pub plain : SchemaProps R
  plain = record {
    types = [];
    format = "";
    default = none;
    reference = none;
    required = [];
    extensions = [];
  }

  -- A literal's fields: Type and Format, Ref, Default, Required, Extensions.
  abbrev pub typed : List String → String → SchemaProps R
  typed types format = record plain { types = types; format = format }

  abbrev pub referring : R → SchemaProps R
  referring r = record plain { reference = some r }

  abbrev pub defaulted : Value → SchemaProps R → SchemaProps R
  defaulted v p = record p { default = some v }

  abbrev pub requiring : List String → SchemaProps R → SchemaProps R
  requiring names p = record p { required = names }

  abbrev pub extended : List (String × Value) → SchemaProps R → SchemaProps R
  extended values p = record p { extensions = values }

  -- An entry of the map of properties.
  abbrev pub ◌⊕◌ : (String × Schema R) → Properties R → Properties R
  ◌⊕◌ (name, s) rest = property name s rest

  abbrev pub leaf : SchemaProps R → Schema R
  leaf p = schema_of p none_left no_element

  abbrev pub object : SchemaProps R → Properties R → Schema R
  object p properties = schema_of p properties no_element

  abbrev pub array : SchemaProps R → Schema R → Schema R
  array p s = schema_of p none_left (items s)

  abbrev pub mapped : SchemaProps R → Schema R → Schema R
  mapped p s = schema_of p none_left (additional_properties s)
