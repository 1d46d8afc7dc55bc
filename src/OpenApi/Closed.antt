-- ===== src/OpenApi/Closed.antt =====
-- The definitions of both programs are closed. They are compared as names first, for `ref` the identity,
-- and relabelled by the `ref` that is given.
use cloud_native_tour.Common.{
  Bool, true, false, ◌&&◌, ◌||◌, ◌≡◌, ◌≢◌, refl, sym, ap, ◌∙◌, inl, inr, Bool-cases, Option-cases,
  List, [], ◌∷◌, map, All, Option, none, some, arith,
}
use mathlib.Core.Path.{subst}
use Prim.Native.String.{String}
use text.Mathlib.Text.{◌==◌}
use text.Mathlib.TextEquality.{eq_iff}
use cloud_native_tour.OpenApi.Schema.{OpenApiDefinition, Library}
use cloud_native_tour.OpenApi.References.{
  references, find_definition, listed, has_property, Resolves, required_names, properties_of,
  IsClosed,
}
use cloud_native_tour.OpenApi.Relabel.{
  names, option_map, relabel, relabel_definition, relabelled, references-relabel, find-relabelled,
  required_relabel,
}
use cloud_native_tour.OpenApi.Definitions.{aggregator_definitions, greeting_definitions}

-- The definitions as a Boolean test on names.
abbrev all_of {ℓ} : {A : Type ℓ} → (A → Bool) → List A → Bool
all_of test [] = true
all_of test (x ∷ xs) = test x && all_of test xs

abbrev is_some {ℓ} : {A : Type ℓ} → Option A → Bool
is_some none = false
is_some (some x) = true

abbrev closed_names : List (String × OpenApiDefinition String) → OpenApiDefinition String → Bool
closed_names definitions d =
    all_of (λ r. listed r d.dependencies && is_some (find_definition r definitions))
      (references d.schema)
    && all_of (λ name. has_property name (properties_of d.schema)) (required_names d.schema)

abbrev all_but_closed :
    String
    → List (String × OpenApiDefinition String)
    → List (String × OpenApiDefinition String)
    → Bool
all_but_closed exception definitions =
    all_of (λ (name, d). (name == exception) || closed_names definitions d)

all_of-All {ℓ} :
    {A : Type ℓ} {P : A → Type 0} (test : A → Bool) (xs : List A)
    → ((x : A) → test x ≡ true → P x)
    → all_of test xs ≡ true
    → All P xs
all_of-All test [] h e = tt
all_of-All test (x ∷ xs) h e = elim (Bool-cases (test x)) [
  | inl yes_x ↦ (h x yes_x, all_of-All test xs h (rw (yes_x, all_of) at e))
  | inr no_x ↦ absurd (ground arith)
]

All-map {ℓ} :
    {A B : Type ℓ} (P : B → Type 0) (f : A → B) (xs : List A)
    → All (λ x. P (f x)) xs
    → All P (map f xs)
All-map P f [] h = tt
All-map P f (x ∷ xs) h = (h.0, All-map P f xs h.1)

both : (a b : Bool) → (a && b) ≡ true → (a ≡ true) × (b ≡ true)
both true b e = (refl, e)
both false b e = absurd (ground arith)

-- A definition that is found has passed the test, unless it is the exception.
found_closed :
    (exception name : String) (definitions xs : List (String × OpenApiDefinition String))
    (d : OpenApiDefinition String)
    → all_but_closed exception definitions xs ≡ true
    → (name == exception) ≡ false
    → find_definition name xs ≡ some d
    → closed_names definitions d ≡ true
unfolding find_definition
found_closed exception name definitions [] d h n e = absurd (ground arith)
found_closed exception name definitions ((other, x) ∷ rest) d h n e =
    elim (Bool-cases (other == name)) [
      | inl same ↦
          let named : other ≡ name = (eq_iff other name).0 same in
          let found : x ≡ d = cc (rw (same, find_definition) at e) in
          let tested = rw (named, n) at h in
          subst (λ t. closed_names definitions t ≡ true) found
            (both (closed_names definitions x) _ tested).0
      | inr different ↦
          found_closed exception name definitions rest d
            (both (other == exception || closed_names definitions x) _ h).1 n
            (rw (different, find_definition) at e)
    ]

abbrev pub internal_event : String
internal_event = "k8s.io/apimachinery/pkg/apis/meta/v1.InternalEvent"

ne-internal_event : (name : String) → name ≢ internal_event → (name == internal_event) ≡ false
ne-internal_event name h = elim (Bool-cases (name == internal_event)) [
  | inl same ↦ absurd (h ((eq_iff name internal_event).0 same))
  | inr different ↦ different
]

check_aggregator :
    {R : Type 0} (lib : Library R)
    → all_but_closed internal_event
        (aggregator_definitions (names lib))
        (aggregator_definitions (names lib))
      ≡ true
unfolding references find_definition listed has_property
check_aggregator lib = refl

check_greeting :
    {R : Type 0} (lib : Library R)
    → all_but_closed internal_event
        (greeting_definitions (names lib))
        (greeting_definitions (names lib))
      ≡ true
unfolding references find_definition listed has_property
check_greeting lib = refl

not_both : {A : Type 0} (b : Bool) (o : Option A) → o ≡ none → (b && is_some o) ≡ true → ⊥
not_both true none e h = ground arith
not_both false o e h = ground arith
not_both true (some x) e h = cc

none-ne-some : {A : Type 0} {x : A} → none ≢ some x
none-ne-some e = cc

-- Definitions that pass the test are closed, whatever `ref` makes of the names.
module _ {R : Type 0} (lib : Library R)
    (definitions : List (String × OpenApiDefinition String)) where
  listed-Resolves :
      (d : OpenApiDefinition String) (r : String)
      → (listed r d.dependencies && is_some (find_definition r definitions)) ≡ true
      → Resolves lib (relabelled lib.ref definitions) (relabel_definition lib.ref d) (lib.ref r)
  listed-Resolves d r h = elim (Option-cases (find_definition r definitions)) [
    | inl missing ↦
        absurd (not_both (listed r d.dependencies) (find_definition r definitions) missing h)
    | inr (e, found) ↦ record {
      name = r;
      is_reference = refl;
      is_dependency = (both (listed r d.dependencies) _ h).0;
      target = relabel_definition lib.ref e;
      is_defined =
          find-relabelled lib.ref r definitions
          ∙ ap (option_map (relabel_definition lib.ref)) found;
    }
  ]

  closed_names-IsClosed :
      (d : OpenApiDefinition String)
      → closed_names definitions d ≡ true
      → IsClosed lib (relabelled lib.ref definitions) (relabel_definition lib.ref d)
  unfolding relabel
  closed_names-IsClosed d h =
      let (refs, required) =
        both
          (all_of (λ r. listed r d.dependencies && is_some (find_definition r definitions))
            (references d.schema))
          _ h in
      record {
        resolved =
            subst
              (All (Resolves lib (relabelled lib.ref definitions) (relabel_definition lib.ref d)))
              (sym (references-relabel lib.ref d.schema))
              (All-map
                (Resolves lib (relabelled lib.ref definitions) (relabel_definition lib.ref d))
                lib.ref (references d.schema)
                (all_of-All _ (references d.schema) (listed-Resolves d) refs));
        required_present =
            required_relabel lib.ref d.schema
              (all_of-All _ (required_names d.schema) (λ name t. t) required);
      }

  pub found-IsClosed :
      (exception name : String) (d : OpenApiDefinition R)
      → all_but_closed exception definitions definitions ≡ true
      → (name == exception) ≡ false
      → find_definition name (relabelled lib.ref definitions) ≡ some d
      → IsClosed lib (relabelled lib.ref definitions) d
  found-IsClosed exception name d h n e = elim (Option-cases (find_definition name definitions)) [
    | inl missing ↦
        let whole =
          find-relabelled lib.ref name definitions
          ∙ ap (option_map (relabel_definition lib.ref)) missing in
        absurd (none-ne-some (sym whole ∙ e))
    | inr (x, found) ↦
        let whole =
          find-relabelled lib.ref name definitions
          ∙ ap (option_map (relabel_definition lib.ref)) found in
        let same : relabel_definition lib.ref x ≡ d = cc in
        subst (IsClosed lib (relabelled lib.ref definitions)) same (
          closed_names-IsClosed x (found_closed exception name definitions definitions x h n found))
  ]

-- Whatever `ref` makes of a type's name and whatever types and formats k8s.io/apimachinery gives its
-- times: every definition that kube-aggregator's GetOpenAPIDefinitions lists, but that of
-- InternalEvent, is closed: each reference in its schema, at any depth, is to a type that the
-- definition lists as a dependency and that has a definition there itself, and each property that its
-- schema requires is one of its properties.
pub aggregator_definitions-IsClosed :
    {R : Type 0} (lib : Library R) (name : String) (d : OpenApiDefinition R)
    → name ≢ internal_event
    → find_definition name (aggregator_definitions lib) ≡ some d
    → IsClosed lib (aggregator_definitions lib) d
unfolding relabel
aggregator_definitions-IsClosed lib name d n e =
    found-IsClosed lib (aggregator_definitions (names lib)) internal_event name d
      (check_aggregator lib) (ne-internal_event name n) e

-- Whatever `ref` makes of a type's name and whatever types and formats k8s.io/apimachinery gives its
-- times: every definition that crd-getting-started's GetOpenAPIDefinitions lists, but that of
-- InternalEvent, is closed: each reference in its schema, at any depth, is to a type that the
-- definition lists as a dependency and that has a definition there itself, and each property that its
-- schema requires is one of its properties.
pub greeting_definitions-IsClosed :
    {R : Type 0} (lib : Library R) (name : String) (d : OpenApiDefinition R)
    → name ≢ internal_event
    → find_definition name (greeting_definitions lib) ≡ some d
    → IsClosed lib (greeting_definitions lib) d
unfolding relabel
greeting_definitions-IsClosed lib name d n e =
    found-IsClosed lib (greeting_definitions (names lib)) internal_event name d (check_greeting lib)
      (ne-internal_event name n) e
