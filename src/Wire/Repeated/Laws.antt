-- ===== src/Wire/Repeated/Laws.antt =====
-- The items of a slice are a field each, in order; a nil pointer is no field.
use cloud_native_tour.Common.{
  ℕ, ◌/◌, ◌%◌, ◌^◌, ◌≤◌, ◌<◌, ◌≡◌, ◌≢◌, refl, ap, ◌∙◌, List, [], ◌∷◌, ◌++◌, All, Option, none, some,
  append-nil, append_assoc, length,
}
use cloud_native_tour.Wire.Unmarshal.{Switch}
use cloud_native_tour.Wire.Unmarshal.Segment.{field}
use cloud_native_tour.Wire.Unmarshal.Reads.{Reads-nil}
use cloud_native_tour.Wire.Buffer.{Action}
use cloud_native_tour.Wire.Message.{Message, MessageLaws, StaysCanonical}
use cloud_native_tour.Wire.Field.Advances.{Advances, Advances-message}
use cloud_native_tour.Wire.Field.Keeps.{Keeps, Keeps-message}
use cloud_native_tour.Wire.Field.Pieces.{
  Piece, Piece-nil, Piece-then, Piece-message, Decodes, Decodes-Reads, Decodes-append,
  Decodes-message,
}
use cloud_native_tour.Wire.Repeated.{
  elements, size_repeated, put_repeated, repeated_case, size_optional, put_optional,
}

abbrev pub repeated {ℓ} : {A : Type ℓ} → ℕ → (A → List ℕ) → List A → List ℕ
repeated tag encoding [] = []
repeated tag encoding (e ∷ rest) = field tag (encoding e) ++ repeated tag encoding rest

abbrev pub optional {ℓ} : {A : Type ℓ} → (A → List ℕ) → Option A → List ℕ
optional bytes none = []
optional bytes (some x) = bytes x

-- What the receiver's items are after more of them have been read.
abbrev pub appended {ℓ} : {A : Type ℓ} → Option (List A) → List A → Option (List A)
appended o [] = o
appended o (e ∷ rest) = appended (some (elements o ++ (e ∷ []))) rest

appended-some {ℓ} : {A : Type ℓ} (xs ys : List A) → appended (some xs) ys ≡ some (xs ++ ys)
appended-some xs [] = rw append-nil
appended-some xs (y ∷ ys) =
    appended-some (xs ++ (y ∷ [])) ys ∙ ap some (append_assoc xs (y ∷ []) ys)

-- From a nil slice on, the items read are the slice, unless it is empty and not nil.
pub appended-elements {ℓ} :
    {A : Type ℓ} (o : Option (List A)) → o ≢ some [] → appended none (elements o) ≡ o
appended-elements none h = refl
appended-elements (some []) h = absurd (h refl)
appended-elements (some (x ∷ xs)) h = appended-some (x ∷ []) xs

pub Piece-optional {ℓ} :
    {A : Type ℓ} (grow : ℕ → A → ℕ) (put : A → Action) (bytes : A → List ℕ)
    → ((x : A) → Piece (λ n. grow n x) (put x) (bytes x))
    → (o : Option A) → Piece (λ n. size_optional grow n o) (put_optional put o) (optional bytes o)
unfolding size_optional put_optional
Piece-optional grow put bytes piece none = Piece-nil
Piece-optional grow put bytes piece (some x) = piece x

-- What is asked of a pointer's content, where it has one.
abbrev pub EachOf {ℓ} : {A : Type ℓ} → (A → Type 0) → Option A → Type 0
EachOf P none = Unit
EachOf P (some x) = P x

pub Decodes-optional {ℓ} :
    {A : Type ℓ} {M : Type 0} {switch : Switch M} (with : Option A → M) (bytes : A → List ℕ)
    (P : A → Type 0)
    → ((x : A) → P x → Decodes switch (with none) (bytes x) (with (some x)))
    → (o : Option A) → EachOf P o
    → Decodes switch (with none) (optional bytes o) (with o)
Decodes-optional with bytes P decodes none c = Decodes-Reads (Reads-nil (with none))
Decodes-optional with bytes P decodes (some x) c = decodes x c

-- Nothing is asked.
pub EachOf-any {ℓ} : {A : Type ℓ} (o : Option A) → EachOf (λ x. Unit) o
EachOf-any none = tt
EachOf-any (some x) = tt

module _ {N : Type 0} {c : Message N} {encoding : N → List ℕ} {Canonical : N → Type 0}
    (laws : MessageLaws c encoding Canonical) where
  pub Piece-repeated :
      (tag : ℕ) (xs : List N)
      → Piece (λ n. size_repeated c n xs) (put_repeated c tag xs) (repeated tag encoding xs)
  unfolding size_repeated put_repeated
  Piece-repeated tag [] = Piece-nil
  Piece-repeated tag (e ∷ rest) = Piece-then (Piece-message laws tag e) (Piece-repeated tag rest)

  pub Advances-repeated :
      {M : Type 0} {input : List ℕ} {i j : ℕ} (old : Option (List N)) (update : Option (List N) → M)
      (f w : ℕ)
      → length input < 2 ^ 63
      → Advances input i j (repeated_case c old update input f w j)
  unfolding repeated_case
  Advances-repeated old update f w h =
      Advances-message (λ xs. c.unmarshal xs c.empty)
        (λ e. update (some (elements old ++ (e ∷ [])))) f w h
        (λ xs k. laws.unmarshal_ends xs c.empty k)

  -- A switch that answers the field by the repeated case, whatever items `with` puts into the message.
  pub Decodes-repeated :
      {M : Type 0} {switch : Switch M} (tag : ℕ) (with : Option (List N) → M)
      → tag < 128
      → 8 ≤ tag
      → tag % 8 ≡ 2
      → ((old : Option (List N)) (input : List ℕ) (pre j : ℕ)
          → switch input pre (tag / 8) 2 j (with old)
            ≡ repeated_case c old with input (tag / 8) 2 j)
      → (old : Option (List N)) (xs : List N) → All Canonical xs
      → Decodes switch (with old) (repeated tag encoding xs) (with (appended old xs))
  unfolding repeated_case
  Decodes-repeated tag with small big delimited answers old [] canonical =
      Decodes-Reads (Reads-nil (with old))
  Decodes-repeated tag with small big delimited answers old (e ∷ rest) canonical =
      Decodes-append
        (Decodes-message laws tag e (λ x. with (some (elements old ++ (x ∷ [])))) small big
          delimited canonical.0 (answers old))
        (Decodes-repeated tag with small big delimited answers (some (elements old ++ (e ∷ [])))
          rest canonical.1)

-- Reading into a new item and appending it keeps what `P` asks of the slice.
pub Keeps-repeated :
    {N M : Type 0} {c : Message N} {Canonical : N → Type 0} (stays : StaysCanonical c Canonical)
    {P : M → Type 0} (old : Option (List N)) (update : Option (List N) → M) (input : List ℕ)
    (f w j : ℕ)
    → ((e : N) → Canonical e → P (update (some (elements old ++ (e ∷ [])))))
    → Keeps P (repeated_case c old update input f w j)
unfolding repeated_case
Keeps-repeated {c} stays old update input f w j h =
    Keeps-message (λ xs. c.unmarshal xs c.empty) (λ e. update (some (elements old ++ (e ∷ []))))
      input f w j (λ xs e r. h e (stays.unmarshal_canonical xs c.empty e stays.empty_canonical r))

pub All-append_one {ℓ} :
    {A : Type ℓ} (P : A → Type 0) (xs : List A) (x : A) → All P xs → P x → All P (xs ++ (x ∷ []))
All-append_one P [] x h p = (p, tt)
All-append_one P (y ∷ ys) x h p = (h.0, All-append_one P ys x h.1 p)

pub append_one-ne-nil {ℓ} : {A : Type ℓ} (xs : List A) (x : A) → some (xs ++ (x ∷ [])) ≢ some []
append_one-ne-nil [] x e = cc
append_one-ne-nil (y ∷ ys) x e = cc
