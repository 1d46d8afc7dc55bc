-- ===== src/Wire/Field/Pieces.antt =====
-- `Piece grow put xs`: the statements of `Size` and of `MarshalToSizedBuffer` for one part of a message
-- agree with the part's bytes `xs`. Parts in a row are a part, so a message is one. `Decodes` says the
-- same of the statements of `Unmarshal`.
use cloud_native_tour.Common.{
  ℕ, ◌+◌, ◌/◌, ◌%◌, ◌^◌, ◌≤◌, ◌<◌, ◌≡◌, ℤ, Bool, List, [], ◌++◌, length, length-append, arith,
}
use cloud_native_tour.Wire.Result.{ok}
use cloud_native_tour.Wire.Unmarshal.{Switch}
use cloud_native_tour.Wire.Unmarshal.Segment.{field, length-field}
use cloud_native_tour.Wire.Unmarshal.Reads.{Reads, Reads-append}
use cloud_native_tour.Wire.Buffer.{Action, ◌then◌}
use cloud_native_tour.Wire.Buffer.Writes.{Writes, Writes-nil, Writes-then}
use cloud_native_tour.Wire.Message.{Message, MessageLaws}
use cloud_native_tour.Wire.Field.{
  size_field, put_text_field, put_message_field, text_case, message_case,
}
use cloud_native_tour.Wire.Field.Laws.{size_field-field, Writes-text_field, Writes-message_field}
use cloud_native_tour.Wire.Field.Decode.{Reads-text_field, Reads-message_field}
use cloud_native_tour.Wire.Field.Number.{size_number, put_number, size_bool, put_bool}
use cloud_native_tour.Wire.Field.Number.Laws.{
  number, bool_bytes, size_number-number, Writes-number, Writes-bool,
}

pub record Piece (grow : ℕ → ℕ) (put : Action) (xs : List ℕ) : Type 0 where
  pub grows : (n : ℕ) → n + length xs < 2 ^ 63 → grow n ≡ n + length xs
  pub puts : length xs < 2 ^ 63 → Writes put xs

pub Piece-nil : Piece (λ n. n) (λ b. ok b) []
Piece-nil = record { grows = λ n h. omega arith; puts = λ h. Writes-nil }

pub Piece-then :
    {g g' : ℕ → ℕ} {p p' : Action} {xs ys : List ℕ}
    → Piece g p xs
    → Piece g' p' ys
    → Piece (λ n. g' (g n)) (p' then p) (xs ++ ys)
Piece-then {g} {g'} {xs} {ys} a b = record {
  grows = λ n h.
      let total = length-append xs ys in
      let first = a.grows n (omega (arith, total)) in
      rw first (omega (arith, total, b.grows (n + length xs) (omega (arith, total))));
  puts = λ h.
      let total = length-append xs ys in
      Writes-then (b.puts (omega (arith, total))) (a.puts (omega (arith, total)));
}

pub Piece-text :
    (tag : ℕ) (s : List ℕ)
    → Piece (λ n. size_field n (length s)) (put_text_field tag s) (field tag s)
Piece-text tag s = record {
  grows = λ n h. size_field-field n tag s h;
  puts = λ h. Writes-text_field tag s (omega (arith, length-field tag s));
}

pub Piece-message :
    {N : Type 0} {c : Message N} {encoding : N → List ℕ} {Canonical : N → Type 0}
    → MessageLaws c encoding Canonical
    → (tag : ℕ) (m : N)
    → Piece
        (λ n. size_field n (c.size m))
        (put_message_field tag (c.marshal_to_sized_buffer m))
        (field tag (encoding m))
Piece-message {c} {encoding} laws tag m = record {
  grows = λ n h.
      let l = length-field tag (encoding m) in
      rw (laws.size_exact m (omega (arith, l))) (size_field-field n tag (encoding m) h);
  puts = λ h.
      let fits : length (encoding m) < 2 ^ 63 = omega (arith, length-field tag (encoding m)) in
      Writes-message_field tag fits (laws.marshal_fills m fits);
}

pub Piece-number :
    (tag : ℕ) (v : ℤ) → Piece (λ n. size_number n v) (put_number tag v) (number tag v)
Piece-number tag v = record {
  grows = λ n h. size_number-number n tag v h;
  puts = λ h. Writes-number tag v;
}

pub Piece-bool : (tag : ℕ) (v : Bool) → Piece size_bool (put_bool tag v) (bool_bytes tag v)
unfolding size_bool
Piece-bool tag v = record { grows = λ n h. omega arith; puts = λ h. Writes-bool tag v }

-- What `Unmarshal` makes of bytes that fit a slice.
pub record Decodes {M : Type 0} (switch : Switch M) (m : M) (xs : List ℕ) (m' : M) : Type 0 where
  pub decodes : length xs < 2 ^ 63 → Reads switch m xs m'

pub Decodes-Reads :
    {M : Type 0} {switch : Switch M} {m m' : M} {xs : List ℕ}
    → Reads switch m xs m'
    → Decodes switch m xs m'
Decodes-Reads r = record { decodes = λ h. r }

pub Decodes-append :
    {M : Type 0} {switch : Switch M} {m m' m'' : M} {xs ys : List ℕ}
    → Decodes switch m xs m'
    → Decodes switch m' ys m''
    → Decodes switch m (xs ++ ys) m''
Decodes-append {xs} {ys} r s = record {
  decodes = λ h.
      let total = length-append xs ys in
      Reads-append (r.decodes (omega (arith, total))) (s.decodes (omega (arith, total)));
}

pub Decodes-text :
    {M : Type 0} {switch : Switch M} {m : M} (tag : ℕ) (payload : List ℕ) (update : List ℕ → M)
    → tag < 128
    → 8 ≤ tag
    → tag % 8 ≡ 2
    → ((input : List ℕ) (pre j : ℕ)
        → switch input pre (tag / 8) 2 j m ≡ text_case update input (tag / 8) 2 j)
    → Decodes switch m (field tag payload) (update payload)
Decodes-text tag payload update small big delimited answers =
    Decodes-Reads (Reads-text_field tag payload update small big delimited answers)

-- A message inside the message, decoded into its zero value.
pub Decodes-message :
    {M N : Type 0} {switch : Switch M} {m : M} {c : Message N} {encoding : N → List ℕ}
    {Canonical : N → Type 0}
    → MessageLaws c encoding Canonical
    → (tag : ℕ) (n : N) (update : N → M) → tag < 128
    → 8 ≤ tag
    → tag % 8 ≡ 2
    → Canonical n
    → ((input : List ℕ) (pre j : ℕ)
        → switch input pre (tag / 8) 2 j m
          ≡ message_case (λ xs. c.unmarshal xs c.empty) update input (tag / 8) 2 j)
    → Decodes switch m (field tag (encoding n)) (update n)
Decodes-message {c} {encoding} laws tag n update small big delimited canonical answers = record {
  decodes = λ h.
      Reads-message_field tag (encoding n) (λ xs. c.unmarshal xs c.empty) update n small big
        delimited
        (laws.unmarshal_encoding n canonical (omega (arith, length-field tag (encoding n))))
        answers;
}
