-- ===== src/Greeting/V1/SpecCodec/Laws.antt =====
-- The codec of `FooSpec` against the encoding of its two fields.
use cloud_native_tour.Common.{
  ℕ, ◌+◌, ◌^◌, ◌<◌, ◌≡◌, ◌≢◌, refl, sym, ◌∙◌, List, ◌++◌, length, length-append, arith,
}
use cloud_native_tour.Wire.Result.{ok, stuck, ◌>>=◌}
use cloud_native_tour.Wire.Unmarshal.Segment.{field, length-field}
use cloud_native_tour.Wire.Unmarshal.Total.{IsTotal, unmarshal_with-ne-stuck}
use cloud_native_tour.Wire.Unmarshal.Reads.{Reads, Reads-append, unmarshal_with-Reads}
use cloud_native_tour.Wire.Buffer.Writes.{
  Writes, FillsEnd, Writes-then, fill-Writes, marshal_fresh-FillsEnd, marshal_front-FillsEnd,
}
use cloud_native_tour.Wire.Message.{MessageLaws}
use cloud_native_tour.Wire.Field.Laws.{size_field-field, Writes-text_field}
use cloud_native_tour.Wire.Field.Decode.{
  text_case-ne-stuck, text_case_takes, default_case-ne-stuck, default_case_takes, Reads-text_field,
}
use cloud_native_tour.Greeting.V1.Types.{FooSpec}
use cloud_native_tour.Greeting.V1.SpecCodec.{
  empty, size, put, marshal_to_sized_buffer, marshal, marshal_to, switch, unmarshal, codec,
}

-- Field 1 is the message and field 2 the description; both are always written.
abbrev pub encoding : FooSpec → List ℕ
encoding m = field 0xa m.message ++ field 0x12 m.description

-- `Size` is the length of the encoding.
size_exact : (m : FooSpec) → length (encoding m) < 2 ^ 63 → size m ≡ length (encoding m)
unfolding size
size_exact m h =
    let n = length-append (field 0xa m.message) (field 0x12 m.description) in
    let first = size_field-field 0 0xa m.message (omega (arith, n)) in
    let second =
      size_field-field (0 + length (field 0xa m.message)) 0x12 m.description (omega (arith, n)) in
    rw first (omega (arith, n, second))

put-Writes : (m : FooSpec) → length (encoding m) < 2 ^ 63 → Writes (put m) (encoding m)
unfolding put
put-Writes m h =
    let n = length-append (field 0xa m.message) (field 0x12 m.description) in
    Writes-then
      (Writes-text_field 0x12 m.description (omega (arith, n, length-field 0x12 m.description)))
      (Writes-text_field 0xa m.message (omega (arith, n, length-field 0xa m.message)))

pub marshal_to_sized_buffer-FillsEnd :
    (m : FooSpec) → length (encoding m) < 2 ^ 63 → FillsEnd (marshal_to_sized_buffer m) (encoding m)
unfolding marshal_to_sized_buffer
marshal_to_sized_buffer-FillsEnd m h = fill-Writes (put-Writes m h)

switch-IsTotal : IsTotal switch
unfolding switch
switch-IsTotal = record {
  ends = λ input i f w j m h e. ground (
    arith,
    text_case-ne-stuck input f w j (λ (s : List ℕ). record m { message = s }),
    text_case-ne-stuck input f w j (λ (s : List ℕ). record m { description = s }),
    default_case-ne-stuck input i m h,
  );
  moves = λ input i f w j m m' k h lo hi e. ground (
    arith,
    text_case_takes input f w j (λ (s : List ℕ). record m { message = s }) m' k,
    text_case_takes input f w j (λ (s : List ℕ). record m { description = s }) m' k,
    default_case_takes input i m m' k h (omega arith),
  );
}

-- `Unmarshal` ends on every input, well formed or not.
pub unmarshal-ne-stuck :
    (input : List ℕ) (m : FooSpec) → length input < 2 ^ 63 → unmarshal input m ≢ stuck
unfolding unmarshal
unmarshal-ne-stuck input m h = unmarshal_with-ne-stuck switch switch-IsTotal input m h

-- The fields found replace the receiver's, whatever it held.
pub switch-Reads : (m old : FooSpec) → Reads switch old (encoding m) m
unfolding switch
switch-Reads m old =
    Reads-append
      (Reads-text_field 0xa m.message (λ s. record old { message = s }) (omega arith) (omega arith)
        (omega arith) (λ input pre j. refl))
      (Reads-text_field 0x12 m.description (λ s. record m { description = s }) (omega arith)
        (omega arith) (omega arith) (λ input pre j. refl))

pub unmarshal-encoding :
    (m old : FooSpec) → length (encoding m) < 2 ^ 63 → unmarshal (encoding m) old ≡ ok m
unfolding unmarshal
unmarshal-encoding m old h = unmarshal_with-Reads h (switch-Reads m old)

-- The codec of FooSpec keeps the laws that Foo asks of it.
pub laws : MessageLaws codec encoding (λ m. Unit {0})
laws = record {
  size_exact = size_exact;
  marshal_fills = marshal_to_sized_buffer-FillsEnd;
  unmarshal_encoding = λ m canonical h. unmarshal-encoding m empty h;
  unmarshal_ends = unmarshal-ne-stuck;
}

-- `Marshal` succeeds, with exactly the encoding.
pub marshal-encoding : (m : FooSpec) → length (encoding m) < 2 ^ 63 → marshal m ≡ ok (encoding m)
unfolding marshal
marshal-encoding m h =
    marshal_fresh-FillsEnd (size m) (marshal_to_sized_buffer-FillsEnd m h) (size_exact m h)

-- For a FooSpec whose encoding is shorter than 2 ^ 63 bytes, `Marshal` succeeds, and `Unmarshal` of
-- what it wrote succeeds and gives the FooSpec back, whatever the receiver held before.
pub unmarshal-marshal_spec :
    (m old : FooSpec)
    → length (encoding m) < 2 ^ 63
    → (marshal m >>= λ bytes. unmarshal bytes old) ≡ ok m
unmarshal-marshal_spec m old h = rw (marshal-encoding m h) (unmarshal-encoding m old h)

-- For a FooSpec whose encoding is shorter than 2 ^ 63 bytes, and a buffer that begins with as many
-- bytes: `MarshalTo` replaces those by the encoding, keeps the bytes behind them, and returns the
-- encoding's length.
pub marshal_to-encoding :
    (m : FooSpec) (junk back : List ℕ)
    → length (encoding m) < 2 ^ 63
    → length junk ≡ length (encoding m)
    → marshal_to m (junk ++ back) ≡ ok (encoding m ++ back, length (encoding m))
unfolding marshal_to
marshal_to-encoding m junk back h l =
    let e = size_exact m h in
    marshal_front-FillsEnd (size m) junk back (marshal_to_sized_buffer-FillsEnd m h) e (l ∙ sym e)
