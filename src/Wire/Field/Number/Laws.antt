-- ===== src/Wire/Field/Number/Laws.antt =====
-- The statements for numbers and bools against their bytes.
use cloud_native_tour.Common.{
  ℕ, ◌+◌, ◌/◌, ◌%◌, ◌^◌, ◌<◌, ◌≤◌, ◌≡◌, ◌≢◌, refl, ap, inl, inr, Bool-cases, ◌∙◌, ℤ, Bool, true,
  false, List, [], ◌∷◌, ◌==◌, if◌then◌else◌, length, arith,
}
use mathlib.Core.Path.{subst}
use cloud_native_tour.Wire.Result.{ok, stuck, >>=-eq-ok}
use cloud_native_tour.Wire.Slice.{Holds, Holds-second}
use cloud_native_tour.Wire.Varint.{read_varint}
use cloud_native_tour.Wire.Varint.Groups.{varint, groups}
use cloud_native_tour.Wire.Varint.Size.{sov_generated-varint}
use cloud_native_tour.Wire.Varint.Read.{read_varint-varint, read_varint-ne-stuck, read_varint_takes}
use cloud_native_tour.Wire.Varint.Int32.{u64_of, int32_of, read_int32}
use cloud_native_tour.Wire.Varint.Int32.Laws.{
  IsInt32, u64_of-lt, read_int32_low, int32_of-u64_of, read_int32-ne-stuck, read_int32_takes,
}
use cloud_native_tour.Wire.Unmarshal.{Switch}
use cloud_native_tour.Wire.Unmarshal.Reads.{Reads, Reads-tag}
use cloud_native_tour.Wire.Buffer.Writes.{Writes, Writes-varint, Writes-byte, Writes-then}
use cloud_native_tour.Wire.Field.Number.{size_number, put_number, put_bool, int32_case, bool_case}

-- The bytes of a number behind its tag, and those of a bool.
abbrev pub number : ℕ → ℤ → List ℕ
number tag v = tag ∷ varint (u64_of v)

abbrev pub bool_bytes : ℕ → Bool → List ℕ
bool_bytes tag v = tag ∷ (if v then 1 else 0) ∷ []

pub size_number-number :
    (n tag : ℕ) (v : ℤ)
    → n + length (number tag v) < 2 ^ 63
    → size_number n v ≡ n + length (number tag v)
unfolding size_number
size_number-number n tag v h = omega (arith, sov_generated-varint (u64_of v) (u64_of-lt v))

pub Writes-number : (tag : ℕ) (v : ℤ) → Writes (put_number tag v) (number tag v)
unfolding put_number
Writes-number tag v = Writes-then (Writes-varint (u64_of v) (u64_of-lt v)) (Writes-byte tag)

pub Writes-bool : (tag : ℕ) (v : Bool) → Writes (put_bool tag v) (bool_bytes tag v)
unfolding put_bool
Writes-bool tag v = Writes-then (Writes-byte (if v then 1 else 0)) (Writes-byte tag)

module _ {M : Type 0} (input : List ℕ) (f w j : ℕ) where
  pub int32_case-ne-stuck : (update : ℤ → M) → int32_case update input f w j ≢ stuck
  unfolding int32_case
  int32_case-ne-stuck update e = ground (arith, read_int32-ne-stuck input j)

  pub int32_case_takes :
      (update : ℤ → M) (m : M) (k : ℕ) → int32_case update input f w j ≡ ok (m, k) → j < k
  unfolding int32_case
  int32_case_takes update m k e = elim (Bool-cases (w == 0)) [
    | inl plain ↦
        let (p, r, q) = >>=-eq-ok (read_int32 input j) _ (rw (plain, int32_case) at e) in
        ground (arith, read_int32_takes input j p.0 p.1 r)
    | inr other ↦ ground arith
  ]

  pub bool_case-ne-stuck : (update : Bool → M) → bool_case update input f w j ≢ stuck
  unfolding bool_case
  bool_case-ne-stuck update e = ground (arith, read_varint-ne-stuck input j)

  pub bool_case_takes :
      (update : Bool → M) (m : M) (k : ℕ) → bool_case update input f w j ≡ ok (m, k) → j < k
  unfolding bool_case
  bool_case_takes update m k e = elim (Bool-cases (w == 0)) [
    | inl plain ↦
        let (p, r, q) = >>=-eq-ok (read_varint input j) _ (rw (plain, bool_case) at e) in
        ground (arith, read_varint_takes input j p.0 p.1 r)
    | inr other ↦ ground arith
  ]

-- The number of a bool is one byte.
bool_case-byte :
    {M : Type 0} (update : Bool → M) (input : List ℕ) (f i : ℕ) (v : Bool)
    → Holds input i ((if v then 1 else 0) ∷ [])
    → bool_case update input f 0 i ≡ ok (update v, i + 1)
unfolding bool_case varint groups
bool_case-byte update input f i true h = rw (read_varint-varint input i 1 (omega arith) h) refl
bool_case-byte update input f i false h = rw (read_varint-varint input i 0 (omega arith) h) refl

module _ {M : Type 0} {switch : Switch M} (tag : ℕ) {m : M} where
  pub Reads-int32 :
      (n : ℕ) (update : ℤ → M)
      → tag < 128
      → 8 ≤ tag
      → tag % 8 ≡ 0
      → n < 2 ^ 64
      → ((input : List ℕ) (pre j : ℕ)
          → switch input pre (tag / 8) 0 j m ≡ int32_case update input (tag / 8) 0 j)
      → Reads switch m (tag ∷ varint n) (update (int32_of (n % 2 ^ 32)))
  unfolding int32_case
  Reads-int32 n update small big plain range answers =
      Reads-tag tag small big (omega arith) λ input pre fits h.
        let behind = Holds-second (tag ∷ []) (varint n) h in
        let place : pre + 1 + length (varint n) ≡ pre + length (tag ∷ varint n) = omega arith in
        rw plain (
          answers input pre (pre + 1)
          ∙ rw (read_int32_low input (pre + 1) n range behind)
              (ap (λ k. ok (update (int32_of (n % 2 ^ 32)), k)) place))

  pub Reads-number :
      (v : ℤ) (update : ℤ → M)
      → tag < 128
      → 8 ≤ tag
      → tag % 8 ≡ 0
      → IsInt32 v
      → ((input : List ℕ) (pre j : ℕ)
          → switch input pre (tag / 8) 0 j m ≡ int32_case update input (tag / 8) 0 j)
      → Reads switch m (number tag v) (update v)
  Reads-number v update small big plain range answers =
      subst (λ x. Reads switch m (number tag v) (update x)) (int32_of-u64_of v range)
        (Reads-int32 (u64_of v) update small big plain (u64_of-lt v) answers)

  pub Reads-bool :
      (v : Bool) (update : Bool → M)
      → tag < 128
      → 8 ≤ tag
      → tag % 8 ≡ 0
      → ((input : List ℕ) (pre j : ℕ)
          → switch input pre (tag / 8) 0 j m ≡ bool_case update input (tag / 8) 0 j)
      → Reads switch m (bool_bytes tag v) (update v)
  Reads-bool v update small big plain answers =
      Reads-tag tag small big (omega arith) λ input pre fits h.
        let place : pre + 1 + 1 ≡ pre + 2 = omega arith in
        rw plain (
          answers input pre (pre + 1)
          ∙ bool_case-byte update input (tag / 8) (pre + 1) v (Holds-second (tag ∷ []) _ h)
          ∙ ap (λ k. ok (update v, k)) place)
