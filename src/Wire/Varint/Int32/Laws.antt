-- ===== src/Wire/Varint/Int32/Laws.antt =====
-- An int32 is read as the low bits of the number that the loop over a uint64 reads.
use cloud_native_tour.Common.{
  ℕ, zero, suc, ◌+◌, ◌-◌, ◌*◌, ◌%◌, ◌^◌, ◌≤◌, ◌<◌, ℤ, pos, negsuc, bit_and, bit_or, ◌≡◌, ◌≢◌, refl,
  sym, ap, ◌∙◌, inl, inr, Bool-cases, Option-cases, List, leb, ltb, lt→ltb, ltb→lt, ltb-eq-false,
  get_elem?, bit_or-mod, length, arith,
}
use mathlib.Core.Path.{subst}
use cloud_native_tour.Wire.Result.{Result, ok, err, panic, stuck, ◌>>=◌, >>=-eq-ok, >>=-ne-stuck}
use cloud_native_tour.Wire.Slice.{Holds}
use cloud_native_tour.Wire.Varint.{read_loop, read_varint}
use cloud_native_tour.Wire.Varint.Groups.{varint}
use cloud_native_tour.Wire.Varint.Read.{read_varint-varint, read_varint-ne-stuck, read_varint_takes}
use cloud_native_tour.Wire.Varint.Int32.{u64_of, int32_of, read_int32_loop, read_int32}

-- What the loop over an int32 answers, in the terms of the loop over a uint64.
abbrev truncated : Result (ℕ × ℕ) → Result (ℕ × ℕ)
truncated r = do (v, j) ← r; ok (v % 2 ^ 32, j)

add_group_mod :
    (acc g shift : ℕ)
    → bit_or acc (g * 2 ^ shift % 2 ^ 64) % 2 ^ 32 ≡ bit_or (acc % 2 ^ 32) (g * 2 ^ shift % 2 ^ 32)
add_group_mod acc g shift =
    let t : g * 2 ^ shift % 2 ^ 64 % 2 ^ 32 ≡ g * 2 ^ shift % 2 ^ 32 = omega arith in
    rw t at (bit_or-mod 32 acc (g * 2 ^ shift % 2 ^ 64))

read_int32_loop-read_loop :
    (fuel : ℕ) (input : List ℕ) (i shift acc : ℕ)
    → read_int32_loop fuel input i shift (acc % 2 ^ 32)
      ≡ truncated (read_loop fuel input i shift acc)
unfolding read_int32_loop read_loop
read_int32_loop-read_loop zero input i shift acc = refl
read_int32_loop-read_loop (suc fuel) input i shift acc = elim (Bool-cases (leb 64 shift)) [
  | inl big ↦ rw (big, read_int32_loop, read_loop) refl
  | inr small ↦ elim (Option-cases (get_elem? input i)) [
    | inl n ↦ rw (small, n, read_int32_loop, read_loop) refl
    | inr (b, s) ↦ elim (Bool-cases (ltb b 0x80)) [
      | inl last ↦
          rw (small, s, last, read_int32_loop, read_loop)
            (ap (λ t. ok (t, i + 1)) (sym (add_group_mod acc (bit_and b 0x7f) shift)))
      | inr more ↦
          rw (small, s, more, read_int32_loop, read_loop)
            (ap (λ t. read_int32_loop fuel input (i + 1) (shift + 7) t)
                (sym (add_group_mod acc (bit_and b 0x7f) shift))
              ∙ read_int32_loop-read_loop fuel input (i + 1) (shift + 7)
                  (bit_or acc (bit_and b 0x7f * 2 ^ shift % 2 ^ 64)))
    ]
  ]
]

abbrev signed : Result (ℕ × ℕ) → Result (ℤ × ℕ)
signed r = do (w, j) ← r; ok (int32_of w, j)

-- The int32 of the low 32 bits.
abbrev pub signed_low : Result (ℕ × ℕ) → Result (ℤ × ℕ)
signed_low r = do (v, j) ← r; ok (int32_of (v % 2 ^ 32), j)

signed-truncated : (r : Result (ℕ × ℕ)) → signed (truncated r) ≡ signed_low r
signed-truncated (ok p) = refl
signed-truncated (err e) = refl
signed-truncated panic = refl
signed-truncated stuck = refl

-- Reading an int32, whose shifts drop the bits above 31 in every round, fails where reading a uint64
-- at the same place fails, with the same error, and otherwise gives the number with the bits of that
-- uint64's low 32, and the same place behind it.
pub read_int32-read_varint :
    (input : List ℕ) (i : ℕ) → read_int32 input i ≡ signed_low (read_varint input i)
unfolding read_int32 read_varint
read_int32-read_varint input i =
    let same = read_int32_loop-read_loop 11 input i 0 0 in
    rw same (signed-truncated (read_loop 11 input i 0 0))

pub read_int32-ne-stuck : (input : List ℕ) (i : ℕ) → read_int32 input i ≢ stuck
read_int32-ne-stuck input i e =
    >>=-ne-stuck (read_varint input i) _ (read_varint-ne-stuck input i) (λ p r q. cc)
      (sym (read_int32-read_varint input i) ∙ e)

pub read_int32_takes :
    (input : List ℕ) (i : ℕ) (v : ℤ) (j : ℕ)
    → read_int32 input i ≡ ok (v, j)
    → (i < j) × (j ≤ length input)
read_int32_takes input i v j e =
    let (p, r, q) = >>=-eq-ok (read_varint input i) _ (sym (read_int32-read_varint input i) ∙ e) in
    ground (arith, read_varint_takes input i p.0 p.1 r)

-- The numbers that an int32 holds: `negsuc n` is -1 - n.
unfoldable pub IsInt32 : ℤ → Type 0
IsInt32 (pos n) = n < 2 ^ 31
IsInt32 (negsuc n) = n < 2 ^ 31

-- An int32 that is extended to 64 bits is found again in the low 32.
pub int32_of-u64_of : (v : ℤ) → IsInt32 v → int32_of (u64_of v % 2 ^ 32) ≡ v
unfolding int32_of u64_of IsInt32
int32_of-u64_of (pos n) h =
    let low : n % 2 ^ 64 % 2 ^ 32 ≡ n = omega arith in rw (low, lt→ltb n (2 ^ 31) h) refl
int32_of-u64_of (negsuc n) h =
    let low : (2 ^ 64 - 1 - n % 2 ^ 64) % 2 ^ 32 ≡ 2 ^ 32 - 1 - n = omega arith in
    let back : 2 ^ 32 - 1 - (2 ^ 32 - 1 - n) ≡ n = omega arith in
    rw (low, ltb-eq-false (2 ^ 32 - 1 - n) (2 ^ 31) (omega arith), back) refl

int32_of-IsInt32 : (w : ℕ) → w < 2 ^ 32 → IsInt32 (int32_of w)
unfolding int32_of IsInt32
int32_of-IsInt32 w h = elim (Bool-cases (ltb w (2 ^ 31))) [
  | inl low ↦ rw (low, IsInt32) (ltb→lt w (2 ^ 31) low)
  | inr high ↦ rw (high, IsInt32) (ground arith)
]

u64_of-int32_of : (w : ℕ) → w < 2 ^ 32 → u64_of (int32_of w) % 2 ^ 32 ≡ w
unfolding int32_of u64_of
u64_of-int32_of w h = elim (Bool-cases (ltb w (2 ^ 31))) [
  | inl low ↦ rw (low, int32_of) (omega arith)
  | inr high ↦ rw (high, int32_of) (omega arith)
]

-- The int32 `v` has the low 32 bits of `n`, of which there is one.
abbrev pub IsLowOf : ℕ → ℤ → Type 0
IsLowOf n v = IsInt32 v × (u64_of v % 2 ^ 32 ≡ n % 2 ^ 32)

pub int32_of-IsLowOf : (n : ℕ) → IsLowOf n (int32_of (n % 2 ^ 32))
int32_of-IsLowOf n =
    (int32_of-IsInt32 (n % 2 ^ 32) (omega arith), u64_of-int32_of (n % 2 ^ 32) (omega arith))

-- Whatever the input, what is read is a number that an int32 holds.
pub read_int32-IsInt32 :
    (input : List ℕ) (i : ℕ) (v : ℤ) (j : ℕ) → read_int32 input i ≡ ok (v, j) → IsInt32 v
read_int32-IsInt32 input i v j e =
    let (p, r, q) = >>=-eq-ok (read_varint input i) _ (sym (read_int32-read_varint input i) ∙ e) in
    let value : int32_of (p.0 % 2 ^ 32) ≡ v = cc in
    subst IsInt32 value (int32_of-IsInt32 (p.0 % 2 ^ 32) (omega arith))

pub u64_of-lt : (v : ℤ) → u64_of v < 2 ^ 64
unfolding u64_of
u64_of-lt (pos n) = omega arith
u64_of-lt (negsuc n) = omega arith

-- Of a varint of 64 bits, an int32 takes the low 32.
pub read_int32_low :
    (input : List ℕ) (i n : ℕ)
    → n < 2 ^ 64
    → Holds input i (varint n)
    → read_int32 input i ≡ ok (int32_of (n % 2 ^ 32), i + length (varint n))
read_int32_low input i n small h =
    read_int32-read_varint input i ∙ rw (read_varint-varint input i n small h) refl
