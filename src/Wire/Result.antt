-- ===== src/Wire/Result.antt =====
-- What a generated Go function gives back: a value, an `error`, or a run-time panic. `stuck` is no Go
-- outcome: it says that the fuel of a loop ran out.
use cloud_native_tour.Common.{ℕ, ◌≡◌, ◌≢◌, refl, Bool, true, false}

pub data Error : Type 0 where
  -- ErrIntOverflowGenerated, io.ErrUnexpectedEOF, ErrInvalidLengthGenerated and
  -- ErrUnexpectedEndOfGroupGenerated
  int_overflow unexpected_eof invalid_length unexpected_end_of_group : Error
  -- the errors that `fmt.Errorf` builds
  illegal_wire_type : ℕ → Error
  end_group_for_non_group : Error
  illegal_tag : ℕ → ℕ → Error
  wrong_wire_type : ℕ → ℕ → Error
  -- an error of a library's codec
  foreign : ℕ → Error

pub data Result {ℓ} (A : Type ℓ) : Type ℓ where
  ok : A → Result A
  err : Error → Result A
  panic : Result A
  stuck : Result A

infixl 5 ◌>>=◌
abbrev pub ◌>>=◌ {ℓ κ} : {A : Type ℓ} {B : Type κ} → Result A → (A → Result B) → Result B
panic >>= next = panic
stuck >>= next = stuck
err error >>= next = err error
ok x >>= next = next x

-- `if bad { return err }`
abbrev pub guard {ℓ} : {A : Type ℓ} → Bool → Error → Result A → Result A
guard true e r = err e
guard false e r = r

-- Inversion of a bind that succeeds, and of one whose fuel runs out.
pub >>=-eq-ok {ℓ κ} :
    {X : Type ℓ} {Y : Type κ} (run : Result X) (next : X → Result Y) {y : Y}
    → (run >>= next) ≡ ok y
    → (x : X) × (run ≡ ok x) × (next x ≡ ok y)
>>=-eq-ok panic next e = cc
>>=-eq-ok stuck next e = cc
>>=-eq-ok (err error) next e = cc
>>=-eq-ok (ok x) next e = (x, refl, e)

pub >>=-ne-stuck {ℓ κ} :
    {A : Type ℓ} {B : Type κ} (m : Result A) (f : A → Result B)
    → m ≢ stuck
    → ((a : A) → m ≡ ok a → f a ≢ stuck)
    → (m >>= f) ≢ stuck
>>=-ne-stuck (ok a) f h k e = k a refl e
>>=-ne-stuck (err x) f h k e = cc
>>=-ne-stuck panic f h k e = cc
>>=-ne-stuck stuck f h k e = h refl

pub guard-eq-ok {ℓ} :
    {A : Type ℓ} (b : Bool) (e : Error) (r : Result A) {a : A}
    → guard b e r ≡ ok a
    → (b ≡ false) × (r ≡ ok a)
guard-eq-ok true e r h = cc
guard-eq-ok false e r h = (refl, h)
