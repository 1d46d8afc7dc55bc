-- ===== src/Wire/Field/Keeps.antt =====
-- What holds of a message whatever bytes are read into it: a predicate that each case of the switch
-- keeps holds after `Unmarshal`.
use cloud_native_tour.Common.{
  ℕ, zero, suc, ◌≡◌, ℤ, Bool, true, false, inl, inr, Bool-cases, List, ltb, ◌==◌, if◌then◌else◌,
  not, arith, length,
}
use mathlib.Core.Path.{subst}
use cloud_native_tour.Wire.Result.{Result, ok, guard-eq-ok, >>=-eq-ok}
use cloud_native_tour.Wire.Slice.{slice}
use cloud_native_tour.Wire.Varint.{read_varint}
use cloud_native_tour.Wire.Varint.Int32.{read_int32}
use cloud_native_tour.Wire.Varint.Int32.Laws.{IsInt32, read_int32-IsInt32}
use cloud_native_tour.Wire.Unmarshal.{
  Switch, read_tag, read_delimited, skip_field, unmarshal_round, unmarshal_loop, unmarshal_with,
}
use cloud_native_tour.Wire.Field.{text_case, message_case, default_case}
use cloud_native_tour.Wire.Field.Number.{int32_case, bool_case}

pub record Keeps {M : Type 0} (P : M → Type 0) (r : Result (M × ℕ)) : Type 0 where
  pub keeps : (m : M) (k : ℕ) → r ≡ ok (m, k) → P m

returned :
    {M : Type 0} (P : M → Type 0) {x m : M} {j k : ℕ}
    → ◌≡◌ {A = Result (M × ℕ)} (ok (x, j)) (ok (m, k))
    → P x
    → P m
returned P {x} {m} e h = let same : x ≡ m = cc in subst P same h

module _ {M : Type 0} {P : M → Type 0} where
  pub Keeps-if :
      (b : Bool) {r s : Result (M × ℕ)} → Keeps P r → Keeps P s → Keeps P (if b then r else s)
  Keeps-if true p q = p
  Keeps-if false p q = q

  pub Keeps-text :
      (update : List ℕ → M) (input : List ℕ) (f w j : ℕ)
      → ((s : List ℕ) → P (update s))
      → Keeps P (text_case update input f w j)
  unfolding text_case
  Keeps-text update input f w j h = record {
    keeps = λ m k e.
        let (p, r, q) = >>=-eq-ok (read_delimited input f w j) _ e in
        returned P q (h (slice input p.0 p.1));
  }

  pub Keeps-message :
      {N : Type 0} (unmarshal : List ℕ → Result N) (update : N → M) (input : List ℕ) (f w j : ℕ)
      → ((xs : List ℕ) (n : N) → unmarshal xs ≡ ok n → P (update n))
      → Keeps P (message_case unmarshal update input f w j)
  unfolding message_case
  Keeps-message unmarshal update input f w j h = record {
    keeps = λ m k e.
        let (p, r, q) = >>=-eq-ok (read_delimited input f w j) _ e in
        let (n, s, t) = >>=-eq-ok (unmarshal (slice input p.0 p.1)) _ q in
        returned P t (h (slice input p.0 p.1) n s);
  }

  pub Keeps-int32 :
      (update : ℤ → M) (input : List ℕ) (f w j : ℕ)
      → ((v : ℤ) → IsInt32 v → P (update v))
      → Keeps P (int32_case update input f w j)
  unfolding int32_case
  Keeps-int32 update input f w j h = record {
    keeps = λ m k e. elim (Bool-cases (w == 0)) [
      | inl plain ↦
          let (p, r, q) = >>=-eq-ok (read_int32 input j) _ (rw (plain, int32_case) at e) in
          returned P q (h p.0 (read_int32-IsInt32 input j p.0 p.1 r))
      | inr other ↦ absurd (ground arith)
    ];
  }

  pub Keeps-bool :
      (update : Bool → M) (input : List ℕ) (f w j : ℕ)
      → ((v : Bool) → P (update v))
      → Keeps P (bool_case update input f w j)
  unfolding bool_case
  Keeps-bool update input f w j h = record {
    keeps = λ m k e. elim (Bool-cases (w == 0)) [
      | inl plain ↦
          let (p, r, q) = >>=-eq-ok (read_varint input j) _ (rw (plain, bool_case) at e) in
          returned P q (h (not (p.0 == 0)))
      | inr other ↦ absurd (ground arith)
    ];
  }

  pub Keeps-default : (m : M) (input : List ℕ) (pre : ℕ) → P m → Keeps P (default_case input pre m)
  unfolding default_case
  Keeps-default m input pre h = record {
    keeps = λ m' k e. let (p, r, q) = >>=-eq-ok (skip_field input pre) _ e in returned P q h;
  }

pub ruleset keeps_cases =
    (Keeps-if, Keeps-text, Keeps-message, Keeps-int32, Keeps-bool, Keeps-default)

module _ {M : Type 0} {P : M → Type 0} {switch : Switch M}
    (cases : (input : List ℕ) (i f w j : ℕ) (m : M) → P m → Keeps P (switch input i f w j m)) where
  unmarshal_round-Keeps :
      (input : List ℕ) (i : ℕ) (m m' : M) (k : ℕ)
      → P m
      → unmarshal_round switch input i m ≡ ok (m', k)
      → P m'
  unfolding unmarshal_round
  unmarshal_round-Keeps input i m m' k h e =
      let (t, r, q) = >>=-eq-ok (read_tag input i) _ e in
      (cases input i t.0 t.1 t.2 m h).keeps m' k q

  unmarshal_loop-Keeps :
      (fuel : ℕ) (input : List ℕ) (i : ℕ) (m m' : M)
      → P m
      → unmarshal_loop switch fuel input i m ≡ ok m'
      → P m'
  unfolding unmarshal_loop
  unmarshal_loop-Keeps zero input i m m' h e = absurd (ground arith)
  unmarshal_loop-Keeps (suc fuel) input i m m' h e = elim (Bool-cases (ltb i (length input))) [
    | inl more ↦
        let (p, r, q) =
          >>=-eq-ok (unmarshal_round switch input i m) _ (rw (more, unmarshal_loop) at e) in
        unmarshal_loop-Keeps fuel input p.1 p.0 m' (unmarshal_round-Keeps input i m p.0 p.1 h r) q
    | inr done ↦
        let (a, b) = guard-eq-ok (ltb (length input) i) _ _ (rw (done, unmarshal_loop) at e) in
        let same : m ≡ m' = cc in subst P same h
  ]

  pub unmarshal_with-Keeps :
      (input : List ℕ) (m m' : M) → P m → unmarshal_with switch input m ≡ ok m' → P m'
  unfolding unmarshal_with
  unmarshal_with-Keeps input m m' h e = unmarshal_loop-Keeps (suc (length input)) input 0 m m' h e
