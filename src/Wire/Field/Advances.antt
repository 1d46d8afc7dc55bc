-- ===== src/Wire/Field/Advances.antt =====
-- What the loop of `Unmarshal` asks of a case of its switch: it ends, and it moves on. A switch whose
-- cases do is total.
use cloud_native_tour.Common.{
  ℕ, ◌^◌, ◌≤◌, ◌<◌, ◌≡◌, ◌≢◌, ℤ, Bool, true, false, List, if◌then◌else◌, length, arith,
}
use cloud_native_tour.Wire.Result.{Result, ok, stuck}
use cloud_native_tour.Wire.Unmarshal.{Switch}
use cloud_native_tour.Wire.Unmarshal.Total.{IsTotal}
use cloud_native_tour.Wire.Field.{text_case, message_case, default_case}
use cloud_native_tour.Wire.Field.Decode.{
  text_case-ne-stuck, text_case_takes, message_case-ne-stuck, message_case_takes,
  default_case-ne-stuck, default_case_takes,
}
use cloud_native_tour.Wire.Field.Number.{int32_case, bool_case}
use cloud_native_tour.Wire.Field.Number.Laws.{
  int32_case-ne-stuck, int32_case_takes, bool_case-ne-stuck, bool_case_takes,
}

-- `i` is the place before the tag and `j` the place behind it.
pub record Advances {M : Type 0} (input : List ℕ) (i j : ℕ) (r : Result (M × ℕ)) : Type 0 where
  pub ends : r ≢ stuck
  pub moves : (m : M) (k : ℕ) → i < j → j ≤ length input → r ≡ ok (m, k) → i < k

pub IsTotal-Advances :
    {M : Type 0} {switch : Switch M}
    → ((input : List ℕ) (i f w j : ℕ) (m : M)
        → length input < 2 ^ 63
        → Advances input i j (switch input i f w j m))
    → IsTotal switch
IsTotal-Advances cases = record {
  ends = λ input i f w j m h. (cases input i f w j m h).ends;
  moves = λ input i f w j m m' k h lo hi e. (cases input i f w j m h).moves m' k lo hi e;
}

pub Advances-if :
    {M : Type 0} {input : List ℕ} {i j : ℕ} (b : Bool) {r s : Result (M × ℕ)}
    → Advances input i j r
    → Advances input i j s
    → Advances input i j (if b then r else s)
Advances-if true p q = p
Advances-if false p q = q

pub Advances-text :
    {M : Type 0} {input : List ℕ} {i j : ℕ} (update : List ℕ → M) (f w : ℕ)
    → length input < 2 ^ 63
    → Advances input i j (text_case update input f w j)
Advances-text {input} {j = j} update f w h = record {
  ends = text_case-ne-stuck input f w j update;
  moves = λ m k lo hi e. omega (arith, text_case_takes input f w j update m k h e);
}

pub Advances-message :
    {M N : Type 0} {input : List ℕ} {i j : ℕ} (unmarshal : List ℕ → Result N) (update : N → M)
    (f w : ℕ)
    → length input < 2 ^ 63
    → ((xs : List ℕ) → length xs < 2 ^ 63 → unmarshal xs ≢ stuck)
    → Advances input i j (message_case unmarshal update input f w j)
Advances-message {input} {j = j} unmarshal update f w h total = record {
  ends = message_case-ne-stuck input f w j unmarshal update h total;
  moves = λ m k lo hi e. omega (arith, message_case_takes input f w j unmarshal update m k h e);
}

pub Advances-int32 :
    {M : Type 0} {input : List ℕ} {i j : ℕ} (update : ℤ → M) (f w : ℕ)
    → Advances input i j (int32_case update input f w j)
Advances-int32 {input} {j = j} update f w = record {
  ends = int32_case-ne-stuck input f w j update;
  moves = λ m k lo hi e. omega (arith, int32_case_takes input f w j update m k e);
}

pub Advances-bool :
    {M : Type 0} {input : List ℕ} {i j : ℕ} (update : Bool → M) (f w : ℕ)
    → Advances input i j (bool_case update input f w j)
Advances-bool {input} {j = j} update f w = record {
  ends = bool_case-ne-stuck input f w j update;
  moves = λ m k lo hi e. omega (arith, bool_case_takes input f w j update m k e);
}

pub Advances-default :
    {M : Type 0} {input : List ℕ} {i j : ℕ} (m : M)
    → length input < 2 ^ 63
    → Advances input i j (default_case input i m)
Advances-default {input} {i} m h = record {
  ends = default_case-ne-stuck input i m h;
  moves = λ m' k lo hi e. default_case_takes input i m m' k h (omega arith) e;
}

-- The cases that a generated switch has.
pub ruleset advances =
    (Advances-if, Advances-text, Advances-message, Advances-int32, Advances-bool, Advances-default)
