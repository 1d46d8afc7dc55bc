-- ===== src/Wire/Slice.antt =====
-- Go's slice expression on bytes, and which bytes stand at a place of a slice.
use cloud_native_tour.Common.{
  ℕ, ◌+◌, ◌-◌, ◌≤◌, ◌≡◌, refl, sym, ap, ◌∙◌, List, [], ◌∷◌, ◌++◌, some, length, get_elem?, take,
  drop, take-append, drop-append, get_elem?-append, append_assoc, append-nil, length-append,
  length-take-le, length-drop, arith,
}

-- `input[lo:hi]`
unfoldable pub slice : List ℕ → ℕ → ℕ → List ℕ
slice input lo hi = take (hi - lo) (drop lo input)

-- `xs` stands in `input` from place `i` on.
pub record Holds (input : List ℕ) (i : ℕ) (xs : List ℕ) : Type 0 where
  pub front : List ℕ
  pub back : List ℕ
  pub whole : input ≡ front ++ (xs ++ back)
  pub start : length front ≡ i

pub Holds-self : (xs : List ℕ) → Holds xs 0 xs
Holds-self xs = record { front = []; back = []; whole = sym (append-nil xs); start = refl }

pub Holds-head :
    {input : List ℕ} {i x : ℕ} {xs : List ℕ} → Holds input i (x ∷ xs) → get_elem? input i ≡ some x
Holds-head {x} {xs} h = rw (h.whole, ← h.start) (get_elem?-append h.front (xs ++ h.back) x)

pub Holds-first :
    {input : List ℕ} {i : ℕ} (xs ys : List ℕ) → Holds input i (xs ++ ys) → Holds input i xs
Holds-first xs ys h = record {
  front = h.front;
  back = ys ++ h.back;
  whole = h.whole ∙ ap (λ t. h.front ++ t) (append_assoc xs ys h.back);
  start = h.start;
}

pub Holds-second :
    {input : List ℕ} {i : ℕ} (xs ys : List ℕ)
    → Holds input i (xs ++ ys)
    → Holds input (i + length xs) ys
Holds-second xs ys h = record {
  front = h.front ++ xs;
  back = h.back;
  whole = simp append_assoc (simp append_assoc at h.whole);
  start = omega (arith, length-append h.front xs, h.start);
}

pub Holds-tail :
    {input : List ℕ} {i x : ℕ} (xs : List ℕ) → Holds input i (x ∷ xs) → Holds input (i + 1) xs
Holds-tail {x} xs h = Holds-second (x ∷ []) xs h

pub Holds-length :
    {input : List ℕ} {i : ℕ} (xs : List ℕ) → Holds input i xs → i + length xs ≤ length input
Holds-length xs h = omega (
  arith,
  ap length h.whole,
  length-append h.front (xs ++ h.back),
  length-append xs h.back,
  h.start,
)

pub Holds-slice :
    {input : List ℕ} {i : ℕ} (xs : List ℕ) → Holds input i xs → slice input i (i + length xs) ≡ xs
unfolding slice
Holds-slice {input} {i} xs h =
    let n : i + length xs - i ≡ length xs = omega arith in
    let rest : drop i input ≡ xs ++ h.back = rw (h.whole, ← h.start) (drop-append h.front _) in
    rw (n, rest) (take-append xs h.back)

pub length-slice-le : (input : List ℕ) (lo hi : ℕ) → length (slice input lo hi) ≤ length input
unfolding slice
length-slice-le input lo hi =
    omega (arith, length-take-le (hi - lo) (drop lo input), length-drop lo input)
