-- ===== src/Wire/Buffer/Writes.antt =====
-- `Writes a out`: where `i` has room for `out` before it, the action `a` puts `out` there, moves `i` to
-- its front and leaves the other bytes alone. Actions in a row write their outputs from right to left.
use cloud_native_tour.Common.{
  ℕ, zero, suc, ◌+◌, ◌-◌, ◌^◌, ◌<◌, ◌≡◌, sym, ap, ◌∙◌, List, [], ◌∷◌, ◌++◌, append-nil,
  append_assoc, length, take, drop, replicate, ltb-eq-false, length-append, take-append,
  drop-append, split_at, length-replicate, arith,
}
use cloud_native_tour.Wire.Result.{Result, ok}
use cloud_native_tour.Wire.Varint.Groups.{varint}
use cloud_native_tour.Wire.Varint.Encode.{write-append, encode_varint_generated-varint}
use cloud_native_tour.Wire.Buffer.{
  Buffer, Action, ◌then◌, put_bytes, put_varint, put_before, put_byte, put_message, fill,
  marshal_fresh, marshal_front,
}

pub record Writes (action : Action) (out : List ℕ) : Type 0 where
  pub fills :
      (front junk back : List ℕ)
      → length junk ≡ length out
      → action (record { bytes = front ++ (junk ++ back); index = length front + length junk })
        ≡ ok (record { bytes = front ++ (out ++ back); index = length front })

-- No statement writes nothing.
pub Writes-nil : Writes (λ b. ok b) []
Writes-nil = record { fills = fills }
  where
    fills :
        (front junk back : List ℕ)
        → length junk ≡ 0
        → ◌≡◌ {A = Result Buffer}
            (ok (record { bytes = front ++ (junk ++ back); index = length front + length junk }))
            (ok (record { bytes = front ++ back; index = length front }))
    fills front [] back l =
        let same : length front + 0 ≡ length front = omega arith in
        λ i. ok (record { bytes = front ++ back; index = same i })
    fills front (x ∷ xs) back l = absurd (omega arith)

pub Writes-varint : (n : ℕ) → n < 2 ^ 64 → Writes (put_varint n) (varint n)
unfolding put_varint
Writes-varint n h = record {
  fills = λ front junk back l. rw (encode_varint_generated-varint n front junk back h l);
}

put_before-append :
    (tag : ℕ) (front back : List ℕ) (old i : ℕ)
    → i ≡ suc (length front)
    → put_before tag i (front ++ (old ∷ back))
      ≡ ok (record { bytes = front ++ (tag ∷ back); index = length front })
unfolding put_before
put_before-append tag front back old zero e = absurd (omega arith)
put_before-append tag front back old (suc i) e =
    let same : i ≡ length front = omega arith in rw (same, write-append front back old tag)

pub Writes-byte : (tag : ℕ) → Writes (put_byte tag) (tag ∷ [])
unfolding put_byte
Writes-byte tag = record { fills = fills }
  where
    fills :
        (front junk back : List ℕ)
        → length junk ≡ 1
        → put_byte tag
            (record { bytes = front ++ (junk ++ back); index = length front + length junk })
          ≡ ok (record { bytes = front ++ (tag ∷ back); index = length front })
    fills front [] back l = absurd (omega arith)
    fills front (old ∷ []) back l =
        put_before-append tag front back old (length front + 1) (omega arith)
    fills front (old ∷ x ∷ xs) back l = absurd (omega arith)

-- The place where a written part ends, taken apart.
module _ (front junk back : List ℕ) where
  take_front : take (length front) (front ++ (junk ++ back)) ≡ front
  take_front = take-append front (junk ++ back)

  place_behind : length front + length junk ≡ length (front ++ junk)
  place_behind = sym (length-append front junk)

  take_behind : take (length front + length junk) (front ++ (junk ++ back)) ≡ front ++ junk
  take_behind = rw (place_behind, ← append_assoc front junk back) (take-append (front ++ junk) back)

  drop_behind : drop (length front + length junk) (front ++ (junk ++ back)) ≡ back
  drop_behind = rw (place_behind, ← append_assoc front junk back) (drop-append (front ++ junk) back)

pub Writes-bytes : (s : List ℕ) → Writes (put_bytes s) s
unfolding put_bytes
Writes-bytes s = record {
  fills = λ front junk back l.
      let i : length front + length junk - length s ≡ length front = omega arith in
      rw (ltb-eq-false (length front + length junk) (length s) (omega arith), i)
        (rw (take_front front junk back, drop_behind front junk back));
}

-- A buffer with room `junk` before `i`, and one with `out` written from `i` on.
abbrev room : List ℕ → List ℕ → List ℕ → Buffer
room front junk back = record {
  bytes = front ++ (junk ++ back);
  index = length front + length junk;
}

abbrev written : List ℕ → List ℕ → List ℕ → Buffer
written front out back = record { bytes = front ++ (out ++ back); index = length front }

module _ (front xs ys back : List ℕ) where
  room_split : room front (xs ++ ys) back ≡ room (front ++ xs) ys back
  room_split = λ i. record { bytes = same i; index = place i }
    where
      same : front ++ ((xs ++ ys) ++ back) ≡ (front ++ xs) ++ (ys ++ back)
      same = simp append_assoc

      place : length front + length (xs ++ ys) ≡ length (front ++ xs) + length ys
      place = omega (arith, length-append xs ys, length-append front xs)

  written-room : written (front ++ xs) ys back ≡ room front xs (ys ++ back)
  written-room =
      λ i. record { bytes = append_assoc front xs (ys ++ back) i; index = length-append front xs i }

  written_join : written front xs (ys ++ back) ≡ written front (xs ++ ys) back
  written_join =
      λ i. record { bytes = front ++ sym (append_assoc xs ys back) i; index = length front }

-- The second action writes in front of what the first one wrote.
pub Writes-then :
    {a b : Action} {x y : List ℕ} → Writes a x → Writes b y → Writes (a then b) (y ++ x)
Writes-then {a} {b} {x} {y} h k = record { fills = fills }
  where
    fills :
        (front junk back : List ℕ)
        → length junk ≡ length (y ++ x)
        → (a then b) (room front junk back) ≡ ok (written front (y ++ x) back)
    fills front junk back l =
        let (one, two, e, n) = split_at (length y) junk (omega (arith, length-append y x)) in
        let m : length two ≡ length x =
          omega (arith, length-append y x, length-append one two, ap length e) in
        rw (e, room_split front one two back, h.fills (front ++ one) two back m)
          (rw (written-room front one x back, k.fills front one (x ++ back) n)
            (ap ok (written_join front y x back)))

-- What `MarshalToSizedBuffer` promises of the output `out`: it fills the end of its buffer.
pub record FillsEnd (marshal : List ℕ → Result (List ℕ × ℕ)) (out : List ℕ) : Type 0 where
  pub fills_end :
      (front junk : List ℕ)
      → length junk ≡ length out
      → marshal (front ++ junk) ≡ ok (front ++ out, length out)

-- The message is marshalled into the bytes before `i`, then its size is written in front of it.
put_message-room :
    (marshal : List ℕ → Result (List ℕ × ℕ)) (front junk out back : List ℕ)
    → FillsEnd marshal out
    → length junk ≡ length out
    → put_message marshal (room front junk back) ≡ put_varint (length out) (written front out back)
unfolding put_message
put_message-room marshal front junk out back law l =
    let i : length front + length junk - length out ≡ length front = omega arith in
    rw (take_behind front junk back, law.fills_end front junk l)
      (rw (
        ltb-eq-false (length front + length junk) (length out) (omega arith),
        i,
        drop_behind front junk back,
        append_assoc front out back,
      ))

pub Writes-message :
    {marshal : List ℕ → Result (List ℕ × ℕ)} {out : List ℕ}
    → length out < 2 ^ 64
    → FillsEnd marshal out
    → Writes (put_message marshal) (varint (length out) ++ out)
Writes-message {marshal} {out} small law = record { fills = fills }
  where
    size : List ℕ
    size = varint (length out)

    fills :
        (front junk back : List ℕ)
        → length junk ≡ length (size ++ out)
        → put_message marshal (room front junk back) ≡ ok (written front (size ++ out) back)
    fills front junk back l =
        let (one, two, e, n) =
          split_at (length size) junk (omega (arith, length-append size out)) in
        let m : length two ≡ length out =
          omega (arith, length-append size out, length-append one two, ap length e) in
        rw
          (
            e,
            room_split front one two back,
            put_message-room marshal (front ++ one) two out back law m,
          )
          (rw
            (
              written-room front one out back,
              (Writes-varint (length out) small).fills front one (out ++ back) n,
            )
            (ap ok (written_join front size out back)))

-- `MarshalToSizedBuffer` on a buffer whose end has room for the output.
pub fill-Writes : {a : Action} {out : List ℕ} → Writes a out → FillsEnd (fill a) out
unfolding fill
fill-Writes {a} {out} h = record {
  fills_end = λ front junk l.
      let n : length (front ++ junk) ≡ length front + length junk = length-append front junk in
      let r = rw (append-nil junk, append-nil out) at (h.fills front junk [] l) in
      let size : length front + length junk - length front ≡ length out = omega arith in
      rw (n, r, size);
}

-- `Marshal` returns exactly the output, when `Size` is its length.
pub marshal_fresh-FillsEnd :
    {marshal : List ℕ → Result (List ℕ × ℕ)} {out : List ℕ} (size : ℕ)
    → FillsEnd marshal out
    → size ≡ length out
    → marshal_fresh size marshal ≡ ok out
unfolding marshal_fresh
marshal_fresh-FillsEnd {out} size law e =
    rw (law.fills_end [] (replicate size 0) (length-replicate size 0 ∙ e))
      (ap ok (rw append-nil at (take-append out [])))

-- `MarshalTo` writes the output at the front of the buffer and keeps the rest.
pub marshal_front-FillsEnd :
    {marshal : List ℕ → Result (List ℕ × ℕ)} {out : List ℕ} (size : ℕ) (junk back : List ℕ)
    → FillsEnd marshal out
    → size ≡ length out
    → length junk ≡ size
    → marshal_front size marshal (junk ++ back) ≡ ok (out ++ back, length out)
unfolding marshal_front
marshal_front-FillsEnd {out} size junk back law e l =
    rw
      (
        ltb-eq-false (length (junk ++ back)) size (omega (arith, length-append junk back)),
        ← l,
        take-append junk back,
        drop-append junk back,
      )
      (rw (law.fills_end [] junk (l ∙ e)))
