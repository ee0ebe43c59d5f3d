-- ===== src/Images/Walk.antt =====
-- What writing over image parts leaves of the images of a payload (src/normalize.go).
use umans_dash_go.Prelude.{
  ℕ, zero, suc, ◌+◌, ◌≤◌, ◌≡◌, refl, subst, ap, false, Option, none, some, List, [], ◌++◌, Bytes,
  same, same_iff, length, length-append, arith, Bool-cases, Option-cases, inl, inr,
}
use umans_dash_go.Json.{
  Json, Items, Fields, null, bool, num, str, arr, obj, nil, cons, end, field, member, put, arr_at,
}
use umans_dash_go.Json.Laws.{member-put}
use umans_dash_go.Payload.{messages_key}
use umans_dash_go.Images.{
  content_key, system_key, walk_part, walk_parts, walk_value, walk_content, walk_message,
  walk_messages, walk_system, walk_payload, write_part, write_parts, write_value, write_content,
  write_message, write_messages, write_system, write_payload,
}

-- How many of the `k` numbers from `n` on are not written over.
unfoldable pub kept : (ℕ → Option Json) → ℕ → ℕ → ℕ
kept swap n zero = 0
kept swap n (suc k) = (elim (swap n) [ none ↦ 1 | some w ↦ 0 ]) + kept swap (suc n) k

suc_add : (a b : ℕ) → suc a + b ≡ suc (a + b)
suc_add a b = omega arith

pub zero_add : (a : ℕ) → a ≡ 0 + a
zero_add a = omega arith

add_suc : (a b : ℕ) → a + suc b ≡ suc a + b
add_suc a b = omega arith

pub kept_add :
    (swap : ℕ → Option Json) (n a b : ℕ) → kept swap n (a + b) ≡ kept swap n a + kept swap (n + a) b
unfolding kept
kept_add swap n zero b = ground arith
kept_add swap n (suc a) b = ground (
  arith,
  kept_add swap (suc n) a b,
  ap (kept swap n) (suc_add a b),
  ap (λ i. kept swap i b) (add_suc n a),
)

module _ {A : Type 0} (see : Fields → Option A) (swap : ℕ → Option Json) where
  other_field :
      (k : Bytes) (n : ℕ) (m : Fields)
      → same content_key k ≡ false
      → member k (write_content see swap n m) ≡ member k m
  unfolding member write_part
  other_field k n end ne = refl
  other_field k n (field j v m) ne =
      ground
        (arith, other_field k n m ne, same_iff j content_key, same_iff content_key k, same_iff j k)

keys_differ : (same system_key messages_key ≡ false) × (same messages_key system_key ≡ false)
unfolding same
keys_differ = (refl, refl)

-- A test of parts that reads no content, and parts written in that it does not take.
abbrev pub Blind : {A : Type 0} → (Fields → Option A) → Type 0
Blind see =
    (m m' : Fields)
    → ((k : Bytes) → same content_key k ≡ false → member k m ≡ member k m')
    → see m ≡ see m'

abbrev pub Clean : {A : Type 0} → (Fields → Option A) → (ℕ → Option Json) → Type 0
Clean see swap = (n : ℕ) (w : Json) → swap n ≡ some w → walk_part see w ≡ []

module _ {A : Type 0} (see : Fields → Option A) (swap : ℕ → Option Json) (blind : Blind see)
    (clean : Clean see swap) where
  see_same : (n : ℕ) (m : Fields) → see (write_content see swap n m) ≡ see m
  see_same n m = blind (write_content see swap n m) m (λ k. other_field see swap k n m)

  -- No more images than there are numbers that are not written over.
  abbrev Bounded : ℕ → List A → List A → Type 0
  Bounded n after before = length after ≤ kept swap n (length before)

  Bounded-append :
      (n : ℕ) (xs ys xs' ys' : List A)
      → Bounded n xs' xs
      → Bounded (n + length xs) ys' ys
      → Bounded n (xs' ++ ys') (xs ++ ys)
  Bounded-append n xs ys xs' ys' p q = omega (
    arith,
    length-append xs ys,
    length-append xs' ys',
    kept_add swap n (length xs) (length ys),
    ap (kept swap n) (length-append xs ys),
    p,
    q,
  )

  object-Bounded :
      (n : ℕ) (m : Fields)
      → Bounded n (walk_content see (write_content see swap n m)) (walk_content see m)
      → Bounded (suc n) (walk_content see (write_content see swap (suc n) m)) (walk_content see m)
      → Bounded n (walk_part see (write_part see swap n (obj m))) (walk_part see (obj m))
  unfolding walk_part write_part kept
  object-Bounded n m here next = elim (Option-cases (see m)) [
    | inl e ↦ ground (arith, e, see_same n m, here)
    | inr (a, e) ↦ elim (Option-cases (swap n)) [
      | inl s ↦ ground (arith, e, s, see_same (suc n) m, next)
      | inr (w, s) ↦ ground (arith, e, s, clean n w s)
    ]
  ]

  field-Bounded :
      (n : ℕ) (k : Bytes) (v : Json) (m : Fields)
      → Bounded n (walk_value see (write_value see swap n v)) (walk_value see v)
      → Bounded n (walk_content see (write_content see swap n m)) (walk_content see m)
      → Bounded n
          (walk_content see (write_content see swap n (field k v m)))
          (walk_content see (field k v m))
  unfolding walk_part write_part
  field-Bounded n k v m here later = elim (Bool-cases (same k content_key)) [
    | inl e ↦ ground (arith, e, here)
    | inr e ↦ ground (arith, e, later)
  ]

  mutual
    unfolding walk_part write_part kept

    write_part-Bounded :
        (n : ℕ) (v : Json) → Bounded n (walk_part see (write_part see swap n v)) (walk_part see v)
    write_part-Bounded n null = omega arith
    write_part-Bounded n (bool b) = omega arith
    write_part-Bounded n (num s) = omega arith
    write_part-Bounded n (str s) = omega arith
    write_part-Bounded n (arr xs) = omega arith
    write_part-Bounded n (obj m) =
        object-Bounded n m (write_content-Bounded n m) (write_content-Bounded (suc n) m)

    write_parts-Bounded :
        (n : ℕ) (xs : Items)
        → Bounded n (walk_parts see (write_parts see swap n xs)) (walk_parts see xs)
    write_parts-Bounded n nil = omega arith
    write_parts-Bounded n (cons v xs) =
        Bounded-append n (walk_part see v) (walk_parts see xs)
          (walk_part see (write_part see swap n v))
          (walk_parts see (write_parts see swap (n + length (walk_part see v)) xs))
          (write_part-Bounded n v) (write_parts-Bounded (n + length (walk_part see v)) xs)

    write_value-Bounded :
        (n : ℕ) (v : Json)
        → Bounded n (walk_value see (write_value see swap n v)) (walk_value see v)
    write_value-Bounded n null = omega arith
    write_value-Bounded n (bool b) = omega arith
    write_value-Bounded n (num s) = omega arith
    write_value-Bounded n (str s) = omega arith
    write_value-Bounded n (arr xs) = write_parts-Bounded n xs
    write_value-Bounded n (obj m) = omega arith

    write_content-Bounded :
        (n : ℕ) (m : Fields)
        → Bounded n (walk_content see (write_content see swap n m)) (walk_content see m)
    write_content-Bounded n end = omega arith
    write_content-Bounded n (field k v m) =
        field-Bounded n k v m (write_value-Bounded n v) (write_content-Bounded n m)

  write_message-Bounded :
      (n : ℕ) (v : Json)
      → Bounded n (walk_message see (write_message see swap n v)) (walk_message see v)
  write_message-Bounded n null = omega arith
  write_message-Bounded n (bool b) = omega arith
  write_message-Bounded n (num s) = omega arith
  write_message-Bounded n (str s) = omega arith
  write_message-Bounded n (arr xs) = omega arith
  write_message-Bounded n (obj m) = write_content-Bounded n m

  write_messages-Bounded :
      (n : ℕ) (ms : Items)
      → Bounded n (walk_messages see (write_messages see swap n ms)) (walk_messages see ms)
  unfolding walk_messages write_messages
  write_messages-Bounded n nil = omega arith
  write_messages-Bounded n (cons v ms) =
      Bounded-append n (walk_message see v) (walk_messages see ms)
        (walk_message see (write_message see swap n v))
        (walk_messages see (write_messages see swap (n + length (walk_message see v)) ms))
        (write_message-Bounded n v) (write_messages-Bounded (n + length (walk_message see v)) ms)

  abbrev messages_of : Fields → List A
  messages_of payload = elim (arr_at messages_key payload) [
    | none ↦ []
    | some ms ↦ walk_messages see ms
  ]

  messages_kept :
      (payload : Fields)
      → arr_at messages_key (write_system see swap payload) ≡ arr_at messages_key payload
  unfolding write_system
  messages_kept payload = elim (Option-cases (arr_at system_key payload)) [
    | inl e ↦ ground (arith, e)
    | inr (xs, e) ↦ ground (
      arith,
      e,
      keys_differ,
      member-put system_key messages_key (arr (write_parts see swap 0 xs)) payload,
    )
  ]

  system_written :
      (payload : Fields)
      → Bounded 0 (walk_system see (write_system see swap payload)) (walk_system see payload)
  unfolding walk_system write_system
  system_written payload = elim (Option-cases (arr_at system_key payload)) [
    | inl e ↦ ground (arith, e)
    | inr (xs, e) ↦ ground (
      arith,
      e,
      same_iff system_key system_key,
      member-put system_key system_key (arr (write_parts see swap 0 xs)) payload,
      write_parts-Bounded 0 xs,
    )
  ]

  system_kept :
      (payload : Fields) (ms : Items)
      → walk_system see (put messages_key (arr ms) payload) ≡ walk_system see payload
  unfolding walk_system
  system_kept payload ms =
      ground (arith, keys_differ, member-put messages_key system_key (arr ms) payload)

  payload_system :
      (payload : Fields)
      → walk_system see (write_payload see swap payload)
        ≡ walk_system see (write_system see swap payload)
  unfolding write_payload
  payload_system payload = elim (Option-cases (arr_at messages_key payload)) [
    | inl e ↦ ground (arith, e)
    | inr (ms, e) ↦ ground (
      arith,
      e,
      system_kept (write_system see swap payload)
          (write_messages see swap (length (walk_system see payload)) ms),
    )
  ]

  messages_written :
      (payload : Fields)
      → Bounded
          (length (walk_system see payload))
          (messages_of (write_payload see swap payload))
          (messages_of payload)
  unfolding write_payload
  messages_written payload = elim (Option-cases (arr_at messages_key payload)) [
    | inl e ↦ ground (arith, e, messages_kept payload)
    | inr (ms, e) ↦ ground (
      arith,
      e,
      same_iff messages_key messages_key,
      member-put messages_key messages_key
          (arr (write_messages see swap (length (walk_system see payload)) ms))
          (write_system see swap payload),
      write_messages-Bounded (length (walk_system see payload)) ms,
    )
  ]

  pub write_payload-Bounded :
      (payload : Fields)
      → length (walk_payload see (write_payload see swap payload))
        ≤ kept swap 0 (length (walk_payload see payload))
  unfolding walk_payload
  write_payload-Bounded payload =
      Bounded-append 0 (walk_system see payload) (messages_of payload)
        (walk_system see (write_payload see swap payload))
        (messages_of (write_payload see swap payload))
        (rw (payload_system payload) (system_written payload))
        (subst (λ i. Bounded i (messages_of (write_payload see swap payload)) (messages_of payload))
          (zero_add (length (walk_system see payload))) (messages_written payload))
