-- ===== src/SpscRing/Fifo.antt =====
-- The ring of core/include/audiofork/spsc_ring.hpp as a FIFO of bytes.
use Prim.Native.Nat.{bit_and}
use native.Mathlib.Nat.{mod-lt}
use mod_audio_fork.Common.{
  ℕ, zero, suc, ◌+◌, ◌-◌, ◌%◌, ◌^◌, min, ◌≤◌, ◌<◌, ◌≡◌, refl, sym, ◌∙◌, ap, true, false, leb, List,
  [], ◌∷◌, ◌++◌, ltb, length, take, drop, add64, Bool-cases, inl, inr, arith,
}
use mod_audio_fork.SpscRing.{
  SpscRing, copy_in, copy_to, copy_from, copy_out, push, pop, size, free_bytes, pop_count,
}
use mod_audio_fork.SpscRing.Mask.{bit_and-mod, pow-pos}
use mod_audio_fork.SpscRing.Index.{mod-slot, pow_mono}
use mod_audio_fork.SpscRing.Slots.{slot, view, length-view}
use mod_audio_fork.SpscRing.Copies.{copy_from-view, length-copy_to, view-append, view-copy_to}

-- The two parts of a list, by the size of the first.
parts :
    (n : ℕ) (xs ys : List ℕ)
    → length xs ≡ min n (length xs + length ys)
    → (xs ≡ take n (xs ++ ys)) × (ys ≡ drop n (xs ++ ys))
parts zero [] ys h = (refl, refl)
parts (suc n) [] [] h = (refl, refl)
parts (suc n) [] (y ∷ ys) h = absurd (omega arith)
parts zero (x ∷ xs) ys h = absurd (omega arith)
parts (suc n) (x ∷ xs) ys h =
    let (front, rest) = parts n xs ys (omega arith) in (ap (λ zs. x ∷ zs) front, rest)

pub record IsValid (r : SpscRing) : Type 0 where
  pub power : ℕ
  pub bounded : power ≤ 31
  pub capacity : length r.storage ≡ 2 ^ power
  pub masked : r.mask ≡ 2 ^ power - 1
  pub filled : size r ≤ length r.storage
  pub head_small : r.head < 2 ^ 64
  pub tail_small : r.tail < 2 ^ 64

-- The bytes between `tail` and `head`, oldest first.
abbrev pub contents : SpscRing → List ℕ
contents r = view (bit_and r.tail r.mask) (size r) r.storage

module _ (r : SpscRing) (v : IsValid r) where
  c : ℕ
  c = length r.storage

  o : ℕ
  o = bit_and r.tail r.mask

  masked_mod : (x : ℕ) → bit_and x r.mask ≡ x % 2 ^ v.power
  masked_mod x = ap (bit_and x) v.masked ∙ bit_and-mod v.power x

  pub c_small : length r.storage ≤ 2 ^ 31
  unfolding c
  c_small = omega (
    arith,
    v.capacity,
    pow_mono v.power (31 - v.power),
    ap (λ (n : ℕ). 2 ^ n) (let e : v.power + (31 - v.power) ≡ 31 = omega (arith, v.bounded) in e),
  )

  pub o_inside : bit_and r.tail r.mask < length r.storage
  unfolding o c
  o_inside = omega (arith, v.capacity, masked_mod r.tail, mod-lt r.tail (pow-pos v.power))

  -- The offset of an index that is `d` past another.
  offset_on : (x d : ℕ) → d ≤ c → bit_and (add64 x d) r.mask ≡ slot c (bit_and x r.mask) d
  unfolding c
  offset_on x d l =
      masked_mod (add64 x d)
      ∙ mod-slot v.power x d (omega (arith, v.bounded)) (omega (arith, v.capacity))
      ∙ sym (λ i. slot (v.capacity i) (masked_mod x i) d)

  head_offset : bit_and r.head r.mask ≡ slot c o (size r)
  unfolding c o
  head_offset =
      ap (λ x. bit_and x r.mask)
        (let e : r.head ≡ add64 r.tail (size r) = omega (arith, v.head_small, v.tail_small) in e)
      ∙ offset_on r.tail (size r) v.filled

  length-copy_in : (xs : List ℕ) → length (copy_in xs r.head r) ≡ length r.storage
  unfolding copy_in
  length-copy_in xs = length-copy_to (bit_and r.head r.mask) xs r.storage

  -- Bytes copied in behind `head` leave what the ring holds, and stand behind it.
  pub copied :
      (xs : List ℕ)
      → size r + length xs ≤ length r.storage
      → view (bit_and r.tail r.mask) (size r + length xs) (copy_in xs r.head r) ≡ contents r ++ xs
  unfolding copy_in c o
  copied xs h =
      ap (λ x. view o (size r + length xs) (copy_to x xs r.storage)) head_offset
      ∙ view-copy_to o (size r) xs r.storage o_inside h

  -- What is copied out from `tail` on is what the ring then no longer holds.
  pub read :
      (n : ℕ)
      → n ≤ size r
      → contents r ≡ copy_out r.tail n r ++ contents (record r { tail = add64 r.tail n })
  unfolding copy_out c o
  read n h =
      let rest : SpscRing = record r { tail = add64 r.tail n } in
      let less : size r - n ≡ size rest =
        omega (arith, v.head_small, v.tail_small, v.filled, c_small) in
      let taken : view o n r.storage ≡ copy_from o n r.storage =
        sym (copy_from-view o n r.storage o_inside (omega (arith, v.filled))) in
      let moved : slot (length r.storage) o n ≡ bit_and rest.tail r.mask =
        sym (offset_on r.tail n (omega (arith, v.filled))) in
      ap (λ k. view o k r.storage) (let e : size r ≡ n + (size r - n) = omega arith in e)
      ∙ view-append o n (size r - n) r.storage o_inside (omega (arith, v.filled))
      ∙ (λ i. taken i ++ view (moved i) (less i) r.storage)

  length-copy_out : (n : ℕ) → n ≤ size r → length (copy_out r.tail n r) ≡ n
  unfolding copy_out c o
  length-copy_out n h =
      ap length (copy_from-view o n r.storage o_inside (omega (arith, v.filled)))
      ∙ length-view o n r.storage

  unfoldable pub copied_in : List ℕ → SpscRing
  copied_in bytes = record r {
    storage = copy_in bytes r.head r;
    head = add64 r.head (length bytes);
  }

  free : free_bytes r.tail r ≡ length r.storage - size r
  unfolding c
  free = omega (arith, v.filled, c_small)

  pub enqueued :
      (bytes : List ℕ)
      → size r + length bytes ≤ length r.storage
      → IsValid (copied_in bytes)
        × (length (copied_in bytes).storage ≡ length r.storage)
        × (contents (copied_in bytes) ≡ contents r ++ bytes)
  unfolding copied_in c
  enqueued bytes h =
      let same : length (copy_in bytes r.head r) ≡ length r.storage = length-copy_in bytes in
      let more : size r + length bytes ≡ size (copied_in bytes) =
        omega (arith, v.head_small, v.tail_small, v.filled, c_small) in
      (
        record {
          power = v.power;
          bounded = v.bounded;
          capacity = same ∙ v.capacity;
          masked = v.masked;
          filled = omega (arith, more, same);
          head_small = omega arith;
          tail_small = v.tail_small;
        },
        same,
        ap (λ k. view (bit_and r.tail r.mask) k (copy_in bytes r.head r)) (sym more)
            ∙ copied bytes h,
      )

  -- `Push`, on a valid ring and with no other call between its steps, puts all the bytes behind
  -- what the ring holds if they fit, and otherwise refuses them all and changes nothing.
  pub push_enqueues :
      (bytes : List ℕ)
      → let (accepted, r') = push bytes r in
        IsValid r'
        × (length r'.storage ≡ length r.storage)
        × (accepted ≡ leb (length (contents r) + length bytes) (length r.storage))
        × (accepted ≡ true → contents r' ≡ contents r ++ bytes)
        × (accepted ≡ false → r' ≡ r)
  unfolding push copied_in
  push_enqueues bytes = elim (Bool-cases (ltb (free_bytes r.tail r) (length bytes))) [
    | inl t ↦
        rw (t, push)
          (
            v,
            refl,
            ground (arith, free, length-view (bit_and r.tail r.mask) (size r) r.storage, v.filled),
            (λ e. absurd (cc e)),
            (λ _. refl),
          )
    | inr t ↦
        let fits : size r + length bytes ≤ length r.storage = ground (arith, free, v.filled) in
        let (valid, same, queued) = enqueued bytes fits in
        rw (t, push)
          (
            valid,
            same,
            ground (arith, length-view (bit_and r.tail r.mask) (size r) r.storage, fits),
            (λ _. queued),
            (λ e. absurd (cc e)),
          )
  ]

  -- The ring when `tail` has moved on by `n`, which is `room` or all that the ring holds.
  pub advanced :
      (room n : ℕ)
      → n ≡ min room (size r)
      → let rest : SpscRing = record r { tail = add64 r.tail n } in
        IsValid rest
        × (copy_out r.tail n r ≡ take room (contents r))
        × (contents rest ≡ drop room (contents r))
  unfolding c
  advanced room n h =
      let rest : SpscRing = record r { tail = add64 r.tail n } in
      let less : size r ≡ n + size rest =
        omega (arith, v.head_small, v.tail_small, v.filled, c_small) in
      let whole : contents r ≡ copy_out r.tail n r ++ contents rest = read n (omega arith) in
      let (front, back) = parts room (copy_out r.tail n r) (contents rest) (
        omega (
          arith,
          length-copy_out n (omega arith),
          length-view (bit_and rest.tail r.mask) (size rest) r.storage,
          less,
        )) in
      (
        record {
          power = v.power;
          bounded = v.bounded;
          capacity = v.capacity;
          masked = v.masked;
          filled = omega (arith, less, v.filled);
          head_small = v.head_small;
          tail_small = omega arith;
        },
        front ∙ ap (take room) (sym whole),
        back ∙ ap (drop room) (sym whole),
      )

  -- `Pop`, on a valid ring and with no other call between its steps, gives the oldest bytes, as
  -- many as the buffer has room for or all, and keeps the others.
  pub pop_dequeues :
      (room : ℕ)
      → let (out, r') = pop room r in
        IsValid r'
        × (length r'.storage ≡ length r.storage)
        × (out ≡ take room (contents r))
        × (contents r' ≡ drop room (contents r))
  unfolding pop
  pop_dequeues room =
      let (valid, front, back) = advanced room (pop_count room r.head r) refl in
      (valid, refl, front, back)
