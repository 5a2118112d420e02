-- ===== src/SpscRing/Accesses.antt =====
-- What one access of a thread to the ring of core/include/audiofork/spsc_ring.hpp keeps.
use mod_audio_fork.Common.{
  ℕ, ◌+◌, ◌≤◌, ◌≡◌, refl, sym, ◌∙◌, ap, false, List, ◌++◌, ltb, length, take, drop, length-append,
  take_all, take_cong, length-take, length-drop, take-append_le, drop-append_le, take-append-drop,
  add64, sub64, arith,
}
use Prim.Native.Nat.{bit_and}
use mod_audio_fork.SpscRing.{SpscRing, free_bytes, pop_count, copy_in, copy_out, size}
use mod_audio_fork.SpscRing.Slots.{view, length-view}
use mod_audio_fork.SpscRing.Copies.{view-append}
use mod_audio_fork.SpscRing.Fifo.{
  IsValid, contents, copied, copied_in, enqueued, o_inside, advanced, c_small,
}
use mod_audio_fork.SpscRing.Threads.{
  Producer, resting, checking, publishing, Consumer, waiting, reading, releasing, System,
}

-- The ring once `head` is stored.
abbrev pub published : SpscRing → List ℕ → SpscRing
published r bytes = record r { head = add64 r.head (length bytes) }

abbrev pub Produces : SpscRing → Producer → Type 0
Produces r resting = Unit {0}
Produces r (checking bytes tail) =
    (size r ≤ sub64 r.head tail) × (sub64 r.head tail ≤ length r.storage)
Produces r (publishing bytes) =
    IsValid (published r bytes) × (contents (published r bytes) ≡ contents r ++ bytes)

abbrev pub Consumes : SpscRing → Consumer → Type 0
Consumes r waiting = Unit {0}
Consumes r (reading room head) = (sub64 head r.tail ≤ size r)
Consumes r (releasing out) =
    (length out ≤ length (contents r)) × (out ≡ take (length out) (contents r))

pub record Fifo (s : System) : Type 0 where
  pub valid : IsValid s.ring
  pub order : s.pushed ≡ s.popped ++ contents s.ring
  pub produces : Produces s.ring s.producer
  pub consumes : Consumes s.ring s.consumer

-- A consumer's view outlasts bytes that come behind.
pub Consumes-more :
    (r r' : SpscRing) (c : Consumer) (bytes : List ℕ)
    → size r ≤ size r'
    → r'.tail ≡ r.tail
    → contents r' ≡ contents r ++ bytes
    → Consumes r c
    → Consumes r' c
Consumes-more r r' waiting bytes l e h k = tt
Consumes-more r r' (reading room head) bytes l e h k = omega (arith, ap (sub64 head) e)
Consumes-more r r' (releasing out) bytes l e h k =
    let fits : length out ≤ length (contents r) = k.0 in
    (
      omega (arith, fits, ap length h, length-append (contents r) bytes),
      k.1 ∙ sym (ap (take (length out)) h ∙ take-append_le (length out) (contents r) bytes fits),
    )

same_front : (xs ys zs ws : List ℕ) → length xs ≡ length zs → xs ++ ys ≡ zs ++ ws → xs ≡ zs
same_front xs ys zs ws l e =
    sym (take-append_le (length xs) xs ys (omega arith) ∙ take_all (length xs) xs (omega arith))
    ∙ ap (take (length xs)) e
    ∙ take-append_le (length xs) zs ws (omega arith)
    ∙ take_all (length xs) zs (omega arith)

-- Bytes copied in, before `head` is stored.
unfoldable pub filled_in : SpscRing → List ℕ → SpscRing
filled_in r bytes = record r { storage = copy_in bytes r.head r }

module _ (r : SpscRing) (v : IsValid r) where
  size_contents : length (contents r) ≡ size r
  size_contents = length-view (bit_and r.tail r.mask) (size r) r.storage

  pub filled_in-Fifo :
      (bytes : List ℕ)
      → size r + length bytes ≤ length r.storage
      → IsValid (filled_in r bytes)
        × (contents (filled_in r bytes) ≡ contents r)
        × Produces (filled_in r bytes) (publishing bytes)
  unfolding filled_in copied_in
  filled_in-Fifo bytes h =
      let (valid, same, queued) = enqueued r v bytes h in
      let s' = copy_in bytes r.head r in
      let o = bit_and r.tail r.mask in
      let front : view o (size r) s' ≡ contents r =
        same_front (view o (size r) s') _ (contents r) bytes
          (length-view o (size r) s' ∙ sym size_contents)
          (sym (
              view-append o (size r) (length bytes) s' (omega (arith, same, o_inside r v))
                (omega (arith, same)))
            ∙ copied r v bytes h) in
      (
        record {
          power = v.power;
          bounded = v.bounded;
          capacity = same ∙ v.capacity;
          masked = v.masked;
          filled = omega (arith, same, v.filled);
          head_small = v.head_small;
          tail_small = v.tail_small;
        },
        front,
        (valid, queued ∙ ap (λ xs. xs ++ bytes) (sym front)),
      )

  -- The room that a `tail` loaded before leaves is no more than there is.
  pub stale_room :
      (bytes : List ℕ) (tail : ℕ)
      → (size r ≤ sub64 r.head tail) × (sub64 r.head tail ≤ length r.storage)
      → ltb (free_bytes tail r) (length bytes) ≡ false
      → size r + length bytes ≤ length r.storage
  stale_room bytes tail h fits = ground (arith, c_small r v, h.0, h.1)

  -- `tail` moved on behind what was copied out.
  pub released :
      (out : List ℕ)
      → Consumes r (releasing out)
      → let r' : SpscRing = record r { tail = add64 r.tail (length out) } in
        IsValid r'
        × (contents r ≡ out ++ contents r')
        × (contents r' ≡ drop (length out) (contents r))
  released out k =
      let (valid, _, back) =
        advanced r v (length out) (length out) (omega (arith, k.0, size_contents)) in
      (valid, sym (take-append-drop (length out) (contents r)) ∙ sym (λ i. k.1 i ++ back i), back)

  pub published-size :
      (bytes : List ℕ) → Produces r (publishing bytes) → size r ≤ size (published r bytes)
  published-size bytes h = omega (
    arith,
    ap length h.1,
    length-append (contents r) bytes,
    size_contents,
    length-view (bit_and r.tail r.mask) (size (published r bytes)) r.storage,
  )

  pub taken_out :
      (room head : ℕ)
      → sub64 head r.tail ≤ size r
      → Consumes r (releasing (copy_out r.tail (pop_count room head r) r))
  taken_out room head h =
      let n = pop_count room head r in
      let (_, front, _) = advanced r v n n (omega arith) in
      let size_out : length (copy_out r.tail n r) ≡ n =
        omega (arith, ap length front, length-take n (contents r), size_contents) in
      (
        omega (arith, size_out, size_contents),
        front ∙ take_cong {m = n} (contents r) (sym size_out),
      )

  pub released-Produces :
      (out : List ℕ) (p : Producer)
      → Consumes r (releasing out)
      → Produces r p
      → Produces (record r { tail = add64 r.tail (length out) }) p
  released-Produces out resting k h = tt
  released-Produces out (checking bytes tail) k h =
      let (_, _, back) = released out k in
      (
        omega (
          arith,
          h.0,
          ap length back,
          length-drop (length out) (contents r),
          size_contents,
          length-view (bit_and (add64 r.tail (length out)) r.mask)
              (size (record r { tail = add64 r.tail (length out) })) r.storage,
        ),
        h.1,
      )
  released-Produces out (publishing bytes) k h =
      let (_, _, back) = released out k in
      let k' =
        Consumes-more r (published r bytes) (releasing out) bytes (published-size bytes h) refl h.1
          k in
      (
        after h.0 k',
        (behind h.0 k')
            ∙ ap (drop (length out)) h.1
            ∙ drop-append_le (length out) (contents r) bytes k.0
            ∙ ap (λ xs. xs ++ bytes) (sym back),
      )
    where
      r' : SpscRing
      r' = record r { head = add64 r.head (length bytes); tail = add64 r.tail (length out) }

      after :
          IsValid (published r bytes) → Consumes (published r bytes) (releasing out) → IsValid r'
      after v' k' =
          (advanced (published r bytes) v' (length out) (length out) (
            omega (
              arith,
              k'.0,
              length-view (bit_and r.tail r.mask) (size (published r bytes)) r.storage,
            ))).0

      behind :
          IsValid (published r bytes)
          → Consumes (published r bytes) (releasing out)
          → contents r' ≡ drop (length out) (contents (published r bytes))
      behind v' k' =
          (advanced (published r bytes) v' (length out) (length out) (
            omega (
              arith,
              k'.0,
              length-view (bit_and r.tail r.mask) (size (published r bytes)) r.storage,
            ))).2
