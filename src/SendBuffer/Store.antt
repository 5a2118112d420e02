-- ===== src/SendBuffer/Store.antt =====
-- The loop of `Append` of core/src/send_buffer.cpp.
use mod_audio_fork.Common.{
  ℕ, zero, suc, ◌+◌, ◌-◌, min, ◌≤◌, ◌<◌, ◌≡◌, refl, sym, ◌∙◌, ap, inl, inr, true, false, ◌==◌, List,
  [], ◌∷◌, ◌++◌, append-nil, append_assoc, length, take, drop, length-append, length-drop, drop-min,
  drop_cong, drop-drop, drop_all, drop-append_le, take-append-drop, Bool-cases, arith,
}
use mod_audio_fork.SlabPool.{SlabPool}
use mod_audio_fork.SlabQueue
use mod_audio_fork.SlabQueue.{SlabQueue}
use mod_audio_fork.SlabQueue.Contents.{contents, Holds, Keeps, Keeps-trans}
use mod_audio_fork.SlabQueue.Append.{append_stores}
use mod_audio_fork.SlabQueue.Consume.{consume_drops}
use mod_audio_fork.SendBuffer.{AppendResult, Stored, drop_oldest, store_rest, store_loop}

-- `DropOldest` reports what it drops: the oldest bytes, as many as asked for or all.
pub record Drops (n : ℕ) (p : SlabPool) (q : SlabQueue) (k : ℕ) (p' : SlabPool) (q' : SlabQueue)
    : Type 0 where
  pub count : k ≡ min n (length (contents q.chunks))
  pub left : contents q'.chunks ≡ drop k (contents q.chunks)
  pub holds : Holds p' q'
  pub keeps : Keeps p p' q.chunks q'.chunks

pub drop_oldest-Drops :
    (n : ℕ) (p : SlabPool) (q : SlabQueue)
    → Holds p q
    → let (k, p', q') = drop_oldest n p q in Drops n p q k p' q'
unfolding drop_oldest
drop_oldest-Drops n p q h =
    let (left, size, holds, keeps) = consume_drops n p q h in
    let count : q.size - (SlabQueue.consume n p q).1.size ≡ min n (length (contents q.chunks)) =
      omega (arith, size, h.sized) in
    record {
      count = count;
      left = left ∙ sym (drop_cong (contents q.chunks) count ∙ drop-min n (contents q.chunks) refl);
      holds = holds;
      keeps = keeps;
    }

-- The loop keeps a tail of what the queue held followed by the bytes, and reports the rest dropped.
pub record Stores (bytes : List ℕ) (r : AppendResult) (p : SlabPool) (q : SlabQueue)
    (r' : AppendResult) (p' : SlabPool) (q' : SlabQueue) : Type 0 where
  pub gone : ℕ
  pub dropped : r'.dropped_bytes ≡ r.dropped_bytes + gone
  pub left : contents q'.chunks ≡ drop gone (contents q.chunks ++ bytes)
  pub within : gone ≤ length (contents q.chunks) + length bytes
  pub sticky : r.pool_exhausted ≡ true → r'.pool_exhausted ≡ true
  pub healthy : r'.pool_exhausted ≡ false → gone ≡ 0
  pub holds : Holds p' q'
  pub keeps : Keeps p p' q.chunks q'.chunks

store_all : (r : AppendResult) (p : SlabPool) (q : SlabQueue) → Holds p q → Stores [] r p q r p q
store_all r p q h = record {
  gone = 0;
  dropped = omega arith;
  left = sym (append-nil (contents q.chunks));
  within = omega arith;
  sticky = λ e. e;
  healthy = λ _. refl;
  holds = h;
  keeps = record { options = refl; others = refl };
}

-- Nothing was left to drop: the queue is empty, and what remains is dropped.
store_none :
    (bytes : List ℕ) (r : AppendResult) (p : SlabPool) (q : SlabQueue) (k : ℕ) (p' : SlabPool)
    (q' : SlabQueue)
    → Drops (length bytes) p q k p' q'
    → 0 < length bytes
    → k ≡ 0
    → Stores bytes r p q
        (record { dropped_bytes = r.dropped_bytes + k + length bytes; pool_exhausted = true })
        p'
        q'
store_none bytes r p q k p' q' d pos z = record {
  gone = k + length bytes;
  dropped = omega arith;
  left =
      d.left
      ∙ drop_all k (contents q.chunks) (omega (arith, d.count))
      ∙ sym (
          drop_all (k + length bytes) (contents q.chunks ++ bytes)
            (omega (arith, d.count, length-append (contents q.chunks) bytes)));
  within = omega (arith, d.count);
  sticky = λ e. refl;
  healthy = λ e. cc;
  holds = d.holds;
  keeps = d.keeps;
}

store_more :
    (bytes : List ℕ) (r : AppendResult) (p : SlabPool) (q : SlabQueue) (k : ℕ) (p' : SlabPool)
    (q' : SlabQueue) (r'' : AppendResult) (p'' : SlabPool) (q'' : SlabQueue)
    → Drops (length bytes) p q k p' q'
    → Stores bytes
        (record { dropped_bytes = r.dropped_bytes + k; pool_exhausted = true })
        p'
        q'
        r''
        p''
        q''
    → Stores bytes r p q r'' p'' q''
store_more bytes r p q k p' q' r'' p'' q'' d s = record {
  gone = k + s.gone;
  dropped = omega (arith, s.dropped);
  left =
      s.left
      ∙ ap (λ t. drop s.gone (t ++ bytes)) d.left
      ∙ ap (drop s.gone) (sym (drop-append_le k (contents q.chunks) bytes (omega (arith, d.count))))
      ∙ drop-drop s.gone k (contents q.chunks ++ bytes);
  within = omega (arith, s.within, d.count, ap length d.left, length-drop k (contents q.chunks));
  sticky = λ e. s.sticky refl;
  healthy = λ e. absurd (cc (s.sticky refl));
  holds = s.holds;
  keeps = Keeps-trans d.keeps s.keeps;
}

store_rest-Stores :
    (loop : List ℕ → AppendResult → SlabPool → SlabQueue → Stored) (fuel : ℕ) (bytes : List ℕ)
    (r : AppendResult) (p : SlabPool) (q : SlabQueue)
    → Holds p q
    → length (contents q.chunks) + length bytes ≤ fuel
    → ((r' : AppendResult) (p' : SlabPool) (q' : SlabQueue)
        → Holds p' q'
        → length (contents q'.chunks) + length bytes < fuel
        → let s = loop bytes r' p' q' in Stores bytes r' p' q' s.0 s.1 s.2)
    → let s = store_rest loop bytes r p q in Stores bytes r p q s.0 s.1 s.2
unfolding store_rest
store_rest-Stores loop fuel [] r p q h l ih = store_all r p q h
store_rest-Stores loop fuel (b ∷ bs) r p q h l ih =
    let bytes = b ∷ bs in
    let (k, p', q') = drop_oldest (length bytes) p q in
    let d : Drops (length bytes) p q k p' q' = drop_oldest-Drops (length bytes) p q h in
    elim (Bool-cases (k == 0)) [
      | inl t ↦ rw (t, store_rest) (store_none bytes r p q k p' q' d (omega arith) (ground arith))
      | inr t ↦
          let pos : 0 < k = ground arith in
          rw (t, store_rest)
            (store_more bytes r p q k p' q' _ _ _ d (
              ih _ p' q' d.holds
                (omega (arith, ap length d.left, length-drop k (contents q.chunks), d.count))))
    ]

-- What was appended first and what remained are the bytes again.
regroup :
    (xs : List ℕ) (n : ℕ) (bytes : List ℕ) → (xs ++ take n bytes) ++ drop n bytes ≡ xs ++ bytes
regroup xs n bytes =
    append_assoc xs (take n bytes) (drop n bytes) ∙ ap (λ t. xs ++ t) (take-append-drop n bytes)

after_append :
    (bytes : List ℕ) (r : AppendResult) (p : SlabPool) (q : SlabQueue) (n : ℕ) (p' : SlabPool)
    (q' : SlabQueue) (r'' : AppendResult) (p'' : SlabPool) (q'' : SlabQueue)
    → contents q'.chunks ≡ contents q.chunks ++ take n bytes
    → Keeps p p' q.chunks q'.chunks
    → Stores (drop n bytes) r p' q' r'' p'' q''
    → Stores bytes r p q r'' p'' q''
after_append bytes r p q n p' q' r'' p'' q'' e k s =
    let whole : contents q'.chunks ++ drop n bytes ≡ contents q.chunks ++ bytes =
      ap (λ t. t ++ drop n bytes) e ∙ regroup (contents q.chunks) n bytes in
    record {
      gone = s.gone;
      dropped = s.dropped;
      left = s.left ∙ ap (drop s.gone) whole;
      within = omega (
        arith,
        s.within,
        ap length whole,
        length-append (contents q'.chunks) (drop n bytes),
        length-append (contents q.chunks) bytes,
      );
      sticky = s.sticky;
      healthy = s.healthy;
      holds = s.holds;
      keeps = Keeps-trans k s.keeps;
    }

pub store_loop-Stores :
    (fuel : ℕ) (bytes : List ℕ) (r : AppendResult) (p : SlabPool) (q : SlabQueue)
    → length (contents q.chunks) + length bytes < fuel
    → Holds p q
    → let s = store_loop fuel bytes r p q in Stores bytes r p q s.0 s.1 s.2
unfolding store_loop
store_loop-Stores zero bytes r p q l h = absurd (omega arith)
store_loop-Stores (suc fuel) [] r p q l h = store_all r p q h
store_loop-Stores (suc fuel) (b ∷ bs) r p q l h =
    let bytes = b ∷ bs in
    let (n, p', q') = SlabQueue.append bytes p q in
    let (written, count, short, holds, keeps) = append_stores bytes p q h in
    after_append bytes r p q n p' q' _ _ _ written keeps (
      store_rest-Stores (store_loop fuel) fuel (drop n bytes) r p' q' holds
        (omega (
          arith,
          ap length (ap (λ t. t ++ drop n bytes) written ∙ regroup (contents q.chunks) n bytes),
          length-append (contents q'.chunks) (drop n bytes),
          length-append (contents q.chunks) bytes,
        ))
        (λ r' p'' q'' h' l'. store_loop-Stores fuel (drop n bytes) r' p'' q'' l' h'))
