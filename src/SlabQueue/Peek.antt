-- ===== src/SlabQueue/Peek.antt =====
-- `Peek` of core/src/slab_queue.cpp.
use mod_audio_fork.Common.{
  ℕ, zero, suc, min, ◌≤◌, ◌<◌, ◌≡◌, sym, ◌∙◌, ap, List, [], ◌∷◌, length, take, drop, length-take,
  take-append_le, take-take_le, take_cong, take-nil, suc-==-zero, length-append, arith,
}
use mod_audio_fork.SlabPool.{SlabPool}
use mod_audio_fork.SlabQueue.{Chunk, SlabQueue, chunk_size, peek_chunks, peek}
use mod_audio_fork.SlabQueue.Contents.{
  front_size, chunk_bytes, contents, IsChunks, Holds, length-chunk_bytes, front-Fits,
}

peek_chunks-take :
    (n m : ℕ) (cs : List Chunk)
    → IsChunks n cs
    → peek_chunks m cs ≡ take (min (front_size cs) m) (contents cs)
peek_chunks-take n m [] h = sym (take-nil (min 0 m))
peek_chunks-take n zero (c ∷ cs) h = take_cong {m = 0} (contents (c ∷ cs)) (omega arith)
peek_chunks-take n (suc m) (c ∷ cs) h = rw (suc-==-zero m) (
    sym (
      take-take_le (min (chunk_size c) (suc m)) (chunk_size c) (drop c.begin c.storage)
        (omega arith))
    ∙ sym (
        take-append_le (min (chunk_size c) (suc m)) (chunk_bytes c) (contents cs)
          (omega (arith, length-chunk_bytes n c (front-Fits n c cs h)))))

front_size-pos :
    (n : ℕ) (cs : List Chunk) → IsChunks n cs → 0 < length (contents cs) → 0 < front_size cs
front_size-pos n [] h l = l
front_size-pos n (c ∷ []) h l =
    omega (arith, length-chunk_bytes n c h, length-append (chunk_bytes c) [])
front_size-pos n (c ∷ d ∷ cs) h l = omega arith

front_size-le : (n : ℕ) (cs : List Chunk) → IsChunks n cs → front_size cs ≤ length (contents cs)
front_size-le n [] h = omega arith
front_size-le n (c ∷ cs) h = omega (
  arith,
  length-chunk_bytes n c (front-Fits n c cs h),
  length-append (chunk_bytes c) (contents cs),
)

-- `Peek` shows the oldest bytes of a valid queue, at most as many as asked for; while the queue
-- holds bytes and one is asked for, it shows one at least.
pub peek_prefix :
    {p : SlabPool} (m : ℕ) (q : SlabQueue)
    → Holds p q
    → (peek m q ≡ take (length (peek m q)) (contents q.chunks))
      × (length (peek m q) ≤ m)
      × (0 < m → 0 < q.size → 0 < length (peek m q))
unfolding peek
peek_prefix {p} m q h = (
  shown ∙ take_cong (contents q.chunks) (sym count),
  omega (arith, count),
  λ a b. omega (arith, count, front_size-pos p.slab_size_bytes q.chunks h.chunks, h.sized),
)
  where
    shown : peek_chunks m q.chunks ≡ take (min (front_size q.chunks) m) (contents q.chunks)
    shown = peek_chunks-take p.slab_size_bytes m q.chunks h.chunks

    count : length (peek_chunks m q.chunks) ≡ min (front_size q.chunks) m
    count = omega (
      arith,
      ap length shown,
      length-take (min (front_size q.chunks) m) (contents q.chunks),
      front_size-le p.slab_size_bytes q.chunks h.chunks,
    )
