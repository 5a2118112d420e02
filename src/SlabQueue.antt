-- ===== src/SlabQueue.antt =====
-- core/include/audiofork/slab_queue.hpp and core/src/slab_queue.cpp: a byte FIFO over slabs of the
-- pool. The pool is shared, so an operation takes it and returns it; a chunk's lease is the storage
-- that it carries, and its destructor is `release`. A size counts bytes that are in memory, so its
-- additions do not wrap. A failed allocation would throw through every operation here and is left out:
-- `acquire` is called with memory to be had.
pub mod Contents
pub mod Peek
pub mod Append
pub mod Pop
pub mod Consume
pub mod Clear
mod Tests
use mod_audio_fork.Common.{
  ℕ, zero, suc, ◌+◌, ◌-◌, min, Bool, true, false, ◌&&◌, Option, none, some, List, [], ◌∷◌, ◌++◌,
  ◌==◌, if◌then◌else◌, length, take, drop,
}
use mod_audio_fork.SlabPool.{SlabPool, Acquired, lease, acquire, release}

pub record Chunk : Type 0 where
  pub storage : List ℕ
  pub begin : ℕ
  pub end : ℕ

abbrev pub chunk_size : Chunk → ℕ
chunk_size c = c.end - c.begin

-- Front first.
pub record SlabQueue : Type 0 where
  pub size : ℕ
  pub chunks : List Chunk

abbrev pub empty : SlabQueue
empty = record { size = 0; chunks = [] }

abbrev pub fresh_chunk : List ℕ → Chunk
fresh_chunk storage = record { storage = storage; begin = 0; end = 0 }

abbrev pub leased_chunk : List Chunk → Acquired → Option (SlabPool × List Chunk)
leased_chunk cs (lease storage p) = some (p, cs ++ fresh_chunk storage ∷ [])
leased_chunk cs _ = none

unfoldable pub acquire_chunk : SlabPool → List Chunk → Option (SlabPool × List Chunk)
acquire_chunk p cs = leased_chunk cs (acquire true p)

-- `chunks_.empty() || chunks_.back().end == chunks_.back().lease.bytes().size()`
unfoldable pub tail_full : List Chunk → Bool
tail_full [] = true
tail_full (c ∷ []) = c.end == length c.storage
tail_full (c ∷ d ∷ cs) = tail_full (d ∷ cs)

-- `slab.size() - tail.end` of the last chunk.
unfoldable pub tail_room : List Chunk → ℕ
tail_room [] = 0
tail_room (c ∷ []) = length c.storage - c.end
tail_room (c ∷ d ∷ cs) = tail_room (d ∷ cs)

-- The bytes copied to the end of the chunk, over what its storage held there.
abbrev pub write_chunk : List ℕ → Chunk → Chunk
write_chunk bytes c = record c {
  storage = take c.end c.storage ++ (bytes ++ drop (c.end + length bytes) c.storage);
  end = c.end + length bytes;
}

unfoldable pub write_tail : List ℕ → List Chunk → List Chunk
write_tail bytes [] = []
write_tail bytes (c ∷ []) = write_chunk bytes c ∷ []
write_tail bytes (c ∷ d ∷ cs) = c ∷ write_tail bytes (d ∷ cs)

-- The head of the loop's body: a chunk with room at the end, if there is one to be had.
unfoldable pub make_room : SlabPool → List Chunk → Option (SlabPool × List Chunk)
unfolding acquire_chunk tail_full
make_room p cs = if tail_full cs then acquire_chunk p cs else some (p, cs)

-- What `Append`'s loop returns: the bytes that remain, the pool and the queue.
abbrev pub Rest : Type 0
Rest = List ℕ × SlabPool × SlabQueue

-- The rest of the loop's body, by what `make_room` found; `loop` is the loop's next round.
abbrev pub append_round :
    (List ℕ → SlabPool → SlabQueue → Rest)
    → List ℕ
    → SlabPool
    → SlabQueue
    → Option (SlabPool × List Chunk)
    → Rest
append_round loop bytes p q none = (bytes, p, q)
append_round loop bytes p q (some (p', cs)) =
    let n = min (tail_room cs) (length bytes) in
    loop (drop n bytes) p' (record { size = q.size + n; chunks = write_tail (take n bytes) cs })

-- The loop of `Append` over the bytes that remain; fuel for each byte is enough, since each round
-- stores one at least.
unfoldable pub append_loop : ℕ → List ℕ → SlabPool → SlabQueue → Rest
unfolding make_room tail_room write_tail
append_loop zero bytes p q = (bytes, p, q)
append_loop (suc fuel) [] p q = ([], p, q)
append_loop (suc fuel) (b ∷ bs) p q =
    append_round (append_loop fuel) (b ∷ bs) p q (make_room p q.chunks)

-- The bytes stored, and the pool and the queue after.
unfoldable pub append : List ℕ → SlabPool → SlabQueue → ℕ × SlabPool × SlabQueue
unfolding append_loop
append bytes p q =
    let (rest, p', q') = append_loop (length bytes) bytes p q in
    (length bytes - length rest, p', q')

abbrev pub peek_chunks : ℕ → List Chunk → List ℕ
peek_chunks max_bytes [] = []
peek_chunks max_bytes (c ∷ cs) =
    if max_bytes == 0 then [] else take (min (chunk_size c) max_bytes) (drop c.begin c.storage)

unfoldable pub peek : ℕ → SlabQueue → List ℕ
peek max_bytes q = peek_chunks max_bytes q.chunks

-- `PopFrontIfDrained`: its loop, and the test for the last chunk.
unfoldable pub pop_front_if_drained : SlabPool → List Chunk → SlabPool × List Chunk
pop_front_if_drained p [] = (p, [])
pop_front_if_drained p (c ∷ []) =
    if (chunk_size c == 0) && (c.end == length c.storage)
    then (release c.storage p, [])
    else (p, c ∷ [])
pop_front_if_drained p (c ∷ d ∷ cs) =
    if chunk_size c == 0
    then pop_front_if_drained (release c.storage p) (d ∷ cs)
    else (p, c ∷ d ∷ cs)

-- The loop of `Consume`; each round but the last pops a chunk.
unfoldable pub consume_loop : ℕ → ℕ → SlabPool → ℕ → List Chunk → SlabPool × SlabQueue
unfolding pop_front_if_drained
consume_loop zero remaining p size cs = (p, record { size = size; chunks = cs })
consume_loop (suc fuel) zero p size cs = (p, record { size = size; chunks = cs })
consume_loop (suc fuel) (suc r) p size [] = (p, record { size = size; chunks = [] })
consume_loop (suc fuel) (suc r) p size (c ∷ cs) =
    let n = min (chunk_size c) (suc r) in
    let (p', cs') = pop_front_if_drained p (record c { begin = c.begin + n } ∷ cs) in
    consume_loop fuel (suc r - n) p' (size - n) cs'

unfoldable pub consume : ℕ → SlabPool → SlabQueue → SlabPool × SlabQueue
unfolding consume_loop
consume bytes p q = consume_loop (suc (length q.chunks)) (min bytes q.size) p q.size q.chunks

abbrev pub release_all : SlabPool → List Chunk → SlabPool
release_all p [] = p
release_all p (c ∷ cs) = release_all (release c.storage p) cs

unfoldable pub clear : SlabPool → SlabQueue → SlabPool × SlabQueue
clear p q = (release_all p q.chunks, empty)
