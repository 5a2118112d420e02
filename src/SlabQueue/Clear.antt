-- ===== src/SlabQueue/Clear.antt =====
-- `Clear` of core/src/slab_queue.cpp.
use mod_audio_fork.Common.{◌≤◌, ◌≡◌, refl, List, [], ◌∷◌, length, arith}
use mod_audio_fork.SlabPool.{SlabPool, release}
use mod_audio_fork.SlabPool.Accounting.{IsValid, release-IsValid}
use mod_audio_fork.SlabQueue.{Chunk, SlabQueue, empty, release_all, clear}
use mod_audio_fork.SlabQueue.Contents.{Fits, IsChunks, Holds, Keeps, front-Fits, tail-IsChunks}

clear_chunks :
    (p : SlabPool) (cs : List Chunk)
    → IsValid p
    → length cs ≤ p.leased_slabs
    → IsChunks p.slab_size_bytes cs
    → IsValid (release_all p cs) × Keeps p (release_all p cs) cs []
unfolding release
clear_chunks p [] v l h = (v, record { options = refl; others = refl })
clear_chunks p (c ∷ cs) v l h =
    let fits : Fits p.slab_size_bytes c = front-Fits p.slab_size_bytes c cs h in
    let w = release-IsValid p v c.storage fits.0 (omega arith) in
    let (u, k) =
      clear_chunks (release c.storage p) cs w.0 (omega (arith, w.1))
        (tail-IsChunks p.slab_size_bytes c cs h) in
    (u, record { options = k.options; others = omega (arith, k.others, w.1) })

-- `Clear` empties a valid queue and gives all its slabs back to the pool, which keeps every other
-- lease.
pub clear_releases :
    (p : SlabPool) (q : SlabQueue)
    → Holds p q
    → let (p', q') = clear p q in (q' ≡ empty) × Holds p' q' × Keeps p p' q.chunks []
unfolding clear
clear_releases p q h =
    let (v, k) = clear_chunks p q.chunks h.valid h.leases h.chunks in
    (refl, record { valid = v; leases = omega arith; chunks = tt; sized = refl }, k)
