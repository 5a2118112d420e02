-- ===== src/SpscRing/Interleaved.antt =====
-- In every interleaving of the two threads the ring of core/include/audiofork/spsc_ring.hpp is a FIFO.
use mod_audio_fork.Common.{
  ◌≡◌, refl, sym, ◌∙◌, ap, subst, [], ◌++◌, append_assoc, append-nil, length, add64, arith,
}
use mod_audio_fork.SpscRing.{SpscRing}
use mod_audio_fork.SpscRing.Fifo.{IsValid, contents}
use mod_audio_fork.SpscRing.Threads.{
  System, Step, load_tail, refuse, fill, store_head, load_head, take_out, store_tail, Reach, start,
  later,
}
use mod_audio_fork.SpscRing.Accesses.{
  published, Produces, Consumes, Fifo, Consumes-more, filled_in, filled_in-Fifo, stale_room,
  released, published-size, taken_out, released-Produces,
}

Step-Fifo : (s t : System) → Step s t → Fifo s → Fifo t
unfolding filled_in
Step-Fifo s _ (load_tail bytes e) f = record {
  valid = f.valid;
  order = f.order;
  produces = (omega arith, f.valid.filled);
  consumes = f.consumes;
}
Step-Fifo s _ (refuse bytes tail e full) f = record {
  valid = f.valid;
  order = f.order;
  produces = tt;
  consumes = f.consumes;
}
Step-Fifo s _ (fill bytes tail e fits) f =
    let room = stale_room s.ring f.valid bytes tail (subst (Produces s.ring) e f.produces) fits in
    let (valid, same, produces) = filled_in-Fifo s.ring f.valid bytes room in
    record {
      valid = valid;
      order = f.order ∙ ap (λ xs. s.popped ++ xs) (sym same);
      produces = produces;
      consumes =
          Consumes-more s.ring (filled_in s.ring bytes) s.consumer [] (omega arith) refl
            (same ∙ sym (append-nil (contents s.ring))) f.consumes;
    }
Step-Fifo s _ (store_head bytes e) f =
    let (valid, queued) = subst (Produces s.ring) e f.produces in
    record {
      valid = valid;
      order =
          ap (λ xs. xs ++ bytes) f.order
          ∙ append_assoc s.popped (contents s.ring) bytes
          ∙ ap (λ xs. s.popped ++ xs) (sym queued);
      produces = tt;
      consumes =
          Consumes-more s.ring (published s.ring bytes) s.consumer bytes
            (published-size s.ring f.valid bytes (valid, queued)) refl queued f.consumes;
    }
Step-Fifo s _ (load_head room e) f = record {
  valid = f.valid;
  order = f.order;
  produces = f.produces;
  consumes = omega arith;
}
Step-Fifo s _ (take_out room head e) f = record {
  valid = f.valid;
  order = f.order;
  produces = f.produces;
  consumes = taken_out s.ring f.valid room head (subst (Consumes s.ring) e f.consumes);
}
Step-Fifo s _ (store_tail out e) f =
    let k = subst (Consumes s.ring) e f.consumes in
    let (valid, whole, _) = released s.ring f.valid out k in
    record {
      valid = valid;
      order =
          f.order
          ∙ ap (λ xs. s.popped ++ xs) whole
          ∙ sym (
              append_assoc s.popped out
                (contents (record s.ring { tail = add64 s.ring.tail (length out) })));
      produces = released-Produces s.ring f.valid out s.producer k f.produces;
      consumes = tt;
    }

-- From a valid ring that holds nothing, in every interleaving of one producer and one consumer,
-- with whatever index of the other each has loaded: the bytes of the calls of `Push` that returned
-- true are those that `Pop` has returned followed by those that the ring holds, in their order,
-- none lost and none twice, and the ring stays valid.
pub reach_fifo :
    {r : SpscRing} {s : System}
    → IsValid r
    → contents r ≡ []
    → Reach r s
    → (s.pushed ≡ s.popped ++ contents s.ring) × IsValid s.ring
reach_fifo {r} {s} v e h = let f = fifo h in (f.order, f.valid)
  where
    fifo : {t : System} → Reach r t → Fifo t
    fifo start = record { valid = v; order = sym e; produces = tt; consumes = tt }
    fifo (later {s = s} {t = t} h step) = Step-Fifo s t step (fifo h)
