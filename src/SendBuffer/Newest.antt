-- ===== src/SendBuffer/Newest.antt =====
-- What `Append` and `SetCap` of core/src/send_buffer.cpp keep: the newest audio, up to the cap.
use mod_audio_fork.Common.{
  ℕ, suc, ◌+◌, ◌-◌, min, ◌≤◌, ◌<◌, ◌≡◌, refl, sym, ◌∙◌, ap, ◌⊎◌, inl, inr, false, ◌||◌, ◌==◌, ltb,
  leb, List, [], ◌++◌, append-nil, length, drop, length-append, length-drop, drop_cong, drop-drop,
  drop_all, eq-nil, drop-append_split, Bool-cases, arith,
}
use mod_audio_fork.SlabPool.{SlabPool}
use mod_audio_fork.SlabQueue.{SlabQueue}
use mod_audio_fork.SlabQueue.Contents.{contents, Holds, Keeps, Keeps-trans}
use mod_audio_fork.SendBuffer.{
  SendBuffer, AppendResult, skipped, make_way, store_loop, append, set_cap,
}
use mod_audio_fork.SendBuffer.Store.{Drops, drop_oldest-Drops, Stores, store_loop-Stores}

abbrev pub audio : SendBuffer → List ℕ
audio b = contents b.queue.chunks

pub record IsValid (p : SlabPool) (b : SendBuffer) : Type 0 where
  pub holds : Holds p b.queue
  pub capped : length (audio b) ≤ b.cap_bytes

-- Room is made: what is kept with the bytes is a tail of what was held with them, within the cap.
module _ (cap : ℕ) (bytes : List ℕ) where
  abbrev kept : List ℕ
  kept = drop (skipped cap bytes) bytes

  record Ways (p : SlabPool) (q : SlabQueue) (k : ℕ) (p' : SlabPool) (q' : SlabQueue) : Type 0 where
    left : contents q'.chunks ++ kept ≡ drop (skipped cap bytes + k) (contents q.chunks ++ bytes)
    within : skipped cap bytes + k ≤ length (contents q.chunks) + length bytes
    capped : length (contents q'.chunks) + length kept ≤ cap
    exact :
        length (contents q'.chunks) + length kept
        ≡ min cap (length (contents q.chunks) + length bytes)
    holds : Holds p' q'
    keeps : Keeps p p' q.chunks q'.chunks

  way_dropped :
      (n : ℕ) (p : SlabPool) (q : SlabQueue) (k : ℕ) (p' : SlabPool) (q' : SlabQueue)
      → Holds p q
      → length (contents q.chunks) ≤ cap
      → n + cap ≡ q.size + (length bytes - skipped cap bytes)
      → Drops n p q k p' q'
      → Ways p q k p' q'
  way_dropped n p q k p' q' h l e d = record {
    left =
        ap (λ t. t ++ kept) d.left
        ∙ drop-append_split k (skipped cap bytes) (contents q.chunks) bytes (omega (arith, d.count))
            (ground (arith, h.sized, d.count));
    within = ground (arith, h.sized, d.count);
    capped = ground (
      arith,
      h.sized,
      d.count,
      ap length d.left,
      length-drop k (contents q.chunks),
      length-drop (skipped cap bytes) bytes,
    );
    exact = ground (
      arith,
      h.sized,
      d.count,
      ap length d.left,
      length-drop k (contents q.chunks),
      length-drop (skipped cap bytes) bytes,
    );
    holds = d.holds;
    keeps = d.keeps;
  }

  way_kept :
      (p : SlabPool) (q : SlabQueue)
      → Holds p q
      → q.size + (length bytes - skipped cap bytes) ≤ cap
      → Ways p q 0 p q
  way_kept p q h e = record {
    left =
        drop-append_split 0 (skipped cap bytes) (contents q.chunks) bytes (omega arith)
          (ground (arith, h.sized));
    within = ground (arith, h.sized);
    capped = ground (arith, h.sized, length-drop (skipped cap bytes) bytes);
    exact = ground (arith, h.sized, length-drop (skipped cap bytes) bytes);
    holds = h;
    keeps = record { options = refl; others = refl };
  }

  make_way-Ways :
      (p : SlabPool) (q : SlabQueue)
      → Holds p q
      → 0 < cap
      → length (contents q.chunks) ≤ cap
      → let (k, p', q') = make_way cap (length bytes - skipped cap bytes) p q in Ways p q k p' q'
  unfolding make_way
  make_way-Ways p q h pos l =
      let n = q.size + (length bytes - skipped cap bytes) in
      elim (Bool-cases (ltb cap n)) [
        | inl t ↦
            rw (t, make_way)
              (way_dropped (n - cap) p q _ _ _ h l (ground arith)
                (drop_oldest-Drops (n - cap) p q h))
        | inr t ↦ rw (t, make_way) (way_kept p q h (ground arith))
      ]

-- What a call leaves that drops `dropped` bytes of what was held followed by `bytes`.
pub record Newest (bytes : List ℕ) (p : SlabPool) (b : SendBuffer) (dropped : ℕ) (p' : SlabPool)
    (b' : SendBuffer) : Type 0 where
  pub left : audio b' ≡ drop dropped (audio b ++ bytes)
  pub within : dropped ≤ length (audio b) + length bytes
  pub valid : IsValid p' b'
  pub keeps : Keeps p p' b.queue.chunks b'.queue.chunks

module _ (bytes : List ℕ) (p : SlabPool) (b : SendBuffer) (v : IsValid p b) where
  abbrev skip : ℕ
  skip = skipped b.cap_bytes bytes

  stored-Newest :
      (k : ℕ) (p' : SlabPool) (q' : SlabQueue) (r : AppendResult) (p'' : SlabPool) (q'' : SlabQueue)
      → Ways b.cap_bytes bytes p b.queue k p' q'
      → Stores
          (drop skip bytes)
          (record { dropped_bytes = skip + k; pool_exhausted = false })
          p'
          q'
          r
          p''
          q''
      → Newest bytes p b r.dropped_bytes p'' (record b { queue = q'' })
        × (r.pool_exhausted ≡ false
            → length (contents q''.chunks) ≡ min b.cap_bytes (length (audio b) + length bytes))
  stored-Newest k p' q' r p'' q'' w s =
      let whole : contents q'.chunks ++ drop skip bytes ≡ drop (skip + k) (audio b ++ bytes) =
        w.left in
      let left : contents q''.chunks ≡ drop r.dropped_bytes (audio b ++ bytes) =
        s.left
        ∙ ap (drop s.gone) whole
        ∙ drop-drop s.gone (skip + k) (audio b ++ bytes)
        ∙ drop_cong (audio b ++ bytes) (sym s.dropped) in
      let size : length (contents q''.chunks) + s.gone
          ≡ length (contents q'.chunks) + length (drop skip bytes) =
        omega (
          arith,
          ap length s.left,
          length-drop s.gone (contents q'.chunks ++ drop skip bytes),
          length-append (contents q'.chunks) (drop skip bytes),
          s.within,
        ) in
      (
        record {
          left = left;
          within = omega (
            arith,
            s.dropped,
            s.within,
            w.within,
            w.exact,
            ap length w.left,
            length-append (contents q'.chunks) (drop skip bytes),
            length-drop (skip + k) (audio b ++ bytes),
            length-append (audio b) bytes,
          );
          valid = record { holds = s.holds; capped = omega (arith, size, w.capped) };
          keeps = Keeps-trans w.keeps s.keeps;
        },
        λ e. omega (arith, size, w.exact, s.healthy e),
      )

  -- The fuel that `append` gives its loop is enough.
  loop-Stores :
      (k : ℕ) (p' : SlabPool) (q' : SlabQueue)
      → Ways b.cap_bytes bytes p b.queue k p' q'
      → let r : AppendResult = record { dropped_bytes = skip + k; pool_exhausted = false } in
        let s = store_loop (suc (q'.size + (length bytes - skip))) (drop skip bytes) r p' q' in
        Stores (drop skip bytes) r p' q' s.0 s.1 s.2
  loop-Stores k p' q' w =
      store_loop-Stores (suc (q'.size + (length bytes - skip))) (drop skip bytes) _ p' q'
        (omega (arith, w.holds.sized, length-drop skip bytes)) w.holds

  nothing-Newest :
      (length bytes ≡ 0) ⊎ (b.cap_bytes ≡ 0)
      → Newest bytes p b (length bytes) p b
        × (length (audio b) ≡ min b.cap_bytes (length (audio b) + length bytes))
  nothing-Newest (inl e) = (
    record {
      left = sym (
          drop_cong {n = 0} (audio b ++ bytes) e
          ∙ ap (λ t. audio b ++ t) (eq-nil bytes e)
          ∙ append-nil (audio b));
      within = omega arith;
      valid = v;
      keeps = record { options = refl; others = refl };
    },
    omega (arith, v.capped),
  )
  nothing-Newest (inr e) = (
    record {
      left =
          eq-nil (audio b) (omega (arith, v.capped))
          ∙ sym (
              drop_all (length bytes) (audio b ++ bytes)
                (omega (arith, v.capped, length-append (audio b) bytes)));
      within = omega arith;
      valid = v;
      keeps = record { options = refl; others = refl };
    },
    omega (arith, v.capped),
  )

  -- With a valid pool and buffer, `Append` keeps the newest bytes of what was held followed by what
  -- came, drops the others and says how many, and never goes over the cap; where it does not report
  -- the pool exhausted it keeps all that the cap allows. The buffer and the pool stay valid, and
  -- other leases of the pool are untouched.
  pub append-Newest :
      let (r, p', b') = append bytes p b in
      Newest bytes p b r.dropped_bytes p' b'
      × (r.pool_exhausted ≡ false
          → length (audio b') ≡ min b.cap_bytes (length (audio b) + length bytes))
      × (b'.cap_bytes ≡ b.cap_bytes)
  unfolding append
  append-Newest = elim (Bool-cases (length bytes == 0 || b.cap_bytes == 0)) [
    | inl t ↦ let (n, e) = nothing-Newest (ground arith) in rw (t, append) (n, (λ _. e), refl)
    | inr t ↦
        let w = make_way-Ways b.cap_bytes bytes p b.queue v.holds (ground arith) v.capped in
        let s = loop-Stores _ _ _ w in
        let (n, e) = stored-Newest _ _ _ _ _ _ w s in rw (t, append) (n, e, refl)
  ]

-- With a valid pool and buffer, a cap below what is held drops the oldest bytes at once and says
-- how many; another drops none.
pub set_cap-Newest :
    (cap : ℕ) (p : SlabPool) (b : SendBuffer)
    → IsValid p b
    → let (dropped, p', b') = set_cap cap p b in
      Newest [] p b dropped p' b' × (dropped ≡ length (audio b) - cap) × (b'.cap_bytes ≡ cap)
unfolding set_cap
set_cap-Newest cap p b v = elim (Bool-cases (leb b.queue.size cap)) [
  | inl t ↦
      rw (t, set_cap)
        (
          record {
            left = sym (append-nil (audio b));
            within = omega arith;
            valid = record { holds = v.holds; capped = ground (arith, v.holds.sized) };
            keeps = record { options = refl; others = refl };
          },
          ground (arith, v.holds.sized),
          refl,
        )
  | inr t ↦
      rw (t, set_cap)
        (cut (drop_oldest-Drops (b.queue.size - cap) p b.queue v.holds)
          (ground (arith, v.holds.sized)))
]
  where
    cut :
        {k : ℕ} {p' : SlabPool} {q' : SlabQueue}
        → Drops (b.queue.size - cap) p b.queue k p' q'
        → cap < length (audio b)
        → Newest [] p b k p' (record { queue = q'; cap_bytes = cap })
          × (k ≡ length (audio b) - cap)
          × (cap ≡ cap)
    cut {k} d l = (
      record {
        left = d.left ∙ ap (drop k) (sym (append-nil (audio b)));
        within = omega (arith, d.count);
        valid = record {
          holds = d.holds;
          capped = omega (arith, ap length d.left, length-drop k (audio b), d.count, v.holds.sized);
        };
        keeps = d.keeps;
      },
      omega (arith, d.count, v.holds.sized),
      refl,
    )
