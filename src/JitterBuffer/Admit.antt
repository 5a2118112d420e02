-- ===== src/JitterBuffer/Admit.antt =====
-- What `Append` of core/src/jitter_buffer.cpp stores and what it refuses.
use mod_audio_fork.Common.{
  ℕ, ◌+◌, ◌-◌, min, ◌≤◌, ◌<◌, ◌^◌, ◌≡◌, refl, sym, ◌∙◌, ap, inl, inr, true, false, ◌||◌, ◌==◌, ltb,
  List, ◌++◌, append-nil, length, take, length-append, length-take, take_cong, take-take_le, ltb→lt,
  leb→le, ltb-false, ◌⊎◌, add64, Bool-cases, arith,
}
use mod_audio_fork.SlabPool.{SlabPool, Acquired, acquire}
use mod_audio_fork.SlabQueue
use mod_audio_fork.SlabQueue.{SlabQueue}
use mod_audio_fork.SlabQueue.Contents.{contents, Keeps}
use mod_audio_fork.SlabQueue.Append.{append_stores}
use mod_audio_fork.JitterBuffer.{JitterBuffer, room, append}
use mod_audio_fork.JitterBuffer.Marks.{audio, Ascending-mono, IsValid}

module _ (p : SlabPool) (j : JitterBuffer) (v : IsValid p j) where
  open j use {queue, consumed_offset, written_offset, marks, reached_marks}

  abbrev pub Appended : List ℕ → ℕ → SlabPool → JitterBuffer → Type 0
  Appended bytes refused p' j' =
      (audio j' ≡ audio j ++ take (length bytes - refused) bytes)
      × (refused ≤ length bytes)
      × (j.muted ≡ true → refused ≡ length bytes)
      × (j.muted ≡ false
          → (refused ≡ length bytes - (j.cap_bytes - length (audio j)))
            ⊎ (acquire true p' ≡ Acquired.refused))
      × IsValid p' j'
      × (j'.marks ≡ marks)
      × (j'.consumed_offset ≡ consumed_offset)
      × (j'.reached_marks ≡ reached_marks)
      × (j'.muted ≡ j.muted)
      × Keeps p p' queue.chunks j'.queue.chunks

  refused-Appended :
      (bytes : List ℕ) → (j.muted || length bytes == 0) ≡ true → Appended bytes (length bytes) p j
  refused-Appended bytes t = (
    sym (append-nil (audio j)) ∙ ap (λ x. audio j ++ x) (take_cong {m = 0} bytes (omega arith)),
    omega arith,
    (λ _. refl),
    (λ loud. let z : length bytes ≡ 0 = ground arith in inl (omega (arith, z))),
    v,
    refl,
    refl,
    refl,
    refl,
    record { options = refl; others = refl },
  )

  admitted-Appended :
      (bytes : List ℕ)
      → written_offset + length bytes < 2 ^ 64
      → j.muted ≡ false
      → let admit = min (room j) (length bytes) in
        let r = SlabQueue.append (take admit bytes) p queue in
        Appended bytes
          (length bytes - r.0)
          r.1
          (record j { queue = r.2; written_offset = add64 written_offset r.0 })
  admitted-Appended bytes small loud =
      let admit = min (room j) (length bytes) in
      let (written, count, short, holds, keeps) =
        append_stores (take admit bytes) p queue v.holds in
      let n = (SlabQueue.append (take admit bytes) p queue).0 in
      let size : length (take admit bytes) ≡ admit = omega (arith, length-take admit bytes) in
      let free : room j ≡ j.cap_bytes - length (audio j) = ground (arith, v.holds.sized) in
      let whole : contents (SlabQueue.append (take admit bytes) p queue).2.chunks
          ≡ audio j ++ take (length bytes - (length bytes - n)) bytes =
        written
        ∙ ap (λ x. audio j ++ x)
            (take-take_le n admit bytes (omega (arith, count, size))
              ∙ take_cong {m = n} bytes (omega (arith, count, size))) in
      let longer : length (contents (SlabQueue.append (take admit bytes) p queue).2.chunks)
          ≡ length (audio j) + n =
        omega (
          arith,
          ap length whole,
          length-append (audio j) (take (length bytes - (length bytes - n)) bytes),
          length-take (length bytes - (length bytes - n)) bytes,
          count,
          size,
        ) in
      let exact : add64 written_offset n ≡ written_offset + n = omega (arith, count, size) in
      (
        whole,
        omega arith,
        (λ e. absurd (cc e)),
        (λ _.
            full_or_refused n (SlabQueue.append (take admit bytes) p queue).1 free
              (omega (arith, count, size)) (λ l. short (omega (arith, size)))),
        rw exact (record {
          holds = holds;
          capped = omega (arith, longer, free, count, size, v.capped);
          counted = omega (arith, longer, v.counted);
          small = omega (arith, count, size);
          ordered =
              Ascending-mono (consumed_offset + 1) written_offset (written_offset + n) marks
                (omega arith) v.ordered;
        }),
        refl,
        refl,
        refl,
        refl,
        keeps,
      )
    where
      full_or_refused :
          (n : ℕ) (p' : SlabPool)
          → room j ≡ j.cap_bytes - length (audio j)
          → n ≤ min (room j) (length bytes)
          → (n < min (room j) (length bytes) → acquire true p' ≡ Acquired.refused)
          → (length bytes - n ≡ length bytes - (j.cap_bytes - length (audio j)))
            ⊎ (acquire true p' ≡ Acquired.refused)
      full_or_refused n p' e l s = elim (Bool-cases (ltb n (min (room j) (length bytes)))) [
        | inl t ↦ inr (s (ltb→lt n (min (room j) (length bytes)) t))
        | inr t ↦ inl (
            omega (
              arith,
              leb→le (min (room j) (length bytes)) n (ltb-false n (min (room j) (length bytes)) t),
            ))
      ]

  -- With a valid pool and buffer, and the count of bytes written below 2 ^ 64, `Append` adds the
  -- first bytes at the end and refuses the newest: all of them while muted, else those over the
  -- cap, or more where the pool has no slab for them.
  pub append_admits :
      (bytes : List ℕ)
      → written_offset + length bytes < 2 ^ 64
      → let (refused, p', j') = append bytes p j in Appended bytes refused p' j'
  unfolding append
  append_admits bytes small = elim (Bool-cases (j.muted || length bytes == 0)) [
    | inl t ↦ rw (t, append) (refused-Appended bytes t)
    | inr t ↦ rw (t, append) (admitted-Appended bytes small (ground arith))
  ]
