-- ===== src/Compress/Settles.antt =====
-- What a compression of backend/app/services/compression_service.py leaves of a thread.
use colony_agents.Prelude.{
  ℕ, zero, suc, ◌-◌, ◌<◌, Text, Bool, true, false, not, Option, none, some, List, [], ◌∷◌, map,
  select, length, take, drop, is_nil, ltb, ◌==◌, ◌≡◌, refl, ap, ◌∙◌, arith, inl, inr, Bool-cases,
  length-drop, lt→ltb, ltb→lt,
}
use colony_agents.Prelude.Table.{member}
use colony_agents.Compress.{
  Row, Memory, Thread, mark, uncompressed, store, pick_compressible, should_compress,
  estimate_dialogue_tokens, maybe_compress_context,
}

abbrev pub ids_of : List Row → List ℕ
ids_of = map (λ (m : Row). m.id)

-- No two of the rows have the same id.
abbrev pub IsDistinct : List Row → Type 0
IsDistinct [] = Unit
IsDistinct (m ∷ ms) = (member m.id (ids_of ms) ≡ false) × IsDistinct ms

outside : List ℕ → Row → Bool
outside ids m = not (member m.id ids)

uncompressed-mark :
    (ids : List ℕ) (ms : List Row)
    → uncompressed (mark ids ms) ≡ select (outside ids) (uncompressed ms)
unfolding mark outside
uncompressed-mark ids [] = refl
uncompressed-mark ids (m ∷ ms) = elim (Bool-cases (member m.id ids)) [
  | inl e ↦ elim (Bool-cases m.is_compressed) [
    | inl c ↦ rw (e, c) (uncompressed-mark ids ms)
    | inr c ↦ rw (e, c, e) (uncompressed-mark ids ms)
  ]
  | inr e ↦ elim (Bool-cases m.is_compressed) [
    | inl c ↦ rw (e, c) (uncompressed-mark ids ms)
    | inr c ↦
        rw (e, c, e)
          (ap (λ rest. record m { is_compressed = false } ∷ rest) (uncompressed-mark ids ms))
  ]
]

outside_more :
    (k : ℕ) (ids : List ℕ) (ms : List Row)
    → member k (ids_of ms) ≡ false
    → select (outside (k ∷ ids)) ms ≡ select (outside ids) ms
unfolding member outside
outside_more k ids [] h = refl
outside_more k ids (m ∷ ms) h =
    let rest = outside_more k ids ms (ground (arith, h)) in
    let other : (k == m.id) ≡ false = ground (arith, h) in
    elim (Bool-cases (member m.id ids)) [
      | inl e ↦ rw (other, e) rest
      | inr e ↦ rw (other, e) (ap (λ r. m ∷ r) rest)
    ]

outside_none : (ms : List Row) → select (outside []) ms ≡ ms
unfolding member outside
outside_none [] = refl
outside_none (m ∷ ms) = ap (λ rest. m ∷ rest) (outside_none ms)

-- What is left of rows with different ids, without the first `n` of them.
outside_first :
    (n : ℕ) (ms : List Row) → IsDistinct ms → select (outside (ids_of (take n ms))) ms ≡ drop n ms
unfolding member outside
outside_first zero ms h = outside_none ms
outside_first (suc n) [] h = refl
outside_first (suc n) (m ∷ ms) (h, hs) =
    let self : (m.id == m.id) ≡ true = ground arith in
    rw self (outside_more m.id (ids_of (take n ms)) ms h ∙ outside_first n ms hs)

picked_inv :
    (ms : List Row) (keep : ℕ)
    → is_nil (pick_compressible ms keep) ≡ false
    → (ltb keep (length ms) ≡ true) × (ltb 0 keep ≡ true)
unfolding pick_compressible
picked_inv ms keep h = elim (Bool-cases (ltb keep (length ms))) [
  | inl e ↦ elim (Bool-cases (keep == 0)) [
    | inl z ↦ let bad : true ≡ false = rw (e, z) at h in cc
    | inr z ↦ (e, ground (arith, z))
  ]
  | inr e ↦ let bad : true ≡ false = rw e at h in cc
]

module _ (model : List Row → Option Text) (print_time : ℕ → Text) where
  abbrev compress :
      (threshold_tokens keep_recent now : ℕ) (commits : Bool) → Thread → Option Memory × Thread
  compress = maybe_compress_context model print_time

  stored_rows :
      (keep now : ℕ) (t : Thread)
      → IsDistinct (uncompressed t.messages)
      → keep < length (uncompressed t.messages)
      → ltb 0 keep ≡ true
      → uncompressed
          (store model print_time
            (pick_compressible (uncompressed t.messages) keep)
            now
            true
            t).1.messages
        ≡ drop (length (uncompressed t.messages) - keep) (uncompressed t.messages)
  unfolding pick_compressible
  stored_rows keep now t distinct more some_kept =
      let longer = lt→ltb keep (length (uncompressed t.messages)) more in
      let kept : (keep == 0) ≡ false = ground (arith, some_kept) in
      rw (longer, kept)
        (uncompressed-mark _ t.messages
          ∙ outside_first (length (uncompressed t.messages) - keep) (uncompressed t.messages)
              distinct)

  -- A compression that returns a memory was made of a thread with more than `keep` messages that are
  -- not compressed.
  compressed_inv :
      (threshold keep now : ℕ) (commits : Bool) (t : Thread) (memory : Memory)
      → (compress threshold keep now commits t).0 ≡ some memory
      → (ltb keep (length (uncompressed t.messages)) ≡ true)
        × (ltb 0 keep ≡ true)
        × ((compress threshold keep now commits t)
            ≡ store model print_time (pick_compressible (uncompressed t.messages) keep) now true t)
  unfolding maybe_compress_context
  compressed_inv threshold keep now commits t memory h =
      let msgs = uncompressed t.messages in
      let old = pick_compressible msgs keep in
      elim (Bool-cases (is_nil msgs)) [
        | inl e ↦ let bad : none ≡ some memory = rw (compress, maybe_compress_context, e) at h in cc
        | inr e ↦ elim (Bool-cases (should_compress (estimate_dialogue_tokens msgs) threshold)) [
          | inr s ↦
              let bad : none ≡ some memory = rw (compress, maybe_compress_context, e, s) at h in cc
          | inl s ↦ elim (Bool-cases (is_nil old)) [
            | inl n ↦
                let bad : none ≡ some memory =
                  rw (compress, maybe_compress_context, e, s, n) at h in
                cc
            | inr n ↦ committed commits e s n h
          ]
        ]
      ]
    where
      committed :
          (commits : Bool)
          → is_nil (uncompressed t.messages) ≡ false
          → should_compress (estimate_dialogue_tokens (uncompressed t.messages)) threshold ≡ true
          → is_nil (pick_compressible (uncompressed t.messages) keep) ≡ false
          → (compress threshold keep now commits t).0 ≡ some memory
          → (ltb keep (length (uncompressed t.messages)) ≡ true)
            × (ltb 0 keep ≡ true)
            × ((compress threshold keep now commits t)
                ≡ store model print_time
                    (pick_compressible (uncompressed t.messages) keep)
                    now
                    true
                    t)
      committed false e s n h =
          let bad : none ≡ some memory = rw (compress, maybe_compress_context, e, s, n) at h in cc
      committed true e s n h =
          let (longer, kept) = picked_inv (uncompressed t.messages) keep n in
          (longer, kept, rw (compress, maybe_compress_context, e, s, n) refl)

  -- Nothing is compressed of a thread with no more messages than are kept.
  few_settle :
      (threshold keep now : ℕ) (commits : Bool) (t : Thread)
      → ltb keep (length (uncompressed t.messages)) ≡ false
      → compress threshold keep now commits t ≡ (none, t)
  unfolding maybe_compress_context pick_compressible
  few_settle threshold keep now commits t h =
      let msgs = uncompressed t.messages in
      elim (Bool-cases (is_nil msgs)) [
        | inl e ↦ rw (compress, maybe_compress_context, e) refl
        | inr e ↦ elim (Bool-cases (should_compress (estimate_dialogue_tokens msgs) threshold)) [
          | inl s ↦ rw (compress, maybe_compress_context, e, s, h) refl
          | inr s ↦ rw (compress, maybe_compress_context, e, s) refl
        ]
      ]

  -- Where the messages that are not compressed have different ids, a compression that returns a
  -- memory leaves exactly the newest `keep` of them, and one that comes next, whatever its threshold,
  -- does nothing.
  pub compress_settles :
      (threshold keep now : ℕ) (commits : Bool) (t : Thread) (memory : Memory) (threshold' now' : ℕ)
      (commits' : Bool)
      → IsDistinct (uncompressed t.messages)
      → (compress threshold keep now commits t).0 ≡ some memory
      → let t' = (compress threshold keep now commits t).1 in
        (uncompressed t'.messages
          ≡ drop (length (uncompressed t.messages) - keep) (uncompressed t.messages))
        × (length (uncompressed t'.messages) ≡ keep)
        × (compress threshold' keep now' commits' t' ≡ (none, t'))
  compress_settles threshold keep now commits t memory threshold' now' commits' distinct h =
      let (longer, kept, done) = compressed_inv threshold keep now commits t memory h in
      let msgs = uncompressed t.messages in
      let more : keep < length msgs = ltb→lt keep (length msgs) longer in
      let left = stored_rows keep now t distinct more kept in
      let n : length (drop (length msgs - keep) msgs) ≡ keep =
        omega (arith, length-drop (length msgs - keep) msgs, more) in
      rw done
        (left, rw left n, few_settle threshold' keep now' commits' _ (rw (left, n) (ground arith)))
