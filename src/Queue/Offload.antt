-- ===== src/Queue/Offload.antt =====
-- What backend/app/services/pending_queue.py stores of a message that passes the size cap.
use colony_agents.Prelude.{
  ℕ, ◌≤◌, ◌<◌, Text, none, ◌≡◌, arith, length, take, take_all, length-take, leb, Bool-cases, inl,
  inr, lt→ltb, leb→le, leb→gt,
}
use colony_agents.Prelude.Utf8.{utf8_size, utf8_size-append, length-le-utf8_size}
use colony_agents.Prelude.Dict.{Dict}
use colony_agents.World.{MetaValue}
use colony_agents.Queue.{Outside, cap_of, over_cap, stored_form, truncation_note}

-- What is left of `s[:n]` where `s` has more than `n` bytes: `n` bytes or more.
cut_size : (n : ℕ) (s : Text) → n < utf8_size s → n ≤ utf8_size (take n s)
cut_size n s h = elim (Bool-cases (leb (length s) n)) [
  | inl e ↦ rw (take_all n s (leb→le (length s) n e)) (omega arith)
  | inr e ↦ omega (arith, length-le-utf8_size (take n s), length-take n s, leb→gt (length s) n e)
]

note_size : (o : Outside) (size : ℕ) → 1 ≤ length (truncation_note o size)
note_size o size = omega arith

module _ (o : Outside) (pid max_content_kb : ℕ) (content : Text) (meta : Dict MetaValue) where
  open o use {upload}

  -- A message within the cap is stored as it is.
  stored_within :
      utf8_size content ≤ cap_of max_content_kb
      → stored_form o pid max_content_kb content meta ≡ record { content = content; meta = meta }
  unfolding stored_form
  stored_within h = ground arith

  stored_over :
      cap_of max_content_kb < utf8_size content
      → stored_form o pid max_content_kb content meta
        ≡ over_cap o (cap_of max_content_kb) content (utf8_size content) meta (upload pid content)
  unfolding stored_form
  stored_over h = rw (lt→ltb _ _ h)

  -- Where the upload of a message over the cap raises, what is stored has more bytes than the cap
  -- all the same: the cut at `cap` counts characters, and the note comes on top.
  pub truncated_over_cap :
      cap_of max_content_kb < utf8_size content
      → upload pid content ≡ none
      → cap_of max_content_kb < utf8_size (stored_form o pid max_content_kb content meta).content
  truncated_over_cap h fails =
      rw (stored_over h, fails)
        (unfold over_cap in
          rw utf8_size-append (
            omega (
              arith,
              cut_size (cap_of max_content_kb) content h,
              length-le-utf8_size (truncation_note o (utf8_size content)),
              note_size o (utf8_size content),
            )))
