-- ===== src/Overlay/Handshake/Fields.antt =====
-- The loop over the fields of a handshake that a peer of the same version sent.
use claw_net.Base.{
  ℕ, suc, ◌-◌, ◌≡◌, ◌≤◌, ◌∙◌, refl, arith, List, [], ◌∷◌, ◌++◌, length, take, drop, length-append,
  append_assoc, take_part, drop_part,
}
use claw_net.Overlay.Handshake.{
  Meta, no_meta, done, uint16, fields, slice_to, read_field, read_fields,
}

pub slice_to-done : (n : ℕ) (mem : List ℕ) → n ≤ length mem → slice_to n mem ≡ done (take n mem)
unfolding slice_to
slice_to-done n mem h = ground arith

round :
    (fuel len : ℕ) (mem : List ℕ) (m m' : Meta)
    → 4 ≤ len
    → uint16 (drop 2 mem) ≤ len - 4
    → read_field (uint16 mem) (len - 4) (drop 4 mem) m ≡ done m'
    → read_fields (suc fuel) len mem m
      ≡ read_fields fuel
          (len - 4 - uint16 (drop 2 mem))
          (drop (uint16 (drop 2 mem)) (drop 4 mem))
          m'
unfolding read_fields
round fuel len mem m m' h k e = ground (arith, e)

pub length-fields : (key : List ℕ) (prio : ℕ) → length key ≡ 32 → length (fields key prio) ≡ 53
unfolding fields
length-fields key prio h = rw (length-append key (0 ∷ 3 ∷ 0 ∷ 1 ∷ prio ∷ [])) (omega arith)

module _ (key sig : List ℕ) (prio : ℕ) (h : length key ≡ 32) where
  abbrev last_field : List ℕ
  last_field = 0 ∷ 3 ∷ 0 ∷ 1 ∷ prio ∷ sig

  abbrev key_field : List ℕ
  key_field = 0 ∷ 2 ∷ 0 ∷ 32 ∷ (key ++ last_field)

  fields_are : fields key prio ++ sig ≡ 0 ∷ 0 ∷ 0 ∷ 2 ∷ 0 ∷ 0 ∷ 0 ∷ 1 ∷ 0 ∷ 2 ∷ 0 ∷ 5 ∷ key_field
  unfolding fields
  fields_are = rw (append_assoc key (0 ∷ 3 ∷ 0 ∷ 1 ∷ prio ∷ []) sig) refl

  read_last : (m : Meta) → read_fields 50 5 last_field m ≡ done (record m { prio = prio })
  unfolding read_fields read_field
  read_last m = refl

  long : 32 ≤ length (key ++ last_field)
  long = rw (length-append key last_field) (omega arith)

  read_key : (m : Meta) → read_fields 51 41 key_field m ≡ done (record m { key = key; prio = prio })
  unfolding read_field
  read_key m =
      round 50 41 key_field m (record m { key = key }) (omega arith) (omega arith)
        (rw (slice_to-done 32 (key ++ last_field) long, take_part 32 key last_field h) refl)
      ∙ rw (drop_part 32 key last_field h) (read_last (record m { key = key }))

  abbrev minor_field : List ℕ
  minor_field = 0 ∷ 1 ∷ 0 ∷ 2 ∷ 0 ∷ 5 ∷ key_field

  read_minor :
      read_fields 52 47 minor_field no_meta
      ≡ done (record { major = 0; minor = 5; key = key; prio = prio })
  unfolding read_field
  read_minor =
      round 51 47 minor_field no_meta (record { major = 0; minor = 5; key = []; prio = 0 })
        (omega arith) (omega arith) (rw (slice_to-done 2 (0 ∷ 5 ∷ key_field) (omega arith)) refl)
      ∙ read_key (record { major = 0; minor = 5; key = []; prio = 0 })

  -- The loop reads back what the encoding wrote.
  pub read_fields-fields :
      read_fields 53 53 (fields key prio ++ sig) no_meta
      ≡ done (record { major = 0; minor = 5; key = key; prio = prio })
  unfolding read_field
  read_fields-fields = rw fields_are (
      round 52 53 (0 ∷ 0 ∷ 0 ∷ 2 ∷ 0 ∷ 0 ∷ minor_field) no_meta no_meta (omega arith) (omega arith)
        (rw (slice_to-done 2 (0 ∷ 0 ∷ minor_field) (omega arith)) refl)
      ∙ read_minor)
