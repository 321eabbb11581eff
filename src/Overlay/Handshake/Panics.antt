-- ===== src/Overlay/Handshake/Panics.antt =====
-- When the decoding of a handshake panics.
use claw_net.Base.{
  ℕ, zero, suc, ◌+◌, ◌-◌, ◌≡◌, ◌≤◌, refl, arith, true, false, List, [], ◌∷◌, length, take, drop,
  leb, ltb, length-take, length-drop, drop-drop, Bool-cases, Option-cases, inl, inr, sym, ◌∙◌,
}
use claw_net.Overlay.Handshake.{
  Meta, no_meta, panicked, uint16, read_field, read_fields, on_index, read_full, Crypto, Conn,
  check_meta, read_payload_of, read_metadata, overlay_handshake,
}
use claw_net.Overlay.Handshake.Soundness.{outcome_cases}

on_index-panics :
    (len : ℕ) (mem : List ℕ) (f : ℕ → Meta)
    → length mem ≡ len + 64
    → on_index len mem f ≡ panicked
    → len ≡ 0
on_index-panics zero mem f h e = refl
on_index-panics (suc n) [] f h e = absurd (omega arith)
on_index-panics (suc n) (x ∷ xs) f h e = absurd (ground arith)

-- The slices of a field reach into the signature at worst, so only an index can fail.
read_field-panics :
    (tag len : ℕ) (mem : List ℕ) (m : Meta)
    → length mem ≡ len + 64
    → read_field tag len mem m ≡ panicked
    → (tag ≡ 3) × (len ≡ 0)
unfolding read_field
read_field-panics tag len mem m h e =
    ground (arith, on_index-panics len mem (λ x. record m { prio = x }) h)

-- The last field is a priority without bytes: its tag is 3, and its length 0.
abbrev pub EndsInEmptyPriority : ℕ → List ℕ → Type 0
EndsInEmptyPriority len mem =
    (4 ≤ len) × (uint16 (drop (len - 4) mem) ≡ 3) × (uint16 (drop (len - 2) mem) ≡ 0)

later :
    (len tlen : ℕ) (mem : List ℕ)
    → 4 ≤ len
    → tlen ≤ len - 4
    → EndsInEmptyPriority (len - 4 - tlen) (drop tlen (drop 4 mem))
    → EndsInEmptyPriority len mem
later len tlen mem h k (p, q, r) = (
  h,
  rw (sym (after (len - 4 - tlen - 4) (len - 4) (omega arith))) q,
  rw (sym (after (len - 4 - tlen - 2) (len - 2) (omega arith))) r,
)
  where
    after : (i j : ℕ) → 4 + tlen + i ≡ j → drop i (drop tlen (drop 4 mem)) ≡ drop j mem
    after i j e =
        drop-drop (tlen + i) i tlen (drop 4 mem) refl ∙ drop-drop j (tlen + i) 4 mem (omega arith)

read_fields-panics :
    (fuel len : ℕ) (mem : List ℕ) (m : Meta)
    → length mem ≡ len + 64
    → read_fields fuel len mem m ≡ panicked
    → EndsInEmptyPriority len mem
unfolding read_fields
read_fields-panics zero len mem m h e = absurd (ground arith)
read_fields-panics (suc fuel) len mem m h e = elim (Bool-cases (ltb len 4)) [
  | inl t ↦ absurd (ground (arith, t))
  | inr t ↦ elim (Bool-cases (ltb (len - 4) tlen)) [
    | inl u ↦ absurd (ground (arith, t, u))
    | inr u ↦ elim (outcome_cases (read_field (uint16 mem) (len - 4) (drop 4 mem) m)) [
      | inl (m', q) ↦ later len tlen mem (four t) (fits u) (
          read_fields-panics fuel (len - 4 - tlen) (drop tlen (drop 4 mem)) m'
            (grind (arith, length-drop tlen (drop 4 mem), shorter t, four t, fits u))
            (ground (arith, t, u, q)))
      | inr (inl (x, q)) ↦ absurd (ground (arith, t, u, q))
      | inr (inr q) ↦
          ends (four t) (fits u)
            (read_field-panics (uint16 mem) (len - 4) (drop 4 mem) m (shorter t) q)
    ]
  ]
]
  where
    tlen : ℕ
    tlen = uint16 (drop 2 mem)

    four : ltb len 4 ≡ false → 4 ≤ len
    four t = ground (arith, t)

    fits : ltb (len - 4) tlen ≡ false → tlen ≤ len - 4
    fits u = ground (arith, u)

    shorter : ltb len 4 ≡ false → length (drop 4 mem) ≡ len - 4 + 64
    shorter t = omega (arith, length-drop 4 mem, four t)

    ends : 4 ≤ len → tlen ≤ len - 4 → (uint16 mem ≡ 3) × (len - 4 ≡ 0) → EndsInEmptyPriority len mem
    ends f g (p, z) =
        let four' : len ≡ 4 = omega arith in
        let none' : tlen ≡ 0 = omega arith in rw four' (omega arith, p, none')

module _ {K : Type 0} (c : Crypto K) where
  -- The bytes before the signature, and that they are all read.
  abbrev pub payload_of : List ℕ → List ℕ
  payload_of bs = take (uint16 (drop 4 (take 6 bs))) (drop 6 bs)

  check_meta-returns :
      (priority : ℕ) (password sig : List ℕ) (m : Meta)
      → check_meta c priority password sig m ≡ panicked
      → ⊥
  unfolding check_meta
  check_meta-returns priority password sig m e = elim (Option-cases (c.new512 password)) [
    | inl n ↦ ground (arith, n)
    | inr (hash, q) ↦ ground (arith, q)
  ]

  read_payload_of-panics :
      (priority rem : ℕ) (password payload : List ℕ)
      → length payload ≡ rem
      → 64 ≤ rem
      → read_payload_of c priority password rem payload ≡ panicked
      → EndsInEmptyPriority (rem - 64) payload
  unfolding read_payload_of
  read_payload_of-panics priority rem password payload h k e =
      elim (outcome_cases (read_fields (rem - 64) (rem - 64) payload no_meta)) [
        | inl (m, q) ↦
            absurd
              (check_meta-returns priority password (drop (rem - 64) payload) m (ground (arith, q)))
        | inr (inl (x, q)) ↦ absurd (ground (arith, q))
        | inr (inr q) ↦ read_fields-panics (rem - 64) (rem - 64) payload no_meta (omega arith) q
      ]

  read_metadata-panics :
      (priority : ℕ) (password bs : List ℕ)
      → read_metadata c priority password bs ≡ panicked
      → EndsInEmptyPriority (length (payload_of bs) - 64) (payload_of bs)
  unfolding read_metadata read_full
  read_metadata-panics priority password bs e =
      let full : leb (uint16 (drop 4 (take 6 bs))) (length (drop 6 bs)) ≡ true = ground arith in
      let l : length (payload_of bs) ≡ uint16 (drop 4 (take 6 bs)) =
        length-take _ (drop 6 bs) (ground arith) in
      rw l (
        read_payload_of-panics priority (uint16 (drop 4 (take 6 bs))) password (payload_of bs) l
          (ground arith) (ground arith))

  -- A handshake panics on what the peer sends only where the fields that it reads end in a priority of length 0: the two bytes
  -- that stand four before the signature are its tag, and the two before the signature are its length.
  pub handshake_panics :
      (conn : Conn) (a : K) (priority : ℕ) (password : List ℕ)
      → (overlay_handshake c conn a priority password).1 ≡ panicked
      → EndsInEmptyPriority (length (payload_of conn.incoming) - 64) (payload_of conn.incoming)
  unfolding overlay_handshake
  handshake_panics conn a priority password e = elim (Option-cases (c.new512 password)) [
    | inl n ↦ absurd (ground (arith, n))
    | inr (hash, q) ↦ read_metadata-panics priority password conn.incoming (ground (arith, q))
  ]
