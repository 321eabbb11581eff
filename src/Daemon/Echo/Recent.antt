-- ===== src/Daemon/Echo/Recent.antt =====
-- `Recent` reads the last messages, the oldest of them first.
use native.Mathlib.Nat.{mod-eq_of_lt, mod-eq-sub-mod}
use claw_net.Base.{
  ℕ, zero, suc, ◌+◌, ◌-◌, ◌%◌, ◌≡◌, ◌∙◌, ◌≤◌, ◌<◌, refl, sym, ap, arith, true, false, some, List,
  [], get_elem?, ◌∷◌, ◌++◌, length, drop, drop_part, length-drop, ltb, Bool-cases, inl, inr,
  length-append,
}
use claw_net.Daemon.Echo.{EchoMsg, EchoBuf, read_from, recent, new_echo_buf}
use claw_net.Daemon.Echo.Ring.{Holds, push_all, push_all-Holds, new-Holds}

-- The last n elements.
abbrev pub latest : ℕ → List EchoMsg → List EchoMsg
latest n xs = drop (length xs - n) xs

get_elem?-append_left :
    (xs ys : List EchoMsg) (i : ℕ) → i < length xs → get_elem? (xs ++ ys) i ≡ get_elem? xs i
get_elem?-append_left [] ys i h = absurd (omega arith)
get_elem?-append_left (x ∷ xs) ys zero h = refl
get_elem?-append_left (x ∷ xs) ys (suc i) h = get_elem?-append_left xs ys i (omega arith)

get_elem?-append_right :
    (xs ys : List EchoMsg) (i k : ℕ) → k ≡ length xs + i → get_elem? (xs ++ ys) k ≡ get_elem? ys i
get_elem?-append_right [] ys i k e = let q : k ≡ i = omega (arith, e) in ap (get_elem? ys) q
get_elem?-append_right (x ∷ xs) ys i zero e = absurd (omega (arith, e))
get_elem?-append_right (x ∷ xs) ys i (suc k) e = get_elem?-append_right xs ys i k (omega (arith, e))

drop-get_elem? :
    (j : ℕ) (xs : List EchoMsg) (x : EchoMsg) (rest : List EchoMsg)
    → drop j xs ≡ x ∷ rest
    → (get_elem? xs j ≡ some x) × (drop (suc j) xs ≡ rest)
drop-get_elem? zero [] x rest e = absurd (cc e)
drop-get_elem? zero (y ∷ xs) x rest e = (cc e, cc e)
drop-get_elem? (suc j) [] x rest e = absurd (cc e)
drop-get_elem? (suc j) (y ∷ xs) x rest e = drop-get_elem? j xs x rest e

module _ (cap : ℕ) (old new : List EchoMsg) (size : length new + length old ≡ cap)
    (low : length new < cap) where
  -- An index from `idx` on, modulo the capacity, counts from the oldest message.
  around :
      (j : ℕ) → j < cap → get_elem? (new ++ old) ((length new + j) % cap) ≡ get_elem? (old ++ new) j
  around j h = elim (Bool-cases (ltb j (length old))) [
    | inl e ↦
        let i : (length new + j) % cap ≡ length new + j = mod-eq_of_lt (ground arith) in
        get_elem?-append_right new old j ((length new + j) % cap) i
        ∙ sym (get_elem?-append_left old new j (ground arith))
    | inr e ↦
        let far : cap ≤ length new + j = ground arith in
        let rest : (length new + j) - cap ≡ j - length old = ground arith in
        let near : j - length old < cap = ground arith in
        let i : (length new + j) % cap ≡ j - length old =
          mod-eq-sub-mod far ∙ ap (λ k. k % cap) rest ∙ mod-eq_of_lt near in
        ap (get_elem? (new ++ old)) i
        ∙ get_elem?-append_left new old (j - length old) (ground arith)
        ∙ sym (get_elem?-append_right old new (j - length old) j (ground arith))
  ]

  module _ (b : EchoBuf) (c : b.cap ≡ cap) (r : b.ring ≡ new ++ old) (i : b.idx ≡ length new) where
    -- The loop reads on to the end of the messages.
    read_from_end :
        (rest : List EchoMsg) (n k left : ℕ)
        → n ≤ cap
        → length rest ≡ left
        → k + left ≡ n
        → drop (cap - n + k) (old ++ new) ≡ rest
        → read_from b n k left ≡ some rest
    unfolding read_from
    read_from_end [] n k zero few size' up e = refl
    read_from_end [] n k (suc left) few size' up e = absurd (omega (arith, size'))
    read_from_end (x ∷ rest) n k zero few size' up e = absurd (omega (arith, size'))
    read_from_end (x ∷ rest) n k (suc left) few size' up e =
        let (here, onwards) = drop-get_elem? (cap - n + k) (old ++ new) x rest e in
        let place : b.idx + cap - n + k ≡ length new + (cap - n + k) = rw i (omega arith) in
        let read : get_elem? b.ring ((b.idx + b.cap - n + k) % b.cap) ≡ some x =
          rw (r, c)
            (ap (λ p. get_elem? (new ++ old) (p % cap)) place
              ∙ around (cap - n + k) (omega arith)
              ∙ here) in
        let later : suc (cap - n + k) ≡ cap - n + (k + 1) = omega arith in
        let ih : read_from b n (k + 1) left ≡ some rest =
          read_from_end rest n (k + 1) left few (omega (arith, size')) (omega arith)
            (ap (λ j. drop j (old ++ new)) (sym later) ∙ onwards) in
        rw (read, read_from, ih) refl

    recent_full : (n : ℕ) → recent n b ≡ some (latest n (old ++ new))
    unfolding recent
    recent_full n =
        let filled : length b.ring ≡ cap = rw r (length-append new old ∙ size) in
        let window : length (old ++ new) ≡ cap = length-append old new ∙ omega arith in
        let whole : ltb (length b.ring) b.cap ≡ false = ground arith in
        elim (Bool-cases (ltb (length b.ring) n)) [
          | inl e ↦
              let all : cap - length b.ring + 0 ≡ length (old ++ new) - n = ground arith in
              rw (whole, e)
                (read_from_end (latest n (old ++ new)) (length b.ring) 0 (length b.ring)
                  (omega arith) (length-drop (length (old ++ new) - n) (old ++ new) ∙ ground arith)
                  (omega arith) (ap (λ j. drop j (old ++ new)) all))
          | inr e ↦
              let some_of : cap - n + 0 ≡ length (old ++ new) - n = ground arith in
              rw (whole, e)
                (read_from_end (latest n (old ++ new)) n 0 n (ground arith)
                  (length-drop (length (old ++ new) - n) (old ++ new) ∙ ground arith) (omega arith)
                  (ap (λ j. drop j (old ++ new)) some_of))
        ]

recent_of_past :
    (cap : ℕ) (past : List EchoMsg) (b : EchoBuf) (n : ℕ)
    → Holds cap past b
    → recent n b ≡ some (latest n (latest cap past))
unfolding recent
recent_of_past cap past b n (Holds.filling c r i few) =
    let part : ltb (length b.ring) b.cap ≡ true = rw (r, c) (ground arith) in
    let kept : latest cap past ≡ past =
      let z : length past - cap ≡ 0 = omega arith in ap (λ k. drop k past) z in
    elim (Bool-cases (ltb (length b.ring) n)) [
      | inl e ↦
          let z : length b.ring - length b.ring ≡ length past - n = ground (arith, ap length r) in
          rw (part, e, kept)
            (ap some (ap (λ l. drop (length b.ring - length b.ring) l) r ∙ ap (λ k. drop k past) z))
      | inr e ↦
          let z : length b.ring - n ≡ length past - n = ap (λ l. length l - n) r in
          rw (part, e, kept)
            (ap some (ap (λ l. drop (length b.ring - n) l) r ∙ ap (λ k. drop k past) z))
    ]
recent_of_past cap past b n (Holds.full gone old new c r i low size e) =
    let z : length past - cap ≡ length gone =
      rw e (omega (arith, length-append gone (old ++ new), length-append old new)) in
    let kept : latest cap past ≡ old ++ new =
      ap (λ k. drop k past) z
      ∙ ap (drop (length gone)) e
      ∙ drop_part (length gone) gone (old ++ new) refl in
    rw kept (recent_full cap old new size low b c r i n)

-- For every capacity that is not 0, every sequence of messages that are pushed into a new buffer and every
-- number n, `Recent` succeeds, with the last n of the last `cap` of those messages, all of them where there
-- are fewer, in the order in which they were pushed.
pub recent-push_all :
    (cap n : ℕ) (ms : List EchoMsg)
    → 0 < cap
    → recent n (push_all ms (new_echo_buf cap)) ≡ some (latest n (latest cap ms))
recent-push_all cap n ms h =
    recent_of_past cap ms (push_all ms (new_echo_buf cap)) n
      (push_all-Holds cap [] ms (new_echo_buf cap) (new-Holds cap h))
